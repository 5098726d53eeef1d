-- ===== src/Room/Replay/Hearing.antt =====
-- The methods of room/server.py that hear a client: messages, requests, and returned paths.
use meshelle.Prelude.{
  =b=→eq, Bool-cases, Bytes, In, [], arith, inl, inr, ltb, none, not, refl, take, update_where, ℕ,
  ◌&&◌, ◌++◌, ◌==◌, ◌=b=◌, ◌||◌, ◌∷◌, ◌≤◌,
}
use meshelle.Proto.Error.{pack_u32}
use meshelle.Proto.Crypto.{Primitives}
use meshelle.Proto.Packet.{Packet}
use meshelle.Proto.TextMessage.{TextMessage}
use meshelle.Proto.ServerRequest.{ServerRequest}
use meshelle.Room.Session.{ClientSession, has_out_path}
use meshelle.Room.Server.{Moment, Server}
use meshelle.Room.Exec.{change, heard}
use meshelle.Room.Exec.Kept.{IsPreorder, Keeps->>=, Keeps-if, Keeps-lifted, Keeps-lifted_at}
use meshelle.Room.Replay.Forgotten.{Forgets, KeepsTexts, KeepsTexts-IsPreorder}
use meshelle.Room.Replay.{
  Derived-refl, Derived-trans, Derived-update_where, IsDistinct, IsDistinct-same, KeepsFloors,
  KeepsFloors-IsPreorder,
}
use meshelle.Room.Handlers.Sending.Kept.{schedule-Keeps, send_response-Keeps}
use meshelle.Room.Handlers.Messages.Answer.{send_answer-Keeps}
use meshelle.Room.Replay.Steps.{
  Floored, Floored-change, Floored-claim, Floored-sends, Texted-answer_text, Texted-sends,
}
use meshelle.Room.Handlers.Messages.{answer_text, is_handled, on_text, take_text}
use meshelle.Room.Handlers.Requests.{
  answer_keep_alive, cursor_after, force_cursor, forced_since, on_keep_alive, on_request,
  request_reply, send_reply, take_request,
}
use meshelle.Room.Handlers.Paths.{has_ack, on_path_return}
use meshelle.Proto.PathReturn.{PathReturn}
use meshelle.Proto.Constants.{is_direct, req_keep_alive}
use meshelle.Store.Clients.{set_out_path}
use mathlib.Core.Path.{subst}
use meshelle.Proto.TextMessage
use meshelle.Proto.ServerRequest
use meshelle.Proto.PathReturn
use meshelle.Proto.Ack
use meshelle.Proto.Packet

-- Over the keys whose sessions may be dropped.
module _ (D : Bytes → Type 0) where
  abbrev order : IsPreorder (KeepsFloors D)
  order = KeepsFloors-IsPreorder D

  -- The state in which a client has been heard.
  abbrev heard_state : ClientSession → ℕ → ℕ → Server → Server
  heard_state s timestamp now sv = record sv {
    sessions = update_where (λ t. t.public_key =b= s.public_key) (heard timestamp now) sv.sessions;
  }

  heard_state-KeepsFloors :
      (s : ClientSession) (timestamp now : ℕ) (sv : Server)
      → IsDistinct sv.sessions
      → In s sv.sessions
      → s.last_timestamp ≤ timestamp
      → KeepsFloors D sv (heard_state s timestamp now sv)
  heard_state-KeepsFloors s timestamp now sv distinct h later =
      (Derived-update_where D) (λ t. t.public_key =b= s.public_key) (heard timestamp now)
        sv.sessions
        (λ t i e.
          let same =
            IsDistinct-same sv.sessions s t distinct h i (=b=→eq t.public_key s.public_key e) in
          (refl, subst (λ u. u.last_timestamp ≤ timestamp) same later))

  Floored-force_cursor : (s : ClientSession) (since : ℕ) → Floored D (force_cursor s since)
  unfolding force_cursor
  Floored-force_cursor s since =
      Keeps-if (KeepsFloors D) order (ltb 0 since && not (since == s.sync_since)) _ _
        (λ sv.
          (Floored-change D) s.public_key (λ t. record t { sync_since = since })
            (λ t. (refl, omega arith)) sv)
        (λ sv. Derived-refl D sv.sessions)

  -- The state in which the path to a client has been learned.
  abbrev routed_state : ClientSession → PathReturn → ℕ → Server → Server
  routed_state s r now sv = record sv {
    sessions =
        update_where (λ t. t.public_key =b= s.public_key)
          (λ t. record t {
            out_path = r.path;
            out_path_len = PathReturn.packed r;
            last_activity = now;
          })
          sv.sessions;
    db = set_out_path sv.db sv.room_id s.public_key r.path (PathReturn.packed r);
  }

  pub Floored-on_path_return :
      (m : Moment) (s : ClientSession) (plaintext : Bytes)
      → Floored D (on_path_return m s plaintext)
  unfolding on_path_return
  Floored-on_path_return m s plaintext sv =
      Keeps-lifted_at (KeepsFloors D) order sv (PathReturn.decode plaintext) _ (λ r e.
        let routed = routed_state s r m.now sv in
        (Derived-trans D) sv.sessions routed.sessions _
          (Floored-change D s.public_key
            (λ t. record t {
              out_path = r.path;
              out_path_len = PathReturn.packed r;
              last_activity = m.now;
            })
            (λ t. (refl, omega arith)) sv)
          (Keeps-if (KeepsFloors D) order (has_ack r) _ _ (Floored-claim D (take Ack.len r.extra))
            (λ after. Derived-refl D after.sessions) routed))

  module _ (c : Primitives) where
    Floored-answer_keep_alive :
        (s : ClientSession) (plaintext : Bytes) (since : ℕ)
        → Floored D (answer_keep_alive c s plaintext since)
    unfolding answer_keep_alive
    Floored-answer_keep_alive s plaintext since sv =
        Keeps-lifted (KeepsFloors D) order (Ack.make _) _
          (λ a. Keeps-lifted (KeepsFloors D) order (Packet.make _) _ (λ p.
            schedule-Keeps (KeepsFloors D) order (Floored-sends D) p
              sv.timings.server_response_delay))
          sv

    Floored-on_keep_alive :
        (s : ClientSession) (plaintext : Bytes) (request : ServerRequest)
        → Floored D (on_keep_alive c s plaintext request)
    unfolding on_keep_alive
    Floored-on_keep_alive s plaintext request =
        Keeps->>= (KeepsFloors D) order (force_cursor s (forced_since request.body)) _
          (Floored-force_cursor s (forced_since request.body))
          (λ forced sv.
            let cleared : Server = record sv {
              sessions =
                  update_where (λ t. t.public_key =b= s.public_key)
                    (λ t. record t { pending_ack = none }) sv.sessions;
            } in
            (Derived-trans D) sv.sessions cleared.sessions _
              (Floored-change D s.public_key (λ t. record t { pending_ack = none })
                (λ t. (refl, omega arith)) sv)
              (Keeps-if (KeepsFloors D) order (has_out_path s) _ _
                (Floored-answer_keep_alive s plaintext (cursor_after s (forced_since request.body)))
                (λ after. Derived-refl D after.sessions) cleared))

    Floored-send_reply :
        (s : ClientSession) (packet : Packet) (timestamp : ℕ) (reply : Bytes)
        → Floored D (send_reply c s packet timestamp reply)
    unfolding send_reply
    Floored-send_reply s packet timestamp [] sv = Derived-refl D sv.sessions
    Floored-send_reply s packet timestamp (b ∷ bs) sv =
        Keeps-lifted (KeepsFloors D) order (pack_u32 timestamp) _
          (λ stamp.
            send_response-Keeps (KeepsFloors D) order (Floored-sends D) c s packet
              (stamp ++ b ∷ bs))
          sv

    pub on_text-KeepsFloors :
        (m : Moment) (s : ClientSession) (plaintext : Bytes) (sv : Server)
        → IsDistinct sv.sessions
        → In s sv.sessions
        → Forgets m.now D sv
        → KeepsFloors D sv (on_text c m s plaintext sv).1
    unfolding on_text take_text change
    on_text-KeepsFloors m s plaintext sv distinct h w =
        Keeps-lifted_at (KeepsFloors D) order sv (TextMessage.decode plaintext) _ (λ message e.
          elim (Bool-cases
            (not (is_handled c message.kind) || ltb message.timestamp s.last_timestamp)) [
              | inl ignored ↦ rw ignored (Derived-refl D sv.sessions)
              | inr taken ↦
                  let later : s.last_timestamp ≤ message.timestamp = ground arith in
                  rw taken (
                    (Derived-trans D) sv.sessions
                      (heard_state s message.timestamp m.now sv).sessions _
                      (heard_state-KeepsFloors s message.timestamp m.now sv distinct h later)
                      (Keeps-lifted (KeepsTexts m.now D) (KeepsTexts-IsPreorder m.now D)
                        (TextMessage.ack_hash c message s.public_key) _
                        (λ checksum.
                          Keeps->>= (KeepsTexts m.now D) (KeepsTexts-IsPreorder m.now D)
                            (answer_text c m s message (message.timestamp == s.last_timestamp)
                              message.kind)
                            _
                            (Texted-answer_text D c m s message
                              (message.timestamp == s.last_timestamp) message.kind)
                            (λ answer.
                              send_answer-Keeps (KeepsTexts m.now D) (KeepsTexts-IsPreorder m.now D)
                                (Texted-sends D m.now) c m s message checksum answer))
                        (heard_state s message.timestamp m.now sv) w).0)
            ])

    pub on_request-KeepsFloors :
        (m : Moment) (s : ClientSession) (packet : Packet) (plaintext : Bytes) (sv : Server)
        → IsDistinct sv.sessions
        → In s sv.sessions
        → KeepsFloors D sv (on_request c m s packet plaintext sv).1
    unfolding on_request take_request change
    on_request-KeepsFloors m s packet plaintext sv distinct h =
        Keeps-lifted_at (KeepsFloors D) order sv (ServerRequest.decode plaintext) _ (λ request e.
          elim (Bool-cases (ltb request.timestamp s.last_timestamp)) [
            | inl ignored ↦ rw ignored (Derived-refl D sv.sessions)
            | inr taken ↦
                let later : s.last_timestamp ≤ request.timestamp = ground arith in
                let after = heard_state s request.timestamp m.now sv in
                rw taken (
                  (Derived-trans D) sv.sessions after.sessions _
                    (heard_state-KeepsFloors s request.timestamp m.now sv distinct h later)
                    (Keeps-if (KeepsFloors D) order
                      ((request.req_type == req_keep_alive) && is_direct packet.route) _ _
                      (Floored-on_keep_alive s plaintext request)
                      (λ t.
                        Keeps-lifted (KeepsFloors D) order (request_reply m s request t) _
                          (Floored-send_reply s packet request.timestamp) t)
                      after))
          ])
