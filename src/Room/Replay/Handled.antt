-- ===== src/Room/Replay/Handled.antt =====
-- `handle` of room/server.py, and the timestamps that guard against replayed packets.
use meshelle.Prelude.{
  All, All-from, Bool, Bool-cases, Bytes, In, In-filter_iff, List, Option, [], arith, false, filter,
  get_or, if◌then◌else◌, inl, inr, length, none, not, refl, some, true, ℕ, ◌&&◌, ◌==◌, ◌∷◌, ◌≡◌,
  ◌⊎◌,
}
use meshelle.Proto.Error.{Result, err, is_packet_error, ok}
use meshelle.Proto.Constants.{PayloadType, ack, anon_req, is_flood, path, req, response, txt_msg}
use meshelle.Proto.Crypto.{Primitives}
use meshelle.Proto.Packet.{Packet}
use meshelle.Proto.LoginRequest.{LoginRequest}
use meshelle.Config.Model.{permission}
use meshelle.Store.Clients.{record_login}
use meshelle.Room.Acl.{Grant, resolve}
use meshelle.Room.Session.{ClientSession}
use meshelle.Room.Posts.{split_welcome}
use meshelle.Room.Server.{Moment, Server, node_hash}
use meshelle.Room.Server.Responses.{login_response, open_anon}
use meshelle.Room.Server.Upkeep.{pause_pushes}
use meshelle.Room.Exec.{
  Exec, caught, continue, is_decryption_error, lift, put_session, return, ◌>>=◌,
}
use meshelle.Room.Exec.Kept.{IsPreorder, Keeps->>=, Keeps-if, Keeps-lifted}
use meshelle.Room.Replay.Forgotten.{Forgets, Idle}
use meshelle.Room.Replay.{Derived-refl, Follows, IsDistinct, KeepsFloors, KeepsFloors-IsPreorder}
use meshelle.Room.Handlers.Sending.Kept.{send_response-Keeps}
use meshelle.Room.Replay.Steps.{Floored, Floored-change, Floored-claim, Floored-sends}
use meshelle.Room.Replay.Hearing.{
  Floored-on_path_return, on_request-KeepsFloors, on_text-KeepsFloors,
}
use meshelle.Room.Replay.Entering.{
  Precedes, Raises, Raises-Derived, Raises-then, login_session-fields, put_session-Raises,
  session_of-Found,
}
use meshelle.Room.Handlers.Logins.{
  admit, admit_granted, give_welcome, is_replay, log_in, login_session, on_anon_request, session_of,
}
use meshelle.Room.Handlers.{
  candidate_sessions, forgiven, handle, handle_kind, on_bare_ack, on_datagram, on_opened,
  try_sessions,
}
use meshelle.Mesh.Clock.{unique_now}
use meshelle.Proto.Datagram.{Datagram, open_with}
use meshelle.Proto.AnonRequest
use meshelle.Proto.LoginRequest
use meshelle.Proto.Ack
use meshelle.Proto.Datagram

-- Over the keys whose sessions may be dropped.
module _ (D : Bytes → Type 0) where
  abbrev order : IsPreorder (KeepsFloors D)
  order = KeepsFloors-IsPreorder D

  All-In-filter :
      (p : ClientSession → Bool) (ss : List ClientSession) → All (λ s. In s ss) (filter p ss)
  All-In-filter p ss = All-from (λ s. In s ss) (filter p ss) (λ s i. ((In-filter_iff s p ss).0 i).0)

  Raises-refl : (ss : List ClientSession) → Raises D ss ss
  Raises-refl ss = Raises-Derived D ss ss (Derived-refl D ss)

  -- After a call of pure code, and after an exception that is caught.
  Raises-lifted {ℓ κ} :
      {A : Type ℓ} {B : Type κ} (sv : Server) (r : Result A) (rest : A → Exec B)
      → ((x : A) → Raises D sv.sessions (rest x sv).1.sessions)
      → Raises D sv.sessions ((lift r >>= rest) sv).1.sessions
  Raises-lifted sv (err raised) rest k = Raises-refl sv.sessions
  Raises-lifted sv (ok x) rest k = k x

  Raises-caught {ℓ κ} :
      {A : Type ℓ} {B : Type κ} (sv : Server) (r : Result A) (other : Exec B) (rest : A → Exec B)
      → Raises D sv.sessions (other sv).1.sessions
      → ((x : A) → Raises D sv.sessions (rest x sv).1.sessions)
      → Raises D sv.sessions (caught r other rest sv).1.sessions
  Raises-caught sv (ok x) other rest h k = k x
  Raises-caught sv (err raised) other rest h k =
      elim (is_decryption_error raised)
        as (λ b.
          (Raises D) sv.sessions ((if b then other else (λ t. (err raised, t))) sv).1.sessions) [
            | true ↦ h
            | false ↦ Raises-refl sv.sessions
          ]

  -- After an answer is made of what a method returned.
  Raises-continue {ℓ κ} :
      {A : Type ℓ} {B : Type κ} (sv : Server) (o : Result A × Server) (answer : A → B)
      → Raises D sv.sessions o.1.sessions
      → Raises D sv.sessions (continue o (λ x. return (answer x))).1.sessions
  Raises-continue sv (err raised, after) answer k = k
  Raises-continue sv (ok x, after) answer k = k

  Raises-answered {ℓ κ} :
      {A : Type ℓ} {B : Type κ} (sv : Server) (first : Exec A) (answer : A → B)
      → Raises D sv.sessions (first sv).1.sessions
      → Raises D sv.sessions ((first >>= λ x. return (answer x)) sv).1.sessions
  Raises-answered sv first answer h = Raises-continue sv (first sv) answer h

  Raises-if {ℓ} :
      {A : Type ℓ} (sv : Server) (b : Bool) (first second : Exec A)
      → Raises D sv.sessions (first sv).1.sessions
      → Raises D sv.sessions (second sv).1.sessions
      → Raises D sv.sessions ((if b then first else second) sv).1.sessions
  Raises-if sv true first second h k = h
  Raises-if sv false first second h k = k

  Floored-give_welcome : (key : Bytes) (since : ℕ) → Floored D (give_welcome key since)
  unfolding give_welcome
  Floored-give_welcome key since sv =
      Keeps-if (KeepsFloors D) order ((since == 0) && not (length sv.settings.welcome == 0)) _ _
        (Keeps-lifted (KeepsFloors D) order (split_welcome sv.settings.welcome) _ (λ chunks.
          (Floored-change D) key (λ s. record s { welcome = chunks }) (λ t. (refl, omega arith))))
        (λ after. Derived-refl D after.sessions) sv

  module _ (c : Primitives) where
    admit-Raises :
        (m : Moment) (packet : Packet) (key secret : Bytes) (login : LoginRequest) (grant : Grant)
        (sv : Server)
        → is_replay login.timestamp (session_of key sv.sessions) ≡ false
        → Raises D sv.sessions (admit c m packet key secret login grant sv).1.sessions
    unfolding admit
    admit-Raises m packet key secret login grant sv fresh =
        let by_flood = is_flood packet.route in
        let recorded =
          record_login sv.db sv.room_id key (permission grant.role) login.timestamp login.sync_since
            m.now by_flood in
        let existing = session_of key sv.sessions in
        let found = session_of-Found key sv.sessions in
        let s =
          login_session m.now by_flood key secret login grant recorded.0.sync_since existing in
        let (same_key, same_time) =
          login_session-fields m.now by_flood key secret login grant recorded.0.sync_since
            sv.sessions existing found in
        let entered_state : Server = record sv {
          db = recorded.1;
          sessions = put_session key s sv.sessions;
        } in
        (Raises-then D) sv.sessions entered_state.sessions _
          (put_session-Raises D key s sv.sessions (rw same_time fresh) same_key)
          (Keeps->>= (KeepsFloors D) order (give_welcome key login.sync_since) _
            (Floored-give_welcome key login.sync_since)
            (λ done t.
              let stamp = unique_now t.last_unique m.now in
              let stamped : Server = record (pause_pushes m.monotonic t) { last_unique = stamp } in
              Keeps-lifted (KeepsFloors D) order (login_response grant.role stamp m.random) _
                (λ reply.
                  send_response-Keeps (KeepsFloors D) order (Floored-sends D) c s packet reply)
                stamped)
            entered_state)

    log_in-Raises :
        (m : Moment) (packet : Packet) (key secret : Bytes) (login : LoginRequest) (sv : Server)
        → Raises D sv.sessions (log_in c m packet key secret login sv).1.sessions
    unfolding log_in
    log_in-Raises m packet key secret login sv =
        granted (resolve sv.settings key login.password)
          (is_replay login.timestamp (session_of key sv.sessions)) refl
      where
        granted :
            (o : Option Grant) (replayed : Bool)
            → is_replay login.timestamp (session_of key sv.sessions) ≡ replayed
            → Raises D sv.sessions
                (admit_granted c m packet key secret login replayed o sv).1.sessions
        granted none replayed e = Raises-refl sv.sessions
        granted (some grant) true e = Raises-refl sv.sessions
        granted (some grant) false e = admit-Raises m packet key secret login grant sv e

    on_anon_request-Raises :
        (m : Moment) (packet : Packet) (sv : Server)
        → Raises D sv.sessions (on_anon_request c m packet sv).1.sessions
    unfolding on_anon_request
    on_anon_request-Raises m packet sv =
        Raises-lifted sv (AnonRequest.decode packet.payload) _ (λ a.
          Raises-if sv (a.dest_hash == node_hash sv) _ _
            (Raises-caught sv (open_anon c sv a) (return false) _ (Raises-refl sv.sessions)
              (λ opened. Raises-lifted sv (LoginRequest.decode opened.1) _ (λ login.
                Raises-answered sv (log_in c m packet a.sender_public_key opened.0 login)
                  (λ done. true) (log_in-Raises m packet a.sender_public_key opened.0 login sv))))
            (Raises-refl sv.sessions))

    on_opened-KeepsFloors :
        (m : Moment) (packet : Packet) (kind : PayloadType) (s : ClientSession) (plaintext : Bytes)
        (sv : Server)
        → IsDistinct sv.sessions
        → Forgets m.now D sv
        → In s sv.sessions
        → KeepsFloors D sv (on_opened c m packet kind s plaintext sv).1
    unfolding on_opened
    on_opened-KeepsFloors m packet txt_msg s plaintext sv d w h =
        (on_text-KeepsFloors D) c m s plaintext sv d h w
    on_opened-KeepsFloors m packet req s plaintext sv d w h =
        (on_request-KeepsFloors D) c m s packet plaintext sv d h
    on_opened-KeepsFloors m packet path s plaintext sv d w h =
        (Floored-on_path_return D) m s plaintext sv
    on_opened-KeepsFloors m packet _ s plaintext sv d w h = Derived-refl D sv.sessions

    try_sessions-Raises :
        (m : Moment) (packet : Packet) (d : Datagram) (ss : List ClientSession) (sv : Server)
        → IsDistinct sv.sessions
        → Forgets m.now D sv
        → All (λ s. In s sv.sessions) ss
        → Raises D sv.sessions (try_sessions c m packet d ss sv).1.sessions
    unfolding try_sessions
    try_sessions-Raises m packet d [] sv distinct w h = Raises-refl sv.sessions
    try_sessions-Raises m packet d (s ∷ ss) sv distinct w (h, hs) =
        Raises-caught sv (open_with c s.shared_secret d) _ _
          (try_sessions-Raises m packet d ss sv distinct w hs)
          (λ plaintext.
            Raises-answered sv (on_opened c m packet packet.kind s plaintext) (λ done. true)
              (Raises-Derived D sv.sessions _
                (on_opened-KeepsFloors m packet packet.kind s plaintext sv distinct w h)))

    on_datagram-Raises :
        (m : Moment) (packet : Packet) (sv : Server)
        → IsDistinct sv.sessions
        → Forgets m.now D sv
        → Raises D sv.sessions (on_datagram c m packet sv).1.sessions
    unfolding on_datagram
    on_datagram-Raises m packet sv distinct w =
        Raises-lifted sv (Datagram.decode packet.payload) _ (λ d.
          Raises-if sv (d.dest_hash == node_hash sv) _ _
            (try_sessions-Raises m packet d (candidate_sessions d.src_hash sv.sessions) sv distinct
              w (All-In-filter (λ s. get_or s.public_key 0 0 == d.src_hash) sv.sessions))
            (Raises-refl sv.sessions))

    handle_kind-Raises :
        (m : Moment) (packet : Packet) (kind : PayloadType) (sv : Server)
        → IsDistinct sv.sessions
        → Forgets m.now D sv
        → Raises D sv.sessions (handle_kind c m packet kind sv).1.sessions
    unfolding handle_kind on_bare_ack
    handle_kind-Raises m packet ack sv d w =
        Raises-lifted sv (Ack.decode packet.payload) _
          (λ a. Raises-Derived D sv.sessions _ (Floored-claim D a.checksum sv))
    handle_kind-Raises m packet anon_req sv d w = on_anon_request-Raises m packet sv
    handle_kind-Raises m packet req sv d w = on_datagram-Raises m packet sv d w
    handle_kind-Raises m packet txt_msg sv d w = on_datagram-Raises m packet sv d w
    handle_kind-Raises m packet path sv d w = on_datagram-Raises m packet sv d w
    handle_kind-Raises m packet response sv d w = on_datagram-Raises m packet sv d w
    handle_kind-Raises m packet _ sv d w = Raises-refl sv.sessions

    forgiven-Raises :
        (ss : List ClientSession) (o : Result Bool × Server)
        → Raises D ss o.1.sessions
        → Raises D ss (forgiven o).1.sessions
    forgiven-Raises ss (ok claimed, after) h = h
    forgiven-Raises ss (err raised, after) h = elim (Bool-cases (is_packet_error raised)) [
      | inl e ↦ rw e h
      | inr e ↦ rw e h
    ]

    pub handle-RaisesBy :
        (m : Moment) (packet : Packet) (sv : Server)
        → IsDistinct sv.sessions
        → Forgets m.now D sv
        → Raises D sv.sessions (handle c m packet sv).1.sessions
    unfolding handle
    handle-RaisesBy m packet sv distinct w =
        forgiven-Raises sv.sessions (handle_kind c m packet packet.kind sv)
          (handle_kind-Raises m packet packet.kind sv distinct w)

-- Whatever packet a room is offered, and whether its handling succeeds. Every session afterwards
-- follows one of the same client whose last timestamp is not above its own, or is a client's that
-- had none. Every client that had a session has one still, whose last timestamp is not below, unless
-- the settings forget idle clients and the client's row had been idle for longer. So a packet lowers
-- the timestamp below which a client's packets are replays only by forgetting an idle client. The
-- sessions' keys stay distinct.
pub handle-Raises :
    (c : Primitives) (m : Moment) (packet : Packet) (sv : Server)
    → IsDistinct sv.sessions
    → let after = (handle c m packet sv).1 in
      ((t : ClientSession) → In t after.sessions → Precedes sv.sessions t)
      × ((s : ClientSession)
          → In s sv.sessions
          → ((t : ClientSession) × In t after.sessions × Follows s t) ⊎ Idle m.now sv s.public_key)
      × IsDistinct after.sessions
unfolding Raises
handle-Raises c m packet sv distinct =
    let (follows, lives, stays) =
      handle-RaisesBy (Idle m.now sv) c m packet sv distinct (λ key idle. idle) in
    (follows, lives, stays distinct)
