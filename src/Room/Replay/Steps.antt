-- ===== src/Room/Replay/Steps.antt =====
-- The methods of room/server.py that write no session's timestamp.
use meshelle.Prelude.{
  Bool, Bytes, List, [], arith, false, inl, inr, not, refl, sym, true, ℕ, ◌++◌, ◌=b=◌, ◌||◌, ◌∷◌,
}
use meshelle.Proto.Text.{Text, utf8_encode}
use meshelle.Proto.TextMessage.{TextMessage, body}
use meshelle.Config.Model.{may_post}
use meshelle.Room.Session.{ClientSession}
use meshelle.Room.Posts.{decode_post_text}
use meshelle.Room.Server.{Moment, Outgoing, Scheduled, Server, on_ack}
use meshelle.Room.Server.Acks.{on_ack-Answered}
use meshelle.Room.Server.Upkeep.{forget_sessions, store_post}
use meshelle.Room.Exec.{Exec, change}
use meshelle.Room.Exec.Kept.{IsPreorder, Keeps, Keeps->>=, Keeps-if, Keeps-lifted, Keeps-return}
use meshelle.Room.Replay.Forgotten.{KeepsTexts, KeepsTexts-IsPreorder, pruned-Forgets, pruned-Idle}
use meshelle.Store.Model.{Db, posted}
use meshelle.Store.Posts.{prune_posts}
use meshelle.Store.Counters.{increment_counter, reset_counters}
use meshelle.Room.Server.Places.{increment_counter-rows}
use meshelle.Room.Replay.{
  Derived, Derived-filter, Derived-middle, Derived-refl, Derived-update_where, Follows, KeepsFloors,
  KeepsFloors-IsPreorder,
}
use meshelle.Room.Handlers.Messages.{
  accept_post, accept_text, answer_text, clear_stats, cli_context, is_admin, post_system_message,
  run_cli, store_text,
}
use meshelle.Room.Handlers.Paths.{claim}
use meshelle.Proto.Constants.{TxtType, cli_data, plain, signed_plain}
use meshelle.Room.AdminCli.{handle_command, split_prefix}
use meshelle.Store.Posts.Order.{add_post-next_post_ts}
use meshelle.Proto.Crypto.{Primitives}
use meshelle.Proto.Text.Codec.{decode_replace}
use meshelle.Room.Handlers.Sending.Kept.{send_advert-Keeps}
use meshelle.Room.AdminCli.Kept.{handle_command-Keeps}
use mathlib.Core.Path.{subst}

-- Over the keys whose sessions may be dropped.
module _ (D : Bytes → Type 0) where
  -- A method after which every session follows one from before.
  abbrev pub Floored {ℓ} : {A : Type ℓ} → Exec A → Type 0
  Floored first = Keeps (KeepsFloors D) (KeepsFloors-IsPreorder D) first

  abbrev order : IsPreorder (KeepsFloors D)
  order = KeepsFloors-IsPreorder D

  -- A change of session objects that writes neither key nor timestamp.
  pub Floored-change :
      (key : Bytes) (f : ClientSession → ClientSession)
      → ((t : ClientSession) → Follows t (f t))
      → Floored (change key f)
  unfolding change
  Floored-change key f h sv =
      (Derived-update_where D) (λ t. t.public_key =b= key) f sv.sessions (λ t i e. h t)

  -- The queues and the clock's mark are no sessions.
  pub Floored-sends :
      (sv : Server) (o : List Outgoing) (q : List Scheduled) (n : ℕ)
      → KeepsFloors D sv (record sv { sent = o; scheduled = q; last_unique = n })
  Floored-sends sv o q n = Derived-refl D sv.sessions

  pub Floored-claim : (checksum : Bytes) → Floored (claim checksum)
  Floored-claim checksum sv = elim (on_ack-Answered checksum sv) [
    | inl (unclaimed, same, none_waits) ↦
        subst (λ after. Derived D sv.sessions after.sessions) (sym same)
          (Derived-refl D sv.sessions)
    | inr (s, claimed, (before, later, e, f, waits, others), same) ↦
        subst (λ ts. Derived D ts (on_ack checksum sv).1.sessions) (sym e)
          (subst (Derived D (before ++ s ∷ later)) (sym f)
            (Derived-middle D before later s _ (refl, omega arith)))
  ]

  -- A method after which the sessions are dropped of clients alone whose rows had been idle too long.
  abbrev pub Texted {ℓ} : {A : Type ℓ} → ℕ → Exec A → Type 0
  Texted now first = Keeps (KeepsTexts now D) (KeepsTexts-IsPreorder now D) first

  pub Texted-sends :
      (now : ℕ) (sv : Server) (o : List Outgoing) (q : List Scheduled) (n : ℕ)
      → KeepsTexts now D sv (record sv { sent = o; scheduled = q; last_unique = n })
  Texted-sends now sv o q n w = (Derived-refl D sv.sessions, w)

  -- After a post is stored, clients that have been idle too long lose their sessions.
  pub Texted-store_text :
      (m : Moment) (author : Bytes) (text : Text) → Texted m.now (store_text m author text)
  unfolding store_text store_post forget_sessions prune_posts
  Texted-store_text m author text sv w =
      let (post, added, above, later, same_author, same_text) =
        add_post-next_post_ts sv.db sv.room_id m.now author text in
      let with_post : Db = record sv.db { posts = sv.db.posts ++ post ∷ [] } in
      let counted = increment_counter with_post sv.room_id posted 1 in
      let same = (increment_counter-rows with_post sv.room_id posted 1).1 in
      rw (added, store_post)
        (
          Derived-filter D _ sv.sessions
              (λ t i e. pruned-Idle m.now D sv counted same w t.public_key (ground arith)),
          pruned-Forgets m.now D sv counted same w,
        )

  Texted-clear_stats : (now : ℕ) → Texted now clear_stats
  unfolding clear_stats reset_counters
  Texted-clear_stats now sv w = (Derived-refl D sv.sessions, w)

  pub Texted-post_system_message :
      (m : Moment) (text : Text) → Texted m.now (post_system_message m text)
  unfolding post_system_message
  Texted-post_system_message m text =
      Keeps-lifted (KeepsTexts m.now D) (KeepsTexts-IsPreorder m.now D)
        (decode_post_text (utf8_encode text)) _
        (λ t sv. Texted-store_text m sv.identity.public_key t sv)

  Texted-accept_text :
      (m : Moment) (author : Bytes) (text : Text) → Texted m.now (accept_text m author text)
  unfolding accept_text
  Texted-accept_text m author [] =
      Keeps-return (KeepsTexts m.now D) (KeepsTexts-IsPreorder m.now D) true
  Texted-accept_text m author (k ∷ ks) =
      Keeps->>= (KeepsTexts m.now D) (KeepsTexts-IsPreorder m.now D) (store_text m author (k ∷ ks))
        _ (Texted-store_text m author (k ∷ ks))
        (λ done. Keeps-return (KeepsTexts m.now D) (KeepsTexts-IsPreorder m.now D) true)

  Texted-accept_post :
      (m : Moment) (s : ClientSession) (message : TextMessage) (is_retry : Bool)
      → Texted m.now (accept_post m s message is_retry)
  unfolding accept_post
  Texted-accept_post m s message is_retry =
      Keeps-if (KeepsTexts m.now D) (KeepsTexts-IsPreorder m.now D) (not (may_post s.role)) _ _
        (Keeps-return (KeepsTexts m.now D) (KeepsTexts-IsPreorder m.now D) false)
        (Keeps-if (KeepsTexts m.now D) (KeepsTexts-IsPreorder m.now D) is_retry _ _
          (Keeps-return (KeepsTexts m.now D) (KeepsTexts-IsPreorder m.now D) true)
          (Keeps-lifted (KeepsTexts m.now D) (KeepsTexts-IsPreorder m.now D)
            (decode_post_text (body message)) _ (λ text. Texted-accept_text m s.public_key text)))

  module _ (c : Primitives) where
    Texted-run_cli :
        (m : Moment) (s : ClientSession) (message : TextMessage) (is_retry : Bool)
        → Texted m.now (run_cli c m s message is_retry)
    unfolding run_cli
    Texted-run_cli m s message is_retry =
        Keeps-if (KeepsTexts m.now D) (KeepsTexts-IsPreorder m.now D)
          (not (is_admin s.role) || is_retry) _ _ (λ sv w. (Derived-refl D sv.sessions, w))
          (λ sv.
            Keeps->>= (KeepsTexts m.now D) (KeepsTexts-IsPreorder m.now D)
              (handle_command (split_prefix (decode_replace (body message))).1 (cli_context c m sv))
              _
              (handle_command-Keeps (KeepsTexts m.now D) (KeepsTexts-IsPreorder m.now D)
                (cli_context c m sv)
                (send_advert-Keeps (KeepsTexts m.now D) (KeepsTexts-IsPreorder m.now D)
                  (Texted-sends m.now) c m)
                (Texted-clear_stats m.now) (Texted-post_system_message m)
                (split_prefix (decode_replace (body message))).1)
              (λ reply after w. (Derived-refl D after.sessions, w)) sv)

    pub Texted-answer_text :
        (m : Moment) (s : ClientSession) (message : TextMessage) (is_retry : Bool) (kind : TxtType)
        → Texted m.now (answer_text c m s message is_retry kind)
    unfolding answer_text
    Texted-answer_text m s message is_retry cli_data =
        Keeps->>= (KeepsTexts m.now D) (KeepsTexts-IsPreorder m.now D)
          (run_cli c m s message is_retry) _ (Texted-run_cli m s message is_retry)
          (λ reply sv w. (Derived-refl D sv.sessions, w))
    Texted-answer_text m s message is_retry plain =
        Keeps->>= (KeepsTexts m.now D) (KeepsTexts-IsPreorder m.now D)
          (accept_post m s message is_retry) _ (Texted-accept_post m s message is_retry)
          (λ to_ack sv w. (Derived-refl D sv.sessions, w))
    Texted-answer_text m s message is_retry signed_plain =
        Keeps->>= (KeepsTexts m.now D) (KeepsTexts-IsPreorder m.now D)
          (accept_post m s message is_retry) _ (Texted-accept_post m s message is_retry)
          (λ to_ack sv w. (Derived-refl D sv.sessions, w))
