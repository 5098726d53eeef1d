-- ===== src/Room/Sync/Round.antt =====
-- One round of synchronisation: `push_once`'s push of a post, and `_on_ack` of what it waits for.
use meshelle.Prelude.{
  Bytes, List, [], ap, false, inl, inr, length, refl, some, sym, take, true, ℕ, ◌++◌, ◌+◌, ◌-◌, ◌∙◌,
  ◌∷◌, ◌≡◌, ◌⊎◌,
}
use meshelle.Proto.Error.{Error, Result, err, ok}
use meshelle.Proto.Crypto.{Primitives}
use meshelle.Proto.Packet.{Packet}
use meshelle.Store.Model.{Post, post_push}
use meshelle.Store.Clients.{advance_sync}
use meshelle.Store.Counters.{increment_counter}
use meshelle.Room.Session.{ClientSession, push_ack_timeout, session_hop_count}
use meshelle.Room.Server.{
  Moment, Server, counted_push, may_push, on_ack, plainly, push, push_packet, push_post, push_to,
  pushed, set_at, went_out,
}
use meshelle.Room.Server.Places.{set_at_twice}
use meshelle.Proto.Constants.{is_flood, signed_author_prefix_len, signed_plain}
use meshelle.Store.Posts.{next_unsynced_post}
use meshelle.Room.Posts.{build_push, push_text_budget}
use meshelle.Proto.TextMessage.{TextMessage}
use meshelle.Proto.Text.{utf8_truncate}
use meshelle.Room.Sync.Awaited.{
  AwaitedIn, AwaitedIn-cases, on_ack-waiting, set_at_middle, synced, waiting,
}
use meshelle.Proto.Crypto
use meshelle.Proto.TextMessage

-- The message in which a post reaches a client: its text is signed by the prefix of its author's key,
-- and cut to what one packet carries over the client's path.
abbrev pub push_message : Moment → ClientSession → Post → TextMessage
push_message m s post = record {
  timestamp = post.post_ts;
  kind = signed_plain;
  attempt = m.attempt;
  text =
      take signed_author_prefix_len post.author_public_key
      ++ utf8_truncate post.text (push_text_budget (length s.out_path));
}

-- What a push of a post leaves: the session waits for the acknowledgement that the client computes
-- of the message, the packet is sent, and the push is counted.
abbrev pub Pushed :
    Primitives
    → Moment
    → Server
    → List ClientSession
    → ClientSession
    → List ClientSession
    → Post
    → Server
    → Type 0
Pushed c m sv before s later post after =
    (plaintext : Bytes) × (timeout : ℕ) × (p : Packet) × (TextMessage.encode (push_message m s post)
      ≡ ok plaintext)
    × (push_packet c sv s plaintext ≡ ok p)
    × (after ≡ record sv {
      sessions =
          before
          ++ waiting s (Crypto.ack_hash c plaintext s.public_key) post.post_ts timeout ∷ later;
      sent = sv.sent ++ plainly p ∷ [];
      db = increment_counter sv.db sv.room_id post_push 1;
    })
    × (AwaitedIn (Crypto.ack_hash c plaintext s.public_key) before
        ⊎ (on_ack (Crypto.ack_hash c plaintext s.public_key) after ≡ (
          true,
          record after {
            sessions = before ++ synced s post.post_ts timeout ∷ later;
            db = advance_sync after.db after.room_id s.public_key post.post_ts;
          },
        )))

module _ (c : Primitives) where
  abbrev pub timeout_of : Moment → Server → ClientSession → Packet → ℕ
  timeout_of m sv s p =
      m.monotonic + push_ack_timeout sv.timings (is_flood p.route) (session_hop_count s)

  -- The state after a push of a post that went through.
  abbrev pub pushed_state :
      Moment
      → Server
      → List ClientSession
      → ClientSession
      → List ClientSession
      → Post
      → Bytes
      → Packet
      → Server
  pushed_state m sv before s later post plaintext p = record sv {
    sessions =
        before
        ++ waiting s (Crypto.ack_hash c plaintext s.public_key) post.post_ts (timeout_of m sv s p)
          ∷ later;
    sent = sv.sent ++ plainly p ∷ [];
    db = increment_counter sv.db sv.room_id post_push 1;
  }

  pub push_went :
      (m : Moment) (sv : Server) (before later : List ClientSession) (s : ClientSession)
      (post : Post) (plaintext : Bytes) (p : Packet)
      → push_packet c sv s plaintext ≡ ok p
      → sv.sessions ≡ before ++ s ∷ later
      → counted_push c (push c m (length before) s plaintext post.post_ts false sv)
        ≡ (ok tt, pushed_state m sv before s later post plaintext p)
  unfolding push
  push_went m sv before later s post plaintext p e same =
      let mark = pushed c plaintext post.post_ts false in
      let time : ClientSession → ClientSession =
        λ t. record t { ack_timeout = timeout_of m sv s p } in
      let changed : set_at (length before) time (set_at (length before) mark sv.sessions)
          ≡ before ++ time (mark s) ∷ later =
        set_at_twice (length before) mark time sv.sessions
        ∙ (ap (set_at (length before) (λ t. time (mark t))) same
            ∙ set_at_middle before later s (λ t. time (mark t))) in
      rw (e, push)
        (ap
          (λ ts. (
            ok tt,
            record sv {
              sessions = ts;
              sent = sv.sent ++ plainly p ∷ [];
              db = increment_counter sv.db sv.room_id post_push 1;
            },
          ))
          changed)

  push_failed :
      (m : Moment) (sv : Server) (i : ℕ) (s : ClientSession) (post : Post) (plaintext : Bytes)
      (raised : Error)
      → push_packet c sv s plaintext ≡ err raised
      → (counted_push c (push c m i s plaintext post.post_ts false sv)).0 ≡ err raised
  unfolding push
  push_failed m sv i s post plaintext raised e = rw (e, push) refl

  -- A push that went out has made its packet.
  went_out-ok :
      (o : Result (Unit {0}) × Server) (after : Server)
      → went_out c o ≡ (ok true, after)
      → (o.1 ≡ after) × (o.0 ≡ ok tt)
  went_out-ok (err raised, sv) after e = cc
  went_out-ok (ok done, sv) after e = (ap (λ x. x.1) e, refl)

  push-Pushed :
      (m : Moment) (sv : Server) (before later : List ClientSession) (s : ClientSession)
      (post : Post) (plaintext : Bytes) (o : Result Packet) (after : Server)
      → TextMessage.encode (push_message m s post) ≡ ok plaintext
      → push_packet c sv s plaintext ≡ o
      → sv.sessions ≡ before ++ s ∷ later
      → went_out c (counted_push c (push c m (length before) s plaintext post.post_ts false sv))
        ≡ (ok true, after)
      → Pushed c m sv before s later post after
  push-Pushed m sv before later s post plaintext (err raised) after made e same sent =
      let (same_state, went) = went_out-ok _ after sent in
      let failed = push_failed m sv (length before) s post plaintext raised e in cc
  push-Pushed m sv before later s post plaintext (ok p) after made e same sent =
      let (same_state, went) = went_out-ok _ after sent in
      let state =
        sym same_state ∙ ap (λ x. x.1) (push_went m sv before later s post plaintext p e same) in
      let checksum = Crypto.ack_hash c plaintext s.public_key in
      let timeout = timeout_of m sv s p in
      (
        plaintext,
        timeout,
        p,
        made,
        e,
        state,
        elim (AwaitedIn-cases checksum before) [
          | inl awaited ↦ inl awaited
          | inr others ↦ inr (
              on_ack-waiting after before later s checksum post.post_ts timeout
                (ap (λ t. t.sessions) state) others)
        ],
      )

  push_post-Pushed :
      (m : Moment) (sv : Server) (before later : List ClientSession) (s : ClientSession)
      (post : Post) (o : Result Bytes) (after : Server)
      → build_push post.post_ts post.author_public_key post.text m.attempt (length s.out_path) ≡ o
      → sv.sessions ≡ before ++ s ∷ later
      → went_out c (push_post c m (length before) s post sv) ≡ (ok true, after)
      → Pushed c m sv before s later post after
  unfolding push_post build_push TextMessage.encode
  push_post-Pushed m sv before later s post (err raised) after e same sent =
      let failed : went_out c (push_post c m (length before) s post sv) ≡ (err raised, sv) =
        rw (e, push_post) refl in
      cc
  push_post-Pushed m sv before later s post (ok plaintext) after e same sent =
      let counted : push_post c m (length before) s post sv
          ≡ counted_push c (push c m (length before) s plaintext post.post_ts false sv) =
        rw (e, push_post) refl in
      push-Pushed m sv before later s post plaintext (push_packet c sv s plaintext) after e refl
        same (ap (went_out c) (sym counted) ∙ sent)

  -- The push of the next post that is owed.
  pub push_to-Pushed :
      (m : Moment) (sv : Server) (before later : List ClientSession) (s : ClientSession)
      (post : Post) (after : Server)
      → sv.sessions ≡ before ++ s ∷ later
      → may_push c sv.timings s ≡ true
      → s.welcome ≡ []
      → next_unsynced_post sv.db sv.room_id s.public_key s.sync_since
          (m.now - sv.timings.post_sync_delay)
        ≡ some post
      → push_to c m (length before) s sv ≡ (ok true, after)
      → Pushed c m sv before s later post after
  unfolding push_to
  push_to-Pushed m sv before later s post after same may welcomed next went =
      let turn : push_to c m (length before) s sv
          ≡ went_out c (push_post c m (length before) s post sv) =
        rw (may, push_to, welcomed, next) refl in
      push_post-Pushed m sv before later s post
        (build_push post.post_ts post.author_public_key post.text m.attempt (length s.out_path))
        after refl same (sym turn ∙ went)
