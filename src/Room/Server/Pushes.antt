-- ===== src/Room/Server/Pushes.antt =====
-- What a step of the push loop of room/server.py leaves alone.
use mathlib.Core.Path.{subst}
use mathlib.Core.Bool.{false≢true}
use meshelle.Prelude.{
  Bool, Bool-cases, Bytes, In, List, Option-cases, [], ap, false, get_or, inl, inr, length, refl,
  sym, true, ℕ, ◌%◌, ◌+◌, ◌-◌, ◌<◌, ◌∙◌, ◌∷◌, ◌≡◌,
}
use meshelle.Proto.Constants.{is_flood}
use meshelle.Proto.Error.{Result, Result-cases, err, ok}
use meshelle.Proto.Crypto.{Primitives}
use meshelle.Proto.Text.{Text}
use meshelle.Store.Model.{Post, post_push}
use meshelle.Room.Session.{ClientSession, push_ack_timeout, session_hop_count}
use meshelle.Room.Server.Places.{
  In-expired, In-set_at, Touches, Touches-untouched, cursors, cursors-expired, cursors-set_at,
  increment_counter-rows, set_at_twice,
}
use meshelle.Room.Server.{
  Moment, Server, counted_push, expire_pending_acks, is_pending, may_push, push, push_once,
  push_packet, push_post, push_to, push_turn, push_welcome, pushed, set_at, went_out,
}
use meshelle.Room.Posts.{build_push}
use meshelle.Store.Posts.{next_unsynced_post}
use meshelle.Mesh.Clock.{unique_now}

module _ (c : Primitives) where
  push-Touches :
      (m : Moment) (i : ℕ) (s : ClientSession) (plaintext : Bytes) (post_ts : ℕ) (w : Bool)
      (sv : Server)
      → Touches i sv (push c m i s plaintext post_ts w sv).1
  unfolding push set_at
  push-Touches m i s plaintext post_ts w sv = elim (Result-cases (push_packet c sv s plaintext)) [
    | inl (p, e) ↦
        rw (e, push)
          (
            λ t. record (pushed c plaintext post_ts w t) {
              ack_timeout =
                  m.monotonic
                  + push_ack_timeout sv.timings (is_flood p.route) (session_hop_count s);
            },
            λ t. refl,
            set_at_twice i (pushed c plaintext post_ts w)
                (λ t. record t {
                  ack_timeout =
                      m.monotonic
                      + push_ack_timeout sv.timings (is_flood p.route) (session_hop_count s);
                })
                sv.sessions,
            refl,
            refl,
          )
    | inr (raised, e) ↦ rw (e, push) (pushed c plaintext post_ts w, λ t. refl, refl, refl, refl)
  ]

  push_welcome-Touches :
      (m : Moment) (i : ℕ) (s : ClientSession) (chunk : Text) (sv : Server)
      → Touches i sv (push_welcome c m i s chunk sv).1
  unfolding push_welcome set_at
  push_welcome-Touches m i s chunk sv =
      let stamp = unique_now sv.last_unique m.now in
      let stamped : Server = record sv { last_unique = stamp } in
      elim (Result-cases
        (build_push stamp sv.identity.public_key chunk m.attempt (length s.out_path))) [
          | inl (plaintext, e) ↦ rw (e, push_welcome) (push-Touches m i s plaintext 0 true stamped)
          | inr (raised, e) ↦ rw (e, push_welcome) (Touches-untouched i sv stamped refl refl)
        ]

  counted_push-Touches :
      (i : ℕ) (sv : Server) (o : Result (Unit {0}) × Server)
      → Touches i sv o.1
      → Touches i sv (counted_push c o).1
  counted_push-Touches i sv (err e, after) h = h
  counted_push-Touches i sv (ok done, after) (f, keeps, same, posts, clients) =
      let (same_posts, same_clients) = increment_counter-rows after.db after.room_id post_push 1 in
      (f, keeps, same, same_posts ∙ posts, same_clients ∙ clients)

  push_post-Touches :
      (m : Moment) (i : ℕ) (s : ClientSession) (post : Post) (sv : Server)
      → Touches i sv (push_post c m i s post sv).1
  unfolding push_post set_at
  push_post-Touches m i s post sv =
      elim (Result-cases
        (build_push post.post_ts post.author_public_key post.text m.attempt (length s.out_path))) [
          | inl (plaintext, e) ↦
              rw (e, push_post)
                (counted_push-Touches i sv (push c m i s plaintext post.post_ts false sv)
                  (push-Touches m i s plaintext post.post_ts false sv))
          | inr (raised, e) ↦ rw (e, push_post) (Touches-untouched i sv sv refl refl)
        ]

  went_out-Touches :
      (i : ℕ) (sv : Server) (o : Result (Unit {0}) × Server)
      → Touches i sv o.1
      → Touches i sv (went_out c o).1
  went_out-Touches i sv (err e, after) h = h
  went_out-Touches i sv (ok done, after) h = h

  -- A session that may not be pushed to leaves the room as it is.
  push_to-not :
      (m : Moment) (i : ℕ) (s : ClientSession) (sv : Server)
      → may_push c sv.timings s ≡ false
      → push_to c m i s sv ≡ (ok false, sv)
  unfolding push_to
  push_to-not m i s sv idle = rw idle refl

  push_to-Touches :
      (m : Moment) (i : ℕ) (s : ClientSession) (sv : Server) (w : List Text)
      → s.welcome ≡ w
      → may_push c sv.timings s ≡ true
      → Touches i sv (push_to c m i s sv).1
  unfolding push_to
  push_to-Touches m i s sv (chunk ∷ more) e may =
      rw (may, push_to, e)
        (went_out-Touches i sv (push_welcome c m i s chunk sv)
          (push_welcome-Touches m i s chunk sv))
  push_to-Touches m i s sv [] e may =
      elim (Option-cases (
        next_unsynced_post sv.db sv.room_id s.public_key s.sync_since
          (m.now - sv.timings.post_sync_delay))) [
            | inl f ↦ rw (may, push_to, e, f) (Touches-untouched i sv sv refl refl)
            | inr (post, f) ↦
                rw (may, push_to, e, f)
                  (went_out-Touches i sv (push_post c m i s post sv)
                    (push_post-Touches m i s post sv))
          ]

  -- What a step of the push loop keeps: the cursors of all clients, and their rows; the posts; and
  -- every session that still waits for an acknowledgement, as it was.
  abbrev pub Keeps : Server → Server → Type 0
  Keeps sv after =
      (cursors after.sessions ≡ cursors sv.sessions)
      × (after.db.posts ≡ sv.db.posts)
      × (after.db.clients ≡ sv.db.clients)
      × ((t : ClientSession) → In t sv.sessions → is_pending t ≡ true → In t after.sessions)

  push_to-Keeps :
      (m : Moment) (i : ℕ) (sv : Server) (d : ClientSession)
      → Keeps sv (push_to c m i (get_or sv.sessions i d) sv).1
  push_to-Keeps m i sv d =
      let s = get_or sv.sessions i d in
      elim (Bool-cases (may_push c sv.timings s)) [
        | inl may ↦
            let (f, keeps, same, posts, clients) = push_to-Touches m i s sv s.welcome refl may in
            (
              ap cursors same ∙ cursors-set_at i f sv.sessions keeps,
              posts,
              clients,
              λ t h waits. elim (In-set_at i f sv.sessions d t h) [
                | inl turn ↦
                    let chosen : is_pending s ≡ true =
                      subst (λ u. is_pending u ≡ true) (sym turn) waits in
                    let barred : may_push c sv.timings s ≡ false = rw chosen refl in
                    absurd (false≢true (sym barred ∙ may))
                | inr stays ↦ subst (In t) (sym same) stays
              ],
            )
        | inr idle ↦ rw (push_to-not m i s sv idle) (refl, refl, refl, λ t h waits. h)
      ]

  push_turn-Keeps :
      (m : Moment) (ss : List ClientSession) (sv : Server)
      → sv.sessions ≡ ss
      → Keeps sv (push_turn c m ss sv).1
  unfolding push_turn
  push_turn-Keeps m [] sv e = (refl, refl, refl, λ t h waits. h)
  push_turn-Keeps m (first ∷ more) sv e =
      let n = length (first ∷ more) in
      let i = sv.round_robin % n in
      let turned : Server = record sv { round_robin = (i + 1) % n } in
      subst (λ xs. Keeps sv (push_to c m i (get_or xs i first) turned).1) e
        (push_to-Keeps m i turned first)

  -- One step of the push loop, whether it sends, has nothing to send or fails, moves no client's
  -- cursor, in memory or in the database, removes no post, and leaves every session as it was that
  -- waits for an acknowledgement whose time has not run out: a client never has two pushes
  -- outstanding.
  pub push_once-keeps :
      (m : Moment) (sv : Server)
      → let after = (push_once c m sv).1 in
        (cursors after.sessions ≡ cursors sv.sessions)
        × (after.db.posts ≡ sv.db.posts)
        × (after.db.clients ≡ sv.db.clients)
        × ((t : ClientSession)
            → In t sv.sessions
            → is_pending t ≡ true
            → m.monotonic < t.ack_timeout
            → In t after.sessions)
  unfolding push_once
  push_once-keeps m sv =
      let expired = expire_pending_acks m.monotonic sv in
      let (same, posts, clients, stays) = push_turn-Keeps m expired.sessions expired refl in
      (
        same ∙ cursors-expired m.monotonic sv.sessions,
        posts,
        clients,
        λ t h waits early. stays t (In-expired m.monotonic t sv.sessions early h) waits,
      )
