-- ===== src/Room/Sync.antt =====
-- Synchronisation in room/server.py: what a client gets that acknowledges every push. A round is
-- `push_once`'s push to the client's session, and `_on_ack` of what the session then waits for.
pub mod Delivered
pub mod Awaited
pub mod Round
pub mod Read
pub mod Rounds
use meshelle.Prelude.{Bool, Bytes, List, Option, [], false, none, some, suc, true, zero, ℕ, ◌∷◌}
use meshelle.Proto.Error.{Result, err, ok}
use meshelle.Proto.Crypto.{Primitives}
use meshelle.Room.Session.{ClientSession}
use meshelle.Room.Server.{Moment, Server, on_ack, push_to}

abbrev pub session_at : ℕ → List ClientSession → Option ClientSession
session_at i [] = none
session_at zero (s ∷ ss) = some s
session_at (suc i) (s ∷ ss) = session_at i ss

-- The acknowledgement that a session waits for arrives.
abbrev pub answer : Option Bytes → Server → Bool × Server
answer none sv = (false, sv)
answer (some checksum) sv = on_ack checksum sv

-- The timestamp that a session's push stood for, where its acknowledgement was claimed.
abbrev pub claimed : ℕ → Bool × Server → Option (ℕ × Server)
claimed post_ts (false, sv) = none
claimed post_ts (true, sv) = some (post_ts, sv)

abbrev pub answered_by : Option ClientSession → Server → Option (ℕ × Server)
answered_by none sv = none
answered_by (some s) sv = claimed s.push_post_ts (answer s.pending_ack sv)

abbrev pub after_push : ℕ → Result Bool × Server → Option (ℕ × Server)
after_push i (err raised, sv) = none
after_push i (ok false, sv) = none
after_push i (ok true, sv) = answered_by (session_at i sv.sessions) sv

module _ (c : Primitives) where
  abbrev pub round_for : Moment → ℕ → Option ClientSession → Server → Option (ℕ × Server)
  round_for m i none sv = none
  round_for m i (some s) sv = after_push i (push_to c m i s sv)

  -- The timestamps of the posts that rounds at some moments deliver to the session at a place, until
  -- one of them pushes nothing.
  unfoldable pub rounds : List Moment → ℕ → Server → List ℕ × Server
  rounds [] i sv = ([], sv)
  rounds (m ∷ ms) i sv = elim (round_for m i (session_at i sv.sessions) sv) [
    | none ↦ ([], sv)
    | some (post_ts, after) ↦ let later = rounds ms i after in (post_ts ∷ later.0, later.1)
  ]
