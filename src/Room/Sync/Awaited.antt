-- ===== src/Room/Sync/Awaited.antt =====
-- `_on_ack` of room/server.py, where the session that waits stands among others.
use mathlib.Core.Bool.{false≢true}
use meshelle.Prelude.{
  Bool-cases, Bytes, In, List, [], ap, false, inl, inr, length, none, refl, some, sym, true, ℕ,
  ◌++◌, ◌∙◌, ◌∷◌, ◌≡◌, ◌⊎◌,
}
use meshelle.Store.Clients.{advance_sync}
use meshelle.Room.Session.{ClientSession}
use meshelle.Room.Server.{Server, acknowledged, awaits, in_front, on_ack, set_at, take_ack}
use meshelle.Room.Server.Acks.{NoneAwaits, is_this_iff}

pub set_at_middle :
    (before later : List ClientSession) (s : ClientSession) (f : ClientSession → ClientSession)
    → set_at (length before) f (before ++ s ∷ later) ≡ before ++ f s ∷ later
unfolding set_at
set_at_middle [] later s f = refl
set_at_middle (r ∷ before) later s f = ap (◌∷◌ r) (set_at_middle before later s f)

pub take_ack_middle :
    (checksum : Bytes) (before later : List ClientSession) (t : ClientSession)
    → t.pending_ack ≡ some checksum
    → NoneAwaits checksum before
    → take_ack checksum (before ++ t ∷ later) ≡ some (t, before ++ acknowledged t ∷ later)
unfolding take_ack
take_ack_middle checksum [] later t waits none_before =
    let hit : awaits checksum t ≡ true = (is_this_iff checksum t.pending_ack).1 waits in rw hit refl
take_ack_middle checksum (r ∷ before) later t waits (other, others) =
    elim (Bool-cases (awaits checksum r)) [
      | inl hit ↦ absurd (other ((is_this_iff checksum r.pending_ack).0 hit))
      | inr miss ↦ rw miss (ap (in_front r) (take_ack_middle checksum before later t waits others))
    ]

-- A session that waits for the acknowledgement of a post, and the one that has heard it.
abbrev pub waiting : ClientSession → Bytes → ℕ → ℕ → ClientSession
waiting s checksum post_ts timeout = record s {
  pending_ack = some checksum;
  push_post_ts = post_ts;
  push_is_welcome = false;
  ack_timeout = timeout;
}

abbrev pub synced : ClientSession → ℕ → ℕ → ClientSession
synced s post_ts timeout = record s {
  pending_ack = none;
  push_failures = 0;
  push_post_ts = post_ts;
  push_is_welcome = false;
  ack_timeout = timeout;
  sync_since = post_ts;
}

-- One of the sessions waits for the acknowledgement.
abbrev pub AwaitedIn : Bytes → List ClientSession → Type 0
AwaitedIn checksum ss = (r : ClientSession) × In r ss × (r.pending_ack ≡ some checksum)

pub AwaitedIn-cases :
    (checksum : Bytes) (ss : List ClientSession) → AwaitedIn checksum ss ⊎ NoneAwaits checksum ss
AwaitedIn-cases checksum [] = inr tt
AwaitedIn-cases checksum (r ∷ ss) = elim (Bool-cases (awaits checksum r)) [
  | inl hit ↦ inl (r, inl refl, (is_this_iff checksum r.pending_ack).0 hit)
  | inr miss ↦ elim (AwaitedIn-cases checksum ss) [
    | inl (t, i, e) ↦ inl (t, inr i, e)
    | inr others ↦
        inr (λ e. false≢true (sym miss ∙ (is_this_iff checksum r.pending_ack).1 e), others)
  ]
]

pub on_ack-waiting :
    (sv : Server) (before later : List ClientSession) (s : ClientSession) (checksum : Bytes)
    (post_ts timeout : ℕ)
    → sv.sessions ≡ before ++ waiting s checksum post_ts timeout ∷ later
    → NoneAwaits checksum before
    → on_ack checksum sv ≡ (
      true,
      record sv {
        sessions = before ++ synced s post_ts timeout ∷ later;
        db = advance_sync sv.db sv.room_id s.public_key post_ts;
      },
    )
unfolding on_ack acknowledged
on_ack-waiting sv before later s checksum post_ts timeout e none_before =
    let t = waiting s checksum post_ts timeout in
    let taken : take_ack checksum sv.sessions ≡ some (t, before ++ acknowledged t ∷ later) =
      ap (take_ack checksum) e ∙ take_ack_middle checksum before later t refl none_before in
    rw (taken, on_ack) refl
