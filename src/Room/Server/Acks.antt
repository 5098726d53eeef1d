-- ===== src/Room/Server/Acks.antt =====
-- What `_on_ack` of room/server.py changes.
use mathlib.Core.Option.{some-injective, none-ne-some}
use mathlib.Core.Bool.{false≢true}
use meshelle.Prelude.{
  =b=_refl, =b=→eq, All, Bool, Bool-cases, Bytes, List, Option, [], ap, drop, false, if◌then◌else◌,
  inl, inr, none, refl, some, sym, true, ◌++◌, ◌↔◌, ◌∙◌, ◌∷◌, ◌≡◌, ◌≢◌, ◌⊎◌,
}
use meshelle.Room.Session.{ClientSession}
use meshelle.Room.Server.{Server, acknowledged, awaits, in_front, is_this, on_ack, take_ack}
use meshelle.Store.Clients.{advance_sync}

pub is_this_iff :
    (checksum : Bytes) (pending : Option Bytes)
    → (is_this checksum pending ≡ true) ↔ (pending ≡ some checksum)
is_this_iff checksum none = (λ h. cc, λ h. absurd (none-ne-some checksum h))
is_this_iff checksum (some pending) = (
  λ h. ap some (=b=→eq pending checksum h),
  λ h. let same = some-injective pending checksum h in rw same (=b=_refl checksum),
)

-- Nothing waits for the acknowledgement, and nothing was changed.
abbrev pub NoneAwaits : Bytes → List ClientSession → Type 0
NoneAwaits checksum sessions = All (λ s. s.pending_ack ≢ some checksum) sessions

-- A session after its acknowledgement: nothing is pending and no failure is counted; a welcome
-- chunk is done, or else the cursor is that of the post that was pushed.
abbrev pub heard_session : ClientSession → ClientSession
heard_session s = record s {
  pending_ack = none;
  push_failures = 0;
  welcome = if s.push_is_welcome then drop 1 s.welcome else s.welcome;
  sync_since = if s.push_is_welcome then s.sync_since else s.push_post_ts;
}

acknowledged-same :
    (w : Bool) (s : ClientSession) → s.push_is_welcome ≡ w → acknowledged s ≡ heard_session s
unfolding acknowledged
acknowledged-same true s e = rw e refl
acknowledged-same false s e = rw e refl

-- The sessions after the first one that waits was changed.
abbrev pub Heard : Bytes → ClientSession → List ClientSession → List ClientSession → Type 0
Heard checksum s sessions after =
    (before later : List ClientSession) × (sessions ≡ before ++ s ∷ later)
    × (after ≡ before ++ heard_session s ∷ later)
    × (s.pending_ack ≡ some checksum)
    × NoneAwaits checksum before

abbrev Taken : Bytes → List ClientSession → Option (ClientSession × List ClientSession) → Type 0
Taken checksum sessions none = NoneAwaits checksum sessions
Taken checksum sessions (some (s, after)) = Heard checksum s sessions after

Taken-in_front :
    (checksum : Bytes) (s : ClientSession) (ss : List ClientSession)
    (o : Option (ClientSession × List ClientSession))
    → s.pending_ack ≢ some checksum
    → Taken checksum ss o
    → Taken checksum (s ∷ ss) (in_front s o)
Taken-in_front checksum s ss none other h = (other, h)
Taken-in_front checksum s ss (some (heard, after)) other (before, later, e, f, waits, none_before) =
    (s ∷ before, later, ap (◌∷◌ s) e, ap (◌∷◌ s) f, waits, (other, none_before))

take_ack-Taken :
    (checksum : Bytes) (sessions : List ClientSession)
    → Taken checksum sessions (take_ack checksum sessions)
unfolding take_ack
take_ack-Taken checksum [] = tt
take_ack-Taken checksum (s ∷ ss) = elim (Bool-cases (awaits checksum s)) [
  | inl hit ↦ rw hit (
    [],
    ss,
    refl,
    ap (λ t. t ∷ ss) (acknowledged-same s.push_is_welcome s refl),
    (is_this_iff checksum s.pending_ack).0 hit,
    tt,
  )
  | inr miss ↦
      let other : s.pending_ack ≢ some checksum =
        λ e. false≢true (sym miss ∙ (is_this_iff checksum s.pending_ack).1 e) in
      rw miss
        (Taken-in_front checksum s ss (take_ack checksum ss) other (take_ack-Taken checksum ss))
]

-- What an acknowledgement does to the room: the first session that waits for it is changed, and the
-- cursor in the database with it; or nothing, where none waits.
abbrev pub Answered : Bytes → Server → Bool × Server → Type 0
Answered checksum sv (claimed, after) =
    ((claimed ≡ false) × (after ≡ sv) × NoneAwaits checksum sv.sessions)
    ⊎ ((s : ClientSession) × (claimed ≡ true)
        × Heard checksum s sv.sessions after.sessions
        × (after ≡ record sv {
          sessions = after.sessions;
          db =
              if s.push_is_welcome
              then sv.db
              else advance_sync sv.db sv.room_id s.public_key s.push_post_ts;
        }))

-- An acknowledgement is claimed exactly where a session waits for it. Then the first such session
-- alone changes: it waits no more, its failures are forgotten, and its cursor is that of the post
-- that was pushed, in the database too if that is behind, or its first welcome chunk is gone.
-- Otherwise the room is as it was.
pub on_ack-Answered : (checksum : Bytes) (sv : Server) → Answered checksum sv (on_ack checksum sv)
unfolding on_ack
on_ack-Answered checksum sv =
    go (take_ack checksum sv.sessions) refl (take_ack-Taken checksum sv.sessions)
  where
    go :
        (o : Option (ClientSession × List ClientSession))
        → take_ack checksum sv.sessions ≡ o
        → Taken checksum sv.sessions o
        → Answered checksum sv (on_ack checksum sv)
    go none e h = rw (e, on_ack) (inl (refl, refl, h))
    go (some (s, after)) e h = rw (e, on_ack) (inr (s, refl, h, refl))
