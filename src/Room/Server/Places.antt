-- ===== src/Room/Server/Places.antt =====
-- Changes of one session's place in the list of sessions, and expiry of what they wait for.
use meshelle.Prelude.{
  Bool-cases, Bytes, In, List, Option, Option-cases, [], ap, find, get_or, inl, inr, ltb, lt→ltb,
  map, none, refl, some, suc, sym, zero, ℕ, ◌<◌, ◌∙◌, ◌∷◌, ◌≡◌, ◌⊎◌,
}
use meshelle.Store.Model.{CounterName, Db}
use meshelle.Store.Counters.{increment_counter, is_counter}
use meshelle.Room.Session.{ClientSession}
use meshelle.Room.Server.{Server, expire_ack, expire_pending, set_at}

pub set_at_id : (i : ℕ) (ss : List ClientSession) → set_at i (λ s. s) ss ≡ ss
unfolding set_at
set_at_id i [] = refl
set_at_id zero (s ∷ ss) = refl
set_at_id (suc i) (s ∷ ss) = ap (◌∷◌ s) (set_at_id i ss)

pub set_at_twice :
    (i : ℕ) (f g : ClientSession → ClientSession) (ss : List ClientSession)
    → set_at i g (set_at i f ss) ≡ set_at i (λ s. g (f s)) ss
unfolding set_at
set_at_twice i f g [] = refl
set_at_twice zero f g (s ∷ ss) = refl
set_at_twice (suc i) f g (s ∷ ss) = ap (◌∷◌ s) (set_at_twice i f g ss)

abbrev pub cursors : List ClientSession → List ℕ
cursors ss = map (λ s. s.sync_since) ss

pub cursors-set_at :
    (i : ℕ) (f : ClientSession → ClientSession) (ss : List ClientSession)
    → ((s : ClientSession) → (f s).sync_since ≡ s.sync_since)
    → cursors (set_at i f ss) ≡ cursors ss
unfolding set_at
cursors-set_at i f [] keeps = refl
cursors-set_at zero f (s ∷ ss) keeps = ap (λ n. n ∷ cursors ss) (keeps s)
cursors-set_at (suc i) f (s ∷ ss) keeps = ap (◌∷◌ s.sync_since) (cursors-set_at i f ss keeps)

-- A session stays where it is, unless it is the one at the place.
pub In-set_at :
    (i : ℕ) (f : ClientSession → ClientSession) (ss : List ClientSession) (d t : ClientSession)
    → In t ss
    → (get_or ss i d ≡ t) ⊎ In t (set_at i f ss)
unfolding set_at
In-set_at i f [] d t h = elim h [ ]
In-set_at zero f (s ∷ ss) d t (inl same) = inl same
In-set_at zero f (s ∷ ss) d t (inr h) = inr (inr h)
In-set_at (suc i) f (s ∷ ss) d t (inl same) = inr (inl same)
In-set_at (suc i) f (s ∷ ss) d t (inr h) = elim (In-set_at i f ss d t h) [
  | inl same ↦ inl same
  | inr stays ↦ inr (inr stays)
]

-- Between two states, one session object at most was written, its cursor aside; posts and clients
-- in the database are the same.
abbrev pub Touches : ℕ → Server → Server → Type 0
Touches i sv after =
    (f : ClientSession → ClientSession) × ((s : ClientSession) → (f s).sync_since ≡ s.sync_since)
    × (after.sessions ≡ set_at i f sv.sessions)
    × (after.db.posts ≡ sv.db.posts)
    × (after.db.clients ≡ sv.db.clients)

pub Touches-untouched :
    (i : ℕ) (sv after : Server)
    → after.sessions ≡ sv.sessions
    → after.db ≡ sv.db
    → Touches i sv after
Touches-untouched i sv after e h = (
  λ s. s,
  λ s. refl,
  e ∙ sym (set_at_id i sv.sessions),
  ap (λ db. db.posts) h,
  ap (λ db. db.clients) h,
)

pub increment_counter-rows :
    (db : Db) (room_id : ℕ) (name : CounterName) (by : ℕ)
    → ((increment_counter db room_id name by).posts ≡ db.posts)
      × ((increment_counter db room_id name by).clients ≡ db.clients)
unfolding increment_counter
increment_counter-rows db room_id name by =
    elim (Option-cases (find (is_counter room_id name) db.counters)) [
      | inl e ↦ rw (e, increment_counter) (refl, refl)
      | inr (row, e) ↦ rw (e, increment_counter) (refl, refl)
    ]

expire_pending-sync_since :
    (o : Option Bytes) (monotonic : ℕ) (s : ClientSession)
    → (expire_pending o monotonic s).sync_since ≡ s.sync_since
expire_pending-sync_since none monotonic s = refl
expire_pending-sync_since (some pending) monotonic s =
    elim (Bool-cases (ltb monotonic s.ack_timeout)) [
      | inl early ↦ rw early refl
      | inr late ↦ rw late refl
    ]

-- An acknowledgement whose time has not come is waited for.
expire_pending-same :
    (o : Option Bytes) (monotonic : ℕ) (s : ClientSession)
    → monotonic < s.ack_timeout
    → expire_pending o monotonic s ≡ s
expire_pending-same none monotonic s early = refl
expire_pending-same (some pending) monotonic s early =
    rw (lt→ltb monotonic s.ack_timeout early) refl

pub cursors-expired :
    (monotonic : ℕ) (ss : List ClientSession) → cursors (map (expire_ack monotonic) ss) ≡ cursors ss
cursors-expired monotonic [] = refl
cursors-expired monotonic (s ∷ ss) =
    rw (expire_pending-sync_since s.pending_ack monotonic s, cursors-expired monotonic ss) refl

pub In-expired :
    (monotonic : ℕ) (t : ClientSession) (ss : List ClientSession)
    → monotonic < t.ack_timeout
    → In t ss
    → In t (map (expire_ack monotonic) ss)
In-expired monotonic t [] early h = h
In-expired monotonic t (s ∷ ss) early (inl same) =
    inl (ap (expire_ack monotonic) same ∙ expire_pending-same t.pending_ack monotonic t early)
In-expired monotonic t (s ∷ ss) early (inr h) = inr (In-expired monotonic t ss early h)
