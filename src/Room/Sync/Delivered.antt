-- ===== src/Room/Sync/Delivered.antt =====
-- The posts that are due to a client, in the order of time.
use mathlib.Core.Path.{subst}
use meshelle.Prelude.{
  All, All-In, Bool, Bool-cases, Bytes, In, List, [], arith, false, filter, inl, inr, length, ltb,
  some, sym, true, ℕ, ◌<◌, ◌↔◌, ◌∙◌, ◌∷◌, ◌≡◌, ◌≤◌,
}
use meshelle.Store.Model.{Db, Post}
use meshelle.Store.Posts.Owed.{Answers, Due, is_due, is_due→Due, test-Due}

-- No two posts of a room have one timestamp, as the table's constraint has it.
abbrev pub HasUniqueTimes : List Post → Type 0
HasUniqueTimes ps =
    (p q : Post) → In p ps → In q ps → p.room_id ≡ q.room_id → p.post_ts ≡ q.post_ts → p ≡ q

-- A filter that passes less, and one element less.
length-filter_le :
    (p q : Post → Bool) (xs : List Post)
    → ((x : Post) → q x ≡ true → p x ≡ true)
    → length (filter q xs) ≤ length (filter p xs)
length-filter_le p q [] h = omega arith
length-filter_le p q (x ∷ xs) h =
    let rest = length-filter_le p q xs h in
    elim (Bool-cases (q x)) [
      | inl e ↦ rw (e, h x e) (omega arith)
      | inr e ↦ elim (Bool-cases (p x)) [ inl f ↦ rw (e, f) (omega arith) | inr f ↦ rw (e, f) rest ]
    ]

length-filter_lt :
    (p q : Post → Bool) (xs : List Post) (a : Post)
    → ((x : Post) → q x ≡ true → p x ≡ true)
    → In a xs
    → p a ≡ true
    → q a ≡ false
    → length (filter q xs) < length (filter p xs)
length-filter_lt p q [] a h i e f = elim i [ ]
length-filter_lt p q (x ∷ xs) a h (inl same) e f =
    let rest = length-filter_le p q xs h in
    let passes : p x ≡ true = subst (λ y. p y ≡ true) (sym same) e in
    let stops : q x ≡ false = subst (λ y. q y ≡ false) (sym same) f in
    rw (passes, stops) (omega arith)
length-filter_lt p q (x ∷ xs) a h (inr i) e f =
    let rest = length-filter_lt p q xs a h i e f in
    elim (Bool-cases (q x)) [
      | inl g ↦ rw (g, h x g) (omega arith)
      | inr g ↦ elim (Bool-cases (p x)) [ inl k ↦ rw (g, k) (omega arith) | inr k ↦ rw (g, k) rest ]
    ]

-- Posts in the order of time, after a cursor.
abbrev pub RisesAfter : ℕ → List Post → Type 0
RisesAfter since [] = Unit {0}
RisesAfter since (p ∷ ps) = (since < p.post_ts) × RisesAfter p.post_ts ps

-- What is delivered: every post that is due, and no other, in the order of time.
abbrev pub Complete : List Post → ℕ → Bytes → ℕ → ℕ → List Post → Type 0
Complete posts room_id client since limit ps =
    ((q : Post) → In q ps ↔ (In q posts × Due room_id client since limit q)) × RisesAfter since ps

-- How many posts may be pushed to the client.
abbrev pub due_count : List Post → ℕ → Bytes → ℕ → ℕ → ℕ
due_count posts room_id client since limit =
    length (filter (is_due room_id client since limit) posts)

Due-earlier :
    (room_id : ℕ) (client : Bytes) (since limit : ℕ) (p q : Post)
    → Due room_id client since limit p
    → Due room_id client p.post_ts limit q
    → Due room_id client since limit q
Due-earlier room_id client since limit p q (o, h) (n, k) =
    let first = o.newer in
    let then_later = n.newer in
    (record { room = n.room; newer = omega arith; foreign = n.foreign }, k)

is_due_self :
    (room_id : ℕ) (client : Bytes) (limit : ℕ) (p : Post)
    → is_due room_id client p.post_ts limit p ≡ false
is_due_self room_id client limit p = elim (Bool-cases (is_due room_id client p.post_ts limit p)) [
  | inl e ↦
      let later = (is_due→Due room_id client p.post_ts limit p e).0.newer in absurd (omega arith)
  | inr e ↦ e
]

-- The next cursor leaves less due.
pub due_count-drops :
    (db : Db) (room_id : ℕ) (client : Bytes) (since limit : ℕ) (p : Post)
    → In p db.posts
    → Due room_id client since limit p
    → due_count db.posts room_id client p.post_ts limit
      < due_count db.posts room_id client since limit
due_count-drops db room_id client since limit p i d =
    length-filter_lt (is_due room_id client since limit) (is_due room_id client p.post_ts limit)
      db.posts p
      (λ q e. test-Due room_id client since limit q (
        Due-earlier room_id client since limit p q d
          (is_due→Due room_id client p.post_ts limit q e)))
      i (test-Due room_id client since limit p d) (is_due_self room_id client limit p)

pub length-pos : (xs : List Post) (a : Post) → In a xs → 0 < length xs
length-pos [] a i = elim i [ ]
length-pos (x ∷ xs) a i = omega arith

-- Where nothing is due, nothing is delivered.
pub Complete-nil :
    (db : Db) (room_id : ℕ) (client : Bytes) (since limit : ℕ)
    → All (λ q. ¬ Due room_id client since limit q) db.posts
    → Complete db.posts room_id client since limit []
Complete-nil db room_id client since limit h = (
  λ q. (
    λ i. elim i [ ],
    λ (i, d). absurd (All-In (λ r. ¬ Due room_id client since limit r) db.posts q h i d),
  ),
  tt,
)

-- The first post that is due, before those that are due after it.
pub Complete-cons :
    (db : Db) (room_id : ℕ) (client : Bytes) (since limit : ℕ) (p : Post) (ps : List Post)
    → HasUniqueTimes db.posts
    → Answers db room_id client since limit (some p)
    → Complete db.posts room_id client p.post_ts limit ps
    → Complete db.posts room_id client since limit (p ∷ ps)
Complete-cons db room_id client since limit p ps unique (i, d, first) (same, rises) = (
  λ q. (
    elim [
      | inl e ↦ subst (λ r. In r db.posts × Due room_id client since limit r) e (i, d)
      | inr j ↦
          let (k, later) = (same q).0 j in (k, Due-earlier room_id client since limit p q d later)
    ],
    λ (k, due).
        let at_least =
          All-In (λ r. Due room_id client since limit r → p.post_ts ≤ r.post_ts) db.posts q first k
            due in
        elim (Bool-cases (ltb p.post_ts q.post_ts)) [
          | inl later ↦
              let after : p.post_ts < q.post_ts = ground arith in
              inr (
                (same q).1 (
                  k,
                  (record { room = due.0.room; newer = after; foreign = due.0.foreign }, due.1),
                ))
          | inr not_later ↦
              let at_once : p.post_ts ≡ q.post_ts = ground arith in
              inl (unique p q i k (d.0.room ∙ sym due.0.room) at_once)
        ],
  ),
  (d.0.newer, rises),
)
