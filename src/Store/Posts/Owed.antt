-- ===== src/Store/Posts/Owed.antt =====
-- What `next_unsynced_post` and `count_unsynced_posts` answer.
use mathlib.Core.Path.{subst}
use native.Mathlib.Nat.{le_trans, le_refl}
use meshelle.Prelude.{
  =b=_refl, =b=→eq, All, All-filter_iff, All-map, Bool, Bool-cases, Bytes, In, In-filter_iff, List,
  Option, Option-cases, [], arith, filter, inl, inr, leb, leb→le, le→leb, none, refl, some, true, ℕ,
  ◌&&◌, ◌<◌, ◌∷◌, ◌≡◌, ◌≢◌, ◌≤◌,
}
use meshelle.Store.Model.{Db, Post}
use meshelle.Store.Posts.{is_owed, next_unsynced_post, oldest}

-- A post that a client is owed: in its room, newer than its cursor, and not its own.
pub record Owed (room_id : ℕ) (client : Bytes) (since : ℕ) (p : Post) : Type 0 where
  pub room : p.room_id ≡ room_id
  pub newer : since < p.post_ts
  pub foreign : p.author_public_key ≢ client

pub is_owed→Owed :
    (room_id : ℕ) (client : Bytes) (since : ℕ) (p : Post)
    → is_owed room_id client since p ≡ true
    → Owed room_id client since p
is_owed→Owed room_id client since p h = record {
  room = ground arith;
  newer = ground arith;
  foreign = λ e. ground (arith, e, =b=_refl client);
}

pub test-Owed :
    (room_id : ℕ) (client : Bytes) (since : ℕ) (p : Post)
    → Owed room_id client since p
    → is_owed room_id client since p ≡ true
test-Owed room_id client since p o =
    ground (arith, o.room, o.newer, o.foreign, =b=→eq p.author_public_key client)

oldest-none : (ps : List Post) → oldest ps ≡ none → ps ≡ []
unfolding oldest
oldest-none [] e = refl
oldest-none (p ∷ ps) e = ground arith

-- The first post in time, among those of a list.
pub record IsOldest (p : Post) (ps : List Post) : Type 0 where
  pub listed : In p ps
  pub first : All (λ q. p.post_ts ≤ q.post_ts) ps

oldest-IsOldest : (ps : List Post) (p : Post) → oldest ps ≡ some p → IsOldest p ps
unfolding oldest
oldest-IsOldest [] p e = cc
oldest-IsOldest (q ∷ ps) p e = elim (Option-cases (oldest ps)) [
  | inl empty ↦
      let same : q ≡ p = ground arith in
      rw (oldest-none ps empty)
        (record { listed = inl same; first = (rw same (le_refl p.post_ts), tt) })
  | inr (r, e') ↦
      let rest = oldest-IsOldest ps r e' in
      elim (Bool-cases (leb q.post_ts r.post_ts)) [
        | inl earlier ↦
            let same : q ≡ p = ground arith in
            let le : p.post_ts ≤ r.post_ts = rw (← same) (leb→le q.post_ts r.post_ts earlier) in
            record {
              listed = inl same;
              first = (
                rw same (le_refl p.post_ts),
                All-map (λ s. r.post_ts ≤ s.post_ts) (λ s. p.post_ts ≤ s.post_ts)
                    (λ s h. le_trans le h) ps rest.first,
              );
            }
        | inr later ↦
            let same : r ≡ p = ground arith in
            let le : r.post_ts ≤ q.post_ts = ground arith in
            subst (λ x. IsOldest x (q ∷ ps)) same
              (record { listed = inr rest.listed; first = (le, rest.first) })
      ]
]

-- A post that may be pushed now: owed, and settled.
abbrev pub Due : ℕ → Bytes → ℕ → ℕ → Post → Type 0
Due room_id client since limit p = Owed room_id client since p × (p.post_ts ≤ limit)

abbrev pub is_due : ℕ → Bytes → ℕ → ℕ → Post → Bool
is_due room_id client since limit p = is_owed room_id client since p && leb p.post_ts limit

pub is_due→Due :
    (room_id : ℕ) (client : Bytes) (since limit : ℕ) (p : Post)
    → is_due room_id client since limit p ≡ true
    → Due room_id client since limit p
is_due→Due room_id client since limit p h =
    (is_owed→Owed room_id client since p (ground arith), ground arith)

pub test-Due :
    (room_id : ℕ) (client : Bytes) (since limit : ℕ) (p : Post)
    → Due room_id client since limit p
    → is_due room_id client since limit p ≡ true
test-Due room_id client since limit p d =
    rw (test-Owed room_id client since p d.0, le→leb p.post_ts limit d.1) refl

-- The post that is returned is due, and no post that is due is older.
pub next_unsynced_post-some :
    (db : Db) (room_id : ℕ) (client : Bytes) (since limit : ℕ) (p : Post)
    → next_unsynced_post db room_id client since limit ≡ some p
    → In p db.posts
      × Due room_id client since limit p
      × All (λ q. Due room_id client since limit q → p.post_ts ≤ q.post_ts) db.posts
unfolding next_unsynced_post
next_unsynced_post-some db room_id client since limit p e =
    let test = is_due room_id client since limit in
    let o = oldest-IsOldest (filter test db.posts) p e in
    let (listed, passes) = (In-filter_iff p test db.posts).0 o.listed in
    (
      listed,
      is_due→Due room_id client since limit p passes,
      All-map (λ q. test q ≡ true → p.post_ts ≤ q.post_ts)
          (λ q. Due room_id client since limit q → p.post_ts ≤ q.post_ts)
          (λ q h d. h (test-Due room_id client since limit q d)) db.posts
          ((All-filter_iff (λ q. p.post_ts ≤ q.post_ts) test db.posts).0 o.first),
    )

-- No post is returned only where none is due.
pub next_unsynced_post-none :
    (db : Db) (room_id : ℕ) (client : Bytes) (since limit : ℕ)
    → next_unsynced_post db room_id client since limit ≡ none
    → All (λ q. ¬ Due room_id client since limit q) db.posts
unfolding next_unsynced_post
next_unsynced_post-none db room_id client since limit e =
    let test = is_due room_id client since limit in
    let empty : All (λ q. ⊥) (filter test db.posts) =
      rw (oldest-none (filter test db.posts) e) tt in
    All-map (λ q. test q ≡ true → ⊥) (λ q. ¬ Due room_id client since limit q)
      (λ q h d. h (test-Due room_id client since limit q d)) db.posts
      ((All-filter_iff (λ q. ⊥) test db.posts).0 empty)

-- What an answer of the query means.
abbrev pub Answers : Db → ℕ → Bytes → ℕ → ℕ → Option Post → Type 0
Answers db room_id client since limit none = All (λ q. ¬ Due room_id client since limit q) db.posts
Answers db room_id client since limit (some p) =
    In p db.posts
    × Due room_id client since limit p
    × All (λ q. Due room_id client since limit q → p.post_ts ≤ q.post_ts) db.posts

-- The query returns a stored post that the client is owed and that has settled, such that no post of
-- that kind is older; it returns nothing only where there is no such post.
pub next_unsynced_post_lem :
    (db : Db) (room_id : ℕ) (client : Bytes) (since limit : ℕ)
    → Answers db room_id client since limit (next_unsynced_post db room_id client since limit)
next_unsynced_post_lem db room_id client since limit =
    go (next_unsynced_post db room_id client since limit) refl
  where
    go :
        (o : Option Post)
        → next_unsynced_post db room_id client since limit ≡ o
        → Answers db room_id client since limit o
    go none e = next_unsynced_post-none db room_id client since limit e
    go (some p) e = next_unsynced_post-some db room_id client since limit p e
