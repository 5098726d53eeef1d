-- ===== src/Store/Posts/Order.antt =====
-- The timestamps of a room's posts, which serve as the sync cursor.
use native.Mathlib.Nat.{le_trans}
use meshelle.Prelude.{
  All, All-filter_iff, All-map, All-mapped, Bytes, List, Option, Option-cases, [], any, arith,
  false, filter, inl, inr, map, max, none, refl, some, true, ℕ, ◌&&◌, ◌++◌, ◌+◌, ◌<◌, ◌==◌, ◌∷◌,
  ◌≡◌, ◌≤◌,
}
use meshelle.Store.Posts.{add_post, in_room, max_of, next_id, next_post_ts}
use meshelle.Store.Model.{Db, Post}
use meshelle.Proto.Text.{Text}

pub max_of-none : (ns : List ℕ) → max_of ns ≡ none → ns ≡ []
unfolding max_of
max_of-none [] e = refl
max_of-none (n ∷ ns) e = ground arith

pub max_of-le : (ns : List ℕ) (m : ℕ) → max_of ns ≡ some m → All (λ n. n ≤ m) ns
unfolding max_of
max_of-le [] m e = tt
max_of-le (n ∷ ns) m e = elim (Option-cases (max_of ns)) [
  | inl empty ↦ rw (max_of-none ns empty) (ground arith, tt)
  | inr (k, e') ↦
      let room : (n ≤ m) × (k ≤ m) = ground arith in
      (room.0, All-map (λ i. i ≤ k) (λ i. i ≤ m) (λ i h. le_trans h room.1) ns (max_of-le ns k e'))
]

-- Every post of the room is older than the next timestamp, which is not before `now`.
pub next_post_ts-gt :
    (db : Db) (room_id now : ℕ)
    → All (λ p. in_room room_id p ≡ true → p.post_ts < next_post_ts db room_id now) db.posts
      × (now ≤ next_post_ts db room_id now)
unfolding next_post_ts
next_post_ts-gt db room_id now = elim (Option-cases latest) [
  | inl empty ↦
      let value : next_post_ts db room_id now ≡ now = rw (empty, next_post_ts) refl in
      rw value (below now (rw (max_of-none stamps empty) tt), omega arith)
  | inr (m, e) ↦
      let value : next_post_ts db room_id now ≡ max now (m + 1) = rw (e, next_post_ts) refl in
      rw value (
        below (max now (m + 1)) (
            All-map (λ n. n ≤ m) (λ n. n < max now (m + 1)) (λ n h. omega arith) stamps
              (max_of-le stamps m e)),
        omega arith,
      )
]
  where
    stamps : List ℕ
    stamps = map (λ p. p.post_ts) (filter (in_room room_id) db.posts)

    latest : Option ℕ
    latest = max_of stamps

    below :
        (t : ℕ)
        → All (λ n. n < t) stamps
        → All (λ p. in_room room_id p ≡ true → p.post_ts < t) db.posts
    below t h =
        (All-filter_iff (λ p. p.post_ts < t) (in_room room_id) db.posts).0
          ((All-mapped (λ n. n < t) (λ p. p.post_ts) (filter (in_room room_id) db.posts)).0 h)

pub no_clash :
    (ps : List Post) (room_id t : ℕ)
    → All (λ p. in_room room_id p ≡ true → p.post_ts < t) ps
    → any (λ p. in_room room_id p && (p.post_ts == t)) ps ≡ false
no_clash [] room_id t h = refl
no_clash (p ∷ ps) room_id t h = ground (arith, h.0, no_clash ps room_id t h.1)

-- A post at the next timestamp never breaks the constraint on timestamps. It goes behind the other
-- rows, is newer than every post of its room, and is not dated before `now`.
pub add_post-next_post_ts :
    (db : Db) (room_id now : ℕ) (author : Bytes) (text : Text)
    → (post : Post) × (add_post db room_id author text (next_post_ts db room_id now)
        ≡ some (post, record db { posts = db.posts ++ post ∷ [] }))
      × All (λ p. in_room room_id p ≡ true → p.post_ts < post.post_ts) db.posts
      × (now ≤ post.post_ts)
      × (post.author_public_key ≡ author)
      × (post.text ≡ text)
unfolding add_post
add_post-next_post_ts db room_id now author text =
    let (older, later) = next_post_ts-gt db room_id now in
    (
      record {
        id = next_id db.posts;
        room_id = room_id;
        author_public_key = author;
        text = text;
        post_ts = next_post_ts db room_id now;
      },
      rw (no_clash db.posts room_id (next_post_ts db room_id now) older) refl,
      older,
      later,
      refl,
      refl,
    )
