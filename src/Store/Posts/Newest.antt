-- ===== src/Store/Posts/Newest.antt =====
-- A post that is newer than the others of its room, under the retention of `prune_posts`.
use mathlib.Core.Path.{subst}
use meshelle.Prelude.{
  ==_refl, All, All-filter_iff, All-map, All-mapped, Bool, Bool-cases, In, In-filter_iff, List,
  Option, Option-cases, [], any, ap, arith, false, filter, inl, inr, leb, map, none, not, refl,
  some, suc, sym, take, true, zero, ℕ, ◌++◌, ◌+◌, ◌<◌, ◌==◌, ◌∙◌, ◌∷◌, ◌≡◌, ◌≢◌, ◌≤◌,
}
use meshelle.Store.Model.{Db, Post}
use meshelle.Store.Posts.{
  in_room, insert_newest, is_doomed, max_of, newest_first, next_id, not_kept, prune_posts,
  recent_posts, too_old,
}
use meshelle.Store.Posts.Order.{max_of-le, max_of-none}

newest_first-append :
    (ps : List Post) (p : Post)
    → All (λ q. q.post_ts < p.post_ts) ps
    → newest_first (ps ++ p ∷ []) ≡ p ∷ newest_first ps
unfolding newest_first insert_newest
newest_first-append [] p h = refl
newest_first-append (q ∷ ps) p (h, hs) =
    let older : leb p.post_ts q.post_ts ≡ false = ground arith in
    rw (newest_first-append ps p hs, older) refl

filter-append_last :
    (test : Post → Bool) (ps : List Post) (p : Post)
    → test p ≡ true
    → filter test (ps ++ p ∷ []) ≡ filter test ps ++ p ∷ []
filter-append_last test [] p e = rw e refl
filter-append_last test (q ∷ ps) p e = elim (Bool-cases (test q)) [
  | inl hit ↦ rw hit (ap (◌∷◌ q) (filter-append_last test ps p e))
  | inr miss ↦ rw miss (filter-append_last test ps p e)
]

-- The ids of rows that are not this one's.
any_id-filter :
    (test : Post → Bool) (ps : List Post) (p : Post)
    → All (λ q. q.id < p.id) ps
    → test p ≡ false
    → any (λ i. i == p.id) (map (λ q. q.id) (filter test (ps ++ p ∷ []))) ≡ false
any_id-filter test [] p h e = rw e refl
any_id-filter test (q ∷ ps) p (h, hs) e =
    let later = any_id-filter test ps p hs e in
    let other : (q.id == p.id) ≡ false = ground arith in
    elim (Bool-cases (test q)) [ inl hit ↦ rw (hit, other) later | inr miss ↦ rw miss later ]

In-last : {A : Type 0} (xs : List A) (a : A) → In a (xs ++ a ∷ [])
In-last [] a = inl refl
In-last (x ∷ xs) a = inr (In-last xs a)

pub next_id-gt : (ps : List Post) → All (λ q. q.id < next_id ps) ps
unfolding next_id
next_id-gt ps = elim (Option-cases (max_of (map (λ q. q.id) ps))) [
  | inl e ↦
      (All-mapped (λ n. n < next_id ps) (λ q. q.id) ps).0
        (subst (All (λ n. n < next_id ps)) (sym (max_of-none (map (λ q. q.id) ps) e)) tt)
  | inr (m, e) ↦
      let above : next_id ps ≡ m + 1 = rw (e, next_id) refl in
      (All-mapped (λ n. n < next_id ps) (λ q. q.id) ps).0 (
        All-map (λ n. n ≤ m) (λ n. n < next_id ps) (λ n h. omega arith) (map (λ q. q.id) ps)
          (max_of-le (map (λ q. q.id) ps) m e))
]

-- Among the newest posts of a room, up to a positive number of them.
in_recent_posts :
    (db : Db) (room_id n : ℕ) (ps : List Post) (p : Post)
    → db.posts ≡ ps ++ p ∷ []
    → in_room room_id p ≡ true
    → All (λ q. in_room room_id q ≡ true → q.post_ts < p.post_ts) ps
    → not_kept db room_id (some (suc n)) p ≡ false
unfolding recent_posts
in_recent_posts db room_id n ps p same here newest =
    let last : filter (in_room room_id) db.posts ≡ filter (in_room room_id) ps ++ p ∷ [] =
      ap (filter (in_room room_id)) same ∙ filter-append_last (in_room room_id) ps p here in
    let first : newest_first (filter (in_room room_id) db.posts)
        ≡ p ∷ newest_first (filter (in_room room_id) ps) =
      ap newest_first last
      ∙ newest_first-append (filter (in_room room_id) ps) p
          ((All-filter_iff (λ q. q.post_ts < p.post_ts) (in_room room_id) ps).1 newest) in
    ap (λ qs. not (any (λ q. q.id == p.id) (take (suc n) qs))) first ∙ rw (==_refl p.id) refl

kept_by_count :
    (db : Db) (room_id : ℕ) (keep_newest : Option ℕ) (ps : List Post) (p : Post)
    → db.posts ≡ ps ++ p ∷ []
    → in_room room_id p ≡ true
    → All (λ q. in_room room_id q ≡ true → q.post_ts < p.post_ts) ps
    → keep_newest ≢ some 0
    → not_kept db room_id keep_newest p ≡ false
kept_by_count db room_id none ps p same here newest some_kept = refl
kept_by_count db room_id (some zero) ps p same here newest some_kept = absurd (some_kept refl)
kept_by_count db room_id (some (suc n)) ps p same here newest some_kept =
    in_recent_posts db room_id n ps p same here newest

-- A post that came last, that is newer than the others of its room and not too old, stays.
pub prune_posts-newest :
    (db : Db) (room_id : ℕ) (older_than keep_newest : Option ℕ) (ps : List Post) (p : Post)
    → db.posts ≡ ps ++ p ∷ []
    → All (λ q. q.id < p.id) ps
    → in_room room_id p ≡ true
    → All (λ q. in_room room_id q ≡ true → q.post_ts < p.post_ts) ps
    → too_old older_than p ≡ false
    → keep_newest ≢ some 0
    → In p (prune_posts db room_id older_than keep_newest).1.posts
unfolding prune_posts
prune_posts-newest db room_id older_than keep_newest ps p same ids here newest young some_kept =
    let doomed = is_doomed db room_id older_than keep_newest in
    let counted = kept_by_count db room_id keep_newest ps p same here newest some_kept in
    let spared : doomed p ≡ false = rw (young, counted) (ground arith) in
    let kept : any (λ i. i == p.id) (map (λ q. q.id) (filter doomed db.posts)) ≡ false =
      ap (λ qs. any (λ i. i == p.id) (map (λ q. q.id) (filter doomed qs))) same
      ∙ any_id-filter doomed ps p ids spared in
    (In-filter_iff p (λ q. not (any (λ i. i == q.id) (map (λ r. r.id) (filter doomed db.posts))))
        db.posts).1
      (subst (In p) (sym same) (In-last ps p), rw kept refl)
