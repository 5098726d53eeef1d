-- ===== src/Store/Posts/Retention.antt =====
-- Which posts `prune_posts` removes, and which it must keep.
use mathlib.Core.Path.{subst}
use mathlib.Core.Bool.{false≢true}
use meshelle.Prelude.{
  ==_refl, ==→eq, All, All-In, Bool, Bool-cases, In, In-filter_iff, List, Option, Option-cases, [],
  any, ap, arith, false, filter, inl, inr, leb, map, min, not, refl, some, sym, true, ℕ, ◌<◌, ◌==◌,
  ◌↔◌, ◌∙◌, ◌∷◌, ◌≡◌, ◌≢◌, ◌≤◌,
}
use meshelle.Store.Model.{Client, Db, Post}
use meshelle.Store.Posts.{is_doomed, min_of, prune_posts, sync_floor}

-- The primary key: rows with one id are one row.
abbrev pub UniqueIds : List Post → Type 0
UniqueIds [] = Unit
UniqueIds (p ∷ ps) = All (λ q. q.id ≢ p.id) ps × UniqueIds ps

same_row : (ps : List Post) → UniqueIds ps → (p q : Post) → In p ps → In q ps → p.id ≡ q.id → p ≡ q
same_row [] u p q i j e = elim i [ ]
same_row (r ∷ ps) u p q (inl a) (inl b) e = sym a ∙ b
same_row (r ∷ ps) u p q (inl a) (inr j) e =
    absurd (All-In (λ s. s.id ≢ r.id) ps q u.0 j (sym e ∙ ap (λ (x : Post). x.id) (sym a)))
same_row (r ∷ ps) u p q (inr i) (inl b) e =
    absurd (All-In (λ s. s.id ≢ r.id) ps p u.0 i (e ∙ ap (λ (x : Post). x.id) (sym b)))
same_row (r ∷ ps) u p q (inr i) (inr j) e = same_row ps u.1 p q i j e

any_id→In :
    (i : ℕ) (ps : List Post)
    → any (λ j. j == i) (map (λ p. p.id) ps) ≡ true
    → (p : Post) × In p ps × (p.id ≡ i)
any_id→In i [] e = cc
any_id→In i (p ∷ ps) e = elim (Bool-cases (p.id == i)) [
  | inl same ↦ (p, inl refl, ==→eq p.id i same)
  | inr other ↦ let (q, listed, same) = any_id→In i ps (ground arith) in (q, inr listed, same)
]

In→any_id : (p : Post) (ps : List Post) → In p ps → any (λ j. j == p.id) (map (λ q. q.id) ps) ≡ true
In→any_id p [] i = elim i [ ]
In→any_id p (q ∷ ps) (inl e) = rw e (rw (==_refl p.id) refl)
In→any_id p (q ∷ ps) (inr i) = ground (arith, In→any_id p ps i)

module _ (db : Db) (room_id : ℕ) (older_than keep_newest : Option ℕ) where
  abbrev doomed : Post → Bool
  doomed = is_doomed db room_id older_than keep_newest

  abbrev removed : Post → Bool
  removed p = any (λ i. i == p.id) (map (λ q. q.id) (filter doomed db.posts))

  removed-eq : UniqueIds db.posts → (p : Post) → In p db.posts → removed p ≡ doomed p
  removed-eq unique p listed = elim (Bool-cases (doomed p)) [
    | inl yes_doomed ↦
        In→any_id p (filter doomed db.posts)
          ((In-filter_iff p doomed db.posts).1 (listed, yes_doomed))
        ∙ sym yes_doomed
    | inr spared ↦ elim (Bool-cases (removed p)) [
      | inl gone ↦
          let (q, kept, same) = any_id→In p.id (filter doomed db.posts) gone in
          let (listed', fails) = (In-filter_iff q doomed db.posts).0 kept in
          let one : q ≡ p = same_row db.posts unique q p listed' listed same in
          absurd (false≢true (sym spared ∙ subst (λ x. doomed x ≡ true) one fails))
      | inr stays ↦ stays ∙ sym spared
    ]
  ]

  -- What is left after pruning is the rows that no policy dooms.
  pub prune_posts_iff :
      UniqueIds db.posts
      → (p : Post)
      → In p (prune_posts db room_id older_than keep_newest).1.posts
        ↔ (In p db.posts × (is_doomed db room_id older_than keep_newest p ≡ false))
  unfolding prune_posts
  prune_posts_iff unique p =
      let kept = In-filter_iff p (λ q. not (removed q)) db.posts in
      (
        λ i.
            let (listed, stays) = kept.0 i in
            let same = removed-eq unique p listed in (listed, ground (arith, stays, same)),
        λ h. let same = removed-eq unique p h.0 in kept.1 (h.0, rw (same, h.1) refl),
      )

min_of-le : (ns : List ℕ) (n : ℕ) → In n ns → (m : ℕ) × (min_of ns ≡ some m) × (m ≤ n)
unfolding min_of
min_of-le [] n i = elim i [ ]
min_of-le (k ∷ ns) n (inl e) = elim (Option-cases (min_of ns)) [
  | inl empty ↦ (k, rw (empty, min_of) refl, omega arith)
  | inr (m, e') ↦ (min k m, rw (e', min_of) refl, omega arith)
]
min_of-le (k ∷ ns) n (inr i) =
    let (m, e, le) = min_of-le ns n i in (min k m, rw (e, min_of) refl, omega arith)

In-map : {A : Type 0} (f : A → ℕ) (a : A) (xs : List A) → In a xs → In (f a) (map f xs)
In-map f a [] i = elim i [ ]
In-map f a (x ∷ xs) (inl e) = inl (ap f e)
In-map f a (x ∷ xs) (inr i) = inr (In-map f a xs i)

-- A client's cursor bounds what may be deleted.
sync_floor-le :
    (db : Db) (room_id : ℕ) (c : Client)
    → In c db.clients
    → c.room_id ≡ room_id
    → (f : ℕ) × (sync_floor db room_id ≡ some f) × (f ≤ c.sync_since)
unfolding sync_floor
sync_floor-le db room_id c i e =
    let here = λ (d : Client). d.room_id == room_id in
    let passes : (c.room_id == room_id) ≡ true = rw e (==_refl room_id) in
    let listed = (In-filter_iff c here db.clients).1 (i, passes) in
    min_of-le (map (λ d. d.sync_since) (filter here db.clients)) c.sync_since
      (In-map (λ d. d.sync_since) c (filter here db.clients) listed)

-- Why a post must survive: it is another room's, or some client of its room has not been sent it.
pub data MustKeep (db : Db) (room_id : ℕ) (p : Post) : Type 0 where
  elsewhere : p.room_id ≢ room_id → MustKeep db room_id p
  unsent :
      (c : Client)
      → In c db.clients
      → c.room_id ≡ room_id
      → c.sync_since < p.post_ts
      → MustKeep db room_id p

not-is_doomed :
    (db : Db) (room_id : ℕ) (older_than keep_newest : Option ℕ) (p : Post)
    → MustKeep db room_id p
    → is_doomed db room_id older_than keep_newest p ≡ false
not-is_doomed db room_id older_than keep_newest p (elsewhere h) = ground arith
not-is_doomed db room_id older_than keep_newest p (unsent c i e h) =
    let (f, floor, le) = sync_floor-le db room_id c i e in
    let over : leb p.post_ts f ≡ false = ground arith in rw (floor, over) (ground arith)

-- Whatever the policies, pruning keeps every post of another room and every post that some client of
-- the room has not been sent.
pub prune_posts-keeps :
    (db : Db) (room_id : ℕ) (older_than keep_newest : Option ℕ) (p : Post)
    → UniqueIds db.posts
    → In p db.posts
    → MustKeep db room_id p
    → In p (prune_posts db room_id older_than keep_newest).1.posts
prune_posts-keeps db room_id older_than keep_newest p unique listed must =
    (prune_posts_iff db room_id older_than keep_newest unique p).1
      (listed, not-is_doomed db room_id older_than keep_newest p must)
