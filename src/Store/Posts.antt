-- ===== src/Store/Posts.antt =====
-- The posts of store/repo.py. A query is a filter of the rows; what SQL returns in an order is
-- sorted here.
pub mod Order
pub mod Owed
pub mod Retention
pub mod Newest
use meshelle.Prelude.{
  Bool, Bytes, List, Option, [], any, false, filter, if◌then◌else◌, leb, length, ltb, map, max, min,
  none, not, some, take, true, ℕ, ◌&&◌, ◌++◌, ◌+◌, ◌==◌, ◌=b=◌, ◌||◌, ◌∷◌,
}
use meshelle.Store.Model.{Db, Post}
use meshelle.Proto.Text.{Text}

abbrev pub in_room : ℕ → Post → Bool
in_room room_id p = p.room_id == room_id

-- `max` over a column, if there is a row.
unfoldable pub max_of : List ℕ → Option ℕ
max_of [] = none
max_of (n ∷ ns) = elim (max_of ns) [ none ↦ some n | some m ↦ some (max n m) ]

unfoldable pub min_of : List ℕ → Option ℕ
min_of [] = none
min_of (n ∷ ns) = elim (min_of ns) [ none ↦ some n | some m ↦ some (min n m) ]

unfoldable pub next_post_ts : Db → ℕ → ℕ → ℕ
unfolding max_of
next_post_ts db room_id now =
    elim (max_of (map (λ p. p.post_ts) (filter (in_room room_id) db.posts))) [
      | none ↦ now
      | some latest ↦ max now (latest + 1)
    ]

-- SQLite's row id: one more than the largest.
unfoldable pub next_id : List Post → ℕ
unfolding max_of
next_id ps = elim (max_of (map (λ p. p.id) ps)) [ none ↦ 1 | some latest ↦ latest + 1 ]

-- `none` is the `IntegrityError` of the constraint on (room_id, post_ts).
unfoldable pub add_post : Db → ℕ → Bytes → Text → ℕ → Option (Post × Db)
unfolding next_id
add_post db room_id author text post_ts =
    let post : Post = record {
      id = next_id db.posts;
      room_id = room_id;
      author_public_key = author;
      text = text;
      post_ts = post_ts;
    } in
    if any (λ p. in_room room_id p && (p.post_ts == post_ts)) db.posts
    then none
    else some (post, record db { posts = db.posts ++ post ∷ [] })

abbrev pub is_owed : ℕ → Bytes → ℕ → Post → Bool
is_owed room_id client sync_since p =
    in_room room_id p && (ltb sync_since p.post_ts && not (p.author_public_key =b= client))

-- `order_by(Post.post_ts).limit(1)`
unfoldable pub oldest : List Post → Option Post
oldest [] = none
oldest (p ∷ ps) = elim (oldest ps) [
  | none ↦ some p
  | some q ↦ if leb p.post_ts q.post_ts then some p else some q
]

unfoldable pub next_unsynced_post : Db → ℕ → Bytes → ℕ → ℕ → Option Post
unfolding oldest
next_unsynced_post db room_id client sync_since not_newer_than =
    oldest
      (filter (λ p. is_owed room_id client sync_since p && leb p.post_ts not_newer_than) db.posts)

unfoldable pub count_unsynced_posts : Db → ℕ → Bytes → ℕ → ℕ
count_unsynced_posts db room_id client sync_since =
    length (filter (is_owed room_id client sync_since) db.posts)

-- `order_by(Post.post_ts.desc())`
unfoldable pub insert_newest : Post → List Post → List Post
insert_newest p [] = p ∷ []
insert_newest p (q ∷ qs) =
    let rest = insert_newest p qs in if leb q.post_ts p.post_ts then p ∷ q ∷ qs else q ∷ rest

unfoldable pub newest_first : List Post → List Post
unfolding insert_newest
newest_first [] = []
newest_first (p ∷ ps) = insert_newest p (newest_first ps)

unfoldable pub recent_posts : Db → ℕ → ℕ → List Post
unfolding newest_first
recent_posts db room_id limit = take limit (newest_first (filter (in_room room_id) db.posts))

-- The two retention policies; an absent one deletes nothing.
abbrev pub too_old : Option ℕ → Post → Bool
too_old none p = false
too_old (some t) p = ltb p.post_ts t

abbrev pub not_kept : Db → ℕ → Option ℕ → Post → Bool
not_kept db room_id none p = false
not_kept db room_id (some n) p = not (any (λ q. q.id == p.id) (recent_posts db room_id n))

-- The minimum `sync_since` of the room's clients, under which posts may be deleted.
unfoldable pub sync_floor : Db → ℕ → Option ℕ
unfolding min_of
sync_floor db room_id =
    min_of (map (λ c. c.sync_since) (filter (λ c. c.room_id == room_id) db.clients))

abbrev pub under_floor : Option ℕ → Post → Bool
under_floor none p = true
under_floor (some f) p = leb p.post_ts f

abbrev pub is_doomed : Db → ℕ → Option ℕ → Option ℕ → Post → Bool
is_doomed db room_id older_than keep_newest p =
    in_room room_id p
    && ((too_old older_than p || not_kept db room_id keep_newest p)
        && under_floor (sync_floor db room_id) p)

-- The number of posts removed, and the database without them. Rows are deleted by their ids.
unfoldable pub prune_posts : Db → ℕ → Option ℕ → Option ℕ → ℕ × Db
prune_posts db room_id older_than keep_newest =
    let ids = map (λ p. p.id) (filter (is_doomed db room_id older_than keep_newest) db.posts) in
    (length ids, record db { posts = filter (λ p. not (any (λ i. i == p.id) ids)) db.posts })
