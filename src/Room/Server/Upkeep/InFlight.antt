-- ===== src/Room/Server/Upkeep/InFlight.antt =====
-- `_store_post` of room/server.py and the sessions that a push is under way to.
use mathlib.Core.Bool.{false≢true}
use meshelle.Prelude.{
  ==_refl, =b=_refl, =b=→eq, All, Bool, Bool-cases, Bytes, In, In-filter_iff, List, Option,
  Option-cases, [], ap, arith, false, filter, inl, inr, ltb, map, none, not, refl, some, sym, true,
  ℕ, ◌&&◌, ◌++◌, ◌-◌, ◌<◌, ◌==◌, ◌=b=◌, ◌∙◌, ◌∷◌, ◌≡◌, ◌≢◌, ◌≤◌,
}
use meshelle.Proto.Text.{Text}
use meshelle.Store.Model.{Db, Post, posted}
use meshelle.Room.Server.Places.{increment_counter-rows}
use meshelle.Store.Counters.{increment_counter}
use meshelle.Store.Posts.{add_post, next_id, next_post_ts}
use meshelle.Store.Posts.Newest.{next_id-gt, prune_posts-newest}
use meshelle.Store.Posts.Order.{next_post_ts-gt, no_clash}
use meshelle.Store.Clients.{has_key, prune_clients}
use meshelle.Room.Session.{ClientSession}
use meshelle.Room.Server.{Server, is_pending}
use meshelle.Room.Server.Upkeep.{
  forget_sessions, in_flight, oldest_kept, pause_pushes, prune_room_clients, store_post,
}
use meshelle.Store.Posts

has_key-filter :
    (p : Bytes → Bool) (keys : List Bytes) (key : Bytes)
    → p key ≡ false
    → has_key (filter p keys) key ≡ false
has_key-filter p [] key out = refl
has_key-filter p (k ∷ keys) key out = elim (Bool-cases (p k)) [
  | inl passes ↦ elim (Bool-cases (k =b= key)) [
    | inl same ↦
        let agree : p k ≡ p key = ap p (=b=→eq k key same) in
        absurd (false≢true (sym out ∙ sym agree ∙ passes))
    | inr other ↦ rw (passes, other) (has_key-filter p keys key out)
  ]
  | inr fails ↦ rw fails (has_key-filter p keys key out)
]

has_key-In :
    {A : Type 0} (f : A → Bytes) (xs : List A) (x : A) → In x xs → has_key (map f xs) (f x) ≡ true
has_key-In f [] x h = elim h [ ]
has_key-In f (y ∷ ys) x (inl same) = rw (same, =b=_refl (f x)) refl
has_key-In f (y ∷ ys) x (inr h) = ground (arith, has_key-In f ys x h)

-- The keys that retention forgets are of no session that waits for an acknowledgement.
pub prune_room_clients_spares :
    (now : ℕ) (sv : Server) (db : Db) (t : ClientSession)
    → In t sv.sessions
    → is_pending t ≡ true
    → has_key (prune_room_clients now sv db).0 t.public_key ≡ false
unfolding prune_room_clients prune_clients
prune_room_clients_spares now sv db t h waits = elim (Option-cases sv.settings.client_retention) [
  | inl e ↦ rw (prune_room_clients, e) refl
  | inr (retention, e) ↦
      let listed : has_key (in_flight sv) t.public_key ≡ true =
        has_key-In (λ s. s.public_key) (filter is_pending sv.sessions) t
          ((In-filter_iff t is_pending sv.sessions).1 (h, waits)) in
      rw (prune_room_clients, e)
        (has_key-filter (λ key. not (has_key (in_flight sv) key))
          (map (λ c. c.public_key)
            (filter (λ c. (c.room_id == sv.room_id) && ltb c.last_activity (now - retention))
              db.clients))
          t.public_key (rw listed refl))
]

prune_room_clients-posts :
    (now : ℕ) (sv : Server) (db : Db) → (prune_room_clients now sv db).1.posts ≡ db.posts
unfolding prune_room_clients prune_clients
prune_room_clients-posts now sv db = elim (Option-cases sv.settings.client_retention) [
  | inl e ↦ rw (e, prune_room_clients) refl
  | inr (retention, e) ↦ rw (e, prune_room_clients) refl
]

-- A post of now is not too old, however short the retention.
oldest_kept-too_old :
    (now : ℕ) (retention : Option ℕ) (p : Post)
    → now ≤ p.post_ts
    → Posts.too_old (oldest_kept now retention) p ≡ false
oldest_kept-too_old now none p h = refl
oldest_kept-too_old now (some retention) p h = ground arith

-- A stored post: it is its author's in the room and is there after retention, and its timestamp is
-- above those of all earlier posts of the room and not before now. No session that waits for an
-- acknowledgement is forgotten.
abbrev pub Stores : ℕ → ℕ → Bytes → Text → Server → Type 0
Stores now monotonic author text sv =
    (post : Post) × (after : Server) × (store_post now monotonic author text sv
      ≡ some (post.post_ts, after))
    × In post after.db.posts
    × (post.room_id ≡ sv.room_id)
    × (post.author_public_key ≡ author)
    × (post.text ≡ text)
    × All (λ p. Posts.in_room sv.room_id p ≡ true → p.post_ts < post.post_ts) sv.db.posts
    × (now ≤ post.post_ts)
    × ((t : ClientSession) → In t sv.sessions → is_pending t ≡ true → In t after.sessions)

-- Where the settings keep a post at all: a text is stored as its author's post in the room, and is
-- there after retention; its timestamp is above those of all earlier posts of the room and not
-- before now. And no session that waits for an acknowledgement is forgotten, whatever the retention
-- policies.
pub store_post-keeps :
    (now monotonic : ℕ) (author : Bytes) (text : Text) (sv : Server)
    → sv.settings.max_posts ≢ some 0
    → Stores now monotonic author text sv
unfolding store_post forget_sessions add_post
store_post-keeps now monotonic author text sv some_kept =
    let (above, later) = next_post_ts-gt sv.db sv.room_id now in
    let post : Post = record {
      id = next_id sv.db.posts;
      room_id = sv.room_id;
      author_public_key = author;
      text = text;
      post_ts = next_post_ts sv.db sv.room_id now;
    } in
    let added : Db = record sv.db { posts = sv.db.posts ++ post ∷ [] } in
    let stored : add_post sv.db sv.room_id author text post.post_ts ≡ some (post, added) =
      rw (no_clash sv.db.posts sv.room_id post.post_ts above) refl in
    let counted = increment_counter added sv.room_id posted 1 in
    let pruned = prune_room_clients now sv counted in
    let kept =
      Posts.prune_posts pruned.1 sv.room_id (oldest_kept now sv.settings.post_retention)
        sv.settings.max_posts in
    (
      post,
      pause_pushes monotonic (forget_sessions pruned.0 (record sv { db = kept.1 })),
      rw (stored, store_post) refl,
      prune_posts-newest pruned.1 sv.room_id (oldest_kept now sv.settings.post_retention)
          sv.settings.max_posts sv.db.posts post
          (prune_room_clients-posts now sv counted
            ∙ (increment_counter-rows added sv.room_id posted 1).0)
          (next_id-gt sv.db.posts) (==_refl sv.room_id) above
          (oldest_kept-too_old now sv.settings.post_retention post later) some_kept,
      refl,
      refl,
      refl,
      above,
      later,
      λ t h waits.
          let stays = prune_room_clients_spares now sv counted t h waits in
          (In-filter_iff t (λ s. not (has_key pruned.0 s.public_key)) sv.sessions).1
            (h, rw stays refl),
    )
