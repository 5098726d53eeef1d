-- ===== src/Tests/Store.antt =====
-- Runs of the store's queries.
use meshelle.Prelude.{
  All, Bytes, In, [], arith, codes, inl, inr, map, refl, some, true, ℕ, ◌++◌, ◌<◌, ◌=b=◌, ◌∷◌, ◌≡◌,
  ◌≤◌,
}
use meshelle.Store.Model.{Client, Db, HostedRoom, Post}
use meshelle.Store.Posts.{add_post, next_post_ts, next_unsynced_post, prune_posts}
use meshelle.Store.Posts.Retention.{unsent}
use meshelle.Proto.Constants.{read_write}
use meshelle.Store.Rooms.{other_public_key}
use meshelle.Store.Posts
use meshelle.Store.Rooms
use meshelle.Store.Clients
use meshelle.Store.Clients.Cursor
use meshelle.Store.Clients.Login
use meshelle.Store.Posts.Owed
use meshelle.Store.Posts.Order
use meshelle.Store.Posts.Retention

abbrev pub alice : Bytes
alice = 0xaa ∷ 1 ∷ []

abbrev pub bob : Bytes
bob = 0xbb ∷ 2 ∷ []

abbrev pub post_at : ℕ → Bytes → ℕ → Post
post_at id author t = record {
  id = id;
  room_id = 1;
  author_public_key = author;
  text = b'x' ∷ [];
  post_ts = t;
}

abbrev client_at : Bytes → ℕ → Client
client_at key since = record {
  room_id = 1;
  public_key = key;
  last_role = 2;
  last_timestamp = 0;
  sync_since = since;
  out_path = [];
  out_path_len = 0xff;
  first_seen = 1;
  last_activity = 1;
}

abbrev pub board : Db
board = record {
  rooms = [];
  meta = [];
  posts = post_at 1 alice 10 ∷ post_at 2 bob 20 ∷ post_at 3 alice 30 ∷ [];
  clients = client_at alice 30 ∷ client_at bob 10 ∷ [];
  counters = [];
}

pub bob_is_owed : next_unsynced_post board 1 bob 10 94 ≡ some (post_at 3 alice 30)
unfolding next_unsynced_post ◌=b=◌
bob_is_owed = refl

next_unsynced_post_lem_example :
    Owed.Answers board 1 bob 10 100 (next_unsynced_post board 1 bob 10 100)
next_unsynced_post_lem_example = Owed.next_unsynced_post_lem board 1 bob 10 100

add_post-next_post_ts_example :
    (post : Post) × (add_post board 1 bob (b'y' ∷ []) (next_post_ts board 1 25)
      ≡ some (post, record board { posts = board.posts ++ post ∷ [] }))
    × All (λ p. Posts.in_room 1 p ≡ true → p.post_ts < post.post_ts) board.posts
    × (25 ≤ post.post_ts)
    × (post.author_public_key ≡ bob)
    × (post.text ≡ b'y' ∷ [])
add_post-next_post_ts_example = Order.add_post-next_post_ts board 1 25 bob (b'y' ∷ [])

-- Bob has not been sent the posts behind 10, so only the first one can go.
pruned :
    (prune_posts board 1 (some 100) (some 0)).1.posts ≡ post_at 2 bob 20 ∷ post_at 3 alice 30 ∷ []
unfolding prune_posts Posts.sync_floor Posts.recent_posts
pruned = refl

board_ids : Retention.UniqueIds board.posts
board_ids = omega arith

prune_posts-keeps_example :
    In (post_at 3 alice 30) (prune_posts board 1 (some 100) (some 0)).1.posts
prune_posts-keeps_example =
    Retention.prune_posts-keeps board 1 (some 100) (some 0) (post_at 3 alice 30) board_ids
      (inr (inr (inl refl))) (unsent (client_at bob 10) (inr (inl refl)) refl (omega arith))

advance_sync_lem_example :
    Clients.advance_sync board 1 bob 5
    ≡ record board { clients = map (Cursor.advanced 1 bob 5) board.clients }
advance_sync_lem_example = Cursor.advance_sync_lem board 1 bob 5

record_login-Stored_example :
    Login.Stored board 1 bob read_write 40 12 99 true
      (Clients.record_login board 1 bob read_write 40 12 99 true)
record_login-Stored_example = Login.record_login-Stored board 1 bob read_write 40 12 99 true

-- The lobby is created, found again under its key, and refused under another.
abbrev lobby : HostedRoom
lobby = record { id = 1; slug = codes "lobby"; public_key = alice; created_at = 7 }

abbrev attic : HostedRoom
attic = record { id = 2; slug = codes "attic"; public_key = bob; created_at = 8 }

abbrev lobby_db : Db
lobby_db = record board { rooms = lobby ∷ [] }

abbrev house : Db
house = record board { rooms = lobby ∷ attic ∷ [] }

lobby_created : Rooms.ensure_room board (codes "lobby") alice 7 ≡ inr (lobby, lobby_db)
unfolding Rooms.ensure_room ◌=b=◌
lobby_created = refl

lobby_found : Rooms.ensure_room lobby_db (codes "lobby") alice 9 ≡ inr (lobby, lobby_db)
unfolding Rooms.ensure_room ◌=b=◌
lobby_found = refl

lobby_refused : Rooms.ensure_room lobby_db (codes "lobby") bob 9 ≡ inl other_public_key
unfolding Rooms.ensure_room ◌=b=◌
lobby_refused = refl

house_listed : Rooms.list_rooms house ≡ attic ∷ lobby ∷ []
unfolding Rooms.list_rooms Rooms.by_slug Rooms.insert_by_slug Rooms.text_le
house_listed = refl

version_recorded :
    (Rooms.record_version (Rooms.record_version board (codes "1")) (codes "2")).meta
    ≡ record { key = codes "created_by"; value = codes "1" }
      ∷ record { key = codes "last_opened_by"; value = codes "2" }
      ∷ []
unfolding Rooms.record_version Rooms.set_meta Rooms.get_meta ◌=b=◌
version_recorded = refl
