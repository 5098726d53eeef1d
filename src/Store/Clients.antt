-- ===== src/Store/Clients.antt =====
-- The clients of store/repo.py.
pub mod Cursor
pub mod Login
use meshelle.Prelude.{
  Bool, Bytes, List, Option, [], any, filter, find, if◌then◌else◌, leb, ltb, map, none, not, some,
  update_where, ℕ, ◌&&◌, ◌++◌, ◌==◌, ◌=b=◌, ◌∷◌,
}
use meshelle.Store.Model.{Client, Db}
use meshelle.Proto.Constants.{Permission, admin, out_path_unknown, permission_code}

abbrev pub is_client : ℕ → Bytes → Client → Bool
is_client room_id public_key c = (c.room_id == room_id) && (c.public_key =b= public_key)

unfoldable pub get_client : Db → ℕ → Bytes → Option Client
get_client db room_id public_key = find (is_client room_id public_key) db.clients

abbrev pub new_client : ℕ → Bytes → ℕ → Client
new_client room_id public_key now = record {
  room_id = room_id;
  public_key = public_key;
  last_role = 0;
  last_timestamp = 0;
  sync_since = 0;
  out_path = [];
  out_path_len = out_path_unknown;
  first_seen = now;
  last_activity = 0;
}

-- What a login writes into a client's row.
abbrev pub logged_in : Permission → ℕ → ℕ → ℕ → Bool → Client → Client
logged_in role sender_timestamp sync_since now reset_out_path c = record c {
  last_role = permission_code role;
  last_timestamp = sender_timestamp;
  sync_since = sync_since;
  last_activity = now;
  out_path = if reset_out_path then [] else c.out_path;
  out_path_len = if reset_out_path then out_path_unknown else c.out_path_len;
}

unfoldable pub record_login : Db → ℕ → Bytes → Permission → ℕ → ℕ → ℕ → Bool → Client × Db
unfolding get_client
record_login db room_id public_key role sender_timestamp sync_since now reset_out_path =
    elim (get_client db room_id public_key) [
      | none ↦
          let c =
            logged_in role sender_timestamp sync_since now reset_out_path
              (new_client room_id public_key now) in
          (c, record db { clients = db.clients ++ c ∷ [] })
      | some old ↦ (
        logged_in role sender_timestamp sync_since now reset_out_path old,
        record db {
          clients =
              update_where (is_client room_id public_key)
                (logged_in role sender_timestamp sync_since now reset_out_path) db.clients;
        },
      )
    ]

-- `update(Client).where(...).values(...)` on one client's row.
abbrev pub update_client : Db → ℕ → Bytes → (Client → Client) → Db
update_client db room_id public_key f = record db {
  clients = update_where (is_client room_id public_key) f db.clients;
}

unfoldable pub set_out_path : Db → ℕ → Bytes → Bytes → ℕ → Db
set_out_path db room_id public_key out_path path_len =
    update_client db room_id public_key
      (λ c. record c { out_path = out_path; out_path_len = path_len })

-- Only forwards: the row is changed where its cursor is behind.
unfoldable pub advance_sync : Db → ℕ → Bytes → ℕ → Db
advance_sync db room_id public_key post_ts =
    update_client db room_id public_key
      (λ c. if ltb c.sync_since post_ts then record c { sync_since = post_ts } else c)

unfoldable pub force_sync_since : Db → ℕ → Bytes → ℕ → Db
force_sync_since db room_id public_key since =
    update_client db room_id public_key (λ c. record c { sync_since = since })

unfoldable pub touch_client : Db → ℕ → Bytes → ℕ → Option ℕ → Db
touch_client db room_id public_key now none =
    update_client db room_id public_key (λ c. record c { last_activity = now })
touch_client db room_id public_key now (some t) = update_client db room_id public_key (λ c.
    if ltb c.last_timestamp t then record c { last_activity = now; last_timestamp = t } else c)

-- `order_by(Client.first_seen)`
unfoldable pub insert_seen : Client → List Client → List Client
insert_seen c [] = c ∷ []
insert_seen c (d ∷ ds) =
    let rest = insert_seen c ds in if leb c.first_seen d.first_seen then c ∷ d ∷ ds else d ∷ rest

unfoldable pub by_first_seen : List Client → List Client
unfolding insert_seen
by_first_seen [] = []
by_first_seen (c ∷ cs) = insert_seen c (by_first_seen cs)

unfoldable pub list_clients : Db → ℕ → List Client
unfolding by_first_seen
list_clients db room_id = by_first_seen (filter (λ c. c.room_id == room_id) db.clients)

unfoldable pub list_admin_clients : Db → ℕ → List Client
unfolding by_first_seen
list_admin_clients db room_id = by_first_seen (
    filter (λ c. (c.room_id == room_id) && (c.last_role == permission_code Permission.admin))
      db.clients)

-- Whether a key is in a list of keys.
abbrev pub has_key : List Bytes → Bytes → Bool
has_key keys key = any (λ k. k =b= key) keys

-- The keys of the room's idle clients that are not to be kept.
abbrev pub idle_keys : Db → ℕ → ℕ → List Bytes → List Bytes
idle_keys db room_id older_than keep =
    filter (λ key. not (has_key keep key))
      (map (λ c. c.public_key)
        (filter (λ c. (c.room_id == room_id) && ltb c.last_activity older_than) db.clients))

unfoldable pub prune_clients : Db → ℕ → ℕ → List Bytes → List Bytes × Db
prune_clients db room_id older_than keep =
    let doomed = idle_keys db room_id older_than keep in
    (
      doomed,
      record db {
        clients =
            filter (λ c. not ((c.room_id == room_id) && has_key doomed c.public_key)) db.clients;
      },
    )
