-- ===== src/Store/Rooms.antt =====
-- The hosted rooms and the versions of store/repo.py.
use meshelle.Prelude.{
  Bool, Bytes, List, Option, [], any, codes, false, find, if◌then◌else◌, inl, inr, ltb, map, none,
  some, true, update_where, ℕ, ◌++◌, ◌+◌, ◌==◌, ◌=b=◌, ◌∷◌, ◌⊎◌,
}
use meshelle.Proto.Text.{Text}
use meshelle.Store.Model.{Db, HostedRoom}
use meshelle.Store.Posts.{max_of}

-- `StoreError`, and the database's refusal of a second room with one key.
pub data StoreError : Type 0 where
  other_public_key key_taken : StoreError

unfoldable pub get_room_by_slug : Db → Text → Option HostedRoom
unfolding ◌=b=◌
get_room_by_slug db slug = find (λ r. r.slug =b= slug) db.rooms

abbrev pub next_room_id : List HostedRoom → ℕ
unfolding max_of
next_room_id rooms = elim (max_of (map HostedRoom.id rooms)) [
  | none ↦ 1
  | some highest ↦ highest + 1
]

-- The row of a configured room, and the database with it.
unfoldable pub ensure_room : Db → Text → Bytes → ℕ → StoreError ⊎ (HostedRoom × Db)
unfolding get_room_by_slug ◌=b=◌ max_of
ensure_room db slug public_key now = elim (get_room_by_slug db slug) [
  | some r ↦ if r.public_key =b= public_key then inr (r, db) else inl other_public_key
  | none ↦
      let r : HostedRoom = record {
        id = next_room_id db.rooms;
        slug = slug;
        public_key = public_key;
        created_at = now;
      } in
      if any (λ s. s.public_key =b= public_key) db.rooms
      then inl key_taken
      else inr (r, record db { rooms = db.rooms ++ r ∷ [] })
]

-- Whether a text is not after another in the database's order.
unfoldable pub text_le : Text → Text → Bool
text_le [] ys = true
text_le (x ∷ xs) [] = false
text_le (x ∷ xs) (y ∷ ys) = let rest = text_le xs ys in if x == y then rest else ltb x y

unfoldable pub insert_by_slug : HostedRoom → List HostedRoom → List HostedRoom
insert_by_slug r [] = r ∷ []
insert_by_slug r (s ∷ rooms) =
    let later = insert_by_slug r rooms in if text_le r.slug s.slug then r ∷ s ∷ rooms else s ∷ later

unfoldable pub by_slug : List HostedRoom → List HostedRoom
by_slug [] = []
by_slug (r ∷ rooms) = insert_by_slug r (by_slug rooms)

unfoldable pub list_rooms : Db → List HostedRoom
list_rooms db = by_slug db.rooms

unfoldable pub get_meta : Db → Text → Option Text
get_meta db key = elim (find (λ m. m.key =b= key) db.meta) [
  | none ↦ none
  | some row ↦ some row.value
]

unfoldable pub set_meta : Db → Text → Text → Db
set_meta db key value = elim (find (λ m. m.key =b= key) db.meta) [
  | none ↦ record db { meta = db.meta ++ record { key = key; value = value } ∷ [] }
  | some row ↦ record db {
    meta = update_where (λ m. m.key =b= key) (λ m. record m { value = value }) db.meta;
  }
]

abbrev pub meta_created_by : Text
meta_created_by = codes "created_by"

abbrev pub meta_last_opened_by : Text
meta_last_opened_by = codes "last_opened_by"

-- The version that created the database is noted once, the one that opened it last each time.
unfoldable pub record_version : Db → Text → Db
record_version db version = elim (get_meta db meta_created_by) [
  | none ↦ set_meta (set_meta db meta_created_by version) meta_last_opened_by version
  | some creator ↦ set_meta db meta_last_opened_by version
]
