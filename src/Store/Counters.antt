-- ===== src/Store/Counters.antt =====
-- The counters of store/repo.py.
use meshelle.Prelude.{
  Bool, [], false, filter, find, none, not, some, true, update_where, ℕ, ◌&&◌, ◌++◌, ◌+◌, ◌==◌, ◌∷◌,
}
use meshelle.Store.Model.{Counter, CounterName, Db, post_push, posted}

abbrev pub same_name : CounterName → CounterName → Bool
same_name posted posted = true
same_name post_push post_push = true
same_name _ _ = false

abbrev pub is_counter : ℕ → CounterName → Counter → Bool
is_counter room_id name c = (c.room_id == room_id) && same_name c.name name

-- The value of a counter; `counters.get(name, 0)` after `get_counters`.
unfoldable pub counter_value : Db → ℕ → CounterName → ℕ
counter_value db room_id name = elim (find (is_counter room_id name) db.counters) [
  | none ↦ 0
  | some c ↦ c.value
]

unfoldable pub increment_counter : Db → ℕ → CounterName → ℕ → Db
increment_counter db room_id name by = elim (find (is_counter room_id name) db.counters) [
  | none ↦ record db {
    counters = db.counters ++ record { room_id = room_id; name = name; value = by } ∷ [];
  }
  | some c ↦ record db {
    counters =
        update_where (is_counter room_id name) (λ d. record d { value = d.value + by }) db.counters;
  }
]

unfoldable pub reset_counters : Db → ℕ → Db
reset_counters db room_id = record db {
  counters = filter (λ c. not (c.room_id == room_id)) db.counters;
}
