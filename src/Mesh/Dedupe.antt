-- ===== src/Mesh/Dedupe.antt =====
-- `SeenTable` of mesh/dedupe.py. Time is in ticks of the monotonic clock, read once in a call.
pub mod Recall
use meshelle.Prelude.{
  Bool, Bytes, List, [], any, filter, if◌then◌else◌, leb, length, ltb, not, ℕ, ◌++◌, ◌+◌, ◌=b=◌,
  ◌∷◌,
}

-- A packet hash and when it was last marked.
pub record Entry : Type 0 where
  pub hash : Bytes
  pub stamped : ℕ

-- The entries are in the order of insertion, the oldest first.
pub record SeenTable : Type 0 where
  pub ttl : ℕ
  pub capacity : ℕ
  pub entries : List Entry

-- `stamped <= now - ttl`
abbrev pub is_stale : ℕ → ℕ → Entry → Bool
is_stale ttl now e = leb (e.stamped + ttl) now

-- `_expire`: the stale entries at the front go.
unfoldable pub expire : ℕ → ℕ → List Entry → List Entry
expire ttl now [] = []
expire ttl now (e ∷ es) =
    let rest = expire ttl now es in if is_stale ttl now e then rest else e ∷ es

-- `self._entries.pop(packet_hash, None)`
unfoldable pub pop_hash : Bytes → List Entry → List Entry
pop_hash hash es = filter (λ e. not (e.hash =b= hash)) es

-- `while len(self._entries) > self._capacity: self._entries.popitem(last=False)`
unfoldable pub evict : ℕ → List Entry → List Entry
evict capacity [] = []
evict capacity (e ∷ es) =
    let rest = evict capacity es in if ltb capacity (length (e ∷ es)) then rest else e ∷ es

unfoldable pub mark : ℕ → Bytes → SeenTable → SeenTable
unfolding expire pop_hash evict
mark now hash table = record table {
  entries = evict table.capacity (
      pop_hash hash (expire table.ttl now table.entries)
      ++ record { hash = hash; stamped = now } ∷ []);
}

abbrev pub knows : Bytes → List Entry → Bool
knows hash es = any (λ e. e.hash =b= hash) es

unfoldable pub check_and_mark : ℕ → Bytes → SeenTable → Bool × SeenTable
unfolding mark
check_and_mark now hash table =
    (knows hash (expire table.ttl now table.entries), mark now hash table)
