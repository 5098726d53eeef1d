-- ===== src/Mesh/Dedupe/Recall.antt =====
-- What the seen table of mesh/dedupe.py recalls.
use meshelle.Prelude.{
  =b=_refl, =b=→eq, All, Bool, Bool-cases, Bytes, List, [], arith, false, filter, inl, inr, length,
  length-append, ltb, not, refl, true, ℕ, ◌++◌, ◌+◌, ◌<◌, ◌=b=◌, ◌∷◌, ◌≡◌, ◌≤◌, ◌⊎◌,
}
use meshelle.Mesh.Dedupe.{
  Entry, SeenTable, check_and_mark, evict, expire, is_stale, knows, mark, pop_hash,
}

-- The hash is in the table with a stamp from `t` on, and at most `k` entries come after it.
abbrev pub Recent : Bytes → ℕ → ℕ → List Entry → Type 0
Recent hash t k [] = ⊥
Recent hash t k (e ∷ es) =
    ((e.hash ≡ hash) × (t ≤ e.stamped) × (length es ≤ k)) ⊎ Recent hash t k es

length-filter-le : {A : Type 0} (p : A → Bool) (xs : List A) → length (filter p xs) ≤ length xs
length-filter-le p [] = omega arith
length-filter-le p (x ∷ xs) = ground (arith, length-filter-le p xs)

pub Recent-knows :
    (hash : Bytes) (t k : ℕ) (es : List Entry) → Recent hash t k es → knows hash es ≡ true
Recent-knows hash t k [] r = elim r [ ]
Recent-knows hash t k (e ∷ es) (inl (same, late, few)) = rw (same, =b=_refl hash) refl
Recent-knows hash t k (e ∷ es) (inr r) = ground (arith, Recent-knows hash t k es r)

-- Nothing stamped so late that its time to live has not passed expires.
pub Recent-expire :
    (hash : Bytes) (t k ttl now : ℕ) (es : List Entry)
    → now < t + ttl
    → Recent hash t k es
    → Recent hash t k (expire ttl now es)
unfolding expire
Recent-expire hash t k ttl now [] fresh r = r
Recent-expire hash t k ttl now (e ∷ es) fresh (inl (same, late, few)) =
    let stays : is_stale ttl now e ≡ false = ground arith in rw stays (inl (same, late, few))
Recent-expire hash t k ttl now (e ∷ es) fresh (inr r) = elim (Bool-cases (is_stale ttl now e)) [
  | inl stale ↦ rw stale (Recent-expire hash t k ttl now es fresh r)
  | inr stays ↦ rw stays (inr r)
]

-- Another hash is taken out.
pub Recent-pop_hash :
    (hash other : Bytes) (t k : ℕ) (es : List Entry)
    → (hash =b= other) ≡ false
    → Recent hash t k es
    → Recent hash t k (pop_hash other es)
unfolding pop_hash
Recent-pop_hash hash other t k [] differ r = r
Recent-pop_hash hash other t k (e ∷ es) differ (inl (same, late, few)) =
    let stays : (e.hash =b= other) ≡ false = rw same differ in
    let fewer = length-filter-le (λ d. not (d.hash =b= other)) es in
    rw stays (inl (same, late, omega arith))
Recent-pop_hash hash other t k (e ∷ es) differ (inr r) =
    let rest = Recent-pop_hash hash other t k es differ r in
    elim (Bool-cases (e.hash =b= other)) [
      | inl goes ↦ rw goes rest
      | inr stays ↦ rw stays (inr rest)
    ]

pub Recent-append :
    (hash : Bytes) (t k : ℕ) (es : List Entry) (e : Entry)
    → Recent hash t k es
    → Recent hash t (k + 1) (es ++ e ∷ [])
Recent-append hash t k [] e r = elim r [ ]
Recent-append hash t k (d ∷ es) e (inl (same, late, few)) =
    let size = length-append es (e ∷ []) in inl (same, late, omega arith)
Recent-append hash t k (d ∷ es) e (inr r) = inr (Recent-append hash t k es e r)

pub Recent-appended :
    (t k : ℕ) (es : List Entry) (e : Entry) → t ≤ e.stamped → Recent e.hash t k (es ++ e ∷ [])
Recent-appended t k [] e late = inl (refl, late, omega arith)
Recent-appended t k (d ∷ es) e late = inr (Recent-appended t k es e late)

-- Only what has the table's capacity of entries after it is evicted.
pub Recent-evict :
    (hash : Bytes) (t k capacity : ℕ) (es : List Entry)
    → k < capacity
    → Recent hash t k es
    → Recent hash t k (evict capacity es)
unfolding evict
Recent-evict hash t k capacity [] room r = r
Recent-evict hash t k capacity (e ∷ es) room (inl (same, late, few)) =
    let stays : ltb capacity (length (e ∷ es)) ≡ false = ground arith in
    rw stays (inl (same, late, few))
Recent-evict hash t k capacity (e ∷ es) room (inr r) =
    elim (Bool-cases (ltb capacity (length (e ∷ es)))) [
      | inl full ↦ rw full (Recent-evict hash t k capacity es room r)
      | inr stays ↦ rw stays (inr r)
    ]

-- Marking any hash leaves a recent hash recent, behind one entry more at most.
pub Recent-mark :
    (hash other : Bytes) (t k now : ℕ) (table : SeenTable)
    → t ≤ now
    → now < t + table.ttl
    → k + 1 < table.capacity
    → Recent hash t k table.entries
    → Recent hash t (k + 1) (mark now other table).entries
unfolding mark
Recent-mark hash other t k now table later fresh room r =
    let kept = Recent-expire hash t k table.ttl now table.entries fresh r in
    let own : Entry = record { hash = other; stamped = now } in
    Recent-evict hash t (k + 1) table.capacity _ room (elim (Bool-cases (hash =b= other)) [
      | inl same ↦ rw (=b=→eq hash other same) (
          Recent-appended t (k + 1) (pop_hash other (expire table.ttl now table.entries)) own later)
      | inr differ ↦
          Recent-append hash t k (pop_hash other (expire table.ttl now table.entries)) own
            (Recent-pop_hash hash other t k (expire table.ttl now table.entries) differ kept)
    ])

-- A run of marks, each with its time.
unfoldable pub mark_all : List (ℕ × Bytes) → SeenTable → SeenTable
mark_all [] table = table
mark_all ((now, hash) ∷ marks) table = mark_all marks (mark now hash table)

-- Every mark is made from `t` on, and before the time to live has passed since `t`.
abbrev pub Within : ℕ → ℕ → List (ℕ × Bytes) → Type 0
Within t ttl marks = All (λ m. (t ≤ m.0) × (m.0 < t + ttl)) marks

Recent-mark_all :
    (hash : Bytes) (t k : ℕ) (marks : List (ℕ × Bytes)) (table : SeenTable)
    → Within t table.ttl marks
    → k + length marks < table.capacity
    → Recent hash t k table.entries
    → ((n : ℕ) × Recent hash t n (mark_all marks table).entries)
      × ((mark_all marks table).ttl ≡ table.ttl)
unfolding mark_all mark
Recent-mark_all hash t k [] table within room r = ((k, r), refl)
Recent-mark_all hash t k ((now, other) ∷ marks) table ((later, fresh), within) room r =
    Recent-mark_all hash t (k + 1) marks (mark now other table) within (omega arith)
      (Recent-mark hash other t k now table later fresh (omega arith) r)

-- A hash that was marked is known when it is checked before its time to live has passed, if fewer
-- marks than the table's capacity were made between, all of them from that mark on and before its
-- time to live had passed.
pub check_and_mark-marked :
    (hash : Bytes) (t now : ℕ) (marks : List (ℕ × Bytes)) (table : SeenTable)
    → Within t table.ttl marks
    → now < t + table.ttl
    → length marks < table.capacity
    → (check_and_mark now hash (mark_all marks (mark t hash table))).0 ≡ true
unfolding check_and_mark mark
check_and_mark-marked hash t now marks table within fresh room =
    let own : Entry = record { hash = hash; stamped = t } in
    let first =
      Recent-evict hash t 0 table.capacity
        (pop_hash hash (expire table.ttl t table.entries) ++ own ∷ []) (omega arith)
        (Recent-appended t 0 (pop_hash hash (expire table.ttl t table.entries)) own
          (omega arith)) in
    let ((n, r), same_ttl) =
      Recent-mark_all hash t 0 marks (mark t hash table) within (omega arith) first in
    Recent-knows hash t n _ (Recent-expire hash t n _ now _ (rw same_ttl fresh) r)
