-- ===== src/Store/Clients/Cursor.antt =====
-- What `advance_sync` of store/repo.py does to the rows.
use meshelle.Prelude.{
  Bool-cases, Bytes, List, [], ap, arith, if◌then◌else◌, inl, inr, ltb, map, max, refl,
  update_where, ℕ, ◌∷◌, ◌≡◌,
}
use meshelle.Store.Model.{Client, Db}
use meshelle.Store.Clients.{advance_sync, is_client}

-- A row after the cursor of one client was advanced: the larger of the two timestamps.
abbrev pub advanced : ℕ → Bytes → ℕ → Client → Client
advanced room_id key post_ts c =
    if is_client room_id key c then record c { sync_since = max c.sync_since post_ts } else c

advance_one :
    (post_ts : ℕ) (c : Client)
    → (if ltb c.sync_since post_ts then record c { sync_since = post_ts } else c)
      ≡ record c { sync_since = max c.sync_since post_ts }
advance_one post_ts c = elim (Bool-cases (ltb c.sync_since post_ts)) [
  | inl behind ↦
      let larger : post_ts ≡ max c.sync_since post_ts = ground arith in
      rw behind (ap (λ n. record c { sync_since = n }) larger)
  | inr level ↦
      let larger : c.sync_since ≡ max c.sync_since post_ts = ground arith in
      rw level (ap (λ n. record c { sync_since = n }) larger)
]

advance_rows :
    (room_id : ℕ) (key : Bytes) (post_ts : ℕ) (cs : List Client)
    → update_where
        (is_client room_id key)
        (λ c. if ltb c.sync_since post_ts then record c { sync_since = post_ts } else c)
        cs
      ≡ map (advanced room_id key post_ts) cs
advance_rows room_id key post_ts [] = refl
advance_rows room_id key post_ts (c ∷ cs) =
    let rest = advance_rows room_id key post_ts cs in
    elim (Bool-cases (is_client room_id key c)) [
      | inl hit ↦
          rw (hit, rest)
            (ap (λ d. d ∷ map (advanced room_id key post_ts) cs) (advance_one post_ts c))
      | inr other ↦ rw (other, rest) refl
    ]

-- Advancing a client's cursor sets it to the larger of the old one and the post's timestamp, so an
-- old acknowledgement never moves it back; no other client, room or field of a row changes.
pub advance_sync_lem :
    (db : Db) (room_id : ℕ) (key : Bytes) (post_ts : ℕ)
    → advance_sync db room_id key post_ts
      ≡ record db { clients = map (advanced room_id key post_ts) db.clients }
unfolding advance_sync
advance_sync_lem db room_id key post_ts =
    ap (λ cs. record db { clients = cs }) (advance_rows room_id key post_ts db.clients)
