-- ===== src/Room/Replay/Forgotten.antt =====
-- Client retention of room/server.py: which sessions a stored post drops.
use mathlib.Core.Path.{subst}
use mathlib.Core.Bool.{false≢true}
use meshelle.Config.Model.{RoomSettings}
use meshelle.Prelude.{
  =b=→eq, Bool, Bool-cases, Bytes, In, In-filter_iff, List, Option-cases, [], ap, arith, filter,
  inl, inr, ltb, map, not, refl, some, sym, true, ℕ, ◌&&◌, ◌-◌, ◌<◌, ◌==◌, ◌=b=◌, ◌∙◌, ◌∷◌, ◌≡◌,
}
use meshelle.Store.Model.{Client, Db}
use meshelle.Store.Clients.{has_key, idle_keys, prune_clients}
use meshelle.Room.Server.{Server}
use meshelle.Room.Server.Upkeep.{in_flight, prune_room_clients}
use meshelle.Room.Exec.Kept.{IsPreorder}
use meshelle.Room.Replay.{Derived, Derived-refl, Derived-trans}

-- The settings forget a client that is idle, and its row has been idle for longer.
abbrev pub IdleIn : ℕ → RoomSettings → ℕ → List Client → Bytes → Type 0
IdleIn now settings room_id clients key =
    (retention : ℕ) × (row : Client) × (settings.client_retention ≡ some retention)
    × In row clients
    × (row.room_id ≡ room_id)
    × (row.public_key ≡ key)
    × (row.last_activity < now - retention)

-- The row of a client of the room has been idle for longer than the room's settings keep it.
abbrev pub Idle : ℕ → Server → Bytes → Type 0
Idle now sv key = IdleIn now sv.settings sv.room_id sv.db.clients key

has_key-row :
    (rows : List Client) (key : Bytes)
    → has_key (map (λ r. r.public_key) rows) key ≡ true
    → (row : Client) × In row rows × (row.public_key ≡ key)
has_key-row [] key e = cc
has_key-row (r ∷ rows) key e = elim (Bool-cases (r.public_key =b= key)) [
  | inl same ↦ (r, inl refl, =b=→eq r.public_key key same)
  | inr other ↦ let (row, i, f) = has_key-row rows key (ground arith) in (row, inr i, f)
]

has_key-filtered :
    (p : Bytes → Bool) (keys : List Bytes) (key : Bytes)
    → has_key (filter p keys) key ≡ true
    → has_key keys key ≡ true
has_key-filtered p [] key e = e
has_key-filtered p (k ∷ keys) key e = elim (Bool-cases (k =b= key)) [
  | inl same ↦ rw same refl
  | inr other ↦ rw other (
      has_key-filtered p keys key (elim (Bool-cases (p k)) [
        | inl hit ↦
            let here : has_key (filter p (k ∷ keys)) key ≡ has_key (filter p keys) key =
              rw (hit, other) refl in
            sym here ∙ e
        | inr miss ↦
            let here : has_key (filter p (k ∷ keys)) key ≡ has_key (filter p keys) key =
              rw miss refl in
            sym here ∙ e
      ]))
]

module _ (now : ℕ) (D : Bytes → Type 0) where
  -- Whoever is idle may be dropped.
  abbrev pub Forgets : Server → Type 0
  Forgets sv = (key : Bytes) → Idle now sv key → D key

  -- Sessions that may be dropped are, if whoever is idle may be.
  abbrev pub KeepsTexts : Server → Server → Type 0
  KeepsTexts sv after = Forgets sv → Derived D sv.sessions after.sessions × Forgets after

  pub KeepsTexts-IsPreorder : IsPreorder KeepsTexts
  KeepsTexts-IsPreorder = record {
    reflexive = λ sv w. (Derived-refl D sv.sessions, w);
    transitive = λ {a} {b} {d} h k w.
        let (first, w1) = h w in
        let (second, w2) = k w1 in
        (Derived-trans D a.sessions b.sessions d.sessions first second, w2);
  }

  pub pruned-Idle :
      (sv : Server) (db : Db)
      → db.clients ≡ sv.db.clients
      → Forgets sv
      → (key : Bytes) → has_key (prune_room_clients now sv db).0 key ≡ true
      → D key
  unfolding prune_room_clients prune_clients
  pruned-Idle sv db same w key e = elim (Option-cases sv.settings.client_retention) [
    | inl forever ↦
        let none_pruned : (prune_room_clients now sv db).0 ≡ [] =
          rw (forever, prune_room_clients) refl in
        absurd (false≢true (sym (ap (λ keys. has_key keys key) none_pruned) ∙ e))
    | inr (retention, kept_for) ↦
        let idle =
          λ (r : Client). (r.room_id == sv.room_id) && ltb r.last_activity (now - retention) in
        let pruned : (prune_room_clients now sv db).0
            ≡ idle_keys db sv.room_id (now - retention) (in_flight sv) =
          rw (kept_for, prune_room_clients) refl in
        let (row, i, is_key) = has_key-row (filter idle db.clients) key (
          has_key-filtered (λ k. not (has_key (in_flight sv) k))
            (map (λ r. r.public_key) (filter idle db.clients)) key
            (sym (ap (λ keys. has_key keys key) pruned) ∙ e)) in
        let (listed, is_idle) = (In-filter_iff row idle db.clients).0 i in
        w key
          (retention, row, kept_for, subst (In row) same listed, ground arith, is_key, ground arith)
  ]

  pub pruned-Forgets :
      (sv : Server) (db : Db)
      → db.clients ≡ sv.db.clients
      → Forgets sv
      → (key : Bytes)
      → IdleIn now sv.settings sv.room_id (prune_room_clients now sv db).1.clients key
      → D key
  unfolding prune_room_clients prune_clients
  pruned-Forgets sv db same w key (retention, row, kept_for, i, room, is_key, idle) =
      let doomed = idle_keys db sv.room_id (now - retention) (in_flight sv) in
      let left : (prune_room_clients now sv db).1.clients
          ≡ filter (λ c. not ((c.room_id == sv.room_id) && has_key doomed c.public_key))
              db.clients =
        rw (kept_for, prune_room_clients) refl in
      let listed =
        (In-filter_iff row (λ c. not ((c.room_id == sv.room_id) && has_key doomed c.public_key))
            db.clients).0
          (subst (In row) left i) in
      w key (retention, row, kept_for, subst (In row) same listed.0, room, is_key, idle)
