-- ===== src/Store/Clients/Login.antt =====
-- What `record_login` of store/repo.py stores.
use mathlib.Core.Option.{some-injective, none-ne-some}
use meshelle.Prelude.{
  ==_refl, =b=_refl, Bool, Bool-cases, Bytes, List, Option-cases, [], ap, false, filter, find,
  if◌then◌else◌, inl, inr, none, not, refl, some, sym, true, update_where, ℕ, ◌++◌, ◌∙◌, ◌∷◌, ◌≡◌,
  ◌⊎◌,
}
use meshelle.Proto.Constants.{Permission, out_path_unknown, permission_code}
use meshelle.Store.Model.{Client, Db}
use meshelle.Store.Clients.{get_client, is_client, logged_in, new_client, record_login}

-- The rows that are not this client's.
abbrev pub others : ℕ → Bytes → List Client → List Client
others room_id key clients = filter (λ c. not (is_client room_id key c)) clients

module _ {A : Type 0} (p : A → Bool) where
  -- A change of rows that pass a test, or a row at the end that does, leaves the others.
  filter-update_where :
      (f : A → A) (xs : List A)
      → ((x : A) → p (f x) ≡ p x)
      → filter (λ x. not (p x)) (update_where p f xs) ≡ filter (λ x. not (p x)) xs
  filter-update_where f [] keeps = refl
  filter-update_where f (x ∷ xs) keeps = elim (Bool-cases (p x)) [
    | inl hit ↦ rw (hit, keeps x, hit) (filter-update_where f xs keeps)
    | inr miss ↦ rw (miss, miss) (ap (◌∷◌ x) (filter-update_where f xs keeps))
  ]

  filter-append :
      (xs : List A) (a : A)
      → p a ≡ true
      → filter (λ x. not (p x)) (xs ++ a ∷ []) ≡ filter (λ x. not (p x)) xs
  filter-append [] a hit = rw hit refl
  filter-append (x ∷ xs) a hit = elim (Bool-cases (p x)) [
    | inl first ↦ rw first (filter-append xs a hit)
    | inr miss ↦ rw miss (ap (◌∷◌ x) (filter-append xs a hit))
  ]

  find-update_where :
      (f : A → A) (xs : List A) (a : A)
      → ((x : A) → p (f x) ≡ p x)
      → find p xs ≡ some a
      → find p (update_where p f xs) ≡ some (f a)
  find-update_where f [] a keeps h = cc
  find-update_where f (x ∷ xs) a keeps h = elim (Bool-cases (p x)) [
    | inl hit ↦
        let first : find p (x ∷ xs) ≡ some x = rw hit refl in
        let same = some-injective x a (sym first ∙ h) in rw (hit, keeps x, hit, same) refl
    | inr miss ↦
        let later : find p (x ∷ xs) ≡ find p xs = rw miss refl in
        rw (miss, miss) (find-update_where f xs a keeps (sym later ∙ h))
  ]

  find-append :
      (xs : List A) (a : A) → p a ≡ true → find p xs ≡ none → find p (xs ++ a ∷ []) ≡ some a
  find-append [] a hit h = rw hit refl
  find-append (x ∷ xs) a hit h = elim (Bool-cases (p x)) [
    | inl first ↦
        let found : find p (x ∷ xs) ≡ some x = rw first refl in
        absurd (none-ne-some x (sym h ∙ found))
    | inr miss ↦
        let later : find p (x ∷ xs) ≡ find p xs = rw miss refl in
        rw miss (find-append xs a hit (sym later ∙ h))
  ]

-- The row that a login leaves for a client that had none, or that had one. It has the login's role,
-- timestamp and cursor and the time of the login. A new client has no path and was first seen now; a
-- row that was there keeps the day it was first seen and, unless the path is reset, its path.
abbrev pub LoggedIn : Db → ℕ → Bytes → Permission → ℕ → ℕ → ℕ → Bool → Client → Type 0
LoggedIn db room_id key role stamp since now reset c =
    ((get_client db room_id key ≡ none)
      × (c ≡ record {
        room_id = room_id;
        public_key = key;
        last_role = permission_code role;
        last_timestamp = stamp;
        sync_since = since;
        out_path = [];
        out_path_len = out_path_unknown;
        first_seen = now;
        last_activity = now;
      }))
    ⊎ ((old : Client) × (get_client db room_id key ≡ some old)
        × (c ≡ record old {
          last_role = permission_code role;
          last_timestamp = stamp;
          sync_since = since;
          last_activity = now;
          out_path = if reset then [] else old.out_path;
          out_path_len = if reset then out_path_unknown else old.out_path_len;
        }))

-- A new client has no path to reset.
new_client-logged_in :
    (room_id : ℕ) (key : Bytes) (role : Permission) (stamp since now : ℕ) (reset : Bool)
    → logged_in role stamp since now reset (new_client room_id key now)
      ≡ logged_in role stamp since now false (new_client room_id key now)
new_client-logged_in room_id key role stamp since now true = refl
new_client-logged_in room_id key role stamp since now false = refl

-- The row that a login returns is the one that is read back for the client, and the rows of the
-- other clients, of this room and of others, are those that there were, in their order.
abbrev pub Stored : Db → ℕ → Bytes → Permission → ℕ → ℕ → ℕ → Bool → Client × Db → Type 0
Stored db room_id key role stamp since now reset (c, after) =
    (get_client after room_id key ≡ some c)
    × LoggedIn db room_id key role stamp since now reset c
    × (after ≡ record db { clients = after.clients })
    × (others room_id key after.clients ≡ others room_id key db.clients)

-- A login's row is read back for its client, with the login's role, timestamp, cursor and time. A new
-- client has no path; a client that was known has the rest of its old row, and its path is forgotten
-- only where that is asked for. The rows of the other clients and the other tables stay.
pub record_login-Stored :
    (db : Db) (room_id : ℕ) (key : Bytes) (role : Permission) (stamp since now : ℕ) (reset : Bool)
    → Stored db room_id key role stamp since now reset
        (record_login db room_id key role stamp since now reset)
unfolding record_login get_client
record_login-Stored db room_id key role stamp since now reset =
    elim (Option-cases (find (is_client room_id key) db.clients)) [
      | inl unknown ↦
          let c = logged_in role stamp since now reset (new_client room_id key now) in
          let own : is_client room_id key c ≡ true = rw (==_refl room_id, =b=_refl key) refl in
          let step : record_login db room_id key role stamp since now reset
              ≡ (c, record db { clients = db.clients ++ c ∷ [] }) =
            rw (unknown, record_login) refl in
          rw step (
            find-append (is_client room_id key) db.clients c own unknown,
            inl (unknown, new_client-logged_in room_id key role stamp since now reset),
            refl,
            filter-append (is_client room_id key) db.clients c own,
          )
      | inr (old, known) ↦
          let f = logged_in role stamp since now reset in
          let step : record_login db room_id key role stamp since now reset
              ≡ (f old, record db { clients = update_where (is_client room_id key) f db.clients }) =
            rw (known, record_login) refl in
          rw step (
            find-update_where (is_client room_id key) f db.clients old (λ x. refl) known,
            inr (old, known, refl),
            refl,
            filter-update_where (is_client room_id key) f db.clients (λ x. refl),
          )
    ]
