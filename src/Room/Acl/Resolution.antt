-- ===== src/Room/Acl/Resolution.antt =====
-- What `resolve` grants, and when it refuses.
use mathlib.Core.Path.{subst}
use mathlib.Core.Bool.{false≢true}
use native.Mathlib.Nat.{le_refl}
use meshelle.Prelude.{
  =b=_refl, =b=→eq, All, All-In, Bool, Bool-cases, Bytes, In, List, Option, Option-cases, [], arith,
  false, inl, inr, length, none, not, refl, some, sym, true, ℕ, ◌&&◌, ◌++◌, ◌==◌, ◌=b=◌, ◌↔◌, ◌∙◌,
  ◌∷◌, ◌≡◌, ◌≢◌, ◌≤◌,
}
use meshelle.Config.Model.{
  Member, Passwords, Role, RoomSettings, admin, as_pairs, declared_pair, member_role, permission,
  read_only, read_write, reject, role_for_member,
}
use meshelle.Proto.Text.{Text, utf8_encode}
use meshelle.Proto.Constants.{permission_code}
use meshelle.Room.Acl.{match_pairs, match_password, member, password, resolve}

-- No two entries have one key, as the settings' validator demands.
abbrev pub UniqueKeys : List Member → Type 0
UniqueKeys [] = Unit
UniqueKeys (m ∷ ms) = All (λ n. n.pubkey ≢ m.pubkey) ms × UniqueKeys ms

member_role_listed :
    (ms : List Member) (m : Member)
    → UniqueKeys ms
    → In m ms
    → member_role ms m.pubkey ≡ some m.role
unfolding member_role
member_role_listed [] m u i = elim i [ ]
member_role_listed (n ∷ ms) m u (inl e) = rw (e, =b=_refl m.pubkey) refl
member_role_listed (n ∷ ms) m u (inr i) = ground (
  arith,
  member_role_listed ms m u.1 i,
  =b=→eq n.pubkey m.pubkey,
  λ (e : n.pubkey ≡ m.pubkey). All-In (λ k. k.pubkey ≢ n.pubkey) ms m u.0 i (sym e),
)

-- A listed member gets its declared role, whatever password it offers.
pub resolve_listed :
    (room : RoomSettings) (m : Member) (secret : Bytes)
    → UniqueKeys room.members
    → In m room.members
    → resolve room m.pubkey secret ≡ some (record { role = m.role; source = member })
unfolding resolve
resolve_listed room m secret u i = rw (member_role_listed room.members m u i) refl

-- How much a role may do.
abbrev pub rank : Role → ℕ
rank r = permission_code (permission r)

-- The secret is this pair's password, which is not blank.
abbrev pub Opens : Bytes → Role × Text → Type 0
Opens secret pair = (secret ≡ utf8_encode pair.1) × (1 ≤ length secret)

-- Strongest first.
abbrev IsDescending : List (Role × Text) → Type 0
IsDescending [] = Unit
IsDescending (q ∷ qs) = All (λ p. rank p.0 ≤ rank q.0) qs × IsDescending qs

as_pairs-IsDescending : (p : Passwords) → IsDescending (as_pairs p)
unfolding as_pairs
as_pairs-IsDescending p = go p.admin p.read_write p.read_only
  where
    go :
        (a b c : Option Text)
        → IsDescending
            (declared_pair admin a ++ (declared_pair read_write b ++ declared_pair read_only c))
    go none none none = tt
    go none none (some c) = (tt, tt)
    go none (some b) none = (tt, tt)
    go none (some b) (some c) = omega arith
    go (some a) none none = (tt, tt)
    go (some a) none (some c) = omega arith
    go (some a) (some b) none = omega arith
    go (some a) (some b) (some c) = omega arith

-- Whether one pair's test passes.
abbrev tests : Bytes → Text → Bool
tests secret declared =
    not (length (utf8_encode declared) == 0) && (secret =b= utf8_encode declared)

tests→Opens :
    (secret : Bytes) (role : Role) (declared : Text)
    → tests secret declared ≡ true
    → Opens secret (role, declared)
tests→Opens secret role declared h =
    let same : secret ≡ utf8_encode declared =
      =b=→eq secret (utf8_encode declared) (ground arith) in
    (same, rw same (ground arith))

Opens→tests :
    (secret : Bytes) (role : Role) (declared : Text)
    → Opens secret (role, declared)
    → tests secret declared ≡ true
Opens→tests secret role declared (e, h) = rw (← e) (ground (arith, =b=_refl secret))

match_pairs_kept :
    (pairs : List (Role × Text)) (secret : Bytes) (r : Role)
    → match_pairs pairs secret (some r) ≡ some r
unfolding match_pairs
match_pairs_kept [] secret r = refl
match_pairs_kept (q ∷ qs) secret r = match_pairs_kept qs secret r

match_pairs_pass :
    (role : Role) (declared : Text) (pairs : List (Role × Text)) (secret : Bytes)
    → tests secret declared ≡ true
    → match_pairs ((role, declared) ∷ pairs) secret none ≡ some role
unfolding match_pairs
match_pairs_pass role declared pairs secret h =
    rw (h, match_pairs) (match_pairs_kept pairs secret role)

match_pairs_fail :
    (role : Role) (declared : Text) (pairs : List (Role × Text)) (secret : Bytes)
    → tests secret declared ≡ false
    → match_pairs ((role, declared) ∷ pairs) secret none ≡ match_pairs pairs secret none
unfolding match_pairs
match_pairs_fail role declared pairs secret h = rw (h, match_pairs) refl

-- What a password's match means: one of the pairs opens, and no stronger one does.
pub record Matched (pairs : List (Role × Text)) (secret : Bytes) (r : Role) : Type 0 where
  pub declared : Text
  pub listed : In (r, declared) pairs
  pub opens : Opens secret (r, declared)
  pub strongest : All (λ q. Opens secret q → rank q.0 ≤ rank r) pairs

All-map {ℓ κ μ} :
    {A : Type ℓ} (P : A → Type κ) (Q : A → Type μ)
    → ((a : A) → P a → Q a)
    → (xs : List A) → All P xs
    → All Q xs
All-map P Q f [] h = tt
All-map P Q f (x ∷ xs) h = (f x h.0, All-map P Q f xs h.1)

match_pairs-Matched :
    (pairs : List (Role × Text)) (secret : Bytes) (r : Role)
    → IsDescending pairs
    → match_pairs pairs secret none ≡ some r
    → Matched pairs secret r
match_pairs-Matched [] secret r d e = unfold match_pairs in cc
match_pairs-Matched ((role, declared) ∷ pairs) secret r d e =
    elim (Bool-cases (tests secret declared)) [
      | inl passes ↦
          let same : role ≡ r = cc (match_pairs_pass role declared pairs secret passes) in
          subst (Matched ((role, declared) ∷ pairs) secret) same (record {
            declared = declared;
            listed = inl refl;
            opens = tests→Opens secret role declared passes;
            strongest = (
              λ o. le_refl (rank role),
              All-map (λ p. rank p.0 ≤ rank role) (λ q. Opens secret q → rank q.0 ≤ rank role)
                  (λ q h o. h) pairs d.0,
            );
          })
      | inr fails ↦
          let m =
            match_pairs-Matched pairs secret r d.1
              (sym (match_pairs_fail role declared pairs secret fails) ∙ e) in
          record {
            declared = m.declared;
            listed = inr m.listed;
            opens = m.opens;
            strongest = (
              λ o. absurd (false≢true (sym fails ∙ Opens→tests secret role declared o)),
              m.strongest,
            );
          }
    ]

match_pairs-none :
    (pairs : List (Role × Text)) (secret : Bytes)
    → match_pairs pairs secret none ≡ none
    → All (λ q. ¬ Opens secret q) pairs
match_pairs-none [] secret e = tt
match_pairs-none ((role, declared) ∷ pairs) secret e = elim (Bool-cases (tests secret declared)) [
  | inl passes ↦ cc (match_pairs_pass role declared pairs secret passes)
  | inr fails ↦ (
    λ o. false≢true (sym fails ∙ Opens→tests secret role declared o),
    match_pairs-none pairs secret (sym (match_pairs_fail role declared pairs secret fails) ∙ e),
  )
]

-- A role that a password gave is the strongest role whose declared password, not blank, is the one
-- offered; and the key was not a member's.
pub resolve_password :
    (room : RoomSettings) (public_key secret : Bytes) (r : Role)
    → resolve room public_key secret ≡ some (record { role = r; source = password })
    → (role_for_member room public_key ≡ none) × Matched (as_pairs room.passwords) secret r
unfolding resolve match_password
resolve_password room public_key [] r e = absurd (ground arith)
resolve_password room public_key (b ∷ bs) r e = (
  ground arith,
  match_pairs-Matched (as_pairs room.passwords) (b ∷ bs) r (as_pairs-IsDescending room.passwords)
      (ground arith),
)

All-always {ℓ κ} : {A : Type ℓ} (P : A → Type κ) → ((a : A) → P a) → (xs : List A) → All P xs
All-always P f [] = tt
All-always P f (x ∷ xs) = (f x, All-always P f xs)

unopened :
    (room : RoomSettings) (secret : Bytes)
    → match_password room secret ≡ none
    → All (λ q. ¬ Opens secret q) (as_pairs room.passwords)
unfolding match_password
unopened room [] e =
    All-always (λ q. ¬ Opens [] q) (λ q o. let h : 1 ≤ 0 = o.1 in elim h [ ])
      (as_pairs room.passwords)
unopened room (b ∷ bs) e = match_pairs-none (as_pairs room.passwords) (b ∷ bs) e

unmatched :
    (room : RoomSettings) (secret : Bytes)
    → All (λ q. ¬ Opens secret q) (as_pairs room.passwords)
    → match_password room secret ≡ none
unfolding match_password
unmatched room [] h = refl
unmatched room (b ∷ bs) h =
    elim (Option-cases (match_pairs (as_pairs room.passwords) (b ∷ bs) none)) [
      | inl none_matched ↦ none_matched
      | inr (r, e) ↦
          let m =
            match_pairs-Matched (as_pairs room.passwords) (b ∷ bs) r
              (as_pairs-IsDescending room.passwords) e in
          absurd (
            All-In (λ q. ¬ Opens (b ∷ bs) q) (as_pairs room.passwords) (r, m.declared) h m.listed
              m.opens)
    ]

-- A login is refused exactly when the key is no member's, no declared password is the one offered,
-- and the room rejects strangers.
pub resolve-eq-none_iff :
    (room : RoomSettings) (public_key secret : Bytes)
    → (resolve room public_key secret ≡ none) ↔ (
        (role_for_member room public_key ≡ none)
        × All (λ q. ¬ Opens secret q) (as_pairs room.passwords)
        × (room.allow_unknown ≡ reject))
unfolding resolve
resolve-eq-none_iff room public_key secret = (
  λ e. (ground arith, unopened room secret (ground arith), ground arith),
  λ h. let quiet = unmatched room secret h.1 in rw (h.0, quiet, h.2) refl,
)
