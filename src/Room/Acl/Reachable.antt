-- ===== src/Room/Acl/Reachable.antt =====
-- What the validators of config/model.py mean for the logins of room/acl.py.
use mathlib.Core.Path.{subst}
use mathlib.Core.Bool.{false≢true}
use meshelle.Prelude.{
  =b=_refl, All, Bytes, List, Option-cases, [], false, inl, inr, length, none, refl, some, sym,
  true, ◌↔◌, ◌∙◌, ◌∷◌, ◌≡◌, ◌≢◌, ◌≤◌, ◌⊎◌,
}
use meshelle.Proto.Text.{Text, utf8_encode}
use meshelle.Config.Model.{Member, Role, RoomSettings, UnknownPolicy, as_pairs, member_role, reject}
use meshelle.Room.Acl.{Grant, member, resolve}
use meshelle.Room.Acl.Resolution.{Opens, resolve-eq-none_iff}
use meshelle.Config.Checks.{is_empty, is_reject, reachable_by_someone}

-- Some login is admitted.
abbrev pub AdmitsSomeone : RoomSettings → Type 0
AdmitsSomeone room =
    (public_key : Bytes) × (secret : Bytes) × (g : Grant) × (resolve room public_key secret
      ≡ some g)

-- No declared password is blank.
abbrev pub NoneBlank : RoomSettings → Type 0
NoneBlank room = All (λ q. 1 ≤ length (utf8_encode q.1)) (as_pairs room.passwords)

member_admitted :
    (room : RoomSettings) (m : Member) (ms : List Member)
    → room.members ≡ m ∷ ms
    → AdmitsSomeone room
unfolding resolve member_role
member_admitted room m ms e = (
  m.pubkey,
  [],
  record { role = m.role; source = member },
  rw (e, member_role, =b=_refl m.pubkey) refl,
)

password_admitted :
    (room : RoomSettings) (q : Role × Text) (qs : List (Role × Text))
    → as_pairs room.passwords ≡ q ∷ qs
    → NoneBlank room
    → AdmitsSomeone room
password_admitted room q qs e full =
    let nonblank = subst (All (λ p. 1 ≤ length (utf8_encode p.1))) e full in
    elim (Option-cases (resolve room [] (utf8_encode q.1))) [
      | inl refused ↦
          let shut = ((resolve-eq-none_iff room [] (utf8_encode q.1)).0 refused).1 in
          absurd ((subst (All (λ p. ¬ Opens (utf8_encode q.1) p)) e shut).0 (refl, nonblank.0))
      | inr (g, admitted) ↦ ([], utf8_encode q.1, g, admitted)
    ]

stranger_admitted : (room : RoomSettings) → room.allow_unknown ≢ reject → AdmitsSomeone room
stranger_admitted room welcomed = elim (Option-cases (resolve room [] [])) [
  | inl refused ↦ absurd (welcomed ((resolve-eq-none_iff room [] []).0 refused).2)
  | inr (g, admitted) ↦ ([], [], g, admitted)
]

is_empty-cases :
    {A : Type 0} (xs : List A)
    → ((xs ≡ []) × (is_empty xs ≡ true))
      ⊎ ((x : A) × (rest : List A) × (xs ≡ x ∷ rest) × (is_empty xs ≡ false))
is_empty-cases [] = inl (refl, refl)
is_empty-cases (x ∷ xs) = inr (x, xs, refl, refl)

is_reject-cases :
    (policy : UnknownPolicy)
    → ((policy ≡ reject) × (is_reject policy ≡ true))
      ⊎ ((policy ≢ reject) × (is_reject policy ≡ false))
is_reject-cases reject = inl (refl, refl)
is_reject-cases UnknownPolicy.guest = inr (λ e. cc, refl)
is_reject-cases UnknownPolicy.read_only = inr (λ e. cc, refl)
is_reject-cases UnknownPolicy.read_write = inr (λ e. cc, refl)

nobody_admitted :
    (room : RoomSettings) (public_key secret : Bytes)
    → room.members ≡ []
    → as_pairs room.passwords ≡ []
    → room.allow_unknown ≡ reject
    → resolve room public_key secret ≡ none
unfolding member_role
nobody_admitted room public_key secret e f closed =
    (resolve-eq-none_iff room public_key secret).1
      (rw (e, member_role) refl, subst (All (λ q. ¬ Opens secret q)) (sym f) tt, closed)

unreachable :
    (room : RoomSettings)
    → is_empty room.members ≡ true
    → is_empty (as_pairs room.passwords) ≡ true
    → is_reject room.allow_unknown ≡ true
    → reachable_by_someone room ≡ false
unfolding reachable_by_someone
unreachable room no_member no_password policy = rw (no_member, no_password, policy) refl

-- Where no declared password is blank, the validator accepts the settings of a room exactly when
-- some login is admitted to it.
pub reachable_by_someone_iff :
    (room : RoomSettings) → NoneBlank room → (reachable_by_someone room ≡ true) ↔ AdmitsSomeone room
unfolding reachable_by_someone
reachable_by_someone_iff room full = elim (is_empty-cases room.members) [
  | inr (m, ms, e, some_member) ↦ (λ h. member_admitted room m ms e, λ h. rw some_member refl)
  | inl (e, no_member) ↦ elim (is_empty-cases (as_pairs room.passwords)) [
    | inr (q, qs, f, some_password) ↦
        (λ h. password_admitted room q qs f full, λ h. rw (no_member, some_password) refl)
    | inl (f, no_password) ↦ elim (is_reject-cases room.allow_unknown) [
      | inr (welcomed, policy) ↦
          (λ h. stranger_admitted room welcomed, λ h. rw (no_member, no_password, policy) refl)
      | inl (closed, policy) ↦ (
        λ h. absurd (false≢true (sym (unreachable room no_member no_password policy) ∙ h)),
        λ (public_key, secret, g, admitted).
            let refused = nobody_admitted room public_key secret e f closed in cc,
      )
    ]
  ]
]
