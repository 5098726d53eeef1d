-- ===== src/Room/Server/Upkeep/Reload.antt =====
-- What reloaded settings change in the sessions.
use mathlib.Core.Bool.{false≢true}
use meshelle.Prelude.{
  Bool-cases, Bytes, List, Option, Option-cases, [], ap, inl, inr, map, none, refl, some, sym, true,
  ◌↔◌, ◌∙◌, ◌∷◌, ◌≡◌, ◌≢◌, ◌⊎◌,
}
use meshelle.Config.Model.{Role, RoomSettings, guest, policy_role, role_for_member}
use meshelle.Room.Acl.{
  RoleSource, allow_unknown, granted_password, granted_unknown, match_password, member, password,
  resolve, resolve_without_password,
}
use meshelle.Room.Session.{ClientSession}
use meshelle.Room.Server.{Server}
use meshelle.Room.Server.Upkeep.{apply_settings, is_member_source, readmit}

-- The role that a login without a password would be given as a stranger's: what it is granted, or a
-- guest's where it would be refused.
abbrev pub IsStrangers : RoomSettings → ClientSession → Type 0
IsStrangers settings t =
    (resolve settings t.public_key [] ≡ some (record { role = t.role; source = allow_unknown }))
    ⊎ ((resolve settings t.public_key [] ≡ none) × (t.role ≡ guest))

-- A session under reloaded settings, by what they would grant a login of its client. It counts as a
-- member's exactly where every login would be granted its role as a member's. Otherwise no login
-- would be a member's, and it is as it was, or it was a member's and has a stranger's role. Nothing
-- but the role and its source changes.
abbrev pub Readmitted : RoomSettings → ClientSession → ClientSession → Type 0
Readmitted settings s t =
    (t ≡ record s { role = t.role; source = t.source })
    × (((t.source ≡ member)
          × ((secret : Bytes)
              → resolve settings t.public_key secret
                ≡ some (record { role = t.role; source = member })))
        ⊎ ((t.source ≢ member)
            × ((secret : Bytes) (role : Role)
                → resolve settings t.public_key secret
                  ≢ some (record { role = role; source = member }))
            × ((t ≡ s)
                ⊎ ((s.source ≡ member) × (t.source ≡ allow_unknown) × IsStrangers settings t))))

-- Two lists of sessions, one for one.
abbrev pub Each :
    (ClientSession → ClientSession → Type 0) → List ClientSession → List ClientSession → Type 0
Each R [] [] = Unit {0}
Each R (s ∷ ss) (t ∷ ts) = R s t × Each R ss ts
Each R _ _ = ⊥

is_member_source_iff : (source : RoleSource) → (is_member_source source ≡ true) ↔ (source ≡ member)
is_member_source_iff member = (λ h. refl, λ h. refl)
is_member_source_iff password = (λ h. cc, λ h. cc)
is_member_source_iff allow_unknown = (λ h. cc, λ h. cc)

other_source :
    (by_password stranger : Option Role) (role : Role)
    → granted_password by_password (granted_unknown stranger)
      ≢ some (record { role = role; source = member })
other_source none none role = λ e. cc
other_source none (some r) role = λ e. cc
other_source (some q) stranger role = λ e. cc

-- Who is no member is granted nothing as one.
no_member :
    (settings : RoomSettings) (key secret : Bytes) (role : Role)
    → role_for_member settings key ≡ none
    → resolve settings key secret ≢ some (record { role = role; source = member })
unfolding resolve
no_member settings key secret role e granted =
    other_source (match_password settings secret) (policy_role settings.allow_unknown) role
      (sym (rw e refl) ∙ granted)

stranger_role :
    (settings : RoomSettings) (s : ClientSession)
    → role_for_member settings s.public_key ≡ none
    → IsStrangers settings
        (record s { role = resolve_without_password settings s.public_key; source = allow_unknown })
unfolding resolve resolve_without_password match_password
stranger_role settings s e = elim (Option-cases (policy_role settings.allow_unknown)) [
  | inl closed ↦ inr (rw (e, closed) refl, rw (e, closed) refl)
  | inr (role, open_to) ↦ inl (rw (e, open_to) refl)
]

readmit-Readmitted :
    (settings : RoomSettings) (o : Option Role) (s : ClientSession)
    → role_for_member settings s.public_key ≡ o
    → Readmitted settings s (readmit settings o s)
unfolding resolve
readmit-Readmitted settings (some role) s e = (refl, inl (refl, λ secret. rw e refl))
readmit-Readmitted settings none s e = elim (Bool-cases (is_member_source s.source)) [
  | inl was ↦ rw was (
    refl,
    inr (
      (λ h. cc),
      (λ secret role. no_member settings s.public_key secret role e),
      inr ((is_member_source_iff s.source).0 was, refl, stranger_role settings s e),
    ),
  )
  | inr other ↦ rw other (
    refl,
    inr (
      (λ was. false≢true (sym other ∙ (is_member_source_iff s.source).1 was)),
      (λ secret role. no_member settings s.public_key secret role e),
      inl refl,
    ),
  )
]

readmit-Each :
    (settings : RoomSettings) (ss : List ClientSession)
    → Each
        (Readmitted settings)
        ss
        (map (λ s. readmit settings (role_for_member settings s.public_key) s) ss)
readmit-Each settings [] = tt
readmit-Each settings (s ∷ ss) = (
  readmit-Readmitted settings (role_for_member settings s.public_key) s refl,
  readmit-Each settings ss,
)

-- The roles are the settings' again at once.
readmit_twice :
    (settings : RoomSettings) (o : Option Role) (s : ClientSession)
    → readmit settings o (readmit settings o s) ≡ readmit settings o s
readmit_twice settings (some role) s = refl
readmit_twice settings none s = elim (Bool-cases (is_member_source s.source)) [
  | inl was ↦ rw was refl
  | inr other ↦ rw (other, other) refl
]

readmit-public_key :
    (settings : RoomSettings) (o : Option Role) (s : ClientSession)
    → (readmit settings o s).public_key ≡ s.public_key
readmit-public_key settings (some role) s = refl
readmit-public_key settings none s = elim (Bool-cases (is_member_source s.source)) [
  | inl was ↦ rw was refl
  | inr other ↦ rw other refl
]

apply_twice :
    (settings : RoomSettings) (ss : List ClientSession)
    → let readmit_all = map (λ s. readmit settings (role_for_member settings s.public_key) s) in
      readmit_all (readmit_all ss) ≡ readmit_all ss
apply_twice settings [] = refl
apply_twice settings (s ∷ ss) =
    let role = role_for_member settings s.public_key in
    let same : role_for_member settings (readmit settings role s).public_key ≡ role =
      ap (role_for_member settings) (readmit-public_key settings role s) in
    rw (same, readmit_twice settings role s, apply_twice settings ss) refl

-- Reloaded settings change the sessions in their roles alone, one by one. A session counts as a
-- member's exactly where every login of its client would be granted its role as a member's; a
-- revoked member has the role that a login without a password would be given, or a guest's where
-- that would be refused; and a role that was earned by password or as a stranger stays. The store,
-- the pushes and the cursors are as they were, and reloading the same settings again changes nothing.
pub apply_settings-Each :
    (settings : RoomSettings) (sv : Server)
    → Each (Readmitted settings) sv.sessions (apply_settings settings sv).sessions
      × (apply_settings settings sv
          ≡ record sv { settings = settings; sessions = (apply_settings settings sv).sessions })
      × (apply_settings settings (apply_settings settings sv) ≡ apply_settings settings sv)
unfolding apply_settings
apply_settings-Each settings sv = (
  readmit-Each settings sv.sessions,
  refl,
  ap (λ ss. record sv { settings = settings; sessions = ss }) (apply_twice settings sv.sessions),
)
