-- ===== src/Room/Acl.antt =====
-- room/acl.py: resolving a login to a role.
pub mod Resolution
pub mod Reachable
pub mod Declared
use meshelle.Prelude.{
  Bytes, List, Option, [], if◌then◌else◌, length, none, not, some, ◌&&◌, ◌==◌, ◌=b=◌, ◌∷◌,
}
use meshelle.Config.Model.{Role, RoomSettings, as_pairs, guest, policy_role, role_for_member}
use meshelle.Proto.Text.{Text, utf8_encode}

pub data RoleSource : Type 0 where
  member password allow_unknown : RoleSource

pub record Grant : Type 0 where
  pub role : Role
  pub source : RoleSource

-- The loop of `_match_password`: every pair is compared, and the first match is kept.
unfoldable pub match_pairs : List (Role × Text) → Bytes → Option Role → Option Role
match_pairs [] secret matched = matched
match_pairs ((role, declared) ∷ pairs) secret none = match_pairs pairs secret (
    if not (length (utf8_encode declared) == 0) && (secret =b= utf8_encode declared)
    then some role
    else none)
match_pairs ((role, declared) ∷ pairs) secret (some r) = match_pairs pairs secret (some r)

unfoldable pub match_password : RoomSettings → Bytes → Option Role
match_password room [] = none
match_password room (b ∷ bs) = match_pairs (as_pairs room.passwords) (b ∷ bs) none

abbrev pub granted_unknown : Option Role → Option Grant
granted_unknown none = none
granted_unknown (some r) = some (record { role = r; source = allow_unknown })

abbrev pub granted_password : Option Role → Option Grant → Option Grant
granted_password none otherwise = otherwise
granted_password (some r) otherwise = some (record { role = r; source = password })

abbrev pub granted_member : Option Role → Option Grant → Option Grant
granted_member none otherwise = otherwise
granted_member (some r) otherwise = some (record { role = r; source = member })

unfoldable pub resolve : RoomSettings → Bytes → Bytes → Option Grant
resolve room public_key secret = granted_member (role_for_member room public_key) (
    granted_password (match_password room secret)
      (granted_unknown (policy_role room.allow_unknown)))

-- `room.allow_unknown.role or Role.GUEST`, where the key is no member's.
abbrev pub role_or : Option Role → Role → Role
role_or none otherwise = otherwise
role_or (some r) otherwise = r

unfoldable pub resolve_without_password : RoomSettings → Bytes → Role
resolve_without_password room public_key =
    role_or (role_for_member room public_key) (role_or (policy_role room.allow_unknown) Role.guest)
