-- ===== src/Config/Model.antt =====
-- config/model.py: roles, policies and the settings of one room. Durations are whole seconds.
use meshelle.Prelude.{
  Bool, Bytes, List, Option, [], false, if◌then◌else◌, none, some, true, ℕ, ℤ, ◌++◌, ◌=b=◌, ◌∷◌,
}
use meshelle.Proto.Constants.{Permission}
use meshelle.Proto.Text.{Text}

pub data Role : Type 0 where
  guest read_only read_write admin : Role

abbrev pub permission : Role → Permission
permission guest = Permission.guest
permission read_only = Permission.read_only
permission read_write = Permission.read_write
permission admin = Permission.admin

abbrev pub may_post : Role → Bool
may_post read_write = true
may_post admin = true
may_post _ = false

pub data UnknownPolicy : Type 0 where
  reject guest read_only read_write : UnknownPolicy

abbrev pub policy_role : UnknownPolicy → Option Role
policy_role reject = none
policy_role guest = some guest
policy_role read_only = some read_only
policy_role read_write = some read_write

pub record Member : Type 0 where
  pub pubkey : Bytes
  pub role : Role

pub record Passwords : Type 0 where
  pub admin : Option Text
  pub read_write : Option Text
  pub read_only : Option Text

-- One candidate of `as_pairs`, if it is declared.
abbrev pub declared_pair : Role → Option Text → List (Role × Text)
declared_pair role none = []
declared_pair role (some secret) = (role, secret) ∷ []

-- Declared passwords, strongest first.
unfoldable pub as_pairs : Passwords → List (Role × Text)
as_pairs p =
    declared_pair admin p.admin
    ++ (declared_pair read_write p.read_write ++ declared_pair read_only p.read_only)

-- A location is in millionths of a degree; a validator sees to it that both numbers are set.
pub record RoomSettings : Type 0 where
  pub name : Text
  pub location : Option (ℤ × ℤ)
  pub members : List Member
  pub passwords : Passwords
  pub allow_unknown : UnknownPolicy
  pub welcome : Text
  pub post_retention : Option ℕ
  pub max_posts : Option ℕ
  pub client_retention : Option ℕ
  pub advert_flood_interval : Option ℕ
  pub advert_local_interval : Option ℕ

unfoldable pub member_role : List Member → Bytes → Option Role
member_role [] public_key = none
member_role (m ∷ ms) public_key =
    let rest = member_role ms public_key in if m.pubkey =b= public_key then some m.role else rest

abbrev pub role_for_member : RoomSettings → Bytes → Option Role
role_for_member room public_key = member_role room.members public_key
