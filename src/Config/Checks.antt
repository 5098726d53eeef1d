-- ===== src/Config/Checks.antt =====
-- The validators of a room's settings in config/model.py.
use meshelle.Prelude.{Bool, Bytes, List, [], any, false, if◌then◌else◌, not, true, ◌&&◌, ◌=b=◌, ◌∷◌}
use meshelle.Config.Model.{Member, RoomSettings, UnknownPolicy, as_pairs, reject}

abbrev pub is_empty {ℓ} : {A : Type ℓ} → List A → Bool
is_empty [] = true
is_empty (a ∷ rest) = false

abbrev pub is_reject : UnknownPolicy → Bool
is_reject reject = true
is_reject _ = false

-- The loop of `_members_are_unique`, with the keys that it has seen.
unfoldable pub unseen : List Bytes → List Member → Bool
unseen seen [] = true
unseen seen (m ∷ ms) =
    let rest = unseen (m.pubkey ∷ seen) ms in
    if any (λ key. key =b= m.pubkey) seen then false else rest

-- Whether `_members_are_unique` accepts the settings.
unfoldable pub members_are_unique : RoomSettings → Bool
unfolding unseen
members_are_unique room = unseen [] room.members

-- Whether `_reachable_by_someone` accepts the settings.
unfoldable pub reachable_by_someone : RoomSettings → Bool
unfolding as_pairs
reachable_by_someone room =
    not
      (is_empty room.members && is_empty (as_pairs room.passwords) && is_reject room.allow_unknown)
