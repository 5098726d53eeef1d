-- ===== src/Tests/Room.antt =====
-- Runs of the room server's parts.
use meshelle.Prelude.{All, Bytes, [], arith, inl, none, refl, some, true, ◌=b=◌, ◌↔◌, ◌∷◌, ◌≡◌}
use meshelle.Proto.Text.{utf8_encode}
use meshelle.Config.Model.{RoomSettings, admin, as_pairs, read_only, reject, role_for_member}
use meshelle.Room.Acl.{member, password, resolve}
use meshelle.Room.Acl.Resolution.{Matched, Opens}
use meshelle.Config.Checks.{members_are_unique, reachable_by_someone}
use meshelle.Config.Model
use meshelle.Room.Acl
use meshelle.Room.Acl.Resolution
use meshelle.Room.Acl.Reachable
use meshelle.Room.Acl.Declared

abbrev carol : Bytes
carol = 0xcc ∷ 1 ∷ []

abbrev stranger : Bytes
stranger = 0xdd ∷ 2 ∷ []

abbrev pub lobby : RoomSettings
lobby = record {
  name = b'L' ∷ b'o' ∷ b'b' ∷ [];
  location = none;
  members = record { pubkey = carol; role = read_only } ∷ [];
  passwords = record {
    admin = some (b'a' ∷ b'b' ∷ []);
    read_write = none;
    read_only = some (b'a' ∷ b'b' ∷ []);
  };
  allow_unknown = reject;
  welcome = [];
  post_retention = some 2592000;
  max_posts = some 5000;
  client_retention = some 7776000;
  advert_flood_interval = none;
  advert_local_interval = none;
}

abbrev pass : Bytes
pass = b'a' ∷ b'b' ∷ []

-- The demoted member knows the admin password, and stays read-only.
lobby_accepted : members_are_unique lobby ≡ true
unfolding members_are_unique
lobby_accepted = refl

resolve_declared_example :
    resolve lobby carol pass ≡ some (record { role = read_only; source = member })
resolve_declared_example =
    Declared.resolve_declared lobby (record { pubkey = carol; role = read_only }) pass
      lobby_accepted (inl refl)

lobby_not_blank : Reachable.NoneBlank lobby
unfolding as_pairs utf8_encode
lobby_not_blank = omega arith

reachable_by_someone_iff_example :
    (reachable_by_someone lobby ≡ true) ↔ Reachable.AdmitsSomeone lobby
reachable_by_someone_iff_example = Reachable.reachable_by_someone_iff lobby lobby_not_blank

-- A blank password passes the validator, and opens nothing.
abbrev blank_lobby : RoomSettings
blank_lobby = record lobby {
  members = [];
  passwords = record { admin = some []; read_write = none; read_only = none };
}

blank_lobby_accepted : reachable_by_someone blank_lobby ≡ true
unfolding reachable_by_someone as_pairs
blank_lobby_accepted = refl

blank_lobby_shut : resolve blank_lobby stranger [] ≡ none
unfolding resolve Acl.match_password Model.member_role
blank_lobby_shut = refl

stranger_is_admin : resolve lobby stranger pass ≡ some (record { role = admin; source = password })
unfolding resolve Acl.match_password Acl.match_pairs Model.member_role Model.as_pairs utf8_encode
    ◌=b=◌
stranger_is_admin = refl

resolve_password_example :
    (role_for_member lobby stranger ≡ none) × Matched (as_pairs lobby.passwords) pass admin
resolve_password_example = Resolution.resolve_password lobby stranger pass admin stranger_is_admin

resolve-eq-none_iff_example : (resolve lobby stranger [] ≡ none) ↔ (
    (role_for_member lobby stranger ≡ none)
    × All (λ q. ¬ Opens [] q) (as_pairs lobby.passwords)
    × (lobby.allow_unknown ≡ reject))
resolve-eq-none_iff_example = Resolution.resolve-eq-none_iff lobby stranger []
