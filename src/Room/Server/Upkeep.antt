-- ===== src/Room/Server/Upkeep.antt =====
-- `_store_post`, client retention, `apply_settings` and `_pause_pushes` of room/server.py.
pub mod InFlight
pub mod Reload
use meshelle.Prelude.{
  Bool, Bytes, List, Option, [], false, filter, if◌then◌else◌, map, none, not, some, true, ℕ, ◌+◌,
  ◌-◌,
}
use meshelle.Proto.Text.{Text}
use meshelle.Config.Model.{Role, RoomSettings, role_for_member}
use meshelle.Store.Model.{Db, posted}
use meshelle.Store.Posts.{add_post, next_post_ts, prune_posts}
use meshelle.Store.Clients.{has_key, prune_clients}
use meshelle.Store.Counters.{increment_counter}
use meshelle.Room.Acl.{RoleSource, allow_unknown, member, resolve_without_password}
use meshelle.Room.Session.{ClientSession}
use meshelle.Room.Server.{Server, is_pending}

-- The keys of the clients that a push is under way to.
abbrev pub in_flight : Server → List Bytes
in_flight sv = map (λ s. s.public_key) (filter is_pending sv.sessions)

-- `_prune_clients`, on the database of the transaction.
unfoldable pub prune_room_clients : ℕ → Server → Db → List Bytes × Db
prune_room_clients now sv db = elim sv.settings.client_retention [
  | none ↦ ([], db)
  | some retention ↦ prune_clients db sv.room_id (now - retention) (in_flight sv)
]

unfoldable pub forget_sessions : List Bytes → Server → Server
forget_sessions keys sv = record sv {
  sessions = filter (λ s. not (has_key keys s.public_key)) sv.sessions;
}

abbrev pub pause_pushes : ℕ → Server → Server
pause_pushes monotonic sv = record sv { next_push = monotonic + sv.timings.push_notify_delay }

-- `None` where the policy is none, and `now - retention` otherwise.
abbrev pub oldest_kept : ℕ → Option ℕ → Option ℕ
oldest_kept now none = none
oldest_kept now (some retention) = some (now - retention)

-- `_store_post`: the post's timestamp, or `none` for an `IntegrityError`, which undoes all of it.
unfoldable pub store_post : ℕ → ℕ → Bytes → Text → Server → Option (ℕ × Server)
unfolding prune_room_clients forget_sessions
store_post now monotonic author text sv =
    let post_ts = next_post_ts sv.db sv.room_id now in
    elim (add_post sv.db sv.room_id author text post_ts) [
      | none ↦ none
      | some (post, added) ↦
          let counted = increment_counter added sv.room_id posted 1 in
          let (forgotten, pruned) = prune_room_clients now sv counted in
          let kept =
            prune_posts pruned sv.room_id (oldest_kept now sv.settings.post_retention)
              sv.settings.max_posts in
          some (
            post.post_ts,
            pause_pushes monotonic (forget_sessions forgotten (record sv { db = kept.1 })),
          )
    ]

abbrev pub is_member_source : RoleSource → Bool
is_member_source member = true
is_member_source _ = false

-- A session under reloaded settings, by the role that they declare for its key.
abbrev pub readmit : RoomSettings → Option Role → ClientSession → ClientSession
readmit settings (some role) s = record s { role = role; source = member }
readmit settings none s =
    if is_member_source s.source
    then record s { role = resolve_without_password settings s.public_key; source = allow_unknown }
    else s

unfoldable pub apply_settings : RoomSettings → Server → Server
apply_settings settings sv = record sv {
  settings = settings;
  sessions = map (λ s. readmit settings (role_for_member settings s.public_key) s) sv.sessions;
}
