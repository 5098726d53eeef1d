-- ===== src/Room.antt =====
-- src/meshelle/room: access control, statistics, and the room server.
pub mod Acl
pub mod Stats
pub mod Posts
pub mod Session
pub mod Exec
pub mod AdminCli
pub mod Handlers
pub mod Replay
pub mod Sync
pub mod Server
