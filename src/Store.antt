-- ===== src/Store.antt =====
-- meshelle/store: the rows of the database and the queries on them.
pub mod Model
pub mod Posts
pub mod Clients
pub mod Counters
pub mod Rooms
