-- ===== src/Config.antt =====
-- meshelle/config: the settings that the room server reads.
pub mod Model
pub mod Checks
pub mod Keys
pub mod Dotenv
