-- ===== src/Tests.antt =====
-- The theorems at concrete inputs, and runs of the definitions.
mod Proto
mod Store
mod Room
mod Mesh
mod Server
mod Handlers
mod Sync
mod Config
mod Companion
mod Responses
