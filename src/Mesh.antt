-- ===== src/Mesh.antt =====
-- src/meshelle/mesh: clocks, duplicate suppression and dispatch.
pub mod Clock
pub mod Dedupe
pub mod Dispatcher
