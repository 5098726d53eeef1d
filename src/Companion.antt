-- ===== src/Companion.antt =====
-- meshelle/companion: the node that is driven as a radio modem.
pub mod Link
