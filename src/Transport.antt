-- ===== src/Transport.antt =====
-- src/meshelle/transport: the framing of a byte stream.
pub mod Framing
