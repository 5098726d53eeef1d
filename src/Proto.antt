-- ===== src/Proto.antt =====
-- meshelle/proto: the wire format.
pub mod Error
pub mod Constants
pub mod Crypto
pub mod Packet
pub mod Datagram
pub mod AnonRequest
pub mod TextMessage
pub mod LoginRequest
pub mod ServerRequest
pub mod PathReturn
pub mod Ack
pub mod Plain
pub mod Text
pub mod Ed25519
pub mod Identity
pub mod Advert
