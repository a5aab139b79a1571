-- ===== src/C2c.antt =====
-- PICA_client.c: a channel between two clients, as one of the clients keeps it.
pub mod State
pub mod Files
pub mod Streams
pub mod Messages
pub mod Write
pub mod Direct
pub mod Invariant
pub mod Table
pub mod Transfer
pub mod Handshake
