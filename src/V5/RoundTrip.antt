-- ===== src/V5/RoundTrip.antt =====
-- `encode` against `decode_packet`, packet by packet (src/v5/codec).
pub mod Limited
pub mod Session
pub mod ConnectAck
pub mod Acks
pub mod Counted
pub mod Connect
pub mod Lists
pub mod Subscribe
pub mod Publish
pub mod Packets
