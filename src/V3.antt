-- ===== src/V3.antt =====
-- MQTT 3.1.1 (src/v3).
pub mod Packet
pub mod Decode
pub mod Encode
pub mod RoundTrip
pub mod Codec
pub mod Shared
pub mod Sink
