-- ===== src/V5.antt =====
-- MQTT 5: packets, their properties, and the codec (src/v5/codec).
pub mod PropertyType
pub mod Reasons
pub mod Packet
pub mod Property
pub mod Decode
pub mod Lengths
pub mod Encode
pub mod RoundTrip
pub mod Codec
mod Tests
