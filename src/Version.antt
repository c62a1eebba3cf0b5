-- ===== src/Version.antt =====
-- Which version of the protocol a client speaks (src/version.rs).
pub mod Detection
mod Tests
use mathlib.Core.Option.{Option, none, some}
use ntex_mqtt.Base.{
  ℕ, ◌+◌, ◌*◌, Bool, ◌&&◌, List, [], ◌∷◌, ◌==◌, if◌then◌else◌, drop, Result, ok, err, panic,
}
use ntex_mqtt.Wire.{
  DecodeError, invalid_protocol, unsupported_packet_type, decode_variable_length, Writer, fail,
  unsupported_version,
}
use ntex_mqtt.Types
use ntex_mqtt.Types.{mqtt_level_3, mqtt_level_5}

pub data ProtocolVersion : Type 0 where
  mqtt3 mqtt5 : ProtocolVersion

-- The `match` on the protocol level.
abbrev pub level_version : ℕ → Result DecodeError (Option ProtocolVersion)
level_version level =
    if level == mqtt_level_3
    then ok (some ProtocolVersion.mqtt3)
    else if level == mqtt_level_5
    then ok (some ProtocolVersion.mqtt5)
    else err invalid_protocol

-- What stands behind the fixed header of a CONNECT packet. Fewer than seven bytes there are
-- `len <= consumed + 6`.
abbrev pub protocol_version : List ℕ → Result DecodeError (Option ProtocolVersion)
protocol_version (high ∷ low ∷ m ∷ q ∷ t1 ∷ t2 ∷ level ∷ rest) =
    if (high * 256 + low == 4) && (m == b'M') && (q == b'Q') && (t1 == b'T') && (t2 == b'T')
    then level_version level
    else err invalid_protocol
protocol_version _ = ok none

abbrev pub header_version :
    List ℕ → ℕ → Result DecodeError (Option (ℕ × ℕ)) → Result DecodeError (Option ProtocolVersion)
header_version src first_byte (err e) = err e
header_version src first_byte panic = panic
header_version src first_byte (ok none) = ok none
header_version src first_byte (ok (some (n, consumed))) =
    if first_byte == Types.PacketType.connect
    then protocol_version (drop (consumed + 1) src)
    else err unsupported_packet_type

-- `Decoder::decode for VersionCodec`, which takes nothing from the buffer.
unfoldable pub decode : List ℕ → Result DecodeError (Option ProtocolVersion)
decode [] = ok none
decode (b ∷ []) = ok none
decode (first_byte ∷ b ∷ src) =
    header_version (first_byte ∷ b ∷ src) first_byte (decode_variable_length (b ∷ src))

-- `Encoder::encode for VersionCodec`.
abbrev pub encode : ProtocolVersion → Writer
encode v = fail unsupported_version
