-- ===== src/V5/Decode.antt =====
-- The packet decoder of MQTT 5 (src/v5/codec/decode.rs).
-- `utf8` is the check of ntex-bytes that makes a `ByteString` of `Bytes`.
pub mod Acks
pub mod Session
pub mod Connect
pub mod ConnectAck
pub mod Publish
pub mod Subscribe
pub mod Safety
use ntex_mqtt.Base.{ℕ, Bool, ◌&&◌, List, leb, ◌==◌, if◌then◌else◌, bit_and, Result, ok, err, panic}
use ntex_mqtt.Wire.{DecodeError, unsupported_packet_type}
use ntex_mqtt.Types
use ntex_mqtt.V5.Packet.{Packet}
use ntex_mqtt.V5.Reasons.Acks.{
  PublishAckReason, PublishAck2Reason, publish_ack_codes, publish_ack2_codes, subscribe_ack_codes,
  unsubscribe_ack_codes,
}
use ntex_mqtt.V5.Decode.Acks.{decode_publish_ack, decode_status_ack}
use ntex_mqtt.V5.Decode.Session.{decode_auth, decode_disconnect}
use ntex_mqtt.V5.Decode.Connect.{decode_connect}
use ntex_mqtt.V5.Decode.ConnectAck.{decode_connect_ack}
use ntex_mqtt.V5.Decode.Publish.{decode_publish}
use ntex_mqtt.V5.Decode.Subscribe.{decode_subscribe, decode_unsubscribe}

-- The buffer, and what a decoder leaves of it, is dropped.
abbrev pub finish :
    {A : Type 0} → (A → Packet) → Result DecodeError (A × List ℕ) → Result DecodeError Packet
finish f (ok (a, rest)) = ok (f a)
finish f (err e) = err e
finish f panic = panic

unfoldable pub decode_packet : (List ℕ → Bool) → List ℕ → ℕ → Result DecodeError Packet
decode_packet utf8 src first_byte =
    if leb Types.PacketType.publish_start first_byte && leb first_byte Types.PacketType.publish_end
    then finish Packet.publish (decode_publish utf8 (bit_and first_byte 0b0000_1111) src)
    else if first_byte == Types.PacketType.puback
    then finish Packet.publish_ack
        (decode_publish_ack utf8 publish_ack_codes PublishAckReason.success src)
    else if first_byte == Types.PacketType.pingreq
    then ok Packet.ping_request
    else if first_byte == Types.PacketType.pingresp
    then ok Packet.ping_response
    else if first_byte == Types.PacketType.subscribe
    then finish Packet.subscribe (decode_subscribe utf8 src)
    else if first_byte == Types.PacketType.suback
    then finish Packet.subscribe_ack (decode_status_ack utf8 subscribe_ack_codes src)
    else if first_byte == Types.PacketType.unsubscribe
    then finish Packet.unsubscribe (decode_unsubscribe utf8 src)
    else if first_byte == Types.PacketType.unsuback
    then finish Packet.unsubscribe_ack (decode_status_ack utf8 unsubscribe_ack_codes src)
    else if first_byte == Types.PacketType.connect
    then finish Packet.connect (decode_connect utf8 src)
    else if first_byte == Types.PacketType.connack
    then finish Packet.connect_ack (decode_connect_ack utf8 src)
    else if first_byte == Types.PacketType.disconnect
    then finish Packet.disconnect (decode_disconnect utf8 src)
    else if first_byte == Types.PacketType.auth
    then finish Packet.auth (decode_auth utf8 src)
    else if first_byte == Types.PacketType.pubrec
    then finish Packet.publish_received
        (decode_publish_ack utf8 publish_ack_codes PublishAckReason.success src)
    else if first_byte == Types.PacketType.pubrel
    then finish Packet.publish_release
        (decode_publish_ack utf8 publish_ack2_codes PublishAck2Reason.success src)
    else if first_byte == Types.PacketType.pubcomp
    then finish Packet.publish_complete
        (decode_publish_ack utf8 publish_ack2_codes PublishAck2Reason.success src)
    else err unsupported_packet_type
