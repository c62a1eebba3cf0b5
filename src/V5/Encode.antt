-- ===== src/V5/Encode.antt =====
-- The packet encoder of MQTT 5 (src/v5/codec/encode.rs, the trait `EncodeLtd`).
pub mod Acks
pub mod Session
pub mod Connect
pub mod ConnectAck
pub mod Publish
pub mod Subscribe
use mathlib.Core.Option.{Option, none, some}
use ntex_mqtt.Base.{
  ℕ, ◌+◌, ◌*◌, ◌-◌, ◌%◌, ◌^◌, Bool, true, false, not, List, [], ◌∷◌, map, ltb, leb, ◌==◌,
  if◌then◌else◌, length, is_some, bit_or, Result, ok, err,
}
use ntex_mqtt.Wire.{
  EncodeError, malformed_packet, packet_id_required, Writer, ◌then_write◌, put, fail, encode_u16,
  encode_bytes, encoded_size_bytes, write_variable_length,
}
use ntex_mqtt.Types
use ntex_mqtt.Types.{QoS, exactly_once, qos_bits, is_at_most_once, mqtt, mqtt_level_5, will_flag}
use ntex_mqtt.Types.Flags.{bool_bit, flags_of, will_bits}
use ntex_mqtt.V5.PropertyType
use ntex_mqtt.V5.Lengths.{u32_sub, var_int_len, var_int_len_from_size, reduce_limit}
use ntex_mqtt.V5.Packet.{Packet, Publish as PublishPacket}
use ntex_mqtt.V5.Property.Write.{
  bool_value, u16_value, u32_value, bytes_value, encoded_property_size, encode_property,
  encoded_property_size_default, encode_property_default, bool_eq, user_properties_size,
  encode_user_properties, encoded_size_opt_props, encode_opt_props,
}
use ntex_mqtt.V5.Encode.Acks.{
  publish_ack_size, encode_publish_ack, subscribe_ack_size, unsubscribe_ack_size, encode_status_ack,
}
use ntex_mqtt.V5.Encode.Session.{auth_size, encode_auth, disconnect_size, encode_disconnect}
use ntex_mqtt.V5.Encode.Connect.{connect_size, encode_connect}
use ntex_mqtt.V5.Encode.ConnectAck.{connect_ack_size, encode_connect_ack}
use ntex_mqtt.V5.Encode.Publish.{publish_size, encode_publish}
use ntex_mqtt.V5.Encode.Subscribe.{
  subscribe_size, encode_subscribe, unsubscribe_size, encode_unsubscribe,
}
use ntex_mqtt.V5.Reasons.Session.{connect_ack_bits, auth_bits, disconnect_bits}
use ntex_mqtt.V5.Reasons.Acks.{
  retain_handling_bits, publish_ack_bits, publish_ack2_bits, subscribe_ack_bits,
  unsubscribe_ack_bits,
}

-- `EncodeLtd::encoded_size for Packet`.
unfoldable pub encoded_size : Packet → ℕ → ℕ
encoded_size (Packet.connect c) limit = connect_size c
encoded_size (Packet.publish p) limit = publish_size p
encoded_size (Packet.connect_ack a) limit = connect_ack_size a limit
encoded_size (Packet.publish_ack a) limit = publish_ack_size a limit
encoded_size (Packet.publish_received a) limit = publish_ack_size a limit
encoded_size (Packet.publish_release a) limit = publish_ack_size a limit
encoded_size (Packet.publish_complete a) limit = publish_ack_size a limit
encoded_size (Packet.subscribe s) limit = subscribe_size s
encoded_size (Packet.subscribe_ack a) limit = subscribe_ack_size a limit
encoded_size (Packet.unsubscribe u) limit = unsubscribe_size u
encoded_size (Packet.unsubscribe_ack a) limit = unsubscribe_ack_size a limit
encoded_size Packet.ping_request limit = 0
encoded_size Packet.ping_response limit = 0
encoded_size (Packet.disconnect d) limit = disconnect_size d limit
encoded_size (Packet.auth a) limit = auth_size a limit

abbrev pub publish_first_byte : PublishPacket → ℕ
publish_first_byte p =
    bit_or
      (bit_or (bit_or Types.PacketType.publish_start (qos_bits p.qos * 2)) (bool_bit p.dup * 2 ^ 3))
      (bool_bit p.retain)

abbrev pub header : ℕ → ℕ → Writer
header first_byte check_size = put (first_byte ∷ []) then_write write_variable_length check_size

-- `EncodeLtd::encode for Packet`.
unfoldable pub encode : Packet → ℕ → Writer
encode (Packet.connect c) n = header Types.PacketType.connect n then_write encode_connect c
encode (Packet.connect_ack a) n =
    header Types.PacketType.connack n then_write encode_connect_ack a n
encode (Packet.publish p) n = header (publish_first_byte p) n then_write encode_publish p n
encode (Packet.publish_ack a) n =
    header Types.PacketType.puback n then_write encode_publish_ack publish_ack_bits a n
encode (Packet.publish_received a) n =
    header Types.PacketType.pubrec n then_write encode_publish_ack publish_ack_bits a n
encode (Packet.publish_release a) n =
    header Types.PacketType.pubrel n then_write encode_publish_ack publish_ack2_bits a n
encode (Packet.publish_complete a) n =
    header Types.PacketType.pubcomp n then_write encode_publish_ack publish_ack2_bits a n
encode (Packet.subscribe s) n = header Types.PacketType.subscribe n then_write encode_subscribe s
encode (Packet.subscribe_ack a) n =
    header Types.PacketType.suback n then_write encode_status_ack subscribe_ack_bits a n
encode (Packet.unsubscribe u) n =
    header Types.PacketType.unsubscribe n then_write encode_unsubscribe u
encode (Packet.unsubscribe_ack a) n =
    header Types.PacketType.unsuback n then_write encode_status_ack unsubscribe_ack_bits a n
encode Packet.ping_request n = put (Types.PacketType.pingreq ∷ 0 ∷ [])
encode Packet.ping_response n = put (Types.PacketType.pingresp ∷ 0 ∷ [])
encode (Packet.disconnect d) n =
    header Types.PacketType.disconnect n then_write encode_disconnect d n
encode (Packet.auth a) n = header Types.PacketType.auth n then_write encode_auth a n
