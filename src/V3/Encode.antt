-- ===== src/V3/Encode.antt =====
-- The packet encoder of MQTT 3.1.1 (src/v3/codec/encode.rs). `usize` is unbounded here: what is
-- measured lies in memory.
pub mod Sizes
pub mod Frames
use mathlib.Core.Option.{Option, none, some}
use ntex_mqtt.Base.{
  ℕ, ◌+◌, ◌*◌, ◌%◌, ◌^◌, Bool, true, false, not, List, [], ◌∷◌, ◌++◌, map, if◌then◌else◌, length,
  bit_or, is_some, Result, ok, err,
}
use ntex_mqtt.Wire.{
  EncodeError, malformed_packet, packet_id_required, Writer, ◌then_write◌, put, fail, u16_bytes,
  encode_u16, encode_bytes, write_variable_length,
}
use ntex_mqtt.Types
use ntex_mqtt.Types.{
  QoS, qos_bits, is_at_most_once, mqtt, mqtt_level_3, username_flag, password_flag,
  will_retain_flag, will_flag, clean_start_flag,
}
use ntex_mqtt.Types.Flags.{flag_if, bool_bit}
use ntex_mqtt.V3.Packet
use ntex_mqtt.V3.Packet.{
  Packet, Connect, ConnectAck, LastWill, Publish, SubscribeReturnCode, success, failure,
  reason_bits,
}

unfoldable pub get_encoded_publish_size : Publish → ℕ
get_encoded_publish_size p =
    if not (is_at_most_once p.qos)
    then 4 + length p.topic + length p.payload
    else 2 + length p.topic + length p.payload

unfoldable pub fold_filters : ℕ → List (List ℕ × QoS) → ℕ
fold_filters acc [] = acc
fold_filters acc ((filter, qos) ∷ rest) = fold_filters (acc + 2 + length filter + 1) rest

unfoldable pub get_encoded_subscribe_size : List (List ℕ × QoS) → ℕ
unfolding fold_filters
get_encoded_subscribe_size topic_filters = 2 + fold_filters 0 topic_filters

unfoldable pub fold_topics : ℕ → List (List ℕ) → ℕ
fold_topics acc [] = acc
fold_topics acc (filter ∷ rest) = fold_topics (acc + 2 + length filter) rest

unfoldable pub get_encoded_unsubscribe_size : List (List ℕ) → ℕ
unfolding fold_topics
get_encoded_unsubscribe_size topic_filters = 2 + fold_topics 0 topic_filters

abbrev pub optional_size : Option (List ℕ) → ℕ
optional_size none = 0
optional_size (some s) = 2 + length s

abbrev pub last_will_size : Option LastWill → ℕ
last_will_size none = 0
last_will_size (some w) = 2 + length w.topic + 2 + length w.message

unfoldable pub get_encoded_connect_size : Connect → ℕ
get_encoded_connect_size c =
    2
    + 4
    + 1
    + 1
    + 2
    + (2 + length c.client_id)
    + last_will_size c.last_will
    + optional_size c.username
    + optional_size c.password

unfoldable pub get_encoded_size : Packet → ℕ
unfolding get_encoded_connect_size get_encoded_publish_size get_encoded_subscribe_size
    get_encoded_unsubscribe_size
get_encoded_size (Packet.connect c) = get_encoded_connect_size c
get_encoded_size (Packet.connect_ack a) = 2
get_encoded_size (Packet.publish p) = get_encoded_publish_size p
get_encoded_size (Packet.publish_ack id) = 2
get_encoded_size (Packet.publish_received id) = 2
get_encoded_size (Packet.publish_release id) = 2
get_encoded_size (Packet.publish_complete id) = 2
get_encoded_size (Packet.subscribe id fs) = get_encoded_subscribe_size fs
get_encoded_size (Packet.subscribe_ack id st) = 2 + length st
get_encoded_size (Packet.unsubscribe id fs) = get_encoded_unsubscribe_size fs
get_encoded_size (Packet.unsubscribe_ack id) = 2
get_encoded_size Packet.ping_request = 0
get_encoded_size Packet.ping_response = 0
get_encoded_size Packet.disconnect = 0

-- The flags of the last will: `from_bits_truncate(b << WILL_QOS_SHIFT)` keeps all bits of a `QoS`.
abbrev pub last_will_flags : Option LastWill → ℕ
last_will_flags none = 0
last_will_flags (some w) =
    bit_or (bit_or will_flag (flag_if w.retain will_retain_flag)) (qos_bits w.qos * 2 ^ 3)

abbrev pub connect_flags : Connect → ℕ
connect_flags c =
    bit_or
      (bit_or
        (bit_or (flag_if (is_some c.username) username_flag)
          (flag_if (is_some c.password) password_flag))
        (last_will_flags c.last_will))
      (flag_if c.clean_session clean_start_flag)

abbrev pub encode_optional : Option (List ℕ) → Writer
encode_optional none = put []
encode_optional (some s) = encode_bytes s

abbrev pub encode_last_will : Option LastWill → Writer
encode_last_will none = put []
encode_last_will (some w) = encode_bytes w.topic then_write encode_bytes w.message

-- What `encode_connect` writes after the keep-alive time.
unfoldable pub encode_connect_fields : Connect → Writer
encode_connect_fields c =
    encode_bytes c.client_id
    then_write encode_last_will c.last_will
    then_write encode_optional c.username
    then_write encode_optional c.password

unfoldable pub encode_connect : Connect → Writer
encode_connect c =
    encode_bytes mqtt
    then_write put (mqtt_level_3 ∷ connect_flags c ∷ [])
    then_write put (u16_bytes c.keep_alive)
    then_write encode_connect_fields c

abbrev pub publish_first_byte : Publish → ℕ
publish_first_byte p =
    bit_or
      (bit_or (bit_or Types.PacketType.publish_start (qos_bits p.qos * 2)) (bool_bit p.dup * 2 ^ 3))
      (bool_bit p.retain)

abbrev pub encode_publish_id : QoS → Option ℕ → Writer
encode_publish_id QoS.at_most_once none = put []
encode_publish_id QoS.at_most_once (some id) = fail malformed_packet
encode_publish_id qos none = fail packet_id_required
encode_publish_id qos (some id) = encode_u16 id

unfoldable pub encode_filters : List (List ℕ × QoS) → Writer
encode_filters [] = put []
encode_filters ((filter, qos) ∷ rest) =
    encode_bytes filter then_write put (qos_bits qos ∷ []) then_write encode_filters rest

unfoldable pub encode_topics : List (List ℕ) → Writer
encode_topics [] = put []
encode_topics (filter ∷ rest) = encode_bytes filter then_write encode_topics rest

abbrev pub status_byte : SubscribeReturnCode → ℕ
status_byte (success qos) = qos_bits qos
status_byte failure = 0x80

abbrev pub header : ℕ → ℕ → Writer
header first_byte content_size = put (first_byte ∷ []) then_write write_variable_length content_size

unfoldable pub encode : Packet → ℕ → Writer
unfolding encode_connect encode_connect_fields encode_filters encode_topics
encode (Packet.connect c) n = header Types.PacketType.connect n then_write encode_connect c
encode (Packet.connect_ack a) n =
    header Types.PacketType.connack n
    then_write put (bool_bit a.session_present ∷ reason_bits a.return_code ∷ [])
encode (Packet.publish p) n =
    header (publish_first_byte p) n
    then_write encode_bytes p.topic
    then_write encode_publish_id p.qos p.packet_id
    then_write put p.payload
encode (Packet.publish_ack id) n = header Types.PacketType.puback n then_write encode_u16 id
encode (Packet.publish_received id) n = header Types.PacketType.pubrec n then_write encode_u16 id
encode (Packet.publish_release id) n = header Types.PacketType.pubrel n then_write encode_u16 id
encode (Packet.publish_complete id) n = header Types.PacketType.pubcomp n then_write encode_u16 id
encode (Packet.subscribe id fs) n =
    header Types.PacketType.subscribe n then_write encode_u16 id then_write encode_filters fs
encode (Packet.subscribe_ack id st) n =
    header Types.PacketType.suback n then_write encode_u16 id then_write put (map status_byte st)
encode (Packet.unsubscribe id fs) n =
    header Types.PacketType.unsubscribe n then_write encode_u16 id then_write encode_topics fs
encode (Packet.unsubscribe_ack id) n = header Types.PacketType.unsuback n then_write encode_u16 id
encode Packet.ping_request n = put (Types.PacketType.pingreq ∷ 0 ∷ [])
encode Packet.ping_response n = put (Types.PacketType.pingresp ∷ 0 ∷ [])
encode Packet.disconnect n = put (Types.PacketType.disconnect ∷ 0 ∷ [])
