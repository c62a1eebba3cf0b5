-- ===== src/V3/Decode.antt =====
-- The packet decoder of MQTT 3.1.1 (src/v3/codec/decode.rs).
-- `utf8` is the check of ntex-bytes that makes a `ByteString` of `Bytes`.
pub mod Safety
use mathlib.Core.Option.{Option, none, some}
use ntex_mqtt.Base.{
  ℕ, zero, suc, ◌+◌, ◌/◌, Bool, true, false, not, ◌&&◌, ◌||◌, List, [], ◌∷◌, ltb, leb, ◌==◌,
  if◌then◌else◌, length, take, is_empty, bytes_eq, bit_and, Result, ok, err, panic, and_then,
}
use ntex_mqtt.Wire.{
  DecodeError, invalid_protocol, invalid_length, malformed_packet, unsupported_protocol_level,
  connect_reserved_flag_set, conn_ack_reserved_flag_set, invalid_client_id, unsupported_packet_type,
  Reader, continue, ◌>>=◌, ◌>>◌, pure, ensure, remaining, get_u8, get_u16, split_to, decode_u16,
  decode_nonzero_u16, decode_bytes, decode_string,
}
use ntex_mqtt.Wire.Readers.{lift, has_remaining, take_rest, when_set}
use ntex_mqtt.Types
use ntex_mqtt.Types.{
  QoS, qos_from, is_at_most_once, mqtt, mqtt_level_3, contains, username_flag, password_flag,
  will_retain_flag, will_qos_flag, will_flag, clean_start_flag, session_present_flag,
  connect_reserved_bits, connect_ack_reserved_bits,
}
use ntex_mqtt.V3.Packet
use ntex_mqtt.V3.Packet.{
  Packet, Connect, ConnectAck, LastWill, Publish, SubscribeReturnCode, success, failure,
  reason_from,
}

unfoldable pub decode_ack : (ℕ → Packet) → Reader Packet
decode_ack f = do
  packet_id ← decode_nonzero_u16
  more ← has_remaining
  ensure (not more) invalid_length
  pure (f packet_id)

-- The byte that follows each filter of a SUBSCRIBE packet.
unfoldable pub requested_qos : Reader QoS
requested_qos = do
  n ← remaining
  ensure (leb 1 n) invalid_length
  v ← get_u8
  lift (qos_from (bit_and v 0b0000_0011))

module _ (utf8 : List ℕ → Bool) where
  unfoldable pub decode_last_will : ℕ → Reader LastWill
  decode_last_will flags = do
    topic ← decode_string utf8
    message ← decode_bytes
    qos ← lift (qos_from (bit_and flags will_qos_flag / 8))
    pure (record {
      qos = qos;
      retain = contains flags will_retain_flag;
      topic = topic;
      message = message;
    })

  -- What `decode_connect_packet` reads after the flags.
  unfoldable pub decode_connect_fields : ℕ → Reader Packet
  decode_connect_fields flags = do
    keep_alive ← decode_u16
    client_id ← decode_string utf8
    ensure (not (is_empty client_id) || contains flags clean_start_flag) invalid_client_id
    last_will ← when_set (contains flags will_flag) (decode_last_will flags)
    username ← when_set (contains flags username_flag) (decode_string utf8)
    password ← when_set (contains flags password_flag) decode_bytes
    pure (
        Packet.connect (record {
          clean_session = contains flags clean_start_flag;
          keep_alive = keep_alive;
          last_will = last_will;
          client_id = client_id;
          username = username;
          password = password;
        }))

  unfoldable pub decode_connect_packet : Reader Packet
  decode_connect_packet = do
    n ← remaining
    ensure (leb 10 n) invalid_length
    len ← get_u16
    name ← split_to 4
    ensure (len == 4 && bytes_eq name mqtt) invalid_protocol
    level ← get_u8
    ensure (level == mqtt_level_3) unsupported_protocol_level
    flags ← get_u8
    ensure (bit_and flags connect_reserved_bits == 0) connect_reserved_flag_set
    decode_connect_fields flags

  unfoldable pub decode_connect_ack_packet : Reader Packet
  decode_connect_ack_packet = do
    n ← remaining
    ensure (leb 2 n) invalid_length
    flags ← get_u8
    ensure (bit_and flags connect_ack_reserved_bits == 0) conn_ack_reserved_flag_set
    code ← get_u8
    return_code ← lift (reason_from code)
    pure (
        Packet.connect_ack (record {
          return_code = return_code;
          session_present = contains flags session_present_flag;
        }))

  unfoldable pub decode_publish_packet : ℕ → Reader Packet
  decode_publish_packet packet_flags = do
    topic ← decode_string utf8
    qos ← lift (qos_from (bit_and packet_flags 0b0110 / 2))
    packet_id ← when_set (not (is_at_most_once qos)) decode_nonzero_u16
    payload ← take_rest
    pure (
        Packet.publish (record {
          dup = bit_and packet_flags 0b1000 == 0b1000;
          retain = bit_and packet_flags 0b0001 == 0b0001;
          qos = qos;
          topic = topic;
          packet_id = packet_id;
          payload = payload;
        }))

  -- The body of the loop in `decode_subscribe_packet`.
  unfoldable pub decode_filter : Reader (List ℕ × QoS)
  decode_filter = do topic ← decode_string utf8; qos ← requested_qos; pure (topic, qos)

  -- A round takes a byte at least, so as many rounds as there are bytes are enough.
  unfoldable pub subscribe_loop : ℕ → Reader (List (List ℕ × QoS))
  subscribe_loop fuel [] = ok ([], [])
  subscribe_loop zero (b ∷ src) = panic
  subscribe_loop (suc fuel) (b ∷ src) =
      (do filter ← decode_filter; filters ← subscribe_loop fuel; pure (filter ∷ filters)) (b ∷ src)

  unfoldable pub decode_subscribe_packet : Reader Packet
  unfolding subscribe_loop
  decode_subscribe_packet = do
    packet_id ← decode_nonzero_u16
    n ← remaining
    topic_filters ← subscribe_loop n
    pure (Packet.subscribe packet_id topic_filters)

  unfoldable pub unsubscribe_loop : ℕ → Reader (List (List ℕ))
  unsubscribe_loop fuel [] = ok ([], [])
  unsubscribe_loop zero (b ∷ src) = panic
  unsubscribe_loop (suc fuel) (b ∷ src) =
      (do topic ← decode_string utf8; filters ← unsubscribe_loop fuel; pure (topic ∷ filters))
        (b ∷ src)

  unfoldable pub decode_unsubscribe_packet : Reader Packet
  unfolding unsubscribe_loop
  decode_unsubscribe_packet = do
    packet_id ← decode_nonzero_u16
    n ← remaining
    topic_filters ← unsubscribe_loop n
    pure (Packet.unsubscribe packet_id topic_filters)

-- The loop over the codes reads the rest of the buffer and leaves it there.
unfoldable pub decode_statuses : List ℕ → Result DecodeError (List SubscribeReturnCode)
decode_statuses [] = ok []
decode_statuses (code ∷ codes) =
    let status : Result DecodeError SubscribeReturnCode =
      if code == 0x80 then ok failure else and_then (qos_from code) λ qos. ok (success qos) in
    let rest = decode_statuses codes in and_then status λ s. and_then rest λ ss. ok (s ∷ ss)

unfoldable pub decode_subscribe_ack_packet : Reader Packet
unfolding decode_statuses
decode_subscribe_ack_packet = do
  packet_id ← decode_nonzero_u16
  codes ← take_rest
  status ← lift (decode_statuses codes)
  pure (Packet.subscribe_ack packet_id status)

-- `decode_packet`; the buffer, and what a decoder leaves of it, is dropped.
abbrev pub finish : Result DecodeError (Packet × List ℕ) → Result DecodeError Packet
finish (ok (packet, rest)) = ok packet
finish (err e) = err e
finish panic = panic

unfoldable pub decode_packet : (List ℕ → Bool) → List ℕ → ℕ → Result DecodeError Packet
decode_packet utf8 src first_byte =
    if first_byte == Types.PacketType.connect
    then finish (decode_connect_packet utf8 src)
    else if first_byte == Types.PacketType.connack
    then finish (decode_connect_ack_packet utf8 src)
    else if leb Types.PacketType.publish_start first_byte
        && leb first_byte Types.PacketType.publish_end
    then finish (decode_publish_packet utf8 (bit_and first_byte 0b0000_1111) src)
    else if first_byte == Types.PacketType.puback
    then finish (decode_ack Packet.publish_ack src)
    else if first_byte == Types.PacketType.pubrec
    then finish (decode_ack Packet.publish_received src)
    else if first_byte == Types.PacketType.pubrel
    then finish (decode_ack Packet.publish_release src)
    else if first_byte == Types.PacketType.pubcomp
    then finish (decode_ack Packet.publish_complete src)
    else if first_byte == Types.PacketType.subscribe
    then finish (decode_subscribe_packet utf8 src)
    else if first_byte == Types.PacketType.suback
    then finish (decode_subscribe_ack_packet src)
    else if first_byte == Types.PacketType.unsubscribe
    then finish (decode_unsubscribe_packet utf8 src)
    else if first_byte == Types.PacketType.unsuback
    then finish (decode_ack Packet.unsubscribe_ack src)
    else if first_byte == Types.PacketType.pingreq
    then ok Packet.ping_request
    else if first_byte == Types.PacketType.pingresp
    then ok Packet.ping_response
    else if first_byte == Types.PacketType.disconnect
    then ok Packet.disconnect
    else err unsupported_packet_type
