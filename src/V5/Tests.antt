-- ===== src/V5/Tests.antt =====
-- The properties of the codec of MQTT 5 at a PUBACK packet, with a reason string that does not fit
-- the limit, and at a CONNECT packet. Every string is UTF-8 here.
use mathlib.Core.Option.{none, some}
use ntex_mqtt.Base.{
  ℕ, ◌+◌, ◌≤◌, ◌≡◌, ◌≢◌, refl, ap, Bool, true, false, List, [], ◌∷◌, ◌++◌, length, ok, panic, arith,
}
use ntex_mqtt.Wire.{
  write_variable_length, encode_u16, encode_bytes, encoded_size_bytes, encode_bool,
}
use ntex_mqtt.V5.Packet.{Packet, PublishAck, Connect, UserProperties}
use ntex_mqtt.V5.Reasons.Acks.{PublishAckReason}
use ntex_mqtt.V5.Lengths.{var_int_len, var_int_len_from_size, leading_zeros}
use ntex_mqtt.V5.Lengths.Laws.{var_int_len_from_size-var_int_len}
use ntex_mqtt.V5.Property.Write.{
  user_properties_size, encode_user_properties, opt_props_loop, encoded_size_opt_props,
}
use ntex_mqtt.V5.Property.Fit.Largest.{IsCut, encode_opt_props-IsCut}
use ntex_mqtt.V5.Decode.{decode_packet}
use ntex_mqtt.V5.Decode.Safety.Packets.{decode_packet-answers}
use ntex_mqtt.V5.Encode
use ntex_mqtt.V5.Encode.Acks.{
  ack_props_size, encode_ack_props, publish_ack_size, encode_publish_ack,
}
use ntex_mqtt.V5.Encode.Connect.{connect_size, encode_connect, encode_connect_fields}
use ntex_mqtt.V5.RoundTrip.Packets.{IsValid, content}
use ntex_mqtt.V5.RoundTrip.Packets.ReadBack.{IsReadBack, decode_packet-content-kept}
use ntex_mqtt.V5.Codec
use ntex_mqtt.V5.Codec.{frame_header, no_problem_info, note_connect, sent, set_max_outbound_size}
use ntex_mqtt.V5.Codec.Frames.{too_big}
use ntex_mqtt.V5.Codec.Limits.{IsGuarded, decode-IsGuarded}
use ntex_mqtt.V5.Codec.RoundTrip.{received, sent_size, decode-encode-sent}
use ntex_mqtt.V5.Codec.Outbound.{length-encode-set_max_outbound_size}
use ntex_mqtt.V5.Codec.ProblemInfo.{Heeds, sent-Heeds}

abbrev any_utf8 : List ℕ → Bool
any_utf8 s = true

abbrev puback : PublishAck
puback = record {
  packet_id = 7;
  reason_code = PublishAckReason.success;
  properties = [];
  reason_string = some (b'a' ∷ b'b' ∷ []);
}

abbrev packet : Packet
packet = Packet.publish_ack puback

packet-IsValid : IsValid any_utf8 packet
packet-IsValid = ((omega arith, omega arith), (tt, refl))

-- A limit without room for the reason string, and the codec of that outbound limit.
abbrev limit : ℕ
limit = 11

abbrev writer : Codec.Codec
writer = set_max_outbound_size Codec.new 16

abbrev bytes : List ℕ
bytes = 0x40 ∷ 4 ∷ 0 ∷ 7 ∷ 0 ∷ 0 ∷ []

size_is_4 : Encode.encoded_size packet limit ≡ 4
unfolding Encode.encoded_size publish_ack_size ack_props_size encoded_size_opt_props opt_props_loop
    var_int_len leading_zeros encoded_size_bytes
size_is_4 = refl

content_ok : (content packet (Encode.encoded_size packet limit)).result ≡ ok tt
unfolding encode_publish_ack encode_ack_props encode_u16 Encode.encoded_size publish_ack_size
    ack_props_size encoded_size_opt_props opt_props_loop var_int_len leading_zeros
    encoded_size_bytes
content_ok = refl

decode_packet-content-kept_example :
    IsReadBack any_utf8 packet limit (Encode.encoded_size packet limit)
decode_packet-content-kept_example =
    decode_packet-content-kept any_utf8 packet limit packet-IsValid (omega (arith, size_is_4))
      content_ok

encode_ok : (Codec.encode writer packet).result ≡ ok tt
unfolding Codec.encode Encode.encode encode_publish_ack encode_ack_props encode_u16
    Encode.encoded_size publish_ack_size ack_props_size encoded_size_opt_props opt_props_loop
    var_int_len leading_zeros encoded_size_bytes write_variable_length
encode_ok = refl

sent_small : too_big writer (sent_size writer packet) ≡ false
sent_small = refl

decode-encode-sent_example :
    Codec.decode any_utf8 writer ((Codec.encode writer packet).bytes ++ (0xC0 ∷ [])) ≡ record {
      answer = ok (some (received writer packet, sent_size writer packet));
      codec = record writer { flags = note_connect (received writer packet) 0 };
      rest = 0xC0 ∷ [];
    }
decode-encode-sent_example =
    decode-encode-sent any_utf8 writer writer packet (0xC0 ∷ []) packet-IsValid (omega arith)
      encode_ok refl sent_small

length-encode-set_max_outbound_size_example : length (Codec.encode writer packet).bytes ≤ 16
length-encode-set_max_outbound_size_example =
    length-encode-set_max_outbound_size any_utf8 Codec.new 16 packet (omega arith) (omega arith)
      packet-IsValid encode_ok

decode-IsGuarded_example :
    IsGuarded writer.max_in_size writer.max_out_size writer.flags
      (Codec.decode any_utf8 writer bytes)
decode-IsGuarded_example = decode-IsGuarded any_utf8 writer bytes tt

decode_packet-answers_example : decode_packet any_utf8 (0 ∷ 7 ∷ 0 ∷ 3 ∷ 0x1F ∷ []) 0x40 ≢ panic
decode_packet-answers_example = decode_packet-answers any_utf8 (0 ∷ 7 ∷ 0 ∷ 3 ∷ 0x1F ∷ []) 0x40

var_int_len_from_size-var_int_len_example : var_int_len_from_size (var_int_len 200 + 200) ≡ 200
var_int_len_from_size-var_int_len_example = var_int_len_from_size-var_int_len 200 (omega arith)

-- A client that asks for no problem information.
abbrev connect : Connect
connect = record {
  clean_start = true;
  keep_alive = 60;
  session_expiry_interval_secs = 0;
  auth_method = none;
  auth_data = none;
  request_problem_info = false;
  request_response_info = false;
  receive_max = none;
  topic_alias_max = 0;
  user_properties = [];
  max_packet_size = none;
  last_will = none;
  client_id = b'a' ∷ [];
  username = none;
  password = none;
}

connect-IsValid : IsValid any_utf8 (Packet.connect connect)
connect-IsValid = (omega arith, omega arith, tt, tt, omega arith, tt, tt, tt, refl, tt, refl)

connect_ok : (Codec.encode Codec.new (Packet.connect connect)).result ≡ ok tt
unfolding Codec.encode Encode.encode Encode.encoded_size encode_connect encode_connect_fields
    connect_size encode_bytes encode_u16 write_variable_length var_int_len leading_zeros
    user_properties_size encode_user_properties encoded_size_bytes encode_bool
connect_ok = refl

abbrev connect_bytes : List ℕ
connect_bytes = (Codec.encode Codec.new (Packet.connect connect)).bytes ++ []

abbrev connect_read_size : ℕ
connect_read_size = sent_size Codec.new (Packet.connect connect)

connect_read :
    (Codec.decode any_utf8 Codec.new connect_bytes).answer
    ≡ ok (some (Packet.connect connect, connect_read_size))
connect_read =
    ap (λ d. d.answer)
      (decode-encode-sent any_utf8 Codec.new Codec.new (Packet.connect connect) [] connect-IsValid
        (omega arith) connect_ok refl refl)

sent-Heeds_example :
    Heeds false packet (sent (Codec.decode any_utf8 Codec.new connect_bytes).codec packet)
sent-Heeds_example =
    sent-Heeds any_utf8 Codec.new connect_bytes connect connect_read_size packet tt (omega arith)
      connect_read

-- A limit with room for the first of two user properties.
abbrev two_properties : UserProperties
two_properties = (b'a' ∷ [], b'b' ∷ []) ∷ (b'c' ∷ [], b'd' ∷ []) ∷ []

encode_opt_props-IsCut_example : IsCut two_properties (some (b'e' ∷ [])) 12
encode_opt_props-IsCut_example = encode_opt_props-IsCut two_properties (some (b'e' ∷ [])) 12
