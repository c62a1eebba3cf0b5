-- ===== src/Version/Tests.antt =====
-- The properties of version detection at CONNECT packets.
use mathlib.Core.Option.{none, some}
use ntex_mqtt.Base.{◌<◌, ◌^◌, ◌≡◌, refl, true, false, [], ◌∷◌, ◌++◌, ok, arith}
use ntex_mqtt.Wire.{write_variable_length, encode_u16, encode_bytes, encoded_size_bytes}
use ntex_mqtt.V3.Packet as PacketV3
use ntex_mqtt.V3.Encode as EncodeV3
use ntex_mqtt.V3.Codec as CodecV3
use ntex_mqtt.V5.Packet as PacketV5
use ntex_mqtt.V5.Encode as EncodeV5
use ntex_mqtt.V5.Encode.Connect as ConnectV5
use ntex_mqtt.V5.Property.Write as WriteV5
use ntex_mqtt.V5.Lengths as LengthsV5
use ntex_mqtt.V5.Codec as CodecV5
use ntex_mqtt.Version.{ProtocolVersion, decode}
use ntex_mqtt.Version.Detection.{decode-encode_connect}

abbrev connect3 : PacketV3.Connect
connect3 = record {
  clean_session = true;
  keep_alive = 60;
  last_will = none;
  client_id = b'a' ∷ [];
  username = none;
  password = none;
}

abbrev connect5 : PacketV5.Connect
connect5 = record {
  clean_start = true;
  keep_alive = 60;
  session_expiry_interval_secs = 0;
  auth_method = none;
  auth_data = none;
  request_problem_info = true;
  request_response_info = false;
  receive_max = none;
  topic_alias_max = 0;
  user_properties = [];
  max_packet_size = none;
  last_will = none;
  client_id = b'a' ∷ [];
  username = none;
  password = none;
}

encode3_ok : (CodecV3.encode (PacketV3.Packet.connect connect3)).result ≡ ok tt
unfolding CodecV3.encode EncodeV3.encode EncodeV3.encode_connect EncodeV3.encode_connect_fields
    EncodeV3.get_encoded_size EncodeV3.get_encoded_connect_size PacketV3.packet_type encode_bytes
    write_variable_length
encode3_ok = refl

size3 : EncodeV3.get_encoded_size (PacketV3.Packet.connect connect3) < 2 ^ 32
unfolding EncodeV3.get_encoded_size EncodeV3.get_encoded_connect_size
size3 = omega arith

encode5_ok : (CodecV5.encode CodecV5.new (PacketV5.Packet.connect connect5)).result ≡ ok tt
unfolding CodecV5.encode EncodeV5.encode EncodeV5.encoded_size ConnectV5.encode_connect
    ConnectV5.encode_connect_fields ConnectV5.connect_size PacketV5.packet_type encode_bytes
    encode_u16 write_variable_length LengthsV5.var_int_len LengthsV5.leading_zeros
    WriteV5.user_properties_size WriteV5.encode_user_properties encoded_size_bytes
encode5_ok = refl

decode-encode_connect_example :
    (decode ((CodecV3.encode (PacketV3.Packet.connect connect3)).bytes ++ (0xC0 ∷ []))
      ≡ ok (some ProtocolVersion.mqtt3))
    × (decode ((CodecV5.encode CodecV5.new (PacketV5.Packet.connect connect5)).bytes ++ (0xC0 ∷ []))
        ≡ ok (some ProtocolVersion.mqtt5))
decode-encode_connect_example =
    decode-encode_connect connect3 CodecV5.new connect5 (0xC0 ∷ []) encode3_ok size3 (omega arith)
      encode5_ok
