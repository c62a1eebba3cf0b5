-- ===== src/V5/Decode/ConnectAck.antt =====
-- CONNACK (src/v5/codec/packet/connack.rs).
use mathlib.Core.Option.{Option, none}
use ntex_mqtt.Base.{ℕ, Bool, true, List, [], leb, ◌==◌, if◌then◌else◌, bit_and}
use ntex_mqtt.Wire.{
  invalid_length, conn_ack_reserved_flag_set, Reader, ◌>>=◌, ◌>>◌, pure, ensure, remaining, get_u8,
  decode_bool, decode_u16, decode_u32, decode_nonzero_u16, decode_bytes, decode_string,
}
use ntex_mqtt.Wire.Readers.{lift, to_the_end, next_byte}
use ntex_mqtt.Types.{
  QoS, qos_from, exactly_once, contains, session_present_flag, connect_ack_reserved_bits,
}
use ntex_mqtt.V5.PropertyType
use ntex_mqtt.V5.Packet.{UserProperties, ByteString, ConnectAck, receive_max_default}
use ntex_mqtt.V5.Property.{set_value, push_property, unknown_property, read_properties, unwrap_or}
use ntex_mqtt.V5.Reasons.{try_from}
use ntex_mqtt.V5.Reasons.Session.{connect_ack_codes}

pub record ConnectAckProperties : Type 0 where
  pub session_expiry_interval_secs : Option ℕ
  pub receive_max : Option ℕ
  pub max_qos : Option QoS
  pub retain_available : Option Bool
  pub max_packet_size : Option ℕ
  pub assigned_client_id : Option ByteString
  pub topic_alias_max : Option ℕ
  pub reason_string : Option ByteString
  pub user_properties : UserProperties
  pub wildcard_sub_avail : Option Bool
  pub sub_ids_avail : Option Bool
  pub shared_sub_avail : Option Bool
  pub server_ka_sec : Option ℕ
  pub response_info : Option ByteString
  pub server_reference : Option ByteString
  pub auth_method : Option ByteString
  pub auth_data : Option (List ℕ)

abbrev pub no_connect_ack_properties : ConnectAckProperties
no_connect_ack_properties = record {
  session_expiry_interval_secs = none;
  receive_max = none;
  max_qos = none;
  retain_available = none;
  max_packet_size = none;
  assigned_client_id = none;
  topic_alias_max = none;
  reason_string = none;
  user_properties = [];
  wildcard_sub_avail = none;
  sub_ids_avail = none;
  shared_sub_avail = none;
  server_ka_sec = none;
  response_info = none;
  server_reference = none;
  auth_method = none;
  auth_data = none;
}

unfoldable pub decode_qos : Reader QoS
decode_qos = do v ← next_byte; lift (qos_from v)

module _ (utf8 : List ℕ → Bool) where
  unfoldable pub connect_ack_handler : ℕ → ConnectAckProperties → Reader ConnectAckProperties
  connect_ack_handler prop_id s =
      if prop_id == PropertyType.sess_expiry_int
      then set_value s.session_expiry_interval_secs decode_u32
          (λ v. record s { session_expiry_interval_secs = v })
      else if prop_id == PropertyType.receive_max
      then set_value s.receive_max decode_nonzero_u16 (λ v. record s { receive_max = v })
      else if prop_id == PropertyType.max_qos
      then set_value s.max_qos decode_qos (λ v. record s { max_qos = v })
      else if prop_id == PropertyType.retain_avail
      then set_value s.retain_available decode_bool (λ v. record s { retain_available = v })
      else if prop_id == PropertyType.max_packet_size
      then set_value s.max_packet_size decode_u32 (λ v. record s { max_packet_size = v })
      else if prop_id == PropertyType.assnd_client_id
      then set_value s.assigned_client_id (decode_string utf8)
          (λ v. record s { assigned_client_id = v })
      else if prop_id == PropertyType.topic_alias_max
      then set_value s.topic_alias_max decode_u16 (λ v. record s { topic_alias_max = v })
      else if prop_id == PropertyType.reason_string
      then set_value s.reason_string (decode_string utf8) (λ v. record s { reason_string = v })
      else if prop_id == PropertyType.user
      then push_property utf8 s.user_properties (λ ps. record s { user_properties = ps })
      else if prop_id == PropertyType.wildcard_sub_avail
      then set_value s.wildcard_sub_avail decode_bool (λ v. record s { wildcard_sub_avail = v })
      else if prop_id == PropertyType.sub_ids_avail
      then set_value s.sub_ids_avail decode_bool (λ v. record s { sub_ids_avail = v })
      else if prop_id == PropertyType.shared_sub_avail
      then set_value s.shared_sub_avail decode_bool (λ v. record s { shared_sub_avail = v })
      else if prop_id == PropertyType.server_ka
      then set_value s.server_ka_sec decode_u16 (λ v. record s { server_ka_sec = v })
      else if prop_id == PropertyType.resp_info
      then set_value s.response_info (decode_string utf8) (λ v. record s { response_info = v })
      else if prop_id == PropertyType.server_ref
      then set_value s.server_reference (decode_string utf8)
          (λ v. record s { server_reference = v })
      else if prop_id == PropertyType.auth_method
      then set_value s.auth_method (decode_string utf8) (λ v. record s { auth_method = v })
      else if prop_id == PropertyType.auth_data
      then set_value s.auth_data decode_bytes (λ v. record s { auth_data = v })
      else unknown_property

  unfoldable pub decode_connect_ack : Reader ConnectAck
  decode_connect_ack = do
    n ← remaining
    ensure (leb 2 n) invalid_length
    flags ← get_u8
    ensure (bit_and flags connect_ack_reserved_bits == 0) conn_ack_reserved_flag_set
    code ← get_u8
    reason_code ← lift (try_from connect_ack_codes code)
    props ← to_the_end (read_properties connect_ack_handler no_connect_ack_properties)
    pure (record {
      session_present = contains flags session_present_flag;
      reason_code = reason_code;
      session_expiry_interval_secs = props.session_expiry_interval_secs;
      receive_max = unwrap_or props.receive_max receive_max_default;
      max_qos = unwrap_or props.max_qos exactly_once;
      max_packet_size = props.max_packet_size;
      assigned_client_id = props.assigned_client_id;
      topic_alias_max = unwrap_or props.topic_alias_max 0;
      retain_available = unwrap_or props.retain_available true;
      wildcard_subscription_available = unwrap_or props.wildcard_sub_avail true;
      subscription_identifiers_available = unwrap_or props.sub_ids_avail true;
      shared_subscription_available = unwrap_or props.shared_sub_avail true;
      server_keepalive_sec = props.server_ka_sec;
      response_info = props.response_info;
      server_reference = props.server_reference;
      auth_method = props.auth_method;
      auth_data = props.auth_data;
      reason_string = props.reason_string;
      user_properties = props.user_properties;
    })
