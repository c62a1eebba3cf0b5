-- ===== src/V5/Decode/Connect.antt =====
-- CONNECT (src/v5/codec/packet/connect.rs).
use mathlib.Core.Option.{Option, none}
use ntex_mqtt.Base.{
  ℕ, ◌/◌, Bool, true, false, not, ◌&&◌, ◌||◌, List, [], leb, ◌==◌, if◌then◌else◌, is_empty,
  bytes_eq, bit_and,
}
use ntex_mqtt.Wire.{
  invalid_protocol, invalid_length, unsupported_protocol_level, connect_reserved_flag_set,
  invalid_client_id, Reader, ◌>>=◌, ◌>>◌, pure, ensure, remaining, get_u8, get_u16, split_to,
  decode_bool, decode_u16, decode_u32, decode_nonzero_u16, decode_nonzero_u32, decode_bytes,
  decode_string,
}
use ntex_mqtt.Wire.Readers.{lift, when_set}
use ntex_mqtt.Types.{
  qos_from, mqtt, mqtt_level_5, contains, username_flag, password_flag, will_retain_flag,
  will_qos_flag, will_flag, clean_start_flag, connect_reserved_bits,
}
use ntex_mqtt.V5.PropertyType
use ntex_mqtt.V5.Packet.{UserProperties, ByteString, Connect, LastWill}
use ntex_mqtt.V5.Property.{set_value, push_property, unknown_property, read_properties, unwrap_or}

pub record ConnectProperties : Type 0 where
  pub session_expiry_interval_secs : Option ℕ
  pub auth_method : Option ByteString
  pub auth_data : Option (List ℕ)
  pub request_problem_info : Option Bool
  pub request_response_info : Option Bool
  pub receive_max : Option ℕ
  pub topic_alias_max : Option ℕ
  pub user_properties : UserProperties
  pub max_packet_size : Option ℕ

abbrev pub no_connect_properties : ConnectProperties
no_connect_properties = record {
  session_expiry_interval_secs = none;
  auth_method = none;
  auth_data = none;
  request_problem_info = none;
  request_response_info = none;
  receive_max = none;
  topic_alias_max = none;
  user_properties = [];
  max_packet_size = none;
}

pub record WillProperties : Type 0 where
  pub will_delay_interval_sec : Option ℕ
  pub correlation_data : Option (List ℕ)
  pub message_expiry_interval : Option ℕ
  pub content_type : Option ByteString
  pub is_utf8_payload : Option Bool
  pub response_topic : Option ByteString
  pub user_properties : UserProperties

abbrev pub no_will_properties : WillProperties
no_will_properties = record {
  will_delay_interval_sec = none;
  correlation_data = none;
  message_expiry_interval = none;
  content_type = none;
  is_utf8_payload = none;
  response_topic = none;
  user_properties = [];
}

module _ (utf8 : List ℕ → Bool) where
  unfoldable pub connect_handler : ℕ → ConnectProperties → Reader ConnectProperties
  connect_handler prop_id s =
      if prop_id == PropertyType.sess_expiry_int
      then set_value s.session_expiry_interval_secs decode_u32
          (λ v. record s { session_expiry_interval_secs = v })
      else if prop_id == PropertyType.auth_method
      then set_value s.auth_method (decode_string utf8) (λ v. record s { auth_method = v })
      else if prop_id == PropertyType.auth_data
      then set_value s.auth_data decode_bytes (λ v. record s { auth_data = v })
      else if prop_id == PropertyType.req_prob_info
      then set_value s.request_problem_info decode_bool (λ v. record s { request_problem_info = v })
      else if prop_id == PropertyType.req_resp_info
      then set_value s.request_response_info decode_bool
          (λ v. record s { request_response_info = v })
      else if prop_id == PropertyType.receive_max
      then set_value s.receive_max decode_nonzero_u16 (λ v. record s { receive_max = v })
      else if prop_id == PropertyType.topic_alias_max
      then set_value s.topic_alias_max decode_u16 (λ v. record s { topic_alias_max = v })
      else if prop_id == PropertyType.user
      then push_property utf8 s.user_properties (λ ps. record s { user_properties = ps })
      else if prop_id == PropertyType.max_packet_size
      then set_value s.max_packet_size decode_nonzero_u32 (λ v. record s { max_packet_size = v })
      else unknown_property

  unfoldable pub will_handler : ℕ → WillProperties → Reader WillProperties
  will_handler prop_id s =
      if prop_id == PropertyType.will_delay_int
      then set_value s.will_delay_interval_sec decode_u32
          (λ v. record s { will_delay_interval_sec = v })
      else if prop_id == PropertyType.corr_data
      then set_value s.correlation_data decode_bytes (λ v. record s { correlation_data = v })
      else if prop_id == PropertyType.msg_expiry_int
      then set_value s.message_expiry_interval decode_nonzero_u32
          (λ v. record s { message_expiry_interval = v })
      else if prop_id == PropertyType.content_type
      then set_value s.content_type (decode_string utf8) (λ v. record s { content_type = v })
      else if prop_id == PropertyType.utf8_payload
      then set_value s.is_utf8_payload decode_bool (λ v. record s { is_utf8_payload = v })
      else if prop_id == PropertyType.resp_topic
      then set_value s.response_topic (decode_string utf8) (λ v. record s { response_topic = v })
      else if prop_id == PropertyType.user
      then push_property utf8 s.user_properties (λ ps. record s { user_properties = ps })
      else unknown_property

  unfoldable pub decode_last_will : ℕ → Reader LastWill
  decode_last_will flags = do
    props ← read_properties will_handler no_will_properties
    topic ← decode_string utf8
    message ← decode_bytes
    qos ← lift (qos_from (bit_and flags will_qos_flag / 8))
    pure (record {
      qos = qos;
      retain = contains flags will_retain_flag;
      topic = topic;
      message = message;
      will_delay_interval_sec = props.will_delay_interval_sec;
      correlation_data = props.correlation_data;
      message_expiry_interval = props.message_expiry_interval;
      content_type = props.content_type;
      user_properties = props.user_properties;
      is_utf8_payload = props.is_utf8_payload;
      response_topic = props.response_topic;
    })

  -- What `Connect::decode` reads after the keep-alive time.
  unfoldable pub decode_connect_fields : ℕ → ℕ → Reader Connect
  decode_connect_fields flags keep_alive = do
    props ← read_properties connect_handler no_connect_properties
    client_id ← decode_string utf8
    ensure (not (is_empty client_id) || contains flags clean_start_flag) invalid_client_id
    last_will ← when_set (contains flags will_flag) (decode_last_will flags)
    username ← when_set (contains flags username_flag) (decode_string utf8)
    password ← when_set (contains flags password_flag) decode_bytes
    pure (record {
      clean_start = contains flags clean_start_flag;
      keep_alive = keep_alive;
      session_expiry_interval_secs = unwrap_or props.session_expiry_interval_secs 0;
      auth_method = props.auth_method;
      auth_data = props.auth_data;
      request_problem_info = unwrap_or props.request_problem_info true;
      request_response_info = unwrap_or props.request_response_info false;
      receive_max = props.receive_max;
      topic_alias_max = unwrap_or props.topic_alias_max 0;
      user_properties = props.user_properties;
      max_packet_size = props.max_packet_size;
      last_will = last_will;
      client_id = client_id;
      username = username;
      password = password;
    })

  unfoldable pub decode_connect : Reader Connect
  decode_connect = do
    n ← remaining
    ensure (leb 10 n) invalid_length
    len ← get_u16
    name ← split_to 4
    ensure (len == 4 && bytes_eq name mqtt) invalid_protocol
    level ← get_u8
    ensure (level == mqtt_level_5) unsupported_protocol_level
    flags ← get_u8
    ensure (bit_and flags connect_reserved_bits == 0) connect_reserved_flag_set
    keep_alive ← get_u16
    decode_connect_fields flags keep_alive
