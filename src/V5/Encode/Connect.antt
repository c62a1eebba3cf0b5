-- ===== src/V5/Encode/Connect.antt =====
-- CONNECT (src/v5/codec/packet/connect.rs).
use mathlib.Core.Option.{Option, none, some}
use ntex_mqtt.Base.{ℕ, ◌+◌, ◌%◌, ◌^◌, true, false, List, [], ◌∷◌, ◌==◌, is_some}
use ntex_mqtt.Wire.{
  Writer, ◌then_write◌, put, encode_u16, encode_bytes, encoded_size_bytes, write_variable_length,
}
use ntex_mqtt.Types.{mqtt, mqtt_level_5}
use ntex_mqtt.Types.Flags.{flags_of, will_bits}
use ntex_mqtt.V5.PropertyType
use ntex_mqtt.V5.Lengths.{var_int_len}
use ntex_mqtt.V5.Packet.{Connect, LastWill}
use ntex_mqtt.V5.Property.Write.{
  bool_value, u16_value, u32_value, bytes_value, encoded_property_size, encode_property,
  encoded_property_size_default, encode_property_default, bool_eq, user_properties_size,
  encode_user_properties,
}

-- `LastWill::properties_len` and `Connect::properties_len`.
abbrev pub will_properties_len : LastWill → ℕ
will_properties_len w =
    encoded_property_size u32_value w.will_delay_interval_sec
    + encoded_property_size bytes_value w.correlation_data
    + encoded_property_size u32_value w.message_expiry_interval
    + encoded_property_size bytes_value w.content_type
    + encoded_property_size bool_value w.is_utf8_payload
    + encoded_property_size bytes_value w.response_topic
    + user_properties_size w.user_properties

abbrev pub connect_properties_len : Connect → ℕ
connect_properties_len c =
    encoded_property_size bytes_value c.auth_method
    + encoded_property_size bytes_value c.auth_data
    + encoded_property_size_default ◌==◌ u32_value c.session_expiry_interval_secs 0
    + encoded_property_size_default bool_eq bool_value c.request_problem_info true
    + encoded_property_size_default bool_eq bool_value c.request_response_info false
    + encoded_property_size u16_value c.receive_max
    + encoded_property_size u32_value c.max_packet_size
    + encoded_property_size_default ◌==◌ u16_value c.topic_alias_max 0
    + user_properties_size c.user_properties

abbrev pub will_size : Option LastWill → ℕ
will_size none = 0
will_size (some w) =
    let prop_len = will_properties_len w in
    var_int_len prop_len + prop_len + encoded_size_bytes w.topic + encoded_size_bytes w.message

-- `encoded_size` of an `Option`.
abbrev pub optional_size : Option (List ℕ) → ℕ
optional_size none = 0
optional_size (some v) = encoded_size_bytes v

unfoldable pub connect_size : Connect → ℕ
connect_size c =
    let prop_len = connect_properties_len c in
    6
    + 1
    + 1
    + 2
    + var_int_len prop_len
    + prop_len
    + encoded_size_bytes c.client_id
    + will_size c.last_will
    + optional_size c.username
    + optional_size c.password

-- The flags of the last will: `from_bits_truncate(b << WILL_QOS_SHIFT)` keeps all bits of a `QoS`.
abbrev pub last_will_flags : Option LastWill → ℕ
last_will_flags none = 0
last_will_flags (some w) = will_bits w.retain w.qos

abbrev pub connect_flags : Connect → ℕ
connect_flags c =
    flags_of (is_some c.username) (is_some c.password) (last_will_flags c.last_will) c.clean_start

abbrev pub connect_properties : Connect → Writer
connect_properties c =
    encode_property_default ◌==◌ u32_value c.session_expiry_interval_secs 0
      PropertyType.sess_expiry_int
    then_write encode_property bytes_value c.auth_method PropertyType.auth_method
    then_write encode_property bytes_value c.auth_data PropertyType.auth_data
    then_write encode_property_default bool_eq bool_value c.request_problem_info true
        PropertyType.req_prob_info
    then_write encode_property_default bool_eq bool_value c.request_response_info false
        PropertyType.req_resp_info
    then_write encode_property u16_value c.receive_max PropertyType.receive_max
    then_write encode_property u32_value c.max_packet_size PropertyType.max_packet_size
    then_write encode_property_default ◌==◌ u16_value c.topic_alias_max 0
        PropertyType.topic_alias_max
    then_write encode_user_properties c.user_properties

abbrev pub will_properties : LastWill → Writer
will_properties w =
    encode_property u32_value w.will_delay_interval_sec PropertyType.will_delay_int
    then_write encode_property bool_value w.is_utf8_payload PropertyType.utf8_payload
    then_write encode_property u32_value w.message_expiry_interval PropertyType.msg_expiry_int
    then_write encode_property bytes_value w.content_type PropertyType.content_type
    then_write encode_property bytes_value w.response_topic PropertyType.resp_topic
    then_write encode_property bytes_value w.correlation_data PropertyType.corr_data
    then_write encode_user_properties w.user_properties

abbrev pub encode_last_will : Option LastWill → Writer
encode_last_will none = put []
encode_last_will (some w) =
    write_variable_length (will_properties_len w % 2 ^ 32)
    then_write will_properties w
    then_write encode_bytes w.topic
    then_write encode_bytes w.message

abbrev pub encode_optional : Option (List ℕ) → Writer
encode_optional none = put []
encode_optional (some s) = encode_bytes s

-- What `Connect::encode` writes after the keep-alive time.
unfoldable pub encode_connect_fields : Connect → Writer
encode_connect_fields c =
    write_variable_length (connect_properties_len c % 2 ^ 32)
    then_write connect_properties c
    then_write encode_bytes c.client_id
    then_write encode_last_will c.last_will
    then_write encode_optional c.username
    then_write encode_optional c.password

unfoldable pub encode_connect : Connect → Writer
encode_connect c =
    encode_bytes mqtt
    then_write put (mqtt_level_5 ∷ connect_flags c ∷ [])
    then_write encode_u16 c.keep_alive
    then_write encode_connect_fields c
