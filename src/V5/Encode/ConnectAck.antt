-- ===== src/V5/Encode/ConnectAck.antt =====
-- CONNACK (src/v5/codec/packet/connack.rs).
use ntex_mqtt.Base.{ℕ, ◌+◌, Bool, true, false, [], ◌∷◌, ltb, ◌==◌, if◌then◌else◌}
use ntex_mqtt.Wire.{Writer, ◌then_write◌, put, write_variable_length}
use ntex_mqtt.Types.{QoS, qos_bits}
use ntex_mqtt.Types.Flags.{bool_bit}
use ntex_mqtt.V5.PropertyType
use ntex_mqtt.V5.Lengths.{u32_sub, var_int_len_from_size}
use ntex_mqtt.V5.Packet.{ConnectAck, receive_max_default}
use ntex_mqtt.V5.Property.Write.{
  bool_value, u16_value, u32_value, bytes_value, encoded_property_size, encode_property,
  encoded_property_size_default, encode_property_default, bool_eq,
}
use ntex_mqtt.V5.Encode.Session.{limited_size, with_opt_props}
use ntex_mqtt.V5.Reasons.Session.{connect_ack_bits}

-- `max_qos < QoS::ExactlyOnce`.
abbrev pub below_exactly_once : QoS → Bool
below_exactly_once QoS.exactly_once = false
below_exactly_once _ = true

abbrev pub connect_ack_fixed_size : ConnectAck → ℕ
connect_ack_fixed_size a =
    encoded_property_size u32_value a.session_expiry_interval_secs
    + encoded_property_size_default ◌==◌ u16_value a.receive_max receive_max_default
    + (if below_exactly_once a.max_qos then 2 else 0)
    + encoded_property_size u32_value a.max_packet_size
    + encoded_property_size bytes_value a.assigned_client_id
    + encoded_property_size_default bool_eq bool_value a.retain_available true
    + encoded_property_size_default bool_eq bool_value a.wildcard_subscription_available true
    + encoded_property_size_default bool_eq bool_value a.subscription_identifiers_available true
    + encoded_property_size_default bool_eq bool_value a.shared_subscription_available true
    + encoded_property_size u16_value a.server_keepalive_sec
    + encoded_property_size bytes_value a.response_info
    + encoded_property_size bytes_value a.server_reference
    + encoded_property_size bytes_value a.auth_method
    + encoded_property_size bytes_value a.auth_data
    + (if ltb 0 a.topic_alias_max then 3 else 0)

unfoldable pub connect_ack_size : ConnectAck → ℕ → ℕ
connect_ack_size a limit =
    limited_size 2 (connect_ack_fixed_size a) a.user_properties a.reason_string limit

abbrev pub connect_ack_properties : ConnectAck → Writer
connect_ack_properties a =
    encode_property u32_value a.session_expiry_interval_secs PropertyType.sess_expiry_int
    then_write encode_property_default ◌==◌ u16_value a.receive_max receive_max_default
        PropertyType.receive_max
    then_write (if below_exactly_once a.max_qos
        then put (PropertyType.max_qos ∷ qos_bits a.max_qos ∷ [])
        else put [])
    then_write encode_property_default bool_eq bool_value a.retain_available true
        PropertyType.retain_avail
    then_write encode_property u32_value a.max_packet_size PropertyType.max_packet_size
    then_write encode_property bytes_value a.assigned_client_id PropertyType.assnd_client_id
    then_write encode_property_default ◌==◌ u16_value a.topic_alias_max 0
        PropertyType.topic_alias_max
    then_write encode_property_default bool_eq bool_value a.wildcard_subscription_available true
        PropertyType.wildcard_sub_avail
    then_write encode_property_default bool_eq bool_value a.subscription_identifiers_available true
        PropertyType.sub_ids_avail
    then_write encode_property_default bool_eq bool_value a.shared_subscription_available true
        PropertyType.shared_sub_avail
    then_write encode_property u16_value a.server_keepalive_sec PropertyType.server_ka
    then_write encode_property bytes_value a.response_info PropertyType.resp_info
    then_write encode_property bytes_value a.server_reference PropertyType.server_ref
    then_write encode_property bytes_value a.auth_method PropertyType.auth_method
    then_write encode_property bytes_value a.auth_data PropertyType.auth_data

unfoldable pub encode_connect_ack : ConnectAck → ℕ → Writer
encode_connect_ack a size =
    with_opt_props
      (put (bool_bit a.session_present ∷ connect_ack_bits a.reason_code ∷ [])
        then_write write_variable_length (var_int_len_from_size (u32_sub size 2))
        then_write connect_ack_properties a)
      a.user_properties a.reason_string size
