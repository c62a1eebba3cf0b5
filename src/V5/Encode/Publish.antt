-- ===== src/V5/Encode/Publish.antt =====
-- PUBLISH (src/v5/codec/packet/publish.rs).
use mathlib.Core.Option.{Option, none, some}
use ntex_mqtt.Base.{ℕ, ◌+◌, ◌%◌, ◌^◌, false, List, [], ◌∷◌, if◌then◌else◌, length}
use ntex_mqtt.Wire.{
  malformed_packet, packet_id_required, Writer, ◌then_write◌, put, fail, encode_u16, encode_bytes,
  encoded_size_bytes, write_variable_length,
}
use ntex_mqtt.Types.{QoS, is_at_most_once}
use ntex_mqtt.V5.PropertyType
use ntex_mqtt.V5.Lengths.{u32_sub, var_int_len, var_int_len_from_size}
use ntex_mqtt.V5.Packet.{Publish, PublishProperties}
use ntex_mqtt.V5.Property.Write.{
  bool_value, u16_value, u32_value, bytes_value, encoded_property_size, encode_property,
  encoded_property_size_default, encode_property_default, bool_eq, user_properties_size,
  encode_user_properties,
}

unfoldable pub subscription_ids_size : List ℕ → ℕ
subscription_ids_size [] = 0
subscription_ids_size (id ∷ ids) = 1 + var_int_len id + subscription_ids_size ids

abbrev pub publish_properties_len : PublishProperties → ℕ
publish_properties_len p =
    encoded_property_size u16_value p.topic_alias
    + encoded_property_size bytes_value p.correlation_data
    + encoded_property_size u32_value p.message_expiry_interval
    + encoded_property_size bytes_value p.content_type
    + encoded_property_size_default bool_eq bool_value p.is_utf8_payload false
    + encoded_property_size bytes_value p.response_topic
    + subscription_ids_size p.subscription_ids
    + user_properties_size p.user_properties

abbrev publish_properties_size : PublishProperties → ℕ
publish_properties_size p =
    let prop_len = publish_properties_len p in prop_len + var_int_len prop_len

unfoldable pub publish_size : Publish → ℕ
publish_size p =
    encoded_size_bytes p.topic
    + (if is_at_most_once p.qos then 0 else 2)
    + publish_properties_size p.properties
    + length p.payload

unfoldable pub encode_subscription_ids : List ℕ → Writer
encode_subscription_ids [] = put []
encode_subscription_ids (id ∷ ids) =
    put (PropertyType.sub_id ∷ [])
    then_write write_variable_length id
    then_write encode_subscription_ids ids

abbrev pub publish_properties : PublishProperties → Writer
publish_properties p =
    encode_property u16_value p.topic_alias PropertyType.topic_alias
    then_write encode_property bytes_value p.correlation_data PropertyType.corr_data
    then_write encode_property u32_value p.message_expiry_interval PropertyType.msg_expiry_int
    then_write encode_property bytes_value p.content_type PropertyType.content_type
    then_write encode_property_default bool_eq bool_value p.is_utf8_payload false
        PropertyType.utf8_payload
    then_write encode_property bytes_value p.response_topic PropertyType.resp_topic
    then_write encode_subscription_ids p.subscription_ids
    then_write encode_user_properties p.user_properties

unfoldable pub encode_publish_properties : PublishProperties → ℕ → Writer
encode_publish_properties p size =
    write_variable_length (var_int_len_from_size size) then_write publish_properties p

abbrev pub encode_publish_id : QoS → Option ℕ → Writer
encode_publish_id QoS.at_most_once none = put []
encode_publish_id QoS.at_most_once (some id) = fail malformed_packet
encode_publish_id qos none = fail packet_id_required
encode_publish_id qos (some id) = encode_u16 id

unfoldable pub encode_publish : Publish → ℕ → Writer
encode_publish p size =
    let start = encode_bytes p.topic then_write encode_publish_id p.qos p.packet_id in
    let written = (length start.bytes + length p.payload) % 2 ^ 32 in
    start
    then_write encode_publish_properties p.properties (u32_sub size written)
    then_write put p.payload
