-- ===== src/V5/Decode/Publish.antt =====
-- PUBLISH (src/v5/codec/packet/publish.rs).
use mathlib.Core.Option.{Option, none}
use ntex_mqtt.Base.{ℕ, ◌/◌, Bool, false, not, List, [], ◌==◌, if◌then◌else◌, bit_and}
use ntex_mqtt.Wire.{
  Reader, ◌>>=◌, pure, decode_bool, decode_nonzero_u16, decode_nonzero_u32, decode_bytes,
  decode_string,
}
use ntex_mqtt.Wire.Readers.{lift, take_rest, when_set}
use ntex_mqtt.Types.{qos_from, is_at_most_once}
use ntex_mqtt.V5.PropertyType
use ntex_mqtt.V5.Packet.{UserProperties, ByteString, Publish, PublishProperties}
use ntex_mqtt.V5.Property.{
  set_value, push_property, push_subscription_id, unknown_property, read_properties, unwrap_or,
}

pub record ReadPublishProperties : Type 0 where
  pub is_utf8_payload : Option Bool
  pub message_expiry_interval : Option ℕ
  pub content_type : Option ByteString
  pub response_topic : Option ByteString
  pub correlation_data : Option (List ℕ)
  pub subscription_ids : List ℕ
  pub topic_alias : Option ℕ
  pub user_props : UserProperties

abbrev pub no_publish_properties : ReadPublishProperties
no_publish_properties = record {
  is_utf8_payload = none;
  message_expiry_interval = none;
  content_type = none;
  response_topic = none;
  correlation_data = none;
  subscription_ids = [];
  topic_alias = none;
  user_props = [];
}

module _ (utf8 : List ℕ → Bool) where
  unfoldable pub publish_handler : ℕ → ReadPublishProperties → Reader ReadPublishProperties
  publish_handler prop_id s =
      if prop_id == PropertyType.utf8_payload
      then set_value s.is_utf8_payload decode_bool (λ v. record s { is_utf8_payload = v })
      else if prop_id == PropertyType.msg_expiry_int
      then set_value s.message_expiry_interval decode_nonzero_u32
          (λ v. record s { message_expiry_interval = v })
      else if prop_id == PropertyType.content_type
      then set_value s.content_type (decode_string utf8) (λ v. record s { content_type = v })
      else if prop_id == PropertyType.resp_topic
      then set_value s.response_topic (decode_string utf8) (λ v. record s { response_topic = v })
      else if prop_id == PropertyType.corr_data
      then set_value s.correlation_data decode_bytes (λ v. record s { correlation_data = v })
      else if prop_id == PropertyType.sub_id
      then push_subscription_id s.subscription_ids (λ ids. record s { subscription_ids = ids })
      else if prop_id == PropertyType.topic_alias
      then set_value s.topic_alias decode_nonzero_u16 (λ v. record s { topic_alias = v })
      else if prop_id == PropertyType.user
      then push_property utf8 s.user_props (λ ps. record s { user_props = ps })
      else unknown_property

  unfoldable pub parse_publish_properties : Reader PublishProperties
  parse_publish_properties = do
    props ← read_properties publish_handler no_publish_properties
    pure (record {
      topic_alias = props.topic_alias;
      correlation_data = props.correlation_data;
      message_expiry_interval = props.message_expiry_interval;
      content_type = props.content_type;
      user_properties = props.user_props;
      is_utf8_payload = unwrap_or props.is_utf8_payload false;
      response_topic = props.response_topic;
      subscription_ids = props.subscription_ids;
    })

  unfoldable pub decode_publish : ℕ → Reader Publish
  decode_publish packet_flags = do
    topic ← decode_string utf8
    qos ← lift (qos_from (bit_and packet_flags 0b0110 / 2))
    packet_id ← when_set (not (is_at_most_once qos)) decode_nonzero_u16
    properties ← parse_publish_properties
    payload ← take_rest
    pure (record {
      dup = bit_and packet_flags 0b1000 == 0b1000;
      retain = bit_and packet_flags 0b0001 == 0b0001;
      qos = qos;
      packet_id = packet_id;
      topic = topic;
      payload = payload;
      properties = properties;
    })
