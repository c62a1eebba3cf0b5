-- ===== src/V5/Decode/Subscribe.antt =====
-- SUBSCRIBE and UNSUBSCRIBE (src/v5/codec/packet/subscribe.rs).
use mathlib.Core.Option.{Option, none}
use ntex_mqtt.Base.{ℕ, ◌/◌, Bool, not, List, [], ◌==◌, if◌then◌else◌, bit_and}
use ntex_mqtt.Wire.{Reader, ◌>>=◌, pure, decode_nonzero_u16, decode_string}
use ntex_mqtt.Wire.Readers.{lift, next_byte, read_all}
use ntex_mqtt.Types.{qos_from}
use ntex_mqtt.V5.PropertyType
use ntex_mqtt.V5.Packet.{UserProperties, ByteString, SubscriptionOptions, Subscribe, Unsubscribe}
use ntex_mqtt.V5.Property.{
  set_value, push_property, decode_subscription_id, unknown_property, read_properties,
}
use ntex_mqtt.V5.Reasons.{try_from}
use ntex_mqtt.V5.Reasons.Acks.{retain_handling_codes}

pub record SubscribeProperties : Type 0 where
  pub sub_id : Option ℕ
  pub user_properties : UserProperties

abbrev pub no_subscribe_properties : SubscribeProperties
no_subscribe_properties = record { sub_id = none; user_properties = [] }

-- `Decode for SubscriptionOptions`.
unfoldable pub decode_options : Reader SubscriptionOptions
decode_options = do
  val ← next_byte
  qos ← lift (qos_from (bit_and val 0b0000_0011))
  retain_handling ← lift (try_from retain_handling_codes (bit_and val 0b0011_0000 / 16))
  pure (record {
    qos = qos;
    no_local = not (bit_and val 0b0000_0100 == 0);
    retain_as_published = not (bit_and val 0b0000_1000 == 0);
    retain_handling = retain_handling;
  })

module _ (utf8 : List ℕ → Bool) where
  unfoldable pub subscribe_handler : ℕ → SubscribeProperties → Reader SubscribeProperties
  subscribe_handler prop_id s =
      if prop_id == PropertyType.sub_id
      then set_value s.sub_id decode_subscription_id (λ v. record s { sub_id = v })
      else if prop_id == PropertyType.user
      then push_property utf8 s.user_properties (λ ps. record s { user_properties = ps })
      else unknown_property

  unfoldable pub unsubscribe_handler : ℕ → UserProperties → Reader UserProperties
  unsubscribe_handler prop_id s =
      if prop_id == PropertyType.user then push_property utf8 s (λ ps. ps) else unknown_property

  -- The body of the loop over the topic filters of SUBSCRIBE.
  unfoldable pub decode_filter : Reader (ByteString × SubscriptionOptions)
  decode_filter = do topic ← decode_string utf8; opts ← decode_options; pure (topic, opts)

  unfoldable pub decode_subscribe : Reader Subscribe
  decode_subscribe = do
    packet_id ← decode_nonzero_u16
    props ← read_properties subscribe_handler no_subscribe_properties
    topic_filters ← read_all decode_filter
    pure (record {
      packet_id = packet_id;
      id = props.sub_id;
      user_properties = props.user_properties;
      topic_filters = topic_filters;
    })

  unfoldable pub decode_unsubscribe : Reader Unsubscribe
  decode_unsubscribe = do
    packet_id ← decode_nonzero_u16
    user_properties ← read_properties unsubscribe_handler []
    topic_filters ← read_all (decode_string utf8)
    pure (record {
      packet_id = packet_id;
      user_properties = user_properties;
      topic_filters = topic_filters;
    })
