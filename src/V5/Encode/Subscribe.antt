-- ===== src/V5/Encode/Subscribe.antt =====
-- SUBSCRIBE and UNSUBSCRIBE (src/v5/codec/packet/subscribe.rs).
use mathlib.Core.Option.{Option, none, some}
use ntex_mqtt.Base.{ℕ, ◌+◌, ◌*◌, ◌%◌, ◌^◌, List, [], ◌∷◌, length, bit_or}
use ntex_mqtt.Wire.{
  Writer, ◌then_write◌, put, encode_u16, encode_bytes, encoded_size_bytes, write_variable_length,
}
use ntex_mqtt.Types.{qos_bits}
use ntex_mqtt.Types.Flags.{bool_bit}
use ntex_mqtt.V5.PropertyType
use ntex_mqtt.V5.Lengths.{var_int_len}
use ntex_mqtt.V5.Packet.{ByteString, SubscriptionOptions, Subscribe, Unsubscribe}
use ntex_mqtt.V5.Property.Write.{encode_all, user_properties_size, encode_user_properties}
use ntex_mqtt.V5.Reasons.Acks.{retain_handling_bits}

abbrev pub subscription_id_size : Option ℕ → ℕ
subscription_id_size none = 0
subscription_id_size (some id) = 1 + var_int_len id

abbrev pub subscribe_properties_len : Subscribe → ℕ
subscribe_properties_len s = subscription_id_size s.id + user_properties_size s.user_properties

unfoldable pub fold_filters : ℕ → List (ByteString × SubscriptionOptions) → ℕ
fold_filters acc [] = acc
fold_filters acc ((filter, opts) ∷ rest) = fold_filters (acc + encoded_size_bytes filter + 1) rest

unfoldable pub subscribe_size : Subscribe → ℕ
unfolding fold_filters
subscribe_size s =
    let prop_len = subscribe_properties_len s in
    2 + var_int_len prop_len + prop_len + fold_filters 0 s.topic_filters

-- `Encode for SubscriptionOptions`.
abbrev pub options_byte : SubscriptionOptions → ℕ
options_byte o =
    bit_or
      (bit_or (bit_or (qos_bits o.qos) (bool_bit o.no_local * 2 ^ 2))
        (bool_bit o.retain_as_published * 2 ^ 3))
      (retain_handling_bits o.retain_handling * 2 ^ 4)

abbrev pub encode_subscription_id : Option ℕ → Writer
encode_subscription_id none = put []
encode_subscription_id (some id) =
    put (PropertyType.sub_id ∷ []) then_write write_variable_length id

abbrev pub encode_filter : ByteString × SubscriptionOptions → Writer
encode_filter (filter, opts) = encode_bytes filter then_write put (options_byte opts ∷ [])

unfoldable pub encode_subscribe : Subscribe → Writer
encode_subscribe s =
    encode_u16 s.packet_id
    then_write write_variable_length (subscribe_properties_len s % 2 ^ 32)
    then_write encode_subscription_id s.id
    then_write encode_user_properties s.user_properties
    then_write encode_all encode_filter s.topic_filters

unfoldable pub fold_topics : ℕ → List ByteString → ℕ
fold_topics acc [] = acc
fold_topics acc (filter ∷ rest) = fold_topics (acc + 2 + length filter) rest

unfoldable pub unsubscribe_size : Unsubscribe → ℕ
unfolding fold_topics
unsubscribe_size u =
    let prop_len = user_properties_size u.user_properties in
    2 + var_int_len prop_len + prop_len + fold_topics 0 u.topic_filters

unfoldable pub encode_unsubscribe : Unsubscribe → Writer
encode_unsubscribe u =
    encode_u16 u.packet_id
    then_write write_variable_length (user_properties_size u.user_properties % 2 ^ 32)
    then_write encode_user_properties u.user_properties
    then_write encode_all encode_bytes u.topic_filters
