-- ===== src/V5/Reasons/Acks.antt =====
-- The reason codes of acknowledgements, and the retain handling of a subscription
-- (src/v5/codec/packet/pubacks.rs, subscribe.rs).
use ntex_mqtt.Base.{ℕ, List, [], ◌∷◌}

pub data PublishAckReason : Type 0 where
  success no_matching_subscribers unspecified_error : PublishAckReason
  implementation_specific_error not_authorized topic_name_invalid : PublishAckReason
  packet_identifier_in_use quota_exceeded payload_format_invalid : PublishAckReason

unfoldable pub publish_ack_bits : PublishAckReason → ℕ
publish_ack_bits success = 0
publish_ack_bits no_matching_subscribers = 16
publish_ack_bits unspecified_error = 128
publish_ack_bits implementation_specific_error = 131
publish_ack_bits not_authorized = 135
publish_ack_bits topic_name_invalid = 144
publish_ack_bits packet_identifier_in_use = 145
publish_ack_bits quota_exceeded = 151
publish_ack_bits payload_format_invalid = 153

unfoldable pub publish_ack_codes : List (ℕ × PublishAckReason)
publish_ack_codes =
    (0, PublishAckReason.success)
    ∷ (16, PublishAckReason.no_matching_subscribers)
    ∷ (128, PublishAckReason.unspecified_error)
    ∷ (131, PublishAckReason.implementation_specific_error)
    ∷ (135, PublishAckReason.not_authorized)
    ∷ (144, PublishAckReason.topic_name_invalid)
    ∷ (145, PublishAckReason.packet_identifier_in_use)
    ∷ (151, PublishAckReason.quota_exceeded)
    ∷ (153, PublishAckReason.payload_format_invalid)
    ∷ []

pub data PublishAck2Reason : Type 0 where
  success packet_id_not_found : PublishAck2Reason

unfoldable pub publish_ack2_bits : PublishAck2Reason → ℕ
publish_ack2_bits success = 0
publish_ack2_bits packet_id_not_found = 146

unfoldable pub publish_ack2_codes : List (ℕ × PublishAck2Reason)
publish_ack2_codes =
    (0, PublishAck2Reason.success) ∷ (146, PublishAck2Reason.packet_id_not_found) ∷ []

pub data RetainHandling : Type 0 where
  at_subscribe at_subscribe_new no_at_subscribe : RetainHandling

unfoldable pub retain_handling_bits : RetainHandling → ℕ
retain_handling_bits at_subscribe = 0
retain_handling_bits at_subscribe_new = 1
retain_handling_bits no_at_subscribe = 2

unfoldable pub retain_handling_codes : List (ℕ × RetainHandling)
retain_handling_codes =
    (0, RetainHandling.at_subscribe)
    ∷ (1, RetainHandling.at_subscribe_new)
    ∷ (2, RetainHandling.no_at_subscribe)
    ∷ []

pub data SubscribeAckReason : Type 0 where
  granted_qos0 granted_qos1 granted_qos2 unspecified_error : SubscribeAckReason
  implementation_specific_error not_authorized topic_filter_invalid : SubscribeAckReason
  packet_identifier_in_use quota_exceeded : SubscribeAckReason
  shared_subscription_not_supported : SubscribeAckReason
  subscription_identifiers_not_supported : SubscribeAckReason
  wildcard_subscriptions_not_supported : SubscribeAckReason

unfoldable pub subscribe_ack_bits : SubscribeAckReason → ℕ
subscribe_ack_bits granted_qos0 = 0
subscribe_ack_bits granted_qos1 = 1
subscribe_ack_bits granted_qos2 = 2
subscribe_ack_bits unspecified_error = 128
subscribe_ack_bits implementation_specific_error = 131
subscribe_ack_bits not_authorized = 135
subscribe_ack_bits topic_filter_invalid = 143
subscribe_ack_bits packet_identifier_in_use = 145
subscribe_ack_bits quota_exceeded = 151
subscribe_ack_bits shared_subscription_not_supported = 158
subscribe_ack_bits subscription_identifiers_not_supported = 161
subscribe_ack_bits wildcard_subscriptions_not_supported = 162

unfoldable pub subscribe_ack_codes : List (ℕ × SubscribeAckReason)
subscribe_ack_codes =
    (0, SubscribeAckReason.granted_qos0)
    ∷ (1, SubscribeAckReason.granted_qos1)
    ∷ (2, SubscribeAckReason.granted_qos2)
    ∷ (128, SubscribeAckReason.unspecified_error)
    ∷ (131, SubscribeAckReason.implementation_specific_error)
    ∷ (135, SubscribeAckReason.not_authorized)
    ∷ (143, SubscribeAckReason.topic_filter_invalid)
    ∷ (145, SubscribeAckReason.packet_identifier_in_use)
    ∷ (151, SubscribeAckReason.quota_exceeded)
    ∷ (158, SubscribeAckReason.shared_subscription_not_supported)
    ∷ (161, SubscribeAckReason.subscription_identifiers_not_supported)
    ∷ (162, SubscribeAckReason.wildcard_subscriptions_not_supported)
    ∷ []

pub data UnsubscribeAckReason : Type 0 where
  success no_subscription_existed unspecified_error : UnsubscribeAckReason
  implementation_specific_error not_authorized topic_filter_invalid : UnsubscribeAckReason
  packet_identifier_in_use : UnsubscribeAckReason

unfoldable pub unsubscribe_ack_bits : UnsubscribeAckReason → ℕ
unsubscribe_ack_bits success = 0
unsubscribe_ack_bits no_subscription_existed = 17
unsubscribe_ack_bits unspecified_error = 128
unsubscribe_ack_bits implementation_specific_error = 131
unsubscribe_ack_bits not_authorized = 135
unsubscribe_ack_bits topic_filter_invalid = 143
unsubscribe_ack_bits packet_identifier_in_use = 145

unfoldable pub unsubscribe_ack_codes : List (ℕ × UnsubscribeAckReason)
unsubscribe_ack_codes =
    (0, UnsubscribeAckReason.success)
    ∷ (17, UnsubscribeAckReason.no_subscription_existed)
    ∷ (128, UnsubscribeAckReason.unspecified_error)
    ∷ (131, UnsubscribeAckReason.implementation_specific_error)
    ∷ (135, UnsubscribeAckReason.not_authorized)
    ∷ (143, UnsubscribeAckReason.topic_filter_invalid)
    ∷ (145, UnsubscribeAckReason.packet_identifier_in_use)
    ∷ []
