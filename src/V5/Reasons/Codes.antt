-- ===== src/V5/Reasons/Codes.antt =====
-- The reason codes against their bytes (src/v5/codec/packet).
use ntex_mqtt.Base.{◌≡◌, ok, arith}
use ntex_mqtt.V5.Reasons.{try_from}
use ntex_mqtt.V5.Reasons.Session.{
  AuthReasonCode, auth_bits, auth_codes, ConnectAckReason, connect_ack_bits, connect_ack_codes,
  DisconnectReasonCode, disconnect_bits, disconnect_codes,
}
use ntex_mqtt.V5.Reasons.Acks.{
  PublishAckReason, publish_ack_bits, publish_ack_codes, PublishAck2Reason, publish_ack2_bits,
  publish_ack2_codes, SubscribeAckReason, subscribe_ack_bits, subscribe_ack_codes,
  UnsubscribeAckReason, unsubscribe_ack_bits, unsubscribe_ack_codes,
}

pub try_from-auth_bits : (r : AuthReasonCode) → try_from auth_codes (auth_bits r) ≡ ok r
unfolding auth_bits auth_codes
try_from-auth_bits r = ground arith

pub try_from-connect_ack_bits :
    (r : ConnectAckReason) → try_from connect_ack_codes (connect_ack_bits r) ≡ ok r
unfolding connect_ack_bits connect_ack_codes
try_from-connect_ack_bits r = ground arith

pub try_from-disconnect_bits :
    (r : DisconnectReasonCode) → try_from disconnect_codes (disconnect_bits r) ≡ ok r
unfolding disconnect_bits disconnect_codes
try_from-disconnect_bits r = ground arith

pub try_from-publish_ack_bits :
    (r : PublishAckReason) → try_from publish_ack_codes (publish_ack_bits r) ≡ ok r
unfolding publish_ack_bits publish_ack_codes
try_from-publish_ack_bits r = ground arith

pub try_from-publish_ack2_bits :
    (r : PublishAck2Reason) → try_from publish_ack2_codes (publish_ack2_bits r) ≡ ok r
unfolding publish_ack2_bits publish_ack2_codes
try_from-publish_ack2_bits r = ground arith

pub try_from-subscribe_ack_bits :
    (r : SubscribeAckReason) → try_from subscribe_ack_codes (subscribe_ack_bits r) ≡ ok r
unfolding subscribe_ack_bits subscribe_ack_codes
try_from-subscribe_ack_bits r = ground arith

pub try_from-unsubscribe_ack_bits :
    (r : UnsubscribeAckReason) → try_from unsubscribe_ack_codes (unsubscribe_ack_bits r) ≡ ok r
unfolding unsubscribe_ack_bits unsubscribe_ack_codes
try_from-unsubscribe_ack_bits r = ground arith
