-- ===== src/V5/Packet.antt =====
-- The packets of MQTT 5 (src/v5/codec/packet).
-- A `ByteString` and a `Bytes` are lists of bytes, the non-zero integers are numbers.
use mathlib.Core.Option.{Option, none}
use ntex_mqtt.Base.{ℕ, Bool, List, []}
use ntex_mqtt.Types
use ntex_mqtt.Types.{QoS}
use ntex_mqtt.V5.Reasons.Session.{AuthReasonCode, ConnectAckReason, DisconnectReasonCode}
use ntex_mqtt.V5.Reasons.Acks.{
  PublishAckReason, PublishAck2Reason, RetainHandling, SubscribeAckReason, UnsubscribeAckReason,
}

abbrev pub ByteString : Type 0
ByteString = List ℕ

abbrev pub UserProperty : Type 0
UserProperty = ByteString × ByteString

abbrev pub UserProperties : Type 0
UserProperties = List UserProperty

-- `RECEIVE_MAX_DEFAULT`.
abbrev pub receive_max_default : ℕ
receive_max_default = 65_535

pub record LastWill : Type 0 where
  pub qos : QoS
  pub retain : Bool
  pub topic : ByteString
  pub message : List ℕ
  pub will_delay_interval_sec : Option ℕ
  pub correlation_data : Option (List ℕ)
  pub message_expiry_interval : Option ℕ
  pub content_type : Option ByteString
  pub user_properties : UserProperties
  pub is_utf8_payload : Option Bool
  pub response_topic : Option ByteString

pub record Connect : Type 0 where
  pub clean_start : Bool
  pub keep_alive : ℕ
  pub session_expiry_interval_secs : ℕ
  pub auth_method : Option ByteString
  pub auth_data : Option (List ℕ)
  pub request_problem_info : Bool
  pub request_response_info : Bool
  pub receive_max : Option ℕ
  pub topic_alias_max : ℕ
  pub user_properties : UserProperties
  pub max_packet_size : Option ℕ
  pub last_will : Option LastWill
  pub client_id : ByteString
  pub username : Option ByteString
  pub password : Option (List ℕ)

pub record ConnectAck : Type 0 where
  pub session_present : Bool
  pub reason_code : ConnectAckReason
  pub session_expiry_interval_secs : Option ℕ
  pub receive_max : ℕ
  pub max_qos : QoS
  pub max_packet_size : Option ℕ
  pub assigned_client_id : Option ByteString
  pub topic_alias_max : ℕ
  pub retain_available : Bool
  pub wildcard_subscription_available : Bool
  pub subscription_identifiers_available : Bool
  pub shared_subscription_available : Bool
  pub server_keepalive_sec : Option ℕ
  pub response_info : Option ByteString
  pub server_reference : Option ByteString
  pub auth_method : Option ByteString
  pub auth_data : Option (List ℕ)
  pub reason_string : Option ByteString
  pub user_properties : UserProperties

pub record PublishProperties : Type 0 where
  pub topic_alias : Option ℕ
  pub correlation_data : Option (List ℕ)
  pub message_expiry_interval : Option ℕ
  pub content_type : Option ByteString
  pub user_properties : UserProperties
  pub is_utf8_payload : Bool
  pub response_topic : Option ByteString
  pub subscription_ids : List ℕ

pub record Publish : Type 0 where
  pub dup : Bool
  pub retain : Bool
  pub qos : QoS
  pub packet_id : Option ℕ
  pub topic : ByteString
  pub payload : List ℕ
  pub properties : PublishProperties

-- `PublishAck` and `PublishAck2`, which differ in their reason codes only.
pub record Ack (R : Type 0) : Type 0 where
  pub packet_id : ℕ
  pub reason_code : R
  pub properties : UserProperties
  pub reason_string : Option ByteString

abbrev pub PublishAck : Type 0
PublishAck = Ack PublishAckReason

abbrev PublishAck2 : Type 0
PublishAck2 = Ack PublishAck2Reason

pub record SubscriptionOptions : Type 0 where
  pub qos : QoS
  pub no_local : Bool
  pub retain_as_published : Bool
  pub retain_handling : RetainHandling

pub record Subscribe : Type 0 where
  pub packet_id : ℕ
  pub id : Option ℕ
  pub user_properties : UserProperties
  pub topic_filters : List (ByteString × SubscriptionOptions)

-- `SubscribeAck` and `UnsubscribeAck`, which differ in their reason codes only.
pub record StatusAck (R : Type 0) : Type 0 where
  pub packet_id : ℕ
  pub properties : UserProperties
  pub reason_string : Option ByteString
  pub status : List R

abbrev pub SubscribeAck : Type 0
SubscribeAck = StatusAck SubscribeAckReason

abbrev pub UnsubscribeAck : Type 0
UnsubscribeAck = StatusAck UnsubscribeAckReason

pub record Unsubscribe : Type 0 where
  pub packet_id : ℕ
  pub user_properties : UserProperties
  pub topic_filters : List ByteString

pub record Disconnect : Type 0 where
  pub reason_code : DisconnectReasonCode
  pub session_expiry_interval_secs : Option ℕ
  pub server_reference : Option ByteString
  pub reason_string : Option ByteString
  pub user_properties : UserProperties

pub record Auth : Type 0 where
  pub reason_code : AuthReasonCode
  pub auth_method : Option ByteString
  pub auth_data : Option (List ℕ)
  pub reason_string : Option ByteString
  pub user_properties : UserProperties

pub data Packet : Type 0 where
  connect : Connect → Packet
  connect_ack : ConnectAck → Packet
  publish : Publish → Packet
  publish_ack publish_received : PublishAck → Packet
  publish_release publish_complete : PublishAck2 → Packet
  subscribe : Subscribe → Packet
  subscribe_ack : SubscribeAck → Packet
  unsubscribe : Unsubscribe → Packet
  unsubscribe_ack : UnsubscribeAck → Packet
  ping_request ping_response : Packet
  disconnect : Disconnect → Packet
  auth : Auth → Packet

-- `Packet::packet_type`.
unfoldable pub packet_type : Packet → ℕ
packet_type (connect p) = Types.PacketType.connect
packet_type (connect_ack p) = Types.PacketType.connack
packet_type (publish p) = Types.PacketType.publish_start
packet_type (publish_ack p) = Types.PacketType.puback
packet_type (publish_received p) = Types.PacketType.pubrec
packet_type (publish_release p) = Types.PacketType.pubrel
packet_type (publish_complete p) = Types.PacketType.pubcomp
packet_type (subscribe p) = Types.PacketType.subscribe
packet_type (subscribe_ack p) = Types.PacketType.suback
packet_type (unsubscribe p) = Types.PacketType.unsubscribe
packet_type (unsubscribe_ack p) = Types.PacketType.unsuback
packet_type ping_request = Types.PacketType.pingreq
packet_type ping_response = Types.PacketType.pingresp
packet_type (disconnect p) = Types.PacketType.disconnect
packet_type (auth p) = Types.PacketType.auth

-- `Default for Auth`, with a reason code in place of its own, and `Disconnect::new`.
abbrev pub auth_with : AuthReasonCode → Auth
auth_with reason = record {
  reason_code = reason;
  auth_method = none;
  auth_data = none;
  reason_string = none;
  user_properties = [];
}

abbrev pub disconnect_with : DisconnectReasonCode → Disconnect
disconnect_with reason = record {
  reason_code = reason;
  session_expiry_interval_secs = none;
  server_reference = none;
  reason_string = none;
  user_properties = [];
}
