-- ===== src/V3/Packet.antt =====
-- The packets of MQTT 3.1.1 (src/v3/codec/packet.rs).
-- A `ByteString` and a `Bytes` are lists of bytes, a `NonZeroU16` is a number.
use mathlib.Core.Option.{Option}
use ntex_mqtt.Base.{ℕ, Bool, List, ◌==◌, if◌then◌else◌, Result, ok, err}
use ntex_mqtt.Wire.{DecodeError, malformed_packet}
use ntex_mqtt.Types
use ntex_mqtt.Types.{QoS}

pub data ConnectAckReason : Type 0 where
  connection_accepted unacceptable_protocol_version identifier_rejected : ConnectAckReason
  service_unavailable bad_user_name_or_password not_authorized reserved : ConnectAckReason

abbrev pub reason_bits : ConnectAckReason → ℕ
reason_bits connection_accepted = 0
reason_bits unacceptable_protocol_version = 1
reason_bits identifier_rejected = 2
reason_bits service_unavailable = 3
reason_bits bad_user_name_or_password = 4
reason_bits not_authorized = 5
reason_bits reserved = 6

abbrev pub reason_from : ℕ → Result DecodeError ConnectAckReason
reason_from v =
    if v == 0
    then ok connection_accepted
    else if v == 1
    then ok unacceptable_protocol_version
    else if v == 2
    then ok identifier_rejected
    else if v == 3
    then ok service_unavailable
    else if v == 4
    then ok bad_user_name_or_password
    else if v == 5
    then ok not_authorized
    else if v == 6
    then ok reserved
    else err malformed_packet

pub record LastWill : Type 0 where
  pub qos : QoS
  pub retain : Bool
  pub topic : List ℕ
  pub message : List ℕ

pub record Connect : Type 0 where
  pub clean_session : Bool
  pub keep_alive : ℕ
  pub last_will : Option LastWill
  pub client_id : List ℕ
  pub username : Option (List ℕ)
  pub password : Option (List ℕ)

pub record Publish : Type 0 where
  pub dup : Bool
  pub retain : Bool
  pub qos : QoS
  pub topic : List ℕ
  pub packet_id : Option ℕ
  pub payload : List ℕ

pub record ConnectAck : Type 0 where
  pub return_code : ConnectAckReason
  pub session_present : Bool

pub data SubscribeReturnCode : Type 0 where
  success : QoS → SubscribeReturnCode
  failure : SubscribeReturnCode

pub data Packet : Type 0 where
  connect : Connect → Packet
  connect_ack : ConnectAck → Packet
  publish : Publish → Packet
  publish_ack publish_received publish_release publish_complete : ℕ → Packet
  subscribe : ℕ → List (List ℕ × QoS) → Packet
  subscribe_ack : ℕ → List SubscribeReturnCode → Packet
  unsubscribe : ℕ → List (List ℕ) → Packet
  unsubscribe_ack : ℕ → Packet
  ping_request ping_response disconnect : Packet

-- `Packet::packet_type`.
unfoldable pub packet_type : Packet → ℕ
packet_type (connect c) = Types.PacketType.connect
packet_type (connect_ack a) = Types.PacketType.connack
packet_type (publish p) = Types.PacketType.publish_start
packet_type (publish_ack id) = Types.PacketType.puback
packet_type (publish_received id) = Types.PacketType.pubrec
packet_type (publish_release id) = Types.PacketType.pubrel
packet_type (publish_complete id) = Types.PacketType.pubcomp
packet_type (subscribe id fs) = Types.PacketType.subscribe
packet_type (subscribe_ack id st) = Types.PacketType.suback
packet_type (unsubscribe id fs) = Types.PacketType.unsubscribe
packet_type (unsubscribe_ack id) = Types.PacketType.unsuback
packet_type ping_request = Types.PacketType.pingreq
packet_type ping_response = Types.PacketType.pingresp
packet_type disconnect = Types.PacketType.disconnect
