-- ===== src/V5/RoundTrip/Packets.antt =====
-- All packets of MQTT 5 (src/v5/codec/packet): their values, what a limit keeps, their frames.
pub mod ReadBack
use mathlib.Core.Path.{subst}
use ntex_mqtt.Base.{
  ℕ, ◌+◌, ◌%◌, ◌^◌, ◌≤◌, ◌≡◌, refl, ◌∙◌, Bool, List, [], length, ok, arith, bit_and,
}
use ntex_mqtt.Wire.{Writer, put}
use ntex_mqtt.Wire.Frames.{IsFrame, header-IsFrame, no_content}
use ntex_mqtt.Types
use ntex_mqtt.Types.Flags.{publish_bits}
use ntex_mqtt.V5.Lengths.{u32_sub, reduce_limit}
use ntex_mqtt.V5.Packet.{Packet, SubscribeAck, UnsubscribeAck, packet_type}
use ntex_mqtt.V5.Reasons.Acks.{
  PublishAckReason, PublishAck2Reason, publish_ack_codes, publish_ack2_codes, subscribe_ack_codes,
  unsubscribe_ack_codes, publish_ack_bits, publish_ack2_bits, subscribe_ack_bits,
  unsubscribe_ack_bits,
}
use ntex_mqtt.V5.Reasons.Codes.{
  try_from-publish_ack_bits, try_from-publish_ack2_bits, try_from-subscribe_ack_bits,
  try_from-unsubscribe_ack_bits,
}
use ntex_mqtt.V5.Encode.Acks.{
  ack_props_size, encode_publish_ack, subscribe_ack_size, unsubscribe_ack_size, encode_status_ack,
}
use ntex_mqtt.V5.Encode.Session.{encode_auth, encode_disconnect}
use ntex_mqtt.V5.Encode.Connect.{encode_connect}
use ntex_mqtt.V5.Encode.ConnectAck.{encode_connect_ack}
use ntex_mqtt.V5.Encode.Publish.{encode_publish}
use ntex_mqtt.V5.Encode.Subscribe.{encode_subscribe, encode_unsubscribe}
use ntex_mqtt.V5.Encode.{encoded_size, publish_first_byte, encode}
use ntex_mqtt.V5.Decode.Acks.{decode_status_ack}
use ntex_mqtt.V5.Decode.Publish.{decode_publish}
use ntex_mqtt.V5.Decode.{finish, decode_packet}
use ntex_mqtt.V5.RoundTrip.Session.{
  kept_auth, kept_disconnect, IsValidAuth, IsValidDisconnect, auth_read, disconnect_read,
}
use ntex_mqtt.V5.RoundTrip.ConnectAck.{kept_connect_ack, IsValidConnectAck}
use ntex_mqtt.V5.RoundTrip.ConnectAck.Whole.{connect_ack_read}
use ntex_mqtt.V5.RoundTrip.Acks.Whole.{
  kept_ack, IsValidAck, publish_ack_read, kept_status_ack, IsValidStatusAck, status_ack_read,
}
use ntex_mqtt.V5.RoundTrip.Connect.{IsValidConnect}
use ntex_mqtt.V5.RoundTrip.Connect.Whole.{connect_read}
use ntex_mqtt.V5.RoundTrip.Subscribe.{IsValidSubscribe, IsValidUnsubscribe, subscribe_read}
use ntex_mqtt.V5.RoundTrip.Subscribe.Topics.{unsubscribe_read}
use ntex_mqtt.V5.RoundTrip.Publish.{IsValidPublish}
use ntex_mqtt.V5.RoundTrip.Publish.Whole.{publish_read}

-- The values that the Rust types hold: strings are UTF-8, packet ids and the like are not 0, and
-- numbers are below the bound of their type. A CONNECT packet must besides name a client or ask for
-- a clean start, and a subscription id is not 0.
abbrev pub IsValid : (List ℕ → Bool) → Packet → Type 0
IsValid utf8 (Packet.connect c) = IsValidConnect utf8 c
IsValid utf8 (Packet.connect_ack a) = IsValidConnectAck utf8 a
IsValid utf8 (Packet.publish p) = IsValidPublish utf8 p
IsValid utf8 (Packet.publish_ack a) = IsValidAck utf8 a
IsValid utf8 (Packet.publish_received a) = IsValidAck utf8 a
IsValid utf8 (Packet.publish_release a) = IsValidAck utf8 a
IsValid utf8 (Packet.publish_complete a) = IsValidAck utf8 a
IsValid utf8 (Packet.subscribe s) = IsValidSubscribe utf8 s
IsValid utf8 (Packet.subscribe_ack a) = IsValidStatusAck utf8 a
IsValid utf8 (Packet.unsubscribe u) = IsValidUnsubscribe utf8 u
IsValid utf8 (Packet.unsubscribe_ack a) = IsValidStatusAck utf8 a
IsValid utf8 Packet.ping_request = Unit {0}
IsValid utf8 Packet.ping_response = Unit {0}
IsValid utf8 (Packet.disconnect d) = IsValidDisconnect utf8 d
IsValid utf8 (Packet.auth a) = IsValidAuth utf8 a

-- The packet without what is left out of it at a limit: its user properties or its reason string.
abbrev pub kept : Packet → ℕ → Packet
kept (Packet.connect c) limit = Packet.connect c
kept (Packet.connect_ack a) limit = Packet.connect_ack (kept_connect_ack a limit)
kept (Packet.publish p) limit = Packet.publish p
kept (Packet.publish_ack a) limit = Packet.publish_ack (kept_ack a limit)
kept (Packet.publish_received a) limit = Packet.publish_received (kept_ack a limit)
kept (Packet.publish_release a) limit = Packet.publish_release (kept_ack a limit)
kept (Packet.publish_complete a) limit = Packet.publish_complete (kept_ack a limit)
kept (Packet.subscribe s) limit = Packet.subscribe s
kept (Packet.subscribe_ack a) limit =
    Packet.subscribe_ack (kept_status_ack a (u32_sub (u32_sub limit 2) (length a.status % 2 ^ 32)))
kept (Packet.unsubscribe u) limit = Packet.unsubscribe u
kept (Packet.unsubscribe_ack a) limit =
    Packet.unsubscribe_ack (kept_status_ack a (reduce_limit limit (2 + length a.status)))
kept Packet.ping_request limit = Packet.ping_request
kept Packet.ping_response limit = Packet.ping_response
kept (Packet.disconnect d) limit = Packet.disconnect (kept_disconnect d limit)
kept (Packet.auth a) limit = Packet.auth (kept_auth a limit)

-- The two parts of a frame that depend on the packet.
abbrev pub first_byte : Packet → ℕ
first_byte (Packet.publish p) = publish_first_byte p
first_byte p = packet_type p

abbrev pub content : Packet → ℕ → Writer
content (Packet.connect c) n = encode_connect c
content (Packet.connect_ack a) n = encode_connect_ack a n
content (Packet.publish p) n = encode_publish p n
content (Packet.publish_ack a) n = encode_publish_ack publish_ack_bits a n
content (Packet.publish_received a) n = encode_publish_ack publish_ack_bits a n
content (Packet.publish_release a) n = encode_publish_ack publish_ack2_bits a n
content (Packet.publish_complete a) n = encode_publish_ack publish_ack2_bits a n
content (Packet.subscribe s) n = encode_subscribe s
content (Packet.subscribe_ack a) n = encode_status_ack subscribe_ack_bits a n
content (Packet.unsubscribe u) n = encode_unsubscribe u
content (Packet.unsubscribe_ack a) n = encode_status_ack unsubscribe_ack_bits a n
content Packet.ping_request n = put []
content Packet.ping_response n = put []
content (Packet.disconnect d) n = encode_disconnect d n
content (Packet.auth a) n = encode_auth a n

pub encode-IsFrame :
    (p : Packet) (limit : ℕ)
    → (encode p (encoded_size p limit)).result ≡ ok tt
    → IsFrame
        (encode p (encoded_size p limit)).bytes
        (first_byte p)
        (encoded_size p limit)
        (content p (encoded_size p limit))
unfolding encode packet_type encoded_size
encode-IsFrame (Packet.connect c) limit h =
    header-IsFrame Types.PacketType.connect _ (content (Packet.connect c) 0) h
encode-IsFrame (Packet.connect_ack a) limit h =
    header-IsFrame Types.PacketType.connack _ (content (Packet.connect_ack a) _) h
encode-IsFrame (Packet.publish p) limit h =
    header-IsFrame (publish_first_byte p) _ (content (Packet.publish p) _) h
encode-IsFrame (Packet.publish_ack a) limit h =
    header-IsFrame Types.PacketType.puback _ (content (Packet.publish_ack a) _) h
encode-IsFrame (Packet.publish_received a) limit h =
    header-IsFrame Types.PacketType.pubrec _ (content (Packet.publish_received a) _) h
encode-IsFrame (Packet.publish_release a) limit h =
    header-IsFrame Types.PacketType.pubrel _ (content (Packet.publish_release a) _) h
encode-IsFrame (Packet.publish_complete a) limit h =
    header-IsFrame Types.PacketType.pubcomp _ (content (Packet.publish_complete a) _) h
encode-IsFrame (Packet.subscribe s) limit h =
    header-IsFrame Types.PacketType.subscribe _ (content (Packet.subscribe s) 0) h
encode-IsFrame (Packet.subscribe_ack a) limit h =
    header-IsFrame Types.PacketType.suback _ (content (Packet.subscribe_ack a) _) h
encode-IsFrame (Packet.unsubscribe u) limit h =
    header-IsFrame Types.PacketType.unsubscribe _ (content (Packet.unsubscribe u) 0) h
encode-IsFrame (Packet.unsubscribe_ack a) limit h =
    header-IsFrame Types.PacketType.unsuback _ (content (Packet.unsubscribe_ack a) _) h
encode-IsFrame Packet.ping_request limit h = no_content Types.PacketType.pingreq
encode-IsFrame Packet.ping_response limit h = no_content Types.PacketType.pingresp
encode-IsFrame (Packet.disconnect d) limit h =
    header-IsFrame Types.PacketType.disconnect _ (content (Packet.disconnect d) _) h
encode-IsFrame (Packet.auth a) limit h =
    header-IsFrame Types.PacketType.auth _ (content (Packet.auth a) _) h
