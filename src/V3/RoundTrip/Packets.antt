-- ===== src/V3/RoundTrip/Packets.antt =====
-- All packets of MQTT 3.1.1.
use ntex_mqtt.Base.{ℕ, ◌≤◌, ◌≡◌, refl, ◌∙◌, Bool, List, ok, arith, bit_and}
use ntex_mqtt.Wire.{}
use ntex_mqtt.Types.Flags.{publish_bits}
use ntex_mqtt.V3.Packet.{Packet, packet_type}
use ntex_mqtt.V3.Encode.{publish_first_byte}
use ntex_mqtt.V3.Encode.Sizes.{content, first_byte}
use ntex_mqtt.V3.Decode.{decode_publish_packet, finish, decode_packet}
use ntex_mqtt.V3.RoundTrip.{IsValid}
use ntex_mqtt.V3.RoundTrip.Publish.{decode_ack-encode_u16, connect_ack_read, publish_read}
use ntex_mqtt.V3.RoundTrip.Filters.{subscribe_read, unsubscribe_read, subscribe_ack_read}
use ntex_mqtt.V3.RoundTrip.Connect.{decode_connect_packet-encode_connect}

-- The sixteen first bytes of a PUBLISH packet.
decode_packet-publish :
    (utf8 : List ℕ → Bool) (src : List ℕ) (b : ℕ)
    → 0b0011_0000 ≤ b
    → b ≤ 0b0011_1111
    → decode_packet utf8 src b ≡ finish (decode_publish_packet utf8 (bit_and b 0b0000_1111) src)
unfolding decode_packet
decode_packet-publish utf8 src b low high = ground arith

-- Of a packet whose values are those of the Rust types (and, for CONNECT, which names a client or
-- asks for a clean session), the content that `encode` writes behind the fixed header, when it
-- succeeds, `decode_packet` reads back as that packet.
pub decode_packet-content :
    (utf8 : List ℕ → Bool) (p : Packet)
    → IsValid utf8 p
    → (content p).result ≡ ok tt
    → decode_packet utf8 (content p).bytes (first_byte p) ≡ ok p
unfolding decode_packet content packet_type
decode_packet-content utf8 (Packet.connect c) (ka, cid, will, user, named) h =
    rw (decode_connect_packet-encode_connect utf8 c h ka cid will user named) refl
decode_packet-content utf8 (Packet.connect_ack a) v h = rw (connect_ack_read utf8 a) refl
decode_packet-content utf8 (Packet.publish p) (topic, id) h =
    let (_, _, _, low, high) = publish_bits p.dup p.retain p.qos in
    decode_packet-publish utf8 (content (Packet.publish p)).bytes (publish_first_byte p) low high
    ∙ rw (publish_read utf8 p h topic id) refl
decode_packet-content utf8 (Packet.publish_ack id) v h =
    rw (decode_ack-encode_u16 Packet.publish_ack id v) refl
decode_packet-content utf8 (Packet.publish_received id) v h =
    rw (decode_ack-encode_u16 Packet.publish_received id v) refl
decode_packet-content utf8 (Packet.publish_release id) v h =
    rw (decode_ack-encode_u16 Packet.publish_release id v) refl
decode_packet-content utf8 (Packet.publish_complete id) v h =
    rw (decode_ack-encode_u16 Packet.publish_complete id v) refl
decode_packet-content utf8 (Packet.subscribe id fs) (i, u) h =
    rw (subscribe_read utf8 id fs h i u) refl
decode_packet-content utf8 (Packet.subscribe_ack id st) v h = rw (subscribe_ack_read id st v) refl
decode_packet-content utf8 (Packet.unsubscribe id fs) (i, u) h =
    rw (unsubscribe_read utf8 id fs h i u) refl
decode_packet-content utf8 (Packet.unsubscribe_ack id) v h =
    rw (decode_ack-encode_u16 Packet.unsubscribe_ack id v) refl
decode_packet-content utf8 Packet.ping_request v h = refl
decode_packet-content utf8 Packet.ping_response v h = refl
decode_packet-content utf8 Packet.disconnect v h = refl
