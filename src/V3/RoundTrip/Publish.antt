-- ===== src/V3/RoundTrip/Publish.antt =====
-- PUBLISH packets, CONNACK packets and the packets that are one packet id.
use mathlib.Core.Option.{Option, none, some}
use ntex_mqtt.Base.{ℕ, ◌≡◌, refl, Bool, not, List, [], ◌++◌, ok, arith, bit_and}
use ntex_mqtt.Wire.{◌then_write◌, put, encode_u16, encode_bytes, decode_nonzero_u16}
use ntex_mqtt.Wire.Fields.{decode_nonzero_u16-u16_bytes, read_string}
use ntex_mqtt.Wire.Writers.{then_write-eq-ok}
use ntex_mqtt.Types.{QoS, is_at_most_once}
use ntex_mqtt.Types.Flags.{publish_bits}
use ntex_mqtt.V3.Packet.{Packet, Publish, ConnectAck}
use ntex_mqtt.V3.Encode.{publish_first_byte, encode_publish_id}
use ntex_mqtt.V3.Encode.Sizes.{content}
use ntex_mqtt.Wire.Readers.{when_set}
use ntex_mqtt.V3.Decode.{decode_ack, decode_connect_ack_packet, decode_publish_packet}
use ntex_mqtt.V3.RoundTrip.{IsString, IsPacketId, OptionalId}

pub decode_ack-encode_u16 :
    (f : ℕ → Packet) (id : ℕ) → IsPacketId id → decode_ack f (encode_u16 id).bytes ≡ ok (f id, [])
unfolding decode_ack encode_u16
decode_ack-encode_u16 f id (pos, small) =
    rw (decode_nonzero_u16-u16_bytes id [] pos small, decode_ack) refl

pub connect_ack_read :
    (utf8 : List ℕ → Bool) (a : ConnectAck)
    → decode_connect_ack_packet utf8 (content (Packet.connect_ack a)).bytes
      ≡ ok (Packet.connect_ack a, [])
unfolding decode_connect_ack_packet content
connect_ack_read utf8 a = ground arith

module _ (utf8 : List ℕ → Bool) where
  publish_id_read :
      (q : QoS) (id : Option ℕ) (rest : List ℕ)
      → (encode_publish_id q id).result ≡ ok tt
      → OptionalId id
      → when_set
          (not (is_at_most_once q))
          decode_nonzero_u16
          ((encode_publish_id q id).bytes ++ rest)
        ≡ ok (id, rest)
  unfolding encode_u16
  publish_id_read QoS.at_most_once none rest h v = refl
  publish_id_read QoS.at_most_once (some id) rest h v = cc
  publish_id_read QoS.at_least_once none rest h v = cc
  publish_id_read QoS.at_least_once (some id) rest h (pos, small) =
      rw (decode_nonzero_u16-u16_bytes id rest pos small)
  publish_id_read QoS.exactly_once none rest h v = cc
  publish_id_read QoS.exactly_once (some id) rest h (pos, small) =
      rw (decode_nonzero_u16-u16_bytes id rest pos small)

  pub publish_read :
      (p : Publish)
      → (content (Packet.publish p)).result ≡ ok tt
      → IsString utf8 p.topic
      → OptionalId p.packet_id
      → decode_publish_packet utf8
          (bit_and (publish_first_byte p) 0b0000_1111)
          (content (Packet.publish p)).bytes
        ≡ ok (Packet.publish p, [])
  unfolding decode_publish_packet content
  publish_read p h topic id =
      let first =
        then_write-eq-ok (encode_bytes p.topic)
          (encode_publish_id p.qos p.packet_id then_write put p.payload) h in
      let second =
        then_write-eq-ok (encode_publish_id p.qos p.packet_id) (put p.payload) first.second in
      let (dup, retain, qos, _, _) = publish_bits p.dup p.retain p.qos in
      rw (first.joined) (
        rw (read_string utf8 p.topic _ first.first topic, decode_publish_packet)
          (rw (qos, second.joined)
            (rw (publish_id_read p.qos p.packet_id p.payload second.first id)
              (rw (dup, retain) refl))))
