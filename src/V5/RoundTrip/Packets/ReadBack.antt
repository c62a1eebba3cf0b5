-- ===== src/V5/RoundTrip/Packets/ReadBack.antt =====
-- `decode_packet` on what `encode` writes behind the fixed header (src/v5/codec).
use mathlib.Core.Path.{subst}
use ntex_mqtt.Base.{
  ℕ, ◌+◌, ◌%◌, ◌^◌, ◌≤◌, ◌≡◌, refl, ◌∙◌, Bool, List, [], length, ok, arith, bit_and,
}
use ntex_mqtt.Types.Flags.{publish_bits}
use ntex_mqtt.V5.Lengths.{u32_sub, reduce_limit}
use ntex_mqtt.V5.Packet.{Packet, SubscribeAck, UnsubscribeAck, packet_type}
use ntex_mqtt.V5.Reasons.Acks.{
  PublishAckReason, PublishAck2Reason, publish_ack_codes, publish_ack2_codes, subscribe_ack_codes,
  unsubscribe_ack_codes, publish_ack_bits, publish_ack2_bits, subscribe_ack_bits,
  unsubscribe_ack_bits,
}
use ntex_mqtt.V5.Reasons.Codes.{
  try_from-publish_ack_bits, try_from-publish_ack2_bits, try_from-subscribe_ack_bits,
  try_from-unsubscribe_ack_bits,
}
use ntex_mqtt.V5.Encode.Acks.{
  ack_props_size, subscribe_ack_size, unsubscribe_ack_size, encode_status_ack,
}
use ntex_mqtt.V5.Encode.{encoded_size, publish_first_byte}
use ntex_mqtt.V5.Decode.Acks.{decode_status_ack}
use ntex_mqtt.V5.Decode.Publish.{decode_publish}
use ntex_mqtt.V5.Decode.{finish, decode_packet}
use ntex_mqtt.V5.RoundTrip.Session.{auth_read, disconnect_read}
use ntex_mqtt.V5.RoundTrip.ConnectAck.Whole.{connect_ack_read}
use ntex_mqtt.V5.RoundTrip.Acks.Whole.{
  publish_ack_read, kept_status_ack, IsValidStatusAck, status_ack_read,
}
use ntex_mqtt.V5.RoundTrip.Connect.Whole.{connect_read}
use ntex_mqtt.V5.RoundTrip.Subscribe.{subscribe_read}
use ntex_mqtt.V5.RoundTrip.Subscribe.Topics.{unsubscribe_read}
use ntex_mqtt.V5.RoundTrip.Publish.Whole.{publish_read}
use ntex_mqtt.V5.RoundTrip.Packets.{IsValid, content, first_byte, kept}

subscribe_ack_size-small :
    (a : SubscribeAck) (limit : ℕ)
    → subscribe_ack_size a limit ≤ 268_435_455
    → subscribe_ack_size a limit
      ≡ 2
        + length a.status
        + ack_props_size a.properties a.reason_string
            (u32_sub (u32_sub limit 2) (length a.status % 2 ^ 32))
unfolding subscribe_ack_size
subscribe_ack_size-small a limit small = ground arith

module _ (utf8 : List ℕ → Bool) where
  subscribe_ack_read :
      (a : SubscribeAck) (limit : ℕ)
      → let n = subscribe_ack_size a limit in
        IsValidStatusAck utf8 a
        → n ≤ 268_435_455
        → (encode_status_ack subscribe_ack_bits a n).result ≡ ok tt
        → (length (encode_status_ack subscribe_ack_bits a n).bytes ≡ n)
          × (decode_status_ack utf8 subscribe_ack_codes
                (encode_status_ack subscribe_ack_bits a n).bytes
              ≡ ok (kept_status_ack a (u32_sub (u32_sub limit 2) (length a.status % 2 ^ 32)), []))
  subscribe_ack_read a limit valid small h =
      let e = subscribe_ack_size-small a limit small in
      let m = u32_sub (u32_sub limit 2) (length a.status % 2 ^ 32) in
      let n : ℕ = 2 + length a.status + ack_props_size a.properties a.reason_string m in
      let fits : n ≤ 268_435_455 = omega (arith, e, small) in
      let done : (encode_status_ack subscribe_ack_bits a n).result ≡ ok tt =
        subst (λ k. (encode_status_ack subscribe_ack_bits a k).result ≡ ok tt) e h in
      rw e (
        status_ack_read utf8 subscribe_ack_codes subscribe_ack_bits try_from-subscribe_ack_bits a m
          valid fits done)

  unsubscribe_ack_read :
      (a : UnsubscribeAck) (limit : ℕ)
      → let n = unsubscribe_ack_size a limit in
        IsValidStatusAck utf8 a
        → n ≤ 268_435_455
        → (encode_status_ack unsubscribe_ack_bits a n).result ≡ ok tt
        → (length (encode_status_ack unsubscribe_ack_bits a n).bytes ≡ n)
          × (decode_status_ack utf8 unsubscribe_ack_codes
                (encode_status_ack unsubscribe_ack_bits a n).bytes
              ≡ ok (kept_status_ack a (reduce_limit limit (2 + length a.status)), []))
  unfolding unsubscribe_ack_size
  unsubscribe_ack_read a limit valid small h =
      status_ack_read utf8 unsubscribe_ack_codes unsubscribe_ack_bits try_from-unsubscribe_ack_bits
        a (reduce_limit limit (2 + length a.status)) valid small h

  -- The sixteen first bytes of a PUBLISH packet.
  decode_packet-publish :
      (src : List ℕ) (b : ℕ)
      → 0b0011_0000 ≤ b
      → b ≤ 0b0011_1111
      → decode_packet utf8 src b
        ≡ finish Packet.publish (decode_publish utf8 (bit_and b 0b0000_1111) src)
  unfolding decode_packet
  decode_packet-publish src b low high = ground arith

  -- What `encode` writes behind the fixed header.
  abbrev pub IsReadBack : Packet → ℕ → ℕ → Type 0
  IsReadBack p limit n =
      (length (content p n).bytes ≡ n)
      × (decode_packet utf8 (content p n).bytes (first_byte p) ≡ ok (kept p limit))

  -- Of a packet whose values are those of the Rust types (and, for CONNECT, which names a client or
  -- asks for a clean start; a subscription id is not 0), and whose size at a limit is within what a
  -- remaining length can say, the content that `encode` writes behind the fixed header, when it
  -- succeeds, has that size, and `decode_packet` reads it back as the packet without the user
  -- properties or the reason string that the limit leaves no room for.
  pub decode_packet-content-kept :
      (p : Packet) (limit : ℕ)
      → IsValid utf8 p
      → encoded_size p limit ≤ 268_435_455
      → (content p (encoded_size p limit)).result ≡ ok tt
      → IsReadBack p limit (encoded_size p limit)
  unfolding decode_packet packet_type encoded_size
  decode_packet-content-kept (Packet.connect c) limit v small h =
      let (size, read) = connect_read utf8 c v small h in (size, rw read refl)
  decode_packet-content-kept (Packet.connect_ack a) limit v small h =
      let (size, read) = connect_ack_read utf8 a limit v small h in (size, rw read refl)
  decode_packet-content-kept (Packet.publish p) limit v small h =
      let (_, _, _, low, high) = publish_bits p.dup p.retain p.qos in
      let (size, read) = publish_read utf8 p v small h in
      (size, decode_packet-publish _ (publish_first_byte p) low high ∙ rw read refl)
  decode_packet-content-kept (Packet.publish_ack a) limit v small h =
      let (size, read) =
        publish_ack_read utf8 publish_ack_codes publish_ack_bits PublishAckReason.success
          try_from-publish_ack_bits a limit v small h in
      (size, rw read refl)
  decode_packet-content-kept (Packet.publish_received a) limit v small h =
      let (size, read) =
        publish_ack_read utf8 publish_ack_codes publish_ack_bits PublishAckReason.success
          try_from-publish_ack_bits a limit v small h in
      (size, rw read refl)
  decode_packet-content-kept (Packet.publish_release a) limit v small h =
      let (size, read) =
        publish_ack_read utf8 publish_ack2_codes publish_ack2_bits PublishAck2Reason.success
          try_from-publish_ack2_bits a limit v small h in
      (size, rw read refl)
  decode_packet-content-kept (Packet.publish_complete a) limit v small h =
      let (size, read) =
        publish_ack_read utf8 publish_ack2_codes publish_ack2_bits PublishAck2Reason.success
          try_from-publish_ack2_bits a limit v small h in
      (size, rw read refl)
  decode_packet-content-kept (Packet.subscribe s) limit v small h =
      let (size, read) = subscribe_read utf8 s v small h in (size, rw read refl)
  decode_packet-content-kept (Packet.subscribe_ack a) limit v small h =
      let (size, read) = subscribe_ack_read a limit v small h in (size, rw read refl)
  decode_packet-content-kept (Packet.unsubscribe u) limit v small h =
      let (size, read) = unsubscribe_read utf8 u v small h in (size, rw read refl)
  decode_packet-content-kept (Packet.unsubscribe_ack a) limit v small h =
      let (size, read) = unsubscribe_ack_read a limit v small h in (size, rw read refl)
  decode_packet-content-kept Packet.ping_request limit v small h = (refl, refl)
  decode_packet-content-kept Packet.ping_response limit v small h = (refl, refl)
  decode_packet-content-kept (Packet.disconnect d) limit v small h =
      let (size, read) = disconnect_read utf8 d limit v small h in (size, rw read refl)
  decode_packet-content-kept (Packet.auth a) limit v small h =
      let (size, read) = auth_read utf8 a limit v small h in (size, rw read refl)
