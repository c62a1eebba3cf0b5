-- ===== src/V3/RoundTrip/Filters.antt =====
-- Packets with a list of topic filters, and SUBACK packets.
use ntex_mqtt.Base.{
  ℕ, zero, suc, ◌+◌, ◌≤◌, ◌≡◌, refl, ◌∙◌, Bool, List, [], ◌∷◌, ◌++◌, map, length, length-append, ok,
  arith, All,
}
use ntex_mqtt.Wire.{
  continue, ◌>>=◌, pure, Writer, ◌then_write◌, put, encode_u16, encode_bytes, decode_string,
}
use ntex_mqtt.Wire.Fields.{decode_nonzero_u16-u16_bytes, read_string}
use ntex_mqtt.Wire.Writers.{then_write-eq-ok, encode_bytes-eq-ok, encode_bytes-Writes}
use ntex_mqtt.Types.{QoS, qos_bits}
use ntex_mqtt.V3.Packet.{Packet, SubscribeReturnCode, success, failure}
use ntex_mqtt.V3.Encode.{encode_filters, encode_topics, status_byte}
use ntex_mqtt.V3.Encode.Sizes.{content}
use ntex_mqtt.V3.Decode.{
  requested_qos, decode_filter, subscribe_loop, decode_subscribe_packet, unsubscribe_loop,
  decode_unsubscribe_packet, decode_statuses, decode_subscribe_ack_packet,
}
use ntex_mqtt.V3.RoundTrip.{IsString, IsPacketId}

-- Behind an encoded string there is less than the whole.
front_shorter :
    (f : List ℕ) (rest : Writer)
    → (encode_bytes f then_write rest).result ≡ ok tt
    → length rest.bytes + 2 ≤ length (encode_bytes f then_write rest).bytes
front_shorter f rest h =
    let both = then_write-eq-ok (encode_bytes f) rest h in
    rw (both.joined, length-append) (omega (arith, encode_bytes-Writes f both.first))

module _ (utf8 : List ℕ → Bool) where
  requested_qos_read : (q : QoS) (rest : List ℕ) → requested_qos (qos_bits q ∷ rest) ≡ ok (q, rest)
  unfolding requested_qos
  requested_qos_read q rest = ground arith

  filter_read :
      (f : List ℕ) (q : QoS) (rest : List ℕ)
      → (encode_bytes f).result ≡ ok tt
      → IsString utf8 f
      → decode_filter utf8 ((encode_bytes f).bytes ++ (qos_bits q ∷ rest)) ≡ ok ((f, q), rest)
  unfolding decode_filter
  filter_read f q rest h u =
      rw (read_string utf8 f (qos_bits q ∷ rest) h u, decode_filter)
        (rw (requested_qos_read q rest) refl)

  -- What begins with an encoded string is not empty, and a loop goes round on it.
  subscribe_round :
      (fuel : ℕ) (f rest : List ℕ)
      → (encode_bytes f).result ≡ ok tt
      → subscribe_loop utf8 (suc fuel) ((encode_bytes f).bytes ++ rest)
        ≡ continue
            (decode_filter utf8 ((encode_bytes f).bytes ++ rest))
            (λ x. subscribe_loop utf8 fuel >>= λ xs. pure (x ∷ xs))
  unfolding subscribe_loop
  subscribe_round fuel f rest h = rw (encode_bytes-eq-ok f h).1 refl

  subscribe_loop_read :
      (fuel : ℕ) (fs : List (List ℕ × QoS))
      → (encode_filters fs).result ≡ ok tt
      → length (encode_filters fs).bytes ≤ fuel
      → All (λ f. IsString utf8 f.0) fs
      → subscribe_loop utf8 fuel (encode_filters fs).bytes ≡ ok (fs, [])
  unfolding encode_filters
  subscribe_loop_read fuel [] h n u = unfold subscribe_loop in refl
  subscribe_loop_read zero ((f, q) ∷ fs) h n u =
      absurd (omega (arith, front_shorter f (put (qos_bits q ∷ []) then_write encode_filters fs) h))
  subscribe_loop_read (suc fuel) ((f, q) ∷ fs) h n u =
      let rest : Writer = put (qos_bits q ∷ []) then_write encode_filters fs in
      let both = then_write-eq-ok (encode_bytes f) rest h in
      let shorter = front_shorter f rest h in
      rw both.joined (
        subscribe_round fuel f (qos_bits q ∷ (encode_filters fs).bytes) both.first
        ∙ rw (filter_read f q (encode_filters fs).bytes both.first u.0)
            (rw (subscribe_loop_read fuel fs both.second (omega (arith, shorter)) u.1) refl))

  pub subscribe_read :
      (id : ℕ) (fs : List (List ℕ × QoS))
      → (content (Packet.subscribe id fs)).result ≡ ok tt
      → IsPacketId id
      → All (λ f. IsString utf8 f.0) fs
      → decode_subscribe_packet utf8 (content (Packet.subscribe id fs)).bytes
        ≡ ok (Packet.subscribe id fs, [])
  unfolding decode_subscribe_packet content encode_u16
  subscribe_read id fs h (pos, small) u =
      rw
        (
          decode_nonzero_u16-u16_bytes id (encode_filters fs).bytes pos small,
          decode_subscribe_packet,
        )
        (rw (subscribe_loop_read (length (encode_filters fs).bytes) fs h (omega arith) u) refl)

  unsubscribe_round :
      (fuel : ℕ) (f rest : List ℕ)
      → (encode_bytes f).result ≡ ok tt
      → unsubscribe_loop utf8 (suc fuel) ((encode_bytes f).bytes ++ rest)
        ≡ continue
            (decode_string utf8 ((encode_bytes f).bytes ++ rest))
            (λ x. unsubscribe_loop utf8 fuel >>= λ xs. pure (x ∷ xs))
  unfolding unsubscribe_loop
  unsubscribe_round fuel f rest h = rw (encode_bytes-eq-ok f h).1 refl

  unsubscribe_loop_read :
      (fuel : ℕ) (fs : List (List ℕ))
      → (encode_topics fs).result ≡ ok tt
      → length (encode_topics fs).bytes ≤ fuel
      → All (IsString utf8) fs
      → unsubscribe_loop utf8 fuel (encode_topics fs).bytes ≡ ok (fs, [])
  unfolding encode_topics
  unsubscribe_loop_read fuel [] h n u = unfold unsubscribe_loop in refl
  unsubscribe_loop_read zero (f ∷ fs) h n u =
      absurd (omega (arith, front_shorter f (encode_topics fs) h))
  unsubscribe_loop_read (suc fuel) (f ∷ fs) h n u =
      let both = then_write-eq-ok (encode_bytes f) (encode_topics fs) h in
      let shorter = front_shorter f (encode_topics fs) h in
      rw both.joined (
        unsubscribe_round fuel f (encode_topics fs).bytes both.first
        ∙ rw (read_string utf8 f (encode_topics fs).bytes both.first u.0)
            (rw (unsubscribe_loop_read fuel fs both.second (omega (arith, shorter)) u.1) refl))

  pub unsubscribe_read :
      (id : ℕ) (fs : List (List ℕ))
      → (content (Packet.unsubscribe id fs)).result ≡ ok tt
      → IsPacketId id
      → All (IsString utf8) fs
      → decode_unsubscribe_packet utf8 (content (Packet.unsubscribe id fs)).bytes
        ≡ ok (Packet.unsubscribe id fs, [])
  unfolding decode_unsubscribe_packet content encode_u16
  unsubscribe_read id fs h (pos, small) u =
      rw
        (
          decode_nonzero_u16-u16_bytes id (encode_topics fs).bytes pos small,
          decode_unsubscribe_packet,
        )
        (rw (unsubscribe_loop_read (length (encode_topics fs).bytes) fs h (omega arith) u) refl)

decode_statuses-map : (st : List SubscribeReturnCode) → decode_statuses (map status_byte st) ≡ ok st
unfolding decode_statuses
decode_statuses-map [] = refl
decode_statuses-map (failure ∷ st) = rw (decode_statuses-map st) refl
decode_statuses-map (success QoS.at_most_once ∷ st) = rw (decode_statuses-map st) refl
decode_statuses-map (success QoS.at_least_once ∷ st) = rw (decode_statuses-map st) refl
decode_statuses-map (success QoS.exactly_once ∷ st) = rw (decode_statuses-map st) refl

pub subscribe_ack_read :
    (id : ℕ) (st : List SubscribeReturnCode)
    → IsPacketId id
    → decode_subscribe_ack_packet (content (Packet.subscribe_ack id st)).bytes
      ≡ ok (Packet.subscribe_ack id st, [])
unfolding decode_subscribe_ack_packet content encode_u16
subscribe_ack_read id st (pos, small) =
    rw (decode_nonzero_u16-u16_bytes id (map status_byte st) pos small, decode_subscribe_ack_packet)
      (rw (decode_statuses-map st) refl)
