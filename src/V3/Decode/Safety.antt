-- ===== src/V3/Decode/Safety.antt =====
-- The packet decoder of MQTT 3.1.1: panics (src/v3/codec/decode.rs).
use ntex_mqtt.Base.{
  ℕ, zero, suc, ◌+◌, ◌*◌, ◌/◌, ◌≤◌, ◌<◌, ◌≡◌, ◌≢◌, refl, Bool, true, false, not, ◌&&◌, ◌||◌, List,
  [], ◌∷◌, leb, ◌==◌, length, is_empty, bytes_eq, bit_and, if◌then◌else◌, Result, ok, err, panic,
  arith,
}
use ntex_mqtt.Wire.{
  DecodeError, invalid_protocol, invalid_length, unsupported_protocol_level,
  connect_reserved_flag_set, conn_ack_reserved_flag_set, invalid_client_id, unsupported_packet_type,
  Reader, decode_nonzero_u16, decode_bytes, decode_string,
}
use ntex_mqtt.Wire.Fields.{four_bytes}
use ntex_mqtt.Wire.Safety.{
  continue-ne-panic, continue-eq-ok, ensured-ne-panic, decode_u16-ne-panic,
  decode_nonzero_u16-ne-panic, decode_bytes-ne-panic, decode_string-ne-panic, decode_string_shorter,
}
use ntex_mqtt.Types.{
  QoS, qos_from, is_at_most_once, mqtt, mqtt_level_3, contains, username_flag, password_flag,
  will_flag, clean_start_flag, connect_reserved_bits, connect_ack_reserved_bits,
}
use ntex_mqtt.V3.Packet.{Packet, reason_from}
use ntex_mqtt.Wire.Readers.{lift, when_set}
use ntex_mqtt.V3.Decode.{
  decode_ack, decode_last_will, decode_connect_fields, decode_connect_packet,
  decode_connect_ack_packet, decode_publish_packet, subscribe_loop, decode_subscribe_packet,
  requested_qos, decode_filter, unsubscribe_loop, decode_unsubscribe_packet, decode_statuses,
  decode_subscribe_ack_packet, decode_packet, finish,
}

lift-ne-panic :
    {A : Type 0} (r : Result DecodeError A) (src : List ℕ) → r ≢ panic → lift r src ≢ panic
lift-ne-panic (ok a) src h = λ e. cc
lift-ne-panic (err x) src h = λ e. cc
lift-ne-panic panic src h = λ e. h refl

when_set-ne-panic :
    {A : Type 0} (b : Bool) (m : Reader A) (src : List ℕ)
    → ((s : List ℕ) → m s ≢ panic)
    → when_set b m src ≢ panic
when_set-ne-panic true m src h = continue-ne-panic (m src) _ (h src) λ a rest e p. cc
when_set-ne-panic false m src h = λ e. cc

qos_from-ne-panic : (v : ℕ) → qos_from v ≢ panic
qos_from-ne-panic v = ground arith

reason_from-ne-panic : (v : ℕ) → reason_from v ≢ panic
reason_from-ne-panic v = ground arith

decode_ack-ne-panic : (f : ℕ → Packet) (src : List ℕ) → decode_ack f src ≢ panic
unfolding decode_ack
decode_ack-ne-panic f src =
    continue-ne-panic (decode_nonzero_u16 src) _ (decode_nonzero_u16-ne-panic src)
      λ id rest e. ensured-ne-panic (not (not (is_empty rest))) invalid_length _ rest λ h p. cc

requested_qos-ne-panic : (src : List ℕ) → requested_qos src ≢ panic
unfolding requested_qos
requested_qos-ne-panic [] = λ e. cc
requested_qos-ne-panic (v ∷ src) =
    ensured-ne-panic (leb 1 (length (v ∷ src))) invalid_length _ _ λ _.
      lift-ne-panic (qos_from (bit_and v 0b0000_0011)) src
        (qos_from-ne-panic (bit_and v 0b0000_0011))

requested_qos_shorter :
    (src : List ℕ) {q : QoS} {rest : List ℕ}
    → requested_qos src ≡ ok (q, rest)
    → length rest < length src
unfolding requested_qos
requested_qos_shorter [] h = cc
requested_qos_shorter (v ∷ src) {rest = rest} h = ground arith

module _ (utf8 : List ℕ → Bool) where
  decode_last_will-ne-panic : (flags : ℕ) (src : List ℕ) → decode_last_will utf8 flags src ≢ panic
  unfolding decode_last_will
  decode_last_will-ne-panic flags src =
      continue-ne-panic (decode_string utf8 src) _ (decode_string-ne-panic utf8 src) λ topic s1 e1.
        continue-ne-panic (decode_bytes s1) _ (decode_bytes-ne-panic s1) λ message s2 e2.
          continue-ne-panic _ _
            (lift-ne-panic (qos_from (bit_and flags 0b0001_1000 / 8)) s2
              (qos_from-ne-panic (bit_and flags 0b0001_1000 / 8)))
            λ q s3 e3 p. cc

  decode_connect_fields-ne-panic :
      (flags : ℕ) (src : List ℕ) → decode_connect_fields utf8 flags src ≢ panic
  unfolding decode_connect_fields
  decode_connect_fields-ne-panic flags src =
      continue-ne-panic _ _ (decode_u16-ne-panic src) λ keep_alive s1 _.
        continue-ne-panic _ _ (decode_string-ne-panic utf8 s1) λ client_id s2 _.
          ensured-ne-panic (not (is_empty client_id) || contains flags clean_start_flag)
            invalid_client_id _ s2
            λ _.
              continue-ne-panic _ _
                (when_set-ne-panic (contains flags will_flag) (decode_last_will utf8 flags) s2
                  (decode_last_will-ne-panic flags))
                λ last_will s3 _.
                  continue-ne-panic _ _
                    (when_set-ne-panic (contains flags username_flag) (decode_string utf8) s3
                      (decode_string-ne-panic utf8))
                    λ username s4 _.
                      continue-ne-panic _ _
                        (when_set-ne-panic (contains flags password_flag) decode_bytes s4
                          decode_bytes-ne-panic)
                        λ password s5 _ p. cc

  decode_connect_packet-ne-panic : (src : List ℕ) → decode_connect_packet utf8 src ≢ panic
  unfolding decode_connect_packet
  decode_connect_packet-ne-panic (a ∷ b ∷ c ∷ d ∷ e ∷ f ∷ g ∷ h ∷ src) =
      ensured-ne-panic (leb 10 (length (a ∷ b ∷ c ∷ d ∷ e ∷ f ∷ g ∷ h ∷ src))) invalid_length _ _
        λ _. rw (four_bytes c d e f (g ∷ h ∷ src)) (
          ensured-ne-panic (a * 256 + b == 4 && bytes_eq (c ∷ d ∷ e ∷ f ∷ []) mqtt) invalid_protocol
            _ _
            λ _. ensured-ne-panic (g == mqtt_level_3) unsupported_protocol_level _ _ λ _.
              ensured-ne-panic (bit_and h connect_reserved_bits == 0) connect_reserved_flag_set _ _
                λ _. decode_connect_fields-ne-panic h src)
  decode_connect_packet-ne-panic src = λ e. cc

  decode_connect_ack_packet-ne-panic : (src : List ℕ) → decode_connect_ack_packet utf8 src ≢ panic
  unfolding decode_connect_ack_packet
  decode_connect_ack_packet-ne-panic (a ∷ b ∷ src) =
      ensured-ne-panic (leb 2 (length (a ∷ b ∷ src))) invalid_length _ _ λ _.
        ensured-ne-panic (bit_and a connect_ack_reserved_bits == 0) conn_ack_reserved_flag_set _ _
          λ _.
            continue-ne-panic _ _ (lift-ne-panic (reason_from b) src (reason_from-ne-panic b))
              λ code s _ p. cc
  decode_connect_ack_packet-ne-panic src = λ e. cc

  decode_publish_packet-ne-panic :
      (flags : ℕ) (src : List ℕ) → decode_publish_packet utf8 flags src ≢ panic
  unfolding decode_publish_packet
  decode_publish_packet-ne-panic flags src =
      continue-ne-panic _ _ (decode_string-ne-panic utf8 src) λ topic s1 _.
        continue-ne-panic _ _
          (lift-ne-panic (qos_from (bit_and flags 0b0110 / 2)) s1
            (qos_from-ne-panic (bit_and flags 0b0110 / 2)))
          λ qos s2 _.
            continue-ne-panic _ _
              (when_set-ne-panic (not (is_at_most_once qos)) decode_nonzero_u16 s2
                decode_nonzero_u16-ne-panic)
              λ id s3 _ p. cc

  decode_filter-ne-panic : (src : List ℕ) → decode_filter utf8 src ≢ panic
  unfolding decode_filter
  decode_filter-ne-panic src =
      continue-ne-panic _ _ (decode_string-ne-panic utf8 src)
        λ topic s1 _. continue-ne-panic _ _ (requested_qos-ne-panic s1) λ q s2 _ p. cc

  decode_filter_shorter :
      (src : List ℕ) {f : List ℕ × QoS} {rest : List ℕ}
      → decode_filter utf8 src ≡ ok (f, rest)
      → length rest < length src
  unfolding decode_filter
  decode_filter_shorter src {rest = rest} h =
      let (topic, s1, e1, k) = continue-eq-ok (decode_string utf8 src) _ h in
      let (q, s2, e2, k2) = continue-eq-ok (requested_qos s1) _ k in
      let same : s2 ≡ rest = cc in
      rw (← same) (omega (arith, decode_string_shorter utf8 src e1, requested_qos_shorter s1 e2))

  -- The fuel is enough: a round leaves less than it was given.
  subscribe_loop-ne-panic :
      (fuel : ℕ) (src : List ℕ) → length src ≤ fuel → subscribe_loop utf8 fuel src ≢ panic
  unfolding subscribe_loop
  subscribe_loop-ne-panic fuel [] h = λ e. cc
  subscribe_loop-ne-panic zero (b ∷ src) h = absurd (omega arith)
  subscribe_loop-ne-panic (suc fuel) (b ∷ src) h =
      continue-ne-panic _ _ (decode_filter-ne-panic (b ∷ src)) λ f s1 e1.
        continue-ne-panic _ _
          (subscribe_loop-ne-panic fuel s1 (omega (arith, decode_filter_shorter (b ∷ src) e1)))
          λ fs s2 _ p. cc

  unsubscribe_loop-ne-panic :
      (fuel : ℕ) (src : List ℕ) → length src ≤ fuel → unsubscribe_loop utf8 fuel src ≢ panic
  unfolding unsubscribe_loop
  unsubscribe_loop-ne-panic fuel [] h = λ e. cc
  unsubscribe_loop-ne-panic zero (b ∷ src) h = absurd (omega arith)
  unsubscribe_loop-ne-panic (suc fuel) (b ∷ src) h =
      continue-ne-panic _ _ (decode_string-ne-panic utf8 (b ∷ src)) λ topic s1 e1.
        continue-ne-panic _ _
          (unsubscribe_loop-ne-panic fuel s1
            (omega (arith, decode_string_shorter utf8 (b ∷ src) e1)))
          λ fs s2 _ p. cc

  decode_subscribe_packet-ne-panic : (src : List ℕ) → decode_subscribe_packet utf8 src ≢ panic
  unfolding decode_subscribe_packet
  decode_subscribe_packet-ne-panic src =
      continue-ne-panic _ _ (decode_nonzero_u16-ne-panic src) λ id s1 _.
        continue-ne-panic _ _ (subscribe_loop-ne-panic (length s1) s1 (omega arith)) λ fs s2 _ p. cc

  decode_unsubscribe_packet-ne-panic : (src : List ℕ) → decode_unsubscribe_packet utf8 src ≢ panic
  unfolding decode_unsubscribe_packet
  decode_unsubscribe_packet-ne-panic src =
      continue-ne-panic _ _ (decode_nonzero_u16-ne-panic src) λ id s1 _.
        continue-ne-panic _ _ (unsubscribe_loop-ne-panic (length s1) s1 (omega arith))
          λ fs s2 _ p. cc

decode_statuses-ne-panic : (codes : List ℕ) → decode_statuses codes ≢ panic
unfolding decode_statuses
decode_statuses-ne-panic [] = λ e. cc
decode_statuses-ne-panic (c ∷ cs) = ground (arith, decode_statuses-ne-panic cs)

decode_subscribe_ack_packet-ne-panic : (src : List ℕ) → decode_subscribe_ack_packet src ≢ panic
unfolding decode_subscribe_ack_packet
decode_subscribe_ack_packet-ne-panic src =
    continue-ne-panic _ _ (decode_nonzero_u16-ne-panic src) λ id s1 _.
      continue-ne-panic _ _ (lift-ne-panic (decode_statuses s1) [] (decode_statuses-ne-panic s1))
        λ st s2 _ p. cc

finish-ne-panic : (r : Result DecodeError (Packet × List ℕ)) → r ≢ panic → finish r ≢ panic
finish-ne-panic (ok (p, rest)) h = λ e. cc
finish-ne-panic (err x) h = λ e. cc
finish-ne-panic panic h = λ e. h refl

ok-ne-panic : (p : Packet) → ◌≢◌ {A = Result DecodeError Packet} (ok p) panic
ok-ne-panic p = λ e. cc

err-ne-panic : (x : DecodeError) → ◌≢◌ {A = Result DecodeError Packet} (err x) panic
err-ne-panic x = λ e. cc

branch :
    (b : Bool) {x y : Result DecodeError Packet}
    → x ≢ panic
    → y ≢ panic
    → (if b then x else y) ≢ panic
branch true h k = h
branch false h k = k

-- No first byte and no packet body, of any length, makes `decode_packet` panic: every access to
-- the buffer is in range, and the loops over topic filters end.
pub decode_packet-ne-panic :
    (utf8 : List ℕ → Bool) (src : List ℕ) (first_byte : ℕ)
    → decode_packet utf8 src first_byte ≢ panic
unfolding decode_packet
decode_packet-ne-panic utf8 src b =
    branch _ (finish-ne-panic _ (decode_connect_packet-ne-panic utf8 src)) (
      branch _ (finish-ne-panic _ (decode_connect_ack_packet-ne-panic utf8 src)) (
        branch _
          (finish-ne-panic _ (decode_publish_packet-ne-panic utf8 (bit_and b 0b0000_1111) src))
          (branch _ (finish-ne-panic _ (decode_ack-ne-panic Packet.publish_ack src)) (
            branch _ (finish-ne-panic _ (decode_ack-ne-panic Packet.publish_received src)) (
              branch _ (finish-ne-panic _ (decode_ack-ne-panic Packet.publish_release src)) (
                branch _ (finish-ne-panic _ (decode_ack-ne-panic Packet.publish_complete src)) (
                  branch _ (finish-ne-panic _ (decode_subscribe_packet-ne-panic utf8 src)) (
                    branch _ (finish-ne-panic _ (decode_subscribe_ack_packet-ne-panic src)) (
                      branch _ (finish-ne-panic _ (decode_unsubscribe_packet-ne-panic utf8 src)) (
                        branch _
                          (finish-ne-panic _ (decode_ack-ne-panic Packet.unsubscribe_ack src))
                          (branch _ (ok-ne-panic Packet.ping_request) (
                            branch _ (ok-ne-panic Packet.ping_response) (
                              branch _ (ok-ne-panic Packet.disconnect)
                                (err-ne-panic unsupported_packet_type))))))))))))))
