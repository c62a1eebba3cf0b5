-- ===== src/V5/Decode/Safety/Packets.antt =====
-- The decoder of every packet, and `decode_packet`: panics (src/v5/codec/decode.rs).
use ntex_mqtt.Base.{
  ℕ, suc, ◌+◌, ◌*◌, ◌≤◌, ◌≡◌, ◌≢◌, refl, Bool, true, false, List, [], ◌∷◌, leb, length, bit_and,
  if◌then◌else◌, Result, ok, err, panic, arith, take, drop, length-drop,
}
use ntex_mqtt.Wire.{
  DecodeError, unsupported_packet_type, Reader, ◌>>=◌, ◌>>◌, ensure, remaining, get_u8, get_u16,
  split_to, invalid_length,
}
use ntex_mqtt.Wire.Readers.{}
use ntex_mqtt.V5.Property.Safety.{Fits, Fits-le, Safe}
use ntex_mqtt.V5.Packet.{Packet}
use ntex_mqtt.V5.Decode.{finish, decode_packet}
use ntex_mqtt.V5.Reasons.Acks.{
  PublishAckReason, PublishAck2Reason, publish_ack_codes, publish_ack2_codes, subscribe_ack_codes,
  unsubscribe_ack_codes,
}
use ntex_mqtt.V5.Decode.Acks.{decode_ack_props, decode_publish_ack, decode_status_ack}
use ntex_mqtt.V5.Decode.Connect.{decode_last_will, decode_connect_fields, decode_connect}
use ntex_mqtt.V5.Decode.ConnectAck.{decode_connect_ack}
use ntex_mqtt.V5.Decode.Publish.{parse_publish_properties, decode_publish}
use ntex_mqtt.V5.Decode.Subscribe.{decode_subscribe, decode_unsubscribe}
use ntex_mqtt.V5.Decode.Session.{decode_auth, decode_disconnect}
use ntex_mqtt.V5.Decode.Safety.{
  ack_handler-Safe, auth_handler-Safe, connect_ack_handler-Safe, connect_handler-Safe,
  decode_filter-Eats, disconnect_handler-Safe, handlers, publish_handler-Safe,
  subscribe_handler-Safe, unsubscribe_handler-Safe, will_handler-Safe,
}

ruleset packets = (
  handlers, ack_handler-Safe, auth_handler-Safe, disconnect_handler-Safe, connect_handler-Safe,
  will_handler-Safe, connect_ack_handler-Safe, publish_handler-Safe, subscribe_handler-Safe,
  unsubscribe_handler-Safe, decode_filter-Eats,
)

decode_ack_props-Safe : (utf8 : List ℕ → Bool) → Safe (decode_ack_props utf8)
unfolding decode_ack_props
decode_ack_props-Safe utf8 = search packets

decode_publish_ack-Safe :
    (utf8 : List ℕ → Bool) {R : Type 0} (codes : List (ℕ × R)) (r : R)
    → Safe (decode_publish_ack utf8 codes r)
unfolding decode_publish_ack
decode_publish_ack-Safe utf8 codes r = search (packets, decode_ack_props-Safe) depth 20

decode_status_ack-Safe :
    (utf8 : List ℕ → Bool) {R : Type 0} (codes : List (ℕ × R)) → Safe (decode_status_ack utf8 codes)
unfolding decode_status_ack
decode_status_ack-Safe utf8 codes = search (packets, decode_ack_props-Safe) depth 20

decode_auth-Safe : (utf8 : List ℕ → Bool) → Safe (decode_auth utf8)
unfolding decode_auth
decode_auth-Safe utf8 = search packets depth 20

decode_disconnect-Safe : (utf8 : List ℕ → Bool) → Safe (decode_disconnect utf8)
unfolding decode_disconnect
decode_disconnect-Safe utf8 = search packets depth 20

decode_last_will-Safe : (utf8 : List ℕ → Bool) (flags : ℕ) → Safe (decode_last_will utf8 flags)
unfolding decode_last_will
decode_last_will-Safe utf8 flags = search packets depth 20

decode_connect_fields-Safe :
    (utf8 : List ℕ → Bool) (flags keep_alive : ℕ)
    → Safe (decode_connect_fields utf8 flags keep_alive)
unfolding decode_connect_fields
decode_connect_fields-Safe utf8 flags keep_alive = search (packets, decode_last_will-Safe) depth 20

decode_publish-Safe : (utf8 : List ℕ → Bool) (flags : ℕ) → Safe (decode_publish utf8 flags)
unfolding decode_publish parse_publish_properties
decode_publish-Safe utf8 flags = search packets depth 20

decode_subscribe-Safe : (utf8 : List ℕ → Bool) → Safe (decode_subscribe utf8)
unfolding decode_subscribe
decode_subscribe-Safe utf8 = search packets depth 20

decode_unsubscribe-Safe : (utf8 : List ℕ → Bool) → Safe (decode_unsubscribe utf8)
unfolding decode_unsubscribe
decode_unsubscribe-Safe utf8 = search packets depth 20

-- A reader that is safe where so many bytes are left.
record Guarded {A : Type 0} (n : ℕ) (m : Reader A) : Type 0 where
  pub apply : (src : List ℕ) → n ≤ length src → Fits (length src) (m src)

Safe-Guarded : {A : Type 0} {m : Reader A} → Safe m → Guarded 0 m
Safe-Guarded h = record { apply = λ src le. h.apply src }

ensure-Guarded :
    {A : Type 0} (n : ℕ) (b : Bool) (e : DecodeError) {k : Reader A}
    → Guarded n k
    → Guarded n (ensure b e >> k)
ensure-Guarded n true e h = record { apply = λ src le. h.apply src le }
ensure-Guarded n false e h = record { apply = λ src le. tt }

get_u8-Guarded :
    {A : Type 0} (n : ℕ) {f : ℕ → Reader A}
    → ((b : ℕ) → Guarded n (f b))
    → Guarded (suc n) (get_u8 >>= f)
get_u8-Guarded n {f = f} h = record { apply = fits }
  where
    fits : (src : List ℕ) → suc n ≤ length src → Fits (length src) ((get_u8 >>= f) src)
    fits [] le = absurd (omega arith)
    fits (b ∷ src) le =
        Fits-le (length src) _ (f b src) (omega arith) ((h b).apply src (omega (arith, le)))

get_u16-Guarded :
    {A : Type 0} (n : ℕ) {f : ℕ → Reader A}
    → ((v : ℕ) → Guarded n (f v))
    → Guarded (suc (suc n)) (get_u16 >>= f)
get_u16-Guarded n {f = f} h = record { apply = fits }
  where
    fits : (src : List ℕ) → suc (suc n) ≤ length src → Fits (length src) ((get_u16 >>= f) src)
    fits [] le = absurd (omega arith)
    fits (a ∷ []) le = absurd (omega arith)
    fits (a ∷ b ∷ src) le =
        Fits-le (length src) _ (f (a * 256 + b) src) (omega arith)
          ((h (a * 256 + b)).apply src (omega (arith, le)))

split_to-Guarded :
    {A : Type 0} (k n : ℕ) {f : List ℕ → Reader A}
    → ((b : List ℕ) → Guarded n (f b))
    → Guarded (k + n) (split_to k >>= f)
split_to-Guarded k n {f = f} h = record { apply = fits }
  where
    fits : (src : List ℕ) → k + n ≤ length src → Fits (length src) ((split_to k >>= f) src)
    fits src le =
        let e : leb k (length src) ≡ true = ground arith in
        rw e (
          Fits-le (length (drop k src)) _ (f (take k src) (drop k src))
            (omega (arith, length-drop k src))
            ((h (take k src)).apply (drop k src) (omega (arith, le, length-drop k src))))

Guarded-Safe :
    {A : Type 0} (n : ℕ) (e : DecodeError) {m : Reader A}
    → Guarded n m
    → Safe (remaining >>= λ r. ensure (leb n r) e >> m)
Guarded-Safe n e {m = m} h = record { apply = λ src. fits src (leb n (length src)) refl }
  where
    fits :
        (src : List ℕ) (b : Bool)
        → leb n (length src) ≡ b
        → Fits (length src) ((ensure b e >> m) src)
    fits src true p = h.apply src (ground arith)
    fits src false p = tt

decode_connect-Safe : (utf8 : List ℕ → Bool) → Safe (decode_connect utf8)
unfolding decode_connect
decode_connect-Safe utf8 = Guarded-Safe 10 invalid_length (
    get_u16-Guarded 8 λ len. split_to-Guarded 4 4 λ name. ensure-Guarded 4 _ _ (
      get_u8-Guarded 3 λ level. ensure-Guarded 3 _ _ (
        get_u8-Guarded 2 λ flags. ensure-Guarded 2 _ _ (
          get_u16-Guarded 0
            λ keep_alive. Safe-Guarded (decode_connect_fields-Safe utf8 flags keep_alive)))))

decode_connect_ack-Safe : (utf8 : List ℕ → Bool) → Safe (decode_connect_ack utf8)
unfolding decode_connect_ack
decode_connect_ack-Safe utf8 = Guarded-Safe 2 invalid_length (
    get_u8-Guarded 1 λ flags.
      ensure-Guarded 1 _ _ (get_u8-Guarded 0 λ code. Safe-Guarded (search packets depth 20)))

finish-ne-panic :
    {A : Type 0} {m : Reader A} (f : A → Packet) (src : List ℕ) → Safe m → finish f (m src) ≢ panic
finish-ne-panic {A = A} {m = m} f src h = by_result (length src) (m src) (h.apply src)
  where
    by_result : (n : ℕ) (r : Result DecodeError (A × List ℕ)) → Fits n r → finish f r ≢ panic
    by_result n (ok (a, rest)) fits = λ p. cc
    by_result n (err e) fits = λ p. cc
    by_result n panic fits = absurd fits

if-ne-panic :
    {A : Type 0} (b : Bool) {x y : Result DecodeError A}
    → x ≢ panic
    → y ≢ panic
    → (if b then x else y) ≢ panic
if-ne-panic true h k = h
if-ne-panic false h k = k

answers-ne-panic :
    ((packet : Packet) → ◌≢◌ {A = Result DecodeError Packet} (ok packet) panic)
    × ((e : DecodeError) → ◌≢◌ {A = Result DecodeError Packet} (err e) panic)
answers-ne-panic = (λ packet p. cc, λ e p. cc)

publish_ack-Safe :
    (utf8 : List ℕ → Bool)
    → Safe (decode_publish_ack utf8 publish_ack_codes PublishAckReason.success)
publish_ack-Safe utf8 = decode_publish_ack-Safe utf8 publish_ack_codes PublishAckReason.success

publish_ack2-Safe :
    (utf8 : List ℕ → Bool)
    → Safe (decode_publish_ack utf8 publish_ack2_codes PublishAck2Reason.success)
publish_ack2-Safe utf8 = decode_publish_ack-Safe utf8 publish_ack2_codes PublishAck2Reason.success

-- Whatever the bytes are and whatever the first byte is, `decode_packet` answers a packet or an
-- error: no getter runs past the end of the buffer or of the properties, and the loops over the
-- properties and over the topic filters end.
pub decode_packet-answers :
    (utf8 : List ℕ → Bool) (src : List ℕ) (first_byte : ℕ)
    → decode_packet utf8 src first_byte ≢ panic
unfolding decode_packet
decode_packet-answers utf8 src first_byte =
    if-ne-panic _
      (finish-ne-panic Packet.publish src
        (decode_publish-Safe utf8 (bit_and first_byte 0b0000_1111)))
      (if-ne-panic _ (finish-ne-panic Packet.publish_ack src (publish_ack-Safe utf8)) (
        if-ne-panic _ (answers-ne-panic.0 Packet.ping_request) (
          if-ne-panic _ (answers-ne-panic.0 Packet.ping_response) (
            if-ne-panic _ (finish-ne-panic Packet.subscribe src (decode_subscribe-Safe utf8)) (
              if-ne-panic _
                (finish-ne-panic Packet.subscribe_ack src
                  (decode_status_ack-Safe utf8 subscribe_ack_codes))
                (if-ne-panic _
                  (finish-ne-panic Packet.unsubscribe src (decode_unsubscribe-Safe utf8))
                  (if-ne-panic _
                    (finish-ne-panic Packet.unsubscribe_ack src
                      (decode_status_ack-Safe utf8 unsubscribe_ack_codes))
                    (if-ne-panic _ (finish-ne-panic Packet.connect src (decode_connect-Safe utf8)) (
                      if-ne-panic _
                        (finish-ne-panic Packet.connect_ack src (decode_connect_ack-Safe utf8))
                        (if-ne-panic _
                          (finish-ne-panic Packet.disconnect src (decode_disconnect-Safe utf8))
                          (if-ne-panic _ (finish-ne-panic Packet.auth src (decode_auth-Safe utf8)) (
                            if-ne-panic _
                              (finish-ne-panic Packet.publish_received src (publish_ack-Safe utf8))
                              (if-ne-panic _
                                (finish-ne-panic Packet.publish_release src
                                  (publish_ack2-Safe utf8))
                                (if-ne-panic _
                                  (finish-ne-panic Packet.publish_complete src
                                    (publish_ack2-Safe utf8))
                                  (answers-ne-panic.1 unsupported_packet_type)))))))))))))))
