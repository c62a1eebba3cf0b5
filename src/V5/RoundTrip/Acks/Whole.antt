-- ===== src/V5/RoundTrip/Acks/Whole.antt =====
-- Acknowledgements as a whole (src/v5/codec/packet/pubacks.rs, subscribe.rs).
use mathlib.Core.Path.{subst}
use mathlib.Core.Option.{none}
use mathlib.Core.List.{append-nil}
use ntex_mqtt.Base.{
  ℕ, ◌+◌, ◌%◌, ◌^◌, ◌≤◌, ◌<◌, ◌≡◌, refl, ap, ◌∙◌, Bool, List, [], ◌∷◌, ◌++◌, map, length,
  length-append, ok, arith,
}
use ntex_mqtt.Wire.{Writer, ◌>>=◌, pure, ◌then_write◌, put, encode_u16}
use ntex_mqtt.Wire.Readers.{if_more-eq, to_the_end, to_the_end-eq-ok}
use ntex_mqtt.Wire.Writers.{then_write-eq-ok}
use ntex_mqtt.Wire.Fields.{decode_nonzero_u16-u16_bytes}
use ntex_mqtt.V5.Lengths.{u32_sub}
use ntex_mqtt.V5.Packet.{Ack, StatusAck}
use ntex_mqtt.V5.Property.Fields.{IsNonZeroU16}
use ntex_mqtt.V5.Property.Blocks.{IsDiagnostic}
use ntex_mqtt.V5.Reasons.{try_from}
use ntex_mqtt.V5.Decode.Acks.{decode_ack_props, decode_publish_ack, decode_codes, decode_status_ack}
use ntex_mqtt.V5.Encode.Acks.{
  ack_props_size, encode_ack_props, publish_ack_size, encode_publish_ack, encode_status_ack,
}
use ntex_mqtt.V5.RoundTrip.Acks.{ack_fit, encode_ack_props-AckRead}

-- `limit - HEADER_LEN - 4`, with wrap-around.
unfoldable pub kept_ack : {R : Type 0} → Ack R → ℕ → Ack R
kept_ack a limit =
    let k = ack_fit a.properties a.reason_string (u32_sub (u32_sub limit 3) 4) in
    record a { properties = k.user_properties; reason_string = k.reason_string }

-- With the limit that `ack_props` is given.
unfoldable pub kept_status_ack : {R : Type 0} → StatusAck R → ℕ → StatusAck R
kept_status_ack a limit =
    let k = ack_fit a.properties a.reason_string limit in
    record a { properties = k.user_properties; reason_string = k.reason_string }

module _ (utf8 : List ℕ → Bool) where
  abbrev pub IsValidAck : {R : Type 0} → Ack R → Type 0
  IsValidAck a = IsNonZeroU16 a.packet_id × IsDiagnostic utf8 a.properties a.reason_string

  -- The size of a PUBACK, PUBREC, PUBREL or PUBCOMP packet is that of what is written, and what is
  -- written is read back.
  pub publish_ack_read :
      {R : Type 0} (codes : List (ℕ × R)) (bits : R → ℕ) (success : R)
      → ((r : R) → try_from codes (bits r) ≡ ok r)
      → (a : Ack R) (limit : ℕ) → IsValidAck a
      → publish_ack_size a limit ≤ 268_435_455
      → (encode_publish_ack bits a (publish_ack_size a limit)).result ≡ ok tt
      → (length (encode_publish_ack bits a (publish_ack_size a limit)).bytes
          ≡ publish_ack_size a limit)
        × (decode_publish_ack utf8 codes success
              (encode_publish_ack bits a (publish_ack_size a limit)).bytes
            ≡ ok (kept_ack a limit, []))
  unfolding publish_ack_size encode_publish_ack decode_publish_ack kept_ack encode_u16
  publish_ack_read codes bits success codes_ok a limit (id, diag) small h =
      let m = u32_sub (u32_sub limit 3) 4 in
      let size = ack_props_size a.properties a.reason_string m in
      let left : u32_sub (3 + size) 3 ≡ size = omega (arith, small) in
      let w : ℕ → Writer = encode_ack_props a.properties a.reason_string in
      let r =
        encode_ack_props-AckRead utf8 a.properties a.reason_string m diag (omega (arith, small))
          (subst (λ n. (w n).result ≡ ok tt) left h) in
      let read = rw append-nil at (r.read []) in
      let more : 0 < length (w size).bytes = omega (arith, r.written, r.positive) in
      (
        rw left (omega (arith, r.written)),
        rw left (
            rw
              (decode_nonzero_u16-u16_bytes a.packet_id (bits a.reason_code ∷ (w size).bytes) id.0
                id.1)
              (rw (codes_ok a.reason_code) (
                if_more-eq
                  (do
                    props ← to_the_end (decode_ack_props utf8)
                    pure (record {
                      packet_id = a.packet_id;
                      reason_code = a.reason_code;
                      properties = props.user_props;
                      reason_string = props.reason_string;
                    }))
                  (pure (record {
                    packet_id = a.packet_id;
                    reason_code = a.reason_code;
                    properties = [];
                    reason_string = none;
                  }))
                  (w size).bytes more
                  (rw (to_the_end-eq-ok (decode_ack_props utf8) (w size).bytes read) refl)))),
      )

decode_codes-map :
    {R : Type 0} (codes : List (ℕ × R)) (bits : R → ℕ)
    → ((r : R) → try_from codes (bits r) ≡ ok r)
    → (status : List R) → decode_codes codes (map bits status) ≡ ok status
unfolding decode_codes
decode_codes-map codes bits codes_ok [] = refl
decode_codes-map codes bits codes_ok (r ∷ rs) =
    rw (codes_ok r, decode_codes-map codes bits codes_ok rs) refl

length-map : {A B : Type 0} (f : A → B) (xs : List A) → length (map f xs) ≡ length xs
length-map f [] = refl
length-map f (x ∷ xs) = omega (arith, length-map f xs)

module _ (utf8 : List ℕ → Bool) where
  abbrev pub IsValidStatusAck : {R : Type 0} → StatusAck R → Type 0
  IsValidStatusAck a = IsNonZeroU16 a.packet_id × IsDiagnostic utf8 a.properties a.reason_string

  pub status_ack_read :
      {R : Type 0} (codes : List (ℕ × R)) (bits : R → ℕ)
      → ((r : R) → try_from codes (bits r) ≡ ok r)
      → (a : StatusAck R) (limit : ℕ)
      → let n = 2 + length a.status + ack_props_size a.properties a.reason_string limit in
        IsValidStatusAck a
        → n ≤ 268_435_455
        → (encode_status_ack bits a n).result ≡ ok tt
        → (length (encode_status_ack bits a n).bytes ≡ n)
          × (decode_status_ack utf8 codes (encode_status_ack bits a n).bytes
              ≡ ok (kept_status_ack a limit, []))
  unfolding encode_status_ack decode_status_ack kept_status_ack encode_u16
  status_ack_read codes bits codes_ok a limit (id, diag) small h =
      let size = ack_props_size a.properties a.reason_string limit in
      let len = length a.status in
      let left : u32_sub (u32_sub (2 + len + size) 2) (len % 2 ^ 32) ≡ size =
        omega (arith, small) in
      let w : ℕ → Writer = encode_ack_props a.properties a.reason_string in
      let both =
        then_write-eq-ok (w size) (put (map bits a.status))
          (subst (λ n. (w n then_write put (map bits a.status)).result ≡ ok tt) left h) in
      let r =
        encode_ack_props-AckRead utf8 a.properties a.reason_string limit diag (omega (arith, small))
          both.first in
      let joined = ap (λ n. (w n then_write put (map bits a.status)).bytes) left ∙ both.joined in
      (
        rw joined (rw (length-append, length-map) (omega (arith, r.written))),
        rw joined (
            rw
              (decode_nonzero_u16-u16_bytes a.packet_id ((w size).bytes ++ map bits a.status) id.0
                id.1)
              (rw (r.read (map bits a.status))
                (rw (decode_codes-map codes bits codes_ok a.status) refl))),
      )
