-- ===== src/V3/Codec/Limits.antt =====
-- What `Codec::decode` answers on any bytes: panics, the size limit (src/v3/codec/codec.rs).
use mathlib.Core.Option.{Option, none, some}
use ntex_mqtt.Base.{
  ℕ, ◌≤◌, ◌≡◌, ◌≢◌, refl, Bool, List, [], ◌∷◌, length, Result, ok, err, panic, arith, Bool-cases,
  ◌⊎◌, inl, inr, ltb,
}
use mathlib.Core.Path.{subst}
use ntex_mqtt.Wire.{DecodeError}
use ntex_mqtt.Wire.Pieces.{answer, complete, partial, too_long}
use ntex_mqtt.V3.Packet.{Packet}
use ntex_mqtt.V3.Decode.Safety.{decode_packet-ne-panic}
use ntex_mqtt.V3.Codec.{
  FixedHeader, DecodeState, frame_header, frame, Codec, Decoded, packet_answer, decode_frame,
  decode_header, decode, decode_in,
}
use ntex_mqtt.V3.Codec.Stream.{too_big, header_answer-some, header_answer-too_big}

abbrev pub IsWithin : ℕ → ℕ → Type 0
IsWithin max_size n = (max_size ≡ 0) ⊎ (n ≤ max_size)

-- A frame that the codec has begun is within its limit.
abbrev pub IsSound : ℕ → DecodeState → Type 0
IsSound max_size frame_header = Unit {0}
IsSound max_size (frame fixed) = IsWithin max_size fixed.remaining_length

-- An answer is no panic, and no packet over the limit.
abbrev pub IsAnswer : ℕ → Result DecodeError (Option (Packet × ℕ)) → Type 0
IsAnswer max_size (ok none) = Unit {0}
IsAnswer max_size (ok (some (p, n))) = IsWithin max_size n
IsAnswer max_size (err e) = Unit {0}
IsAnswer max_size panic = ⊥

-- What holds after every call of a codec with the limit `max_size`.
pub record IsSafe (max_size : ℕ) (d : Decoded) : Type 0 where
  pub answer_kept : IsAnswer max_size d.answer
  pub limit_kept : d.codec.max_size ≡ max_size
  pub sound : IsSound max_size d.codec.state

module _ (utf8 : List ℕ → Bool) where
  packet_answer-IsSafe :
      (c : Codec) (n : ℕ) (rest : List ℕ) (r : Result DecodeError Packet)
      → r ≢ panic
      → IsSound c.max_size c.state
      → IsWithin c.max_size n
      → IsSafe c.max_size (packet_answer utf8 c n rest r)
  unfolding packet_answer
  packet_answer-IsSafe c n rest (ok p) h s k = record {
    answer_kept = k;
    limit_kept = refl;
    sound = tt;
  }
  packet_answer-IsSafe c n rest (err x) h s k = record {
    answer_kept = tt;
    limit_kept = refl;
    sound = s;
  }
  packet_answer-IsSafe c n rest panic h s k = absurd (h refl)

  decode_frame-IsSafe :
      (c : Codec) (fixed : FixedHeader) (src : List ℕ)
      → IsSound c.max_size c.state
      → IsWithin c.max_size fixed.remaining_length
      → IsSafe c.max_size (decode_frame utf8 c fixed src)
  unfolding decode_frame
  decode_frame-IsSafe c fixed src s k =
      elim (Bool-cases (ltb (length src) fixed.remaining_length)) [
        | inl short ↦ rw short (record { answer_kept = tt; limit_kept = refl; sound = s })
        | inr enough ↦ rw enough (
            packet_answer-IsSafe c fixed.remaining_length _ _ (decode_packet-ne-panic utf8 _ _) s k)
      ]

  decode_header-IsSafe :
      (c : Codec) (src : List ℕ)
      → IsSound c.max_size c.state
      → IsSafe c.max_size (decode_header utf8 c src)
  unfolding decode_header
  decode_header-IsSafe c [] s = record { answer_kept = tt; limit_kept = refl; sound = s }
  decode_header-IsSafe c (b ∷ []) s = record { answer_kept = tt; limit_kept = refl; sound = s }
  decode_header-IsSafe c (b ∷ d ∷ src) s = elim (answer (d ∷ src)) [
    | complete v front rest same e known ↦ elim (Bool-cases (too_big c v)) [
      | inl big ↦
          rw (known, header_answer-too_big utf8 c (b ∷ d ∷ src) b v (length front) big)
            (record { answer_kept = tt; limit_kept = refl; sound = s })
      | inr fits ↦
          let fixed : FixedHeader = record { first_byte = b; remaining_length = v } in
          let kept : IsWithin c.max_size v = ground arith in
          rw (known, header_answer-some utf8 c (b ∷ d ∷ src) b v (length front) fits)
            (decode_frame-IsSafe (record c { state = frame fixed }) fixed _ kept kept)
    ]
    | partial e known ↦ rw known (record { answer_kept = tt; limit_kept = refl; sound = s })
    | too_long e known ↦ rw known (record { answer_kept = tt; limit_kept = refl; sound = s })
  ]

  decode_in-IsSafe :
      (st : DecodeState) (c : Codec) (src : List ℕ)
      → c.state ≡ st
      → IsSound c.max_size c.state
      → IsSafe c.max_size (decode_in utf8 st c src)
  decode_in-IsSafe frame_header c src e s = decode_header-IsSafe c src s
  decode_in-IsSafe (frame fixed) c src e s =
      decode_frame-IsSafe c fixed src s (subst (IsSound c.max_size) e s)

-- On any bytes, a codec whose begun frame (if it has one) is within its size limit (0 is no limit)
-- answers without a panic, hands out no packet with more content than that limit, and leaves a
-- codec with the same limit whose begun frame is within it again.
pub decode-IsSafe :
    (utf8 : List ℕ → Bool) (c : Codec) (src : List ℕ)
    → IsSound c.max_size c.state
    → IsSafe c.max_size (decode utf8 c src)
unfolding decode
decode-IsSafe utf8 c src s = decode_in-IsSafe utf8 c.state c src refl s
