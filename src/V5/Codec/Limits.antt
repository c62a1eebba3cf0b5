-- ===== src/V5/Codec/Limits.antt =====
-- What `Codec::decode` answers on any bytes: panics, limits, flags (src/v5/codec/codec.rs).
use mathlib.Core.Option.{Option, none, some}
use ntex_mqtt.Base.{
  ℕ, ◌≤◌, ◌≡◌, ◌≢◌, refl, Bool, List, [], ◌∷◌, length, Result, ok, err, panic, arith, Bool-cases,
  ◌⊎◌, inl, inr, ltb,
}
use mathlib.Core.Path.{subst}
use ntex_mqtt.Wire.{DecodeError}
use ntex_mqtt.Wire.Pieces.{answer, complete, partial, too_long}
use ntex_mqtt.V5.Packet.{Packet}
use ntex_mqtt.V5.Decode.Safety.Packets.{decode_packet-answers}
use ntex_mqtt.V5.Codec.{
  FixedHeader, DecodeState, frame_header, frame, Codec, Decoded, packet_answer, decode_frame,
  decode_header, decode, decode_in, note_connect,
}
use ntex_mqtt.V5.Codec.Frames.{too_big, header_answer-some, header_answer-too_big}

abbrev pub IsWithin : ℕ → ℕ → Type 0
IsWithin max_in_size n = (max_in_size ≡ 0) ⊎ (n ≤ max_in_size)

-- A frame that the codec has begun is within its limit.
abbrev pub IsSound : ℕ → DecodeState → Type 0
IsSound max_in_size frame_header = Unit {0}
IsSound max_in_size (frame fixed) = IsWithin max_in_size fixed.remaining_length

-- An answer is no panic, and no packet over the limit.
abbrev pub IsAnswer : ℕ → Result DecodeError (Option (Packet × ℕ)) → Type 0
IsAnswer max_in_size (ok none) = Unit {0}
IsAnswer max_in_size (ok (some (p, n))) = IsWithin max_in_size n
IsAnswer max_in_size (err e) = Unit {0}
IsAnswer max_in_size panic = ⊥

-- The flags that an answer leaves: only a CONNECT packet changes them.
abbrev pub flags_after : Result DecodeError (Option (Packet × ℕ)) → ℕ → ℕ
flags_after (ok (some (p, n))) flags = note_connect p flags
flags_after _ flags = flags

-- What holds after a call of `decode` on a codec with these limits and flags.
pub record IsGuarded (max_in_size max_out_size flags : ℕ) (d : Decoded) : Type 0 where
  pub answer_kept : IsAnswer max_in_size d.answer
  pub in_kept : d.codec.max_in_size ≡ max_in_size
  pub out_kept : d.codec.max_out_size ≡ max_out_size
  pub noted : d.codec.flags ≡ flags_after d.answer flags
  pub sound : IsSound max_in_size d.codec.state

module _ (utf8 : List ℕ → Bool) where
  packet_answer-IsGuarded :
      (c : Codec) (n : ℕ) (rest : List ℕ) (r : Result DecodeError Packet)
      → r ≢ panic
      → IsSound c.max_in_size c.state
      → IsWithin c.max_in_size n
      → IsGuarded c.max_in_size c.max_out_size c.flags (packet_answer utf8 c n rest r)
  unfolding packet_answer
  packet_answer-IsGuarded c n rest (ok p) h s k = record {
    answer_kept = k;
    in_kept = refl;
    out_kept = refl;
    noted = refl;
    sound = tt;
  }
  packet_answer-IsGuarded c n rest (err x) h s k = record {
    answer_kept = tt;
    in_kept = refl;
    out_kept = refl;
    noted = refl;
    sound = s;
  }
  packet_answer-IsGuarded c n rest panic h s k = absurd (h refl)

  decode_frame-IsGuarded :
      (c : Codec) (fixed : FixedHeader) (src : List ℕ)
      → IsSound c.max_in_size c.state
      → IsWithin c.max_in_size fixed.remaining_length
      → IsGuarded c.max_in_size c.max_out_size c.flags (decode_frame utf8 c fixed src)
  unfolding decode_frame
  decode_frame-IsGuarded c fixed src s k =
      elim (Bool-cases (ltb (length src) fixed.remaining_length)) [
        | inl short ↦
            rw short (record {
              answer_kept = tt;
              in_kept = refl;
              out_kept = refl;
              noted = refl;
              sound = s;
            })
        | inr enough ↦ rw enough (
            packet_answer-IsGuarded c fixed.remaining_length _ _ (decode_packet-answers utf8 _ _) s
              k)
      ]

  decode_header-IsGuarded :
      (c : Codec) (src : List ℕ)
      → IsSound c.max_in_size c.state
      → IsGuarded c.max_in_size c.max_out_size c.flags (decode_header utf8 c src)
  unfolding decode_header
  decode_header-IsGuarded c [] s = record {
    answer_kept = tt;
    in_kept = refl;
    out_kept = refl;
    noted = refl;
    sound = s;
  }
  decode_header-IsGuarded c (b ∷ []) s = record {
    answer_kept = tt;
    in_kept = refl;
    out_kept = refl;
    noted = refl;
    sound = s;
  }
  decode_header-IsGuarded c (b ∷ d ∷ src) s = elim (answer (d ∷ src)) [
    | complete v front rest same e known ↦ elim (Bool-cases (too_big c v)) [
      | inl big ↦
          rw (known, header_answer-too_big utf8 c (b ∷ d ∷ src) b v (length front) big)
            (record { answer_kept = tt; in_kept = refl; out_kept = refl; noted = refl; sound = s })
      | inr fits ↦
          let fixed : FixedHeader = record { first_byte = b; remaining_length = v } in
          let kept : IsWithin c.max_in_size v = ground arith in
          rw (known, header_answer-some utf8 c (b ∷ d ∷ src) b v (length front) fits)
            (decode_frame-IsGuarded (record c { state = frame fixed }) fixed _ kept kept)
    ]
    | partial e known ↦
        rw known
          (record { answer_kept = tt; in_kept = refl; out_kept = refl; noted = refl; sound = s })
    | too_long e known ↦
        rw known
          (record { answer_kept = tt; in_kept = refl; out_kept = refl; noted = refl; sound = s })
  ]

  decode_in-IsGuarded :
      (st : DecodeState) (c : Codec) (src : List ℕ)
      → c.state ≡ st
      → IsSound c.max_in_size c.state
      → IsGuarded c.max_in_size c.max_out_size c.flags (decode_in utf8 st c src)
  decode_in-IsGuarded frame_header c src e s = decode_header-IsGuarded c src s
  decode_in-IsGuarded (frame fixed) c src e s =
      decode_frame-IsGuarded c fixed src s (subst (IsSound c.max_in_size) e s)

-- On any bytes, a codec whose begun frame (if it has one) is within its inbound limit (0 is no
-- limit) answers without a panic, hands out no packet with more content than that limit, and leaves
-- a codec with the same limits whose begun frame is within it again, and whose flags are as they
-- were or, after a CONNECT packet, say what that packet asks for.
pub decode-IsGuarded :
    (utf8 : List ℕ → Bool) (c : Codec) (src : List ℕ)
    → IsSound c.max_in_size c.state
    → IsGuarded c.max_in_size c.max_out_size c.flags (decode utf8 c src)
unfolding decode
decode-IsGuarded utf8 c src s = decode_in-IsGuarded utf8 c.state c src refl s
