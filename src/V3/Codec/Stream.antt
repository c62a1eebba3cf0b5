-- ===== src/V3/Codec/Stream.antt =====
-- Bytes that arrive in pieces (src/v3/codec/codec.rs).
use mathlib.Core.Option.{none, some}
use ntex_mqtt.Base.{
  ℕ, suc, ◌+◌, ◌≤◌, ◌≡◌, ◌≢◌, refl, sym, ap, ◌∙◌, Bool, true, false, not, ◌&&◌, List, [], ◌∷◌, ◌++◌,
  ltb, ◌==◌, length, drop, Result, ok, err, panic, arith, length-append, Bool-cases, inl, inr,
}
use ntex_mqtt.Wire.{DecodeError, max_size_exceeded}
use ntex_mqtt.Wire.Pieces.{complete, partial, too_long, answer, decode_variable_length-append}
use ntex_mqtt.V3.Packet.{Packet}
use ntex_mqtt.V3.Codec.{
  FixedHeader, DecodeState, frame_header, frame, Codec, Decoded, packet_answer, decode_frame,
  header_answer, decode_header, decode_in, decode,
}

pub drop-append : (n : ℕ) (xs ys : List ℕ) → n ≤ length xs → drop n (xs ++ ys) ≡ drop n xs ++ ys
drop-append ℕ.zero xs ys h = refl
drop-append (suc n) [] ys h = absurd (omega arith)
drop-append (suc n) (x ∷ xs) ys h = drop-append n xs ys (omega arith)

abbrev waiting : Codec → List ℕ → Decoded
waiting c src = record { answer = ok none; codec = c; rest = src }

abbrev pub too_big : Codec → ℕ → Bool
too_big c n = not (c.max_size == 0) && ltb c.max_size n

module _ (utf8 : List ℕ → Bool) where
  packet_answer-ne-none :
      (c : Codec) (n : ℕ) (rest : List ℕ) (r : Result DecodeError Packet)
      → (packet_answer utf8 c n rest r).answer ≢ ok none
  unfolding packet_answer
  packet_answer-ne-none c n rest (ok p) e = cc
  packet_answer-ne-none c n rest (err x) e = cc
  packet_answer-ne-none c n rest panic e = cc

  -- A frame that waits for bytes is left as it is.
  frame_waits :
      (c : Codec) (fixed : FixedHeader) (src : List ℕ)
      → (decode_frame utf8 c fixed src).answer ≡ ok none
      → decode_frame utf8 c fixed src ≡ waiting c src
  unfolding decode_frame
  frame_waits c fixed src h = elim (Bool-cases (ltb (length src) fixed.remaining_length)) [
    | inl short ↦ rw short
    | inr enough ↦ absurd (packet_answer-ne-none c fixed.remaining_length _ _ (rw enough at h))
  ]

  -- The second arm of the loop does what the first would do on too few bytes.
  pub header_answer-some :
      (c : Codec) (src : List ℕ) (b n consumed : ℕ)
      → too_big c n ≡ false
      → header_answer utf8 c src b (ok (some (n, consumed)))
        ≡ decode_frame utf8
            (record c { state = frame (record { first_byte = b; remaining_length = n }) })
            (record { first_byte = b; remaining_length = n })
            (drop (consumed + 1) src)
  unfolding header_answer decode_frame
  header_answer-some c src b n consumed fits =
      elim (Bool-cases (ltb (length (drop (consumed + 1) src)) n)) [
        | inl short ↦ rw (fits, short) refl
        | inr enough ↦ rw (fits, enough) refl
      ]

  pub header_answer-too_big :
      (c : Codec) (src : List ℕ) (b n consumed : ℕ)
      → too_big c n ≡ true
      → header_answer utf8 c src b (ok (some (n, consumed)))
        ≡ record { answer = err max_size_exceeded; codec = c; rest = src }
  unfolding header_answer
  header_answer-too_big c src b n consumed big = rw big refl

  -- The next call, when more bytes have come.
  abbrev pub resume : Decoded → List ℕ → Decoded
  resume d more = decode utf8 d.codec (d.rest ++ more)

  pub decode-frame_header :
      (c : Codec) (src : List ℕ)
      → c.state ≡ frame_header
      → decode utf8 c src ≡ decode_header utf8 c src
  unfolding decode
  decode-frame_header c src st = ap (λ (s : DecodeState). decode_in utf8 s c src) st

  decode-frame :
      (c : Codec) (fixed : FixedHeader) (src : List ℕ)
      → c.state ≡ frame fixed
      → decode utf8 c src ≡ decode_frame utf8 c fixed src
  unfolding decode
  decode-frame c fixed src st = ap (λ (s : DecodeState). decode_in utf8 s c src) st

  frame_stream :
      (c : Codec) (fixed : FixedHeader) (src more : List ℕ)
      → c.state ≡ frame fixed
      → (decode_frame utf8 c fixed src).answer ≡ ok none
      → resume (decode_frame utf8 c fixed src) more ≡ decode_frame utf8 c fixed (src ++ more)
  frame_stream c fixed src more st h =
      ap (λ (d : Decoded). resume d more) (frame_waits c fixed src h)
      ∙ decode-frame c fixed (src ++ more) st

  header_stream :
      (c : Codec) (b d : ℕ) (src more : List ℕ)
      → c.state ≡ frame_header
      → (decode_header utf8 c (b ∷ d ∷ src)).answer ≡ ok none
      → resume (decode_header utf8 c (b ∷ d ∷ src)) more
        ≡ decode_header utf8 c ((b ∷ d ∷ src) ++ more)
  unfolding decode_header
  header_stream c b d src more st h = elim (answer (d ∷ src)) [
    | complete v front rest same e known ↦ elim (Bool-cases (too_big c v)) [
      | inl big ↦ cc (
        ap (λ (x : Decoded). x.answer)
            (header_answer-too_big c (b ∷ d ∷ src) b v (length front) big),
        known,
      )
      | inr fits ↦
          let fixed : FixedHeader = record { first_byte = b; remaining_length = v } in
          let c' : Codec = record c { state = frame fixed } in
          let first = header_answer-some c (b ∷ d ∷ src) b v (length front) fits in
          let whole = decode_variable_length-append (d ∷ src) more (λ none_yet. cc) ∙ known in
          let within : length front + 1 ≤ length (b ∷ d ∷ src) =
            omega (arith, ap (λ (l : List ℕ). length l) same, length-append front rest) in
          rw (known, whole)
            (ap (λ (x : Decoded). resume x more) first
              ∙ frame_stream c' fixed (drop (length front + 1) (b ∷ d ∷ src)) more refl
                  (rw (known, first) at h)
              ∙ ap (decode_frame utf8 c' fixed)
                  (sym (drop-append (length front + 1) (b ∷ d ∷ src) more within))
              ∙ sym (header_answer-some c (b ∷ d ∷ (src ++ more)) b v (length front) fits))
    ]
    | partial e known ↦ rw known (decode-frame_header c (b ∷ d ∷ (src ++ more)) st)
    | too_long e known ↦ cc (known)
  ]

  by_state :
      (st : DecodeState) (c : Codec) (src more : List ℕ)
      → c.state ≡ st
      → (decode_in utf8 st c src).answer ≡ ok none
      → resume (decode_in utf8 st c src) more ≡ decode_in utf8 st c (src ++ more)
  unfolding decode_header
  by_state (frame fixed) c src more e h = frame_stream c fixed src more e h
  by_state frame_header c [] more e h = decode-frame_header c more e
  by_state frame_header c (b ∷ []) more e h = decode-frame_header c (b ∷ more) e
  by_state frame_header c (b ∷ d ∷ src) more e h = header_stream c b d src more e h

  -- When `decode` answers that it wants more bytes, then whatever bytes follow, calling it again on
  -- what it left with those bytes behind gives the same packet or error, the same codec and the
  -- same rest as one call on all the bytes: how the transport cuts the stream does not matter.
  pub decode-append :
      (c : Codec) (src more : List ℕ)
      → (decode utf8 c src).answer ≡ ok none
      → decode utf8 (decode utf8 c src).codec ((decode utf8 c src).rest ++ more)
        ≡ decode utf8 c (src ++ more)
  decode-append c src more h = unfold decode in by_state c.state c src more refl h
