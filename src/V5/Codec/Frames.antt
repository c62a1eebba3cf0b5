-- ===== src/V5/Codec/Frames.antt =====
-- `Codec::decode` at a frame that is whole (src/v5/codec/codec.rs).
use mathlib.Core.Option.{some}
use mathlib.Core.List.{append_assoc}
use ntex_mqtt.Base.{
  ℕ, suc, ◌+◌, ◌<◌, ◌≡◌, refl, sym, ap, ◌∙◌, Bool, true, false, not, ◌&&◌, List, [], ◌∷◌, ◌++◌,
  length, drop, ok, err, arith, length-append, take-length-append, drop-length-append, Bool-cases,
  inl, inr, ltb, ◌==◌,
}
use ntex_mqtt.Wire.{max_size_exceeded, decode_variable_length, write_variable_length, Writer}
use ntex_mqtt.Wire.Varint.{cursor-write_variable_length}
use ntex_mqtt.Wire.Pieces.{varint-append, varint_size-positive}
use ntex_mqtt.Wire.Frames.{IsFrame}
use ntex_mqtt.V5.Decode.{decode_packet}
use ntex_mqtt.V5.Codec.{
  FixedHeader, DecodeState, frame_header, frame, Codec, packet_answer, decode_frame, header_answer,
  decode_header, decode, decode_in,
}

abbrev pub too_big : Codec → ℕ → Bool
too_big c n = not (c.max_in_size == 0) && ltb c.max_in_size n

module _ (utf8 : List ℕ → Bool) where
  -- The second arm of the loop does what the first would do on too few bytes.
  pub header_answer-some :
      (c : Codec) (src : List ℕ) (b n consumed : ℕ)
      → too_big c n ≡ false
      → header_answer utf8 c src b (ok (some (n, consumed)))
        ≡ decode_frame utf8
            (record c { state = frame (record { first_byte = b; remaining_length = n }) })
            (record { first_byte = b; remaining_length = n })
            (drop (consumed + 1) src)
  unfolding header_answer decode_frame
  header_answer-some c src b n consumed fits =
      elim (Bool-cases (ltb (length (drop (consumed + 1) src)) n)) [
        | inl short ↦ rw (fits, short) refl
        | inr enough ↦ rw (fits, enough) refl
      ]

  pub header_answer-too_big :
      (c : Codec) (src : List ℕ) (b n consumed : ℕ)
      → too_big c n ≡ true
      → header_answer utf8 c src b (ok (some (n, consumed)))
        ≡ record { answer = err max_size_exceeded; codec = c; rest = src }
  unfolding header_answer
  header_answer-too_big c src b n consumed big = rw big refl

  decode_header-cons :
      (c : Codec) (b : ℕ) (src : List ℕ)
      → 0 < length src
      → decode_header utf8 c (b ∷ src)
        ≡ header_answer utf8 c (b ∷ src) b (decode_variable_length src)
  unfolding decode_header
  decode_header-cons c b [] h = absurd (omega arith)
  decode_header-cons c b (d ∷ src) h = refl

  decode_frame-append :
      (c : Codec) (b : ℕ) (body rest : List ℕ)
      → decode_frame utf8 c
          (record { first_byte = b; remaining_length = length body })
          (body ++ rest)
        ≡ packet_answer utf8 c (length body) rest (decode_packet utf8 body b)
  unfolding decode_frame
  decode_frame-append c b body rest =
      let enough : ltb (length (body ++ rest)) (length body) ≡ false =
        ground (arith, length-append body rest) in
      rw (enough, take-length-append body rest, drop-length-append body rest) refl

  decode-frame_header :
      (c : Codec) (src : List ℕ)
      → c.state ≡ frame_header
      → decode utf8 c src ≡ decode_header utf8 c src
  unfolding decode
  decode-frame_header c src st = ap (λ (s : DecodeState). decode_in utf8 s c src) st

  -- A whole frame at the front of the buffer.
  pub decode-IsFrame :
      (c : Codec) (bytes : List ℕ) (b n : ℕ) (body : Writer) (rest : List ℕ)
      → IsFrame bytes b n body
      → length body.bytes ≡ n
      → c.state ≡ frame_header
      → too_big c n ≡ false
      → decode utf8 c (bytes ++ rest)
        ≡ packet_answer utf8
            (record c { state = frame (record { first_byte = b; remaining_length = n }) })
            n
            rest
            (decode_packet utf8 body.bytes b)
  decode-IsFrame c bytes b n body rest f size st fits =
      let len : List ℕ = (write_variable_length n).bytes in
      let src : List ℕ = len ++ (body.bytes ++ rest) in
      let joined : bytes ++ rest ≡ b ∷ src =
        ap (λ (l : List ℕ). l ++ rest) f.layout ∙ ap (◌∷◌ b) (append_assoc len body.bytes rest) in
      let some_length : 0 < length src = omega (
        arith,
        length-append len (body.bytes ++ rest),
        varint_size-positive n,
        (cursor-write_variable_length n [] f.fits).1,
      ) in
      let fixed : ℕ → FixedHeader = λ k. record { first_byte = b; remaining_length = k } in
      let next : length len + 1 ≡ suc (length len) = omega arith in
      let left : drop (length len + 1) (b ∷ src) ≡ body.bytes ++ rest =
        ap (λ (k : ℕ). drop k (b ∷ src)) next ∙ drop-length-append len (body.bytes ++ rest) in
      ap (decode utf8 c) joined
      ∙ decode-frame_header c (b ∷ src) st
      ∙ decode_header-cons c b src some_length
      ∙ ap (header_answer utf8 c (b ∷ src) b) (varint-append n (body.bytes ++ rest) f.fits)
      ∙ header_answer-some c (b ∷ src) b n (length len) fits
      ∙ ap (decode_frame utf8 (record c { state = frame (fixed n) }) (fixed n)) left
      ∙ ap
          (λ (k : ℕ).
            decode_frame utf8 (record c { state = frame (fixed n) }) (fixed k) (body.bytes ++ rest))
          (sym size)
      ∙ decode_frame-append (record c { state = frame (fixed n) }) b body.bytes rest
      ∙ ap
          (λ (k : ℕ).
            packet_answer utf8 (record c { state = frame (fixed n) }) k rest
              (decode_packet utf8 body.bytes b))
          size
