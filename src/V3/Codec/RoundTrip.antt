-- ===== src/V3/Codec/RoundTrip.antt =====
-- `Codec::encode` against `Codec::decode` (src/v3/codec/codec.rs).
use mathlib.Core.Option.{some}
use ntex_mqtt.Base.{
  ℕ, suc, ◌+◌, ◌^◌, ◌<◌, ◌≡◌, refl, sym, ap, ◌∙◌, Bool, false, List, [], ◌∷◌, ◌++◌, length, drop,
  ok, arith, length-append, take-length-append, drop-length-append, Bool-cases, inl, inr, ltb,
}
use mathlib.Core.List.{append_assoc}
use ntex_mqtt.Wire.{decode_variable_length, write_variable_length, Writer}
use ntex_mqtt.Wire.Varint.{cursor-write_variable_length}
use ntex_mqtt.Wire.Pieces.{varint-append, varint_size-positive}
use ntex_mqtt.V3.Packet.{Packet}
use ntex_mqtt.V3.Decode.{decode_packet}
use ntex_mqtt.V3.Encode
use ntex_mqtt.V3.Encode.Sizes.{first_byte, content, content-Writes}
use ntex_mqtt.V3.Encode.Frames.{encode-IsFrame}
use ntex_mqtt.Wire.Frames.{IsFrame}
use ntex_mqtt.V3.RoundTrip.{IsValid}
use ntex_mqtt.V3.RoundTrip.Packets.{decode_packet-content}
use ntex_mqtt.V3.Codec.{
  FixedHeader, DecodeState, frame_header, frame, Codec, packet_answer, decode_frame, header_answer,
  decode_header, decode, lacks_packet_id, encode,
}
use ntex_mqtt.V3.Codec.Stream.{too_big, header_answer-some, decode-frame_header}

module _ (utf8 : List ℕ → Bool) where
  decode_header-cons :
      (c : Codec) (b : ℕ) (src : List ℕ)
      → 0 < length src
      → decode_header utf8 c (b ∷ src)
        ≡ header_answer utf8 c (b ∷ src) b (decode_variable_length src)
  unfolding decode_header
  decode_header-cons c b [] h = absurd (omega arith)
  decode_header-cons c b (d ∷ src) h = refl

  decode_frame-append :
      (c : Codec) (b : ℕ) (body rest : List ℕ)
      → decode_frame utf8 c
          (record { first_byte = b; remaining_length = length body })
          (body ++ rest)
        ≡ packet_answer utf8 c (length body) rest (decode_packet utf8 body b)
  unfolding decode_frame
  decode_frame-append c b body rest =
      let enough : ltb (length (body ++ rest)) (length body) ≡ false =
        ground (arith, length-append body rest) in
      rw (enough, take-length-append body rest, drop-length-append body rest) refl

  -- A whole frame at the front of the buffer.
  decode-IsFrame :
      (c : Codec) (bytes : List ℕ) (b n : ℕ) (body : Writer) (rest : List ℕ)
      → IsFrame bytes b n body
      → length body.bytes ≡ n
      → c.state ≡ frame_header
      → too_big c n ≡ false
      → decode utf8 c (bytes ++ rest)
        ≡ packet_answer utf8
            (record c { state = frame (record { first_byte = b; remaining_length = n }) })
            n
            rest
            (decode_packet utf8 body.bytes b)
  decode-IsFrame c bytes b n body rest f size st fits =
      let len : List ℕ = (write_variable_length n).bytes in
      let src : List ℕ = len ++ (body.bytes ++ rest) in
      let joined : bytes ++ rest ≡ b ∷ src =
        ap (λ (l : List ℕ). l ++ rest) f.layout ∙ ap (◌∷◌ b) (append_assoc len body.bytes rest) in
      let some_length : 0 < length src = omega (
        arith,
        length-append len (body.bytes ++ rest),
        varint_size-positive n,
        (cursor-write_variable_length n [] f.fits).1,
      ) in
      let fixed : ℕ → FixedHeader = λ k. record { first_byte = b; remaining_length = k } in
      let next : length len + 1 ≡ suc (length len) = omega arith in
      let left : drop (length len + 1) (b ∷ src) ≡ body.bytes ++ rest =
        ap (λ (k : ℕ). drop k (b ∷ src)) next ∙ drop-length-append len (body.bytes ++ rest) in
      ap (decode utf8 c) joined
      ∙ decode-frame_header utf8 c (b ∷ src) st
      ∙ decode_header-cons c b src some_length
      ∙ ap (header_answer utf8 c (b ∷ src) b) (varint-append n (body.bytes ++ rest) f.fits)
      ∙ header_answer-some utf8 c (b ∷ src) b n (length len) fits
      ∙ ap (decode_frame utf8 (record c { state = frame (fixed n) }) (fixed n)) left
      ∙ ap
          (λ (k : ℕ).
            decode_frame utf8 (record c { state = frame (fixed n) }) (fixed k) (body.bytes ++ rest))
          (sym size)
      ∙ decode_frame-append (record c { state = frame (fixed n) }) b body.bytes rest
      ∙ ap
          (λ (k : ℕ).
            packet_answer utf8 (record c { state = frame (fixed n) }) k rest
              (decode_packet utf8 body.bytes b))
          size

-- The conditions under which `Codec::encode` reaches the encoder with the size of the packet.
pub encode-encode :
    (p : Packet)
    → (encode p).result ≡ ok tt
    → Encode.get_encoded_size p < 2 ^ 32
    → encode p ≡ Encode.encode p (Encode.get_encoded_size p)
unfolding encode
encode-encode p h small = elim (Bool-cases (lacks_packet_id p)) [
  | inl lacks ↦ cc (rw lacks at h)
  | inr fine ↦ rw fine (ap (Encode.encode p) (omega arith))
]

-- A packet whose values are those of the Rust types (and, for CONNECT, which names a client or asks
-- for a clean session), which `Codec::encode` accepts, and whose size is below 2^32 and within the
-- limit set at the reader (0 is no limit): a codec that stands between frames decodes the bytes
-- written to that very packet and its size, whatever bytes follow; it leaves exactly those, and
-- stands between frames again.
pub decode-encode :
    (utf8 : List ℕ → Bool) (c : Codec) (p : Packet) (rest : List ℕ)
    → IsValid utf8 p
    → (encode p).result ≡ ok tt
    → Encode.get_encoded_size p < 2 ^ 32
    → c.state ≡ frame_header
    → too_big c (Encode.get_encoded_size p) ≡ false
    → decode utf8 c ((encode p).bytes ++ rest)
      ≡ record { answer = ok (some (p, Encode.get_encoded_size p)); codec = c; rest = rest }
unfolding packet_answer
decode-encode utf8 c p rest v h small st fits =
    let n : ℕ = Encode.get_encoded_size p in
    let same = encode-encode p h small in
    let f = encode-IsFrame p (ap (λ (w : Writer). w.result) (sym same) ∙ h) in
    ap (λ (w : Writer). decode utf8 c (w.bytes ++ rest)) same
    ∙ decode-IsFrame utf8 c (Encode.encode p n).bytes (first_byte p) n (content p) rest f
        (content-Writes p f.body_ok) st fits
    ∙ ap
        (packet_answer utf8
          (record c { state = frame (record { first_byte = first_byte p; remaining_length = n }) })
          n rest)
        (decode_packet-content utf8 p v f.body_ok)
    ∙ ap
        (λ (s : DecodeState). record {
          answer = ok (some (p, n));
          codec = record c { state = s };
          rest = rest;
        })
        (sym st)
