-- ===== src/Wire/Fields.antt =====
-- The primitive fields: encoders against decoders, and panics (src/utils.rs).
use mathlib.Core.List.{append_assoc}
use ntex_mqtt.Base.{
  ℕ, ◌^◌, ◌<◌, ◌≡◌, refl, Bool, true, false, List, [], ◌∷◌, ◌++◌, length, length-append,
  take-length-append, drop-length-append, ok, arith,
}
use ntex_mqtt.Wire.Writers.{encode_bytes-eq-ok}
use ntex_mqtt.Wire.{
  DecodeError, Reader, continue, ensure, split_to, decode_bool, decode_u16, decode_u32,
  decode_nonzero_u16, decode_bytes, decode_string, u16_bytes, u32_bytes, encode_bool, encode_u16,
  encode_u32, encode_bytes,
}

pub decode_u16-u16_bytes :
    (v : ℕ) (rest : List ℕ) → v < 2 ^ 16 → decode_u16 (u16_bytes v ++ rest) ≡ ok (v, rest)
unfolding decode_u16
decode_u16-u16_bytes v rest h = ground arith

pub decode_nonzero_u16-u16_bytes :
    (v : ℕ) (rest : List ℕ)
    → 0 < v
    → v < 2 ^ 16
    → decode_nonzero_u16 (u16_bytes v ++ rest) ≡ ok (v, rest)
unfolding decode_nonzero_u16
decode_nonzero_u16-u16_bytes v rest p h = ground (arith, decode_u16-u16_bytes v rest h)

pub decode_u32-u32_bytes :
    (v : ℕ) (rest : List ℕ) → v < 2 ^ 32 → decode_u32 (u32_bytes v ++ rest) ≡ ok (v, rest)
unfolding decode_u32
decode_u32-u32_bytes v rest h = ground arith

split_to-append : (b rest : List ℕ) → split_to (length b) (b ++ rest) ≡ ok (b, rest)
split_to-append b rest =
    ground (arith, length-append b rest, take-length-append b rest, drop-length-append b rest)

pub decode_bytes-u16_bytes :
    (b rest : List ℕ)
    → length b < 2 ^ 16
    → decode_bytes (u16_bytes (length b) ++ (b ++ rest)) ≡ ok (b, rest)
unfolding decode_bytes
decode_bytes-u16_bytes b rest h =
    rw (decode_u16-u16_bytes (length b) (b ++ rest) h, decode_bytes)
      (ground (arith, length-append b rest, take-length-append b rest, drop-length-append b rest))

-- An `ensure!` whose test holds.
pub ensured :
    {B : Type 0} (b : Bool) (e : DecodeError) (f : Unit {0} → Reader B) (src : List ℕ)
    → b ≡ true
    → continue (ensure b e src) f ≡ f tt src
ensured true e f src h = refl
ensured false e f src h = cc

pub four_bytes :
    (c d e f : ℕ) (src : List ℕ) → split_to 4 (c ∷ d ∷ e ∷ f ∷ src) ≡ ok (c ∷ d ∷ e ∷ f ∷ [], src)
four_bytes c d e f src = ground arith

-- The same of what the encoders of byte strings write.
pub read_bytes :
    (s rest : List ℕ)
    → (encode_bytes s).result ≡ ok tt
    → decode_bytes ((encode_bytes s).bytes ++ rest) ≡ ok (s, rest)
read_bytes s rest h =
    let (short, bytes) = encode_bytes-eq-ok s h in
    rw (bytes, append_assoc) (decode_bytes-u16_bytes s rest short)

pub read_string :
    (utf8 : List ℕ → Bool) (s rest : List ℕ)
    → (encode_bytes s).result ≡ ok tt
    → utf8 s ≡ true
    → decode_string utf8 ((encode_bytes s).bytes ++ rest) ≡ ok (s, rest)
unfolding decode_string
read_string utf8 s rest h u = rw (read_bytes s rest h, decode_string) (rw u)

-- Every primitive field that is encoded without an error is decoded to what it was, whatever
-- follows it.
pub fields_read_back :
    (rest : List ℕ)
    → ((b : Bool) → decode_bool ((encode_bool b).bytes ++ rest) ≡ ok (b, rest))
      × ((v : ℕ) → v < 2 ^ 16 → decode_u16 ((encode_u16 v).bytes ++ rest) ≡ ok (v, rest))
      × ((v : ℕ) → v < 2 ^ 32 → decode_u32 ((encode_u32 v).bytes ++ rest) ≡ ok (v, rest))
      × ((b : List ℕ)
          → (encode_bytes b).result ≡ ok tt
          → decode_bytes ((encode_bytes b).bytes ++ rest) ≡ ok (b, rest))
unfolding encode_u16 encode_u32
fields_read_back rest = (
  bools,
  λ v h. decode_u16-u16_bytes v rest h,
  λ v h. decode_u32-u32_bytes v rest h,
  λ b h. read_bytes b rest h,
)
  where
    bools : (b : Bool) → decode_bool ((encode_bool b).bytes ++ rest) ≡ ok (b, rest)
    bools true = unfold decode_bool encode_bool in ground arith
    bools false = unfold decode_bool encode_bool in ground arith
