-- ===== src/Wire/Pieces.antt =====
-- Variable-length integers that arrive in pieces.
use mathlib.Core.Option.{none, some}
use mathlib.Core.List.{append_assoc}
use ntex_mqtt.Base.{
  ℕ, ◌+◌, ◌*◌, ◌%◌, ◌^◌, ◌≤◌, ◌<◌, ◌≡◌, ◌≢◌, refl, sym, ap, ◌∙◌, ◌⊎◌, inl, inr, List, [], ◌∷◌, ◌++◌,
  ltb, ◌==◌, length, length-append, bit_and, ok, err, arith, Bool-cases,
}
use ntex_mqtt.Wire.{
  DecodeError, variable_length_loop, decode_variable_length_cursor, decode_variable_length,
  write_variable_length,
}
use ntex_mqtt.Wire.Varint.{varint_size, cursor-write_variable_length}

-- More bytes join the rest, and do not mend a number that is too long.
loop-append_ok :
    (src more : List ℕ) (shift len v : ℕ) (rest : List ℕ)
    → variable_length_loop src shift len ≡ ok (v, rest)
    → variable_length_loop (src ++ more) shift len ≡ ok (v, rest ++ more)
unfolding variable_length_loop
loop-append_ok [] more shift len v rest e = cc
loop-append_ok (b ∷ bs) more shift len v rest e = ground (
  arith,
  loop-append_ok bs more (shift + 7) ((len + bit_and b 127 * 2 ^ shift % 2 ^ 32) % 2 ^ 32) v rest,
)

loop-append_err :
    (src more : List ℕ) (shift len : ℕ)
    → variable_length_loop src shift len ≡ err DecodeError.invalid_length
    → variable_length_loop (src ++ more) shift len ≡ err DecodeError.invalid_length
unfolding variable_length_loop
loop-append_err [] more shift len e = cc
loop-append_err (b ∷ bs) more shift len e = ground (
  arith,
  loop-append_err bs more (shift + 7) ((len + bit_and b 127 * 2 ^ shift % 2 ^ 32) % 2 ^ 32),
)

loop_cases :
    (src : List ℕ) (shift len : ℕ)
    → ((p : ℕ × List ℕ) × (variable_length_loop src shift len ≡ ok p))
      ⊎ ((variable_length_loop src shift len ≡ err DecodeError.malformed_packet)
          ⊎ (variable_length_loop src shift len ≡ err DecodeError.invalid_length))
unfolding variable_length_loop
loop_cases [] shift len = inr (inl refl)
loop_cases (b ∷ bs) shift len = elim (Bool-cases (bit_and b 128 == 0)) [
  | inl last ↦ inl (((len + bit_and b 127 * 2 ^ shift % 2 ^ 32) % 2 ^ 32, bs), rw last)
  | inr more ↦ elim (Bool-cases (ltb shift 21)) [
    | inl few ↦ rw (more, few) (loop_cases bs (shift + 7) _)
    | inr many ↦ inr (inr (rw (more, many)))
  ]
]

loop_suffix :
    (src : List ℕ) (shift len v : ℕ) (rest : List ℕ)
    → variable_length_loop src shift len ≡ ok (v, rest)
    → (front : List ℕ) × (src ≡ front ++ rest)
unfolding variable_length_loop
loop_suffix [] shift len v rest e = cc
loop_suffix (b ∷ bs) shift len v rest e = elim (Bool-cases (bit_and b 128 == 0)) [
  | inl last ↦ (b ∷ [], ground arith)
  | inr more ↦ elim (Bool-cases (ltb shift 21)) [
    | inl few ↦
        let (front, same) = loop_suffix bs (shift + 7) _ v rest (rw (more, few) at e) in
        (b ∷ front, ap (◌∷◌ b) same)
    | inr many ↦ cc (rw (more, many) at e)
  ]
]

pub decode_variable_length-ok :
    (src : List ℕ) (v : ℕ) (front rest : List ℕ)
    → src ≡ front ++ rest
    → decode_variable_length_cursor src ≡ ok (v, rest)
    → decode_variable_length src ≡ ok (some (v, length front))
unfolding decode_variable_length
decode_variable_length-ok src v front rest same e =
    let size : length src ≡ length front + length rest =
      ap length same ∙ length-append front rest in
    rw (e, decode_variable_length) (ap (λ (n : ℕ). ok (some (v, n))) (omega arith))

decode_variable_length-malformed :
    (src : List ℕ)
    → decode_variable_length_cursor src ≡ err DecodeError.malformed_packet
    → decode_variable_length src ≡ ok none
unfolding decode_variable_length
decode_variable_length-malformed src e = rw (e, decode_variable_length)

decode_variable_length-invalid :
    (src : List ℕ)
    → decode_variable_length_cursor src ≡ err DecodeError.invalid_length
    → decode_variable_length src ≡ err DecodeError.invalid_length
unfolding decode_variable_length
decode_variable_length-invalid src e = rw (e, decode_variable_length)

-- The cursor's three answers, and what `decode_variable_length` makes of each.
pub data Answer (src : List ℕ) : Type 0 where
  complete :
      (v : ℕ) (front rest : List ℕ)
      → src ≡ front ++ rest
      → decode_variable_length_cursor src ≡ ok (v, rest)
      → decode_variable_length src ≡ ok (some (v, length front))
      → Answer src
  partial :
      decode_variable_length_cursor src ≡ err DecodeError.malformed_packet
      → decode_variable_length src ≡ ok none
      → Answer src
  too_long :
      decode_variable_length_cursor src ≡ err DecodeError.invalid_length
      → decode_variable_length src ≡ err DecodeError.invalid_length
      → Answer src

pub answer : (src : List ℕ) → Answer src
unfolding decode_variable_length_cursor
answer src = elim (loop_cases src 0 0) [
  | inl ((v, rest), e) ↦
      let (front, same) = loop_suffix src 0 0 v rest e in
      complete v front rest same e (decode_variable_length-ok src v front rest same e)
  | inr (inl e) ↦ partial e (decode_variable_length-malformed src e)
  | inr (inr e) ↦ too_long e (decode_variable_length-invalid src e)
]

-- Once `decode_variable_length` answers with a number or an error, more bytes do not change that.
pub decode_variable_length-append :
    (src more : List ℕ)
    → decode_variable_length src ≢ ok none
    → decode_variable_length (src ++ more) ≡ decode_variable_length src
unfolding decode_variable_length_cursor
decode_variable_length-append src more h = elim (answer src) [
  | complete v front rest same e d ↦
      decode_variable_length-ok (src ++ more) v front (rest ++ more)
        (ap (λ (l : List ℕ). l ++ more) same ∙ append_assoc front rest more)
        (loop-append_ok src more 0 0 v rest e)
      ∙ sym d
  | partial e d ↦ absurd (h d)
  | too_long e d ↦
      decode_variable_length-invalid (src ++ more) (loop-append_err src more 0 0 e) ∙ sym d
]

loop_short :
    (src : List ℕ) (shift len j : ℕ)
    → shift ≡ 7 * j
    → j ≤ 3
    → variable_length_loop src shift len ≡ err DecodeError.malformed_packet
    → length src + j ≤ 3
unfolding variable_length_loop
loop_short [] shift len j hs hj e = omega arith
loop_short (b ∷ bs) shift len j hs hj e =
    ground (
      arith,
      loop_short bs (shift + 7) ((len + bit_and b 127 * 2 ^ shift % 2 ^ 32) % 2 ^ 32) (j + 1),
    )

-- When `decode_variable_length` asks for more bytes, there are at most three.
pub decode_variable_length-none :
    (src : List ℕ) → decode_variable_length src ≡ ok none → length src ≤ 3
unfolding decode_variable_length_cursor
decode_variable_length-none src h = elim (answer src) [
  | complete v front rest same e d ↦ cc (d, h)
  | partial e d ↦ omega (arith, loop_short src 0 0 0 refl (omega arith) e)
  | too_long e d ↦ cc (d, h)
]

pub varint-append :
    (n : ℕ) (rest : List ℕ)
    → n ≤ 268_435_455
    → (decode_variable_length ((write_variable_length n).bytes ++ rest)
        ≡ ok (some (n, length (write_variable_length n).bytes)))
varint-append n rest h =
    let (_, _, _, cursor) = cursor-write_variable_length n rest h in
    decode_variable_length-ok ((write_variable_length n).bytes ++ rest) n
      (write_variable_length n).bytes rest refl cursor

pub varint_size-positive : (n : ℕ) → 0 < varint_size n
varint_size-positive n = ground arith
