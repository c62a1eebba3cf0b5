-- ===== src/Wire/Varint.antt =====
-- Variable-length integers: `write_variable_length` against `decode_variable_length`.
use ntex_mqtt.Base.{
  ℕ, ◌+◌, ◌*◌, ◌/◌, ◌%◌, ◌^◌, ◌≤◌, ◌<◌, ◌≡◌, List, [], ◌∷◌, ◌++◌, leb, if◌then◌else◌, length, ok,
  arith, All, IsByte,
}
use ntex_mqtt.Base.Masks.{low_seven_bits, top_bit}
use ntex_mqtt.Wire.{variable_length_loop, decode_variable_length_cursor, write_variable_length}

-- The number of bytes of a length, by its value.
abbrev pub varint_size : ℕ → ℕ
varint_size len =
    if leb len 127 then 1 else if leb len 16_383 then 2 else if leb len 2_097_151 then 3 else 4

-- One round of the loop, at a last byte and at a byte with the top bit set over the group `g`.
last_group :
    (w shift len : ℕ) (rest : List ℕ)
    → w < 128
    → len + w * 2 ^ shift < 2 ^ 32
    → variable_length_loop (w ∷ rest) shift len ≡ ok (len + w * 2 ^ shift, rest)
unfolding variable_length_loop
last_group w shift len rest hw fits = ground (arith, low_seven_bits w, top_bit w)

inner_group :
    (g shift len : ℕ) (rest : List ℕ)
    → g < 128
    → shift < 21
    → len + g * 2 ^ shift < 2 ^ 32
    → variable_length_loop ((g + 128) ∷ rest) shift len
      ≡ variable_length_loop rest (shift + 7) (len + g * 2 ^ shift)
unfolding variable_length_loop
inner_group g shift len rest hg hs fits =
    ground (arith, low_seven_bits (g + 128), top_bit (g + 128))

cursor_1 :
    (len : ℕ) (rest : List ℕ)
    → len ≤ 127
    → decode_variable_length_cursor (len % 256 ∷ rest) ≡ ok (len, rest)
unfolding decode_variable_length_cursor
cursor_1 len rest h = ground (arith, last_group (len % 256) 0 0 rest)

cursor_2 :
    (len : ℕ) (rest : List ℕ)
    → len ≤ 16_383
    → decode_variable_length_cursor ((len % 2 ^ 7 + 128) ∷ len / 2 ^ 7 % 256 ∷ rest)
      ≡ ok (len, rest)
unfolding decode_variable_length_cursor
cursor_2 len rest h = ground (
  arith,
  inner_group (len % 128) 0 0 (len / 2 ^ 7 % 256 ∷ rest),
  last_group (len / 2 ^ 7 % 256) 7 (len % 128) rest,
)

cursor_3 :
    (len : ℕ) (rest : List ℕ)
    → len ≤ 2_097_151
    → decode_variable_length_cursor
        ((len % 2 ^ 7 + 128) ∷ (len / 2 ^ 7 % 2 ^ 7 + 128) ∷ len / 2 ^ 14 % 256 ∷ rest)
      ≡ ok (len, rest)
unfolding decode_variable_length_cursor
cursor_3 len rest h = ground (
  arith,
  inner_group (len % 128) 0 0 ((len / 2 ^ 7 % 2 ^ 7 + 128) ∷ len / 2 ^ 14 % 256 ∷ rest),
  inner_group (len / 2 ^ 7 % 2 ^ 7) 7 (len % 128) (len / 2 ^ 14 % 256 ∷ rest),
  last_group (len / 2 ^ 14 % 256) 14 (len % 128 + len / 2 ^ 7 % 2 ^ 7 * 2 ^ 7) rest,
)

cursor_4 :
    (len : ℕ) (rest : List ℕ)
    → len ≤ 268_435_455
    → decode_variable_length_cursor (
        (len % 2 ^ 7 + 128)
        ∷ (len / 2 ^ 7 % 2 ^ 7 + 128)
        ∷ (len / 2 ^ 14 % 2 ^ 7 + 128)
        ∷ len / 2 ^ 21 % 256
        ∷ rest)
      ≡ ok (len, rest)
unfolding decode_variable_length_cursor
cursor_4 len rest h = ground (
  arith,
  inner_group (len % 128) 0 0
      ((len / 2 ^ 7 % 2 ^ 7 + 128) ∷ (len / 2 ^ 14 % 2 ^ 7 + 128) ∷ len / 2 ^ 21 % 256 ∷ rest),
  inner_group (len / 2 ^ 7 % 2 ^ 7) 7 (len % 128)
      ((len / 2 ^ 14 % 2 ^ 7 + 128) ∷ len / 2 ^ 21 % 256 ∷ rest),
  inner_group (len / 2 ^ 14 % 2 ^ 7) 14 (len % 128 + len / 2 ^ 7 % 2 ^ 7 * 2 ^ 7)
      (len / 2 ^ 21 % 256 ∷ rest),
  last_group (len / 2 ^ 21 % 256) 21
      (len % 128 + len / 2 ^ 7 % 2 ^ 7 * 2 ^ 7 + len / 2 ^ 14 % 2 ^ 7 * 2 ^ 14) rest,
)

-- What `write_variable_length` writes of a length of at most 268435455, one byte up to 127, two up
-- to 16383, three up to 2097151 and four above, `decode_variable_length_cursor` reads back, and it
-- leaves what follows.
pub cursor-write_variable_length :
    (len : ℕ) (rest : List ℕ)
    → len ≤ 268_435_455
    → ((write_variable_length len).result ≡ ok tt)
      × (length (write_variable_length len).bytes ≡ varint_size len)
      × All IsByte (write_variable_length len).bytes
      × (decode_variable_length_cursor ((write_variable_length len).bytes ++ rest) ≡ ok (len, rest))
unfolding write_variable_length
cursor-write_variable_length len rest h = (
  ground arith,
  ground arith,
  ground arith,
  ground (arith, cursor_1 len rest, cursor_2 len rest, cursor_3 len rest, cursor_4 len rest),
)

-- The last rounds of the loop, from the fourth byte back to the first.
loop_21_takes :
    (src : List ℕ) (acc v : ℕ) (rest : List ℕ)
    → All IsByte src
    → acc < 2 ^ 21
    → variable_length_loop src 21 acc ≡ ok (v, rest)
    → (v < 2 ^ 28) × (length src ≡ length rest + 1)
unfolding variable_length_loop
loop_21_takes [] acc v rest hb ha e = cc
loop_21_takes (b ∷ bs) acc v rest hb ha e = ground (arith, low_seven_bits b)

loop_14_takes :
    (src : List ℕ) (acc v : ℕ) (rest : List ℕ)
    → All IsByte src
    → acc < 2 ^ 14
    → variable_length_loop src 14 acc ≡ ok (v, rest)
    → (v < 2 ^ 28) × (length rest < length src) × (length src ≤ length rest + 2)
unfolding variable_length_loop
loop_14_takes [] acc v rest hb ha e = cc
loop_14_takes (b ∷ bs) acc v rest hb ha e =
    ground (arith, low_seven_bits b, loop_21_takes bs (acc + b % 128 * 2 ^ 14) v rest)

loop_7_takes :
    (src : List ℕ) (acc v : ℕ) (rest : List ℕ)
    → All IsByte src
    → acc < 2 ^ 7
    → variable_length_loop src 7 acc ≡ ok (v, rest)
    → (v < 2 ^ 28) × (length rest < length src) × (length src ≤ length rest + 3)
unfolding variable_length_loop
loop_7_takes [] acc v rest hb ha e = cc
loop_7_takes (b ∷ bs) acc v rest hb ha e =
    ground (arith, low_seven_bits b, loop_14_takes bs (acc + b % 128 * 2 ^ 7) v rest)

-- On any bytes, a length that is read is within the protocol's limit, and takes one to four bytes.
pub cursor_takes :
    (src : List ℕ) (v : ℕ) (rest : List ℕ)
    → All IsByte src
    → decode_variable_length_cursor src ≡ ok (v, rest)
    → (v ≤ 268_435_455) × (length rest < length src) × (length src ≤ length rest + 4)
unfolding decode_variable_length_cursor variable_length_loop
cursor_takes [] v rest hb e = cc
cursor_takes (b ∷ bs) v rest hb e =
    ground (arith, low_seven_bits b, loop_7_takes bs (b % 128) v rest)
