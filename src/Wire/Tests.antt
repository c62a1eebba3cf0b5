-- ===== src/Wire/Tests.antt =====
-- The properties of the primitive fields on concrete inputs.
use mathlib.Core.Option.{some}
use ntex_mqtt.Base.{
  ℕ, ◌+◌, ◌≤◌, ◌<◌, ◌≡◌, refl, List, [], ◌∷◌, ◌++◌, length, All, IsByte, ok, arith,
}
use ntex_mqtt.Wire.{
  variable_length_loop, decode_variable_length_cursor, decode_variable_length,
  write_variable_length,
}
use ntex_mqtt.Wire.Varint.{varint_size, cursor-write_variable_length, cursor_takes}
use ntex_mqtt.Wire.Pieces.{decode_variable_length-append, decode_variable_length-none}

-- 321 is `0xC1 0x02` on the wire.
cursor-write_variable_length_example :
    ((write_variable_length 321).result ≡ ok tt)
    × (length (write_variable_length 321).bytes ≡ varint_size 321)
    × All IsByte (write_variable_length 321).bytes
    × (decode_variable_length_cursor ((write_variable_length 321).bytes ++ (7 ∷ []))
        ≡ ok (321, 7 ∷ []))
cursor-write_variable_length_example = cursor-write_variable_length 321 (7 ∷ []) (omega arith)

abbrev rest : List ℕ
rest = 7 ∷ []

abbrev half : List ℕ
half = 0xC1 ∷ 0x82 ∷ []

abbrev read : List ℕ
read = 0xC1 ∷ 2 ∷ 7 ∷ []

two_bytes : decode_variable_length_cursor read ≡ ok (321, rest)
unfolding decode_variable_length_cursor variable_length_loop
two_bytes = refl

cursor_takes_example :
    (321 ≤ 268_435_455) × (length rest < length read) × (length read ≤ length rest + 4)
cursor_takes_example =
    cursor_takes read 321 rest (omega arith, (omega arith, (omega arith, tt))) two_bytes

complete_length : decode_variable_length (0xC1 ∷ 2 ∷ []) ≡ ok (some (321, 2))
unfolding decode_variable_length decode_variable_length_cursor variable_length_loop
complete_length = refl

decode_variable_length-append_example :
    decode_variable_length ((0xC1 ∷ 2 ∷ []) ++ (7 ∷ 8 ∷ []))
    ≡ decode_variable_length (0xC1 ∷ 2 ∷ [])
decode_variable_length-append_example =
    decode_variable_length-append (0xC1 ∷ 2 ∷ []) (7 ∷ 8 ∷ []) (λ e. cc (complete_length, e))

decode_variable_length-none_example : length half ≤ 3
unfolding decode_variable_length decode_variable_length_cursor variable_length_loop
decode_variable_length-none_example = decode_variable_length-none half refl
