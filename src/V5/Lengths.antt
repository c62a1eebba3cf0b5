-- ===== src/V5/Lengths.antt =====
-- Lengths of variable-length integers, and the arithmetic on sizes (src/v5/codec/encode.rs).
-- `usize` has 64 bits. Arithmetic on `u32` wraps around, as it does without overflow checks.
pub mod Laws
use ntex_mqtt.Base.{
  ℕ, zero, suc, ◌+◌, ◌-◌, ◌%◌, ◌^◌, Bool, true, false, List, [], ◌∷◌, ltb, if◌then◌else◌,
}

abbrev pub u32_sub : ℕ → ℕ → ℕ
u32_sub a b = (a + 2 ^ 32 - b) % 2 ^ 32

-- `leading_zeros` of an integer of so many bits.
unfoldable pub leading_zeros : ℕ → ℕ → ℕ
leading_zeros zero val = 0
leading_zeros (suc w) val =
    let rest = leading_zeros w val in if ltb val (2 ^ w) then suc rest else 0

abbrev pub get_unchecked : List ℕ → ℕ → ℕ
get_unchecked [] n = 0
get_unchecked (x ∷ xs) zero = x
get_unchecked (x ∷ xs) (suc n) = get_unchecked xs n

abbrev pub usize_map : List ℕ
usize_map =
    10 ∷ 9 ∷ 9 ∷ 9 ∷ 9 ∷ 9 ∷ 9 ∷ 9 ∷ 8 ∷ 8 ∷ 8 ∷ 8 ∷ 8 ∷ 8 ∷ 8 ∷ 7 ∷ 7 ∷ 7 ∷ 7 ∷ 7 ∷ 7 ∷ 7 ∷ 6 ∷ 6
    ∷ 6 ∷ 6 ∷ 6 ∷ 6 ∷ 6 ∷ 5 ∷ 5 ∷ 5 ∷ 5 ∷ 5 ∷ 5 ∷ 5 ∷ 4 ∷ 4 ∷ 4 ∷ 4 ∷ 4 ∷ 4 ∷ 4 ∷ 3 ∷ 3 ∷ 3 ∷ 3 ∷ 3
    ∷ 3 ∷ 3 ∷ 2 ∷ 2 ∷ 2 ∷ 2 ∷ 2 ∷ 2 ∷ 2 ∷ 1 ∷ 1 ∷ 1 ∷ 1 ∷ 1 ∷ 1 ∷ 1 ∷ 1 ∷ []

abbrev pub u32_map : List ℕ
u32_map =
    5 ∷ 5 ∷ 5 ∷ 5 ∷ 4 ∷ 4 ∷ 4 ∷ 4 ∷ 4 ∷ 4 ∷ 4 ∷ 3 ∷ 3 ∷ 3 ∷ 3 ∷ 3 ∷ 3 ∷ 3 ∷ 2 ∷ 2 ∷ 2 ∷ 2 ∷ 2 ∷ 2
    ∷ 2 ∷ 1 ∷ 1 ∷ 1 ∷ 1 ∷ 1 ∷ 1 ∷ 1 ∷ 1 ∷ []

unfoldable pub var_int_len : ℕ → ℕ
unfolding leading_zeros
var_int_len val = get_unchecked usize_map (leading_zeros 64 val)

unfoldable pub var_int_len_u32 : ℕ → ℕ
unfolding leading_zeros
var_int_len_u32 val = get_unchecked u32_map (leading_zeros 32 val)

unfoldable pub var_int_len_from_size : ℕ → ℕ
unfolding var_int_len_u32
var_int_len_from_size val =
    let over_size = var_int_len_u32 val in
    let res = (u32_sub val over_size + 1) % 2 ^ 32 in u32_sub val (var_int_len_u32 res)

unfoldable pub reduce_limit : ℕ → ℕ → ℕ
reduce_limit limit reduction = if ltb limit reduction then 0 else limit - reduction
