-- ===== src/V5/Lengths/Laws.antt =====
-- The tables and `var_int_len_from_size` against `write_variable_length` (src/v5/codec/encode.rs).
use ntex_mqtt.Base.{
  ℕ, zero, suc, ◌+◌, ◌*◌, ◌%◌, ◌^◌, ◌≤◌, ◌<◌, ◌≡◌, refl, ◌⊎◌, inl, inr, List, [], ◌∷◌, arith,
}
use ntex_mqtt.Wire.Varint.{varint_size}
use ntex_mqtt.V5.Lengths.{
  u32_sub, leading_zeros, get_unchecked, usize_map, u32_map, var_int_len, var_int_len_u32,
  var_int_len_from_size,
}

-- A width that so many more bits widen.
abbrev widen : ℕ → ℕ → ℕ
widen zero w = w
widen (suc d) w = suc (widen d w)

below_widen : (d w val : ℕ) → val < 2 ^ w → val < 2 ^ widen d w
below_widen zero w val h = h
below_widen (suc d) w val h =
    let ih = below_widen d w val h in
    let double : 2 ^ suc (widen d w) ≡ 2 * 2 ^ widen d w = omega arith in omega (arith, ih, double)

leading_zeros_below :
    (d w val : ℕ) → val < 2 ^ w → leading_zeros (widen d w) val ≡ widen d (leading_zeros w val)
unfolding leading_zeros
leading_zeros_below zero w val h = refl
leading_zeros_below (suc d) w val h =
    ground (arith, leading_zeros_below d w val h, below_widen d w val h)

leading_zeros_above :
    (d k val : ℕ) → 2 ^ k ≤ val → val < 2 ^ widen d k → leading_zeros (widen d k) val < d
unfolding leading_zeros
leading_zeros_above zero k val h lt = absurd (omega (arith, h, lt))
leading_zeros_above (suc d) k val h lt =
    ground (arith, λ (p : val < 2 ^ widen d k). leading_zeros_above d k val h p)

leading_zeros-le : (w val : ℕ) → leading_zeros w val ≤ w
unfolding leading_zeros
leading_zeros-le zero val = omega arith
leading_zeros-le (suc w) val = ground (arith, leading_zeros-le w val)

abbrev repeat : ℕ → ℕ → List ℕ → List ℕ
repeat zero c rest = rest
repeat (suc n) c rest = c ∷ repeat n c rest

get_unchecked-repeat :
    (n c : ℕ) (rest : List ℕ) (i : ℕ) → i < n → get_unchecked (repeat n c rest) i ≡ c
get_unchecked-repeat zero c rest i h = absurd (omega arith)
get_unchecked-repeat (suc n) c rest zero h = refl
get_unchecked-repeat (suc n) c rest (suc i) h = get_unchecked-repeat n c rest i (omega arith)

abbrev ones : List ℕ
ones = repeat 8 1 []

abbrev twos : List ℕ
twos = repeat 7 2 ones

abbrev threes : List ℕ
threes = repeat 7 3 twos

abbrev fours : List ℕ
fours = repeat 7 4 threes

-- A number of at least `k` bits and of at most seven more: the table's run of seven.
seven_bits :
    (pre c : ℕ) (rest table : List ℕ) (k total val : ℕ)
    → ((x : ℕ) → get_unchecked table (widen pre x) ≡ get_unchecked (repeat 7 c rest) x)
    → widen pre (widen 7 k) ≡ total
    → 2 ^ k ≤ val
    → val < 2 ^ widen 7 k
    → get_unchecked table (leading_zeros total val) ≡ c
seven_bits pre c rest table k total val suffix e low high =
    rw (← e, leading_zeros_below pre (widen 7 k) val high, suffix)
      (get_unchecked-repeat 7 c rest (leading_zeros (widen 7 k) val)
        (leading_zeros_above 7 k val low high))

usize_sizes :
    (val : ℕ)
    → (val < 2 ^ 7 → var_int_len val ≡ 1)
      × (2 ^ 7 ≤ val → val < 2 ^ 14 → var_int_len val ≡ 2)
      × (2 ^ 14 ≤ val → val < 2 ^ 21 → var_int_len val ≡ 3)
      × (2 ^ 21 ≤ val → val < 2 ^ 28 → var_int_len val ≡ 4)
unfolding var_int_len
usize_sizes val = (
  λ h.
      rw (leading_zeros_below 57 7 val h)
        (get_unchecked-repeat 8 1 [] (leading_zeros 7 val) (omega (arith, leading_zeros-le 7 val))),
  seven_bits 50 2 ones usize_map 7 64 val (λ x. refl) refl,
  seven_bits 43 3 twos usize_map 14 64 val (λ x. refl) refl,
  seven_bits 36 4 threes usize_map 21 64 val (λ x. refl) refl,
)

u32_sizes :
    (val : ℕ)
    → (val < 2 ^ 7 → var_int_len_u32 val ≡ 1)
      × (2 ^ 7 ≤ val → val < 2 ^ 14 → var_int_len_u32 val ≡ 2)
      × (2 ^ 14 ≤ val → val < 2 ^ 21 → var_int_len_u32 val ≡ 3)
      × (2 ^ 21 ≤ val → val < 2 ^ 28 → var_int_len_u32 val ≡ 4)
      × (2 ^ 28 ≤ val → val < 2 ^ 32 → var_int_len_u32 val ≡ 5)
unfolding var_int_len_u32
u32_sizes val = (
  λ h.
      rw (leading_zeros_below 25 7 val h)
        (get_unchecked-repeat 8 1 [] (leading_zeros 7 val) (omega (arith, leading_zeros-le 7 val))),
  seven_bits 18 2 ones u32_map 7 32 val (λ x. refl) refl,
  seven_bits 11 3 twos u32_map 14 32 val (λ x. refl) refl,
  seven_bits 4 4 threes u32_map 21 32 val (λ x. refl) refl,
  λ h k. get_unchecked-repeat 4 5 fours (leading_zeros 32 val) (leading_zeros_above 4 28 val h k),
)

-- Up to the limit of the protocol both tables have the length that `write_variable_length` writes.
pub var_int_len-varint_size : (val : ℕ) → val ≤ 268_435_455 → var_int_len val ≡ varint_size val
var_int_len-varint_size val h =
    let (one, two, three, four) = usize_sizes val in ground (arith, one, two, three, four)

var_int_len_u32-varint_size : (val : ℕ) → val ≤ 268_435_455 → var_int_len_u32 val ≡ varint_size val
var_int_len_u32-varint_size val h =
    let (one, two, three, four, _) = u32_sizes val in ground (arith, one, two, three, four)

-- The length of a number and of its size together is that of the number or one more, and adding one
-- for each byte of it but the first stays below that step.
over_size :
    (n : ℕ)
    → n ≤ 268_435_455
    → let over = var_int_len_u32 (varint_size n + n) in
      ((over ≡ varint_size n) × (varint_size (n + 1) ≡ varint_size n) × (n < 268_435_455))
      ⊎ (over ≡ varint_size n + 1)
over_size n h =
    let (one, two, three, four, five) = u32_sizes (varint_size n + n) in
    ground (arith, one, two, three, four, five)

last_size :
    (n : ℕ)
    → n ≤ 268_435_455
    → var_int_len_u32
        ((u32_sub (varint_size n + n) (var_int_len_u32 (varint_size n + n)) + 1) % 2 ^ 32)
      ≡ varint_size n
last_size n h = by_over (over_size n h)
  where
    by_over :
        ((var_int_len_u32 (varint_size n + n) ≡ varint_size n)
            × (varint_size (n + 1) ≡ varint_size n)
            × (n < 268_435_455))
          ⊎ (var_int_len_u32 (varint_size n + n) ≡ varint_size n + 1)
        → var_int_len_u32
            ((u32_sub (varint_size n + n) (var_int_len_u32 (varint_size n + n)) + 1) % 2 ^ 32)
          ≡ varint_size n
    by_over (inl (over, same, small)) =
        let res : (u32_sub (varint_size n + n) (varint_size n) + 1) % 2 ^ 32 ≡ n + 1 =
          ground arith in
        rw (over, res, var_int_len_u32-varint_size (n + 1) (omega arith), same) refl
    by_over (inr over) =
        let res : (u32_sub (varint_size n + n) (varint_size n + 1) + 1) % 2 ^ 32 ≡ n =
          ground arith in
        rw (over, res, var_int_len_u32-varint_size n h) refl

-- For every length that the protocol allows, `var_int_len_from_size` finds it from the sum of the
-- length and of the size of the variable-length integer that holds it.
pub var_int_len_from_size-var_int_len :
    (n : ℕ) → n ≤ 268_435_455 → var_int_len_from_size (var_int_len n + n) ≡ n
unfolding var_int_len_from_size
var_int_len_from_size-var_int_len n h =
    rw (var_int_len-varint_size n h) (rw (last_size n h) (ground arith))
