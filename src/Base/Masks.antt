-- ===== src/Base/Masks.antt =====
-- Masks on one byte as arithmetic, by tables of at most 256 entries.
use Prim.Native.Nat.{ℕ, zero, suc, ◌*◌, ◌/◌, ◌%◌, ◌<◌, bit_and}
use mathlib.Core.Path.{◌≡◌, refl}
use mathlib.Core.Bool.{Bool, true, ◌&&◌}
use native.Mathlib.Omega.{arith}
use ntex_mqtt.Base.Tests.{◌==◌, ==_iff}

-- The test holds of every number below the bound.
unfoldable pub holds_below : ℕ → (ℕ → Bool) → Bool
holds_below zero p = true
holds_below (suc n) p = p n && holds_below n p

pub holds_below_at : (n : ℕ) (p : ℕ → Bool) (x : ℕ) → holds_below n p ≡ true → x < n → p x ≡ true
unfolding holds_below
holds_below_at zero p x h lt = absurd (omega arith)
holds_below_at (suc n) p x h lt = ground (arith, holds_below_at n p x)

pub low_seven_bits : (b : ℕ) → b < 256 → bit_and b 0x7f ≡ b % 128
unfolding holds_below
low_seven_bits b h = (==_iff _ _).0 (holds_below_at 256 (λ x. bit_and x 0x7f == x % 128) b refl h)

pub top_bit : (b : ℕ) → b < 256 → bit_and b 0x80 ≡ b / 128 * 128
unfolding holds_below
top_bit b h = (==_iff _ _).0 (holds_below_at 256 (λ x. bit_and x 0x80 == x / 128 * 128) b refl h)
