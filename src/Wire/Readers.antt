-- ===== src/Wire/Readers.antt =====
-- Readers that both protocol versions are written with.
use mathlib.Core.Option.{Option, none, some}
use ntex_mqtt.Base.{
  ◌≡◌, refl, ◌<◌, arith, Bool, true, false, not, List, [], ◌∷◌, ℕ, zero, suc, leb, length, is_empty,
  Result, ok, err, panic,
}
use ntex_mqtt.Wire.{
  DecodeError, invalid_length, Reader, ◌>>=◌, ◌>>◌, pure, remaining, ensure, get_u8,
}

-- A result that reads nothing.
abbrev pub lift : {A : Type 0} → Result DecodeError A → Reader A
lift (ok a) src = ok (a, src)
lift (err e) src = err e
lift panic src = panic

-- `has_remaining`.
abbrev pub has_remaining : Reader Bool
has_remaining src = ok (not (is_empty src), src)

-- What is left of the buffer.
abbrev pub take_rest : Reader (List ℕ)
take_rest src = ok (src, [])

abbrev pub when_set : {A : Type 0} → Bool → Reader A → Reader (Option A)
when_set true m = do a ← m; pure (some a)
when_set false m = pure none

-- `if src.has_remaining() { m } else { k }`, and the same where `m` begins with `get_u8`.
abbrev pub if_more : {A : Type 0} → Reader A → Reader A → Reader A
if_more m k [] = k []
if_more m k (b ∷ src) = m (b ∷ src)

abbrev pub if_byte : {A : Type 0} → (ℕ → Reader A) → Reader A → Reader A
if_byte f k [] = k []
if_byte f k (b ∷ src) = f b src

-- `ensure!(!src.has_remaining())` behind a reader.
abbrev pub to_the_end : {A : Type 0} → Reader A → Reader A
to_the_end m = do a ← m; more ← has_remaining; ensure (not more) invalid_length; pure a

pub to_the_end-eq-ok :
    {A : Type 0} (m : Reader A) (src : List ℕ) {a : A}
    → m src ≡ ok (a, [])
    → to_the_end m src ≡ ok (a, [])
to_the_end-eq-ok m src e = rw e refl

pub if_more-eq :
    {A : Type 0} (m k : Reader A) (src : List ℕ) {r : Result DecodeError (A × List ℕ)}
    → 0 < length src
    → m src ≡ r
    → if_more m k src ≡ r
if_more-eq m k [] h e = absurd (omega arith)
if_more-eq m k (b ∷ src) h e = e

-- A byte behind `ensure!(src.has_remaining())`.
unfoldable pub next_byte : Reader ℕ
next_byte = do n ← remaining; ensure (leb 1 n) invalid_length; get_u8

-- `while src.has_remaining()` with a push for each item. A round takes a byte at least, so as many
-- rounds as there are bytes are enough.
unfoldable pub read_loop : {A : Type 0} → Reader A → ℕ → Reader (List A)
read_loop item fuel [] = ok ([], [])
read_loop item zero (b ∷ src) = panic
read_loop item (suc fuel) (b ∷ src) =
    (do a ← item; rest ← read_loop item fuel; pure (a ∷ rest)) (b ∷ src)

unfoldable pub read_all : {A : Type 0} → Reader A → Reader (List A)
unfolding read_loop
read_all item = do n ← remaining; read_loop item n
