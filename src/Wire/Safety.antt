-- ===== src/Wire/Safety.antt =====
-- Readers that cannot panic, and how chains of them are put together.
use ntex_mqtt.Base.{
  ℕ, ◌+◌, ◌≤◌, ◌≡◌, ◌≢◌, refl, Bool, true, false, not, List, [], ◌∷◌, ◌==◌, length, length-drop,
  Result, ok, err, panic, arith,
}
use ntex_mqtt.Wire.{
  DecodeError, Reader, continue, ensure, decode_u16, decode_nonzero_u16, decode_bytes,
  decode_string,
}

pub continue-ne-panic :
    {A B : Type 0} (r : Result DecodeError (A × List ℕ)) (f : A → Reader B)
    → r ≢ panic
    → ((a : A) (rest : List ℕ) → r ≡ ok (a, rest) → f a rest ≢ panic)
    → continue r f ≢ panic
continue-ne-panic (ok (a, rest)) f h k = k a rest refl
continue-ne-panic (err e) f h k = λ e. cc
continue-ne-panic panic f h k = λ e. h refl

-- Inversion of a chain that succeeds.
pub continue-eq-ok :
    {A B : Type 0} (r : Result DecodeError (A × List ℕ)) (f : A → Reader B) {b : B} {rest : List ℕ}
    → continue r f ≡ ok (b, rest)
    → (a : A) × (mid : List ℕ) × (r ≡ ok (a, mid)) × (f a mid ≡ ok (b, rest))
continue-eq-ok (ok (a, mid)) f h = (a, mid, refl, h)
continue-eq-ok (err e) f h = cc
continue-eq-ok panic f h = cc

-- The rest of a chain may rely on what `ensure!` checked.
pub ensured-ne-panic :
    {B : Type 0} (b : Bool) (e : DecodeError) (f : Unit {0} → Reader B) (src : List ℕ)
    → (b ≡ true → f tt src ≢ panic)
    → continue (ensure b e src) f ≢ panic
ensured-ne-panic true e f src h = h refl
ensured-ne-panic false e f src h = λ p. cc

pub decode_u16-ne-panic : (src : List ℕ) → decode_u16 src ≢ panic
unfolding decode_u16
decode_u16-ne-panic [] = ground arith
decode_u16-ne-panic (a ∷ []) = ground arith
decode_u16-ne-panic (a ∷ b ∷ src) = ground arith

pub decode_nonzero_u16-ne-panic : (src : List ℕ) → decode_nonzero_u16 src ≢ panic
unfolding decode_nonzero_u16
decode_nonzero_u16-ne-panic src =
    continue-ne-panic (decode_u16 src) _ (decode_u16-ne-panic src)
      λ v rest e. ensured-ne-panic (not (v == 0)) DecodeError.malformed_packet _ rest λ h p. cc

pub decode_bytes-ne-panic : (src : List ℕ) → decode_bytes src ≢ panic
unfolding decode_bytes
decode_bytes-ne-panic src =
    continue-ne-panic (decode_u16 src) _ (decode_u16-ne-panic src) λ len rest e. ground arith

pub decode_string-ne-panic : (utf8 : List ℕ → Bool) (src : List ℕ) → decode_string utf8 src ≢ panic
unfolding decode_string
decode_string-ne-panic utf8 src =
    continue-ne-panic (decode_bytes src) _ (decode_bytes-ne-panic src)
      λ b rest e. ensured-ne-panic (utf8 b) DecodeError.utf8_error _ rest λ h p. cc

-- A reader takes its field from the front: what it leaves is no longer than what it was given.
decode_u16_shorter :
    (src : List ℕ) {v : ℕ} {rest : List ℕ}
    → decode_u16 src ≡ ok (v, rest)
    → length rest + 2 ≡ length src
unfolding decode_u16
decode_u16_shorter [] h = ground arith
decode_u16_shorter (a ∷ []) h = ground arith
decode_u16_shorter (a ∷ b ∷ src) h = ground arith

decode_bytes_shorter :
    (src : List ℕ) {v rest : List ℕ}
    → decode_bytes src ≡ ok (v, rest)
    → length rest + 2 ≤ length src
unfolding decode_bytes
decode_bytes_shorter src h =
    let (len, mid, e, k) = continue-eq-ok (decode_u16 src) _ h in
    ground (arith, decode_u16_shorter src e, length-drop len mid)

pub decode_string_shorter :
    (utf8 : List ℕ → Bool) (src : List ℕ) {v rest : List ℕ}
    → decode_string utf8 src ≡ ok (v, rest)
    → length rest + 2 ≤ length src
unfolding decode_string
decode_string_shorter utf8 src h =
    let (b, mid, e, k) = continue-eq-ok (decode_bytes src) _ h in
    ground (arith, decode_bytes_shorter src e)
