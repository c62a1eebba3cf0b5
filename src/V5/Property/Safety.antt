-- ===== src/V5/Property/Safety.antt =====
-- Readers without a panic that leave no more than they were given (src/utils.rs); chains of them
-- are put together by the rules of `safe_readers`, for `search`.
pub mod Properties
use mathlib.Core.Option.{Option}
use ntex_mqtt.Base.{
  ℕ, zero, suc, ◌+◌, ◌*◌, ◌%◌, ◌^◌, ltb, bit_and, ◌≤◌, ◌≢◌, refl, Bool, true, false, not, List, [],
  ◌∷◌, ◌==◌, length, Result, ok, err, panic, arith, if◌then◌else◌, is_some, leb, length-drop,
}
use ntex_mqtt.Wire.{
  DecodeError, Reader, continue, ◌>>=◌, pure, ensure, decode_bool, decode_u16, decode_u32,
  decode_nonzero_u16, decode_nonzero_u32, split_to, remaining, invalid_length, decode_bytes,
  decode_string, variable_length_loop, decode_variable_length_cursor, take_properties,
}
use ntex_mqtt.Wire.Readers.{lift}
use ntex_mqtt.V5.Packet.{UserProperties}
use ntex_mqtt.V5.Property.{
  read_value, set_value, push_property, push_subscription_id, decode_subscription_id,
  decode_user_property, unknown_property, next_round, property_loop, read_properties,
}

abbrev pub Fits : {A : Type 0} → ℕ → Result DecodeError (A × List ℕ) → Type 0
Fits n (ok (a, rest)) = length rest ≤ n
Fits n (err e) = Unit {0}
Fits n panic = ⊥

pub record Safe {A : Type 0} (m : Reader A) : Type 0 where
  pub apply : (src : List ℕ) → Fits (length src) (m src)

pub Fits-le :
    {A : Type 0} (m n : ℕ) (r : Result DecodeError (A × List ℕ)) → m ≤ n → Fits m r → Fits n r
Fits-le m n (ok (a, rest)) h f = omega (arith, h, f)
Fits-le m n (err e) h f = tt
Fits-le m n panic h f = f

pub continue_within :
    {A B : Type 0} (n : ℕ) (r : Result DecodeError (A × List ℕ)) (f : A → Reader B)
    → Fits n r
    → ((a : A) (rest : List ℕ) → length rest ≤ n → Fits n (f a rest))
    → Fits n (continue r f)
continue_within n (ok (a, rest)) f h k = k a rest h
continue_within n (err e) f h k = tt
continue_within n panic f h k = h

continue-Fits :
    {A B : Type 0} (n : ℕ) (r : Result DecodeError (A × List ℕ)) (f : A → Reader B)
    → Fits n r
    → ((a : A) → Safe (f a))
    → Fits n (continue r f)
continue-Fits n r f h k =
    continue_within n r f h λ a rest le. Fits-le (length rest) n (f a rest) le ((k a).apply rest)

pub >>=-Safe :
    {A B : Type 0} {m : Reader A} {f : A → Reader B}
    → Safe m
    → ((a : A) → Safe (f a))
    → Safe (m >>= f)
>>=-Safe {m = m} {f = f} h k = record {
  apply = λ src. continue-Fits (length src) (m src) f (h.apply src) k;
}

pub if_Safe : {A : Type 0} (b : Bool) {m k : Reader A} → Safe m → Safe k → Safe (if b then m else k)
if_Safe true h k = h
if_Safe false h k = k

pub pure-Safe : {A : Type 0} {a : A} → Safe (pure a)
pure-Safe = record { apply = λ src. omega arith }

pub unknown_property-Safe : {S : Type 0} → Safe (unknown_property {S = S})
unknown_property-Safe = record { apply = λ src. tt }

pub ensure-Safe : (b : Bool) (e : DecodeError) → Safe (ensure b e)
ensure-Safe true e = record { apply = λ src. omega arith }
ensure-Safe false e = record { apply = λ src. tt }

pub lift-Safe : {A : Type 0} (r : Result DecodeError A) → r ≢ panic → Safe (lift r)
lift-Safe (ok a) h = record { apply = λ src. omega arith }
lift-Safe (err e) h = record { apply = λ src. tt }
lift-Safe panic h = absurd (h refl)

pub decode_bool-Safe : Safe decode_bool
unfolding decode_bool
decode_bool-Safe = record { apply = fits }
  where
    fits : (src : List ℕ) → Fits (length src) (decode_bool src)
    fits [] = tt
    fits (b ∷ src) = ground arith

pub decode_u16-Safe : Safe decode_u16
unfolding decode_u16
decode_u16-Safe = record { apply = fits }
  where
    fits : (src : List ℕ) → Fits (length src) (decode_u16 src)
    fits (a ∷ b ∷ src) = ground arith
    fits src = ground arith

pub decode_u32-Safe : Safe decode_u32
unfolding decode_u32
decode_u32-Safe = record { apply = fits }
  where
    fits : (src : List ℕ) → Fits (length src) (decode_u32 src)
    fits (a ∷ b ∷ c ∷ d ∷ src) = ground arith
    fits src = ground arith

if_Fits :
    {A : Type 0} (n : ℕ) (b : Bool) (x y : Result DecodeError (A × List ℕ))
    → Fits n x
    → Fits n y
    → Fits n (if b then x else y)
if_Fits n true x y h k = h
if_Fits n false x y h k = k

variable_length_loop-Safe : (shift len : ℕ) → Safe (λ src. variable_length_loop src shift len)
unfolding variable_length_loop
variable_length_loop-Safe shift len = record { apply = λ src. fits src shift len }
  where
    fits : (src : List ℕ) (shift len : ℕ) → Fits (length src) (variable_length_loop src shift len)
    fits [] shift len = tt
    fits (b ∷ src) shift len =
        let len' = (len + bit_and b 0b0111_1111 * 2 ^ shift % 2 ^ 32) % 2 ^ 32 in
        if_Fits _ (bit_and b 0b1000_0000 == 0) _ _ (omega arith) (
          if_Fits _ (ltb shift 21) _ (err invalid_length)
            (Fits-le (length src) _ (variable_length_loop src (shift + 7) len') (omega arith)
              (fits src (shift + 7) len'))
            tt)

pub decode_variable_length_cursor-Safe : Safe decode_variable_length_cursor
unfolding decode_variable_length_cursor
decode_variable_length_cursor-Safe = record {
  apply = λ src. (variable_length_loop-Safe 0 0).apply src;
}

pub split_after_ensure-Safe :
    (n : ℕ) → Safe (remaining >>= λ r. (ensure (leb n r) invalid_length >>= λ _. split_to n))
split_after_ensure-Safe n = record { apply = λ src. ground (arith, length-drop n src) }

-- A reader that takes a byte at least.
pub record Eats {A : Type 0} (m : Reader A) : Type 0 where
  pub apply : (b : ℕ) (src : List ℕ) → Fits (length src) (m (b ∷ src))

pub >>=-Eats :
    {A B : Type 0} {m : Reader A} {f : A → Reader B}
    → Eats m
    → ((a : A) → Safe (f a))
    → Eats (m >>= f)
>>=-Eats {m = m} {f = f} h k = record {
  apply = λ b src. continue-Fits (length src) (m (b ∷ src)) f (h.apply b src) k;
}

decode_u16-Eats : Eats decode_u16
unfolding decode_u16
decode_u16-Eats = record { apply = fits }
  where
    fits : (b : ℕ) (src : List ℕ) → Fits (length src) (decode_u16 (b ∷ src))
    fits b [] = ground arith
    fits b (c ∷ src) = ground arith
