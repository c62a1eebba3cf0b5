-- ===== src/V5/Property/Reads.antt =====
-- Rules for one written property and for chains of them under the loop over the properties
-- (src/v5/codec/encode.rs, src/utils.rs).
use mathlib.Core.Option.{Option, none, some}
use mathlib.Core.Path.{subst}
use mathlib.Core.List.{append_assoc}
use ntex_mqtt.Base.{
  ℕ, zero, suc, ◌≤◌, ◌≡◌, refl, sym, ◌==◌, ==_iff, ◌∙◌, Bool, true, false, not, List, [], ◌∷◌, ◌++◌,
  length, Result, ok, err, panic, arith, if◌then◌else◌,
}
use ntex_mqtt.Wire.{DecodeError, Reader, Writer, ◌then_write◌, put}
use ntex_mqtt.Wire.Writers.{then_write-eq-ok, Writes}
use ntex_mqtt.V5.Property.{unwrap_or, next_round, property_loop, set_value}
use ntex_mqtt.V5.Property.Safety.{Fits}
use ntex_mqtt.V5.Property.Safety.Properties.{SafeHandler}
use ntex_mqtt.V5.Property.Write.{bool_eq, Encode, encode_property, encode_property_default}

-- What makes the reader and the encoder of a value one field: the size is that of the bytes, and
-- the bytes are read back.
pub record IsField {A : Type 0} (e : Encode A) (decode : Reader A) (Valid : A → Type 0)
    : Type 0 where
  pub exact : (a : A) → Writes (e.encode a) (e.encoded_size a)
  pub reads :
      (a : A)
      → Valid a
      → (e.encode a).result ≡ ok tt
      → (rest : List ℕ) → decode ((e.encode a).bytes ++ rest) ≡ ok (a, rest)

abbrev pub OptionalValid : {A : Type 0} → (A → Type 0) → Option A → Type 0
OptionalValid Valid none = Unit {0}
OptionalValid Valid (some a) = Valid a

abbrev pub unless_default : {A : Type 0} → (A → A → Bool) → A → A → Option A
unless_default eq v default = if eq v default then none else some v

unwrap_or-unless_default :
    {A : Type 0} (eq : A → A → Bool) (v default : A)
    → (eq v default ≡ true → v ≡ default)
    → unwrap_or (unless_default eq v default) default ≡ v
unwrap_or-unless_default eq v default sound = by_test (eq v default) sound
  where
    by_test :
        (b : Bool) → (b ≡ true → v ≡ default) → unwrap_or (if b then none else some v) default ≡ v
    by_test true sound = sym (sound refl)
    by_test false sound = refl

pub bool_eq-default : (v default : Bool) → unwrap_or (unless_default bool_eq v default) default ≡ v
bool_eq-default v default = ground arith

pub ==-default : (v default : ℕ) → unwrap_or (unless_default ◌==◌ v default) default ≡ v
==-default v default = unwrap_or-unless_default ◌==◌ v default (==_iff v default).0

next_round_cong :
    {S : Type 0} (n : ℕ) (r : Result DecodeError (S × List ℕ))
    (f g : S → List ℕ → Result DecodeError S)
    → Fits n r
    → ((s : S) (src : List ℕ) → length src ≤ n → f s src ≡ g s src)
    → next_round r f ≡ next_round r g
next_round_cong n (ok (s, src)) f g h k = k s src h
next_round_cong n (err e) f g h k = refl
next_round_cong n panic f g h k = refl

module _ {S : Type 0} (handler : ℕ → S → Reader S) (safe : SafeHandler handler) where
  fuel_enough :
      (n m : ℕ) (s : S) (src : List ℕ)
      → length src ≤ n
      → length src ≤ m
      → property_loop handler n s src ≡ property_loop handler m s src
  unfolding property_loop
  fuel_enough n m s [] hn hm = refl
  fuel_enough zero m s (id ∷ src) hn hm = absurd (omega arith)
  fuel_enough (suc n) zero s (id ∷ src) hn hm = absurd (omega arith)
  fuel_enough (suc n) (suc m) s (id ∷ src) hn hm =
      next_round_cong (length src) (handler id s src) (property_loop handler n)
        (property_loop handler m) ((safe id s).apply src)
        λ s' src' le. fuel_enough n m s' src' (omega (arith, le, hn)) (omega (arith, le, hm))

  -- The loop with the fuel that `read_properties` gives it.
  abbrev pub run : S → List ℕ → Result DecodeError S
  run s src = property_loop handler (length src) s src

  run_step :
      (id : ℕ) (s s' : S) (src rest : List ℕ)
      → handler id s src ≡ ok (s', rest)
      → run s (id ∷ src) ≡ run s' rest
  unfolding property_loop
  run_step id s s' src rest e =
      let fits : Fits (length src) (ok (s', rest)) =
        subst (Fits (length src)) (e) ((safe id s).apply src) in
      rw e (fuel_enough (length src) (length rest) s' rest fits (omega arith))

  -- A writer that succeeds takes the loop from one state to another.
  pub record Encodes (s : S) (w : Writer) (s' : S) : Type 0 where
    pub apply : w.result ≡ ok tt → (rest : List ℕ) → run s (w.bytes ++ rest) ≡ run s' rest

  pub nothing-Encodes : (s : S) → Encodes s (put []) s
  nothing-Encodes s = record { apply = λ h rest. refl }

  pub then_write-Encodes :
      {s s' s'' : S} {a b : Writer}
      → Encodes s a s'
      → Encodes s' b s''
      → Encodes s (a then_write b) s''
  then_write-Encodes {a = a} {b = b} ha hb = record {
    apply = λ h rest.
        let both = then_write-eq-ok a b h in
        rw (both.joined, append_assoc)
          (ha.apply both.first (b.bytes ++ rest) ∙ hb.apply both.second rest);
  }

  pub property-Encodes :
      (id : ℕ) (s s' : S) (w : Writer)
      → (w.result ≡ ok tt → (rest : List ℕ) → handler id s (w.bytes ++ rest) ≡ ok (s', rest))
      → Encodes s (put (id ∷ []) then_write w) s'
  property-Encodes id s s' w reads = record {
    apply = λ h rest.
        run_step id s s' (w.bytes ++ rest) rest
          (reads (then_write-eq-ok (put (id ∷ [])) w h).second rest);
  }

  pub optional-Encodes :
      {A : Type 0} {e : Encode A} {decode : Reader A} {Valid : A → Type 0}
      → IsField e decode Valid
      → (id : ℕ) (set : Option A → S) (v : Option A)
      → ((src : List ℕ) → handler id (set none) src ≡ set_value none decode set src)
      → OptionalValid Valid v
      → Encodes (set none) (encode_property e v id) (set v)
  optional-Encodes field id set none step valid = nothing-Encodes (set none)
  optional-Encodes {e = e} field id set (some a) step valid =
      property-Encodes id (set none) (set (some a)) (e.encode a)
        λ h rest. step ((e.encode a).bytes ++ rest) ∙ rw (field.reads a valid h rest) refl

  pub default-Encodes :
      {A : Type 0} {e : Encode A} {decode : Reader A} {Valid : A → Type 0}
      → IsField e decode Valid
      → (id : ℕ) (set : Option A → S) (eq : A → A → Bool) (v default : A)
      → ((src : List ℕ) → handler id (set none) src ≡ set_value none decode set src)
      → Valid v
      → Encodes
          (set none)
          (encode_property_default eq e v default id)
          (set (unless_default eq v default))
  default-Encodes {e = e} field id set eq v default step valid = by_test (eq v default)
    where
      by_test :
          (b : Bool)
          → Encodes
              (set none)
              (if not b then put (id ∷ []) then_write e.encode v else put [])
              (set (if b then none else some v))
      by_test true = nothing-Encodes (set none)
      by_test false = optional-Encodes field id set (some v) step valid
