-- ===== src/V5/Property/Safety/Properties.antt =====
-- The readers of values and of properties: panics (src/utils.rs, src/v5/codec/packet).
use mathlib.Core.Option.{Option}
use ntex_mqtt.Base.{
  ℕ, zero, suc, ◌≤◌, ◌≢◌, Bool, not, List, [], ◌∷◌, length, Result, ok, err, panic, arith, is_some,
}
use ntex_mqtt.Wire.{
  DecodeError, Reader, decode_nonzero_u16, decode_nonzero_u32, decode_bytes, decode_string,
  take_properties,
}
use ntex_mqtt.V5.Packet.{UserProperties}
use ntex_mqtt.V5.Property.{
  read_value, set_value, push_property, push_subscription_id, decode_subscription_id,
  decode_user_property, next_round, property_loop, read_properties,
}
use ntex_mqtt.V5.Property.Safety.{
  >>=-Eats, >>=-Safe, Eats, Fits, Safe, decode_bool-Safe, decode_u16-Eats, decode_u16-Safe,
  decode_u32-Safe, decode_variable_length_cursor-Safe, ensure-Safe, if_Safe, lift-Safe, pure-Safe,
  split_after_ensure-Safe, unknown_property-Safe,
}

pub ruleset basic_readers = (
  >>=-Safe, if_Safe, pure-Safe, unknown_property-Safe, ensure-Safe, decode_bool-Safe,
  decode_u16-Safe, decode_u32-Safe, decode_variable_length_cursor-Safe, split_after_ensure-Safe,
)

pub decode_bytes-Safe : Safe decode_bytes
unfolding decode_bytes
decode_bytes-Safe = search basic_readers

pub decode_string-Safe : (utf8 : List ℕ → Bool) → Safe (decode_string utf8)
unfolding decode_string
decode_string-Safe utf8 = >>=-Safe decode_bytes-Safe λ b. search basic_readers

pub decode_string-Eats : (utf8 : List ℕ → Bool) → Eats (decode_string utf8)
unfolding decode_string decode_bytes
decode_string-Eats utf8 =
    >>=-Eats (>>=-Eats decode_u16-Eats λ n. search basic_readers) λ b. search basic_readers

pub decode_nonzero_u16-Safe : Safe decode_nonzero_u16
unfolding decode_nonzero_u16
decode_nonzero_u16-Safe = search basic_readers

pub decode_nonzero_u32-Safe : Safe decode_nonzero_u32
unfolding decode_nonzero_u32
decode_nonzero_u32-Safe = search basic_readers

pub decode_subscription_id-Safe : Safe decode_subscription_id
unfolding decode_subscription_id
decode_subscription_id-Safe = search basic_readers

pub decode_user_property-Safe : (utf8 : List ℕ → Bool) → Safe (decode_user_property utf8)
unfolding decode_user_property
decode_user_property-Safe utf8 = search (basic_readers, decode_string-Safe)

pub take_properties-Safe : Safe take_properties
unfolding take_properties
take_properties-Safe = search basic_readers

pub read_value-Safe :
    {A : Type 0} (v : Option A) {decode : Reader A} → Safe decode → Safe (read_value v decode)
read_value-Safe v h =
    >>=-Safe (ensure-Safe (not (is_some v)) DecodeError.malformed_packet)
      λ u. >>=-Safe h λ a. pure-Safe

pub set_value-Safe :
    {A S : Type 0} (v : Option A) {decode : Reader A} (set : Option A → S)
    → Safe decode
    → Safe (set_value v decode set)
set_value-Safe v set h = >>=-Safe (read_value-Safe v h) λ v'. pure-Safe

pub push_property-Safe :
    {S : Type 0} (utf8 : List ℕ → Bool) (ps : UserProperties) (set : UserProperties → S)
    → Safe (push_property utf8 ps set)
push_property-Safe utf8 ps set = >>=-Safe (decode_user_property-Safe utf8) λ p. pure-Safe

pub push_subscription_id-Safe :
    {S : Type 0} (ids : List ℕ) (set : List ℕ → S) → Safe (push_subscription_id ids set)
push_subscription_id-Safe ids set = >>=-Safe decode_subscription_id-Safe λ id. pure-Safe

pub ruleset safe_readers = (
  set_value-Safe, push_property-Safe, push_subscription_id-Safe, basic_readers, decode_bytes-Safe,
  decode_string-Safe, decode_nonzero_u16-Safe, decode_nonzero_u32-Safe, decode_subscription_id-Safe,
  decode_user_property-Safe, read_value-Safe, take_properties-Safe,
)

-- A handler that is safe at every identifier and state.
abbrev pub SafeHandler : {S : Type 0} → (ℕ → S → Reader S) → Type 0
SafeHandler {S = S} handler = (id : ℕ) (s : S) → Safe (handler id s)

next_round-ne-panic :
    {S : Type 0} (n : ℕ) (r : Result DecodeError (S × List ℕ))
    (f : S → List ℕ → Result DecodeError S)
    → Fits n r
    → ((s : S) (src : List ℕ) → length src ≤ n → f s src ≢ panic)
    → next_round r f ≢ panic
next_round-ne-panic n (ok (s, src)) f h k = k s src h
next_round-ne-panic n (err e) f h k = λ p. cc
next_round-ne-panic n panic f h k = absurd h

property_loop-ne-panic :
    {S : Type 0} (handler : ℕ → S → Reader S)
    → SafeHandler handler
    → (fuel : ℕ) (s : S) (src : List ℕ) → length src ≤ fuel
    → property_loop handler fuel s src ≢ panic
unfolding property_loop
property_loop-ne-panic handler h fuel s [] enough = λ p. cc
property_loop-ne-panic handler h zero s (id ∷ src) enough = absurd (omega arith)
property_loop-ne-panic handler h (suc fuel) s (id ∷ src) enough =
    next_round-ne-panic (length src) (handler id s src) (property_loop handler fuel)
      ((h id s).apply src)
      λ s' src' fits. property_loop-ne-panic handler h fuel s' src' (omega (arith, fits, enough))

pub read_properties-Safe :
    {S : Type 0} (handler : ℕ → S → Reader S) (s : S)
    → SafeHandler handler
    → Safe (read_properties handler s)
unfolding read_properties
read_properties-Safe handler s h = >>=-Safe take_properties-Safe λ props.
    lift-Safe (property_loop handler (length props) s props)
      (property_loop-ne-panic handler h (length props) s props (omega arith))
