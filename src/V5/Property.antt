-- ===== src/V5/Property.antt =====
-- How the decoders of MQTT 5 read properties (src/utils.rs, src/v5/codec/packet, decode.rs).
-- Each decoder loops over the bytes of the properties with a handler: a function of the property's
-- identifier and of the values read so far, the decoder's local variables.
pub mod Safety
pub mod Write
pub mod Reads
pub mod Fields
pub mod Fit
pub mod Blocks
pub mod Written
use mathlib.Core.Option.{Option, none, some}
use ntex_mqtt.Base.{
  ℕ, zero, suc, Bool, not, List, [], ◌∷◌, ◌++◌, ◌==◌, is_some, length, Result, ok, err, panic,
}
use ntex_mqtt.Wire.{
  DecodeError, malformed_packet, Reader, continue, ◌>>=◌, ◌>>◌, pure, ensure, decode_string,
  decode_variable_length_cursor, take_properties,
}
use ntex_mqtt.Wire.Readers.{lift}
use ntex_mqtt.V5.Packet.{UserProperty, UserProperties}

-- `Property::read_value for Option<T>`: a property is not set twice.
abbrev pub read_value : {A : Type 0} → Option A → Reader A → Reader (Option A)
read_value v decode = do ensure (not (is_some v)) malformed_packet; a ← decode; pure (some a)

-- A subscription identifier.
unfoldable pub decode_subscription_id : Reader ℕ
decode_subscription_id = do
  id ← decode_variable_length_cursor
  ensure (not (id == 0)) malformed_packet
  pure id

abbrev pub push_subscription_id : {S : Type 0} → List ℕ → (List ℕ → S) → Reader S
push_subscription_id ids set = do id ← decode_subscription_id; pure (set (ids ++ (id ∷ [])))

-- `Option::unwrap_or`.
abbrev pub unwrap_or : {A : Type 0} → Option A → A → A
unwrap_or none d = d
unwrap_or (some a) d = a

-- `Decode for UserProperty`.
unfoldable pub decode_user_property : (List ℕ → Bool) → Reader UserProperty
decode_user_property utf8 = do key ← decode_string utf8; val ← decode_string utf8; pure (key, val)

-- `read_value` and `push` on one of a handler's variables.
abbrev pub set_value : {A S : Type 0} → Option A → Reader A → (Option A → S) → Reader S
set_value v decode set = do v' ← read_value v decode; pure (set v')

abbrev pub push_property :
    {S : Type 0} → (List ℕ → Bool) → UserProperties → (UserProperties → S) → Reader S
push_property utf8 ps set = do p ← decode_user_property utf8; pure (set (ps ++ (p ∷ [])))

-- The arm `_` of a handler.
abbrev pub unknown_property : {S : Type 0} → Reader S
unknown_property src = err malformed_packet

abbrev pub next_round :
    {S : Type 0}
    → Result DecodeError (S × List ℕ)
    → (S → List ℕ → Result DecodeError S)
    → Result DecodeError S
next_round (ok (s, src)) f = f s src
next_round (err e) f = err e
next_round panic f = panic

-- `while prop_src.has_remaining()`. A round takes a byte at least, so as many rounds as there are
-- bytes are enough.
unfoldable pub property_loop :
    {S : Type 0} → (ℕ → S → Reader S) → ℕ → S → List ℕ → Result DecodeError S
property_loop handler fuel s [] = ok s
property_loop handler zero s (id ∷ src) = panic
property_loop handler (suc fuel) s (id ∷ src) =
    next_round (handler id s src) (property_loop handler fuel)

unfoldable pub read_properties : {S : Type 0} → (ℕ → S → Reader S) → S → Reader S
unfolding property_loop
read_properties handler s = do
  prop_src ← take_properties
  lift (property_loop handler (length prop_src) s prop_src)
