-- ===== src/V5/Property/Write.antt =====
-- How the encoders of MQTT 5 write properties (src/v5/codec/encode.rs, the trait `Encode` of
-- src/utils.rs).
use mathlib.Core.Option.{Option, none, some}
use ntex_mqtt.Base.{
  ℕ, ◌+◌, ◌-◌, Bool, true, false, not, List, [], ◌∷◌, ltb, leb, if◌then◌else◌, length,
}
use ntex_mqtt.Wire.{
  Writer, ◌then_write◌, put, encode_bool, encode_u16, encode_u32, encode_bytes, encode_pair,
  encoded_size_bytes,
}
use ntex_mqtt.V5.PropertyType
use ntex_mqtt.V5.Packet.{UserProperty, UserProperties, ByteString}

-- The trait `Encode`, and its instances for the values of properties. The non-zero integers are
-- encoded like the others.
pub record Encode (A : Type 0) : Type 0 where
  pub encoded_size : A → ℕ
  pub encode : A → Writer

abbrev pub bool_value : Encode Bool
bool_value = record { encoded_size = λ b. 1; encode = encode_bool }

abbrev pub u16_value : Encode ℕ
u16_value = record { encoded_size = λ v. 2; encode = encode_u16 }

abbrev pub u32_value : Encode ℕ
u32_value = record { encoded_size = λ v. 4; encode = encode_u32 }

abbrev pub bytes_value : Encode (List ℕ)
bytes_value = record { encoded_size = encoded_size_bytes; encode = encode_bytes }

abbrev pub pair_size : UserProperty → ℕ
pair_size (key, val) = encoded_size_bytes key + encoded_size_bytes val

abbrev pub encoded_property_size : {A : Type 0} → Encode A → Option A → ℕ
encoded_property_size e none = 0
encoded_property_size e (some v) = 1 + e.encoded_size v

abbrev pub encode_property : {A : Type 0} → Encode A → Option A → ℕ → Writer
encode_property e none prop_type = put []
encode_property e (some v) prop_type = put (prop_type ∷ []) then_write e.encode v

-- `eq` is the `==` of the type.
abbrev pub encoded_property_size_default : {A : Type 0} → (A → A → Bool) → Encode A → A → A → ℕ
encoded_property_size_default eq e v default = if eq v default then 0 else 1 + e.encoded_size v

abbrev pub encode_property_default : {A : Type 0} → (A → A → Bool) → Encode A → A → A → ℕ → Writer
encode_property_default eq e v default prop_type =
    if not (eq v default) then put (prop_type ∷ []) then_write e.encode v else put []

abbrev pub bool_eq : Bool → Bool → Bool
bool_eq true b = b
bool_eq false b = not b

-- `Encode for UserProperties`.
unfoldable pub user_properties_size : UserProperties → ℕ
user_properties_size [] = 0
user_properties_size (prop ∷ props) = 1 + pair_size prop + user_properties_size props

unfoldable pub encode_user_properties : UserProperties → Writer
encode_user_properties [] = put []
encode_user_properties (prop ∷ props) =
    put (PropertyType.user ∷ []) then_write encode_pair prop then_write encode_user_properties props

-- The properties that are left out where they are over a limit. What is taken from `limit` and from
-- `size` is no more than they are, so the casts to `u32` and the subtractions are exact.
unfoldable pub opt_props_loop : UserProperties → Option ByteString → ℕ → ℕ → ℕ
opt_props_loop [] none limit len = len
opt_props_loop [] (some reason) limit len =
    let reason_len = 1 + encoded_size_bytes reason in
    if leb reason_len limit then len + reason_len else len
opt_props_loop (up ∷ user_props) reason_str limit len =
    let prop_len = 1 + pair_size up in
    let rest = opt_props_loop user_props reason_str (limit - prop_len) (len + prop_len) in
    if ltb limit prop_len then len else rest

unfoldable pub encoded_size_opt_props : UserProperties → Option ByteString → ℕ → ℕ
unfolding opt_props_loop
encoded_size_opt_props user_props reason_str limit = opt_props_loop user_props reason_str limit 0

unfoldable pub encode_opt_props : UserProperties → Option ByteString → ℕ → Writer
encode_opt_props [] none size = put []
encode_opt_props [] (some reason) size =
    if ltb (length reason) size
    then (put (PropertyType.reason_string ∷ []) then_write encode_bytes reason)
    else put []
encode_opt_props (up ∷ user_props) reason_str size =
    let prop_len = 1 + pair_size up in
    let rest = encode_opt_props user_props reason_str (size - prop_len) in
    if ltb size prop_len
    then put []
    else (put (PropertyType.user ∷ []) then_write encode_pair up then_write rest)

-- `for a in list { a.encode(buf)?; }`.
unfoldable pub encode_all : {A : Type 0} → (A → Writer) → List A → Writer
encode_all encode [] = put []
encode_all encode (a ∷ rest) = encode a then_write encode_all encode rest
