-- ===== src/V5/Property/Fields.antt =====
-- The fields that properties hold, and the user properties (src/utils.rs).
use mathlib.Core.Option.{Option, none, some}
use mathlib.Core.Path.{subst}
use mathlib.Core.List.{append_assoc, append-nil}
use ntex_mqtt.Base.{
  ℕ, ◌+◌, ◌<◌, ◌≡◌, ◌^◌, refl, ◌∙◌, Bool, true, false, not, List, [], ◌∷◌, ◌++◌, length, ok, arith,
  if◌then◌else◌, All,
}
use ntex_mqtt.Wire.{
  Reader, ◌then_write◌, put, u32_bytes, encode_pair, encode_bytes, encoded_size_bytes, encode_bool,
  encode_u16, encode_u32, decode_bool, decode_u16, decode_u32, decode_nonzero_u16,
  decode_nonzero_u32, decode_bytes, decode_string,
}
use ntex_mqtt.Wire.Fields.{
  decode_u16-u16_bytes, decode_nonzero_u16-u16_bytes, decode_u32-u32_bytes, read_bytes, read_string,
  fields_read_back,
}
use ntex_mqtt.Wire.Writers.{
  then_write-eq-ok, Writes, then_write-Writes, encode_bytes-Writes, encode_u16-Writes, put-Writes,
  then_write_assoc,
}
use ntex_mqtt.V5.PropertyType
use ntex_mqtt.V5.Packet.{UserProperty, UserProperties}
use ntex_mqtt.V5.Property.{push_property, decode_user_property}
use ntex_mqtt.V5.Property.Safety.Properties.{SafeHandler}
use ntex_mqtt.V5.Property.Reads.{
  IsField, Encodes, nothing-Encodes, then_write-Encodes, property-Encodes,
}
use ntex_mqtt.V5.Property.Write.{
  Encode, bool_value, u16_value, u32_value, bytes_value, encode_property, encode_property_default,
  encode_user_properties, encoded_property_size, encoded_property_size_default, pair_size,
  user_properties_size,
}

abbrev pub IsU16 : ℕ → Type 0
IsU16 v = v < 2 ^ 16

abbrev pub IsU32 : ℕ → Type 0
IsU32 v = v < 2 ^ 32

abbrev pub IsNonZeroU16 : ℕ → Type 0
IsNonZeroU16 v = (0 < v) × (v < 2 ^ 16)

abbrev pub IsNonZeroU32 : ℕ → Type 0
IsNonZeroU32 v = (0 < v) × (v < 2 ^ 32)

abbrev pub IsText : (List ℕ → Bool) → List ℕ → Type 0
IsText utf8 s = utf8 s ≡ true

abbrev pub Anything : {A : Type 0} → A → Type 0
Anything a = Unit {0}

abbrev pub IsUserProperty : (List ℕ → Bool) → UserProperty → Type 0
IsUserProperty utf8 (key, val) = IsText utf8 key × IsText utf8 val

pub bool_field : IsField bool_value decode_bool Anything
unfolding encode_bool
bool_field = record { exact = λ b h. exact b; reads = λ b v h rest. (fields_read_back rest).0 b }
  where
    exact : (b : Bool) → length (encode_bool b).bytes ≡ 1
    exact true = refl
    exact false = refl

pub IsU16-field : IsField u16_value decode_u16 IsU16
unfolding encode_u16
IsU16-field = record {
  exact = encode_u16-Writes;
  reads = λ v u h rest. decode_u16-u16_bytes v rest u;
}

pub nonzero_u16_field : IsField u16_value decode_nonzero_u16 IsNonZeroU16
unfolding encode_u16
nonzero_u16_field = record {
  exact = encode_u16-Writes;
  reads = λ v u h rest. decode_nonzero_u16-u16_bytes v rest u.0 u.1;
}

pub IsU32-field : IsField u32_value decode_u32 IsU32
unfolding encode_u32
IsU32-field = record { exact = λ v h. refl; reads = λ v u h rest. decode_u32-u32_bytes v rest u }

pub nonzero_u32_field : IsField u32_value decode_nonzero_u32 IsNonZeroU32
unfolding encode_u32 decode_nonzero_u32
nonzero_u32_field = record { exact = λ v h. refl; reads = λ v u h rest. reads v u.0 u.1 rest }
  where
    reads :
        (v : ℕ)
        → 0 < v
        → v < 2 ^ 32
        → (rest : List ℕ) → decode_nonzero_u32 (u32_bytes v ++ rest) ≡ ok (v, rest)
    reads v pos small rest = ground (arith, decode_u32-u32_bytes v rest small)

pub bytes_field : IsField bytes_value decode_bytes Anything
unfolding encoded_size_bytes
bytes_field = record { exact = encode_bytes-Writes; reads = λ s v h rest. read_bytes s rest h }

pub string_field : (utf8 : List ℕ → Bool) → IsField bytes_value (decode_string utf8) (IsText utf8)
unfolding encoded_size_bytes
string_field utf8 = record {
  exact = encode_bytes-Writes;
  reads = λ s v h rest. read_string utf8 s rest h v;
}

-- Sizes.
pub encode_property-Writes :
    {A : Type 0} (e : Encode A) (v : Option A) (id : ℕ)
    → ((a : A) → Writes (e.encode a) (e.encoded_size a))
    → Writes (encode_property e v id) (encoded_property_size e v)
encode_property-Writes e none id exact = put-Writes []
encode_property-Writes e (some a) id exact =
    then_write-Writes (put (id ∷ [])) (e.encode a) 1 (e.encoded_size a) (put-Writes (id ∷ []))
      (exact a)

pub encode_property_default-Writes :
    {A : Type 0} (e : Encode A) (eq : A → A → Bool) (v default : A) (id : ℕ)
    → ((a : A) → Writes (e.encode a) (e.encoded_size a))
    → Writes
        (encode_property_default eq e v default id)
        (encoded_property_size_default eq e v default)
encode_property_default-Writes e eq v default id exact = by_test (eq v default)
  where
    by_test :
        (b : Bool)
        → Writes
            (if not b then put (id ∷ []) then_write e.encode v else put [])
            (if b then 0 else 1 + e.encoded_size v)
    by_test true = put-Writes []
    by_test false = encode_property-Writes e (some v) id exact

encode_pair-Writes : (p : UserProperty) → Writes (encode_pair p) (pair_size p)
unfolding encode_pair encoded_size_bytes
encode_pair-Writes (key, val) =
    then_write-Writes (encode_bytes key) (encode_bytes val) _ _ (encode_bytes-Writes key)
      (encode_bytes-Writes val)

pub encode_user_properties-Writes :
    (ps : UserProperties) → Writes (encode_user_properties ps) (user_properties_size ps)
unfolding encode_user_properties user_properties_size
encode_user_properties-Writes [] h = refl
encode_user_properties-Writes (p ∷ ps) h =
    let rest =
      then_write-Writes (encode_pair p) (encode_user_properties ps) _ _ (encode_pair-Writes p)
        (encode_user_properties-Writes ps) in
    let whole =
      then_write-Writes (put (PropertyType.user ∷ []))
        (encode_pair p then_write encode_user_properties ps) 1 _
        (put-Writes (PropertyType.user ∷ [])) rest h in
    omega (arith, whole)

-- Reading.
read_user_property :
    (utf8 : List ℕ → Bool) (p : UserProperty) (rest : List ℕ)
    → IsUserProperty utf8 p
    → (encode_pair p).result ≡ ok tt
    → decode_user_property utf8 ((encode_pair p).bytes ++ rest) ≡ ok (p, rest)
unfolding encode_pair decode_user_property
read_user_property utf8 (key, val) rest (k, v) h =
    let both = then_write-eq-ok (encode_bytes key) (encode_bytes val) h in
    rw (both.joined, append_assoc)
      (rw (read_string utf8 key _ both.first k, decode_user_property)
        (rw (read_string utf8 val rest both.second v) refl))

module _ {S : Type 0} (handler : ℕ → S → Reader S) (safe : SafeHandler handler) where
  pub user-Encodes :
      (utf8 : List ℕ → Bool) (set : UserProperties → S)
      → ((ps : UserProperties) (src : List ℕ)
          → handler PropertyType.user (set ps) src ≡ push_property utf8 ps set src)
      → (before ps : UserProperties) → All (IsUserProperty utf8) ps
      → Encodes handler safe (set before) (encode_user_properties ps) (set (before ++ ps))
  unfolding encode_user_properties
  user-Encodes utf8 set step before [] v = rw append-nil (nothing-Encodes handler safe (set before))
  user-Encodes utf8 set step before (p ∷ ps) (vp, vs) =
      let first =
        property-Encodes handler safe PropertyType.user (set before) (set (before ++ (p ∷ [])))
          (encode_pair p)
          λ h rest.
            step before ((encode_pair p).bytes ++ rest)
            ∙ rw (read_user_property utf8 p rest vp h) refl in
      let others = user-Encodes utf8 set step (before ++ (p ∷ [])) ps vs in
      subst (λ us. Encodes handler safe (set before) (encode_user_properties (p ∷ ps)) (set us))
        (append_assoc before (p ∷ []) ps)
        (subst (λ w. Encodes handler safe (set before) w (set ((before ++ (p ∷ [])) ++ ps)))
          (then_write_assoc (put (PropertyType.user ∷ [])) (encode_pair p)
            (encode_user_properties ps))
          (then_write-Encodes handler safe first others))
