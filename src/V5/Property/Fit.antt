-- ===== src/V5/Property/Fit.antt =====
-- Which user properties and which reason string are kept within a limit: the properties from the
-- front as long as they fit, and the reason string when all of them fit and it fits behind them.
pub mod Largest
use mathlib.Core.Option.{Option, none, some}
use ntex_mqtt.Base.{
  ℕ, ◌+◌, ◌-◌, ◌≡◌, refl, ◌∙◌, Bool, true, false, [], ◌∷◌, length, arith, if◌then◌else◌, ltb,
}
use ntex_mqtt.Wire.{Writer, ◌then_write◌, put, encode_pair, encoded_size_bytes}
use ntex_mqtt.Wire.Writers.{then_write_assoc}
use ntex_mqtt.V5.PropertyType
use ntex_mqtt.V5.Packet.{UserProperty, UserProperties, ByteString}
use ntex_mqtt.V5.Property.Write.{
  bytes_value, pair_size, encoded_property_size, encode_property, user_properties_size,
  encode_user_properties, opt_props_loop, encoded_size_opt_props, encode_opt_props,
}

pub record Kept : Type 0 where
  pub user_properties : UserProperties
  pub reason_string : Option ByteString

abbrev pub nothing_kept : Kept
nothing_kept = record { user_properties = []; reason_string = none }

unfoldable pub fit : UserProperties → Option ByteString → ℕ → Kept
fit [] none limit = nothing_kept
fit [] (some reason) limit =
    if ltb limit (3 + length reason)
    then nothing_kept
    else (record { user_properties = []; reason_string = some reason })
fit (up ∷ ups) reason limit =
    let rest = fit ups reason (limit - (1 + pair_size up)) in
    if ltb limit (1 + pair_size up) then nothing_kept else (record {
      user_properties = up ∷ rest.user_properties;
      reason_string = rest.reason_string;
    })

unfoldable pub kept_size : Kept → ℕ
unfolding user_properties_size
kept_size k =
    user_properties_size k.user_properties + encoded_property_size bytes_value k.reason_string

unfoldable pub kept_writer : Kept → Writer
unfolding encode_user_properties
kept_writer k =
    encode_user_properties k.user_properties
    then_write encode_property bytes_value k.reason_string PropertyType.reason_string

opt_props_loop-fit :
    (ups : UserProperties) (reason : Option ByteString) (limit len : ℕ)
    → opt_props_loop ups reason limit len ≡ len + kept_size (fit ups reason limit)
unfolding opt_props_loop fit kept_size user_properties_size encoded_size_bytes
opt_props_loop-fit [] none limit len = omega arith
opt_props_loop-fit [] (some reason) limit len = ground arith
opt_props_loop-fit (up ∷ ups) reason limit len =
    let prop_len = 1 + pair_size up in
    ground (arith, opt_props_loop-fit ups reason (limit - prop_len) (len + prop_len))

-- The size is that of what is kept.
pub encoded_size_opt_props-fit :
    (ups : UserProperties) (reason : Option ByteString) (limit : ℕ)
    → encoded_size_opt_props ups reason limit ≡ kept_size (fit ups reason limit)
unfolding encoded_size_opt_props
encoded_size_opt_props-fit ups reason limit = opt_props_loop-fit ups reason limit 0 ∙ omega arith

abbrev keep : UserProperty → Kept → Kept
keep up k = record { user_properties = up ∷ k.user_properties; reason_string = k.reason_string }

none_fits :
    (up : UserProperty) (ups : UserProperties) (reason : Option ByteString)
    → encode_opt_props (up ∷ ups) reason (kept_size nothing_kept) ≡ kept_writer nothing_kept
unfolding encode_opt_props kept_size kept_writer user_properties_size encode_user_properties
none_fits up ups reason = let e : ltb 0 (1 + pair_size up) ≡ true = ground arith in rw e refl

first_fits :
    (up : UserProperty) (ups : UserProperties) (reason : Option ByteString) (k : Kept)
    → encode_opt_props ups reason (kept_size k) ≡ kept_writer k
    → encode_opt_props (up ∷ ups) reason (kept_size (keep up k)) ≡ kept_writer (keep up k)
unfolding encode_opt_props kept_size kept_writer user_properties_size encode_user_properties
first_fits up ups reason k ih =
    let size = kept_size (keep up k) in
    let fits : ltb size (1 + pair_size up) ≡ false = ground arith in
    let left : size - (1 + pair_size up) ≡ kept_size k = omega arith in
    rw (fits, left, ih)
      (rw
        (
          then_write_assoc (put (PropertyType.user ∷ []))
              (encode_pair up then_write encode_user_properties k.user_properties)
              (encode_property bytes_value k.reason_string PropertyType.reason_string),
          then_write_assoc (encode_pair up) (encode_user_properties k.user_properties)
              (encode_property bytes_value k.reason_string PropertyType.reason_string),
        )
        refl)

reason_fits :
    (reason : ByteString) (limit : ℕ)
    → encode_opt_props [] (some reason) (kept_size (fit [] (some reason) limit))
      ≡ kept_writer (fit [] (some reason) limit)
unfolding encode_opt_props fit kept_size kept_writer user_properties_size encode_user_properties
    encoded_size_bytes
reason_fits reason limit = by_test (ltb limit (3 + length reason))
  where
    by_test :
        (b : Bool)
        → encode_opt_props [] (some reason) (
            kept_size (
              if b
              then nothing_kept
              else (record { user_properties = []; reason_string = some reason })))
          ≡ kept_writer (
              if b
              then nothing_kept
              else (record { user_properties = []; reason_string = some reason }))
    by_test true = let e : ltb (length reason) 0 ≡ false = ground arith in rw e refl
    by_test false =
        let e : ltb (length reason) (0 + (1 + (2 + length reason))) ≡ true = ground arith in
        rw e refl

-- And that size, handed to `encode_opt_props`, makes it write what is kept.
pub encode_opt_props-fit :
    (ups : UserProperties) (reason : Option ByteString) (limit : ℕ)
    → encode_opt_props ups reason (kept_size (fit ups reason limit))
      ≡ kept_writer (fit ups reason limit)
unfolding fit
encode_opt_props-fit [] none limit =
    unfold kept_writer encode_opt_props encode_user_properties in refl
encode_opt_props-fit [] (some reason) limit = reason_fits reason limit
encode_opt_props-fit (up ∷ ups) reason limit =
    by_test (ltb limit (1 + pair_size up))
      (encode_opt_props-fit ups reason (limit - (1 + pair_size up)))
  where
    rest : Kept
    rest = fit ups reason (limit - (1 + pair_size up))

    by_test :
        (b : Bool)
        → encode_opt_props ups reason (kept_size rest) ≡ kept_writer rest
        → encode_opt_props (up ∷ ups) reason (kept_size (if b then nothing_kept else keep up rest))
          ≡ kept_writer (if b then nothing_kept else keep up rest)
    by_test true ih = none_fits up ups reason
    by_test false ih = first_fits up ups reason rest ih
