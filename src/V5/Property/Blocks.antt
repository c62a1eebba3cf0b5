-- ===== src/V5/Property/Blocks.antt =====
-- A block of properties behind its length (src/v5/codec/packet).
use mathlib.Core.Path.{subst}
use mathlib.Core.Option.{Option, none, some}
use mathlib.Core.List.{append-nil}
use ntex_mqtt.Base.{
  ℕ, ◌+◌, ◌-◌, ◌≤◌, ◌≡◌, refl, Bool, true, List, [], ◌∷◌, ◌++◌, length, length-append, take, drop,
  take-length-append, drop-length-append, ok, arith, leb, All,
}
use ntex_mqtt.Wire.{Reader, Writer, write_variable_length, decode_string, take_properties}
use ntex_mqtt.Wire.Varint.{cursor-write_variable_length}
use ntex_mqtt.Wire.Writers.{Writes, then_write-Writes}
use ntex_mqtt.V5.PropertyType
use ntex_mqtt.V5.Packet.{UserProperties, ByteString}
use ntex_mqtt.V5.Property.{property_loop, set_value, push_property, read_properties}
use ntex_mqtt.V5.Property.Safety.Properties.{SafeHandler}
use ntex_mqtt.V5.Property.Reads.{OptionalValid, Encodes, then_write-Encodes, optional-Encodes}
use ntex_mqtt.V5.Property.Fields.{
  IsUserProperty, IsText, string_field, user-Encodes, encode_property-Writes,
  encode_user_properties-Writes,
}
use ntex_mqtt.V5.Property.Write.{bytes_value, encode_property, pair_size, encode_user_properties}
use ntex_mqtt.V5.Property.Fit.{Kept, fit, kept_size, kept_writer}

pub kept_writer-Writes : (k : Kept) → Writes (kept_writer k) (kept_size k)
unfolding kept_writer kept_size
kept_writer-Writes k =
    then_write-Writes (encode_user_properties k.user_properties)
      (encode_property bytes_value k.reason_string PropertyType.reason_string) _ _
      (encode_user_properties-Writes k.user_properties)
      (encode_property-Writes bytes_value k.reason_string PropertyType.reason_string
        (string_field (λ s. true)).exact)

abbrev pub IsDiagnostic : (List ℕ → Bool) → UserProperties → Option ByteString → Type 0
IsDiagnostic utf8 ups reason = All (IsUserProperty utf8) ups × OptionalValid (IsText utf8) reason

-- What is kept of strings are strings.
pub fit-IsDiagnostic :
    (utf8 : List ℕ → Bool) (ups : UserProperties) (reason : Option ByteString) (limit : ℕ)
    → IsDiagnostic utf8 ups reason
    → IsDiagnostic utf8 (fit ups reason limit).user_properties (fit ups reason limit).reason_string
unfolding fit
fit-IsDiagnostic utf8 [] none limit v = v
fit-IsDiagnostic utf8 [] (some reason) limit v = ground arith
fit-IsDiagnostic utf8 (up ∷ ups) reason limit ((u, us), r) =
    ground (arith, fit-IsDiagnostic utf8 ups reason (limit - (1 + pair_size up)) (us, r))

module _ {S : Type 0} (handler : ℕ → S → Reader S) (safe : SafeHandler handler) where
  pub kept_writer-Encodes :
      (utf8 : List ℕ → Bool) (set : UserProperties → Option ByteString → S)
      → ((ps : UserProperties) (src : List ℕ)
          → handler PropertyType.user (set ps none) src
            ≡ push_property utf8 ps (λ ps'. set ps' none) src)
      → ((ps : UserProperties) (src : List ℕ)
          → handler PropertyType.reason_string (set ps none) src
            ≡ set_value none (decode_string utf8) (set ps) src)
      → (k : Kept) → IsDiagnostic utf8 k.user_properties k.reason_string
      → Encodes handler safe (set [] none) (kept_writer k) (set k.user_properties k.reason_string)
  unfolding kept_writer
  kept_writer-Encodes utf8 set user reason k (us, r) =
      then_write-Encodes handler safe
        (user-Encodes handler safe utf8 (λ ps. set ps none) user [] k.user_properties us)
        (optional-Encodes handler safe (string_field utf8) PropertyType.reason_string
          (set k.user_properties) k.reason_string (reason k.user_properties) r)

  pub read_properties-Encodes :
      (n : ℕ) (w : Writer) (s s' : S) (rest : List ℕ)
      → n ≤ 268_435_455
      → w.result ≡ ok tt
      → length w.bytes ≡ n
      → Encodes handler safe s w s'
      → read_properties handler s ((write_variable_length n).bytes ++ (w.bytes ++ rest))
        ≡ ok (s', rest)
  unfolding read_properties take_properties property_loop
  read_properties-Encodes n w s s' rest small h len reads =
      let (_, _, _, cursor) = cursor-write_variable_length n (w.bytes ++ rest) small in
      let runs : property_loop handler (length w.bytes) s w.bytes ≡ ok s' =
        rw append-nil at (reads.apply h []) in
      let enough : leb n (length (w.bytes ++ rest)) ≡ true =
        ground (arith, length-append w.bytes rest) in
      let taken : take n (w.bytes ++ rest) ≡ w.bytes =
        subst (λ m. take m (w.bytes ++ rest) ≡ w.bytes) len (take-length-append w.bytes rest) in
      let left : drop n (w.bytes ++ rest) ≡ rest =
        subst (λ m. drop m (w.bytes ++ rest) ≡ rest) len (drop-length-append w.bytes rest) in
      rw cursor (rw enough (rw (enough, taken, left) (rw runs refl)))
