-- ===== src/V5/Property/Written.antt =====
-- Writers of properties: how much they write, and where they take the loop that reads it back.
use mathlib.Core.Path.{subst}
use mathlib.Core.Option.{Option, none, some}
use ntex_mqtt.Base.{ℕ, ◌+◌, ◌≡◌, Bool, List, [], All}
use ntex_mqtt.Wire.{Reader, Writer, ◌then_write◌, put}
use ntex_mqtt.Wire.Writers.{Writes, then_write-Writes, put-Writes}
use ntex_mqtt.V5.PropertyType
use ntex_mqtt.V5.Packet.{UserProperties}
use ntex_mqtt.V5.Property.{set_value, push_property}
use ntex_mqtt.V5.Property.Safety.Properties.{SafeHandler}
use ntex_mqtt.V5.Property.Reads.{
  IsField, OptionalValid, unless_default, Encodes, then_write-Encodes, nothing-Encodes,
  optional-Encodes, default-Encodes,
}
use ntex_mqtt.V5.Property.Fields.{
  Anything, IsUserProperty, user-Encodes, encode_property-Writes, encode_property_default-Writes,
  encode_user_properties-Writes,
}
use ntex_mqtt.V5.Property.Write.{
  Encode, encode_property, encode_property_default, encoded_property_size,
  encoded_property_size_default, user_properties_size, encode_user_properties,
}

pub always_valid : {A : Type 0} (v : Option A) → OptionalValid Anything v
always_valid none = tt
always_valid (some a) = tt

module _ {S : Type 0} (handler : ℕ → S → Reader S) (safe : SafeHandler handler) where
  pub record Written (s : S) (w : Writer) (n : ℕ) (s' : S) : Type 0 where
    pub exact : Writes w n
    pub reads : Encodes handler safe s w s'

  pub then_write-Written :
      {s s' s'' : S} {a b : Writer} {m n : ℕ}
      → Written s a m s'
      → Written s' b n s''
      → Written s (a then_write b) (m + n) s''
  then_write-Written {a = a} {b = b} {m = m} {n = n} ha hb = record {
    exact = then_write-Writes a b m n ha.exact hb.exact;
    reads = then_write-Encodes handler safe ha.reads hb.reads;
  }

  pub resize : {s s' : S} {w : Writer} {m n : ℕ} → Written s w m s' → m ≡ n → Written s w n s'
  resize {s = s} {s' = s'} {w = w} h e = subst (λ k. Written s w k s') e h

  pub nothing-Written : (s : S) → Written s (put []) 0 s
  nothing-Written s = record { exact = put-Writes []; reads = nothing-Encodes handler safe s }

  pub optional-Written :
      {A : Type 0} {e : Encode A} {decode : Reader A} {Valid : A → Type 0}
      → IsField e decode Valid
      → (id : ℕ) (set : Option A → S) (v : Option A)
      → ((src : List ℕ) → handler id (set none) src ≡ set_value none decode set src)
      → OptionalValid Valid v
      → Written (set none) (encode_property e v id) (encoded_property_size e v) (set v)
  optional-Written {e = e} field id set v step valid = record {
    exact = encode_property-Writes e v id field.exact;
    reads = optional-Encodes handler safe field id set v step valid;
  }

  pub default-Written :
      {A : Type 0} {e : Encode A} {decode : Reader A} {Valid : A → Type 0}
      → IsField e decode Valid
      → (id : ℕ) (set : Option A → S) (eq : A → A → Bool) (v default : A)
      → ((src : List ℕ) → handler id (set none) src ≡ set_value none decode set src)
      → Valid v
      → Written
          (set none)
          (encode_property_default eq e v default id)
          (encoded_property_size_default eq e v default)
          (set (unless_default eq v default))
  default-Written {e = e} field id set eq v default step valid = record {
    exact = encode_property_default-Writes e eq v default id field.exact;
    reads = default-Encodes handler safe field id set eq v default step valid;
  }

  pub user-Written :
      (utf8 : List ℕ → Bool) (set : UserProperties → S) (ps : UserProperties)
      → ((before : UserProperties) (src : List ℕ)
          → handler PropertyType.user (set before) src ≡ push_property utf8 before set src)
      → All (IsUserProperty utf8) ps
      → Written (set []) (encode_user_properties ps) (user_properties_size ps) (set ps)
  user-Written utf8 set ps step valid = record {
    exact = encode_user_properties-Writes ps;
    reads = user-Encodes handler safe utf8 set step [] ps valid;
  }
