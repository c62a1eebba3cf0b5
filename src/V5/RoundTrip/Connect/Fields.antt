-- ===== src/V5/RoundTrip/Connect/Fields.antt =====
-- The fields of CONNECT (src/v5/codec/packet/connect.rs).
use mathlib.Core.Path.{subst}
use mathlib.Core.Option.{Option, none, some}
use mathlib.Core.List.{append_assoc}
use ntex_mqtt.Base.{ℕ, ◌/◌, ◌≤◌, ◌≡◌, refl, Bool, List, ◌++◌, ok, arith, bit_and, is_some}
use ntex_mqtt.Wire.{
  Writer, ◌then_write◌, encode_bytes, encoded_size_bytes, decode_bytes, decode_string,
}
use ntex_mqtt.Wire.Readers.{when_set}
use ntex_mqtt.Wire.Fields.{read_bytes, read_string}
use ntex_mqtt.Wire.Writers.{then_write-eq-ok, Writes, then_write-Writes, encode_bytes-Writes}
use ntex_mqtt.Types.{qos_from, contains, will_retain_flag, will_qos_flag}
use ntex_mqtt.Types.Flags.{flags_of, Reads, no_will-Reads, will-Reads, will_values}
use ntex_mqtt.V5.Packet.{Connect, LastWill}
use ntex_mqtt.V5.Property.Fields.{IsText}
use ntex_mqtt.V5.Property.Reads.{OptionalValid}
use ntex_mqtt.V5.Decode.Connect.{will_handler, decode_last_will}
use ntex_mqtt.V5.Decode.Safety.{will_handler-Safe}
use ntex_mqtt.V5.Encode.Connect.{
  will_properties_len, will_size, optional_size, last_will_flags, connect_flags, will_properties,
  encode_last_will, encode_optional,
}
use ntex_mqtt.V5.RoundTrip.Counted.{counted, as_u32, counted-Writes, counted-CountedRead}
use ntex_mqtt.V5.RoundTrip.Connect.{IsValidWill, will_properties-Written}

pub connect_flags-Reads :
    (c : Connect)
    → Reads
        (connect_flags c)
        (is_some c.username)
        (is_some c.password)
        (is_some c.last_will)
        c.clean_start
connect_flags-Reads c = by_will c.last_will
  where
    by_will :
        (w : Option LastWill)
        → Reads
            (flags_of (is_some c.username) (is_some c.password) (last_will_flags w) c.clean_start)
            (is_some c.username)
            (is_some c.password)
            (is_some w)
            c.clean_start
    by_will none = no_will-Reads (is_some c.username) (is_some c.password) c.clean_start
    by_will (some w) =
        will-Reads (is_some c.username) (is_some c.password) c.clean_start w.retain w.qos

-- What the decoder makes of the flags for a last will.
abbrev pub WillFlags : ℕ → LastWill → Type 0
WillFlags flags w =
    (contains flags will_retain_flag ≡ w.retain)
    × (qos_from (bit_and flags will_qos_flag / 8) ≡ ok w.qos)

pub connect_flags-WillFlags :
    (c : Connect) → OptionalValid (WillFlags (connect_flags c)) c.last_will
connect_flags-WillFlags c = by_will c.last_will
  where
    by_will :
        (w : Option LastWill)
        → OptionalValid
            (WillFlags (
              flags_of (is_some c.username) (is_some c.password) (last_will_flags w) c.clean_start))
            w
    by_will none = tt
    by_will (some w) =
        will_values (is_some c.username) (is_some c.password) c.clean_start w.retain w.qos

pub encode_optional-Writes : (o : Option (List ℕ)) → Writes (encode_optional o) (optional_size o)
unfolding encoded_size_bytes
encode_optional-Writes none h = refl
encode_optional-Writes (some s) h = encode_bytes-Writes s h

module _ (utf8 : List ℕ → Bool) where
  pub read_optional_string :
      (o : Option (List ℕ)) (rest : List ℕ)
      → (encode_optional o).result ≡ ok tt
      → OptionalValid (IsText utf8) o
      → when_set (is_some o) (decode_string utf8) ((encode_optional o).bytes ++ rest) ≡ ok (o, rest)
  read_optional_string none rest h u = refl
  read_optional_string (some s) rest h u = rw (read_string utf8 s rest h u)

  pub read_optional_bytes :
      (o : Option (List ℕ)) (rest : List ℕ)
      → (encode_optional o).result ≡ ok tt
      → when_set (is_some o) decode_bytes ((encode_optional o).bytes ++ rest) ≡ ok (o, rest)
  read_optional_bytes none rest h = refl
  read_optional_bytes (some s) rest h = rw (read_bytes s rest h)

  -- The last will.
  abbrev will_rest : LastWill → Writer
  will_rest w = encode_bytes w.topic then_write encode_bytes w.message

  pub encode_last_will-Writes :
      (w : Option LastWill)
      → OptionalValid (IsValidWill utf8) w
      → will_size w ≤ 268_435_455
      → Writes (encode_last_will w) (will_size w)
  unfolding encoded_size_bytes
  encode_last_will-Writes none v small h = refl
  encode_last_will-Writes (some w) v small h =
      let len : ℕ = will_properties_len w in
      let fits : len ≤ 268_435_455 = omega (arith, small) in
      let rest =
        then_write-Writes (encode_bytes w.topic) (encode_bytes w.message) _ _
          (encode_bytes-Writes w.topic) (encode_bytes-Writes w.message) in
      let same : encode_last_will (some w) ≡ counted len (will_properties w) (will_rest w) =
        rw (as_u32 len fits) refl in
      let size =
        counted-Writes (will_handler utf8) (will_handler-Safe utf8) (will_rest w) _
          (will_properties-Written utf8 w v) fits rest (subst (λ x. x.result ≡ ok tt) same h) in
      rw same (omega (arith, size))

  pub read_last_will :
      (flags : ℕ) (w : Option LastWill) (rest : List ℕ)
      → (encode_last_will w).result ≡ ok tt
      → OptionalValid (IsValidWill utf8) w
      → will_size w ≤ 268_435_455
      → OptionalValid (WillFlags flags) w
      → when_set (is_some w) (decode_last_will utf8 flags) ((encode_last_will w).bytes ++ rest)
        ≡ ok (w, rest)
  unfolding decode_last_will
  read_last_will flags none rest h v small f = refl
  read_last_will flags (some w) rest h v small (retain, qos) =
      let len : ℕ = will_properties_len w in
      let fits : len ≤ 268_435_455 = omega (arith, small) in
      let same : encode_last_will (some w) ≡ counted len (will_properties w) (will_rest w) =
        rw (as_u32 len fits) refl in
      let r =
        counted-CountedRead (will_handler utf8) (will_handler-Safe utf8) (will_rest w)
          (will_properties-Written utf8 w v) fits (subst (λ x. x.result ≡ ok tt) same h) in
      let both = then_write-eq-ok (encode_bytes w.topic) (encode_bytes w.message) r.next_ok in
      rw same (
        rw (r.read rest) (
          rw (both.joined, append_assoc)
            (rw (read_string utf8 w.topic _ both.first v.0)
              (rw (read_bytes w.message rest both.second, qos, retain) refl))))
