-- ===== src/V5/RoundTrip/Connect/Whole.antt =====
-- The whole of a CONNECT packet (src/v5/codec/packet/connect.rs).
use mathlib.Core.Path.{subst}
use mathlib.Core.List.{append-nil}
use ntex_mqtt.Base.{
  ℕ, ◌+◌, ◌*◌, ◌/◌, ◌%◌, ◌≤◌, ◌≡◌, refl, ◌∙◌, Bool, true, false, List, [], ◌∷◌, length, ok, arith,
  leb, is_some,
}
use ntex_mqtt.Wire.{DecodeError, Writer, ◌then_write◌, encode_u16, encode_bytes, encoded_size_bytes}
use ntex_mqtt.Wire.Fields.{ensured, four_bytes, read_string}
use ntex_mqtt.Wire.Writers.{then_write-eq-ok, Writes, then_write-Writes, encode_bytes-Writes}
use ntex_mqtt.Types.{mqtt_level_5}
use ntex_mqtt.Types.Flags.{Reads}
use ntex_mqtt.V5.Packet.{Connect}
use ntex_mqtt.V5.Property.{read_properties}
use ntex_mqtt.V5.Property.Fields.{IsU16}
use ntex_mqtt.V5.Property.Reads.{OptionalValid, bool_eq-default, ==-default}
use ntex_mqtt.V5.Decode.Connect.{
  no_connect_properties, connect_handler, decode_connect_fields, decode_connect,
}
use ntex_mqtt.V5.Decode.Safety.{connect_handler-Safe}
use ntex_mqtt.V5.Encode.Connect.{
  connect_properties_len, will_size, optional_size, connect_size, connect_flags, connect_properties,
  encode_last_will, encode_optional, encode_connect_fields, encode_connect,
}
use ntex_mqtt.V5.RoundTrip.Counted.{counted, as_u32, counted-Writes, counted-CountedRead, read_end}
use ntex_mqtt.V5.RoundTrip.Connect.{
  read_connect, IsValidWill, IsValidConnect, connect_properties-Written,
}
use ntex_mqtt.V5.RoundTrip.Connect.Fields.{
  connect_flags-Reads, WillFlags, connect_flags-WillFlags, encode_optional-Writes,
  read_optional_string, read_optional_bytes, encode_last_will-Writes, read_last_will,
}

-- What follows the properties.
abbrev payload : Connect → Writer
payload c =
    encode_bytes c.client_id
    then_write encode_last_will c.last_will
    then_write encode_optional c.username
    then_write encode_optional c.password

abbrev payload_size : Connect → ℕ
payload_size c =
    2
    + length c.client_id
    + (will_size c.last_will + (optional_size c.username + optional_size c.password))

module _ (utf8 : List ℕ → Bool) where
  payload-Writes :
      (c : Connect)
      → OptionalValid (IsValidWill utf8) c.last_will
      → will_size c.last_will ≤ 268_435_455
      → Writes (payload c) (payload_size c)
  payload-Writes c v small =
      then_write-Writes (encode_bytes c.client_id) _ _ _ (encode_bytes-Writes c.client_id) (
        then_write-Writes (encode_last_will c.last_will) _ _ _
          (encode_last_will-Writes utf8 c.last_will v small)
          (then_write-Writes (encode_optional c.username) (encode_optional c.password) _ _
            (encode_optional-Writes c.username) (encode_optional-Writes c.password)))

  read_payload :
      (c : Connect) (flags : ℕ)
      → (payload c).result ≡ ok tt
      → IsValidConnect utf8 c
      → will_size c.last_will ≤ 268_435_455
      → Reads flags (is_some c.username) (is_some c.password) (is_some c.last_will) c.clean_start
      → OptionalValid (WillFlags flags) c.last_will
      → (src : List ℕ)
      → read_properties (connect_handler utf8) no_connect_properties src
        ≡ ok (read_connect c, (payload c).bytes)
      → decode_connect_fields utf8 flags c.keep_alive src ≡ ok (c, [])
  unfolding decode_connect_fields
  read_payload c flags h (_, _, _, _, _, _, _, will, cid, user, named) small reads w src e =
      let first = then_write-eq-ok (encode_bytes c.client_id) _ h in
      let second = then_write-eq-ok (encode_last_will c.last_will) _ first.second in
      let third =
        then_write-eq-ok (encode_optional c.username) (encode_optional c.password) second.second in
      let last = rw append-nil at (read_optional_bytes utf8 c.password [] third.second) in
      rw e (
        rw first.joined (
          rw (read_string utf8 c.client_id _ first.first cid) (
            rw (reads.clean_read, named)
              (rw (reads.will_read, second.joined)
                (rw (read_last_will utf8 flags c.last_will _ second.first will small w) (
                  rw (reads.user_read, third.joined)
                    (rw (read_optional_string utf8 c.username _ third.first user) (
                      rw (reads.password_read) (
                        rw last (
                          rw
                            (
                              ==-default c.session_expiry_interval_secs 0,
                              ==-default c.topic_alias_max 0,
                              bool_eq-default c.request_problem_info true,
                              bool_eq-default c.request_response_info false,
                            )
                            refl))))))))))

  fields_counted :
      (c : Connect)
      → connect_properties_len c ≤ 268_435_455
      → encode_connect_fields c
        ≡ counted (connect_properties_len c) (connect_properties c) (payload c)
  unfolding encode_connect_fields
  fields_counted c small = rw (as_u32 (connect_properties_len c) small) refl

  read_frame :
      (c : Connect) (fields : List ℕ)
      → IsU16 c.keep_alive
      → decode_connect_fields utf8 (connect_flags c) c.keep_alive fields ≡ ok (c, [])
      → decode_connect utf8 (
          0
          ∷ 4
          ∷ 77
          ∷ 81
          ∷ 84
          ∷ 84
          ∷ mqtt_level_5
          ∷ connect_flags c
          ∷ c.keep_alive / 256 % 256
          ∷ c.keep_alive % 256
          ∷ fields)
        ≡ ok (c, [])
  unfolding decode_connect
  read_frame c fields ka e =
      let rest : List ℕ = c.keep_alive / 256 % 256 ∷ c.keep_alive % 256 ∷ fields in
      let reads = connect_flags-Reads c in
      let frame : List ℕ = 0 ∷ 4 ∷ 77 ∷ 81 ∷ 84 ∷ 84 ∷ mqtt_level_5 ∷ connect_flags c ∷ rest in
      let alive : c.keep_alive / 256 % 256 * 256 + c.keep_alive % 256 ≡ c.keep_alive =
        omega (arith, ka) in
      ensured (leb 10 (length frame)) DecodeError.invalid_length _ frame (ground arith)
      ∙ rw (four_bytes 77 81 84 84 (mqtt_level_5 ∷ connect_flags c ∷ rest))
          (rw (reads.no_reserved, alive) e)

  -- The size of a CONNECT packet is that of what is written, and what is written is read back.
  pub connect_read :
      (c : Connect)
      → IsValidConnect utf8 c
      → connect_size c ≤ 268_435_455
      → (encode_connect c).result ≡ ok tt
      → (length (encode_connect c).bytes ≡ connect_size c)
        × (decode_connect utf8 (encode_connect c).bytes ≡ ok (c, []))
  unfolding encode_connect encode_bytes encode_u16 connect_size encoded_size_bytes
  connect_read c v small h =
      let len : ℕ = connect_properties_len c in
      let fits : len ≤ 268_435_455 = omega (arith, small) in
      let will_fits : will_size c.last_will ≤ 268_435_455 = omega (arith, small) in
      let same = fields_counted c fits in
      let done : (counted len (connect_properties c) (payload c)).result ≡ ok tt =
        subst (λ w. w.result ≡ ok tt) same h in
      let written = connect_properties-Written utf8 c v in
      let handler = connect_handler utf8 in
      let safe = connect_handler-Safe utf8 in
      let size =
        counted-Writes handler safe (payload c) _ written fits (payload-Writes c v.7 will_fits)
          done in
      let r = counted-CountedRead handler safe (payload c) written fits done in
      let props = read_end r in
      (
        rw same (omega (arith, size)),
        rw same (
            read_frame c (counted len (connect_properties c) (payload c)).bytes v.0 (
              read_payload c (connect_flags c) r.next_ok v will_fits (connect_flags-Reads c)
                (connect_flags-WillFlags c) _ props)),
      )
