-- ===== src/V3/RoundTrip/Connect.antt =====
-- CONNECT packets.
use mathlib.Core.Option.{Option, none, some}
use mathlib.Core.List.{append-nil, append_assoc}
use ntex_mqtt.Base.{
  ℕ, ◌/◌, ◌^◌, ◌<◌, ◌≡◌, refl, ◌∙◌, Bool, true, not, ◌||◌, List, [], ◌∷◌, ◌++◌, length, ok, arith,
  leb, bit_and, is_some, is_empty,
}
use ntex_mqtt.Wire.{DecodeError, ◌then_write◌, u16_bytes, encode_bytes, decode_bytes, decode_string}
use ntex_mqtt.Wire.Fields.{ensured, four_bytes, decode_u16-u16_bytes, read_bytes, read_string}
use ntex_mqtt.Wire.Writers.{then_write-eq-ok}
use ntex_mqtt.Types.{qos_from, mqtt_level_3, contains, will_retain_flag, will_qos_flag}
use ntex_mqtt.Types.Flags.{flags_of, Reads, no_will-Reads, will-Reads, will_values}
use ntex_mqtt.V3.Packet.{Packet, Connect, LastWill}
use ntex_mqtt.V3.Encode.{
  connect_flags, last_will_flags, encode_optional, encode_last_will, encode_connect_fields,
  encode_connect,
}
use ntex_mqtt.Wire.Readers.{when_set}
use ntex_mqtt.V3.Decode.{decode_last_will, decode_connect_fields, decode_connect_packet}
use ntex_mqtt.V3.RoundTrip.{IsString, OptionalString, WillString}

connect_flags-Reads :
    (c : Connect)
    → Reads
        (connect_flags c)
        (is_some c.username)
        (is_some c.password)
        (is_some c.last_will)
        c.clean_session
connect_flags-Reads c = by_will c.last_will
  where
    by_will :
        (w : Option LastWill)
        → Reads
            (flags_of (is_some c.username) (is_some c.password) (last_will_flags w) c.clean_session)
            (is_some c.username)
            (is_some c.password)
            (is_some w)
            c.clean_session
    by_will none = no_will-Reads (is_some c.username) (is_some c.password) c.clean_session
    by_will (some w) =
        will-Reads (is_some c.username) (is_some c.password) c.clean_session w.retain w.qos

connect_flags_will :
    (c : Connect) (w : LastWill)
    → c.last_will ≡ some w
    → (contains (connect_flags c) will_retain_flag ≡ w.retain)
      × (qos_from (bit_and (connect_flags c) will_qos_flag / 8) ≡ ok w.qos)
connect_flags_will c w e =
    rw e (will_values (is_some c.username) (is_some c.password) c.clean_session w.retain w.qos)

module _ (utf8 : List ℕ → Bool) where
  read-OptionalString :
      (o : Option (List ℕ)) (rest : List ℕ)
      → (encode_optional o).result ≡ ok tt
      → OptionalString utf8 o
      → when_set (is_some o) (decode_string utf8) ((encode_optional o).bytes ++ rest) ≡ ok (o, rest)
  read-OptionalString none rest h u = refl
  read-OptionalString (some s) rest h u = rw (read_string utf8 s rest h u)

  read_last_will :
      (flags : ℕ) (w : Option LastWill) (rest : List ℕ)
      → (encode_last_will w).result ≡ ok tt
      → WillString utf8 w
      → ((x : LastWill)
          → w ≡ some x
          → (contains flags will_retain_flag ≡ x.retain)
            × (qos_from (bit_and flags will_qos_flag / 8) ≡ ok x.qos))
      → when_set (is_some w) (decode_last_will utf8 flags) ((encode_last_will w).bytes ++ rest)
        ≡ ok (w, rest)
  unfolding decode_last_will
  read_last_will flags none rest h u f = refl
  read_last_will flags (some w) rest h u f =
      let both = then_write-eq-ok (encode_bytes w.topic) (encode_bytes w.message) h in
      let (retain, qos) = f w refl in
      rw (both.joined, append_assoc)
        (rw (read_string utf8 w.topic _ both.first u, decode_last_will)
          (rw (read_bytes w.message rest both.second, qos, retain) refl))

  read_optional_bytes :
      (o : Option (List ℕ)) (rest : List ℕ)
      → (encode_optional o).result ≡ ok tt
      → when_set (is_some o) decode_bytes ((encode_optional o).bytes ++ rest) ≡ ok (o, rest)
  read_optional_bytes none rest h = refl
  read_optional_bytes (some s) rest h = rw (read_bytes s rest h)

  read_optional_bytes_end :
      (o : Option (List ℕ))
      → (encode_optional o).result ≡ ok tt
      → when_set (is_some o) decode_bytes (encode_optional o).bytes ≡ ok (o, [])
  read_optional_bytes_end o h = rw append-nil at (read_optional_bytes o [] h)

  read_fields :
      (c : Connect)
      → (encode_connect_fields c).result ≡ ok tt
      → c.keep_alive < 2 ^ 16
      → IsString utf8 c.client_id
      → WillString utf8 c.last_will
      → OptionalString utf8 c.username
      → (not (is_empty c.client_id) || c.clean_session) ≡ true
      → decode_connect_fields utf8
          (connect_flags c)
          (u16_bytes c.keep_alive ++ (encode_connect_fields c).bytes)
        ≡ ok (Packet.connect c, [])
  unfolding decode_connect_fields encode_connect_fields
  read_fields c h ka cid will user named =
      let reads = connect_flags-Reads c in
      let first =
        then_write-eq-ok (encode_bytes c.client_id)
          (encode_last_will c.last_will
            then_write encode_optional c.username
            then_write encode_optional c.password)
          h in
      let second =
        then_write-eq-ok (encode_last_will c.last_will)
          (encode_optional c.username then_write encode_optional c.password) first.second in
      let third =
        then_write-eq-ok (encode_optional c.username) (encode_optional c.password) second.second in
      rw
        (
          decode_u16-u16_bytes c.keep_alive (encode_connect_fields c).bytes ka,
          decode_connect_fields,
        )
        (rw first.joined (
          rw (read_string utf8 c.client_id _ first.first cid) (
            rw (reads.clean_read, named)
              (rw (reads.will_read, second.joined)
                (rw
                  (read_last_will (connect_flags c) c.last_will _ second.first will
                    (connect_flags_will c))
                  (rw (reads.user_read, third.joined)
                    (rw (read-OptionalString c.username _ third.first user) (
                      rw (reads.password_read)
                        (rw (read_optional_bytes_end c.password third.second) refl)))))))))

  -- A CONNECT packet whose encoding succeeds is decoded to what it was.
  pub decode_connect_packet-encode_connect :
      (c : Connect)
      → (encode_connect c).result ≡ ok tt
      → c.keep_alive < 2 ^ 16
      → IsString utf8 c.client_id
      → WillString utf8 c.last_will
      → OptionalString utf8 c.username
      → (not (is_empty c.client_id) || c.clean_session) ≡ true
      → decode_connect_packet utf8 (encode_connect c).bytes ≡ ok (Packet.connect c, [])
  unfolding decode_connect_packet encode_connect encode_bytes
  decode_connect_packet-encode_connect c h ka cid will user named =
      let reads = connect_flags-Reads c in
      let frame : List ℕ =
        0 ∷ 4 ∷ 77 ∷ 81 ∷ 84 ∷ 84 ∷ mqtt_level_3 ∷ connect_flags c ∷ u16_bytes c.keep_alive
        ++ (encode_connect_fields c).bytes in
      ensured (leb 10 (length frame)) DecodeError.invalid_length _ frame (ground arith)
      ∙ rw
          (four_bytes 77 81 84 84 (
            mqtt_level_3 ∷ connect_flags c ∷ u16_bytes c.keep_alive
            ++ (encode_connect_fields c).bytes))
          (rw reads.no_reserved (read_fields c h ka cid will user named))
