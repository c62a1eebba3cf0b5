-- ===== src/V5/RoundTrip/Publish/Whole.antt =====
-- The whole of a PUBLISH packet (src/v5/codec/packet/publish.rs).
use mathlib.Core.Path.{subst}
use mathlib.Core.Option.{Option, none, some}
use mathlib.Core.List.{append_assoc}
use ntex_mqtt.Base.{
  ℕ, ◌+◌, ◌/◌, ◌%◌, ◌^◌, ◌≤◌, ◌≡◌, refl, ap, ◌∙◌, Bool, false, not, List, [], ◌++◌, length,
  length-append, ok, arith, ◌==◌, bit_and, if◌then◌else◌,
}
use ntex_mqtt.Wire.{
  Writer, ◌then_write◌, put, encode_u16, encode_bytes, encoded_size_bytes, write_variable_length,
  decode_nonzero_u16, decode_string,
}
use ntex_mqtt.Wire.Readers.{when_set}
use ntex_mqtt.Wire.Fields.{decode_nonzero_u16-u16_bytes, read_string}
use ntex_mqtt.Wire.Writers.{
  then_write-eq-ok, Writes, then_write-Writes, put-Writes, encode_bytes-Writes, encode_u16-Writes,
  then_write_assoc,
}
use ntex_mqtt.Types.{QoS, qos_from, is_at_most_once}
use ntex_mqtt.Types.Flags.{publish_bits}
use ntex_mqtt.V5.Lengths.{u32_sub, var_int_len, var_int_len_from_size}
use ntex_mqtt.V5.Lengths.Laws.{var_int_len_from_size-var_int_len}
use ntex_mqtt.V5.Packet.{Publish}
use ntex_mqtt.V5.Property.{read_properties}
use ntex_mqtt.V5.Property.Fields.{IsNonZeroU16}
use ntex_mqtt.V5.Property.Reads.{OptionalValid, bool_eq-default}
use ntex_mqtt.V5.Property.Written.{}
use ntex_mqtt.V5.Decode.Publish.{
  no_publish_properties, publish_handler, parse_publish_properties, decode_publish,
}
use ntex_mqtt.V5.Decode.Safety.{publish_handler-Safe}
use ntex_mqtt.V5.Encode.Publish.{
  publish_properties_len, publish_size, publish_properties, encode_publish_properties,
  encode_publish_id, encode_publish,
}
use ntex_mqtt.V5.Encode.{publish_first_byte}
use ntex_mqtt.V5.RoundTrip.Counted.{counted, counted-Writes, counted-CountedRead, read_end}
use ntex_mqtt.V5.RoundTrip.Publish.{IsValidPublish, publish_properties-Written, read_publish}

module _ (utf8 : List ℕ → Bool) where
  publish_id_read :
      (q : QoS) (id : Option ℕ) (rest : List ℕ)
      → (encode_publish_id q id).result ≡ ok tt
      → OptionalValid IsNonZeroU16 id
      → when_set
          (not (is_at_most_once q))
          decode_nonzero_u16
          ((encode_publish_id q id).bytes ++ rest)
        ≡ ok (id, rest)
  unfolding encode_u16
  publish_id_read QoS.at_most_once none rest h v = refl
  publish_id_read QoS.at_most_once (some id) rest h v = cc
  publish_id_read QoS.at_least_once none rest h v = cc
  publish_id_read QoS.at_least_once (some id) rest h (pos, small) =
      rw (decode_nonzero_u16-u16_bytes id rest pos small)
  publish_id_read QoS.exactly_once none rest h v = cc
  publish_id_read QoS.exactly_once (some id) rest h (pos, small) =
      rw (decode_nonzero_u16-u16_bytes id rest pos small)

  abbrev topic_and_id : Publish → Writer
  topic_and_id p = encode_bytes p.topic then_write encode_publish_id p.qos p.packet_id

  encode_publish_id-Writes :
      (q : QoS) (id : Option ℕ)
      → Writes (encode_publish_id q id) (if is_at_most_once q then 0 else 2)
  encode_publish_id-Writes QoS.at_most_once none h = refl
  encode_publish_id-Writes QoS.at_most_once (some id) h = cc
  encode_publish_id-Writes QoS.at_least_once none h = cc
  encode_publish_id-Writes QoS.at_least_once (some id) h = encode_u16-Writes id h
  encode_publish_id-Writes QoS.exactly_once none h = cc
  encode_publish_id-Writes QoS.exactly_once (some id) h = encode_u16-Writes id h

  topic_and_id-Writes :
      (p : Publish)
      → Writes (topic_and_id p) (2 + length p.topic + (if is_at_most_once p.qos then 0 else 2))
  topic_and_id-Writes p =
      then_write-Writes (encode_bytes p.topic) (encode_publish_id p.qos p.packet_id) _ _
        (encode_bytes-Writes p.topic) (encode_publish_id-Writes p.qos p.packet_id)

  -- The length of the properties that the encoder works out is theirs.
  properties_len_found :
      (p : Publish)
      → publish_size p ≤ 268_435_455
      → (topic_and_id p).result ≡ ok tt
      → var_int_len_from_size
          (u32_sub (publish_size p) ((length (topic_and_id p).bytes + length p.payload) % 2 ^ 32))
        ≡ publish_properties_len p.properties
  unfolding publish_size encoded_size_bytes
  properties_len_found p small h =
      let len : ℕ = publish_properties_len p.properties in
      let start = topic_and_id-Writes p h in
      let left : u32_sub (publish_size p)
            ((length (topic_and_id p).bytes + length p.payload) % 2 ^ 32)
          ≡ var_int_len len + len =
        omega (arith, start, small) in
      ap var_int_len_from_size left ∙ var_int_len_from_size-var_int_len len (omega (arith, small))

  publish-counted :
      (p : Publish)
      → publish_size p ≤ 268_435_455
      → (encode_publish p (publish_size p)).result ≡ ok tt
      → encode_publish p (publish_size p)
        ≡ topic_and_id p
          then_write counted
              (publish_properties_len p.properties)
              (publish_properties p.properties)
              (put p.payload)
  unfolding encode_publish encode_publish_properties
  publish-counted p small h =
      let start = (then_write-eq-ok (topic_and_id p) _ h).first in
      let props = publish_properties p.properties in
      let len : ℕ = publish_properties_len p.properties in
      ap
        (λ n.
          topic_and_id p
          then_write (write_variable_length n then_write props)
          then_write put p.payload)
        (properties_len_found p small start)
      ∙ ap (λ w. topic_and_id p then_write w)
          (then_write_assoc (write_variable_length len) props (put p.payload))

  read_behind_flags :
      (p : Publish) (flags : ℕ) (src block : List ℕ)
      → qos_from (bit_and flags 0b0110 / 2) ≡ ok p.qos
      → (bit_and flags 0b1000 == 0b1000) ≡ p.dup
      → (bit_and flags 0b0001 == 0b0001) ≡ p.retain
      → decode_string utf8 src ≡ ok (p.topic, (encode_publish_id p.qos p.packet_id).bytes ++ block)
      → (encode_publish_id p.qos p.packet_id).result ≡ ok tt
      → OptionalValid IsNonZeroU16 p.packet_id
      → read_properties (publish_handler utf8) no_publish_properties block
        ≡ ok (read_publish p.properties, p.payload)
      → decode_publish utf8 flags src ≡ ok (p, [])
  unfolding decode_publish parse_publish_properties
  read_behind_flags p flags src block qos dup retain topic h id props = rw topic (
      rw qos (
        rw (publish_id_read p.qos p.packet_id block h id)
          (rw props (rw (dup, retain, bool_eq-default p.properties.is_utf8_payload false) refl))))

  -- The size of a PUBLISH packet is that of what is written, and what is written is read back with
  -- the flags of the first byte.
  pub publish_read :
      (p : Publish)
      → IsValidPublish utf8 p
      → publish_size p ≤ 268_435_455
      → (encode_publish p (publish_size p)).result ≡ ok tt
      → (length (encode_publish p (publish_size p)).bytes ≡ publish_size p)
        × (decode_publish utf8
              (bit_and (publish_first_byte p) 0b0000_1111)
              (encode_publish p (publish_size p)).bytes
            ≡ ok (p, []))
  publish_read p v small h =
      let len : ℕ = publish_properties_len p.properties in
      let block = counted len (publish_properties p.properties) (put p.payload) in
      let same = publish-counted p small h in
      let outer = then_write-eq-ok (topic_and_id p) block (subst (λ w. w.result ≡ ok tt) same h) in
      let inner =
        then_write-eq-ok (encode_bytes p.topic) (encode_publish_id p.qos p.packet_id) outer.first in
      let fits : len ≤ 268_435_455 = unfold publish_size in omega (arith, small) in
      let written = publish_properties-Written utf8 p v in
      let handler = publish_handler utf8 in
      let safe = publish_handler-Safe utf8 in
      let r = counted-CountedRead handler safe (put p.payload) written fits outer.second in
      let size =
        counted-Writes handler safe (put p.payload) (length p.payload) written fits
          (put-Writes p.payload) outer.second in
      let start = topic_and_id-Writes p outer.first in
      let (dup, retain, qos, _, _) = publish_bits p.dup p.retain p.qos in
      let topic : decode_string utf8 (topic_and_id p then_write block).bytes
          ≡ ok (p.topic, (encode_publish_id p.qos p.packet_id).bytes ++ block.bytes) =
        rw (outer.joined, inner.joined, append_assoc)
          (read_string utf8 p.topic _ inner.first v.0) in
      (
        rw (same, outer.joined)
            (rw length-append
              (unfold publish_size encoded_size_bytes in omega (arith, size, start))),
        rw same (
            read_behind_flags p _ (topic_and_id p then_write block).bytes block.bytes qos dup retain
              topic inner.second v.1 (read_end r)),
      )
