-- ===== src/V5/RoundTrip/ConnectAck/Whole.antt =====
-- The whole of a CONNACK packet (src/v5/codec/packet/connack.rs).
use ntex_mqtt.Base.{ℕ, ◌≤◌, suc, leb, ◌≡◌, refl, Bool, true, List, [], ◌∷◌, length, ok, arith}
use ntex_mqtt.Wire.Readers.{to_the_end-eq-ok}
use ntex_mqtt.Types.{}
use ntex_mqtt.Types.Flags.{bool_bit}
use ntex_mqtt.V5.Packet.{ConnectAck, receive_max_default}
use ntex_mqtt.V5.Property.{read_properties}
use ntex_mqtt.V5.Property.Fields.{}
use ntex_mqtt.V5.Property.Reads.{bool_eq-default, ==-default}
use ntex_mqtt.V5.Property.Written.{}
use ntex_mqtt.V5.Reasons.Codes.{try_from-connect_ack_bits}
use ntex_mqtt.V5.Reasons.Session.{connect_ack_bits}
use ntex_mqtt.V5.Decode.ConnectAck.{
  no_connect_ack_properties, connect_ack_handler, decode_connect_ack,
}
use ntex_mqtt.V5.Decode.Safety.{connect_ack_handler-Safe}
use ntex_mqtt.V5.Encode.ConnectAck.{
  connect_ack_fixed_size, connect_ack_size, connect_ack_properties, encode_connect_ack,
}
use ntex_mqtt.V5.RoundTrip.Limited.{ReadBack, limited-ReadBack}
use ntex_mqtt.V5.RoundTrip.ConnectAck.{
  IsValidConnectAck, connect_ack_properties-Written, kept_connect_ack, max_qos-default, read_values,
  session_flag,
}

module _ (utf8 : List ℕ → Bool) where
  connect_ack-ReadBack :
      (a : ConnectAck) (limit : ℕ)
      → IsValidConnectAck utf8 a
      → connect_ack_size a limit ≤ 268_435_455
      → (encode_connect_ack a (connect_ack_size a limit)).result ≡ ok tt
      → ReadBack
          (connect_ack_handler utf8)
          no_connect_ack_properties
          (read_values (kept_connect_ack a limit))
          (bool_bit a.session_present ∷ connect_ack_bits a.reason_code ∷ [])
          (encode_connect_ack a (connect_ack_size a limit)).bytes
          (connect_ack_size a limit)
  unfolding connect_ack_handler encode_connect_ack connect_ack_size kept_connect_ack
  connect_ack-ReadBack a limit valid small h =
      limited-ReadBack (connect_ack_handler utf8) (connect_ack_handler-Safe utf8) utf8
        (bool_bit a.session_present ∷ connect_ack_bits a.reason_code ∷ [])
        (connect_ack_properties a) (connect_ack_fixed_size a) a.user_properties a.reason_string
        limit no_connect_ack_properties
        (λ ps r. record (read_values a) { reason_string = r; user_properties = ps })
        (λ ps src. refl) (λ ps src. refl) (connect_ack_properties-Written utf8 a valid) valid.9
        small h

  connect_ack_values :
      (a : ConnectAck) (src : List ℕ)
      → read_properties (connect_ack_handler utf8) no_connect_ack_properties src
        ≡ ok (read_values a, [])
      → decode_connect_ack utf8 (bool_bit a.session_present ∷ connect_ack_bits a.reason_code ∷ src)
        ≡ ok (a, [])
  unfolding decode_connect_ack
  connect_ack_values a src e =
      let (reserved, present) = session_flag a.session_present in
      let enough : leb 2 (suc (suc (length src))) ≡ true = ground arith in
      rw (enough, reserved)
        (rw (try_from-connect_ack_bits a.reason_code) (
          rw
            (to_the_end-eq-ok (read_properties (connect_ack_handler utf8) no_connect_ack_properties)
              src e)
            (rw
              (
                present,
                ==-default a.receive_max receive_max_default,
                ==-default a.topic_alias_max 0,
                max_qos-default a.max_qos,
                bool_eq-default a.retain_available true,
                bool_eq-default a.wildcard_subscription_available true,
                bool_eq-default a.subscription_identifiers_available true,
                bool_eq-default a.shared_subscription_available true,
              )
              refl)))

  -- The size of a CONNACK packet is that of what is written, and what is written is read back.
  pub connect_ack_read :
      (a : ConnectAck) (limit : ℕ)
      → IsValidConnectAck utf8 a
      → connect_ack_size a limit ≤ 268_435_455
      → (encode_connect_ack a (connect_ack_size a limit)).result ≡ ok tt
      → (length (encode_connect_ack a (connect_ack_size a limit)).bytes ≡ connect_ack_size a limit)
        × (decode_connect_ack utf8 (encode_connect_ack a (connect_ack_size a limit)).bytes
            ≡ ok (kept_connect_ack a limit, []))
  unfolding kept_connect_ack
  connect_ack_read a limit valid small h =
      let r = connect_ack-ReadBack a limit valid small h in
      (r.size, rw (r.layout) (connect_ack_values (kept_connect_ack a limit) r.properties r.read))
