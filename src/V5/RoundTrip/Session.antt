-- ===== src/V5/RoundTrip/Session.antt =====
-- AUTH and DISCONNECT (src/v5/codec/packet/auth.rs, disconnect.rs).
use ntex_mqtt.Base.{ℕ, ◌≤◌, ◌≡◌, refl, Bool, List, [], ◌∷◌, length, ok}
use ntex_mqtt.Wire.{pure}
use ntex_mqtt.Wire.Readers.{to_the_end, if_more-eq, to_the_end-eq-ok}
use ntex_mqtt.V5.PropertyType
use ntex_mqtt.V5.Packet.{Auth, Disconnect, auth_with, disconnect_with}
use ntex_mqtt.V5.Property.{read_properties}
use ntex_mqtt.V5.Property.Fields.{IsText, IsU32, bytes_field, string_field, IsU32-field}
use ntex_mqtt.V5.Property.Blocks.{IsDiagnostic}
use ntex_mqtt.V5.Property.Reads.{OptionalValid}
use ntex_mqtt.V5.Property.Written.{always_valid, then_write-Written, optional-Written}
use ntex_mqtt.V5.Reasons.Codes.{try_from-auth_bits, try_from-disconnect_bits}
use ntex_mqtt.V5.Reasons.Session.{auth_bits, disconnect_bits}
use ntex_mqtt.V5.Decode.Session.{auth_handler, decode_auth, disconnect_handler, decode_disconnect}
use ntex_mqtt.V5.Decode.Safety.{auth_handler-Safe, disconnect_handler-Safe}
use ntex_mqtt.V5.Encode.Session.{
  auth_fixed_size, auth_size, auth_properties, encode_auth, disconnect_fixed_size, disconnect_size,
  disconnect_properties, encode_disconnect,
}
use ntex_mqtt.V5.RoundTrip.Limited.{limited_fit, ReadBack, limited-ReadBack}

-- The packet without what is left out at the limit.
unfoldable pub kept_auth : Auth → ℕ → Auth
kept_auth a limit =
    let k = limited_fit 1 (auth_fixed_size a) a.user_properties a.reason_string limit in
    record a { user_properties = k.user_properties; reason_string = k.reason_string }

unfoldable pub kept_disconnect : Disconnect → ℕ → Disconnect
kept_disconnect d limit =
    let k = limited_fit 1 (disconnect_fixed_size d) d.user_properties d.reason_string limit in
    record d { user_properties = k.user_properties; reason_string = k.reason_string }

module _ (utf8 : List ℕ → Bool) where
  abbrev pub IsValidAuth : Auth → Type 0
  IsValidAuth a =
      OptionalValid (IsText utf8) a.auth_method
      × IsDiagnostic utf8 a.user_properties a.reason_string

  abbrev pub IsValidDisconnect : Disconnect → Type 0
  IsValidDisconnect d =
      OptionalValid IsU32 d.session_expiry_interval_secs
      × OptionalValid (IsText utf8) d.server_reference
      × IsDiagnostic utf8 d.user_properties d.reason_string

  auth-ReadBack :
      (a : Auth) (limit : ℕ)
      → IsValidAuth a
      → auth_size a limit ≤ 268_435_455
      → (encode_auth a (auth_size a limit)).result ≡ ok tt
      → ReadBack
          (auth_handler utf8)
          (auth_with a.reason_code)
          (kept_auth a limit)
          (auth_bits a.reason_code ∷ [])
          (encode_auth a (auth_size a limit)).bytes
          (auth_size a limit)
  unfolding auth_handler encode_auth auth_size kept_auth
  auth-ReadBack a limit (method, diag) small h =
      let handler = auth_handler utf8 in
      let safe = auth_handler-Safe utf8 in
      let s0 = auth_with a.reason_code in
      let s1 : Auth = record s0 { auth_method = a.auth_method } in
      let s2 : Auth = record s1 { auth_data = a.auth_data } in
      limited-ReadBack handler safe utf8 (auth_bits a.reason_code ∷ []) (auth_properties a)
        (auth_fixed_size a) a.user_properties a.reason_string limit s0
        (λ ps r. record s2 { user_properties = ps; reason_string = r }) (λ ps src. refl)
        (λ ps src. refl)
        (then_write-Written handler safe
          (optional-Written handler safe (string_field utf8) PropertyType.auth_method
            (λ v. record s0 { auth_method = v }) a.auth_method (λ src. refl) method)
          (optional-Written handler safe bytes_field PropertyType.auth_data
            (λ v. record s1 { auth_data = v }) a.auth_data (λ src. refl)
            (always_valid a.auth_data)))
        diag small h

  -- The size of an AUTH packet is that of what is written, and what is written is read back.
  pub auth_read :
      (a : Auth) (limit : ℕ)
      → IsValidAuth a
      → auth_size a limit ≤ 268_435_455
      → (encode_auth a (auth_size a limit)).result ≡ ok tt
      → (length (encode_auth a (auth_size a limit)).bytes ≡ auth_size a limit)
        × (decode_auth utf8 (encode_auth a (auth_size a limit)).bytes ≡ ok (kept_auth a limit, []))
  unfolding decode_auth
  auth_read a limit valid small h =
      let r = auth-ReadBack a limit valid small h in
      (
        r.size,
        rw (r.layout) (
            rw (try_from-auth_bits a.reason_code) (
              if_more-eq
                (to_the_end (read_properties (auth_handler utf8) (auth_with a.reason_code)))
                (pure (auth_with a.reason_code)) r.properties r.some_bytes
                (to_the_end-eq-ok (read_properties (auth_handler utf8) (auth_with a.reason_code))
                  r.properties r.read))),
      )

  disconnect-ReadBack :
      (d : Disconnect) (limit : ℕ)
      → IsValidDisconnect d
      → disconnect_size d limit ≤ 268_435_455
      → (encode_disconnect d (disconnect_size d limit)).result ≡ ok tt
      → ReadBack
          (disconnect_handler utf8)
          (disconnect_with d.reason_code)
          (kept_disconnect d limit)
          (disconnect_bits d.reason_code ∷ [])
          (encode_disconnect d (disconnect_size d limit)).bytes
          (disconnect_size d limit)
  unfolding disconnect_handler encode_disconnect disconnect_size kept_disconnect
  disconnect-ReadBack d limit (expiry, reference, diag) small h =
      let handler = disconnect_handler utf8 in
      let safe = disconnect_handler-Safe utf8 in
      let s0 = disconnect_with d.reason_code in
      let s1 : Disconnect = record s0 {
        session_expiry_interval_secs = d.session_expiry_interval_secs;
      } in
      let s2 : Disconnect = record s1 { server_reference = d.server_reference } in
      limited-ReadBack handler safe utf8 (disconnect_bits d.reason_code ∷ [])
        (disconnect_properties d) (disconnect_fixed_size d) d.user_properties d.reason_string limit
        s0 (λ ps r. record s2 { user_properties = ps; reason_string = r }) (λ ps src. refl)
        (λ ps src. refl)
        (then_write-Written handler safe
          (optional-Written handler safe IsU32-field PropertyType.sess_expiry_int
            (λ v. record s0 { session_expiry_interval_secs = v }) d.session_expiry_interval_secs
            (λ src. refl) expiry)
          (optional-Written handler safe (string_field utf8) PropertyType.server_ref
            (λ v. record s1 { server_reference = v }) d.server_reference (λ src. refl) reference))
        diag small h

  -- The same of a DISCONNECT packet.
  pub disconnect_read :
      (d : Disconnect) (limit : ℕ)
      → IsValidDisconnect d
      → disconnect_size d limit ≤ 268_435_455
      → (encode_disconnect d (disconnect_size d limit)).result ≡ ok tt
      → (length (encode_disconnect d (disconnect_size d limit)).bytes ≡ disconnect_size d limit)
        × (decode_disconnect utf8 (encode_disconnect d (disconnect_size d limit)).bytes
            ≡ ok (kept_disconnect d limit, []))
  unfolding decode_disconnect
  disconnect_read d limit valid small h =
      let r = disconnect-ReadBack d limit valid small h in
      (
        r.size,
        rw (r.layout) (
            rw (try_from-disconnect_bits d.reason_code) (
              if_more-eq
                (to_the_end
                  (read_properties (disconnect_handler utf8) (disconnect_with d.reason_code)))
                (pure (disconnect_with d.reason_code)) r.properties r.some_bytes
                (to_the_end-eq-ok
                  (read_properties (disconnect_handler utf8) (disconnect_with d.reason_code))
                  r.properties r.read))),
      )
