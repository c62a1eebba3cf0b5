-- ===== src/V5/Decode/Session.antt =====
-- AUTH and DISCONNECT (src/v5/codec/packet/auth.rs, disconnect.rs). The values read so far are kept
-- in the packet itself.
use ntex_mqtt.Base.{ℕ, Bool, List, ◌==◌, if◌then◌else◌}
use ntex_mqtt.Wire.{Reader, ◌>>=◌, pure, decode_u32, decode_bytes, decode_string}
use ntex_mqtt.Wire.Readers.{lift, to_the_end, if_more, if_byte}
use ntex_mqtt.V5.PropertyType
use ntex_mqtt.V5.Packet.{Auth, Disconnect, auth_with, disconnect_with}
use ntex_mqtt.V5.Property.{set_value, push_property, unknown_property, read_properties}
use ntex_mqtt.V5.Reasons.{try_from}
use ntex_mqtt.V5.Reasons.Session.{
  AuthReasonCode, DisconnectReasonCode, auth_codes, disconnect_codes,
}

module _ (utf8 : List ℕ → Bool) where
  unfoldable pub auth_handler : ℕ → Auth → Reader Auth
  auth_handler prop_id s =
      if prop_id == PropertyType.auth_method
      then set_value s.auth_method (decode_string utf8) (λ v. record s { auth_method = v })
      else if prop_id == PropertyType.auth_data
      then set_value s.auth_data decode_bytes (λ v. record s { auth_data = v })
      else if prop_id == PropertyType.reason_string
      then set_value s.reason_string (decode_string utf8) (λ v. record s { reason_string = v })
      else if prop_id == PropertyType.user
      then push_property utf8 s.user_properties (λ ps. record s { user_properties = ps })
      else unknown_property

  -- `Auth::decode`. Where it tests `src.has_remaining()` again nothing has been read since.
  unfoldable pub decode_auth : Reader Auth
  decode_auth =
      if_byte
        (λ code. do
          reason_code ← lift (try_from auth_codes code)
          if_more (to_the_end (read_properties auth_handler (auth_with reason_code)))
              (pure (auth_with reason_code)))
        (pure (auth_with AuthReasonCode.success))

  unfoldable pub disconnect_handler : ℕ → Disconnect → Reader Disconnect
  disconnect_handler prop_id s =
      if prop_id == PropertyType.sess_expiry_int
      then set_value s.session_expiry_interval_secs decode_u32
          (λ v. record s { session_expiry_interval_secs = v })
      else if prop_id == PropertyType.reason_string
      then set_value s.reason_string (decode_string utf8) (λ v. record s { reason_string = v })
      else if prop_id == PropertyType.user
      then push_property utf8 s.user_properties (λ ps. record s { user_properties = ps })
      else if prop_id == PropertyType.server_ref
      then set_value s.server_reference (decode_string utf8)
          (λ v. record s { server_reference = v })
      else unknown_property

  -- `Disconnect::decode`.
  unfoldable pub decode_disconnect : Reader Disconnect
  decode_disconnect =
      if_byte
        (λ code. do
          reason_code ← lift (try_from disconnect_codes code)
          if_more (to_the_end (read_properties disconnect_handler (disconnect_with reason_code)))
              (pure (disconnect_with reason_code)))
        (pure (disconnect_with DisconnectReasonCode.normal_disconnection))
