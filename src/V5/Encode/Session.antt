-- ===== src/V5/Encode/Session.antt =====
-- AUTH and DISCONNECT (src/v5/codec/packet/auth.rs, disconnect.rs).
use mathlib.Core.Option.{Option}
use ntex_mqtt.Base.{ℕ, ◌+◌, ◌%◌, ◌^◌, [], ◌∷◌, length}
use ntex_mqtt.Wire.{Writer, ◌then_write◌, put, write_variable_length}
use ntex_mqtt.V5.PropertyType
use ntex_mqtt.V5.Lengths.{u32_sub, var_int_len, var_int_len_from_size, reduce_limit}
use ntex_mqtt.V5.Packet.{UserProperties, ByteString, Disconnect, Auth}
use ntex_mqtt.V5.Property.Write.{
  u32_value, bytes_value, encoded_property_size, encode_property, encoded_size_opt_props,
  encode_opt_props,
}
use ntex_mqtt.V5.Reasons.Session.{auth_bits, disconnect_bits}

-- What a packet of a reason code and properties takes: `fixed` is the size of the properties that
-- are never left out, behind a header of `header_len` bytes.
abbrev pub limited_size : ℕ → ℕ → UserProperties → Option ByteString → ℕ → ℕ
limited_size header_len fixed user_properties reason_string limit =
    let diag_len =
      encoded_size_opt_props user_properties reason_string
        (reduce_limit limit (fixed + header_len + 4)) in
    header_len + var_int_len (fixed + diag_len) + (fixed + diag_len)

-- What is written before `encode_opt_props`, which gets what is left of `size`.
abbrev pub with_opt_props : Writer → UserProperties → Option ByteString → ℕ → Writer
with_opt_props fixed user_properties reason_string size =
    fixed
    then_write encode_opt_props user_properties reason_string
        (u32_sub size (length fixed.bytes % 2 ^ 32))

abbrev pub auth_fixed_size : Auth → ℕ
auth_fixed_size a =
    encoded_property_size bytes_value a.auth_method + encoded_property_size bytes_value a.auth_data

unfoldable pub auth_size : Auth → ℕ → ℕ
auth_size a limit = limited_size 1 (auth_fixed_size a) a.user_properties a.reason_string limit

abbrev pub auth_properties : Auth → Writer
auth_properties a =
    encode_property bytes_value a.auth_method PropertyType.auth_method
    then_write encode_property bytes_value a.auth_data PropertyType.auth_data

unfoldable pub encode_auth : Auth → ℕ → Writer
encode_auth a size =
    with_opt_props
      (put (auth_bits a.reason_code ∷ [])
        then_write write_variable_length (var_int_len_from_size (u32_sub size 1))
        then_write auth_properties a)
      a.user_properties a.reason_string size

abbrev pub disconnect_fixed_size : Disconnect → ℕ
disconnect_fixed_size d =
    encoded_property_size u32_value d.session_expiry_interval_secs
    + encoded_property_size bytes_value d.server_reference

unfoldable pub disconnect_size : Disconnect → ℕ → ℕ
disconnect_size d limit =
    limited_size 1 (disconnect_fixed_size d) d.user_properties d.reason_string limit

abbrev pub disconnect_properties : Disconnect → Writer
disconnect_properties d =
    encode_property u32_value d.session_expiry_interval_secs PropertyType.sess_expiry_int
    then_write encode_property bytes_value d.server_reference PropertyType.server_ref

unfoldable pub encode_disconnect : Disconnect → ℕ → Writer
encode_disconnect d size =
    with_opt_props
      (put (disconnect_bits d.reason_code ∷ [])
        then_write write_variable_length (var_int_len_from_size (u32_sub size 1))
        then_write disconnect_properties d)
      d.user_properties d.reason_string size
