-- ===== src/V5/Encode/Acks.antt =====
-- Acknowledgements (the module `ack_props` of src/v5/codec/packet/mod.rs, pubacks.rs, and the
-- acknowledgements of subscribe.rs).
use mathlib.Core.Option.{Option}
use ntex_mqtt.Base.{ℕ, ◌+◌, ◌-◌, ◌%◌, ◌^◌, [], ◌∷◌, map, ltb, ◌==◌, if◌then◌else◌, length}
use ntex_mqtt.Wire.{Writer, ◌then_write◌, put, encode_u16, write_variable_length}
use ntex_mqtt.V5.Lengths.{u32_sub, var_int_len, var_int_len_from_size, reduce_limit}
use ntex_mqtt.V5.Packet.{UserProperties, ByteString, Ack, StatusAck}
use ntex_mqtt.V5.Property.Write.{encoded_size_opt_props, encode_opt_props}

-- `ack_props::encoded_size` and `ack_props::encode`.
unfoldable pub ack_props_size : UserProperties → Option ByteString → ℕ → ℕ
ack_props_size properties reason_string limit =
    let len = encoded_size_opt_props properties reason_string (limit - 4) in
    if ltb limit 4 then 1 else var_int_len len + len

unfoldable pub encode_ack_props : UserProperties → Option ByteString → ℕ → Writer
encode_ack_props properties reason_string size =
    let size' = var_int_len_from_size size in
    if size == 1
    then put (0 ∷ [])
    else (write_variable_length size' then_write encode_opt_props properties reason_string size')

-- `PublishAck` and `PublishAck2`: a header of three bytes, the packet id and the reason code.
unfoldable pub publish_ack_size : {R : Type 0} → Ack R → ℕ → ℕ
publish_ack_size a limit =
    3 + ack_props_size a.properties a.reason_string (u32_sub (u32_sub limit 3) 4)

unfoldable pub encode_publish_ack : {R : Type 0} → (R → ℕ) → Ack R → ℕ → Writer
encode_publish_ack bits a size =
    encode_u16 a.packet_id
    then_write put (bits a.reason_code ∷ [])
    then_write encode_ack_props a.properties a.reason_string (u32_sub size 3)

-- `SubscribeAck::encoded_size`; the bound on the number of codes is `u32::MAX - 2`, the answer there
-- `usize::MAX`.
unfoldable pub subscribe_ack_size : {R : Type 0} → StatusAck R → ℕ → ℕ
subscribe_ack_size a limit =
    let len = length a.status in
    if ltb 0xffff_fffd len
    then 0xffff_ffff_ffff_ffff
    else 2
      + ack_props_size a.properties a.reason_string (u32_sub (u32_sub limit 2) (len % 2 ^ 32))
      + len

-- `UnsubscribeAck::encoded_size`.
unfoldable pub unsubscribe_ack_size : {R : Type 0} → StatusAck R → ℕ → ℕ
unsubscribe_ack_size a limit =
    let len = length a.status in
    2 + len + ack_props_size a.properties a.reason_string (reduce_limit limit (2 + len))

-- `encode` of both.
unfoldable pub encode_status_ack : {R : Type 0} → (R → ℕ) → StatusAck R → ℕ → Writer
encode_status_ack bits a size =
    let len = length a.status % 2 ^ 32 in
    encode_u16 a.packet_id
    then_write encode_ack_props a.properties a.reason_string (u32_sub (u32_sub size 2) len)
    then_write put (map bits a.status)
