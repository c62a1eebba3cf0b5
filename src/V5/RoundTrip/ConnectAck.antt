-- ===== src/V5/RoundTrip/ConnectAck.antt =====
-- The properties of CONNACK (src/v5/codec/packet/connack.rs).
pub mod Whole
use mathlib.Core.Option.{Option, none, some}
use ntex_mqtt.Base.{
  ℕ, ◌≤◌, suc, leb, ◌≡◌, refl, Bool, true, false, List, [], ◌∷◌, length, ok, arith, ◌==◌,
  if◌then◌else◌, ltb, bit_and,
}
use ntex_mqtt.Wire.{put}
use ntex_mqtt.Wire.Readers.{next_byte, to_the_end-eq-ok}
use ntex_mqtt.Types.{
  QoS, qos_bits, contains, session_present_flag, connect_ack_reserved_bits, at_most_once,
  at_least_once, exactly_once,
}
use ntex_mqtt.Types.Flags.{bool_bit}
use ntex_mqtt.V5.PropertyType
use ntex_mqtt.V5.Packet.{ConnectAck, receive_max_default}
use ntex_mqtt.V5.Property.{set_value, unwrap_or, read_properties}
use ntex_mqtt.V5.Property.Fields.{
  Anything, IsText, IsU16, IsU32, IsNonZeroU16, bool_field, IsU16-field, nonzero_u16_field,
  bytes_field, string_field, IsU32-field,
}
use ntex_mqtt.V5.Property.Blocks.{IsDiagnostic}
use ntex_mqtt.V5.Property.Write.{Encode, bool_eq, encoded_property_size_default, u16_value}
use ntex_mqtt.V5.Property.Reads.{
  IsField, OptionalValid, unless_default, bool_eq-default, ==-default,
}
use ntex_mqtt.V5.Property.Written.{
  always_valid, Written, then_write-Written, optional-Written, default-Written, nothing-Written,
  resize,
}
use ntex_mqtt.V5.Reasons.Codes.{try_from-connect_ack_bits}
use ntex_mqtt.V5.Reasons.Session.{connect_ack_bits}
use ntex_mqtt.V5.Decode.ConnectAck.{
  ConnectAckProperties, no_connect_ack_properties, decode_qos, connect_ack_handler,
  decode_connect_ack,
}
use ntex_mqtt.V5.Decode.Safety.{connect_ack_handler-Safe}
use ntex_mqtt.V5.Encode.ConnectAck.{
  below_exactly_once, connect_ack_fixed_size, connect_ack_size, connect_ack_properties,
  encode_connect_ack,
}
use ntex_mqtt.V5.RoundTrip.Limited.{limited_fit, ReadBack, limited-ReadBack}

unfoldable pub kept_connect_ack : ConnectAck → ℕ → ConnectAck
kept_connect_ack a limit =
    let k = limited_fit 2 (connect_ack_fixed_size a) a.user_properties a.reason_string limit in
    record a { user_properties = k.user_properties; reason_string = k.reason_string }

abbrev unless_exactly_once : QoS → Option QoS
unless_exactly_once qos = if below_exactly_once qos then some qos else none

-- The values that the decoder has read at the end: defaults are not written.
abbrev read_values : ConnectAck → ConnectAckProperties
read_values a = record {
  session_expiry_interval_secs = a.session_expiry_interval_secs;
  receive_max = unless_default ◌==◌ a.receive_max receive_max_default;
  max_qos = unless_exactly_once a.max_qos;
  retain_available = unless_default bool_eq a.retain_available true;
  max_packet_size = a.max_packet_size;
  assigned_client_id = a.assigned_client_id;
  topic_alias_max = unless_default ◌==◌ a.topic_alias_max 0;
  reason_string = a.reason_string;
  user_properties = a.user_properties;
  wildcard_sub_avail = unless_default bool_eq a.wildcard_subscription_available true;
  sub_ids_avail = unless_default bool_eq a.subscription_identifiers_available true;
  shared_sub_avail = unless_default bool_eq a.shared_subscription_available true;
  server_ka_sec = a.server_keepalive_sec;
  response_info = a.response_info;
  server_reference = a.server_reference;
  auth_method = a.auth_method;
  auth_data = a.auth_data;
}

abbrev qos_value : Encode QoS
qos_value = record { encoded_size = λ q. 1; encode = λ q. put (qos_bits q ∷ []) }

qos_field : IsField qos_value decode_qos Anything
unfolding decode_qos next_byte
qos_field = record { exact = λ q h. refl; reads = λ q v h rest. read q rest }
  where
    read : (q : QoS) (rest : List ℕ) → decode_qos (qos_bits q ∷ rest) ≡ ok (q, rest)
    read at_most_once rest = ground arith
    read at_least_once rest = ground arith
    read exactly_once rest = ground arith

topic_alias_size :
    (v : ℕ) → encoded_property_size_default ◌==◌ u16_value v 0 ≡ (if ltb 0 v then 3 else 0)
topic_alias_size v = ground arith

session_flag :
    (b : Bool)
    → ((bit_and (bool_bit b) connect_ack_reserved_bits == 0) ≡ true)
      × (contains (bool_bit b) session_present_flag ≡ b)
session_flag true = (refl, refl)
session_flag false = (refl, refl)

max_qos-default : (qos : QoS) → unwrap_or (unless_exactly_once qos) exactly_once ≡ qos
max_qos-default at_most_once = refl
max_qos-default at_least_once = refl
max_qos-default exactly_once = refl

module _ (utf8 : List ℕ → Bool) where
  abbrev pub IsValidConnectAck : ConnectAck → Type 0
  IsValidConnectAck a =
      OptionalValid IsU32 a.session_expiry_interval_secs
      × IsNonZeroU16 a.receive_max
      × OptionalValid IsU32 a.max_packet_size
      × OptionalValid (IsText utf8) a.assigned_client_id
      × IsU16 a.topic_alias_max
      × OptionalValid IsU16 a.server_keepalive_sec
      × OptionalValid (IsText utf8) a.response_info
      × OptionalValid (IsText utf8) a.server_reference
      × OptionalValid (IsText utf8) a.auth_method
      × IsDiagnostic utf8 a.user_properties a.reason_string

  max_qos-Written :
      (set : Option QoS → ConnectAckProperties) (qos : QoS)
      → ((src : List ℕ)
          → connect_ack_handler utf8 PropertyType.max_qos (set none) src
            ≡ set_value none decode_qos set src)
      → Written
          (connect_ack_handler utf8)
          (connect_ack_handler-Safe utf8)
          (set none)
          (if below_exactly_once qos
            then put (PropertyType.max_qos ∷ qos_bits qos ∷ [])
            else put [])
          (if below_exactly_once qos then 2 else 0)
          (set (unless_exactly_once qos))
  max_qos-Written set at_most_once step =
      optional-Written _ _ qos_field PropertyType.max_qos set (some at_most_once) step tt
  max_qos-Written set at_least_once step =
      optional-Written _ _ qos_field PropertyType.max_qos set (some at_least_once) step tt
  max_qos-Written set exactly_once step = nothing-Written _ _ (set none)

  connect_ack_properties-Written :
      (a : ConnectAck)
      → IsValidConnectAck a
      → Written
          (connect_ack_handler utf8)
          (connect_ack_handler-Safe utf8)
          no_connect_ack_properties
          (connect_ack_properties a)
          (connect_ack_fixed_size a)
          (record (read_values a) { reason_string = none; user_properties = [] })
  unfolding connect_ack_handler
  connect_ack_properties-Written a
        (expiry, max, size, client, alias, alive, info, reference, method, diag) =
      let h = connect_ack_handler utf8 in
      let safe = connect_ack_handler-Safe utf8 in
      let s0 = no_connect_ack_properties in
      let v = read_values a in
      let s1 : ConnectAckProperties = record s0 {
        session_expiry_interval_secs = v.session_expiry_interval_secs;
      } in
      let s2 : ConnectAckProperties = record s1 { receive_max = v.receive_max } in
      let s3 : ConnectAckProperties = record s2 { max_qos = v.max_qos } in
      let s4 : ConnectAckProperties = record s3 { retain_available = v.retain_available } in
      let s5 : ConnectAckProperties = record s4 { max_packet_size = v.max_packet_size } in
      let s6 : ConnectAckProperties = record s5 { assigned_client_id = v.assigned_client_id } in
      let s7 : ConnectAckProperties = record s6 { topic_alias_max = v.topic_alias_max } in
      let s8 : ConnectAckProperties = record s7 { wildcard_sub_avail = v.wildcard_sub_avail } in
      let s9 : ConnectAckProperties = record s8 { sub_ids_avail = v.sub_ids_avail } in
      let s10 : ConnectAckProperties = record s9 { shared_sub_avail = v.shared_sub_avail } in
      let s11 : ConnectAckProperties = record s10 { server_ka_sec = v.server_ka_sec } in
      let s12 : ConnectAckProperties = record s11 { response_info = v.response_info } in
      let s13 : ConnectAckProperties = record s12 { server_reference = v.server_reference } in
      let s14 : ConnectAckProperties = record s13 { auth_method = v.auth_method } in
      resize h safe
        (then_write-Written h safe
          (optional-Written h safe IsU32-field PropertyType.sess_expiry_int
            (λ x. record s0 { session_expiry_interval_secs = x }) a.session_expiry_interval_secs
            (λ src. refl) expiry)
          (then_write-Written h safe
            (default-Written h safe nonzero_u16_field PropertyType.receive_max
              (λ x. record s1 { receive_max = x }) ◌==◌ a.receive_max receive_max_default
              (λ src. refl) max)
            (then_write-Written h safe
              (max_qos-Written (λ x. record s2 { max_qos = x }) a.max_qos (λ src. refl))
              (then_write-Written h safe
                (default-Written h safe bool_field PropertyType.retain_avail
                  (λ x. record s3 { retain_available = x }) bool_eq a.retain_available true
                  (λ src. refl) tt)
                (then_write-Written h safe
                  (optional-Written h safe IsU32-field PropertyType.max_packet_size
                    (λ x. record s4 { max_packet_size = x }) a.max_packet_size (λ src. refl) size)
                  (then_write-Written h safe
                    (optional-Written h safe (string_field utf8) PropertyType.assnd_client_id
                      (λ x. record s5 { assigned_client_id = x }) a.assigned_client_id (λ src. refl)
                      client)
                    (then_write-Written h safe
                      (default-Written h safe IsU16-field PropertyType.topic_alias_max
                        (λ x. record s6 { topic_alias_max = x }) ◌==◌ a.topic_alias_max 0
                        (λ src. refl) alias)
                      (then_write-Written h safe
                        (default-Written h safe bool_field PropertyType.wildcard_sub_avail
                          (λ x. record s7 { wildcard_sub_avail = x }) bool_eq
                          a.wildcard_subscription_available true (λ src. refl) tt)
                        (then_write-Written h safe
                          (default-Written h safe bool_field PropertyType.sub_ids_avail
                            (λ x. record s8 { sub_ids_avail = x }) bool_eq
                            a.subscription_identifiers_available true (λ src. refl) tt)
                          (then_write-Written h safe
                            (default-Written h safe bool_field PropertyType.shared_sub_avail
                              (λ x. record s9 { shared_sub_avail = x }) bool_eq
                              a.shared_subscription_available true (λ src. refl) tt)
                            (then_write-Written h safe
                              (optional-Written h safe IsU16-field PropertyType.server_ka
                                (λ x. record s10 { server_ka_sec = x }) a.server_keepalive_sec
                                (λ src. refl) alive)
                              (then_write-Written h safe
                                (optional-Written h safe (string_field utf8) PropertyType.resp_info
                                  (λ x. record s11 { response_info = x }) a.response_info
                                  (λ src. refl) info)
                                (then_write-Written h safe
                                  (optional-Written h safe (string_field utf8)
                                    PropertyType.server_ref
                                    (λ x. record s12 { server_reference = x }) a.server_reference
                                    (λ src. refl) reference)
                                  (then_write-Written h safe
                                    (optional-Written h safe (string_field utf8)
                                      PropertyType.auth_method (λ x. record s13 { auth_method = x })
                                      a.auth_method (λ src. refl) method)
                                    (optional-Written h safe bytes_field PropertyType.auth_data
                                      (λ x. record s14 { auth_data = x }) a.auth_data (λ src. refl)
                                      (always_valid a.auth_data))))))))))))))))
        (omega (arith, topic_alias_size a.topic_alias_max))
