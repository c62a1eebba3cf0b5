-- ===== src/V5/RoundTrip/Connect.antt =====
-- The properties of CONNECT (src/v5/codec/packet/connect.rs).
pub mod Fields
pub mod Whole
use mathlib.Core.Path.{subst}
use mathlib.Core.Option.{Option, none, some}
use mathlib.Core.List.{append_assoc, append-nil}
use ntex_mqtt.Base.{
  ℕ, suc, ◌+◌, ◌*◌, ◌/◌, ◌%◌, ◌^◌, ◌≤◌, ◌<◌, ◌≡◌, refl, sym, ap, ◌∙◌, Bool, true, false, not, ◌||◌,
  List, [], ◌∷◌, ◌++◌, length, length-append, ok, arith, ◌==◌, leb, bit_or, bit_and, is_some,
  is_empty, All,
}
use ntex_mqtt.Wire.{
  DecodeError, Reader, Writer, continue, ◌>>=◌, ◌then_write◌, put, u16_bytes, encode_u16,
  encode_bytes, encoded_size_bytes, write_variable_length, decode_bytes, decode_string,
}
use ntex_mqtt.Wire.Readers.{when_set}
use ntex_mqtt.Wire.Fields.{ensured, four_bytes, decode_u16-u16_bytes, read_bytes, read_string}
use ntex_mqtt.Wire.Writers.{
  then_write-eq-ok, Writes, then_write-Writes, put-Writes, encode_bytes-Writes, encode_u16-Writes,
}
use ntex_mqtt.Types.{
  QoS, qos_bits, qos_from, mqtt_level_5, contains, username_flag, password_flag, will_retain_flag,
  will_qos_flag, will_flag, clean_start_flag, connect_reserved_bits,
}
use ntex_mqtt.Types.Flags.{flags_of, Reads, no_will-Reads, will-Reads, will_values}
use ntex_mqtt.V5.PropertyType
use ntex_mqtt.V5.Lengths.{var_int_len}
use ntex_mqtt.V5.Packet.{Connect, LastWill}
use ntex_mqtt.V5.Property.{unwrap_or, read_properties}
use ntex_mqtt.V5.Property.Fields.{
  IsText, IsU16, IsU32, IsNonZeroU16, IsNonZeroU32, IsUserProperty, bool_field, IsU16-field,
  nonzero_u16_field, bytes_field, string_field, IsU32-field, nonzero_u32_field,
}
use ntex_mqtt.V5.Property.Blocks.{read_properties-Encodes}
use ntex_mqtt.V5.Property.Write.{bool_eq}
use ntex_mqtt.V5.Property.Safety.Properties.{SafeHandler}
use ntex_mqtt.V5.Property.Reads.{OptionalValid, unless_default, bool_eq-default, ==-default}
use ntex_mqtt.V5.Property.Written.{
  always_valid, Written, then_write-Written, optional-Written, default-Written, user-Written,
  resize,
}
use ntex_mqtt.V5.Decode.Connect.{
  ConnectProperties, no_connect_properties, WillProperties, no_will_properties, connect_handler,
  will_handler, decode_last_will, decode_connect_fields, decode_connect,
}
use ntex_mqtt.V5.Decode.Safety.{connect_handler-Safe, will_handler-Safe}
use ntex_mqtt.V5.Encode.Connect.{
  will_properties_len, connect_properties_len, will_size, optional_size, connect_size,
  last_will_flags, connect_flags, connect_properties, will_properties, encode_last_will,
  encode_optional, encode_connect_fields, encode_connect,
}
use ntex_mqtt.V5.RoundTrip.Counted.{
  counted, as_u32, counted-Writes, CountedRead, counted-CountedRead,
}

abbrev pub read_connect : Connect → ConnectProperties
read_connect c = record {
  session_expiry_interval_secs = unless_default ◌==◌ c.session_expiry_interval_secs 0;
  auth_method = c.auth_method;
  auth_data = c.auth_data;
  request_problem_info = unless_default bool_eq c.request_problem_info true;
  request_response_info = unless_default bool_eq c.request_response_info false;
  receive_max = c.receive_max;
  topic_alias_max = unless_default ◌==◌ c.topic_alias_max 0;
  user_properties = c.user_properties;
  max_packet_size = c.max_packet_size;
}

abbrev read_will : LastWill → WillProperties
read_will w = record {
  will_delay_interval_sec = w.will_delay_interval_sec;
  correlation_data = w.correlation_data;
  message_expiry_interval = w.message_expiry_interval;
  content_type = w.content_type;
  is_utf8_payload = w.is_utf8_payload;
  response_topic = w.response_topic;
  user_properties = w.user_properties;
}

module _ (utf8 : List ℕ → Bool) where
  abbrev pub IsValidWill : LastWill → Type 0
  IsValidWill w =
      IsText utf8 w.topic
      × OptionalValid IsU32 w.will_delay_interval_sec
      × OptionalValid IsNonZeroU32 w.message_expiry_interval
      × OptionalValid (IsText utf8) w.content_type
      × OptionalValid (IsText utf8) w.response_topic
      × All (IsUserProperty utf8) w.user_properties

  -- The properties are those of the Rust types; the packet names a client or asks for a clean start.
  abbrev pub IsValidConnect : Connect → Type 0
  IsValidConnect c =
      IsU16 c.keep_alive
      × IsU32 c.session_expiry_interval_secs
      × OptionalValid (IsText utf8) c.auth_method
      × OptionalValid IsNonZeroU16 c.receive_max
      × IsU16 c.topic_alias_max
      × All (IsUserProperty utf8) c.user_properties
      × OptionalValid IsNonZeroU32 c.max_packet_size
      × OptionalValid IsValidWill c.last_will
      × IsText utf8 c.client_id
      × OptionalValid (IsText utf8) c.username
      × ((not (is_empty c.client_id) || c.clean_start) ≡ true)

  pub connect_properties-Written :
      (c : Connect)
      → IsValidConnect c
      → Written
          (connect_handler utf8)
          (connect_handler-Safe utf8)
          no_connect_properties
          (connect_properties c)
          (connect_properties_len c)
          (read_connect c)
  unfolding connect_handler
  connect_properties-Written c (_, expiry, method, max, alias, users, size, _, _, _, _) =
      let h = connect_handler utf8 in
      let safe = connect_handler-Safe utf8 in
      let v = read_connect c in
      let s0 = no_connect_properties in
      let s1 : ConnectProperties = record s0 {
        session_expiry_interval_secs = v.session_expiry_interval_secs;
      } in
      let s2 : ConnectProperties = record s1 { auth_method = v.auth_method } in
      let s3 : ConnectProperties = record s2 { auth_data = v.auth_data } in
      let s4 : ConnectProperties = record s3 { request_problem_info = v.request_problem_info } in
      let s5 : ConnectProperties = record s4 { request_response_info = v.request_response_info } in
      let s6 : ConnectProperties = record s5 { receive_max = v.receive_max } in
      let s7 : ConnectProperties = record s6 { max_packet_size = v.max_packet_size } in
      let s8 : ConnectProperties = record s7 { topic_alias_max = v.topic_alias_max } in
      resize h safe
        (then_write-Written h safe
          (default-Written h safe IsU32-field PropertyType.sess_expiry_int
            (λ x. record s0 { session_expiry_interval_secs = x }) ◌==◌
            c.session_expiry_interval_secs 0 (λ src. refl) expiry)
          (then_write-Written h safe
            (optional-Written h safe (string_field utf8) PropertyType.auth_method
              (λ x. record s1 { auth_method = x }) c.auth_method (λ src. refl) method)
            (then_write-Written h safe
              (optional-Written h safe bytes_field PropertyType.auth_data
                (λ x. record s2 { auth_data = x }) c.auth_data (λ src. refl)
                (always_valid c.auth_data))
              (then_write-Written h safe
                (default-Written h safe bool_field PropertyType.req_prob_info
                  (λ x. record s3 { request_problem_info = x }) bool_eq c.request_problem_info true
                  (λ src. refl) tt)
                (then_write-Written h safe
                  (default-Written h safe bool_field PropertyType.req_resp_info
                    (λ x. record s4 { request_response_info = x }) bool_eq c.request_response_info
                    false (λ src. refl) tt)
                  (then_write-Written h safe
                    (optional-Written h safe nonzero_u16_field PropertyType.receive_max
                      (λ x. record s5 { receive_max = x }) c.receive_max (λ src. refl) max)
                    (then_write-Written h safe
                      (optional-Written h safe nonzero_u32_field PropertyType.max_packet_size
                        (λ x. record s6 { max_packet_size = x }) c.max_packet_size (λ src. refl)
                        size)
                      (then_write-Written h safe
                        (default-Written h safe IsU16-field PropertyType.topic_alias_max
                          (λ x. record s7 { topic_alias_max = x }) ◌==◌ c.topic_alias_max 0
                          (λ src. refl) alias)
                        (user-Written h safe utf8 (λ x. record s8 { user_properties = x })
                          c.user_properties (λ ps src. refl) users)))))))))
        (omega arith)

  pub will_properties-Written :
      (w : LastWill)
      → IsValidWill w
      → Written
          (will_handler utf8)
          (will_handler-Safe utf8)
          no_will_properties
          (will_properties w)
          (will_properties_len w)
          (read_will w)
  unfolding will_handler
  will_properties-Written w (_, delay, expiry, content, topic, users) =
      let h = will_handler utf8 in
      let safe = will_handler-Safe utf8 in
      let s0 = no_will_properties in
      let s1 : WillProperties = record s0 { will_delay_interval_sec = w.will_delay_interval_sec } in
      let s2 : WillProperties = record s1 { is_utf8_payload = w.is_utf8_payload } in
      let s3 : WillProperties = record s2 { message_expiry_interval = w.message_expiry_interval } in
      let s4 : WillProperties = record s3 { content_type = w.content_type } in
      let s5 : WillProperties = record s4 { response_topic = w.response_topic } in
      let s6 : WillProperties = record s5 { correlation_data = w.correlation_data } in
      resize h safe
        (then_write-Written h safe
          (optional-Written h safe IsU32-field PropertyType.will_delay_int
            (λ x. record s0 { will_delay_interval_sec = x }) w.will_delay_interval_sec (λ src. refl)
            delay)
          (then_write-Written h safe
            (optional-Written h safe bool_field PropertyType.utf8_payload
              (λ x. record s1 { is_utf8_payload = x }) w.is_utf8_payload (λ src. refl)
              (always_valid w.is_utf8_payload))
            (then_write-Written h safe
              (optional-Written h safe nonzero_u32_field PropertyType.msg_expiry_int
                (λ x. record s2 { message_expiry_interval = x }) w.message_expiry_interval
                (λ src. refl) expiry)
              (then_write-Written h safe
                (optional-Written h safe (string_field utf8) PropertyType.content_type
                  (λ x. record s3 { content_type = x }) w.content_type (λ src. refl) content)
                (then_write-Written h safe
                  (optional-Written h safe (string_field utf8) PropertyType.resp_topic
                    (λ x. record s4 { response_topic = x }) w.response_topic (λ src. refl) topic)
                  (then_write-Written h safe
                    (optional-Written h safe bytes_field PropertyType.corr_data
                      (λ x. record s5 { correlation_data = x }) w.correlation_data (λ src. refl)
                      (always_valid w.correlation_data))
                    (user-Written h safe utf8 (λ x. record s6 { user_properties = x })
                      w.user_properties (λ ps src. refl) users)))))))
        (omega arith)
