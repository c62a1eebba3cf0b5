-- ===== src/V5/RoundTrip/Publish.antt =====
-- The properties of PUBLISH (src/v5/codec/packet/publish.rs).
pub mod Whole
use mathlib.Core.Path.{subst}
use mathlib.Core.Option.{Option, none, some}
use mathlib.Core.List.{append_assoc, append-nil}
use ntex_mqtt.Base.{
  ℕ, ◌+◌, ◌/◌, ◌%◌, ◌^◌, ◌≤◌, ◌≡◌, refl, ap, ◌∙◌, Bool, false, not, List, [], ◌∷◌, ◌++◌, length,
  length-append, ok, arith, ◌==◌, All, bit_and, if◌then◌else◌,
}
use ntex_mqtt.Wire.{
  Writer, ◌then_write◌, put, encode_u16, encode_bytes, encoded_size_bytes, write_variable_length,
  decode_nonzero_u16, decode_string,
}
use ntex_mqtt.Wire.Readers.{when_set}
use ntex_mqtt.Wire.Fields.{decode_nonzero_u16-u16_bytes, read_string}
use ntex_mqtt.Wire.Writers.{
  then_write-eq-ok, Writes, then_write-Writes, put-Writes, encode_bytes-Writes, encode_u16-Writes,
  then_write_assoc,
}
use ntex_mqtt.Types.{QoS, qos_from, is_at_most_once}
use ntex_mqtt.Types.Flags.{publish_bits}
use ntex_mqtt.V5.PropertyType
use ntex_mqtt.V5.Lengths.{u32_sub, var_int_len, var_int_len_from_size}
use ntex_mqtt.V5.Lengths.Laws.{var_int_len_from_size-var_int_len}
use ntex_mqtt.V5.Packet.{Publish, PublishProperties}
use ntex_mqtt.V5.Property.{read_properties}
use ntex_mqtt.V5.Property.Fields.{
  IsText, IsNonZeroU16, IsNonZeroU32, IsUserProperty, bool_field, nonzero_u16_field, bytes_field,
  string_field, nonzero_u32_field,
}
use ntex_mqtt.V5.Property.Write.{bool_eq}
use ntex_mqtt.V5.Property.Reads.{OptionalValid, unless_default, bool_eq-default, property-Encodes}
use ntex_mqtt.V5.Property.Written.{
  always_valid, Written, then_write-Written, optional-Written, default-Written, user-Written,
  nothing-Written, resize,
}
use ntex_mqtt.V5.Decode.Publish.{
  ReadPublishProperties, no_publish_properties, publish_handler, parse_publish_properties,
  decode_publish,
}
use ntex_mqtt.V5.Decode.Safety.{publish_handler-Safe}
use ntex_mqtt.V5.Encode.Publish.{
  subscription_ids_size, publish_properties_len, publish_size, encode_subscription_ids,
  publish_properties, encode_publish_properties, encode_publish_id, encode_publish,
}
use ntex_mqtt.V5.Encode.{publish_first_byte}
use ntex_mqtt.V5.RoundTrip.Counted.{counted, counted-Writes, counted-CountedRead, read_end}
use ntex_mqtt.V5.RoundTrip.Subscribe.{subscription_id_field}

abbrev read_publish : PublishProperties → ReadPublishProperties
read_publish p = record {
  topic_alias = p.topic_alias;
  correlation_data = p.correlation_data;
  message_expiry_interval = p.message_expiry_interval;
  content_type = p.content_type;
  user_props = p.user_properties;
  is_utf8_payload = unless_default bool_eq p.is_utf8_payload false;
  response_topic = p.response_topic;
  subscription_ids = p.subscription_ids;
}

abbrev before_ids : PublishProperties → List ℕ → ReadPublishProperties
before_ids p ids = record (read_publish p) { subscription_ids = ids; user_props = [] }

module _ (utf8 : List ℕ → Bool) where
  abbrev pub IsValidPublish : Publish → Type 0
  IsValidPublish p =
      IsText utf8 p.topic
      × OptionalValid IsNonZeroU16 p.packet_id
      × OptionalValid IsNonZeroU16 p.properties.topic_alias
      × OptionalValid IsNonZeroU32 p.properties.message_expiry_interval
      × OptionalValid (IsText utf8) p.properties.content_type
      × OptionalValid (IsText utf8) p.properties.response_topic
      × All IsNonZeroU32 p.properties.subscription_ids
      × All (IsUserProperty utf8) p.properties.user_properties

  subscription_ids-Written :
      (p : PublishProperties) (before ids : List ℕ)
      → All IsNonZeroU32 ids
      → Written
          (publish_handler utf8)
          (publish_handler-Safe utf8)
          (before_ids p before)
          (encode_subscription_ids ids)
          (subscription_ids_size ids)
          (before_ids p (before ++ ids))
  unfolding publish_handler encode_subscription_ids subscription_ids_size
  subscription_ids-Written p before [] v = rw append-nil (nothing-Written _ _ (before_ids p before))
  subscription_ids-Written p before (id ∷ ids) (v, vs) =
      let h = publish_handler utf8 in
      let safe = publish_handler-Safe utf8 in
      let one : Written h safe (before_ids p before)
          (put (PropertyType.sub_id ∷ []) then_write write_variable_length id) (1 + var_int_len id)
          (before_ids p (before ++ (id ∷ []))) =
        record {
          exact =
              then_write-Writes (put (PropertyType.sub_id ∷ [])) (write_variable_length id) 1
                (var_int_len id) (put-Writes (PropertyType.sub_id ∷ []))
                (subscription_id_field.exact id);
          reads =
              property-Encodes h safe PropertyType.sub_id (before_ids p before)
                (before_ids p (before ++ (id ∷ []))) (write_variable_length id)
                λ e rest. rw (subscription_id_field.reads id v e rest) refl;
        } in
      let others = subscription_ids-Written p (before ++ (id ∷ [])) ids vs in
      subst
        (λ all.
          Written h safe (before_ids p before) (encode_subscription_ids (id ∷ ids))
            (subscription_ids_size (id ∷ ids)) (before_ids p all))
        (append_assoc before (id ∷ []) ids)
        (subst
          (λ w.
            Written h safe (before_ids p before) w (subscription_ids_size (id ∷ ids))
              (before_ids p ((before ++ (id ∷ [])) ++ ids)))
          (then_write_assoc (put (PropertyType.sub_id ∷ [])) (write_variable_length id)
            (encode_subscription_ids ids))
          (then_write-Written h safe one others))

  publish_properties-Written :
      (p : Publish)
      → IsValidPublish p
      → Written
          (publish_handler utf8)
          (publish_handler-Safe utf8)
          no_publish_properties
          (publish_properties p.properties)
          (publish_properties_len p.properties)
          (read_publish p.properties)
  unfolding publish_handler
  publish_properties-Written p (_, _, alias, expiry, content, topic, ids, users) =
      let h = publish_handler utf8 in
      let safe = publish_handler-Safe utf8 in
      let v = p.properties in
      let s0 = no_publish_properties in
      let s1 : ReadPublishProperties = record s0 { topic_alias = v.topic_alias } in
      let s2 : ReadPublishProperties = record s1 { correlation_data = v.correlation_data } in
      let s3 : ReadPublishProperties = record s2 {
        message_expiry_interval = v.message_expiry_interval;
      } in
      let s4 : ReadPublishProperties = record s3 { content_type = v.content_type } in
      let s5 : ReadPublishProperties = record s4 {
        is_utf8_payload = (read_publish v).is_utf8_payload;
      } in
      resize h safe
        (then_write-Written h safe
          (optional-Written h safe nonzero_u16_field PropertyType.topic_alias
            (λ x. record s0 { topic_alias = x }) v.topic_alias (λ src. refl) alias)
          (then_write-Written h safe
            (optional-Written h safe bytes_field PropertyType.corr_data
              (λ x. record s1 { correlation_data = x }) v.correlation_data (λ src. refl)
              (always_valid v.correlation_data))
            (then_write-Written h safe
              (optional-Written h safe nonzero_u32_field PropertyType.msg_expiry_int
                (λ x. record s2 { message_expiry_interval = x }) v.message_expiry_interval
                (λ src. refl) expiry)
              (then_write-Written h safe
                (optional-Written h safe (string_field utf8) PropertyType.content_type
                  (λ x. record s3 { content_type = x }) v.content_type (λ src. refl) content)
                (then_write-Written h safe
                  (default-Written h safe bool_field PropertyType.utf8_payload
                    (λ x. record s4 { is_utf8_payload = x }) bool_eq v.is_utf8_payload false
                    (λ src. refl) tt)
                  (then_write-Written h safe
                    (optional-Written h safe (string_field utf8) PropertyType.resp_topic
                      (λ x. record s5 { response_topic = x }) v.response_topic (λ src. refl) topic)
                    (then_write-Written h safe
                      (subscription_ids-Written v [] v.subscription_ids ids)
                      (user-Written h safe utf8 (λ ps. record (read_publish v) { user_props = ps })
                        v.user_properties (λ ps src. refl) users))))))))
        (omega arith)
