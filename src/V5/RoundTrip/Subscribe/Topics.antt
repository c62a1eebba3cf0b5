-- ===== src/V5/RoundTrip/Subscribe/Topics.antt =====
-- UNSUBSCRIBE (src/v5/codec/packet/subscribe.rs).
use mathlib.Core.Path.{subst}
use ntex_mqtt.Base.{ℕ, ◌≤◌, ◌≡◌, refl, ap, Bool, List, [], length, ok, arith}
use ntex_mqtt.Wire.{◌then_write◌, encode_u16, encode_bytes}
use ntex_mqtt.Wire.Fields.{decode_nonzero_u16-u16_bytes}
use ntex_mqtt.Wire.Writers.{}
use ntex_mqtt.V5.Packet.{Unsubscribe}
use ntex_mqtt.V5.Property.Write.{user_properties_size, encode_user_properties, encode_all}
use ntex_mqtt.V5.Property.Written.{Written, user-Written}
use ntex_mqtt.V5.Decode.Subscribe.{unsubscribe_handler, decode_unsubscribe}
use ntex_mqtt.V5.Decode.Safety.{unsubscribe_handler-Safe}
use ntex_mqtt.V5.Encode.Subscribe.{unsubscribe_size, encode_unsubscribe}
use ntex_mqtt.V5.RoundTrip.Counted.{counted, as_u32, counted-Writes, counted-CountedRead, read_end}
use ntex_mqtt.V5.RoundTrip.Lists.{read_all-encode_all}
use ntex_mqtt.V5.RoundTrip.Subscribe.{IsValidUnsubscribe, fold_topics-encode_all, topic_item}

module _ (utf8 : List ℕ → Bool) where
  unsubscribe_properties-Written :
      (u : Unsubscribe)
      → IsValidUnsubscribe utf8 u
      → Written
          (unsubscribe_handler utf8)
          (unsubscribe_handler-Safe utf8)
          []
          (encode_user_properties u.user_properties)
          (user_properties_size u.user_properties)
          u.user_properties
  unfolding unsubscribe_handler
  unsubscribe_properties-Written u (_, users, _) =
      user-Written (unsubscribe_handler utf8) (unsubscribe_handler-Safe utf8) utf8 (λ ps. ps)
        u.user_properties (λ ps src. refl) users

  unsubscribe-counted :
      (u : Unsubscribe)
      → user_properties_size u.user_properties ≤ 268_435_455
      → encode_unsubscribe u
        ≡ encode_u16 u.packet_id
          then_write counted
              (user_properties_size u.user_properties)
              (encode_user_properties u.user_properties)
              (encode_all encode_bytes u.topic_filters)
  unfolding encode_unsubscribe
  unsubscribe-counted u small =
      ap
        (λ n.
          encode_u16 u.packet_id
          then_write counted n (encode_user_properties u.user_properties)
              (encode_all encode_bytes u.topic_filters))
        (as_u32 (user_properties_size u.user_properties) small)

  -- The same of an UNSUBSCRIBE packet.
  pub unsubscribe_read :
      (u : Unsubscribe)
      → IsValidUnsubscribe utf8 u
      → unsubscribe_size u ≤ 268_435_455
      → (encode_unsubscribe u).result ≡ ok tt
      → (length (encode_unsubscribe u).bytes ≡ unsubscribe_size u)
        × (decode_unsubscribe utf8 (encode_unsubscribe u).bytes ≡ ok (u, []))
  unfolding unsubscribe_size decode_unsubscribe encode_u16
  unsubscribe_read u v small h =
      let len : ℕ = user_properties_size u.user_properties in
      let fits : len ≤ 268_435_455 = omega (arith, small) in
      let topics = encode_all encode_bytes u.topic_filters in
      let users = encode_user_properties u.user_properties in
      let same = unsubscribe-counted u fits in
      let done : (counted len users topics).result ≡ ok tt = subst (λ w. w.result ≡ ok tt) same h in
      let written = unsubscribe_properties-Written u v in
      let handler = unsubscribe_handler utf8 in
      let safe = unsubscribe_handler-Safe utf8 in
      let r = counted-CountedRead handler safe topics written fits done in
      let size =
        counted-Writes handler safe topics (length topics.bytes) written fits (λ e. refl) done in
      let read = read_end r in
      (
        rw same (omega (arith, size, fold_topics-encode_all 0 u.topic_filters r.next_ok)),
        rw same (
            rw
              (decode_nonzero_u16-u16_bytes u.packet_id (counted len users topics).bytes v.0.0
                v.0.1)
              (rw read
                (rw (read_all-encode_all (topic_item utf8) u.topic_filters r.next_ok v.2) refl))),
      )
