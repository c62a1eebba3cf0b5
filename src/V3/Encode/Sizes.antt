-- ===== src/V3/Encode/Sizes.antt =====
-- `get_encoded_size` against what `encode` writes (src/v3/codec/encode.rs).
use mathlib.Core.Option.{Option, none, some}
use ntex_mqtt.Base.{
  ℕ, suc, ◌+◌, ◌≡◌, refl, ap, ◌∙◌, List, [], ◌∷◌, map, length, length-append, ok, arith,
  if◌then◌else◌,
}
use ntex_mqtt.Wire.{Writer, ◌then_write◌, put, u16_bytes, encode_u16, encode_bytes}
use ntex_mqtt.Wire.Writers.{
  then_write-eq-ok, Writes, then_write-Writes, encode_bytes-Writes, encode_u16-Writes, put-Writes,
}
use ntex_mqtt.Types.{QoS, qos_bits, is_at_most_once, mqtt, mqtt_level_3}
use ntex_mqtt.Types.Flags.{bool_bit}
use ntex_mqtt.V3.Packet.{
  Packet, Connect, Publish, LastWill, packet_type, reason_bits, SubscribeReturnCode,
}
use ntex_mqtt.V3.Encode.{
  get_encoded_publish_size, fold_filters, fold_topics, get_encoded_size, get_encoded_connect_size,
  get_encoded_subscribe_size, get_encoded_unsubscribe_size, optional_size, last_will_size,
  encode_optional, encode_last_will, connect_flags, encode_connect_fields, encode_connect,
  encode_publish_id, encode_filters, encode_topics, status_byte, publish_first_byte,
}

encode_optional-Writes : (o : Option (List ℕ)) → Writes (encode_optional o) (optional_size o)
encode_optional-Writes none h = refl
encode_optional-Writes (some s) h = encode_bytes-Writes s h

encode_last_will-Writes : (w : Option LastWill) → Writes (encode_last_will w) (last_will_size w)
encode_last_will-Writes none h = refl
encode_last_will-Writes (some w) h =
    then_write-Writes (encode_bytes w.topic) (encode_bytes w.message) (2 + length w.topic)
      (2 + length w.message) (encode_bytes-Writes w.topic) (encode_bytes-Writes w.message) h
    ∙ omega arith

encode_connect_fields-Writes :
    (c : Connect)
    → Writes (encode_connect_fields c) (
        2
        + length c.client_id
        + last_will_size c.last_will
        + optional_size c.username
        + optional_size c.password)
unfolding encode_connect_fields
encode_connect_fields-Writes c h =
    then_write-Writes (encode_bytes c.client_id) _ (2 + length c.client_id) _
      (encode_bytes-Writes c.client_id)
      (then_write-Writes (encode_last_will c.last_will) _ (last_will_size c.last_will) _
        (encode_last_will-Writes c.last_will)
        (then_write-Writes (encode_optional c.username) (encode_optional c.password)
          (optional_size c.username) (optional_size c.password) (encode_optional-Writes c.username)
          (encode_optional-Writes c.password)))
      h
    ∙ omega arith

encode_connect-Writes : (c : Connect) → Writes (encode_connect c) (get_encoded_connect_size c)
unfolding encode_connect get_encoded_connect_size
encode_connect-Writes c h =
    let fields : ℕ =
      2
      + length c.client_id
      + last_will_size c.last_will
      + optional_size c.username
      + optional_size c.password in
    then_write-Writes (encode_bytes mqtt)
      (put (mqtt_level_3 ∷ connect_flags c ∷ u16_bytes c.keep_alive)
        then_write encode_connect_fields c)
      6 (4 + fields) (encode_bytes-Writes mqtt)
      (λ k. omega (arith, encode_connect_fields-Writes c k)) h
    ∙ omega arith

encode_filters-Writes :
    (acc : ℕ) (fs : List (List ℕ × QoS))
    → (encode_filters fs).result ≡ ok tt
    → acc + length (encode_filters fs).bytes ≡ fold_filters acc fs
unfolding encode_filters fold_filters
encode_filters-Writes acc [] h = omega arith
encode_filters-Writes acc ((f, q) ∷ fs) h =
    let both =
      then_write-eq-ok (encode_bytes f) (put (qos_bits q ∷ []) then_write encode_filters fs) h in
    omega (
      arith,
      ap (λ (l : List ℕ). length l) both.joined,
      length-append (encode_bytes f).bytes (qos_bits q ∷ (encode_filters fs).bytes),
      encode_bytes-Writes f both.first,
      encode_filters-Writes (acc + 2 + length f + 1) fs both.second,
    )

encode_topics-Writes :
    (acc : ℕ) (fs : List (List ℕ))
    → (encode_topics fs).result ≡ ok tt
    → acc + length (encode_topics fs).bytes ≡ fold_topics acc fs
unfolding encode_topics fold_topics
encode_topics-Writes acc [] h = omega arith
encode_topics-Writes acc (f ∷ fs) h =
    let both = then_write-eq-ok (encode_bytes f) (encode_topics fs) h in
    omega (
      arith,
      ap (λ (l : List ℕ). length l) both.joined,
      length-append (encode_bytes f).bytes (encode_topics fs).bytes,
      encode_bytes-Writes f both.first,
      encode_topics-Writes (acc + 2 + length f) fs both.second,
    )

abbrev publish_id_size : QoS → ℕ
publish_id_size q = if is_at_most_once q then 0 else 2

encode_publish_id-Writes :
    (q : QoS) (id : Option ℕ) → Writes (encode_publish_id q id) (publish_id_size q)
encode_publish_id-Writes QoS.at_most_once none h = refl
encode_publish_id-Writes QoS.at_most_once (some id) h = cc
encode_publish_id-Writes QoS.at_least_once none h = cc
encode_publish_id-Writes QoS.at_least_once (some id) h = encode_u16-Writes id h
encode_publish_id-Writes QoS.exactly_once none h = cc
encode_publish_id-Writes QoS.exactly_once (some id) h = encode_u16-Writes id h

-- The first byte of a packet, and what `encode` writes behind the fixed header.
abbrev pub first_byte : Packet → ℕ
first_byte (Packet.publish p) = publish_first_byte p
first_byte p = packet_type p

unfoldable pub content : Packet → Writer
content (Packet.connect c) = encode_connect c
content (Packet.connect_ack a) = put (bool_bit a.session_present ∷ reason_bits a.return_code ∷ [])
content (Packet.publish p) =
    encode_bytes p.topic then_write encode_publish_id p.qos p.packet_id then_write put p.payload
content (Packet.publish_ack id) = encode_u16 id
content (Packet.publish_received id) = encode_u16 id
content (Packet.publish_release id) = encode_u16 id
content (Packet.publish_complete id) = encode_u16 id
content (Packet.subscribe id fs) = encode_u16 id then_write encode_filters fs
content (Packet.subscribe_ack id st) = encode_u16 id then_write put (map status_byte st)
content (Packet.unsubscribe id fs) = encode_u16 id then_write encode_topics fs
content (Packet.unsubscribe_ack id) = encode_u16 id
content p = put []

length-map : (st : List SubscribeReturnCode) → length (map status_byte st) ≡ length st
length-map [] = refl
length-map (s ∷ st) = ap suc (length-map st)

publish-Writes : (p : Publish) → Writes (content (Packet.publish p)) (get_encoded_publish_size p)
unfolding content get_encoded_publish_size
publish-Writes p h =
    then_write-Writes (encode_bytes p.topic)
      (encode_publish_id p.qos p.packet_id then_write put p.payload) (2 + length p.topic)
      (publish_id_size p.qos + length p.payload) (encode_bytes-Writes p.topic)
      (then_write-Writes (encode_publish_id p.qos p.packet_id) (put p.payload)
        (publish_id_size p.qos) (length p.payload) (encode_publish_id-Writes p.qos p.packet_id)
        (put-Writes p.payload))
      h
    ∙ ground arith

subscribe-Writes :
    (id : ℕ) (fs : List (List ℕ × QoS))
    → Writes (content (Packet.subscribe id fs)) (get_encoded_subscribe_size fs)
unfolding content get_encoded_subscribe_size
subscribe-Writes id fs =
    then_write-Writes (encode_u16 id) (encode_filters fs) 2 (fold_filters 0 fs)
      (encode_u16-Writes id) (λ h. omega (arith, encode_filters-Writes 0 fs h))

unsubscribe-Writes :
    (id : ℕ) (fs : List (List ℕ))
    → Writes (content (Packet.unsubscribe id fs)) (get_encoded_unsubscribe_size fs)
unfolding content get_encoded_unsubscribe_size
unsubscribe-Writes id fs =
    then_write-Writes (encode_u16 id) (encode_topics fs) 2 (fold_topics 0 fs) (encode_u16-Writes id)
      (λ h. omega (arith, encode_topics-Writes 0 fs h))

pub content-Writes : (p : Packet) → Writes (content p) (get_encoded_size p)
unfolding content get_encoded_size
content-Writes (Packet.connect c) = encode_connect-Writes c
content-Writes (Packet.connect_ack a) = λ h. refl
content-Writes (Packet.publish p) = publish-Writes p
content-Writes (Packet.publish_ack id) = encode_u16-Writes id
content-Writes (Packet.publish_received id) = encode_u16-Writes id
content-Writes (Packet.publish_release id) = encode_u16-Writes id
content-Writes (Packet.publish_complete id) = encode_u16-Writes id
content-Writes (Packet.subscribe id fs) = subscribe-Writes id fs
content-Writes (Packet.subscribe_ack id st) =
    then_write-Writes (encode_u16 id) (put (map status_byte st)) 2 (length st)
      (encode_u16-Writes id) (λ h. length-map st)
content-Writes (Packet.unsubscribe id fs) = unsubscribe-Writes id fs
content-Writes (Packet.unsubscribe_ack id) = encode_u16-Writes id
content-Writes Packet.ping_request = λ h. refl
content-Writes Packet.ping_response = λ h. refl
content-Writes Packet.disconnect = λ h. refl
