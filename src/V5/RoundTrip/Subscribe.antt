-- ===== src/V5/RoundTrip/Subscribe.antt =====
-- SUBSCRIBE (src/v5/codec/packet/subscribe.rs).
pub mod Topics
use mathlib.Core.Path.{subst}
use mathlib.Core.Option.{Option, none, some}
use mathlib.Core.List.{append_assoc}
use ntex_mqtt.Base.{
  ℕ, ◌+◌, ◌≤◌, ◌<◌, ◌≡◌, refl, sym, ap, ◌∙◌, Bool, false, List, [], ◌∷◌, ◌++◌, length,
  length-append, ok, arith, ◌==◌, All,
}
use ntex_mqtt.Wire.{
  ◌then_write◌, put, encode_u16, encode_bytes, encoded_size_bytes, write_variable_length,
  decode_string,
}
use ntex_mqtt.Wire.Readers.{next_byte}
use ntex_mqtt.Wire.Fields.{decode_nonzero_u16-u16_bytes, read_string}
use ntex_mqtt.Wire.Varint.{cursor-write_variable_length}
use ntex_mqtt.Wire.Writers.{
  then_write-eq-ok, then_write-Writes, put-Writes, encode_bytes-Writes, then_write_assoc,
}
use ntex_mqtt.V5.PropertyType
use ntex_mqtt.V5.Lengths.{var_int_len}
use ntex_mqtt.V5.Packet.{ByteString, SubscriptionOptions, Subscribe, Unsubscribe}
use ntex_mqtt.V5.Property.{decode_subscription_id}
use ntex_mqtt.V5.Property.Fields.{IsText, IsNonZeroU16, IsNonZeroU32, IsUserProperty}
use ntex_mqtt.V5.Property.Write.{Encode, user_properties_size, encode_user_properties, encode_all}
use ntex_mqtt.V5.Property.Reads.{IsField, OptionalValid}
use ntex_mqtt.V5.Property.Written.{
  Written, then_write-Written, optional-Written, nothing-Written, user-Written,
}
use ntex_mqtt.V5.Reasons.Acks.{retain_handling_bits, retain_handling_codes}
use ntex_mqtt.V5.Decode.Subscribe.{
  no_subscribe_properties, decode_options, subscribe_handler, unsubscribe_handler, decode_filter,
  decode_subscribe, decode_unsubscribe,
}
use ntex_mqtt.V5.Decode.Safety.{subscribe_handler-Safe, unsubscribe_handler-Safe}
use ntex_mqtt.V5.Encode.Subscribe.{
  subscription_id_size, subscribe_properties_len, fold_filters, subscribe_size, options_byte,
  encode_subscription_id, encode_filter, encode_subscribe, fold_topics, unsubscribe_size,
  encode_unsubscribe,
}
use ntex_mqtt.V5.RoundTrip.Limited.{write_variable_length-Writes}
use ntex_mqtt.V5.RoundTrip.Counted.{counted, as_u32, counted-Writes, counted-CountedRead, read_end}
use ntex_mqtt.V5.RoundTrip.Lists.{IsItem, read_all-encode_all}

abbrev var_int_value : Encode ℕ
var_int_value = record { encoded_size = var_int_len; encode = write_variable_length }

write_variable_length-eq-ok : (n : ℕ) → (write_variable_length n).result ≡ ok tt → n ≤ 268_435_455
unfolding write_variable_length
write_variable_length-eq-ok n h = ground arith

-- A subscription identifier over the limit of the protocol is not encoded.
pub subscription_id_field : IsField var_int_value decode_subscription_id IsNonZeroU32
unfolding decode_subscription_id
subscription_id_field = record {
  exact = λ n h. write_variable_length-Writes n (write_variable_length-eq-ok n h) h;
  reads = λ n v h rest. read n rest v.0 (write_variable_length-eq-ok n h);
}
  where
    read :
        (n : ℕ) (rest : List ℕ)
        → 0 < n
        → n ≤ 268_435_455
        → decode_subscription_id ((write_variable_length n).bytes ++ rest) ≡ ok (n, rest)
    read n rest pos small =
        let (_, _, _, cursor) = cursor-write_variable_length n rest small in
        let nonzero : (n == 0) ≡ false = ground arith in
        rw (cursor, decode_subscription_id) (rw nonzero refl)

read_options :
    (o : SubscriptionOptions) (rest : List ℕ)
    → decode_options (options_byte o ∷ rest) ≡ ok (o, rest)
unfolding decode_options next_byte retain_handling_bits retain_handling_codes
read_options o rest = ground arith

filter_item :
    (utf8 : List ℕ → Bool) → IsItem encode_filter (decode_filter utf8) (λ f. IsText utf8 f.0)
unfolding decode_filter
filter_item utf8 = record {
  some_bytes = λ f h.
      let both = then_write-eq-ok (encode_bytes f.0) (put (options_byte f.1 ∷ [])) h in
      rw (both.joined, length-append) (omega arith);
  reads = λ f v h rest.
      let both = then_write-eq-ok (encode_bytes f.0) (put (options_byte f.1 ∷ [])) h in
      rw (both.joined, append_assoc)
        (rw (read_string utf8 f.0 (options_byte f.1 ∷ rest) both.first v)
          (rw (read_options f.1 rest) refl));
}

topic_item : (utf8 : List ℕ → Bool) → IsItem encode_bytes (decode_string utf8) (IsText utf8)
topic_item utf8 = record {
  some_bytes = λ s h. omega (arith, encode_bytes-Writes s h);
  reads = λ s v h rest. read_string utf8 s rest h v;
}

fold_filters-encode_all :
    (acc : ℕ) (fs : List (ByteString × SubscriptionOptions))
    → (encode_all encode_filter fs).result ≡ ok tt
    → length (encode_all encode_filter fs).bytes + acc ≡ fold_filters acc fs
unfolding fold_filters encode_all encoded_size_bytes
fold_filters-encode_all acc [] h = omega arith
fold_filters-encode_all acc ((filter, opts) ∷ fs) h =
    let both = then_write-eq-ok (encode_filter (filter, opts)) (encode_all encode_filter fs) h in
    let one =
      then_write-Writes (encode_bytes filter) (put (options_byte opts ∷ [])) _ 1
        (encode_bytes-Writes filter) (put-Writes (options_byte opts ∷ [])) both.first in
    let others = fold_filters-encode_all (acc + (2 + length filter) + 1) fs both.second in
    rw (both.joined) (rw (length-append) (omega (arith, one, others)))

fold_topics-encode_all :
    (acc : ℕ) (fs : List ByteString)
    → (encode_all encode_bytes fs).result ≡ ok tt
    → length (encode_all encode_bytes fs).bytes + acc ≡ fold_topics acc fs
unfolding fold_topics encode_all
fold_topics-encode_all acc [] h = omega arith
fold_topics-encode_all acc (filter ∷ fs) h =
    let both = then_write-eq-ok (encode_bytes filter) (encode_all encode_bytes fs) h in
    let one = encode_bytes-Writes filter both.first in
    let others = fold_topics-encode_all (acc + 2 + length filter) fs both.second in
    rw (both.joined) (rw (length-append) (omega (arith, one, others)))

module _ (utf8 : List ℕ → Bool) where
  abbrev pub IsValidSubscribe : Subscribe → Type 0
  IsValidSubscribe s =
      IsNonZeroU16 s.packet_id
      × OptionalValid IsNonZeroU32 s.id
      × All (IsUserProperty utf8) s.user_properties
      × All (λ f. IsText utf8 f.0) s.topic_filters

  abbrev pub IsValidUnsubscribe : Unsubscribe → Type 0
  IsValidUnsubscribe u =
      IsNonZeroU16 u.packet_id
      × All (IsUserProperty utf8) u.user_properties
      × All (IsText utf8) u.topic_filters

  subscription_id-Written :
      (o : Option ℕ)
      → OptionalValid IsNonZeroU32 o
      → Written
          (subscribe_handler utf8)
          (subscribe_handler-Safe utf8)
          no_subscribe_properties
          (encode_subscription_id o)
          (subscription_id_size o)
          (record no_subscribe_properties { sub_id = o })
  unfolding subscribe_handler
  subscription_id-Written none v = nothing-Written _ _ no_subscribe_properties
  subscription_id-Written (some id) v =
      optional-Written (subscribe_handler utf8) (subscribe_handler-Safe utf8) subscription_id_field
        PropertyType.sub_id (λ x. record no_subscribe_properties { sub_id = x }) (some id)
        (λ src. refl) v

  subscribe_properties-Written :
      (s : Subscribe)
      → IsValidSubscribe s
      → Written
          (subscribe_handler utf8)
          (subscribe_handler-Safe utf8)
          no_subscribe_properties
          (encode_subscription_id s.id then_write encode_user_properties s.user_properties)
          (subscribe_properties_len s)
          (record { sub_id = s.id; user_properties = s.user_properties })
  unfolding subscribe_handler
  subscribe_properties-Written s (_, id, users, _) =
      then_write-Written _ _ (subscription_id-Written s.id id) (
        user-Written (subscribe_handler utf8) (subscribe_handler-Safe utf8) utf8
          (λ ps. record { sub_id = s.id; user_properties = ps }) s.user_properties (λ ps src. refl)
          users)

  subscribe-counted :
      (s : Subscribe)
      → subscribe_properties_len s ≤ 268_435_455
      → encode_subscribe s
        ≡ encode_u16 s.packet_id
          then_write counted
              (subscribe_properties_len s)
              (encode_subscription_id s.id then_write encode_user_properties s.user_properties)
              (encode_all encode_filter s.topic_filters)
  unfolding encode_subscribe
  subscribe-counted s small =
      let id = encode_subscription_id s.id in
      let users = encode_user_properties s.user_properties in
      let filters = encode_all encode_filter s.topic_filters in
      ap
        (λ n.
          encode_u16 s.packet_id
          then_write write_variable_length n
          then_write id
          then_write users
          then_write filters)
        (as_u32 (subscribe_properties_len s) small)
      ∙ ap
          (λ w.
            encode_u16 s.packet_id
            then_write write_variable_length (subscribe_properties_len s)
            then_write w)
          (sym (then_write_assoc id users filters))

  -- The size of a SUBSCRIBE packet is that of what is written, and what is written is read back.
  pub subscribe_read :
      (s : Subscribe)
      → IsValidSubscribe s
      → subscribe_size s ≤ 268_435_455
      → (encode_subscribe s).result ≡ ok tt
      → (length (encode_subscribe s).bytes ≡ subscribe_size s)
        × (decode_subscribe utf8 (encode_subscribe s).bytes ≡ ok (s, []))
  unfolding subscribe_size decode_subscribe encode_u16
  subscribe_read s v small h =
      let len : ℕ = subscribe_properties_len s in
      let fits : len ≤ 268_435_455 = omega (arith, small) in
      let same = subscribe-counted s fits in
      let filters = encode_all encode_filter s.topic_filters in
      let props = encode_subscription_id s.id then_write encode_user_properties s.user_properties in
      let done : (counted len props filters).result ≡ ok tt =
        subst (λ w. w.result ≡ ok tt) same h in
      let written = subscribe_properties-Written s v in
      let handler = subscribe_handler utf8 in
      let safe = subscribe_handler-Safe utf8 in
      let r = counted-CountedRead handler safe filters written fits done in
      let size =
        counted-Writes handler safe filters (length filters.bytes) written fits (λ e. refl) done in
      let read = read_end r in
      (
        rw same (omega (arith, size, fold_filters-encode_all 0 s.topic_filters r.next_ok)),
        rw same (
            rw
              (decode_nonzero_u16-u16_bytes s.packet_id (counted len props filters).bytes v.0.0
                v.0.1)
              (rw read
                (rw (read_all-encode_all (filter_item utf8) s.topic_filters r.next_ok v.3) refl))),
      )
