-- ===== src/V5/RoundTrip/Acks.antt =====
-- The properties of acknowledgements, and what a limit keeps of them (the module `ack_props` of
-- src/v5/codec/packet/mod.rs).
pub mod Whole
use mathlib.Core.Path.{subst}
use mathlib.Core.Option.{Option, none, some}
use mathlib.Core.List.{append_assoc, append-nil}
use ntex_mqtt.Base.{
  ℕ, zero, suc, ◌+◌, ◌-◌, ◌%◌, ◌^◌, ◌≤◌, ◌<◌, ◌≡◌, refl, sym, ap, ◌∙◌, Bool, true, false, List, [],
  ◌∷◌, ◌++◌, map, length, length-append, ok, arith, ltb, ◌==◌, if◌then◌else◌,
}
use ntex_mqtt.Wire.{
  Reader, Writer, continue, ◌>>=◌, pure, ◌then_write◌, put, encode_u16, write_variable_length,
}
use ntex_mqtt.Wire.Readers.{if_more, if_more-eq, to_the_end, to_the_end-eq-ok}
use ntex_mqtt.Wire.Writers.{
  then_write-eq-ok, Writes, then_write-Writes, put-Writes, encode_u16-Writes,
}
use ntex_mqtt.Wire.Fields.{decode_nonzero_u16-u16_bytes}
use ntex_mqtt.V5.Lengths.{leading_zeros, u32_sub, var_int_len, var_int_len_from_size, reduce_limit}
use ntex_mqtt.V5.Lengths.Laws.{var_int_len-varint_size, var_int_len_from_size-var_int_len}
use ntex_mqtt.V5.PropertyType
use ntex_mqtt.V5.Packet.{UserProperties, ByteString, Ack, StatusAck}
use ntex_mqtt.V5.Property.{read_properties}
use ntex_mqtt.V5.Property.Write.{
  user_properties_size, encode_user_properties, encode_opt_props, encoded_size_opt_props,
}
use ntex_mqtt.V5.Property.Fit.{
  Kept, fit, nothing_kept, kept_size, kept_writer, encoded_size_opt_props-fit, encode_opt_props-fit,
}
use ntex_mqtt.V5.Property.Fields.{IsNonZeroU16}
use ntex_mqtt.V5.Property.Blocks.{
  IsDiagnostic, fit-IsDiagnostic, kept_writer-Writes, kept_writer-Encodes, read_properties-Encodes,
}
use ntex_mqtt.V5.Reasons.{try_from}
use ntex_mqtt.V5.Decode.Acks.{
  AckProperties, no_ack_properties, ack_handler, decode_ack_props, decode_publish_ack, decode_codes,
  decode_status_ack,
}
use ntex_mqtt.V5.Decode.Safety.{ack_handler-Safe}
use ntex_mqtt.V5.Encode.Acks.{
  ack_props_size, encode_ack_props, publish_ack_size, encode_publish_ack, subscribe_ack_size,
  unsubscribe_ack_size, encode_status_ack,
}
use ntex_mqtt.V5.RoundTrip.Limited.{write_variable_length-Writes, var_int_len-pos}

-- What `ack_props` keeps at a limit.
unfoldable pub ack_fit : UserProperties → Option ByteString → ℕ → Kept
ack_fit ups reason limit = if ltb limit 4 then nothing_kept else fit ups reason (limit - 4)

-- What `ack_props::encode` writes for what is kept.
abbrev ack_block : Kept → Writer
ack_block k = write_variable_length (kept_size k) then_write kept_writer k

no_size : (k : Kept) → kept_size k ≡ 0 → kept_writer k ≡ put []
unfolding kept_size kept_writer user_properties_size encode_user_properties
no_size k e = by_parts k.user_properties k.reason_string e
  where
    by_parts :
        (ups : UserProperties) (reason : Option ByteString)
        → kept_size (record { user_properties = ups; reason_string = reason }) ≡ 0
        → kept_writer (record { user_properties = ups; reason_string = reason }) ≡ put []
    by_parts [] none e = refl
    by_parts [] (some r) e = absurd (omega (arith, e))
    by_parts (up ∷ ups) reason e = absurd (omega (arith, e))

module _ (ups : UserProperties) (reason : Option ByteString) where
  none_kept : encode_ack_props ups reason 1 ≡ ack_block nothing_kept
  unfolding encode_ack_props kept_size kept_writer write_variable_length user_properties_size
      encode_user_properties
  none_kept = refl

  some_kept :
      (limit : ℕ)
      → let k = fit ups reason limit in
        kept_size k ≤ 268_435_455
        → encode_ack_props ups reason (var_int_len (kept_size k) + kept_size k) ≡ ack_block k
  unfolding encode_ack_props
  some_kept limit small = by_test (var_int_len (kept_size k) + kept_size k == 1) refl
    where
      k : Kept
      k = fit ups reason limit

      by_test :
          (b : Bool)
          → (var_int_len (kept_size k) + kept_size k == 1) ≡ b
          → encode_ack_props ups reason (var_int_len (kept_size k) + kept_size k) ≡ ack_block k
      by_test true e =
          let zero_size : kept_size k ≡ 0 = ground (arith, var_int_len-pos (kept_size k) small) in
          rw (e, no_size k zero_size, zero_size) (unfold write_variable_length in refl)
      by_test false e =
          rw (e, var_int_len_from_size-var_int_len (kept_size k) small)
            (rw (encode_opt_props-fit ups reason limit) refl)

  ack_props_size-fit :
      (limit : ℕ)
      → let k = ack_fit ups reason limit in
        ack_props_size ups reason limit ≡ var_int_len (kept_size k) + kept_size k
  unfolding ack_props_size ack_fit
  ack_props_size-fit limit = by_test (ltb limit 4)
    where
      by_test :
          (b : Bool)
          → let k = if b then nothing_kept else fit ups reason (limit - 4) in
            (if b
              then 1
              else var_int_len (encoded_size_opt_props ups reason (limit - 4))
                + encoded_size_opt_props ups reason (limit - 4))
            ≡ var_int_len (kept_size k) + kept_size k
      by_test true = unfold kept_size user_properties_size var_int_len leading_zeros in refl
      by_test false = rw (encoded_size_opt_props-fit ups reason (limit - 4)) refl

  encode_ack_props-fit :
      (limit : ℕ)
      → ack_props_size ups reason limit ≤ 268_435_455
      → encode_ack_props ups reason (ack_props_size ups reason limit)
        ≡ ack_block (ack_fit ups reason limit)
  encode_ack_props-fit limit small =
      let e = ack_props_size-fit limit in
      let fits : kept_size (ack_fit ups reason limit) ≤ 268_435_455 = omega (arith, e, small) in
      rw e (unfold ack_fit in by_test (ltb limit 4) fits)
    where
      by_test :
          (b : Bool)
          → let k = if b then nothing_kept else fit ups reason (limit - 4) in
            kept_size k ≤ 268_435_455
            → encode_ack_props ups reason (var_int_len (kept_size k) + kept_size k) ≡ ack_block k
      by_test true small =
          unfold kept_size user_properties_size var_int_len leading_zeros in none_kept
      by_test false small = some_kept (limit - 4) small

ack_block-Writes :
    (k : Kept)
    → kept_size k ≤ 268_435_455
    → Writes (ack_block k) (var_int_len (kept_size k) + kept_size k)
ack_block-Writes k small =
    then_write-Writes (write_variable_length (kept_size k)) (kept_writer k) _ _
      (write_variable_length-Writes (kept_size k) small) (kept_writer-Writes k)

ack_fit-IsDiagnostic :
    (utf8 : List ℕ → Bool) (ups : UserProperties) (reason : Option ByteString) (limit : ℕ)
    → IsDiagnostic utf8 ups reason
    → let k = ack_fit ups reason limit in IsDiagnostic utf8 k.user_properties k.reason_string
unfolding ack_fit
ack_fit-IsDiagnostic utf8 ups reason limit v = by_test (ltb limit 4)
  where
    by_test :
        (b : Bool)
        → let k = if b then nothing_kept else fit ups reason (limit - 4) in
          IsDiagnostic utf8 k.user_properties k.reason_string
    by_test true = (tt, tt)
    by_test false = fit-IsDiagnostic utf8 ups reason (limit - 4) v

abbrev kept_props : Kept → AckProperties
kept_props k = record { user_props = k.user_properties; reason_string = k.reason_string }

read_ack_block :
    (utf8 : List ℕ → Bool) (k : Kept) (rest : List ℕ)
    → kept_size k ≤ 268_435_455
    → IsDiagnostic utf8 k.user_properties k.reason_string
    → (ack_block k).result ≡ ok tt
    → decode_ack_props utf8 ((ack_block k).bytes ++ rest) ≡ ok (kept_props k, rest)
unfolding decode_ack_props ack_handler
read_ack_block utf8 k rest small v h =
    let both = then_write-eq-ok (write_variable_length (kept_size k)) (kept_writer k) h in
    let handler = ack_handler utf8 in
    let safe = ack_handler-Safe utf8 in
    rw (both.joined, append_assoc)
      (read_properties-Encodes handler safe (kept_size k) (kept_writer k) no_ack_properties
        (kept_props k) rest small both.second (kept_writer-Writes k both.second)
        (kept_writer-Encodes handler safe utf8
          (λ ps r. record { user_props = ps; reason_string = r }) (λ ps src. refl) (λ ps src. refl)
          k v))

-- What `ack_props::encode` writes has the size that `ack_props::encoded_size` says, and
-- `ack_props::decode` reads back of it what the limit keeps.
pub record AckRead (utf8 : List ℕ → Bool) (k : Kept) (bytes : List ℕ) (size : ℕ) : Type 0 where
  pub written : length bytes ≡ size
  pub positive : 0 < size
  pub read : (rest : List ℕ) → decode_ack_props utf8 (bytes ++ rest) ≡ ok (kept_props k, rest)

pub encode_ack_props-AckRead :
    (utf8 : List ℕ → Bool) (ups : UserProperties) (reason : Option ByteString) (limit : ℕ)
    → let size = ack_props_size ups reason limit in
      IsDiagnostic utf8 ups reason
      → size ≤ 268_435_455
      → (encode_ack_props ups reason size).result ≡ ok tt
      → AckRead utf8 (ack_fit ups reason limit) (encode_ack_props ups reason size).bytes size
encode_ack_props-AckRead utf8 ups reason limit v small h =
    let k = ack_fit ups reason limit in
    let same = encode_ack_props-fit ups reason limit small in
    let e = ack_props_size-fit ups reason limit in
    let done : (ack_block k).result ≡ ok tt = subst (λ w. w.result ≡ ok tt) same h in
    let fits : kept_size k ≤ 268_435_455 = omega (arith, e, small) in
    let size = ack_block-Writes k fits done in
    record {
      written = rw same (omega (arith, size, e));
      positive = omega (arith, e, var_int_len-pos (kept_size k) fits);
      read = λ rest.
          rw same
            (read_ack_block utf8 k rest fits (ack_fit-IsDiagnostic utf8 ups reason limit v) done);
    }
