-- ===== src/V5/RoundTrip/Limited.antt =====
-- Packets with properties that are left out where they are over the limit: CONNACK, DISCONNECT and
-- AUTH.
use mathlib.Core.Path.{subst}
use mathlib.Core.Option.{Option, none}
use mathlib.Core.List.{append-nil}
use ntex_mqtt.Base.{
  ℕ, ◌+◌, ◌%◌, ◌^◌, ◌≤◌, ◌<◌, ◌≡◌, refl, sym, ap, ◌∙◌, Bool, List, [], ◌++◌, length, length-append,
  ok, arith,
}
use ntex_mqtt.Wire.{Reader, Writer, ◌then_write◌, put, write_variable_length, decode_string}
use ntex_mqtt.Wire.Varint.{cursor-write_variable_length}
use ntex_mqtt.Wire.Writers.{
  then_write-eq-ok, Writes, then_write-Writes, then_write_assoc, put-Writes,
}
use ntex_mqtt.V5.Lengths.{u32_sub, var_int_len, var_int_len_from_size, reduce_limit}
use ntex_mqtt.V5.Lengths.Laws.{var_int_len-varint_size, var_int_len_from_size-var_int_len}
use ntex_mqtt.V5.PropertyType
use ntex_mqtt.V5.Packet.{UserProperties, ByteString}
use ntex_mqtt.V5.Property.{set_value, push_property, read_properties}
use ntex_mqtt.V5.Property.Safety.Properties.{SafeHandler}
use ntex_mqtt.V5.Property.Reads.{Encodes, then_write-Encodes}
use ntex_mqtt.V5.Property.Write.{encode_opt_props}
use ntex_mqtt.V5.Property.Fit.{
  Kept, fit, kept_size, kept_writer, encoded_size_opt_props-fit, encode_opt_props-fit,
}
use ntex_mqtt.V5.Property.Blocks.{
  IsDiagnostic, fit-IsDiagnostic, kept_writer-Writes, kept_writer-Encodes, read_properties-Encodes,
}
use ntex_mqtt.V5.Property.Written.{Written}
use ntex_mqtt.V5.Encode.Session.{limited_size, with_opt_props}

-- What is kept where `fixed` bytes of other properties stand behind a header of `header_len`.
abbrev pub limited_fit : ℕ → ℕ → UserProperties → Option ByteString → ℕ → Kept
limited_fit header_len fixed ups reason limit =
    fit ups reason (reduce_limit limit (fixed + header_len + 4))

pub write_variable_length-Writes :
    (n : ℕ) → n ≤ 268_435_455 → Writes (write_variable_length n) (var_int_len n)
write_variable_length-Writes n small h =
    let (_, len, _, _) = cursor-write_variable_length n [] small in
    len ∙ sym (var_int_len-varint_size n small)

-- A block of properties: its length, the properties that are always there, and what is kept.
abbrev pub block : Writer → ℕ → Kept → Writer
block props fixed k =
    write_variable_length (fixed + kept_size k) then_write (props then_write kept_writer k)

-- The writer with the lengths that `size` stands for.
abbrev limited : List ℕ → Writer → UserProperties → Option ByteString → ℕ → Writer
limited head props ups reason size =
    with_opt_props
      (put head
        then_write write_variable_length (var_int_len_from_size (u32_sub size (length head)))
        then_write props)
      ups reason size

limited_size-fit :
    (header_len fixed : ℕ) (ups : UserProperties) (reason : Option ByteString) (limit : ℕ)
    → let k = limited_fit header_len fixed ups reason limit in
      limited_size header_len fixed ups reason limit
      ≡ header_len + var_int_len (fixed + kept_size k) + (fixed + kept_size k)
limited_size-fit header_len fixed ups reason limit =
    rw (encoded_size_opt_props-fit ups reason (reduce_limit limit (fixed + header_len + 4))) refl

abbrev start : List ℕ → Writer → ℕ → Writer
start head props n = put head then_write write_variable_length n then_write props

start-Writes :
    (head : List ℕ) (props : Writer) (n fixed : ℕ)
    → Writes props fixed
    → n ≤ 268_435_455
    → Writes (start head props n) (length head + (var_int_len n + fixed))
start-Writes head props n fixed exact small =
    then_write-Writes (put head) (write_variable_length n then_write props) (length head) _
      (put-Writes head)
      (then_write-Writes (write_variable_length n) props (var_int_len n) fixed
        (write_variable_length-Writes n small) exact)

behind_start :
    (head : List ℕ) (props : Writer) (fixed : ℕ) (ups : UserProperties) (reason : Option ByteString)
    (limit n : ℕ)
    → let k = fit ups reason limit in
      let len = fixed + kept_size k in
      Writes props fixed
      → n ≡ length head + var_int_len len + len
      → n ≤ 268_435_455
      → (start head props len
          then_write encode_opt_props ups reason
              (u32_sub n (length (start head props len).bytes % 2 ^ 32))).result
        ≡ ok tt
      → start head props len
          then_write encode_opt_props ups reason
              (u32_sub n (length (start head props len).bytes % 2 ^ 32))
        ≡ put head then_write block props fixed k
behind_start head props fixed ups reason limit n exact e small h =
    let k = fit ups reason limit in
    let len : ℕ = fixed + kept_size k in
    let both = then_write-eq-ok (start head props len) _ h in
    let written = start-Writes head props len fixed exact (omega (arith, e, small)) both.first in
    let left : u32_sub n (length (start head props len).bytes % 2 ^ 32) ≡ kept_size k =
      omega (arith, written, e, small) in
    rw (left, encode_opt_props-fit ups reason limit)
      (then_write_assoc (put head) (write_variable_length len then_write props) (kept_writer k)
        ∙ ap (λ w. put head then_write w)
            (then_write_assoc (write_variable_length len) props (kept_writer k)))

limited-block :
    (head : List ℕ) (props : Writer) (fixed : ℕ) (ups : UserProperties) (reason : Option ByteString)
    (limit n : ℕ)
    → let k = fit ups reason limit in
      let len = fixed + kept_size k in
      Writes props fixed
      → n ≡ length head + var_int_len len + len
      → n ≤ 268_435_455
      → (limited head props ups reason n).result ≡ ok tt
      → limited head props ups reason n ≡ put head then_write block props fixed k
limited-block head props fixed ups reason limit n exact e small h =
    let k = fit ups reason limit in
    let len : ℕ = fixed + kept_size k in
    let behind : u32_sub n (length head) ≡ var_int_len len + len = omega (arith, e, small) in
    let found : var_int_len_from_size (u32_sub n (length head)) ≡ len =
      ap var_int_len_from_size behind
      ∙ var_int_len_from_size-var_int_len len (omega (arith, e, small)) in
    let W : ℕ → Writer = λ m.
      start head props m
      then_write encode_opt_props ups reason
          (u32_sub n (length (start head props m).bytes % 2 ^ 32)) in
    ap W found
    ∙ behind_start head props fixed ups reason limit n exact e small
        (subst (λ m. (W m).result ≡ ok tt) found h)

-- What is written behind the header, and that it is read back.
pub record ReadBack {S : Type 0} (handler : ℕ → S → Reader S) (init final : S) (head bytes : List ℕ)
    (n : ℕ) : Type 0 where
  pub properties : List ℕ
  pub layout : bytes ≡ head ++ properties
  pub size : length bytes ≡ n
  pub some_bytes : 0 < length properties
  pub read : read_properties handler init properties ≡ ok (final, [])

block-Writes :
    (props : Writer) (fixed : ℕ) (k : Kept)
    → Writes props fixed
    → fixed + kept_size k ≤ 268_435_455
    → Writes (block props fixed k) (var_int_len (fixed + kept_size k) + (fixed + kept_size k))
block-Writes props fixed k exact small =
    then_write-Writes (write_variable_length (fixed + kept_size k)) (props then_write kept_writer k)
      _ _ (write_variable_length-Writes (fixed + kept_size k) small)
      (then_write-Writes props (kept_writer k) fixed (kept_size k) exact (kept_writer-Writes k))

pub var_int_len-pos : (n : ℕ) → n ≤ 268_435_455 → 0 < var_int_len n
var_int_len-pos n small = rw (var_int_len-varint_size n small) (ground arith)

module _ {S : Type 0} (handler : ℕ → S → Reader S) (safe : SafeHandler handler) where
  block_read :
      (props : Writer) (fixed : ℕ) (k : Kept) (init final : S)
      → Writes props fixed
      → fixed + kept_size k ≤ 268_435_455
      → (block props fixed k).result ≡ ok tt
      → Encodes handler safe init (props then_write kept_writer k) final
      → read_properties handler init (block props fixed k).bytes ≡ ok (final, [])
  block_read props fixed k init final exact small h reads =
      let len : ℕ = fixed + kept_size k in
      let w = props then_write kept_writer k in
      let both = then_write-eq-ok (write_variable_length len) w h in
      let size =
        then_write-Writes props (kept_writer k) fixed (kept_size k) exact (kept_writer-Writes k)
          both.second in
      rw both.joined (
        rw append-nil at
          (read_properties-Encodes handler safe len w init final [] small both.second size reads))

  pub limited-ReadBack :
      (utf8 : List ℕ → Bool) (head : List ℕ) (props : Writer) (fixed : ℕ) (ups : UserProperties)
      (reason : Option ByteString) (limit : ℕ) (init : S)
      (set : UserProperties → Option ByteString → S)
      → let n = limited_size (length head) fixed ups reason limit in
        let k = limited_fit (length head) fixed ups reason limit in
        ((ps : UserProperties) (src : List ℕ)
          → handler PropertyType.user (set ps none) src
            ≡ push_property utf8 ps (λ ps'. set ps' none) src)
        → ((ps : UserProperties) (src : List ℕ)
            → handler PropertyType.reason_string (set ps none) src
              ≡ set_value none (decode_string utf8) (set ps) src)
        → Written handler safe init props fixed (set [] none)
        → IsDiagnostic utf8 ups reason
        → n ≤ 268_435_455
        → (limited head props ups reason n).result ≡ ok tt
        → ReadBack handler init
            (set k.user_properties k.reason_string)
            head
            (limited head props ups reason n).bytes
            n
  limited-ReadBack utf8 head props fixed ups reason limit init set user diag written valid small h =
      let n = limited_size (length head) fixed ups reason limit in
      let m = reduce_limit limit (fixed + length head + 4) in
      let k = fit ups reason m in
      let e = limited_size-fit (length head) fixed ups reason limit in
      let exact = written.exact in
      let same = limited-block head props fixed ups reason m n exact e small h in
      let done : (block props fixed k).result ≡ ok tt = subst (λ w. w.result ≡ ok tt) same h in
      let fits : fixed + kept_size k ≤ 268_435_455 = omega (arith, e, small) in
      let size = block-Writes props fixed k exact fits done in
      let kept =
        kept_writer-Encodes handler safe utf8 set user diag k
          (fit-IsDiagnostic utf8 ups reason m valid) in
      record {
        properties = (block props fixed k).bytes;
        layout = ap (λ w. w.bytes) same;
        size = rw same (rw (length-append) (omega (arith, size, e)));
        some_bytes = omega (arith, size, var_int_len-pos (fixed + kept_size k) fits);
        read =
            block_read props fixed k init (set k.user_properties k.reason_string) exact fits done
              (then_write-Encodes handler safe written.reads kept);
      }
