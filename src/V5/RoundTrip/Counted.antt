-- ===== src/V5/RoundTrip/Counted.antt =====
-- Properties that are never left out (src/v5/codec/packet): their length, the properties, and what
-- follows.
use mathlib.Core.Path.{subst}
use mathlib.Core.List.{append_assoc, append-nil}
use ntex_mqtt.Base.{ℕ, ◌+◌, ◌%◌, ◌^◌, ◌≤◌, ◌≡◌, List, [], ◌++◌, ok, arith}
use ntex_mqtt.Wire.{Reader, Writer, ◌then_write◌, write_variable_length}
use ntex_mqtt.Wire.Writers.{then_write-eq-ok, Writes, then_write-Writes}
use ntex_mqtt.V5.Lengths.{var_int_len}
use ntex_mqtt.V5.Property.{read_properties}
use ntex_mqtt.V5.Property.Safety.Properties.{SafeHandler}
use ntex_mqtt.V5.Property.Blocks.{read_properties-Encodes}
use ntex_mqtt.V5.Property.Written.{Written}
use ntex_mqtt.V5.RoundTrip.Limited.{write_variable_length-Writes}

abbrev pub counted : ℕ → Writer → Writer → Writer
counted len props next = write_variable_length len then_write props then_write next

pub as_u32 : (len : ℕ) → len ≤ 268_435_455 → len % 2 ^ 32 ≡ len
as_u32 len small = omega (arith, small)

-- What is written after the properties is written without an error, and is what the reader of the
-- properties leaves.
pub record CountedRead {S : Type 0} (handler : ℕ → S → Reader S) (init final : S) (bytes : List ℕ)
    (next : Writer) : Type 0 where
  pub next_ok : next.result ≡ ok tt
  pub read :
      (tail : List ℕ)
      → read_properties handler init (bytes ++ tail) ≡ ok (final, next.bytes ++ tail)

-- Where nothing follows.
pub read_end :
    {S : Type 0} {handler : ℕ → S → Reader S} {init final : S} {bytes : List ℕ} {next : Writer}
    → CountedRead handler init final bytes next
    → read_properties handler init bytes ≡ ok (final, next.bytes)
read_end {handler = handler} {init = init} {final = final} {bytes = bytes} {next = next} r =
    subst (λ xs. read_properties handler init xs ≡ ok (final, next.bytes)) (append-nil bytes)
      (subst (λ xs. read_properties handler init (bytes ++ []) ≡ ok (final, xs))
        (append-nil next.bytes) (r.read []))

module _ {S : Type 0} (handler : ℕ → S → Reader S) (safe : SafeHandler handler) where
  pub counted-Writes :
      {init final : S} {props : Writer} {len : ℕ} (next : Writer) (m : ℕ)
      → Written handler safe init props len final
      → len ≤ 268_435_455
      → Writes next m
      → Writes (counted len props next) (var_int_len len + (len + m))
  counted-Writes {props = props} {len = len} next m w small hm =
      then_write-Writes (write_variable_length len) (props then_write next) (var_int_len len)
        (len + m) (write_variable_length-Writes len small)
        (then_write-Writes props next len m w.exact hm)

  pub counted-CountedRead :
      {init final : S} {props : Writer} (next : Writer) {len : ℕ}
      → Written handler safe init props len final
      → len ≤ 268_435_455
      → (counted len props next).result ≡ ok tt
      → CountedRead handler init final (counted len props next).bytes next
  counted-CountedRead {init = init} {final = final} {props = props} next {len = len} w small h =
      let outer = then_write-eq-ok (write_variable_length len) (props then_write next) h in
      let inner = then_write-eq-ok props next outer.second in
      record {
        next_ok = inner.second;
        read = λ tail.
            rw (outer.joined, append_assoc)
              (rw (inner.joined, append_assoc)
                (read_properties-Encodes handler safe len props init final (next.bytes ++ tail)
                  small inner.first (w.exact inner.first) w.reads));
      }
