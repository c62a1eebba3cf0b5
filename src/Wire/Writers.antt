-- ===== src/Wire/Writers.antt =====
-- Chains of encoders that succeed.
use mathlib.Core.List.{append_assoc}
use ntex_mqtt.Base.{
  ℕ, ◌+◌, ◌<◌, ◌^◌, ◌≡◌, refl, List, ◌++◌, length, length-append, Result, ok, err, panic, arith,
}
use ntex_mqtt.Wire.{
  EncodeError, Writer, append_result, ◌then_write◌, put, u16_bytes, encode_u16, encode_bytes,
}

-- Both parts succeed, and the bytes are those of both.
pub record Both (a b : Writer) : Type 0 where
  pub first : a.result ≡ ok tt
  pub second : b.result ≡ ok tt
  pub joined : (a then_write b).bytes ≡ a.bytes ++ b.bytes

append_result-eq-ok :
    (bs : List ℕ) (r : Result EncodeError (Unit {0})) (b : Writer)
    → (append_result bs r b).result ≡ ok tt
    → (r ≡ ok tt) × (b.result ≡ ok tt) × ((append_result bs r b).bytes ≡ bs ++ b.bytes)
append_result-eq-ok bs (ok u) b h = (refl, h, refl)
append_result-eq-ok bs (err e) b h = cc
append_result-eq-ok bs panic b h = cc

pub then_write-eq-ok : (a b : Writer) → (a then_write b).result ≡ ok tt → Both a b
then_write-eq-ok a b h =
    let (first, second, joined) = append_result-eq-ok a.bytes a.result b h in
    record { first = first; second = second; joined = joined }

-- If it succeeds, an encoder writes so many bytes.
abbrev pub Writes : Writer → ℕ → Type 0
Writes w n = w.result ≡ ok tt → length w.bytes ≡ n

pub then_write-Writes :
    (a b : Writer) (m n : ℕ) → Writes a m → Writes b n → Writes (a then_write b) (m + n)
then_write-Writes a b m n ha hb h =
    let both = then_write-eq-ok a b h in
    rw (both.joined, length-append) (omega (arith, ha both.first, hb both.second))

pub encode_bytes-Writes : (b : List ℕ) → Writes (encode_bytes b) (2 + length b)
unfolding encode_bytes
encode_bytes-Writes b h = ground arith

pub encode_u16-Writes : (v : ℕ) → Writes (encode_u16 v) 2
unfolding encode_u16
encode_u16-Writes v h = refl

pub encode_bytes-eq-ok :
    (b : List ℕ)
    → (encode_bytes b).result ≡ ok tt
    → (length b < 2 ^ 16) × ((encode_bytes b).bytes ≡ u16_bytes (length b) ++ b)
unfolding encode_bytes
encode_bytes-eq-ok b h = ground arith

pub put-Writes : (bs : List ℕ) → Writes (put bs) (length bs)
put-Writes bs h = refl

append_result_assoc :
    (bs : List ℕ) (r : Result EncodeError (Unit {0})) (b c : Writer)
    → append_result bs r b then_write c ≡ append_result bs r (b then_write c)
append_result_assoc bs (ok u) b c = by_result b.bytes b.result c
  where
    by_result :
        (cs : List ℕ) (r : Result EncodeError (Unit {0})) (c : Writer)
        → append_result (bs ++ cs) r c ≡ append_result bs (ok u) (append_result cs r c)
    by_result cs (ok v) c = rw append_assoc refl
    by_result cs (err e) c = refl
    by_result cs panic c = refl
append_result_assoc bs (err e) b c = refl
append_result_assoc bs panic b c = refl

pub then_write_assoc :
    (a b c : Writer) → (a then_write b) then_write c ≡ a then_write (b then_write c)
then_write_assoc a b c = append_result_assoc a.bytes a.result b c
