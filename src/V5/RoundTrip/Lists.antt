-- ===== src/V5/RoundTrip/Lists.antt =====
-- Lists of items that fill the rest of a buffer, as topic filters do (src/v5/codec/packet).
use ntex_mqtt.Base.{
  ℕ, zero, suc, ◌≤◌, ◌<◌, ◌≡◌, refl, ap, ◌∙◌, List, [], ◌∷◌, ◌++◌, length, length-append, ok, arith,
  All,
}
use ntex_mqtt.Wire.{Reader, continue, ◌>>=◌, pure, Writer}
use ntex_mqtt.Wire.Readers.{read_loop, read_all}
use ntex_mqtt.Wire.Writers.{then_write-eq-ok}
use ntex_mqtt.V5.Property.Write.{encode_all}

-- An item that is encoded without an error takes a byte at least and is read back.
pub record IsItem {A : Type 0} (encode : A → Writer) (item : Reader A) (Valid : A → Type 0)
    : Type 0 where
  pub some_bytes : (a : A) → (encode a).result ≡ ok tt → 0 < length (encode a).bytes
  pub reads :
      (a : A)
      → Valid a
      → (encode a).result ≡ ok tt
      → (rest : List ℕ) → item ((encode a).bytes ++ rest) ≡ ok (a, rest)

round :
    {A : Type 0} (item : Reader A) (fuel : ℕ) (src : List ℕ)
    → 0 < length src
    → read_loop item (suc fuel) src
      ≡ continue (item src) λ a. (read_loop item fuel >>= λ rest. pure (a ∷ rest))
unfolding read_loop
round item fuel [] h = absurd (omega arith)
round item fuel (b ∷ src) h = refl

module _ {A : Type 0} {encode : A → Writer} {item : Reader A} {Valid : A → Type 0}
    (is_item : IsItem encode item Valid) where
  read_loop-encode_all :
      (fuel : ℕ) (xs : List A)
      → (encode_all encode xs).result ≡ ok tt
      → length (encode_all encode xs).bytes ≤ fuel
      → All Valid xs
      → read_loop item fuel (encode_all encode xs).bytes ≡ ok (xs, [])
  unfolding encode_all
  read_loop-encode_all fuel [] h enough v = unfold read_loop in refl
  read_loop-encode_all zero (x ∷ xs) h enough v =
      let both = then_write-eq-ok (encode x) (encode_all encode xs) h in
      absurd (
        omega (
          arith,
          is_item.some_bytes x both.first,
          enough,
          ap length both.joined,
          length-append (encode x).bytes (encode_all encode xs).bytes,
        ))
  read_loop-encode_all (suc fuel) (x ∷ xs) h enough (v, vs) =
      let both = then_write-eq-ok (encode x) (encode_all encode xs) h in
      let longer = is_item.some_bytes x both.first in
      let len = length-append (encode x).bytes (encode_all encode xs).bytes in
      let joined = ap length both.joined in
      rw both.joined (
        round item fuel ((encode x).bytes ++ (encode_all encode xs).bytes)
          (omega (arith, longer, len))
        ∙ rw (is_item.reads x v both.first (encode_all encode xs).bytes) (
            rw
              (read_loop-encode_all fuel xs both.second (omega (arith, longer, len, joined, enough))
                vs)
              refl))

  pub read_all-encode_all :
      (xs : List A)
      → (encode_all encode xs).result ≡ ok tt
      → All Valid xs
      → read_all item (encode_all encode xs).bytes ≡ ok (xs, [])
  unfolding read_all
  read_all-encode_all xs h v =
      read_loop-encode_all (length (encode_all encode xs).bytes) xs h (omega arith) v
