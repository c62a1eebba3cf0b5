-- ===== src/V5/Property/Fit/Largest.antt =====
-- What `encode_opt_props` leaves out (src/v5/codec/encode.rs).
use mathlib.Core.Option.{Option, none, some}
use ntex_mqtt.Base.{
  ℕ, ◌+◌, ◌-◌, ◌≤◌, ◌<◌, ◌≡◌, refl, ap, ◌∙◌, ◌⊎◌, inl, inr, Bool-cases, [], ◌∷◌, ◌++◌, length,
  arith, ltb,
}
use ntex_mqtt.Wire.{encoded_size_bytes}
use ntex_mqtt.V5.Packet.{UserProperties, ByteString}
use ntex_mqtt.V5.Property.Write.{
  pair_size, user_properties_size, encoded_size_opt_props, encode_opt_props,
}
use ntex_mqtt.V5.Property.Fit.{
  Kept, fit, kept_size, kept_writer, encoded_size_opt_props-fit, encode_opt_props-fit,
}

-- Behind user properties of a size, a limit has no room for the first one that is left out, or, when
-- none is, for a reason string that is left out.
abbrev pub IsFull : UserProperties → Option ByteString → Option ByteString → ℕ → ℕ → Type 0
IsFull (up ∷ ups) reason kept_reason limit size =
    (kept_reason ≡ none) × (limit < size + (1 + pair_size up))
IsFull [] none kept_reason limit size = kept_reason ≡ none
IsFull [] (some r) kept_reason limit size =
    (kept_reason ≡ some r) ⊎ ((kept_reason ≡ none) × (limit < size + (3 + length r)))

-- The front of the user properties, as long as a limit allows, and then the reason string.
pub record IsLargest (ups : UserProperties) (reason : Option ByteString) (limit : ℕ) (k : Kept)
    : Type 0 where
  pub within : kept_size k ≤ limit
  pub left_out : UserProperties
  pub front : ups ≡ k.user_properties ++ left_out
  pub full : IsFull left_out reason k.reason_string limit (user_properties_size k.user_properties)

one_more :
    (left : UserProperties) (reason kept_reason : Option ByteString) (limit size prop_len : ℕ)
    → prop_len ≤ limit
    → IsFull left reason kept_reason (limit - prop_len) size
    → IsFull left reason kept_reason limit (prop_len + size)
one_more (up ∷ ups) reason kept_reason limit size prop_len h (none_kept, over) =
    (none_kept, omega (arith, h, over))
one_more [] none kept_reason limit size prop_len h none_kept = none_kept
one_more [] (some r) kept_reason limit size prop_len h (inl kept) = inl kept
one_more [] (some r) kept_reason limit size prop_len h (inr (none_kept, over)) =
    inr (none_kept, omega (arith, h, over))

fit-IsLargest :
    (ups : UserProperties) (reason : Option ByteString) (limit : ℕ)
    → IsLargest ups reason limit (fit ups reason limit)
unfolding fit kept_size user_properties_size encoded_size_bytes
fit-IsLargest [] none limit = record {
  within = omega arith;
  left_out = [];
  front = refl;
  full = refl;
}
fit-IsLargest [] (some r) limit = elim (Bool-cases (ltb limit (3 + length r))) [
  | inl over ↦ rw over (record {
    within = omega arith;
    left_out = [];
    front = refl;
    full = inr (refl, ground (arith, over));
  })
  | inr fits ↦
      rw fits
        (record { within = ground (arith, fits); left_out = []; front = refl; full = inl refl })
]
fit-IsLargest (up ∷ ups) reason limit =
    let prop_len : ℕ = 1 + pair_size up in
    let i = fit-IsLargest ups reason (limit - prop_len) in
    elim (Bool-cases (ltb limit prop_len)) [
      | inl over ↦ rw over (record {
        within = omega arith;
        left_out = up ∷ ups;
        front = refl;
        full = (refl, ground (arith, over));
      })
      | inr fits ↦
          let room : prop_len ≤ limit = ground (arith, fits) in
          rw fits (record {
            within = omega (arith, i.within, room);
            left_out = i.left_out;
            front = ap (λ (l : UserProperties). up ∷ l) i.front;
            full = one_more i.left_out reason _ limit _ prop_len room i.full;
          })
    ]

-- What `encode_opt_props` writes, given the size that `encoded_size_opt_props` answers.
pub record IsCut (ups : UserProperties) (reason : Option ByteString) (limit : ℕ) : Type 0 where
  pub kept : Kept
  pub written :
      encode_opt_props ups reason (encoded_size_opt_props ups reason limit) ≡ kept_writer kept
  pub size : encoded_size_opt_props ups reason limit ≡ kept_size kept
  pub largest : IsLargest ups reason limit kept

-- For all user properties, a reason string or none, and a limit: given the size that
-- `encoded_size_opt_props` answers, `encode_opt_props` writes what the encoders of some properties
-- write, the sizes of which add up to that size, and it is within the limit. They are a front of the
-- user properties, and the first one that is left out would be over the limit behind them; the
-- reason string is among them when all user properties are and it too is within the limit, and only
-- then.
pub encode_opt_props-IsCut :
    (ups : UserProperties) (reason : Option ByteString) (limit : ℕ) → IsCut ups reason limit
encode_opt_props-IsCut ups reason limit =
    let size = encoded_size_opt_props-fit ups reason limit in
    record {
      kept = fit ups reason limit;
      written = ap (encode_opt_props ups reason) size ∙ encode_opt_props-fit ups reason limit;
      size = size;
      largest = fit-IsLargest ups reason limit;
    }
