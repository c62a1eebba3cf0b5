-- ===== src/Topic/Split.antt =====
-- `str::split('/')` and joining by `/` (src/topic.rs).
use ntex_mqtt.Base.{
  ℕ, ◌≡◌, refl, ap, Bool, false, List, [], ◌∷◌, ◌++◌, ◌==◌, inl, inr, any, arith, Bool-cases,
  ==_iff,
}
use ntex_mqtt.Topic.{split_first, split}

abbrev pub join : List ℕ → List (List ℕ) → List ℕ
join first [] = first
join first (next ∷ rest) = first ++ (b'/' ∷ join next rest)

abbrev pub has_slash : List ℕ → Bool
has_slash = any (λ c. c == b'/')

join-cons : (c : ℕ) (s : List ℕ) (ps : List (List ℕ)) → join (c ∷ s) ps ≡ c ∷ join s ps
join-cons c s [] = refl
join-cons c s (p ∷ ps) = refl

pub join-split_first : (s : List ℕ) → join (split_first s).0 (split_first s).1 ≡ s
unfolding split_first
join-split_first [] = refl
join-split_first (c ∷ cs) = elim (Bool-cases (c == b'/')) [
  | inl e ↦ rw (e, (==_iff c b'/').0 e) (ap (◌∷◌ b'/') (join-split_first cs))
  | inr e ↦ rw (e, join-cons) (ap (◌∷◌ c) (join-split_first cs))
]

pub split_first-join :
    (first : List ℕ) (rest : List (List ℕ))
    → has_slash first ≡ false
    → any has_slash rest ≡ false
    → split_first (join first rest) ≡ (first, rest)
unfolding split_first
split_first-join [] [] h k = refl
split_first-join [] (next ∷ rest) h k =
    rw (split_first-join next rest (ground arith) (ground arith))
split_first-join (c ∷ cs) rest h k =
    rw (join-cons, split_first, split_first-join cs rest (ground arith) k) (ground arith)

pub split-join :
    (first : List ℕ) (rest : List (List ℕ))
    → has_slash first ≡ false
    → any has_slash rest ≡ false
    → split (join first rest) ≡ first ∷ rest
unfolding split
split-join first rest h k = rw (split_first-join first rest h k)
