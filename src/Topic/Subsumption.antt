-- ===== src/Topic/Subsumption.antt =====
-- `matches_filter` and `matches_topic` (src/topic.rs).
use ntex_mqtt.Base.{
  ℕ, ◌+◌, ◌≡◌, ◌≢◌, refl, Bool, true, false, not, Bool-cases, inl, inr, ◌&&◌, List, [], ◌∷◌, ◌==◌,
  arith, bytes_eq→eq, and-eq-true,
}
use ntex_mqtt.Topic.{
  TopicFilter, TopicFilterLevel, normal, system, blank, single_wildcard, multi_wildcard, is_system,
  match_topic, match_filter_level, match_name_level, matches_filter, matches_topic, split,
}
use ntex_mqtt.Topic.Matching.{
  starts_with_wildcard, first_is_system, is_system-split, match_topic-step,
}

-- A topic level that a covered level accepts is accepted by the level that covers it.
level_sound :
    (f g : TopicFilterLevel) (t : List ℕ) (i : ℕ)
    → (starts_with_wildcard (f ∷ []) && (i == 0 && is_system t)) ≡ false
    → match_filter_level g f i ≡ true
    → match_name_level t g i ≡ true
    → match_name_level t f i ≡ true
unfolding match_filter_level match_name_level
level_sound (normal r) (normal s) t i h k m = rw (bytes_eq→eq s r k) at m
level_sound (normal r) g t i h k m = cc
level_sound (system r) (system s) t i h k m = rw (bytes_eq→eq s r k) at m
level_sound (system r) g t i h k m = cc
level_sound blank blank t i h k m = m
level_sound blank g t i h k m = cc
level_sound single_wildcard g t i h k m = rw h refl
level_sound multi_wildcard g t i h k m = rw h refl

not_covered :
    (l : TopicFilterLevel) (ls gs : TopicFilter) (i : ℕ)
    → l ≢ multi_wildcard
    → match_topic match_filter_level (l ∷ ls) (multi_wildcard ∷ gs) i ≡ false
unfolding match_topic match_filter_level
not_covered multi_wildcard ls gs i n = absurd (n refl)
not_covered (normal s) ls gs i n = refl
not_covered (system s) ls gs i n = refl
not_covered blank ls gs i n = refl
not_covered single_wildcard ls gs i n = refl

too_short :
    (k : TopicFilterLevel) (gs : TopicFilter) (i : ℕ)
    → k ≢ multi_wildcard
    → match_topic match_name_level (k ∷ gs) [] i ≡ false
unfolding match_topic
too_short multi_wildcard gs i n = absurd (n refl)
too_short _ gs i n = refl

first_level :
    (l : TopicFilterLevel) (ls : TopicFilter) (b : Bool)
    → (starts_with_wildcard (l ∷ ls) && b) ≡ false
    → (starts_with_wildcard (l ∷ []) && b) ≡ false
first_level multi_wildcard ls b h = h
first_level _ ls b h = h

match_topic_trans :
    (fs gs : TopicFilter) (ts : List (List ℕ)) (i : ℕ)
    → (starts_with_wildcard fs && (i == 0 && first_is_system ts)) ≡ false
    → match_topic match_filter_level fs gs i ≡ true
    → match_topic match_name_level gs ts i ≡ true
    → match_topic match_name_level fs ts i ≡ true
match_topic_trans [] [] ts i free cover m = m
match_topic_trans [] (g ∷ gs) ts i free cover m = unfold match_topic in cc
match_topic_trans (multi_wildcard ∷ fs) gs [] i free cover m = unfold match_topic in refl
match_topic_trans (multi_wildcard ∷ fs) gs (t ∷ ts) i free cover m =
    unfold match_topic match_name_level in rw free refl
match_topic_trans (f ∷ fs) [] ts i free cover m = unfold match_topic in cc
match_topic_trans (f ∷ fs) (multi_wildcard ∷ gs) ts i free cover m =
    cc (not_covered f fs gs i (λ e. cc))
match_topic_trans (f ∷ fs) (g ∷ gs) [] i free cover m = cc (too_short g gs i (λ e. cc))
match_topic_trans (f ∷ fs) (g ∷ gs) (t ∷ ts) i free cover m =
    let nf : f ≢ multi_wildcard = λ e. cc in
    let ng : g ≢ multi_wildcard = λ e. cc in
    let (level, rest) =
      and-eq-true _ _ (rw (match_topic-step match_filter_level f fs g gs i nf) at cover) in
    let (name, names) =
      and-eq-true _ _ (rw (match_topic-step match_name_level g gs t ts i ng) at m) in
    rw
      (
        match_topic-step match_name_level f fs t ts i nf,
        level_sound f g t i (first_level f fs (i == 0 && is_system t) free) level name,
        match_topic_trans fs gs ts (i + 1) (ground arith) rest names,
      )
      refl

wildcard_misses_system :
    (fs : TopicFilter) (ts : List (List ℕ))
    → (starts_with_wildcard fs && first_is_system ts) ≡ true
    → match_topic match_name_level fs ts 0 ≡ false
unfolding match_topic match_name_level
wildcard_misses_system [] ts h = cc
wildcard_misses_system (normal s ∷ fs) ts h = cc
wildcard_misses_system (system s ∷ fs) ts h = cc
wildcard_misses_system (blank ∷ fs) ts h = cc
wildcard_misses_system (single_wildcard ∷ fs) [] h = cc
wildcard_misses_system (single_wildcard ∷ fs) (t ∷ ts) h = rw h refl
wildcard_misses_system (multi_wildcard ∷ fs) [] h = cc
wildcard_misses_system (multi_wildcard ∷ fs) (t ∷ ts) h = rw h refl

-- If `matches_filter` says that one filter covers another, then of the topics that the second
-- matches the first matches all, but for those that begin with `$` when the first begins with a
-- wildcard: it matches none of these.
pub matches_filter-matches_topic :
    (f g : TopicFilter) (s : List ℕ)
    → matches_filter f g ≡ true
    → matches_topic g s ≡ true
    → matches_topic f s ≡ not (starts_with_wildcard f && is_system s)
unfolding matches_filter matches_topic
matches_filter-matches_topic f g s cover m =
    elim (Bool-cases (starts_with_wildcard f && is_system s)) [
      | inl apart ↦
          rw apart (wildcard_misses_system f (split s) (rw (← is_system-split s) at apart))
      | inr free ↦
          rw free (match_topic_trans f g (split s) 0 (rw (← is_system-split s) at free) cover m)
    ]
