-- ===== src/Topic/Matching.antt =====
-- `matches_topic` against the matching rules of the MQTT specification, section 4.7.
use ntex_mqtt.Base.{
  ℕ, ◌+◌, ◌≡◌, ◌≢◌, refl, ◌↔◌, Bool, true, false, ◌&&◌, List, [], ◌∷◌, ◌==◌, arith, bytes_eq→eq,
  bytes_eq_refl, is_empty, length, and-eq-true,
}
use ntex_mqtt.Topic.{
  TopicFilter, TopicFilterLevel, normal, system, blank, single_wildcard, multi_wildcard, is_system,
  match_topic, match_name_level, matches_topic, split, split_first, filter_is_valid,
  any_bad_position, bad_position,
}

pub data LevelMatches : TopicFilterLevel → List ℕ → Type 0 where
  plain : (s : List ℕ) → LevelMatches (normal s) s
  sys : (s : List ℕ) → is_system s ≡ true → LevelMatches (system s) s
  empty : LevelMatches blank []
  plus : (s : List ℕ) → LevelMatches single_wildcard s

-- `#` stands for any number of levels, none included.
pub data Matches : TopicFilter → List (List ℕ) → Type 0 where
  done : Matches [] []
  hash : (ts : List (List ℕ)) → Matches (multi_wildcard ∷ []) ts
  step :
      (l : TopicFilterLevel) (t : List ℕ) (ls : TopicFilter) (ts : List (List ℕ))
      → LevelMatches l t
      → Matches ls ts
      → Matches (l ∷ ls) (t ∷ ts)

-- A filter that begins with a wildcard does not match a topic that begins with `$`.
abbrev pub starts_with_wildcard : TopicFilter → Bool
starts_with_wildcard [] = false
starts_with_wildcard (single_wildcard ∷ ls) = true
starts_with_wildcard (multi_wildcard ∷ ls) = true
starts_with_wildcard (l ∷ ls) = false

-- `#` stands last.
abbrev hash_last : TopicFilter → Bool
hash_last [] = true
hash_last (multi_wildcard ∷ ls) = is_empty ls
hash_last (l ∷ ls) = hash_last ls

hash_last-any_bad_position :
    (len pos : ℕ) (ls : TopicFilter)
    → len ≡ pos + length ls
    → any_bad_position len pos ls ≡ false
    → hash_last ls ≡ true
unfolding any_bad_position bad_position
hash_last-any_bad_position len pos [] h k = refl
hash_last-any_bad_position len pos (multi_wildcard ∷ []) h k = refl
hash_last-any_bad_position len pos (multi_wildcard ∷ l ∷ ls) h k = ground arith
hash_last-any_bad_position len pos (normal s ∷ ls) h k =
    hash_last-any_bad_position len (pos + 1) ls (omega arith) k
hash_last-any_bad_position len pos (system s ∷ ls) h k =
    hash_last-any_bad_position len (pos + 1) ls (omega arith) (ground arith)
hash_last-any_bad_position len pos (blank ∷ ls) h k =
    hash_last-any_bad_position len (pos + 1) ls (omega arith) k
hash_last-any_bad_position len pos (single_wildcard ∷ ls) h k =
    hash_last-any_bad_position len (pos + 1) ls (omega arith) k

LevelMatches-sound :
    (l : TopicFilterLevel) (t : List ℕ) (i : ℕ)
    → l ≢ multi_wildcard
    → match_name_level t l i ≡ true
    → LevelMatches l t
unfolding match_name_level
LevelMatches-sound (normal s) t i n h = rw (bytes_eq→eq s t h) (plain t)
LevelMatches-sound (system s) t i n h = rw (bytes_eq→eq s t (ground arith)) (sys t (ground arith))
LevelMatches-sound blank [] i n h = empty
LevelMatches-sound blank (c ∷ cs) i n h = cc
LevelMatches-sound single_wildcard t i n h = plus t
LevelMatches-sound multi_wildcard t i n h = absurd (n refl)

LevelMatches-complete :
    {l : TopicFilterLevel} {t : List ℕ} (i : ℕ)
    → (l ≡ single_wildcard → (i == 0 && is_system t) ≡ false)
    → LevelMatches l t
    → match_name_level t l i ≡ true
unfolding match_name_level
LevelMatches-complete i h (plain s) = bytes_eq_refl s
LevelMatches-complete i h (sys s e) = rw (e, bytes_eq_refl s) refl
LevelMatches-complete i h empty = refl
LevelMatches-complete i h (plus s) = rw (h refl) refl

LevelMatches-ne-multi : {l : TopicFilterLevel} {t : List ℕ} → LevelMatches l t → l ≢ multi_wildcard
LevelMatches-ne-multi (plain s) e = cc
LevelMatches-ne-multi (sys s h) e = cc
LevelMatches-ne-multi empty e = cc
LevelMatches-ne-multi (plus s) e = cc

abbrev pub first_is_system : List (List ℕ) → Bool
first_is_system [] = false
first_is_system (t ∷ ts) = is_system t

pub is_system-split : (s : List ℕ) → first_is_system (split s) ≡ is_system s
unfolding split split_first is_system
is_system-split [] = refl
is_system-split (c ∷ cs) = ground arith

-- The loop's step at a level that is no `#`.
pub match_topic-step {ℓ} :
    {T : Type ℓ} (match_level : T → TopicFilterLevel → ℕ → Bool) (l : TopicFilterLevel)
    (ls : TopicFilter) (t : T) (ts : List T) (i : ℕ)
    → l ≢ multi_wildcard
    → match_topic match_level (l ∷ ls) (t ∷ ts) i
      ≡ (match_level t l i && match_topic match_level ls ts (i + 1))
unfolding match_topic
match_topic-step match_level (normal s) ls t ts i n = ground arith
match_topic-step match_level (system s) ls t ts i n = ground arith
match_topic-step match_level blank ls t ts i n = ground arith
match_topic-step match_level single_wildcard ls t ts i n = ground arith
match_topic-step match_level multi_wildcard ls t ts i n = absurd (n refl)

hash_last-tail :
    (l : TopicFilterLevel) (ls : TopicFilter)
    → l ≢ multi_wildcard
    → hash_last (l ∷ ls) ≡ hash_last ls
hash_last-tail multi_wildcard ls n = absurd (n refl)
hash_last-tail _ ls n = refl

match_topic_sound :
    (ls : TopicFilter) (ts : List (List ℕ)) (i : ℕ)
    → hash_last ls ≡ true
    → match_topic match_name_level ls ts i ≡ true
    → Matches ls ts
match_topic_sound [] [] i h m = done
match_topic_sound [] (t ∷ ts) i h m = unfold match_topic in cc
match_topic_sound (multi_wildcard ∷ []) ts i h m = hash ts
match_topic_sound (multi_wildcard ∷ l ∷ ls) ts i h m = cc
match_topic_sound (l ∷ ls) [] i h m = unfold match_topic in cc
match_topic_sound (l ∷ ls) (t ∷ ts) i h m =
    let ne : l ≢ multi_wildcard = λ e. cc in
    let both = and-eq-true _ _ (rw (match_topic-step match_name_level l ls t ts i ne) at m) in
    step l t ls ts (LevelMatches-sound l t i ne both.0)
      (match_topic_sound ls ts (i + 1) (rw (hash_last-tail l ls ne) at h) both.1)

match_topic_complete :
    {ls : TopicFilter} {ts : List (List ℕ)} (i : ℕ)
    → (starts_with_wildcard ls && (i == 0 && first_is_system ts)) ≡ false
    → Matches ls ts
    → match_topic match_name_level ls ts i ≡ true
match_topic_complete i h done = unfold match_topic in refl
match_topic_complete i h (hash []) = unfold match_topic in refl
match_topic_complete i h (hash (t ∷ ts)) = unfold match_topic match_name_level in ground arith
match_topic_complete i h (step l t ls ts m ms) =
    rw
      (
        match_topic-step match_name_level l ls t ts i (LevelMatches-ne-multi m),
        LevelMatches-complete i (λ e. single e) m,
        match_topic_complete (i + 1) later ms,
      )
      refl
  where
    single : l ≡ single_wildcard → (i == 0 && is_system t) ≡ false
    single e = rw e at h

    later : (starts_with_wildcard ls && (i + 1 == 0 && first_is_system ts)) ≡ false
    later = ground arith

match_topic-first :
    (ls : TopicFilter) (ts : List (List ℕ))
    → match_topic match_name_level ls ts 0 ≡ true
    → (starts_with_wildcard ls && first_is_system ts) ≡ false
unfolding match_topic match_name_level
match_topic-first [] ts h = refl
match_topic-first (l ∷ ls) [] h = ground arith
match_topic-first (multi_wildcard ∷ ls) (t ∷ ts) h = ground arith
match_topic-first (single_wildcard ∷ ls) (t ∷ ts) h = ground arith
match_topic-first (normal s ∷ ls) (t ∷ ts) h = refl
match_topic-first (system s ∷ ls) (t ∷ ts) h = refl
match_topic-first (blank ∷ ls) (t ∷ ts) h = refl

-- `matches_topic` decides the matching rules: for every filter that `TopicFilter::is_valid` accepts
-- it answers true exactly when the parts of the topic match the levels by the specification's
-- rules, and no filter that begins with a wildcard matches a topic that begins with `$`.
pub matches_topic-Matches :
    (f : TopicFilter) (s : List ℕ)
    → filter_is_valid f ≡ true
    → (matches_topic f s ≡ true)
      ↔ (Matches f (split s) × ((starts_with_wildcard f && is_system s) ≡ false))
unfolding matches_topic filter_is_valid
matches_topic-Matches f s valid = (
  λ m. (
    match_topic_sound f (split s) 0
        (hash_last-any_bad_position (length f) 0 f (omega arith) (ground arith)) m,
    rw (is_system-split s) at (match_topic-first f (split s) m),
  ),
  λ (ms, free). match_topic_complete 0 (rw (← is_system-split s) at free) ms,
)
