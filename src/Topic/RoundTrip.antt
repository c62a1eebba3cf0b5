-- ===== src/Topic/RoundTrip.antt =====
-- `TopicFilter::try_from` and `Display` (src/topic.rs).
use ntex_mqtt.Base.{
  ℕ, ◌+◌, ◌≡◌, refl, ap, ◌≢◌, ◌∙◌, Bool, true, false, not, ◌&&◌, List, [], ◌∷◌, ◌++◌, ◌==◌, map,
  any, arith, bytes_eq→eq, is_empty, ok, and_then-eq-ok,
}
use ntex_mqtt.Topic.{
  TopicFilter, TopicFilterLevel, normal, system, blank, single_wildcard, multi_wildcard,
  level_is_valid, filter_is_valid, from_levels, split, parse_level, parse_levels, parse,
  is_wildcard_char, is_system, level_bytes, display_loop, display,
}
use ntex_mqtt.Topic.Split.{join, join-split_first, split-join, has_slash}

level_bytes-parse_level :
    (idx : ℕ) (p : List ℕ) {l : TopicFilterLevel} → parse_level idx p ≡ ok l → level_bytes l ≡ p
unfolding parse_level level_bytes
level_bytes-parse_level idx p h =
    ground (arith, bytes_eq→eq p (b'+' ∷ []), bytes_eq→eq p (b'#' ∷ []))

parse_levels-cons :
    (idx : ℕ) (p : List ℕ) (ps : List (List ℕ)) {fs : TopicFilter}
    → parse_levels idx (p ∷ ps) ≡ ok fs
    → (l : TopicFilterLevel) × (ls : TopicFilter) × (parse_level idx p ≡ ok l)
      × (parse_levels (idx + 1) ps ≡ ok ls)
      × (fs ≡ l ∷ ls)
unfolding parse_levels
parse_levels-cons idx p ps h =
    let (l, el, h') = and_then-eq-ok (parse_level idx p) _ h in
    let (ls, els, e) = and_then-eq-ok (parse_levels (idx + 1) ps) _ h' in
    (l, ls, el, els, ground arith)

display_loop-parse_levels :
    (idx : ℕ) (p : List ℕ) (ps : List (List ℕ)) {l : TopicFilterLevel} {ls : TopicFilter}
    → parse_level idx p ≡ ok l
    → parse_levels (idx + 1) ps ≡ ok ls
    → display_loop l ls ≡ join p ps
unfolding display_loop
display_loop-parse_levels idx p [] {ls = ls} h k =
    let e : ls ≡ [] = unfold parse_levels in ground arith in
    rw (e, display_loop) (level_bytes-parse_level idx p h)
display_loop-parse_levels idx p (q ∷ ps) {ls = ls} h k =
    let (m, ms, em, ems, e) = parse_levels-cons (idx + 1) q ps k in
    rw (e, display_loop)
      (rw (level_bytes-parse_level idx p h, display_loop-parse_levels (idx + 1) q ps em ems) refl)

-- What the parser accepts, `Display` prints back as it was.
pub display-parse : (s : List ℕ) {f : TopicFilter} → parse s ≡ ok f → display f ≡ ok s
unfolding parse display from_levels split
display-parse [] h = cc
display-parse (c ∷ cs) {f} h =
    let (ls, els, h') = and_then-eq-ok (parse_levels 0 (split (c ∷ cs))) from_levels h in
    let (m, ms, em, ems, e) = parse_levels-cons 0 _ _ els in
    let same : f ≡ m ∷ ms = ground arith in
    rw (same, display) (ap ok (display_loop-parse_levels 0 _ _ em ems ∙ join-split_first (c ∷ cs)))

-- A level that the parser can produce at this position.
abbrev pub is_canonical : ℕ → TopicFilterLevel → Bool
is_canonical idx (normal s) = not (is_empty s) && not (idx == 0 && is_system s) && not (has_slash s)
is_canonical idx (system s) = idx == 0 && is_system s && not (has_slash s)
is_canonical idx _ = true

abbrev pub all_canonical : ℕ → TopicFilter → Bool
all_canonical idx [] = true
all_canonical idx (l ∷ ls) = is_canonical idx l && all_canonical (idx + 1) ls

parse_level-level_bytes :
    (idx : ℕ) (l : TopicFilterLevel)
    → is_canonical idx l ≡ true
    → level_is_valid l ≡ true
    → parse_level idx (level_bytes l) ≡ ok l
unfolding parse_level level_bytes level_is_valid is_wildcard_char is_system
parse_level-level_bytes idx (normal []) h k = ground arith
parse_level-level_bytes idx (normal (c ∷ cs)) h k = ground arith
parse_level-level_bytes idx (system []) h k = ground arith
parse_level-level_bytes idx (system (c ∷ cs)) h k = ground arith
parse_level-level_bytes idx blank h k = refl
parse_level-level_bytes idx single_wildcard h k = refl
parse_level-level_bytes idx multi_wildcard h k = refl

parse_levels-level_bytes :
    (idx : ℕ) (ls : TopicFilter)
    → all_canonical idx ls ≡ true
    → any (λ l. not (level_is_valid l)) ls ≡ false
    → parse_levels idx (map level_bytes ls) ≡ ok ls
unfolding parse_levels
parse_levels-level_bytes idx [] h k = refl
parse_levels-level_bytes idx (l ∷ ls) h k =
    rw
      (
        parse_level-level_bytes idx l (ground arith) (ground arith),
        parse_levels-level_bytes (idx + 1) ls (ground arith) (ground arith),
      )
      refl

display_loop-join :
    (l : TopicFilterLevel) (ls : TopicFilter)
    → display_loop l ls ≡ join (level_bytes l) (map level_bytes ls)
unfolding display_loop
display_loop-join l [] = refl
display_loop-join l (m ∷ ms) = rw (display_loop-join m ms)

has_slash-level_bytes :
    (idx : ℕ) (l : TopicFilterLevel) → is_canonical idx l ≡ true → has_slash (level_bytes l) ≡ false
unfolding level_bytes
has_slash-level_bytes idx (normal s) h = ground arith
has_slash-level_bytes idx (system s) h = ground arith
has_slash-level_bytes idx blank h = refl
has_slash-level_bytes idx single_wildcard h = refl
has_slash-level_bytes idx multi_wildcard h = refl

any-has_slash-level_bytes :
    (idx : ℕ) (ls : TopicFilter)
    → all_canonical idx ls ≡ true
    → any has_slash (map level_bytes ls) ≡ false
any-has_slash-level_bytes idx [] h = refl
any-has_slash-level_bytes idx (l ∷ ls) h =
    rw
      (
        has_slash-level_bytes idx l (ground arith),
        any-has_slash-level_bytes (idx + 1) ls (ground arith),
      )
      refl

is_empty-display_loop :
    (l : TopicFilterLevel) (ls : TopicFilter)
    → is_canonical 0 l ≡ true
    → l ∷ ls ≢ blank ∷ []
    → is_empty (display_loop l ls) ≡ false
unfolding display_loop level_bytes is_system
is_empty-display_loop (normal []) [] h k = ground arith
is_empty-display_loop (normal (c ∷ cs)) [] h k = refl
is_empty-display_loop (system []) [] h k = ground arith
is_empty-display_loop (system (c ∷ cs)) [] h k = refl
is_empty-display_loop blank [] h k = absurd (k refl)
is_empty-display_loop single_wildcard [] h k = refl
is_empty-display_loop multi_wildcard [] h k = refl
is_empty-display_loop l (m ∷ ms) h k = is_empty-append (level_bytes l)
  where
    is_empty-append : (xs : List ℕ) → is_empty (xs ++ (b'/' ∷ display_loop m ms)) ≡ false
    is_empty-append [] = refl
    is_empty-append (x ∷ xs) = refl

-- What `Display` prints of a filter that `TopicFilter::is_valid` accepts, and whose levels are such
-- as the parser produces, parses to that filter. The filter of one blank level is left out: its
-- text is empty.
pub parse-display :
    (l : TopicFilterLevel) (ls : TopicFilter) {s : List ℕ}
    → filter_is_valid (l ∷ ls) ≡ true
    → all_canonical 0 (l ∷ ls) ≡ true
    → l ∷ ls ≢ blank ∷ []
    → display (l ∷ ls) ≡ ok s
    → parse s ≡ ok (l ∷ ls)
unfolding parse display from_levels
parse-display l ls {s} valid canon nonblank e =
    let text : s ≡ display_loop l ls = ground arith in
    rw (text, is_empty-display_loop l ls (ground arith) nonblank, display_loop-join l ls)
      (rw
        (
          split-join (level_bytes l) (map level_bytes ls) (has_slash-level_bytes 0 l (ground arith))
              (any-has_slash-level_bytes 1 ls (ground arith)),
          parse_levels-level_bytes 0 (l ∷ ls) canon (unfold filter_is_valid in ground arith),
          valid,
        )
        refl)
