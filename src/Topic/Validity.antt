-- ===== src/Topic/Validity.antt =====
-- The byte automaton `is_valid` and the parser (src/topic.rs).
use ntex_mqtt.Base.{
  ℕ, ◌+◌, ◌-◌, ◌≡◌, refl, ◌∙◌, sym, Bool, true, false, not, ◌&&◌, ◌||◌, List, [], ◌∷◌, ◌==◌,
  if◌then◌else◌, any, length, arith, bytes_eq, is_empty, Result, ok, err, panic, and_then,
  and_then-eq-ok, is_ok,
}
use ntex_mqtt.Topic.{
  TopicFilterError, PrevState, next_state, is_valid_loop, is_valid, TopicFilter, TopicFilterLevel,
  level_is_valid, bad_position, any_bad_position, filter_is_valid, from_levels, split_first, split,
  parse_level, parse_levels, parse, is_wildcard_char,
}

-- The grammar of section 4.7: every part is `+`, `#` or has no wildcard, and `#` is the last part.
abbrev pub clean : List ℕ → Bool
clean s = not (any is_wildcard_char s)

abbrev pub parts_valid : List (List ℕ) → Bool
parts_valid [] = true
parts_valid (p ∷ ps) =
    if bytes_eq p (b'#' ∷ [])
    then is_empty ps
    else (bytes_eq p (b'+' ∷ []) || clean p) && parts_valid ps

-- What the automaton still wants of the parts, in each of its states.
expected : PrevState → List ℕ → List (List ℕ) → Bool
expected PrevState.none first rest = parts_valid (first ∷ rest)
expected PrevState.level_sep first rest = parts_valid (first ∷ rest)
expected PrevState.single_wildcard first rest = is_empty first && parts_valid rest
expected PrevState.multi_wildcard first rest = is_empty first && is_empty rest
expected PrevState.other first rest = clean first && parts_valid rest

loop-expected :
    (s : List ℕ) (state : PrevState)
    → is_valid_loop s state ≡ expected state (split_first s).0 (split_first s).1
unfolding is_valid_loop split_first expected next_state is_wildcard_char
loop-expected [] PrevState.none = refl
loop-expected [] PrevState.level_sep = refl
loop-expected [] PrevState.single_wildcard = refl
loop-expected [] PrevState.multi_wildcard = refl
loop-expected [] PrevState.other = refl
loop-expected (c ∷ cs) PrevState.none = ground (
  arith,
  loop-expected cs PrevState.single_wildcard,
  loop-expected cs PrevState.multi_wildcard,
  loop-expected cs PrevState.level_sep,
  loop-expected cs PrevState.other,
)
loop-expected (c ∷ cs) PrevState.level_sep = ground (
  arith,
  loop-expected cs PrevState.single_wildcard,
  loop-expected cs PrevState.multi_wildcard,
  loop-expected cs PrevState.level_sep,
  loop-expected cs PrevState.other,
)
loop-expected (c ∷ cs) PrevState.single_wildcard =
    ground (arith, loop-expected cs PrevState.level_sep)
loop-expected (c ∷ cs) PrevState.multi_wildcard = ground arith
loop-expected (c ∷ cs) PrevState.other =
    ground (arith, loop-expected cs PrevState.level_sep, loop-expected cs PrevState.other)

-- The two checks of `TopicFilter::is_valid`, on the levels from `idx` on of a filter of `len`.
abbrev levels_valid : ℕ → ℕ → TopicFilter → Bool
levels_valid len idx ls =
    not (any (λ level. not (level_is_valid level)) ls) && not (any_bad_position len idx ls)

abbrev accepts : ℕ → ℕ → Result TopicFilterError TopicFilter → Bool
accepts len idx (ok ls) = levels_valid len idx ls
accepts len idx (err e) = false
accepts len idx panic = false

-- One part against what `parse_level` and the two checks make of it.
abbrev part_valid : ℕ → ℕ → List ℕ → Bool
part_valid len idx p =
    if bytes_eq p (b'#' ∷ []) then idx == len - 1 else bytes_eq p (b'+' ∷ []) || clean p

abbrev level_accepted : ℕ → ℕ → Result TopicFilterError TopicFilterLevel → Bool
level_accepted len idx (ok l) = level_is_valid l && not (bad_position len idx l)
level_accepted len idx (err e) = false
level_accepted len idx panic = false

level_accepted-parse_level :
    (len idx : ℕ) (p : List ℕ) → level_accepted len idx (parse_level idx p) ≡ part_valid len idx p
unfolding parse_level is_wildcard_char bad_position level_is_valid
level_accepted-parse_level len idx [] = refl
level_accepted-parse_level len idx (c ∷ []) = ground arith
level_accepted-parse_level len idx (c ∷ d ∷ r) = ground arith

accepts-and_then :
    (len idx : ℕ) (r : Result TopicFilterError TopicFilterLevel)
    (rs : Result TopicFilterError TopicFilter)
    → accepts len idx (and_then r λ l. and_then rs λ ls. ok (l ∷ ls))
      ≡ (level_accepted len idx r && accepts len (idx + 1) rs)
unfolding any_bad_position
accepts-and_then len idx (ok l) (ok ls) = ground arith
accepts-and_then len idx (ok l) (err e) = ground arith
accepts-and_then len idx (ok l) panic = ground arith
accepts-and_then len idx (err e) rs = refl
accepts-and_then len idx panic rs = refl

parts_valid-cons :
    (len idx : ℕ) (p : List ℕ) (ps : List (List ℕ))
    → len ≡ idx + length (p ∷ ps)
    → (part_valid len idx p && parts_valid ps) ≡ parts_valid (p ∷ ps)
parts_valid-cons len idx p [] h = ground arith
parts_valid-cons len idx p (q ∷ ps) h = ground arith

accepts-parse_levels :
    (len idx : ℕ) (ps : List (List ℕ))
    → len ≡ idx + length ps
    → accepts len idx (parse_levels idx ps) ≡ parts_valid ps
unfolding parse_levels
accepts-parse_levels len idx [] h = unfold any_bad_position in refl
accepts-parse_levels len idx (p ∷ ps) h =
    accepts-and_then len idx (parse_level idx p) (parse_levels (idx + 1) ps)
    ∙ rw (level_accepted-parse_level len idx p)
        (rw (accepts-parse_levels len (idx + 1) ps (omega arith)) (parts_valid-cons len idx p ps h))

length-parse_levels :
    (idx : ℕ) (ps : List (List ℕ)) {ls : TopicFilter}
    → parse_levels idx ps ≡ ok ls
    → length ls ≡ length ps
unfolding parse_levels
length-parse_levels idx [] h = ground arith
length-parse_levels idx (p ∷ ps) h =
    let (l, el, h') = and_then-eq-ok (parse_level idx p) _ h in
    let (ls, els, e) = and_then-eq-ok (parse_levels (idx + 1) ps) _ h' in
    ground (arith, length-parse_levels (idx + 1) ps els)

is_ok-from_levels : (ls : TopicFilter) → is_ok (from_levels ls) ≡ levels_valid (length ls) 0 ls
unfolding from_levels filter_is_valid
is_ok-from_levels ls = ground arith

is_ok-and_then-from_levels :
    (len : ℕ) (r : Result TopicFilterError TopicFilter)
    → ((ls : TopicFilter) → r ≡ ok ls → length ls ≡ len)
    → is_ok (and_then r from_levels) ≡ accepts len 0 r
is_ok-and_then-from_levels len (ok ls) h = rw (← h ls refl) (is_ok-from_levels ls)
is_ok-and_then-from_levels len (err e) h = refl
is_ok-and_then-from_levels len panic h = refl

-- `is_valid`, the automaton with which the dispatchers check the filters of a SUBSCRIBE or an
-- UNSUBSCRIBE packet, answers true on exactly those strings that `TopicFilter`'s parser accepts.
pub is_valid-parse : (s : List ℕ) → is_valid s ≡ is_ok (parse s)
unfolding is_valid parse split expected
is_valid-parse [] = refl
is_valid-parse (c ∷ cs) =
    loop-expected (c ∷ cs) PrevState.none
    ∙ sym (
        is_ok-and_then-from_levels (length ps) (parse_levels 0 ps) (λ ls. length-parse_levels 0 ps)
        ∙ accepts-parse_levels (length ps) 0 ps (omega arith))
  where
    ps : List (List ℕ)
    ps = split (c ∷ cs)
