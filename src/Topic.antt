-- ===== src/Topic.antt =====
-- Topic names and topic filters (src/topic.rs).
-- A string is the list of its UTF-8 bytes: every character that the code looks for (`/`, `+`,
-- `#`, `$`) is one byte there. A `TopicFilter` is its vector of levels.
pub mod Split
pub mod Validity
pub mod RoundTrip
pub mod Matching
pub mod Subsumption
mod Tests
use mathlib.Core.Option
use mathlib.Core.Option.{Option, some}
use ntex_mqtt.Base.{
  ℕ, ◌+◌, ◌-◌, Bool, true, false, not, ◌&&◌, ◌||◌, List, [], ◌∷◌, ◌++◌, ◌==◌, if◌then◌else◌, length,
  any, bytes_eq, is_empty, Result, ok, err, panic, and_then,
}

pub data PrevState : Type 0 where
  none level_sep single_wildcard multi_wildcard other : PrevState

abbrev pub at_level_start : PrevState → Bool
at_level_start none = true
at_level_start level_sep = true
at_level_start _ = false

abbrev is_multi : PrevState → Bool
is_multi multi_wildcard = true
is_multi _ = false

abbrev is_single : PrevState → Bool
is_single single_wildcard = true
is_single _ = false

-- The arms of the `match (current, &previous)` in `is_valid`, in their order.
pub next_state : ℕ → PrevState → Option PrevState
next_state current previous =
    if is_multi previous
    then Option.none
    else if current == b'+' && at_level_start previous
    then some single_wildcard
    else if current == b'#' && at_level_start previous
    then some multi_wildcard
    else if current == b'+' || current == b'#'
    then Option.none
    else if current == b'/'
    then some level_sep
    else if is_single previous
    then Option.none
    else some other

pub is_valid_loop : List ℕ → PrevState → Bool
is_valid_loop [] previous = true
is_valid_loop (current ∷ rest) previous = elim (next_state current previous) [
  | Option.none ↦ false
  | Option.some state ↦ is_valid_loop rest state
]

-- `is_valid`, the check that the dispatchers make on incoming SUBSCRIBE and UNSUBSCRIBE packets.
pub is_valid : List ℕ → Bool
is_valid topic = if is_empty topic then false else is_valid_loop topic none

pub data TopicFilterError : Type 0 where
  invalid_topic invalid_level : TopicFilterError

pub data TopicFilterLevel : Type 0 where
  normal system : List ℕ → TopicFilterLevel
  blank single_wildcard multi_wildcard : TopicFilterLevel

abbrev pub TopicFilter : Type 0
TopicFilter = List TopicFilterLevel

-- `starts_with('$')`.
pub is_system : List ℕ → Bool
is_system [] = false
is_system (c ∷ cs) = c == b'$'

pub is_wildcard_char : ℕ → Bool
is_wildcard_char c = c == b'+' || c == b'#'

pub level_is_valid : TopicFilterLevel → Bool
level_is_valid (normal s) = not (any is_wildcard_char s)
level_is_valid (system s) = not (any is_wildcard_char s)
level_is_valid _ = true

-- The closure of the second `position` in `TopicFilter::is_valid`, for a vector of `len` levels.
pub bad_position : ℕ → ℕ → TopicFilterLevel → Bool
bad_position len pos multi_wildcard = not (pos == len - 1)
bad_position len pos (system s) = not (pos == 0)
bad_position len pos _ = false

pub any_bad_position : ℕ → ℕ → TopicFilter → Bool
any_bad_position len pos [] = false
any_bad_position len pos (level ∷ rest) =
    bad_position len pos level || any_bad_position len (pos + 1) rest

pub filter_is_valid : TopicFilter → Bool
filter_is_valid levels =
    not (any (λ level. not (level_is_valid level)) levels)
    && not (any_bad_position (length levels) 0 levels)

-- `TryFrom<Vec<TopicFilterLevel>>`.
pub from_levels : TopicFilter → Result TopicFilterError TopicFilter
from_levels v = if filter_is_valid v then ok v else err invalid_topic

-- `str::split` by one character: the first part, and the parts behind it.
pub split_first : List ℕ → List ℕ × List (List ℕ)
split_first [] = ([], [])
split_first (c ∷ cs) =
    let (first, rest) = split_first cs in
    if c == b'/' then ([], first ∷ rest) else (c ∷ first, rest)

pub split : List ℕ → List (List ℕ)
unfolding split_first
split s = (split_first s).0 ∷ (split_first s).1

-- The closure that `TryFrom<ByteString>` maps over the enumerated parts.
pub parse_level : ℕ → List ℕ → Result TopicFilterError TopicFilterLevel
unfolding is_wildcard_char is_system
parse_level idx level =
    if bytes_eq level (b'+' ∷ [])
    then ok single_wildcard
    else if bytes_eq level (b'#' ∷ [])
    then ok multi_wildcard
    else if is_empty level
    then ok blank
    else if any is_wildcard_char level
    then err invalid_level
    else if idx == 0 && is_system level
    then ok (system level)
    else ok (normal level)

-- `collect` stops at the first error.
pub parse_levels : ℕ → List (List ℕ) → Result TopicFilterError TopicFilter
parse_levels idx [] = ok []
parse_levels idx (level ∷ rest) =
    and_then (parse_level idx level) λ l. and_then (parse_levels (idx + 1) rest) λ ls. ok (l ∷ ls)

-- `TryFrom<ByteString>`, and so `FromStr`.
pub parse : List ℕ → Result TopicFilterError TopicFilter
parse value =
    if is_empty value
    then err invalid_topic
    else and_then (parse_levels 0 (split value)) from_levels

-- `Display`. The first `unwrap` panics on a filter with no level.
pub level_bytes : TopicFilterLevel → List ℕ
level_bytes (normal s) = s
level_bytes (system s) = s
level_bytes blank = []
level_bytes single_wildcard = b'+' ∷ []
level_bytes multi_wildcard = b'#' ∷ []

pub display_loop : TopicFilterLevel → TopicFilter → List ℕ
display_loop level [] = level_bytes level
display_loop level (next ∷ rest) = level_bytes level ++ (b'/' ∷ display_loop next rest)

pub display : TopicFilter → Result TopicFilterError (List ℕ)
display [] = panic
display (level ∷ rest) = ok (display_loop level rest)

-- `match_topic`: `match_level t level index` is the trait's method, `superset` what is left of the
-- superset's iterator.
pub match_topic {ℓ} :
    {T : Type ℓ} → (T → TopicFilterLevel → ℕ → Bool) → TopicFilter → List T → ℕ → Bool
match_topic match_level [] [] index = true
match_topic match_level (multi_wildcard ∷ rest) [] index = true
match_topic match_level (level ∷ rest) [] index = false
match_topic match_level [] (t ∷ ts) index = false
match_topic match_level (multi_wildcard ∷ rest) (t ∷ ts) index = match_level t multi_wildcard index
match_topic match_level (level ∷ rest) (t ∷ ts) index =
    if match_level t level index then match_topic match_level rest ts (index + 1) else false

-- `match_level_impl`, for a filter's level.
pub match_filter_level : TopicFilterLevel → TopicFilterLevel → ℕ → Bool
match_filter_level (normal lhs) (normal rhs) index = bytes_eq lhs rhs
match_filter_level _ (normal rhs) index = false
match_filter_level (system lhs) (system rhs) index = bytes_eq lhs rhs
match_filter_level _ (system rhs) index = false
match_filter_level blank blank index = true
match_filter_level _ blank index = false
match_filter_level multi_wildcard single_wildcard index = false
match_filter_level _ single_wildcard index = true
match_filter_level _ multi_wildcard index = true

-- `MatchLevel for T: AsRef<str>`, for a topic's level.
pub match_name_level : List ℕ → TopicFilterLevel → ℕ → Bool
match_name_level s (normal lhs) index = bytes_eq lhs s
match_name_level s (system lhs) index = is_system s && bytes_eq lhs s
match_name_level s blank index = is_empty s
match_name_level s single_wildcard index = not (index == 0 && is_system s)
match_name_level s multi_wildcard index = not (index == 0 && is_system s)

pub matches_filter : TopicFilter → TopicFilter → Bool
matches_filter superset topic = match_topic match_filter_level superset topic 0

pub matches_topic : TopicFilter → List ℕ → Bool
matches_topic superset topic = match_topic match_name_level superset (split topic) 0
