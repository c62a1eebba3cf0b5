-- ===== src/Topic/Tests.antt =====
-- The tests of src/topic.rs, and the theorems at concrete filters and topics.
use mathlib.Core.Logic.{◌↔◌}
use ntex_mqtt.Base.{ℕ, ◌≡◌, refl, true, false, ◌&&◌, List, [], ◌∷◌, ok, err, is_ok}
use ntex_mqtt.Topic.{
  is_valid, is_valid_loop, next_state, TopicFilter, invalid_level, normal, system, single_wildcard,
  multi_wildcard, is_system, parse, parse_levels, parse_level, split, from_levels, filter_is_valid,
  any_bad_position, bad_position, level_is_valid, is_wildcard_char, display, display_loop,
  level_bytes, matches_topic, matches_filter, match_topic, match_filter_level, match_name_level,
}
use ntex_mqtt.Topic.RoundTrip.{display-parse, parse-display}
use ntex_mqtt.Topic.Matching.{Matches, starts_with_wildcard, matches_topic-Matches}
use ntex_mqtt.Topic.Subsumption.{matches_filter-matches_topic}
use ntex_mqtt.Topic.Validity.{is_valid-parse}

-- `+/a/#`, `a/b`, `$S`.
abbrev filter_text : List ℕ
filter_text = b'+' ∷ b'/' ∷ b'a' ∷ b'/' ∷ b'#' ∷ []

abbrev filter : TopicFilter
filter = single_wildcard ∷ normal (b'a' ∷ []) ∷ multi_wildcard ∷ []

abbrev topic : List ℕ
topic = b'b' ∷ b'/' ∷ b'a' ∷ []

abbrev sys_name : List ℕ
sys_name = b'$' ∷ b'S' ∷ []

filter_parses : parse filter_text ≡ ok filter
unfolding parse split parse_levels parse_level from_levels filter_is_valid any_bad_position
    bad_position level_is_valid
filter_parses = refl

-- `a/#/`, `a+`.
hash_not_last : is_valid (b'a' ∷ b'/' ∷ b'#' ∷ b'/' ∷ []) ≡ false
unfolding is_valid is_valid_loop next_state
hash_not_last = refl

plus_in_level : parse (b'a' ∷ b'+' ∷ []) ≡ err invalid_level
unfolding parse split parse_levels parse_level
plus_in_level = refl

topic_matches : matches_topic filter topic ≡ true
unfolding matches_topic match_topic match_name_level split is_system
topic_matches = refl

is_valid-parse_example : is_valid filter_text ≡ is_ok (parse filter_text)
is_valid-parse_example = is_valid-parse filter_text

display-parse_example : display filter ≡ ok filter_text
display-parse_example = display-parse filter_text filter_parses

parse-display_example : parse filter_text ≡ ok filter
unfolding filter_is_valid any_bad_position bad_position level_is_valid is_wildcard_char display
    display_loop level_bytes
parse-display_example =
    parse-display single_wildcard (normal (b'a' ∷ []) ∷ multi_wildcard ∷ []) refl refl (λ e. cc)
      refl

matches_topic-Matches_example :
    (matches_topic filter topic ≡ true)
    ↔ (Matches filter (split topic) × ((starts_with_wildcard filter && is_system topic) ≡ false))
unfolding filter_is_valid any_bad_position bad_position level_is_valid is_wildcard_char
matches_topic-Matches_example = matches_topic-Matches filter topic refl

matches_filter-matches_topic_example : matches_topic (multi_wildcard ∷ []) topic ≡ true
unfolding is_system matches_filter match_topic match_filter_level matches_topic match_name_level
    split
matches_filter-matches_topic_example =
    matches_filter-matches_topic (multi_wildcard ∷ []) filter topic refl refl

-- `#` covers a system filter and misses the name that it matches.
hash_covers_system :
    (matches_filter (multi_wildcard ∷ []) (system sys_name ∷ []) ≡ true)
    × (matches_topic (system sys_name ∷ []) sys_name ≡ true)
    × (matches_topic (multi_wildcard ∷ []) sys_name ≡ false)
unfolding is_system matches_filter match_topic match_filter_level matches_topic match_name_level
    split
hash_covers_system = (refl, refl, refl)
