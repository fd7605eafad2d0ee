-- ===== src/Pattern/Tests.antt =====
-- Runs of the matcher.
use lunar.Base.{
  All, not, true, ◌==◌, ◌-◌, arith, length, ◌≢◌, ℕ, ◌≡◌, refl, List, [], ◌∷◌, some, false,
}
use lunar.Pattern.Search.{search_from, reset, zero_state, capture_value, text, panicked}
use lunar.Pattern.Invariant.{IsValid, IsAllowed}
use lunar.Pattern.Bounds.{match-IsAllowed}
use lunar.Pattern.Found.{IsSearched, search_from-IsSearched, capture_value-within}
use lunar.Pattern.Matcher.{
  MatchState, match, match_from, match_round, start_capture, match_escape, match_item,
  match_quantified, max_expand, end_capture, capture_to_close,
}
use lunar.Pattern.Class.{is_pattern_digit, match_pattern_class}
use lunar.Pattern.Ranges.{in_ranges, ascii_classes, is_no_class, match_pattern_class-in_ranges}
use lunar.Pattern.Item.{class_end, single_match}

abbrev subject : List ℕ
subject = b'k' ∷ b'e' ∷ b'y' ∷ b'=' ∷ b'4' ∷ b'2' ∷ []

-- `(%a+)=(%d*)`.
abbrev pairs : List ℕ
pairs = b'(' ∷ b'%' ∷ b'a' ∷ b'+' ∷ b')' ∷ b'=' ∷ b'(' ∷ b'%' ∷ b'd' ∷ b'*' ∷ b')' ∷ []

found : (search_from subject pairs 0 false (reset zero_state)).0 ≡ some (0, 6)
unfolding search_from match match_from match_round start_capture match_escape is_pattern_digit
    match_item class_end match_quantified single_match max_expand end_capture capture_to_close
found = refl

value :
    capture_value subject (search_from subject pairs 0 false (reset zero_state)).1 1 0 6
    ≡ text (b'4' ∷ b'2' ∷ [])
unfolding search_from match match_from match_round start_capture match_escape is_pattern_digit
    match_item class_end match_quantified single_match max_expand end_capture capture_to_close
    capture_value
value = refl

zero_state-IsValid : IsValid 0 zero_state
zero_state-IsValid = (omega arith, refl, refl, λ i lt. absurd (omega arith))

match-IsAllowed_example :
    IsAllowed (length subject) 0 zero_state (match subject pairs 100 0 0 zero_state)
match-IsAllowed_example =
    match-IsAllowed subject pairs 100 0 0 zero_state (omega arith) zero_state-IsValid

search_from-IsSearched_example :
    IsSearched subject pairs 0 false (search_from subject pairs 0 false (reset zero_state))
search_from-IsSearched_example =
    search_from-IsSearched subject pairs 0 false (reset zero_state) (omega arith) (refl, refl)

abbrev after : MatchState
after = (search_from subject pairs 0 false (reset zero_state)).1

found_after : search_from subject pairs 0 false (reset zero_state) ≡ (some (0, 6), after)
unfolding search_from match match_from match_round start_capture match_escape is_pattern_digit
    match_item class_end match_quantified single_match max_expand end_capture capture_to_close
found_after = refl

capture_value-within_example : capture_value subject after 1 0 6 ≢ panicked
capture_value-within_example =
    capture_value-within subject pairs 0 false (reset zero_state) after 0 6 1 (omega arith)
      (refl, refl) found_after

match_pattern_class-in_ranges_example :
    All
      (λ (letter, ranges).
        (match_pattern_class b'A' letter ≡ in_ranges ranges b'A')
        × (match_pattern_class b'A' (letter - 32) ≡ not (in_ranges ranges b'A')))
      ascii_classes
    × (is_no_class b'%' ascii_classes ≡ true → match_pattern_class b'A' b'%' ≡ (b'%' == b'A'))
match_pattern_class-in_ranges_example =
    match_pattern_class-in_ranges b'A' b'%' (omega arith) (omega arith)
