-- ===== src/Pattern/Search.antt =====
-- pattern.go: the search over start positions, and the results of a match. The thread is nil.
use lunar.Base.{
  ℕ, zero, suc, ◌+◌, ◌-◌, Bool, true, false, ◌&&◌, ◌||◌, Option, none, some, List, [], ◌∷◌, leb,
  ◌==◌, if◌then◌else◌, length, replicate,
}
use lunar.Pattern.Item.{Failure, invalid_capture_index, unfinished_capture, out_of_rounds}
use lunar.Pattern.Matcher.{
  Extent, closed, position, unfinished, MatchState, at, no_match, failed, Run, fail, capture_at,
  no_capture, match, max_pattern_captures, max_pattern_depth,
}

-- `reset`, which binds the source and the pattern too: level 0 and no failure; the captures stay.
abbrev pub reset : MatchState → MatchState
reset st = record st { level = 0; failure = none }

-- The zero value of a match state.
abbrev pub zero_state : MatchState
zero_state = record {
  level = 0;
  failure = none;
  captures = replicate max_pattern_captures no_capture;
}

-- The next start position of the same search.
abbrev pub restart : MatchState → MatchState
restart st = record st { level = 0 }

abbrev pub is_failed : MatchState → Bool
is_failed st = elim st.failure [ none ↦ false | some f ↦ true ]

-- The start and the end of a match.
abbrev pub Span : Type 0
Span = Option (ℕ × ℕ)

abbrev pub search_step : Run → ℕ → Bool → (MatchState → Span × MatchState) → Span × MatchState
search_step (at e, st) s last k = (some (s, e), st)
search_step (failed, st) s last k = (none, st)
search_step (no_match, st) s last k = if last then (none, st) else k st

module _ (source pattern : List ℕ) where
  -- The loop of `searchFrom`: the rounds left, and the start position.
  unfoldable pub search_loop : ℕ → ℕ → Bool → MatchState → Span × MatchState
  search_loop zero s anchored st = (none, (fail out_of_rounds st).1)
  search_loop (suc rounds) s anchored st =
      search_step (match source pattern max_pattern_depth s 0 (restart st)) s
        (anchored || leb (length source) s) (λ st'. search_loop rounds (s + 1) anchored st')

  unfoldable pub search_from : ℕ → Bool → MatchState → Span × MatchState
  unfolding search_loop
  search_from init anchored st = search_loop (length source - init + 1) init anchored st

abbrev pub pattern_anchor : List ℕ → List ℕ × Bool
pattern_anchor [] = ([], false)
pattern_anchor (c ∷ pattern) = if c == b'^' then (pattern, true) else (c ∷ pattern, false)

abbrev pub capture_count : MatchState → Bool → ℕ
capture_count st whole_match = if st.level == 0 && whole_match then 1 else st.level

abbrev drop : ℕ → List ℕ → List ℕ
drop zero xs = xs
drop (suc n) [] = []
drop (suc n) (x ∷ xs) = drop n xs

abbrev take : ℕ → List ℕ → List ℕ
take zero xs = []
take (suc n) [] = []
take (suc n) (x ∷ xs) = x ∷ take n xs

-- `source[s:e]`, which panics outside the string.
abbrev pub slice : List ℕ → ℕ → ℕ → Option (List ℕ)
slice source s e =
    if leb s e && leb e (length source) then some (take (e - s) (drop s source)) else none

-- What `captureValue` gives: a text, a one-based position, a failure, or the panic of a slice.
pub data CaptureValue : Type 0 where
  text : List ℕ → CaptureValue
  one_based : ℕ → CaptureValue
  rejected : Failure → CaptureValue
  panicked : CaptureValue

abbrev pub as_text : Option (List ℕ) → CaptureValue
as_text none = panicked
as_text (some bytes) = text bytes

abbrev pub extent_value : List ℕ → ℕ → Extent → CaptureValue
extent_value source init unfinished = rejected unfinished_capture
extent_value source init position = one_based (init + 1)
extent_value source init (closed n) = as_text (slice source init (init + n))

unfoldable pub capture_value : List ℕ → MatchState → ℕ → ℕ → ℕ → CaptureValue
capture_value source st index s e =
    if leb st.level index
    then (if index == 0 then as_text (slice source s e) else rejected invalid_capture_index)
    else extent_value source (capture_at st index).init (capture_at st index).extent

-- `strings.IndexByte(patternSpecials, c) >= 0`, for `^$*+?.([%-`.
abbrev is_special : ℕ → Bool
is_special c =
    c == b'^'
    || c == b'$'
    || c == b'*'
    || c == b'+'
    || c == b'?'
    || c == b'.'
    || c == b'('
    || c == b'['
    || c == b'%'
    || c == b'-'

unfoldable pub pattern_has_specials : List ℕ → Bool
pattern_has_specials [] = false
pattern_has_specials (c ∷ pattern) =
    let rest = pattern_has_specials pattern in
    if c == 0 then false else if is_special c then true else rest
