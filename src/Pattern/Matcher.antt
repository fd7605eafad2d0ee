-- ===== src/Pattern/Matcher.antt =====
-- pattern.go: the matcher. `depth`, which the source counts up to 8192 in the state, is the number of
-- levels left: a recursive call goes through the matcher of one level less. The tail calls that the
-- source writes as loop iterations go through `loop`, the same loop with one round less.
use lunar.Base.{
  ℕ, zero, suc, ◌+◌, ◌-◌, Bool, true, false, not, ◌&&◌, ◌||◌, Option, none, some, List, leb, ltb,
  ◌==◌, if◌then◌else◌, length, get_or, set,
}
use lunar.Pattern.Class.{is_pattern_digit}
use lunar.Pattern.Item.{
  Failure, pattern_too_complex, missing_frontier_class, too_many_captures, invalid_pattern_capture,
  invalid_capture_index, unbalanced_pattern, out_of_rounds, end_at, broken, escape, byte_at,
  byte_before, class_end, match_bracket_class, single_match,
}

abbrev pub max_pattern_captures : ℕ
max_pattern_captures = 32

abbrev pub max_pattern_depth : ℕ
max_pattern_depth = 8192

-- `capturePosition` and `captureUnfinished` are lengths of their own.
pub data Extent : Type 0 where
  closed : ℕ → Extent
  position unfinished : Extent

pub record Capture : Type 0 where
  pub init : ℕ
  pub extent : Extent

pub record MatchState : Type 0 where
  pub level : ℕ
  pub failure : Option Failure
  pub captures : List Capture

-- A subject offset, matchNoMatch or matchFailed.
pub data Outcome : Type 0 where
  at : ℕ → Outcome
  no_match failed : Outcome

abbrev pub Run : Type 0
Run = Outcome × MatchState

-- From a subject offset and a pattern offset.
abbrev pub Matcher : Type 0
Matcher = ℕ → ℕ → MatchState → Run

abbrev pub no_capture : Capture
no_capture = record { init = 0; extent = closed 0 }

abbrev pub capture_at : MatchState → ℕ → Capture
capture_at st index = get_or st.captures index no_capture

abbrev pub first_failure : Option Failure → Failure → Failure
first_failure none f = f
first_failure (some earlier) f = earlier

-- Only the first failure is kept.
abbrev pub fail : Failure → MatchState → Run
fail f st = (failed, record st { failure = some (first_failure st.failure f) })

-- `if result != matchNoMatch { return result }`, and otherwise on with the state that was left.
abbrev pub or_else : Run → (MatchState → Run) → Run
or_else (at e, st) k = (at e, st)
or_else (failed, st) k = (failed, st)
or_else (no_match, st) k = k st

abbrev pub set_extent : MatchState → ℕ → Extent → MatchState
set_extent st index e = record st {
  captures = set st.captures index (record { init = (capture_at st index).init; extent = e });
}

abbrev pub is_unfinished : Extent → Bool
is_unfinished unfinished = true
is_unfinished position = false
is_unfinished (closed n) = false

-- `captureToClose`: the highest unfinished level below the bound.
unfoldable pub capture_to_close : MatchState → ℕ → Option ℕ
capture_to_close st zero = none
capture_to_close st (suc level) =
    let below = capture_to_close st level in
    if is_unfinished (capture_at st level).extent then some level else below

-- `checkCapture`: the level of a digit from '1' on.
unfoldable pub check_capture : MatchState → ℕ → Option ℕ
check_capture st digit =
    if ltb digit b'1'
      || leb st.level (digit - b'1')
      || is_unfinished (capture_at st (digit - b'1')).extent
    then none
    else some (digit - b'1')

-- `state.level--` after a start that came to nothing.
abbrev pub forget_capture : Run → Run
forget_capture (no_match, st) = (no_match, record st { level = st.level - 1 })
forget_capture (at e, st) = (at e, st)
forget_capture (failed, st) = (failed, st)

-- The extent is unfinished again after an end that came to nothing.
abbrev pub reopen_capture : ℕ → Run → Run
reopen_capture level (no_match, st) = (no_match, set_extent st level unfinished)
reopen_capture level (at e, st) = (at e, st)
reopen_capture level (failed, st) = (failed, st)

module _ (source pattern : List ℕ) where
  -- `source[i:i+n] == source[j:j+n]`.
  unfoldable pub same_bytes : ℕ → ℕ → ℕ → Bool
  same_bytes zero i j = true
  same_bytes (suc n) i j = byte_at source i == byte_at source j && same_bytes n (i + 1) (j + 1)

  -- A back reference to a capture: the offset past it, or `none`. A position capture holds no text.
  abbrev pub reference_end : ℕ → ℕ → Extent → Option ℕ
  reference_end s init (closed n) =
      if leb n (length source - s) && same_bytes n init s then some (s + n) else none
  reference_end s init position = none
  reference_end s init unfinished = none

  -- The loop of `matchBalance`: the rounds left, the offset, and the nesting.
  unfoldable pub balance_end : ℕ → ℕ → ℕ → ℕ → ℕ → Option ℕ
  balance_end zero opening closing s nesting = none
  balance_end (suc rounds) opening closing s nesting =
      let up = balance_end rounds opening closing (s + 1) (nesting + 1) in
      let down = balance_end rounds opening closing (s + 1) (nesting - 1) in
      let on = balance_end rounds opening closing (s + 1) nesting in
      if leb (length source) s
      then none
      else if byte_at source s == closing
      then (if nesting == 1 then some (s + 1) else down)
      else if byte_at source s == opening
      then up
      else on

  -- The item at `p` matches the byte at `s`.
  abbrev pub item_matches : ℕ → ℕ → ℕ → Bool
  item_matches s p end = ltb s (length source) && single_match pattern (byte_at source s) p end

  -- The counting loop of `maxExpand`: the rounds left, and the count so far.
  unfoldable pub run_length : ℕ → ℕ → ℕ → ℕ → ℕ → ℕ
  run_length zero s p end count = count
  run_length (suc rounds) s p end count =
      let more = run_length rounds s p end (count + 1) in
      if item_matches (s + count) p end then more else count

  -- The loop of `maxExpand` that gives repetitions back, from `count` down to none.
  unfoldable pub give_back : Matcher → ℕ → ℕ → ℕ → MatchState → Run
  give_back next zero s end st = or_else (next s (end + 1) st) (λ st'. (no_match, st'))
  give_back next (suc count) s end st =
      or_else (next (s + suc count) (end + 1) st) (λ st'. give_back next count s end st')

  unfoldable pub max_expand : Matcher → ℕ → ℕ → ℕ → MatchState → Run
  unfolding run_length give_back
  max_expand next s p end st = give_back next (run_length (length source - s) s p end 0) s end st

  -- The loop of `minExpand`: the rounds left.
  unfoldable pub min_expand : Matcher → ℕ → ℕ → ℕ → ℕ → MatchState → Run
  min_expand next zero s p end st = fail out_of_rounds st
  min_expand next (suc rounds) s p end st = or_else (next s (end + 1) st) λ st'.
      (if item_matches s p end then min_expand next rounds (s + 1) p end st' else (no_match, st'))

  unfoldable pub start_capture : Matcher → ℕ → ℕ → Extent → MatchState → Run
  start_capture next s p what st =
      if leb max_pattern_captures st.level
      then fail too_many_captures st
      else forget_capture (
          next s p (record st {
            level = st.level + 1;
            captures = set st.captures st.level (record { init = s; extent = what });
          }))

  unfoldable pub end_capture : Matcher → ℕ → ℕ → MatchState → Run
  end_capture next s p st = elim (capture_to_close st st.level) [
    | none ↦ fail invalid_pattern_capture st
    | some level ↦
        reopen_capture level
          (next s p (set_extent st level (closed (s - (capture_at st level).init))))
  ]

  -- `%b`: the two bytes behind it, and the loop from behind the opening one.
  unfoldable pub match_balance : Matcher → ℕ → ℕ → MatchState → Run
  match_balance loop s p st =
      if byte_at pattern (p + 2) == 0 || byte_at pattern (p + 3) == 0
      then fail unbalanced_pattern st
      else if byte_at source s == byte_at pattern (p + 2)
      then elim (balance_end (length source - s) (byte_at pattern (p + 2)) (byte_at pattern (p + 3))
          (s + 1) 1) [ none ↦ (no_match, st) | some end ↦ loop end (p + 4) st ]
      else (no_match, st)

  -- `%f[set]`: the byte before is not in the set and the byte here is.
  unfoldable pub match_frontier : Matcher → ℕ → ℕ → MatchState → Run
  match_frontier loop s p st =
      if byte_at pattern (p + 2) == b'['
      then elim (class_end pattern (p + 2)) [
        | broken f ↦ fail f st
        | end_at end ↦
            (if match_bracket_class pattern (byte_before source s) (p + 2) (end - 1)
                || not (match_bracket_class pattern (byte_at source s) (p + 2) (end - 1))
              then (no_match, st)
              else loop s end st)
      ]
      else fail missing_frontier_class st

  -- `%1` to `%9`; `%0` is no capture.
  unfoldable pub match_capture : Matcher → ℕ → ℕ → MatchState → Run
  match_capture loop s p st = elim (check_capture st (byte_at pattern (p + 1))) [
    | none ↦ fail invalid_capture_index st
    | some level ↦ elim (reference_end s (capture_at st level).init (capture_at st level).extent) [
      | none ↦ (no_match, st)
      | some end ↦ loop end (p + 2) st
    ]
  ]

  -- A single item that ends at `end`, and the quantifier behind it.
  unfoldable pub match_quantified : Matcher → Matcher → ℕ → ℕ → ℕ → MatchState → Run
  match_quantified next loop s p end st =
      let quantifier = byte_at pattern end in
      if quantifier == b'?'
      then (if item_matches s p end
          then or_else (next (s + 1) (end + 1) st) (λ st'. loop s (end + 1) st')
          else loop s (end + 1) st)
      else if quantifier == b'*'
      then max_expand next s p end st
      else if quantifier == b'+'
      then (if item_matches s p end then max_expand next (s + 1) p end st else (no_match, st))
      else if quantifier == b'-'
      then min_expand next (length source - s + 1) s p end st
      else if item_matches s p end
      then loop (s + 1) end st
      else (no_match, st)

  unfoldable pub match_item : Matcher → Matcher → ℕ → ℕ → MatchState → Run
  match_item next loop s p st = elim (class_end pattern p) [
    | broken f ↦ fail f st
    | end_at end ↦ match_quantified next loop s p end st
  ]

  -- The `switch` on the byte behind an escape.
  unfoldable pub match_escape : Matcher → Matcher → ℕ → ℕ → MatchState → Run
  match_escape next loop s p st =
      if byte_at pattern (p + 1) == b'b'
      then match_balance loop s p st
      else if byte_at pattern (p + 1) == b'f'
      then match_frontier loop s p st
      else if is_pattern_digit (byte_at pattern (p + 1))
      then match_capture loop s p st
      else match_item next loop s p st

  -- One round of the loop of `matchFrom`.
  unfoldable pub match_round : Matcher → Matcher → Matcher
  match_round next loop s p st =
      if byte_at pattern p == b'('
      then (if byte_at pattern (p + 1) == b')'
          then start_capture next s (p + 2) position st
          else start_capture next s (p + 1) unfinished st)
      else if byte_at pattern p == b')'
      then end_capture next s (p + 1) st
      else if byte_at pattern p == 0
      then (at s, st)
      else if byte_at pattern p == b'$' && byte_at pattern (p + 1) == 0
      then (if s == length source then (at s, st) else (no_match, st))
      else if byte_at pattern p == escape
      then match_escape next loop s p st
      else match_item next loop s p st

  -- `matchFrom`: the calls that recurse go through `next`; the first number is the rounds left.
  unfoldable pub match_from : Matcher → ℕ → Matcher
  match_from next zero s p st = fail out_of_rounds st
  match_from next (suc rounds) s p st = match_round next (match_from next rounds) s p st

  -- `match`, with the levels that are left.
  unfoldable pub match : ℕ → Matcher
  match zero s p st = fail pattern_too_complex st
  match (suc levels) s p st = match_from (match levels) (length pattern + 1) s p st
