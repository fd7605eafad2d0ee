-- ===== src/Pattern/Item.antt =====
-- pattern.go: reading the pattern and the subject, and the single items of a pattern.
use lunar.Base.{
  ℕ, zero, suc, ◌+◌, ◌-◌, Bool, true, false, not, ◌&&◌, List, leb, ltb, ◌==◌, if◌then◌else◌, length,
  get_or,
}
use lunar.Pattern.Class.{match_pattern_class}

-- The messages of `fail`. The last is no message of the source: a loop of the model ran out of rounds.
pub data Failure : Type 0 where
  pattern_too_complex missing_frontier_class too_many_captures invalid_pattern_capture : Failure
  invalid_capture_index unbalanced_pattern ends_in_escape missing_bracket : Failure
  unfinished_capture out_of_rounds : Failure

-- An offset, or the failure that `fail` is called with.
pub data End : Type 0 where
  end_at : ℕ → End
  broken : Failure → End

abbrev pub escape : ℕ
escape = b'%'

-- `patternAt` and `sourceAt`: 0 past the end.
abbrev pub byte_at : List ℕ → ℕ → ℕ
byte_at text index = get_or text index 0

-- `sourceAt(s - 1)`, which is 0 before the first byte.
abbrev pub byte_before : List ℕ → ℕ → ℕ
byte_before text zero = 0
byte_before text (suc index) = byte_at text index

module _ (pattern : List ℕ) where
  -- Past one element of a set, whose first byte stands at `p`: an escape takes the next byte along.
  abbrev pub past_element : ℕ → ℕ
  past_element p =
      if byte_at pattern p == escape && not (byte_at pattern (p + 1) == 0) then p + 2 else p + 1

  -- The loop over a set: the rounds left, and the offset of the next element.
  unfoldable pub set_end : ℕ → ℕ → End
  set_end zero p = broken out_of_rounds
  set_end (suc rounds) p =
      let rest = set_end rounds (past_element p) in
      if byte_at pattern p == 0
      then broken missing_bracket
      else if byte_at pattern (past_element p) == b']'
      then end_at (past_element p + 1)
      else rest

  unfoldable pub class_end : ℕ → End
  unfolding set_end
  class_end p =
      if byte_at pattern p == escape
      then (if byte_at pattern (p + 1) == 0 then broken ends_in_escape else end_at (p + 2))
      else if byte_at pattern p == b'['
      then set_end (length pattern + 1) (if byte_at pattern (p + 1) == b'^' then p + 2 else p + 1)
      else end_at (p + 1)

  -- The loop of `matchBracketClass` from `p` up to `last`, the offset of the closing bracket: the
  -- rounds left, the byte, and the answer for a byte that the set names.
  unfoldable pub bracket_scan : ℕ → ℕ → Bool → ℕ → ℕ → Bool
  bracket_scan zero c sign p last = not sign
  bracket_scan (suc rounds) c sign p last =
      let past_escape = bracket_scan rounds c sign (p + 2) last in
      let past_range = bracket_scan rounds c sign (p + 3) last in
      let past_byte = bracket_scan rounds c sign (p + 1) last in
      if leb last p
      then not sign
      else if byte_at pattern p == escape
      then (if match_pattern_class c (byte_at pattern (p + 1)) then sign else past_escape)
      else if byte_at pattern (p + 1) == b'-' && ltb (p + 2) last
      then (if leb (byte_at pattern p) c && leb c (byte_at pattern (p + 2))
          then sign
          else past_range)
      else if byte_at pattern p == c
      then sign
      else past_byte

  unfoldable pub match_bracket_class : ℕ → ℕ → ℕ → Bool
  unfolding bracket_scan match_pattern_class
  match_bracket_class c p last =
      if byte_at pattern (p + 1) == b'^'
      then bracket_scan last c false (p + 2) last
      else bracket_scan last c true (p + 1) last

  unfoldable pub single_match : ℕ → ℕ → ℕ → Bool
  unfolding match_bracket_class match_pattern_class
  single_match c p end =
      if byte_at pattern p == b'.'
      then true
      else if byte_at pattern p == escape
      then match_pattern_class c (byte_at pattern (p + 1))
      else if byte_at pattern p == b'['
      then match_bracket_class c p (end - 1)
      else byte_at pattern p == c
