-- ===== src/Pattern/Invariant.antt =====
-- The states that the matcher works on, and what a run from one of them may give.
use lunar.Base.{
  ℕ, ◌+◌, ◌≤◌, ◌<◌, ◌≡◌, refl, sym, ap, ◌∙◌, Bool, true, false, Option, none, some, length, arith,
}
use lunar.Pattern.Item.{Failure, out_of_rounds}
use lunar.Pattern.Matcher.{
  Extent, closed, position, unfinished, Capture, MatchState, at, no_match, failed, Run, fail,
  or_else, capture_at, first_failure, max_pattern_captures,
}
use mathlib.Core.Path.{subst}

-- The text of a closed capture ends at or before the offset.
abbrev pub ExtentWithin : ℕ → ℕ → Extent → Type 0
ExtentWithin s init (closed n) = init + n ≤ s
ExtentWithin s init position = Unit
ExtentWithin s init unfinished = Unit

abbrev pub CaptureWithin : ℕ → Capture → Type 0
CaptureWithin s c = (c.init ≤ s) × ExtentWithin s c.init c.extent

-- Nothing failed yet, there is room for every level, and the captures lie before the offset.
abbrev pub IsValid : ℕ → MatchState → Type 0
IsValid s st =
    (st.level ≤ max_pattern_captures)
    × (length st.captures ≡ max_pattern_captures)
    × (st.failure ≡ none)
    × ((i : ℕ) → i < st.level → CaptureWithin s (capture_at st i))

-- What backtracking leaves: the level, and the captures below it.
abbrev pub Restores : MatchState → MatchState → Type 0
Restores st after =
    (after.level ≡ st.level)
    × (length after.captures ≡ length st.captures)
    × (after.failure ≡ st.failure)
    × ((i : ℕ) → i < st.level → capture_at after i ≡ capture_at st i)

-- A failure that the source raises, and not the end of the model's rounds.
abbrev pub is_raised : Failure → Bool
is_raised out_of_rounds = false
is_raised _ = true

abbrev pub has_reason : Option Failure → Bool
has_reason none = false
has_reason (some f) = is_raised f

-- The outcomes allowed of a run from `s` with `st` on a subject of `size` bytes: an end that is not
-- before `s` nor past the subject, with captures that end there at the latest; no match, with the
-- state of before; or a failure that the source raises.
abbrev pub IsAllowed : ℕ → ℕ → MatchState → Run → Type 0
IsAllowed size s st (at e, after) = (s ≤ e) × (e ≤ size) × IsValid e after
IsAllowed size s st (no_match, after) = Restores st after
IsAllowed size s st (failed, after) = has_reason after.failure ≡ true

-- A matcher at one pattern offset.
abbrev pub Meets : ℕ → (ℕ → MatchState → Run) → Type 0
Meets size step =
    (s : ℕ) (st : MatchState) → s ≤ size → IsValid s st → IsAllowed size s st (step s st)

pub ExtentWithin-later :
    (s t init : ℕ) (x : Extent) → s ≤ t → ExtentWithin s init x → ExtentWithin t init x
ExtentWithin-later s t init (closed n) le h = omega arith
ExtentWithin-later s t init position le h = h
ExtentWithin-later s t init unfinished le h = h

pub IsValid-later : (s t : ℕ) (st : MatchState) → s ≤ t → IsValid s st → IsValid t st
IsValid-later s t st le (level, room, fine, within) = (
  level,
  room,
  fine,
  λ i lt.
      let (start, extent) = within i lt in
      (
        omega arith,
        ExtentWithin-later s t (capture_at st i).init (capture_at st i).extent le extent,
      ),
)

pub IsValid-restored :
    (s : ℕ) (st after : MatchState) → Restores st after → IsValid s st → IsValid s after
IsValid-restored s st after (same, len, fail', captures) (level, room, fine, within) = (
  omega arith,
  len ∙ room,
  fail' ∙ fine,
  λ i lt. subst (CaptureWithin s) (sym (captures i (omega arith))) (within i (omega arith)),
)

pub Restores-refl : (st : MatchState) → Restores st st
Restores-refl st = (refl, refl, refl, λ i lt. refl)

pub Restores-trans :
    (st mid after : MatchState) → Restores st mid → Restores mid after → Restores st after
Restores-trans st mid after (l1, n1, f1, c1) (l2, n2, f2, c2) =
    (l2 ∙ l1, n2 ∙ n1, f2 ∙ f1, λ i lt. c2 i (omega arith) ∙ c1 i lt)

-- A run from a later offset and a restored state.
pub IsAllowed-from :
    (size s t : ℕ) (st mid : MatchState) (r : Run)
    → s ≤ t
    → Restores st mid
    → IsAllowed size t mid r
    → IsAllowed size s st r
IsAllowed-from size s t st mid (at e, after) le back (from, to, valid) = (omega arith, to, valid)
IsAllowed-from size s t st mid (no_match, after) le back h = Restores-trans st mid after back h
IsAllowed-from size s t st mid (failed, after) le back h = h

pub IsAllowed-later :
    (size s t : ℕ) (st : MatchState) (r : Run)
    → s ≤ t
    → IsAllowed size t st r
    → IsAllowed size s st r
IsAllowed-later size s t st r le h = IsAllowed-from size s t st st r le (Restores-refl st) h

pub or_else-IsAllowed :
    (size s : ℕ) (st : MatchState) (r : Run) (k : MatchState → Run)
    → IsAllowed size s st r
    → ((after : MatchState) → Restores st after → IsAllowed size s st (k after))
    → IsAllowed size s st (or_else r k)
or_else-IsAllowed size s st (at e, after) k h rest = h
or_else-IsAllowed size s st (no_match, after) k h rest = rest after h
or_else-IsAllowed size s st (failed, after) k h rest = h

pub fail-IsAllowed :
    (size s : ℕ) (st : MatchState) (f : Failure)
    → IsValid s st
    → is_raised f ≡ true
    → IsAllowed size s st (fail f st)
fail-IsAllowed size s st f (level, room, fine, within) raised =
    ap (λ (o : Option Failure). is_raised (first_failure o f)) fine ∙ raised
