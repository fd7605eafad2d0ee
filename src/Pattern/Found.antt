-- ===== src/Pattern/Found.antt =====
-- The search: where it finds a match, what it has tried before, and what its captures hold.
use lunar.Base.{
  ℕ, zero, suc, ◌+◌, ◌-◌, ◌≤◌, ◌<◌, ◌≡◌, ◌≢◌, refl, sym, ap, ◌∙◌, ◌⊎◌, inl, inr, Bool, true, false,
  ◌||◌, none, some, List, length, arith, leb, ◌==◌, if-keeps, leb_false→lt,
}
use mathlib.Core.Path.{subst}
use native.Mathlib.Decide.{ℕ_discrete}
use lunar.Pattern.Matcher.{
  Extent, closed, position, unfinished, MatchState, at, no_match, failed, Run, capture_at, match,
  max_pattern_depth, max_pattern_captures,
}
use lunar.Pattern.Search.{
  Span, restart, search_step, search_loop, search_from, CaptureValue, panicked, capture_value,
  extent_value, slice, as_text,
}
use lunar.Pattern.Invariant.{ExtentWithin, IsValid, IsAllowed, has_reason}
use lunar.Pattern.Bounds.{match-Meets}

-- Nothing failed, and the capture array has its size; `reset` of the zero value is such a state.
abbrev pub IsReady : MatchState → Type 0
IsReady st = (length st.captures ≡ max_pattern_captures) × (st.failure ≡ none)

module _ (source pattern : List ℕ) where
  -- A start position at which the pattern does not match, on a state without captures.
  abbrev pub IsSkipped : ℕ → Type 0
  IsSkipped t =
      (st : MatchState) × (st.level ≡ 0)
      × IsReady st
      × ((match source pattern max_pattern_depth t 0 st).0 ≡ no_match)

  -- The matcher, called at the start position on a state without captures, ends at the end of the span
  -- and leaves this state.
  abbrev pub IsMatched : ℕ → ℕ → MatchState → Type 0
  IsMatched s e after =
      (st : MatchState) × (st.level ≡ 0)
      × IsReady st
      × (match source pattern max_pattern_depth s 0 st ≡ (at e, after))

  -- The matcher, called at the start position on a state without captures, fails and leaves this state
  -- with a failure that the source raises.
  abbrev pub IsFailed : ℕ → MatchState → Type 0
  IsFailed s after =
      (st : MatchState) × (st.level ≡ 0)
      × IsReady st
      × (match source pattern max_pattern_depth s 0 st ≡ (failed, after))
      × (has_reason after.failure ≡ true)

  -- The search came to this start position: it is in the subject, from `init` on, the only one of an
  -- anchored search, and no earlier one matches.
  abbrev pub IsTried : ℕ → Bool → ℕ → Type 0
  IsTried init anchored s =
      (init ≤ s)
      × (s ≤ length source)
      × ((anchored ≡ false) ⊎ (s ≡ init))
      × ((t : ℕ) → init ≤ t → t < s → IsSkipped t)

  -- A found span is the match at a start position that was tried, lies in the subject, and its captures
  -- end in it. Where nothing is found, the matcher failed at a start position that was tried, or no start
  -- position matches, of which an anchored search has only one.
  abbrev pub IsSearched : ℕ → Bool → Span × MatchState → Type 0
  IsSearched init anchored (some (s, e), st) =
      (s ≤ e) × (e ≤ length source) × IsMatched s e st × IsValid e st × IsTried init anchored s
  IsSearched init anchored (none, st) =
      ((s : ℕ) × IsFailed s st × IsTried init anchored s)
      ⊎ ((st.failure ≡ none)
          × ((t : ℕ)
              → init ≤ t
              → t ≤ length source
              → (anchored ≡ false) ⊎ (t ≡ init)
              → IsSkipped t))

  ready-IsValid : (s : ℕ) (st : MatchState) → IsReady st → IsValid s (restart st)
  ready-IsValid s st (room, fine) = (omega arith, room, fine, λ i lt. absurd (omega arith))

  first-IsTried : (s : ℕ) (anchored : Bool) → s ≤ length source → IsTried s anchored s
  first-IsTried s anchored le = (omega arith, le, inr refl, λ t low high. absurd (omega arith))

  step-IsSearched :
      (s : ℕ) (anchored : Bool) (st : MatchState) (r : Run) (k : MatchState → Span × MatchState)
      → s ≤ length source
      → IsReady st
      → r ≡ match source pattern max_pattern_depth s 0 (restart st)
      → IsAllowed (length source) s (restart st) r
      → ((after : MatchState)
          → IsReady after
          → s < length source
          → anchored ≡ false
          → IsSearched (s + 1) anchored (k after))
      → IsSearched s anchored (search_step r s (anchored || leb (length source) s) k)
  step-IsSearched s anchored st (at e, after) k le ready run (from, to, valid) more =
      (from, to, (restart st, refl, ready, sym run), valid, first-IsTried s anchored le)
  step-IsSearched s anchored st (failed, after) k le ready run reason more =
      inl (s, (restart st, refl, ready, sym run, reason), first-IsTried s anchored le)
  step-IsSearched s anchored st (no_match, after) k le (room, fine) run
        (level, len, fine', captures) more =
      if-keeps (IsSearched s anchored) (anchored || leb (length source) s)
        (λ last.
          inr (fine' ∙ fine, λ t low high only. skip t (omega (arith, same t low high only last))))
        λ e.
          extend (k after) (ground (arith, e))
            (more after (len ∙ room, fine' ∙ fine) (ground (arith, e)) (ground (arith, e)))
    where
      here : IsSkipped s
      here = (restart st, refl, (room, fine), ap (λ (x : Run). x.0) (sym run))

      skip : (t : ℕ) → t ≡ s → IsSkipped t
      skip t e = subst IsSkipped (sym e) here

      same :
          (t : ℕ)
          → s ≤ t
          → t ≤ length source
          → (anchored ≡ false) ⊎ (t ≡ s)
          → (anchored || leb (length source) s) ≡ true
          → t ≡ s
      same t low high only last = ground arith

      earlier : (t : ℕ) → s ≤ t → (s + 1 ≤ t → IsSkipped t) → IsSkipped t
      earlier t low rest = elim (ℕ_discrete t s) [
        | yes e ↦ skip t e
        | no differs ↦ rest (omega arith)
      ]

      tried_earlier : (a : ℕ) → anchored ≡ false → IsTried (s + 1) anchored a → IsTried s anchored a
      tried_earlier a free (low, high, start, skipped) =
          (omega arith, high, inl free, λ t from to. earlier t from (λ later. skipped t later to))

      extend :
          (r : Span × MatchState)
          → anchored ≡ false
          → IsSearched (s + 1) anchored r
          → IsSearched s anchored r
      extend (some (a, e), last) free (order, high, matched, valid, tried) =
          (order, high, matched, valid, tried_earlier a free tried)
      extend (none, last) free (inl (a, failure, tried)) =
          inl (a, failure, tried_earlier a free tried)
      extend (none, last) free (inr (quiet, skipped)) =
          inr (quiet, λ t from to only. earlier t from (λ later. skipped t later to (inl free)))

  loop-IsSearched :
      (rounds s : ℕ) (anchored : Bool) (st : MatchState)
      → length source < rounds + s
      → s ≤ length source
      → IsReady st
      → IsSearched s anchored (search_loop source pattern rounds s anchored st)
  unfolding search_loop
  loop-IsSearched zero s anchored st enough le ready = absurd (omega arith)
  loop-IsSearched (suc rounds) s anchored st enough le ready =
      step-IsSearched s anchored st (match source pattern max_pattern_depth s 0 (restart st))
        (λ st'. search_loop source pattern rounds (s + 1) anchored st') le ready refl
        (match-Meets source pattern max_pattern_depth 0 s (restart st) le
          (ready-IsValid s st ready))
        λ after ready' inside free.
          loop-IsSearched rounds (s + 1) anchored after (omega arith) (omega arith) ready'

-- A search from a start position in the subject, on a state without a failure and with its array of
-- captures, tries start positions in order, an anchored one only the first, and answers what comes
-- first. Either it finds a match: the matcher, called at the start of the span on a state without
-- captures, ends at the end of the span and leaves the captures that the search answers, the span lies
-- inside the subject, and every capture ends inside it; or the matcher, called so, fails at a start
-- position for a reason that the source raises; in both cases no start position before matches. Or no
-- start position tried has a match, and no failure is recorded.
pub search_from-IsSearched :
    (source pattern : List ℕ) (init : ℕ) (anchored : Bool) (st : MatchState)
    → init ≤ length source
    → IsReady st
    → IsSearched source pattern init anchored (search_from source pattern init anchored st)
unfolding search_from
search_from-IsSearched source pattern init anchored st le ready =
    loop-IsSearched source pattern (length source - init + 1) init anchored st (omega arith) le
      ready

slice-within :
    (source : List ℕ) (s e : ℕ) → s ≤ e → e ≤ length source → as_text (slice source s e) ≢ panicked
slice-within source s e order inside = ground (arith, order, inside)

extent_value-within :
    (source : List ℕ) (e init : ℕ) (x : Extent)
    → ExtentWithin e init x
    → e ≤ length source
    → extent_value source init x ≢ panicked
extent_value-within source e init (closed n) within le =
    slice-within source init (init + n) (omega arith) (omega arith)
extent_value-within source e init position within le = λ h. ground (arith, h)
extent_value-within source e init unfinished within le = λ h. ground (arith, h)

-- Where a search from a start position in the subject, on a ready state, finds a span, `captureValue`
-- never slices outside the subject, whatever index it is asked for.
pub capture_value-within :
    (source pattern : List ℕ) (init : ℕ) (anchored : Bool) (st after : MatchState) (s e index : ℕ)
    → init ≤ length source
    → IsReady st
    → search_from source pattern init anchored st ≡ (some (s, e), after)
    → capture_value source after index s e ≢ panicked
unfolding capture_value
capture_value-within source pattern init anchored st after s e index le ready found =
    let (order, high, _, (level, room, fine, captures), _) =
      subst (IsSearched source pattern init anchored) found
        (search_from-IsSearched source pattern init anchored st le ready) in
    if-keeps (λ (v : CaptureValue). v ≢ panicked) (leb after.level index)
      (λ past.
        if-keeps (λ (v : CaptureValue). v ≢ panicked) (index == 0)
          (λ first. slice-within source s e order high) (λ other h. ground (arith, h)))
      λ inside.
        let (start, extent) = captures index (leb_false→lt after.level index inside) in
        extent_value-within source e (capture_at after index).init (capture_at after index).extent
          extent high
