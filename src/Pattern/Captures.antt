-- ===== src/Pattern/Captures.antt =====
-- Starting and ending a capture: the captures stay before the offset, and a run that matches nothing
-- finds them as they were.
use lunar.Base.{
  ℕ, zero, suc, ◌+◌, ◌-◌, ◌≤◌, ◌<◌, ◌≡◌, ◌≢◌, refl, sym, ap, ◌∙◌, Bool, true, false, Option, none,
  some, List, length, set, arith, length-set, get_or-set, get_or-set_other, leb, if◌then◌else◌,
  if-keeps, option-keeps, leb_false→lt,
}
use lunar.Pattern.Item.{too_many_captures, invalid_pattern_capture}
use lunar.Pattern.Matcher.{
  Extent, closed, position, unfinished, Capture, MatchState, at, no_match, failed, Run, Matcher,
  capture_at, no_capture, set_extent, is_unfinished, capture_to_close, forget_capture,
  reopen_capture, start_capture, end_capture, max_pattern_captures,
}
use lunar.Pattern.Invariant.{ExtentWithin, CaptureWithin, IsValid, IsAllowed, Meets, fail-IsAllowed}
use mathlib.Core.Path.{subst}
use native.Mathlib.Decide.{ℕ_discrete}

-- The state with one capture overwritten.
abbrev write_capture : MatchState → ℕ → Capture → MatchState
write_capture st i c = record st { captures = set st.captures i c }

abbrev with_extent : ℕ → Extent → Capture
with_extent s e = record { init = s; extent = e }

write_here :
    (st : MatchState) (i : ℕ) (c : Capture)
    → i < length st.captures
    → capture_at (write_capture st i c) i ≡ c
write_here st i c lt = get_or-set st.captures i c no_capture lt

write_elsewhere :
    (st : MatchState) (i j : ℕ) (c : Capture)
    → i ≢ j
    → capture_at (write_capture st i c) j ≡ capture_at st j
write_elsewhere st i j c ne = get_or-set_other st.captures i j c no_capture ne

write-IsValid :
    (s level : ℕ) (st : MatchState) (i : ℕ) (c : Capture)
    → level ≤ max_pattern_captures
    → length st.captures ≡ max_pattern_captures
    → st.failure ≡ none
    → ((j : ℕ) → j < level → i ≢ j → CaptureWithin s (capture_at st j))
    → i < max_pattern_captures
    → CaptureWithin s c
    → IsValid s (record (write_capture st i c) { level = level })
write-IsValid s level st i c few room fine others inside here = (
  few,
  length-set st.captures i c ∙ room,
  fine,
  λ j lt. elim (ℕ_discrete i j) [
    | yes same ↦
        subst (λ (k : ℕ). CaptureWithin s (capture_at (write_capture st i c) k)) same
          (subst (CaptureWithin s) (sym (write_here st i c (omega arith))) here)
    | no differs ↦
        subst (CaptureWithin s) (sym (write_elsewhere st i j c differs)) (others j lt differs)
  ],
)

module _ (size : ℕ) where
  forget_capture-IsAllowed :
      (s : ℕ) (st : MatchState) (c : Capture) (r : Run)
      → IsAllowed size s (record (write_capture st st.level c) { level = st.level + 1 }) r
      → IsAllowed size s st (forget_capture r)
  forget_capture-IsAllowed s st c (at e, after) h = h
  forget_capture-IsAllowed s st c (failed, after) h = h
  forget_capture-IsAllowed s st c (no_match, after) (level, len, fine, captures) = (
    omega arith,
    len ∙ length-set st.captures st.level c,
    fine,
    λ i lt. captures i (omega arith) ∙ write_elsewhere st st.level i c (λ e. omega arith),
  )

  reopen_capture-IsAllowed :
      (s level : ℕ) (st : MatchState) (x : Extent) (r : Run)
      → level < st.level
      → st.level ≤ length st.captures
      → (capture_at st level).extent ≡ unfinished
      → IsAllowed size s (set_extent st level x) r
      → IsAllowed size s st (reopen_capture level r)
  reopen_capture-IsAllowed s level st x (at e, after) below room was_open h = h
  reopen_capture-IsAllowed s level st x (failed, after) below room was_open h = h
  reopen_capture-IsAllowed s level st x (no_match, after) below room was_open
        (same, len, fine, captures) =
      (
        same,
        length-set after.captures level reopened ∙ len ∙ length-set st.captures level written,
        fine,
        λ i lt. elim (ℕ_discrete level i) [
          | yes here ↦
              subst (λ (k : ℕ). capture_at (write_capture after level reopened) k ≡ capture_at st k)
                here
                (write_here after level reopened
                    (omega (arith, len, length-set st.captures level written))
                  ∙ restored)
          | no differs ↦
              write_elsewhere after level i reopened differs
              ∙ captures i (omega arith)
              ∙ write_elsewhere st level i written differs
        ],
      )
    where
      reopened : Capture
      reopened = record { init = (capture_at after level).init; extent = unfinished }

      written : Capture
      written = record { init = (capture_at st level).init; extent = x }

      restored : reopened ≡ capture_at st level
      restored =
          ap (λ (c : Capture). with_extent c.init unfinished)
            (captures level (omega arith) ∙ write_here st level written (omega arith))
          ∙ ap (with_extent (capture_at st level).init) (sym was_open)

some-injective : (a b : ℕ) → some a ≡ some b → a ≡ b
some-injective a b h = ground (arith, h)

is_unfinished_lem : (x : Extent) → is_unfinished x ≡ true → x ≡ unfinished
is_unfinished_lem (closed n) h = ground (arith, h)
is_unfinished_lem position h = ground (arith, h)
is_unfinished_lem unfinished h = refl

module _ (source pattern : List ℕ) where
  pub capture_to_close-open :
      (st : MatchState) (below level : ℕ)
      → capture_to_close st below ≡ some level
      → (level < below) × ((capture_at st level).extent ≡ unfinished)
  unfolding capture_to_close
  capture_to_close-open st zero level h = ground (arith, h)
  capture_to_close-open st (suc below) level h =
      close_here (is_unfinished (capture_at st below).extent) (capture_to_close st below) level
        below h (is_unfinished_lem (capture_at st below).extent)
        (capture_to_close-open st below level)
    where
      close_here :
          (b : Bool) (o : Option ℕ) (level below : ℕ)
          → (if b then some below else o) ≡ some level
          → (b ≡ true → (capture_at st below).extent ≡ unfinished)
          → (o ≡ some level → (level < below) × ((capture_at st level).extent ≡ unfinished))
          → (level < suc below) × ((capture_at st level).extent ≡ unfinished)
      close_here true o level below h here deeper = (
        omega (arith, some-injective below level h),
        subst (λ (k : ℕ). (capture_at st k).extent ≡ unfinished) (some-injective below level h)
            (here refl),
      )
      close_here false o level below h here deeper = let (lt, e) = deeper h in (omega arith, e)

  pub start_capture-IsAllowed :
      (next : Matcher) (s p : ℕ) (st : MatchState) (what : Extent)
      → Meets (length source) (λ s st. next s p st)
      → ExtentWithin s s what
      → s ≤ length source
      → IsValid s st
      → IsAllowed (length source) s st (start_capture source pattern next s p what st)
  unfolding start_capture
  start_capture-IsAllowed next s p st what meets within le (few, room, fine, captures) =
      if-keeps (IsAllowed (length source) s st) (leb max_pattern_captures st.level)
        (λ full.
          fail-IsAllowed (length source) s st too_many_captures (few, room, fine, captures) refl)
        λ free.
          let level = leb_false→lt max_pattern_captures st.level free in
          forget_capture-IsAllowed (length source) s st c (next s p started) (
            meets s started le (
              write-IsValid s (st.level + 1) st st.level c (omega arith) room fine
                (λ j lt differs. captures j (omega arith)) level (omega arith, within)))
    where
      c : Capture
      c = record { init = s; extent = what }

      started : MatchState
      started = record (write_capture st st.level c) { level = st.level + 1 }

  pub end_capture-IsAllowed :
      (next : Matcher) (s p : ℕ) (st : MatchState)
      → Meets (length source) (λ s st. next s p st)
      → s ≤ length source
      → IsValid s st
      → IsAllowed (length source) s st (end_capture source pattern next s p st)
  unfolding end_capture
  end_capture-IsAllowed next s p st meets le (few, room, fine, captures) =
      option-keeps (IsAllowed (length source) s st) (capture_to_close st st.level)
        (λ unopened.
          fail-IsAllowed (length source) s st invalid_pattern_capture (few, room, fine, captures)
            refl)
        λ level found.
          let (below, was_open) = capture_to_close-open st st.level level found in
          let (start, extent) = captures level below in
          let x : Extent = closed (s - (capture_at st level).init) in
          reopen_capture-IsAllowed (length source) s level st x (next s p (set_extent st level x))
            below (omega arith) was_open
            (meets s (set_extent st level x) le (
              write-IsValid s st.level st level (with_extent (capture_at st level).init x) few room
                fine (λ j lt differs. captures j lt) (omega arith) (start, omega arith)))
