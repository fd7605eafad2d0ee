-- ===== src/Pattern/Bounds.antt =====
-- The matcher as a whole: every run stays inside the subject, leaves the state as it was where nothing
-- matches, and never ends for lack of rounds.
use lunar.Base.{
  ℕ, zero, suc, ◌+◌, ◌-◌, ◌≤◌, ◌<◌, ◌≡◌, refl, true, not, ◌&&◌, ◌||◌, List, length, arith, ◌==◌,
  if-keeps, option-keeps,
}
use mathlib.Core.Path.{subst}
use lunar.Pattern.Class.{is_pattern_digit}
use lunar.Pattern.Item.{
  Failure, missing_frontier_class, invalid_capture_index, unbalanced_pattern, pattern_too_complex,
  End, end_at, broken, byte_at, byte_before, escape, class_end, match_bracket_class,
}
use lunar.Pattern.Matcher.{
  position, unfinished, MatchState, at, Run, Matcher, fail, capture_at, check_capture,
  reference_end, balance_end, item_matches, max_expand, match_balance, match_frontier,
  match_capture, match_quantified, match_item, match_escape, match_round, match_from, match,
}
use lunar.Pattern.Invariant.{
  IsValid, IsAllowed, Meets, Restores-refl, IsValid-later, IsValid-restored, IsAllowed-from,
  IsAllowed-later, or_else-IsAllowed, fail-IsAllowed, is_raised,
}
use lunar.Pattern.Captures.{start_capture-IsAllowed, end_capture-IsAllowed}
use lunar.Pattern.Loops.{
  byte_at-within, IsEnd, class_end-IsEnd, reference_end-within, balance_end-within,
  item_matches-within, max_expand-IsAllowed, min_expand-IsAllowed,
}

-- A predicate of what is done with an end.
end-keeps {κ} :
    (P : Run → Type κ) (e : End) {f : Failure → Run} {g : ℕ → Run}
    → ((x : Failure) → e ≡ broken x → P (f x))
    → ((n : ℕ) → e ≡ end_at n → P (g n))
    → P (elim e [ broken x ↦ f x | end_at n ↦ g n ])
end-keeps P (broken x) hf hg = hf x refl
end-keeps P (end_at n) hf hg = hg n refl

module _ (source pattern : List ℕ) (next : Matcher)
    (meets : (p : ℕ) → Meets (length source) (λ s st. next s p st)) where
  module _ (loop : Matcher) (p : ℕ)
      (loops : (q : ℕ) → p < q → Meets (length source) (λ s st. loop s q st)) (s : ℕ)
      (st : MatchState) (le : s ≤ length source) (valid : IsValid s st) where
    abbrev Allowed : Run → Type 0
    Allowed = IsAllowed (length source) s st

    failing : (f : Failure) → is_raised f ≡ true → Allowed (fail f st)
    failing f raised = fail-IsAllowed (length source) s st f valid raised

    looping : (t q : ℕ) → s ≤ t → t ≤ length source → p < q → Allowed (loop t q st)
    looping t q from to further =
        IsAllowed-later (length source) s t st (loop t q st) from
          (loops q further t st to (IsValid-later s t st from valid))

    match_balance-IsAllowed : Allowed (match_balance source pattern loop s p st)
    unfolding match_balance
    match_balance-IsAllowed =
        if-keeps Allowed (byte_at pattern (p + 2) == 0 || byte_at pattern (p + 3) == 0)
          (λ e. failing unbalanced_pattern refl)
          λ e.
            if-keeps Allowed (byte_at source s == byte_at pattern (p + 2))
              (λ e.
                option-keeps Allowed
                  (balance_end source pattern (length source - s) (byte_at pattern (p + 2))
                    (byte_at pattern (p + 3)) (s + 1) 1)
                  (λ e. Restores-refl st)
                  λ end found.
                    let (after, inside) =
                      balance_end-within source pattern (length source - s)
                        (byte_at pattern (p + 2)) (byte_at pattern (p + 3)) (s + 1) 1 end found in
                    looping end (p + 4) (omega arith) inside (omega arith))
              (λ e. Restores-refl st)

    match_frontier-IsAllowed : Allowed (match_frontier source pattern loop s p st)
    unfolding match_frontier
    match_frontier-IsAllowed =
        if-keeps Allowed (byte_at pattern (p + 2) == b'[')
          (λ e.
            end-keeps Allowed (class_end pattern (p + 2))
              (λ f e. failing f (subst (IsEnd (p + 2)) e (class_end-IsEnd pattern (p + 2))))
              λ end e.
                if-keeps Allowed
                  (match_bracket_class pattern (byte_before source s) (p + 2) (end - 1)
                    || not (match_bracket_class pattern (byte_at source s) (p + 2) (end - 1)))
                  (λ e. Restores-refl st)
                  (λ e'.
                    looping s end (omega arith) le
                      (omega (arith, subst (IsEnd (p + 2)) e (class_end-IsEnd pattern (p + 2))))))
          (λ e. failing missing_frontier_class refl)

    match_capture-IsAllowed : Allowed (match_capture source pattern loop s p st)
    unfolding match_capture
    match_capture-IsAllowed =
        option-keeps Allowed (check_capture st (byte_at pattern (p + 1)))
          (λ e. failing invalid_capture_index refl)
          λ level e.
            option-keeps Allowed
              (reference_end source pattern s (capture_at st level).init
                (capture_at st level).extent)
              (λ e. Restores-refl st)
              λ end found.
                let (after, inside) =
                  reference_end-within source pattern s (capture_at st level).init end
                    (capture_at st level).extent le found in
                looping end (p + 2) after inside (omega arith)

    match_quantified-IsAllowed :
        (end : ℕ) → p < end → Allowed (match_quantified source pattern next loop s p end st)
    unfolding match_quantified
    match_quantified-IsAllowed end further =
        if-keeps Allowed (byte_at pattern end == b'?')
          (λ e.
            if-keeps Allowed (item_matches source pattern s p end)
              (λ item.
                let inside = item_matches-within source pattern s p end item in
                or_else-IsAllowed (length source) s st (next (s + 1) (end + 1) st)
                  (λ st'. loop s (end + 1) st')
                  (IsAllowed-later (length source) s (s + 1) st (next (s + 1) (end + 1) st)
                    (omega arith)
                    (meets (end + 1) (s + 1) st (omega arith)
                      (IsValid-later s (s + 1) st (omega arith) valid)))
                  λ after back.
                    IsAllowed-from (length source) s s st after (loop s (end + 1) after)
                      (omega arith) back
                      (loops (end + 1) (omega arith) s after le
                        (IsValid-restored s st after back valid)))
              (λ item. looping s (end + 1) (omega arith) le (omega arith)))
          λ e.
            if-keeps Allowed (byte_at pattern end == b'*')
              (λ e. max_expand-IsAllowed source pattern next p end (meets (end + 1)) s st le valid)
              λ e.
                if-keeps Allowed (byte_at pattern end == b'+')
                  (λ e.
                    if-keeps Allowed (item_matches source pattern s p end)
                      (λ item.
                        let inside = item_matches-within source pattern s p end item in
                        IsAllowed-later (length source) s (s + 1) st
                          (max_expand source pattern next (s + 1) p end st) (omega arith)
                          (max_expand-IsAllowed source pattern next p end (meets (end + 1)) (s + 1)
                            st (omega arith) (IsValid-later s (s + 1) st (omega arith) valid)))
                      (λ item. Restores-refl st))
                  λ e.
                    if-keeps Allowed (byte_at pattern end == b'-')
                      (λ e.
                        min_expand-IsAllowed source pattern next p end (meets (end + 1))
                          (length source - s + 1) s st (omega arith) le valid)
                      λ e.
                        if-keeps Allowed (item_matches source pattern s p end)
                          (λ item.
                            let inside = item_matches-within source pattern s p end item in
                            looping (s + 1) end (omega arith) (omega arith) further)
                          (λ item. Restores-refl st)

    match_item-IsAllowed : Allowed (match_item source pattern next loop s p st)
    unfolding match_item
    match_item-IsAllowed =
        end-keeps Allowed (class_end pattern p)
          (λ f e. failing f (subst (IsEnd p) e (class_end-IsEnd pattern p)))
          (λ end e. match_quantified-IsAllowed end (subst (IsEnd p) e (class_end-IsEnd pattern p)))

    match_escape-IsAllowed : Allowed (match_escape source pattern next loop s p st)
    unfolding match_escape
    match_escape-IsAllowed =
        if-keeps Allowed (byte_at pattern (p + 1) == b'b') (λ e. match_balance-IsAllowed)
          λ e.
            if-keeps Allowed (byte_at pattern (p + 1) == b'f') (λ e. match_frontier-IsAllowed)
              λ e.
                if-keeps Allowed (is_pattern_digit (byte_at pattern (p + 1)))
                  (λ e. match_capture-IsAllowed) λ e. match_item-IsAllowed

    ends_here : Allowed (at s, st)
    ends_here = (omega arith, le, valid)

  -- One round, with a loop that is right behind a pattern offset in the pattern.
  match_round-IsAllowed :
      (loop : Matcher) (p s : ℕ) (st : MatchState)
      → (p < length pattern → (q : ℕ) → p < q → Meets (length source) (λ s st. loop s q st))
      → s ≤ length source
      → IsValid s st
      → IsAllowed (length source) s st (match_round source pattern next loop s p st)
  unfolding match_round
  match_round-IsAllowed loop p s st loops le valid =
      if-keeps (IsAllowed (length source) s st) (byte_at pattern p == b'(')
        (λ e.
          if-keeps (IsAllowed (length source) s st) (byte_at pattern (p + 1) == b')')
            (λ e.
              start_capture-IsAllowed source pattern next s (p + 2) st position (meets (p + 2)) tt
                le valid)
            (λ e.
              start_capture-IsAllowed source pattern next s (p + 1) st unfinished (meets (p + 1)) tt
                le valid))
        λ e.
          if-keeps (IsAllowed (length source) s st) (byte_at pattern p == b')')
            (λ e. end_capture-IsAllowed source pattern next s (p + 1) st (meets (p + 1)) le valid)
            λ e.
              if-keeps (IsAllowed (length source) s st) (byte_at pattern p == 0)
                (λ e. (omega arith, le, valid))
                λ more.
                  if-keeps (IsAllowed (length source) s st)
                    (byte_at pattern p == b'$' && byte_at pattern (p + 1) == 0)
                    (λ e.
                      if-keeps (IsAllowed (length source) s st) (s == length source)
                        (λ e. (omega arith, le, valid)) (λ e. Restores-refl st))
                    λ e.
                      if-keeps (IsAllowed (length source) s st) (byte_at pattern p == escape)
                        (λ e.
                          match_escape-IsAllowed loop p (loops (byte_at-within pattern p more)) s st
                            le valid)
                        (λ e.
                          match_item-IsAllowed loop p (loops (byte_at-within pattern p more)) s st
                            le valid)

  match_from-IsAllowed :
      (rounds p : ℕ)
      → 0 < rounds
      → length pattern < rounds + p
      → Meets (length source) (λ s st. match_from source pattern next rounds s p st)
  unfolding match_from
  match_from-IsAllowed zero p some_left enough s st le valid = absurd (omega arith)
  match_from-IsAllowed (suc rounds) p some_left enough s st le valid =
      match_round-IsAllowed (match_from source pattern next rounds) p s st
        (λ inside q further. match_from-IsAllowed rounds q (omega arith) (omega arith)) le valid

module _ (source pattern : List ℕ) where
  pub match-Meets :
      (levels p : ℕ) → Meets (length source) (λ s st. match source pattern levels s p st)
  unfolding match
  match-Meets zero p s st le valid =
      fail-IsAllowed (length source) s st pattern_too_complex valid refl
  match-Meets (suc levels) p s st le valid =
      match_from-IsAllowed source pattern (match source pattern levels) (λ q. match-Meets levels q)
        (length pattern + 1) p (omega arith) (omega arith) s st le valid

-- The matcher from any offset of the subject and any pattern offset, on a state without a failure
-- and with captures that end before the offset: a match ends at or behind the offset and in the
-- subject, and its captures end there at the latest; where nothing matches, the level and the
-- captures below it are what they were; and a failure is one that the source raises, so that the
-- rounds of the model are enough.
pub match-IsAllowed :
    (source pattern : List ℕ) (levels s p : ℕ) (st : MatchState)
    → s ≤ length source
    → IsValid s st
    → IsAllowed (length source) s st (match source pattern levels s p st)
match-IsAllowed source pattern levels s p st le valid =
    match-Meets source pattern levels p s st le valid
