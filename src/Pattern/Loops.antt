-- ===== src/Pattern/Loops.antt =====
-- The loops inside a round of the matcher: what they return lies in the subject, and their rounds are
-- enough.
use lunar.Base.{
  ℕ, zero, suc, ◌+◌, ◌-◌, ◌≤◌, ◌<◌, ◌≡◌, refl, inl, inr, true, false, some, List, length, arith,
  Bool-cases, leb, ◌==◌, if◌then◌else◌, if-keeps, get_or-past, leb→le,
}
use lunar.Pattern.Item.{End, end_at, broken, byte_at, escape, set_end, class_end, past_element}
use lunar.Pattern.Matcher.{
  Extent, closed, position, unfinished, MatchState, no_match, Matcher, reference_end, balance_end,
  item_matches, run_length, give_back, max_expand, min_expand,
}
use lunar.Pattern.Invariant.{
  IsValid, IsAllowed, Meets, IsValid-later, IsValid-restored, IsAllowed-from, IsAllowed-later,
  or_else-IsAllowed, is_raised,
}

-- A byte that is not 0 stands in the text.
pub byte_at-within : (text : List ℕ) (i : ℕ) → (byte_at text i == 0) ≡ false → i < length text
byte_at-within text i h = elim (Bool-cases (leb (length text) i)) [
  | inl past ↦ absurd (ground (arith, h, get_or-past text i 0 (leb→le (length text) i past)))
  | inr inside ↦ ground (arith, inside)
]

-- An end behind `p`, or a failure that the source raises.
abbrev pub IsEnd : ℕ → End → Type 0
IsEnd p (end_at e) = p < e
IsEnd p (broken f) = is_raised f ≡ true

IsEnd-later : (p q : ℕ) (e : End) → p ≤ q → IsEnd q e → IsEnd p e
IsEnd-later p q (end_at e) le h = omega arith
IsEnd-later p q (broken f) le h = h

module _ (pattern : List ℕ) where
  past_element-further : (p : ℕ) → p < past_element pattern p
  past_element-further p = ground arith

  set_end-IsEnd :
      (rounds p : ℕ) → 0 < rounds → length pattern < rounds + p → IsEnd p (set_end pattern rounds p)
  unfolding set_end
  set_end-IsEnd zero p some_left enough = absurd (omega arith)
  set_end-IsEnd (suc rounds) p some_left enough =
      if-keeps (IsEnd p) (byte_at pattern p == 0) (λ e. refl)
        λ more.
          let inside = byte_at-within pattern p more in
          let further = past_element-further p in
          if-keeps (IsEnd p) (byte_at pattern (past_element pattern p) == b']') (λ e. omega arith)
            λ e.
              IsEnd-later p (past_element pattern p)
                (set_end pattern rounds (past_element pattern p)) (omega arith)
                (set_end-IsEnd rounds (past_element pattern p) (omega arith) (omega arith))

  pub class_end-IsEnd : (p : ℕ) → IsEnd p (class_end pattern p)
  unfolding class_end
  class_end-IsEnd p =
      if-keeps (IsEnd p) (byte_at pattern p == escape)
        (λ e. if-keeps (IsEnd p) (byte_at pattern (p + 1) == 0) (λ e. refl) (λ e. omega arith))
        λ e.
          if-keeps (IsEnd p) (byte_at pattern p == b'[')
            (λ e.
              if-keeps (λ (q : ℕ). IsEnd p (set_end pattern (length pattern + 1) q))
                (byte_at pattern (p + 1) == b'^') (λ e. from (p + 2) (omega arith))
                (λ e. from (p + 1) (omega arith)))
            (λ e. omega arith)
    where
      from : (q : ℕ) → p < q → IsEnd p (set_end pattern (length pattern + 1) q)
      from q lt =
          IsEnd-later p q (set_end pattern (length pattern + 1) q) (omega arith)
            (set_end-IsEnd (length pattern + 1) q (omega arith) (omega arith))

module _ (source pattern : List ℕ) where
  pub reference_end-within :
      (s init e : ℕ) (x : Extent)
      → s ≤ length source
      → reference_end source pattern s init x ≡ some e
      → (s ≤ e) × (e ≤ length source)
  reference_end-within s init e (closed n) le found = ground arith
  reference_end-within s init e position le found = ground arith
  reference_end-within s init e unfinished le found = ground arith

  pub balance_end-within :
      (rounds opening closing s nesting e : ℕ)
      → balance_end source pattern rounds opening closing s nesting ≡ some e
      → (s < e) × (e ≤ length source)
  unfolding balance_end
  balance_end-within zero opening closing s nesting e found = ground (arith, found)
  balance_end-within (suc rounds) opening closing s nesting e found =
      let up = balance_end-within rounds opening closing (s + 1) (nesting + 1) e in
      let down = balance_end-within rounds opening closing (s + 1) (nesting - 1) e in
      let on = balance_end-within rounds opening closing (s + 1) nesting e in
      ground (arith, up, down, on)

  run_length-within :
      (rounds s p end count : ℕ)
      → s + count ≤ length source
      → s + run_length source pattern rounds s p end count ≤ length source
  unfolding run_length
  run_length-within zero s p end count le = le
  run_length-within (suc rounds) s p end count le =
      let more = run_length-within rounds s p end (count + 1) in ground (arith, more)

  pub item_matches-within :
      (s p end : ℕ) → item_matches source pattern s p end ≡ true → s < length source
  item_matches-within s p end h = ground arith

  module _ (next : Matcher) (p end : ℕ)
      (meets : Meets (length source) (λ s st. next s (end + 1) st)) where
    give_back-IsAllowed :
        (count s : ℕ) (st : MatchState)
        → s + count ≤ length source
        → IsValid s st
        → IsAllowed (length source) s st (give_back source pattern next count s end st)
    unfolding give_back
    give_back-IsAllowed zero s st le valid =
        or_else-IsAllowed (length source) s st (next s (end + 1) st) (λ st'. (no_match, st'))
          (meets s st (omega arith) valid) (λ after back. back)
    give_back-IsAllowed (suc count) s st le valid =
        or_else-IsAllowed (length source) s st (next (s + suc count) (end + 1) st)
          (λ st'. give_back source pattern next count s end st')
          (IsAllowed-later (length source) s (s + suc count) st (next (s + suc count) (end + 1) st)
            (omega arith)
            (meets (s + suc count) st le (IsValid-later s (s + suc count) st (omega arith) valid)))
          λ after back.
            IsAllowed-from (length source) s s st after
              (give_back source pattern next count s end after) (omega arith) back
              (give_back-IsAllowed count s after (omega arith)
                (IsValid-restored s st after back valid))

    pub max_expand-IsAllowed :
        Meets (length source) (λ s st. max_expand source pattern next s p end st)
    unfolding max_expand
    max_expand-IsAllowed s st le valid =
        give_back-IsAllowed (run_length source pattern (length source - s) s p end 0) s st
          (run_length-within (length source - s) s p end 0 (omega arith)) valid

    pub min_expand-IsAllowed :
        (rounds s : ℕ) (st : MatchState)
        → length source < rounds + s
        → s ≤ length source
        → IsValid s st
        → IsAllowed (length source) s st (min_expand source pattern next rounds s p end st)
    unfolding min_expand
    min_expand-IsAllowed zero s st enough le valid = absurd (omega arith)
    min_expand-IsAllowed (suc rounds) s st enough le valid =
        or_else-IsAllowed (length source) s st (next s (end + 1) st)
          (λ st'.
            (if item_matches source pattern s p end
              then min_expand source pattern next rounds (s + 1) p end st'
              else (no_match, st')))
          (meets s st le valid)
          λ after back.
            if-keeps (IsAllowed (length source) s st) (item_matches source pattern s p end)
              (λ item.
                let inside = item_matches-within s p end item in
                let valid' =
                  IsValid-later s (s + 1) after (omega arith)
                    (IsValid-restored s st after back valid) in
                IsAllowed-from (length source) s (s + 1) st after
                  (min_expand source pattern next rounds (s + 1) p end after) (omega arith) back
                  (min_expand-IsAllowed rounds (s + 1) after (omega arith) (omega arith) valid'))
              (λ item. back)
