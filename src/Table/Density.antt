-- ===== src/Table/Density.antt =====
-- `selectArrayDensity` chooses the largest size of which more than half is taken.
use lunar.Base.{
  ℕ, zero, suc, ◌+◌, ◌/◌, ◌^◌, ◌≤◌, ◌<◌, ◌≡◌, refl, ap, ◌∙◌, ◌⊎◌, inl, inr, List, [], ◌∷◌, length,
  arith, ltb, Bool-cases,
}
use lunar.Table.Sizes.{select_from, select_array_density}

-- The keys in the first classes.
abbrev pub total : List ℕ → ℕ → ℕ
total counts zero = 0
total [] (suc n) = 0
total (count ∷ counts) (suc n) = count + total counts n

-- More than half of the size 2 ^ (s + e) is taken, where c keys are in the classes before s.
abbrev Dense : List ℕ → ℕ → ℕ → ℕ → Type 0
Dense counts s c e = 2 ^ (s + e) / 2 < c + total counts (suc e)

abbrev Chosen : List ℕ → ℕ → ℕ → ℕ × ℕ → Type 0
Chosen counts s c answer =
    (e : ℕ) × (e < length counts)
    × Dense counts s c e
    × (answer ≡ (2 ^ (s + e), c + total counts (suc e)))
    × ((larger : ℕ) → e < larger → larger < length counts → ¬ Dense counts s c larger)

abbrev Kept : List ℕ → ℕ → ℕ → ℕ × ℕ → ℕ × ℕ → Type 0
Kept counts s c before answer =
    (answer ≡ before) × ((e : ℕ) → e < length counts → ¬ Dense counts s c e)

shifted : (s e : ℕ) → s + suc e ≡ suc s + e
shifted s e = omega arith

Dense-suc :
    (count : ℕ) (counts : List ℕ) (s c e : ℕ)
    → (Dense (count ∷ counts) s c (suc e) → Dense counts (suc s) (c + count) e)
      × (Dense counts (suc s) (c + count) e → Dense (count ∷ counts) s c (suc e))
Dense-suc count counts s c e =
    (λ d. omega (arith, rw (shifted s e) at d), λ d. rw (shifted s e) (omega (arith, d)))

Chosen-suc :
    (count : ℕ) (counts : List ℕ) (s c : ℕ) (answer : ℕ × ℕ)
    → Chosen counts (suc s) (c + count) answer
    → Chosen (count ∷ counts) s c answer
Chosen-suc count counts s c answer (e, lt, dense, same, largest) = (
  suc e,
  omega arith,
  (Dense-suc count counts s c e).1 dense,
  rw (shifted s e) (same ∙ ap (λ (n : ℕ). (2 ^ (suc s + e), n)) (omega arith)),
  λ larger. next larger,
)
  where
    next :
        (larger : ℕ)
        → suc e < larger
        → larger < suc (length counts)
        → ¬ Dense (count ∷ counts) s c larger
    next zero above below d = omega arith
    next (suc larger) above below d =
        largest larger (omega arith) (omega arith) ((Dense-suc count counts s c larger).0 d)

none_larger :
    (count : ℕ) (counts : List ℕ) (s c : ℕ)
    → ((e : ℕ) → e < length counts → ¬ Dense counts (suc s) (c + count) e)
    → (e : ℕ) → 0 < e
    → e < suc (length counts)
    → ¬ Dense (count ∷ counts) s c e
none_larger count counts s c none zero above below d = omega arith
none_larger count counts s c none (suc e) above below d =
    none e (omega arith) ((Dense-suc count counts s c e).0 d)

Chosen-first :
    (count : ℕ) (counts : List ℕ) (s c : ℕ) (answer : ℕ × ℕ)
    → 2 ^ s / 2 < c + count
    → answer ≡ (2 ^ s, c + count)
    → ((e : ℕ) → e < length counts → ¬ Dense counts (suc s) (c + count) e)
    → Chosen (count ∷ counts) s c answer
Chosen-first count counts s c answer dense same none =
    let start : s + 0 ≡ s = omega arith in
    let sum : c + count ≡ c + (count + 0) = omega arith in
    (
      0,
      omega arith,
      rw start (omega arith),
      rw start (same ∙ ap (λ (n : ℕ). (2 ^ s, n)) sum),
      none_larger count counts s c none,
    )

Kept-suc :
    (count : ℕ) (counts : List ℕ) (s c : ℕ) (before answer : ℕ × ℕ)
    → c + count ≤ 2 ^ s / 2
    → Kept counts (suc s) (c + count) before answer
    → Kept (count ∷ counts) s c before answer
Kept-suc count counts s c before answer sparse (same, none) = (same, λ e. each e)
  where
    each : (e : ℕ) → e < suc (length counts) → ¬ Dense (count ∷ counts) s c e
    each zero below d = let start : s + 0 ≡ s = omega arith in omega (arith, rw start at d)
    each (suc e) below d = none_larger count counts s c none (suc e) (omega arith) below d

select_from-cases :
    (counts : List ℕ) (s c : ℕ) (before : ℕ × ℕ)
    → Kept counts s c before (select_from counts s c before)
      ⊎ Chosen counts s c (select_from counts s c before)
unfolding select_from
select_from-cases [] s c before = inl (refl, λ e lt d. omega arith)
select_from-cases (count ∷ counts) s c before =
    let taken = select_from-cases counts (suc s) (c + count) (2 ^ s, c + count) in
    let left = select_from-cases counts (suc s) (c + count) before in
    elim (Bool-cases (ltb (2 ^ s / 2) (c + count))) [
      | inl dense ↦ rw dense (
          inr (elim taken [
            | inl kept ↦ Chosen-first count counts s c _ (ground (arith, dense)) kept.0 kept.1
            | inr chosen ↦ Chosen-suc count counts s c _ chosen
          ]))
      | inr sparse ↦ rw sparse (elim left [
        | inl kept ↦ inl (Kept-suc count counts s c before _ (ground (arith, sparse)) kept)
        | inr chosen ↦ inr (Chosen-suc count counts s c _ chosen)
      ])
    ]

-- From the number of keys in each size class, `select_array_density` chooses the largest power of two
-- of which more than half is taken by the keys up to it, with the number of these keys; or 0 where no
-- power of two is more than half taken.
pub select_array_density_lem :
    (counts : List ℕ)
    → ((select_array_density counts ≡ (0, 0))
        × ((e : ℕ) → e < length counts → ¬ (2 ^ e / 2 < total counts (suc e))))
      ⊎ ((e : ℕ) × (e < length counts)
          × (2 ^ e / 2 < total counts (suc e))
          × (select_array_density counts ≡ (2 ^ e, total counts (suc e)))
          × ((larger : ℕ)
              → e < larger
              → larger < length counts
              → ¬ (2 ^ larger / 2 < total counts (suc larger))))
unfolding select_array_density
select_array_density_lem counts = elim (select_from-cases counts 0 0 (0, 0)) [
  | inl kept ↦ inl (kept.0, λ e lt d. kept.1 e lt (at_start e d))
  | inr chosen ↦
      let e = chosen.0 in
      let start : 0 + e ≡ e = omega arith in
      let sum : 0 + total counts (suc e) ≡ total counts (suc e) = omega arith in
      inr (
        e,
        chosen.1,
        omega (arith, rw start at chosen.2),
        chosen.3 ∙ rw (start, sum),
        λ larger above below d. chosen.4 larger above below (at_start larger d),
      )
]
  where
    at_start : (e : ℕ) → 2 ^ e / 2 < total counts (suc e) → Dense counts 0 0 e
    at_start e d = let start : 0 + e ≡ e = omega arith in rw start (omega (arith, d))
