-- ===== src/Collection/Budget.antt =====
-- The budget of a cycle and the charge of a grown table, in plain arithmetic.
use lunar.Base.{
  ℕ, ◌+◌, ◌-◌, ◌*◌, ◌/◌, ◌≤◌, ◌<◌, ◌≡◌, refl, leb, ltb, ◌==◌, arith, not, ◌||◌, ◌⊎◌, ap,
  if◌then◌else◌, inl, inr, ◌∙◌, Bool-cases, ◌↔◌,
}
use lunar.Base.Int.{ℤ, pos, negsuc}
use lunar.Collection.{
  CollectionControl, charge, charge_capacity_growth, automatic_collection_budget, scaled_budget,
  minimum_automatic_collection_debt, max_uint64,
}
use native.Mathlib.Nat.{le-div_iff_mul-le}

abbrev pub saturated : ℕ → ℕ
saturated n = if leb n max_uint64 then n else max_uint64

abbrev pub larger : ℕ → ℕ → ℕ
larger a b = if leb a b then b else a

-- The test that the source writes as a division: the product does not leave 64 bits.
quotient_test : (x k : ℕ) → 0 < k → (x ≤ max_uint64 / k) ↔ (x * k ≤ max_uint64)
quotient_test x k h = le-div_iff_mul-le h

wide_product : (x k : ℕ) → 0 < k → ltb (max_uint64 / k) x ≡ not (leb (x * k) max_uint64)
wide_product x k h = let (to, fro) = quotient_test x k h in ground (arith, to, fro)

scaled_budget_lem :
    (live_bytes scale : ℕ)
    → 0 < scale
    → scaled_budget live_bytes scale ≡ (
        if leb (live_bytes * scale) max_uint64
        then larger minimum_automatic_collection_debt (live_bytes * scale / 100)
        else max_uint64)
scaled_budget_lem live_bytes scale h =
    let wide = wide_product live_bytes scale h in ground (arith, wide)

no_product : (live_bytes p : ℕ) → (p ≤ 100) ⊎ (live_bytes ≡ 0) → live_bytes * (p - 100) ≡ 0
no_product live_bytes p (inl h) = omega (arith, ap (λ (t : ℕ). live_bytes * t) (minus h))
  where
    minus : p ≤ 100 → p - 100 ≡ 0
    minus le = omega arith
no_product live_bytes p (inr h) = omega (arith, ap (λ (t : ℕ). t * (p - 100)) h)

saturated_twice : (a b : ℕ) → saturated (a + saturated b) ≡ saturated (a + b)
saturated_twice a b = ground arith

-- A budget with a pause above 100 on a heap that is not empty: the heap's size times the part of the
-- pause above 100, in percent, but at least the minimum, and the last uint64 where the product does
-- not fit. Any other pause, and an empty heap, give the minimum.
pub automatic_collection_budget_lem :
    (live_bytes : ℕ) (pause : ℤ)
    → automatic_collection_budget live_bytes pause ≡ elim pause [
      | negsuc n ↦ minimum_automatic_collection_debt
      | pos p ↦
          (if leb (live_bytes * (p - 100)) max_uint64
            then larger minimum_automatic_collection_debt (live_bytes * (p - 100) / 100)
            else max_uint64)
    ]
unfolding automatic_collection_budget
automatic_collection_budget_lem live_bytes (negsuc n) = refl
automatic_collection_budget_lem live_bytes (pos p) =
    elim (Bool-cases (leb p 100 || live_bytes == 0)) [
      | inl small ↦
          let nothing = no_product live_bytes p (ground (arith, small)) in
          ground (arith, small, nothing)
      | inr large ↦
          let exact = scaled_budget_lem live_bytes (p - 100) (ground (arith, large)) in
          ground (arith, large, exact)
    ]

-- What `charge` does to the debt: it grows by the bytes and stays at the last uint64.
pub charge-debt :
    (bytes : ℕ) (control : CollectionControl)
    → control.debt ≤ max_uint64
    → (charge bytes control).debt ≡ saturated (control.debt + bytes)
unfolding charge
charge-debt bytes control fits = ground arith

no_growth :
    (previous current element_bytes : ℕ)
    → (current ≤ previous) ⊎ (element_bytes ≡ 0)
    → (current - previous) * element_bytes ≡ 0
no_growth previous current element_bytes (inl h) =
    omega (arith, ap (λ (t : ℕ). t * element_bytes) minus)
  where
    minus : current - previous ≡ 0
    minus = omega arith
no_growth previous current element_bytes (inr h) =
    omega (arith, ap (λ (t : ℕ). (current - previous) * t) h)

-- A growth is a charge of the saturated product, which is nothing when there is no growth.
pub growth_charges :
    (previous current element_bytes : ℕ) (control : CollectionControl)
    → charge_capacity_growth previous current element_bytes control
      ≡ charge (saturated ((current - previous) * element_bytes)) control
unfolding charge_capacity_growth charge
growth_charges previous current element_bytes control =
    elim (Bool-cases (leb current previous || element_bytes == 0)) [
      | inl none_grown ↦
          let nothing = no_growth previous current element_bytes (ground (arith, none_grown)) in
          ground (arith, none_grown, nothing)
      | inr some_grown ↦
          let wide = wide_product (current - previous) element_bytes (ground (arith, some_grown)) in
          ground (arith, some_grown, wide)
    ]

-- The debt after a growth, from a debt that is a uint64: the bytes of the new elements are added, exactly where the sum fits in 64
-- bits and up to the last uint64 otherwise, although the source never computes a wider product.
pub charge_capacity_growth-debt :
    (previous current element_bytes : ℕ) (control : CollectionControl)
    → control.debt ≤ max_uint64
    → (charge_capacity_growth previous current element_bytes control).debt
      ≡ saturated (control.debt + (current - previous) * element_bytes)
charge_capacity_growth-debt previous current element_bytes control fits =
    let product : ℕ = (current - previous) * element_bytes in
    let as_charge =
      ap (λ (c : CollectionControl). c.debt)
        (growth_charges previous current element_bytes control) in
    let added = charge-debt (saturated product) control fits in
    let twice = saturated_twice control.debt product in as_charge ∙ added ∙ twice
