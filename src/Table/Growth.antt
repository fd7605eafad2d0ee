-- ===== src/Table/Growth.antt =====
-- The capacities that the parts of a table grow to.
use lunar.Base.{
  ℕ, zero, suc, ◌+◌, ◌*◌, ◌^◌, ◌≤◌, ◌<◌, ◌≡◌, refl, ◌⊎◌, inl, inr, ◌||◌, false, some, arith, ltb,
  leb, ◌==◌, Bool-cases,
}
use native.Mathlib.Nat.{pow-suc}
use lunar.Table.Sizes.{
  initial_array_capacity, maximum_table_array_capacity, maximum_table_store_capacity,
  next_array_capacity, grow_array_loop, grow_table_array_capacity, power_loop, next_power_of_two,
}

next_array_capacity-grows :
    (capacity length : ℕ)
    → 0 < capacity
    → capacity < length
    → length ≤ maximum_table_array_capacity
    → (capacity < next_array_capacity capacity)
      × (next_array_capacity capacity ≤ maximum_table_array_capacity)
      × (next_array_capacity capacity < 2 * length)
next_array_capacity-grows capacity length some_capacity small fits = ground arith

-- Enough for the length, within the limit, and less than twice the length unless nothing was to be done.
abbrev IsGrown : ℕ → ℕ → ℕ → Type 0
IsGrown start length capacity =
    (length ≤ capacity)
    × (start ≤ capacity)
    × (capacity ≤ maximum_table_array_capacity)
    × ((capacity ≡ start) ⊎ (capacity < 2 * length))

IsGrown-more :
    (capacity more length grown : ℕ)
    → capacity < more
    → more < 2 * length
    → IsGrown more length grown
    → IsGrown capacity length grown
IsGrown-more capacity more length grown up twice (a, b, c, d) =
    (a, omega arith, c, inr (ground arith))

grow_array_loop-IsGrown :
    (rounds capacity length : ℕ)
    → 0 < capacity
    → capacity ≤ maximum_table_array_capacity
    → length ≤ maximum_table_array_capacity
    → length ≤ capacity + rounds
    → (grown : ℕ) × (grow_array_loop rounds capacity length ≡ some grown)
      × IsGrown capacity length grown
unfolding grow_array_loop
grow_array_loop-IsGrown zero capacity length some_capacity within fits rounds =
    (capacity, ground arith, (omega arith, omega arith, within, inl refl))
grow_array_loop-IsGrown (suc rounds) capacity length some_capacity within fits enough =
    elim (Bool-cases (ltb capacity length)) [
      | inl small ↦
          let (up, top, twice) =
            next_array_capacity-grows capacity length some_capacity (ground (arith, small)) fits in
          let (grown, e, g) =
            grow_array_loop-IsGrown rounds (next_array_capacity capacity) length (omega arith) top
              fits (omega arith) in
          (
            grown,
            rw (small, e),
            IsGrown-more capacity (next_array_capacity capacity) length grown up twice g,
          )
      | inr large ↦ (capacity, rw large, (ground (arith, large), omega arith, within, inl refl))
    ]

-- Growing the array part from a capacity within the limit to a length within it gives a capacity: one
-- that holds the length, is no smaller than before and within the limit, and below twice the length
-- unless the capacity, or the initial one of an empty part, already did.
pub grow_table_array_capacity-IsGrown :
    (current length : ℕ)
    → current ≤ maximum_table_array_capacity
    → 0 < length
    → length ≤ maximum_table_array_capacity
    → (grown : ℕ) × (grow_table_array_capacity current length ≡ some grown)
      × (length ≤ grown)
      × (current ≤ grown)
      × (grown ≤ maximum_table_array_capacity)
      × ((grown ≡ current) ⊎ ((grown ≡ initial_array_capacity) ⊎ (grown < 2 * length)))
unfolding grow_table_array_capacity
grow_table_array_capacity-IsGrown zero length within some_length fits =
    let (grown, e, (a, b, c, d)) =
      grow_array_loop-IsGrown length initial_array_capacity length (omega arith) (omega arith) fits
        (omega arith) in
    (grown, ground (arith, e), a, omega arith, c, inr d)
grow_table_array_capacity-IsGrown (suc current) length within some_length fits =
    let (grown, e, (a, b, c, d)) =
      grow_array_loop-IsGrown length (suc current) length (omega arith) within fits (omega arith) in
    (grown, ground (arith, e), a, b, c, ground (arith, d))

two_pow_pos : (k : ℕ) → 0 < 2 ^ k
two_pow_pos zero = omega arith
two_pow_pos (suc k) = omega (arith, pow-suc 2 k, two_pow_pos k)

power_loop_lem :
    (rounds k value : ℕ)
    → value ≤ maximum_table_store_capacity
    → value ≤ 2 ^ k + rounds
    → 2 ^ k < 2 * value
    → (j : ℕ) × (power_loop rounds (2 ^ k) value ≡ some (2 ^ j))
      × (value ≤ 2 ^ j)
      × (2 ^ j < 2 * value)
unfolding power_loop
power_loop_lem zero k value fits enough small = (k, ground arith, omega arith, small)
power_loop_lem (suc rounds) k value fits enough small =
    let double : 2 ^ k * 2 ≡ 2 ^ suc k = omega (arith, pow-suc 2 k) in
    elim (Bool-cases (ltb (2 ^ k) value)) [
      | inl less ↦
          let below : 2 ^ k < value = ground (arith, less) in
          let allowed : (2 ^ k == 0 || leb maximum_table_store_capacity (2 ^ k)) ≡ false =
            ground (arith, below, two_pow_pos k) in
          let (j, e, a, b) =
            power_loop_lem rounds (suc k) value fits (omega (arith, double, two_pow_pos k))
              (omega (arith, double)) in
          (j, rw (less, allowed, double, e), a, b)
      | inr enough_now ↦ (k, rw enough_now, ground (arith, enough_now), small)
    ]

-- Every number of records from 1 to the limit gets the smallest power of two that holds it.
pub next_power_of_two_lem :
    (value : ℕ)
    → 0 < value
    → value ≤ maximum_table_store_capacity
    → (k : ℕ) × (next_power_of_two value ≡ some (2 ^ k)) × (value ≤ 2 ^ k) × (2 ^ k < 2 * value)
unfolding next_power_of_two
next_power_of_two_lem value some_value fits =
    let (k, e, a, b) = power_loop_lem value 0 value fits (omega arith) (omega arith) in
    (k, ground (arith, e), a, b)
