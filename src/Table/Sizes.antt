-- ===== src/Table/Sizes.antt =====
-- table_storage.go, table_store.go: the capacities of the two parts of a table.
use lunar.Base.{
  ℕ, zero, suc, ◌+◌, ◌-◌, ◌*◌, ◌/◌, ◌^◌, ◌||◌, Option, none, some, List, [], ◌∷◌, ltb, leb, ◌==◌,
  if◌then◌else◌,
}

abbrev pub initial_array_capacity : ℕ
initial_array_capacity = 4

abbrev pub maximum_table_array_capacity : ℕ
maximum_table_array_capacity = 0x400_0000

abbrev pub maximum_table_store_capacity : ℕ
maximum_table_store_capacity = 0x8000_0000

-- One round of the loop of `growTableArrayCapacity`.
abbrev pub next_array_capacity : ℕ → ℕ
next_array_capacity capacity =
    if ltb capacity 32
    then capacity * 2
    else if ltb (maximum_table_array_capacity - capacity / 2) capacity
    then maximum_table_array_capacity
    else capacity + capacity / 2

-- Each round adds one at least, so that the length bounds them.
unfoldable pub grow_array_loop : ℕ → ℕ → ℕ → Option ℕ
grow_array_loop zero capacity length = if ltb capacity length then none else some capacity
grow_array_loop (suc rounds) capacity length =
    let rest = grow_array_loop rounds (next_array_capacity capacity) length in
    if ltb capacity length then rest else some capacity

-- `none` is the panic, or rounds that did not suffice.
unfoldable pub grow_table_array_capacity : ℕ → ℕ → Option ℕ
unfolding grow_array_loop
grow_table_array_capacity current length =
    if ltb maximum_table_array_capacity current
      || length == 0
      || ltb maximum_table_array_capacity length
    then none
    else grow_array_loop length (if current == 0 then initial_array_capacity else current) length

unfoldable pub grow_table_store_capacity : ℕ → Option ℕ
grow_table_store_capacity capacity =
    if capacity == 0 || leb maximum_table_store_capacity capacity then none else some (capacity * 2)

unfoldable pub power_loop : ℕ → ℕ → ℕ → Option ℕ
unfolding grow_table_store_capacity
power_loop zero capacity value = if ltb capacity value then none else some capacity
power_loop (suc rounds) capacity value =
    if ltb capacity value
    then elim (grow_table_store_capacity capacity) [
      | none ↦ none
      | some grown ↦ power_loop rounds grown value
    ]
    else some capacity

unfoldable pub next_power_of_two : ℕ → Option ℕ
unfolding power_loop
next_power_of_two value = if value == 0 then none else power_loop value 1 value

-- The loop of `selectArrayDensity` from an exponent on: the keys so far, the size and the keys in it.
unfoldable pub select_from : List ℕ → ℕ → ℕ → ℕ × ℕ → ℕ × ℕ
select_from [] exponent cumulative chosen = chosen
select_from (count ∷ counts) exponent cumulative chosen =
    select_from counts (suc exponent) (cumulative + count) (
      if ltb (2 ^ exponent / 2) (cumulative + count)
      then (2 ^ exponent, cumulative + count)
      else chosen)

unfoldable pub select_array_density : List ℕ → ℕ × ℕ
unfolding select_from
select_array_density counts = select_from counts 0 0 (0, 0)
