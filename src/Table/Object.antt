-- ===== src/Table/Object.antt =====
-- table.go, table_storage.go: a table, the value at an integer key, and the length. The conversion of an
-- integer to the bits of a float64 is Go's, and a parameter.
use lunar.Base.{
  ℕ, zero, suc, ◌+◌, ◌-◌, ◌*◌, ◌/◌, Bool, true, false, not, ◌&&◌, Option, none, some, List, length,
  get_or, ltb, leb, if◌then◌else◌,
}
use lunar.Slot.{Slot, is_nil, nil_slot_bits}
use lunar.Table.Store.{Store, plain_key, hash_number, get}

pub record TableObject : Type 0 where
  pub array : List Slot
  pub array_used : ℕ
  pub store : Store

abbrev pub nil_slot : Slot
nil_slot = record { ref = false; bits = nil_slot_bits }

abbrev pub max_int : ℕ
max_int = 0x7fff_ffff_ffff_ffff

-- The binary search of `rawLen`, between a key that is taken and one that is not.
unfoldable pub boundary : ℕ → (ℕ → Bool) → ℕ → ℕ → Option ℕ
boundary zero present low high = if ltb 1 (high - low) then none else some low
boundary (suc rounds) present low high =
    let middle : ℕ = low + (high - low) / 2 in
    let rest =
      boundary rounds present (if present middle then middle else low)
        (if present middle then high else middle) in
    if ltb 1 (high - low) then rest else some low

-- The doubling of `rawLen`, up to a key that is not taken or to the largest one.
unfoldable pub doubled : ℕ → (ℕ → Bool) → ℕ → ℕ → Option (ℕ × ℕ)
doubled zero present low high = none
doubled (suc rounds) present low high =
    let rest = doubled rounds present (high * 2) (high * 2) in
    if ltb (max_int / 2) high
    then some (low, max_int)
    else if present (high * 2)
    then rest
    else some (low, high * 2)

module _ (float_bits : ℕ → ℕ) where
  unfoldable pub raw_int_slot : TableObject → ℕ → Option Slot
  raw_int_slot table key =
      if leb 1 key && leb key (length table.array)
      then (if is_nil (get_or table.array (key - 1) nil_slot)
          then none
          else some (get_or table.array (key - 1) nil_slot))
      else get table.store (plain_key (float_bits key)) (hash_number (float_bits key))

  abbrev pub is_found : Option Slot → Bool
  is_found none = false
  is_found (some value) = true

  -- The key has a value.
  abbrev pub is_taken : TableObject → ℕ → Bool
  is_taken table key = is_found (raw_int_slot table key)

  -- `rawLen` of a table that is not nil.
  unfoldable pub raw_len : TableObject → Option ℕ
  unfolding boundary doubled
  raw_len table =
      if ltb 0 (length table.array) && is_nil (get_or table.array (length table.array - 1) nil_slot)
      then boundary (length table.array)
          (λ key. not (is_nil (get_or table.array (key - 1) nil_slot))) 0 (length table.array)
      else if not (is_taken table (length table.array + 1))
      then some (length table.array)
      else elim (doubled 64 (is_taken table) (length table.array) (length table.array + 1)) [
        | none ↦ none
        | some bounds ↦ boundary (bounds.1 - bounds.0) (is_taken table) bounds.0 bounds.1
      ]
