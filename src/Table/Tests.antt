-- ===== src/Table/Tests.antt =====
-- Small tables: their length, their sizes, and a store of two nodes.
use lunar.Base.{
  ℕ, suc, ◌*◌, ◌/◌, ◌^◌, ◌≤◌, ◌<◌, ◌≡◌, refl, ◌⊎◌, Bool, true, false, some, List, [], ◌∷◌, length,
  arith, ◌==◌, if◌then◌else◌,
}
use lunar.Slot.{Slot, is_nil}
use lunar.Table.Store.{Key, plain_key, object_key, Entry, Store, get}
use lunar.Table.Object.{TableObject, nil_slot, max_int, is_taken, raw_len}
use lunar.Table.Sizes.{
  initial_array_capacity, maximum_table_array_capacity, grow_table_array_capacity,
  select_array_density,
}
use lunar.Table.Insert.{empty_entry, insert_absent, delete_at}
use lunar.Table.Change.{new_store, rehash, Change, inserted, deleted, Reached, made, changed}
use lunar.Table.Counts.{IsCounted}
use lunar.Table.Growth.{grow_table_array_capacity-IsGrown}
use lunar.Table.Density.{select_array_density_lem, total}
use lunar.Table.Border.{raw_len-IsBorder}
use lunar.Table.Kept.{Reached-IsCounted}
use lunar.Table.Map.Sound.{IsSound}
use lunar.Table.Map.Steps.{Reached-IsSound}
use lunar.Table.Map.{effect, effect-get, get-scan}
use lunar.Table.Map.Scanned.{scan}
use lunar.Table.Room.{insert_absent-done, rehash-returns}

abbrev number : ℕ → Slot
number bits = record { ref = false; bits = bits }

-- The bits of 1.0 to 4.0; the others are not asked for.
abbrev some_bits : ℕ → ℕ
some_bits key =
    if key == 1
    then 0x3ff0_0000_0000_0000
    else if key == 2
    then 0x4000_0000_0000_0000
    else if key == 3
    then 0x4008_0000_0000_0000
    else if key == 4
    then 0x4010_0000_0000_0000
    else 0

abbrev nothing_stored : Store
nothing_stored = record { entries = []; live = 0; dead = 0; integer_keys = 0; last_free = 0 }

-- The values 7 and 8, and two holes.
abbrev holed : TableObject
holed = record {
  array = number 7 ∷ number 8 ∷ nil_slot ∷ nil_slot ∷ [];
  array_used = 2;
  store = nothing_stored;
}

holed-raw_len : raw_len some_bits holed ≡ some 2
unfolding raw_len lunar.Slot.is_nil
holed-raw_len = refl

raw_len-IsBorder_example :
    (n : ℕ) × (raw_len some_bits holed ≡ some n)
    × ((n ≡ 0) ⊎ (is_taken some_bits holed n ≡ true))
    × ((is_taken some_bits holed (suc n) ≡ false) ⊎ (suc n ≡ max_int))
raw_len-IsBorder_example = raw_len-IsBorder some_bits holed (omega arith)

grown_from_four : grow_table_array_capacity 4 100 ≡ some 108
unfolding grow_table_array_capacity
grown_from_four = refl

grow_table_array_capacity-IsGrown_example :
    (grown : ℕ) × (grow_table_array_capacity 4 100 ≡ some grown)
    × (100 ≤ grown)
    × (4 ≤ grown)
    × (grown ≤ maximum_table_array_capacity)
    × ((grown ≡ 4) ⊎ ((grown ≡ initial_array_capacity) ⊎ (grown < 2 * 100)))
grow_table_array_capacity-IsGrown_example =
    grow_table_array_capacity-IsGrown 4 100 (omega arith) (omega arith) (omega arith)

-- The keys 1, 2, 3 and 9.
abbrev four_keys : List ℕ
four_keys = 1 ∷ 1 ∷ 1 ∷ 0 ∷ 1 ∷ []

four_keys-select_array_density : select_array_density four_keys ≡ (4, 3)
unfolding select_array_density
four_keys-select_array_density = refl

select_array_density_lem_example :
    ((select_array_density four_keys ≡ (0, 0))
      × ((e : ℕ) → e < length four_keys → ¬ (2 ^ e / 2 < total four_keys (suc e))))
    ⊎ ((e : ℕ) × (e < length four_keys)
        × (2 ^ e / 2 < total four_keys (suc e))
        × (select_array_density four_keys ≡ (2 ^ e, total four_keys (suc e)))
        × ((larger : ℕ)
            → e < larger
            → larger < length four_keys
            → ¬ (2 ^ larger / 2 < total four_keys (suc larger))))
select_array_density_lem_example = select_array_density_lem four_keys

abbrev is_one : ℕ → Bool
is_one bits = bits == 0x3ff0_0000_0000_0000

abbrev pair_made : Store
pair_made = record {
  entries = empty_entry ∷ empty_entry ∷ [];
  live = 0;
  dead = 0;
  integer_keys = 0;
  last_free = 2;
}

-- Two keys with the same main position: the second one is chained behind the first.
abbrev one_key : Key
one_key = plain_key 0x3ff0_0000_0000_0000

abbrev first : ℕ → Entry
first next = record { key = one_key; value = number 7; hash = 3; next = next }

abbrev second : Slot → Entry
second value = record { key = object_key 5; value = value; hash = 5; next = 0 }

abbrev pair_one : Store
pair_one = record {
  entries = empty_entry ∷ first 0 ∷ [];
  live = 1;
  dead = 0;
  integer_keys = 1;
  last_free = 2;
}

abbrev pair_two : Store
pair_two = record {
  entries = second (number 8) ∷ first 1 ∷ [];
  live = 2;
  dead = 0;
  integer_keys = 1;
  last_free = 0;
}

abbrev pair_after : Store
pair_after = record {
  entries = second nil_slot ∷ first 1 ∷ [];
  live = 1;
  dead = 1;
  integer_keys = 1;
  last_free = 1;
}

pair_two-Reached : Reached is_one pair_two
unfolding new_store insert_absent lunar.Table.Store.find_stored lunar.Slot.is_nil
    lunar.Table.Sizes.next_power_of_two
pair_two-Reached =
    changed
      (changed (made {store = pair_made} 2 refl)
        (inserted {after = pair_one} one_key (number 7) 3 true refl refl refl refl))
      (inserted {after = pair_two} (object_key 5) (number 8) 5 true refl refl refl refl)

pair_deleted : Change is_one pair_two pair_after
unfolding delete_at lunar.Table.Store.find lunar.Slot.is_nil
pair_deleted = deleted {after = pair_after} (object_key 5) 5 0 (second (number 8)) refl refl

pair-Reached : Reached is_one pair_after
pair-Reached = changed pair_two-Reached pair_deleted

Reached-IsCounted_example : IsCounted is_one pair_after
Reached-IsCounted_example = Reached-IsCounted is_one pair_after pair-Reached

Reached-IsSound_example : IsSound pair_after.entries
Reached-IsSound_example = Reached-IsSound is_one pair_after pair-Reached

effect-get_example : get pair_after one_key 3 ≡ effect is_one pair_deleted (get pair_two) one_key 3
effect-get_example = effect-get is_one pair_two pair_after pair_two-Reached pair_deleted one_key 3

get-scan_example : get pair_after one_key 3 ≡ scan pair_after.entries one_key 3
get-scan_example = get-scan is_one pair_after one_key 3 pair-Reached

pair-get : get pair_after one_key 3 ≡ some (number 7)
unfolding get lunar.Table.Store.find lunar.Slot.is_nil
pair-get = refl

nine_not_nil : is_nil (number 9) ≡ false
unfolding is_nil
nine_not_nil = refl

-- The deleted node is found again, although the main position of the key is taken.
insert_absent-done_example :
    (after : Store) × (insert_absent is_one pair_after (object_key 9) (number 9) 9
      ≡ some (true, after))
insert_absent-done_example =
    insert_absent-done is_one pair_after (object_key 9) (number 9) 9 pair-Reached nine_not_nil refl
      (omega arith)

rehash-returns_example : (after : Store) × (rehash is_one pair_after 4 ≡ some after)
rehash-returns_example =
    rehash-returns is_one pair_after 4 pair-Reached (omega arith) (omega arith) (omega arith)
