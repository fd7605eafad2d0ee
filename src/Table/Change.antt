-- ===== src/Table/Change.antt =====
-- table_store.go, table_storage.go: `init`, `rehash`, and the stores that a table comes to.
use lunar.Base.{
  ℕ, ◌≡◌, Bool, true, false, ◌||◌, Option, none, some, List, [], ◌∷◌, replicate, ltb, ◌==◌, set,
  get_elem?, not, if◌then◌else◌,
}
use lunar.Slot.{Slot, is_nil}
use lunar.Table.Sizes.{next_power_of_two, maximum_table_store_capacity}
use lunar.Table.Store.{
  Key, plain_key, object_key, dead_key, Entry, Store, entry_hash_empty, same_key, find, find_stored,
}
use lunar.Table.Insert.{insert_absent, delete_at, revive_stored, empty_entry}

abbrev pub empty_store : ℕ → Store
empty_store capacity = record {
  entries = replicate capacity empty_entry;
  live = 0;
  dead = 0;
  integer_keys = 0;
  last_free = capacity;
}

-- `init` of an empty store.
unfoldable pub new_store : ℕ → Option Store
new_store hint =
    if hint == 0
    then some (empty_store 0)
    else elim (next_power_of_two hint) [ none ↦ none | some capacity ↦ some (empty_store capacity) ]

-- The write of `replaceTableValue` into a node.
unfoldable pub replace_at : Store → ℕ → Slot → Option Store
replace_at store index value = elim (get_elem? store.entries index) [
  | none ↦ none
  | some entry ↦
      some (record store { entries = set store.entries index (record entry { value = value }) })
]

-- A deleted object becomes a dead key; a string keeps its text.
abbrev pub retired_key : (ℕ → Bool) → Key → Key
retired_key is_reference (plain_key a) = plain_key a
retired_key is_reference (object_key a) = if is_reference a then dead_key a else object_key a
retired_key is_reference (dead_key a) = dead_key a

-- `retireDeletedReferenceKey` of a node.
unfoldable pub retire_at : (ℕ → Bool) → Store → ℕ → Option Store
retire_at is_reference store index = elim (get_elem? store.entries index) [
  | none ↦ none
  | some entry ↦
      if not (is_nil entry.value)
      then none
      else some (record store {
        entries =
            set store.entries index (record entry { key = retired_key is_reference entry.key });
      })
]

module _ (is_integer : ℕ → Bool) where
  -- A store that is full is a panic.
  abbrev pub unless_full : Option (Bool × Store) → Option Store
  unless_full none = none
  unless_full (some (true, store)) = some store
  unless_full (some (false, store)) = none

  -- The loop of `rehash` over the former nodes.
  unfoldable pub refill : Option Store → List Entry → Option Store
  unfolding insert_absent
  refill none entries = none
  refill (some store) [] = some store
  refill (some store) (entry ∷ entries) =
      refill
        (if entry.hash == entry_hash_empty || is_nil entry.value
          then some store
          else unless_full (insert_absent is_integer store entry.key entry.value entry.hash))
        entries

  unfoldable pub rehash : Store → ℕ → Option Store
  unfolding refill
  rehash store capacity =
      if capacity == 0 || ltb maximum_table_store_capacity capacity
      then none
      else elim (if ltb capacity store.live then next_power_of_two store.live else some capacity) [
        | none ↦ none
        | some room ↦ refill (some (empty_store room)) store.entries
      ]

-- What the table and the collector do to the store, with the conditions under which they do it: a
-- key of a program is equal to itself, and no dead one.
pub data Change (is_integer : ℕ → Bool) : Store → Store → Type 0 where
  inserted :
      {store after : Store} (key : Key) (value : Slot) (hash : ℕ) (done : Bool)
      → same_key key key ≡ true
      → is_nil value ≡ false
      → find_stored store key hash ≡ none
      → insert_absent is_integer store key value hash ≡ some (done, after)
      → Change is_integer store after
  deleted :
      {store after : Store} (key : Key) (hash index : ℕ) (entry : Entry)
      → find store key hash ≡ some (index, entry)
      → delete_at is_integer store index ≡ some after
      → Change is_integer store after
  replaced :
      {store after : Store} (key : Key) (hash index : ℕ) (entry : Entry) (value : Slot)
      → find_stored store key hash ≡ some (index, entry)
      → is_nil entry.value ≡ false
      → is_nil value ≡ false
      → replace_at store index value ≡ some after
      → Change is_integer store after
  cleared :
      {store after : Store} (index : ℕ) (entry : Entry)
      → get_elem? store.entries index ≡ some entry
      → (entry.hash == entry_hash_empty) ≡ false
      → delete_at is_integer store index ≡ some after
      → Change is_integer store after
  retired :
      {store after : Store} (is_reference : ℕ → Bool) (index : ℕ) (entry : Entry)
      → get_elem? store.entries index ≡ some entry
      → (entry.hash == entry_hash_empty) ≡ false
      → retire_at is_reference store index ≡ some after
      → Change is_integer store after
  revived :
      {store after : Store} (key : Key) (hash index : ℕ) (entry : Entry) (value : Slot)
      → find_stored store key hash ≡ some (index, entry)
      → revive_stored is_integer store key index entry value ≡ some after
      → Change is_integer store after
  rehashed :
      {store after : Store} (capacity : ℕ)
      → rehash is_integer store capacity ≡ some after
      → Change is_integer store after

pub data Reached (is_integer : ℕ → Bool) : Store → Type 0 where
  made : {store : Store} (hint : ℕ) → new_store hint ≡ some store → Reached is_integer store
  changed :
      {store after : Store}
      → Reached is_integer store
      → Change is_integer store after
      → Reached is_integer after
