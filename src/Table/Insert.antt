-- ===== src/Table/Insert.antt =====
-- table_store.go: the operations that change the record store. `none` is a panic. Whether a number is a
-- positive integer is asked of Go's float64, and a parameter.
use lunar.Base.{
  ℕ, zero, suc, ◌+◌, ◌-◌, ◌/◌, Bool, true, false, not, ◌&&◌, ◌||◌, Option, none, some, List, [],
  ◌∷◌, length, get_elem?, set, ltb, leb, ◌==◌, if◌then◌else◌,
}
use lunar.Slot.{Slot, is_nil}
use lunar.Table.Object.{nil_slot}
use lunar.Table.Store.{
  Key, plain_key, object_key, dead_key, Entry, Store, entry_hash_empty, main_index, is_live,
}

-- `tableEntry{}`.
abbrev pub empty_entry : Entry
empty_entry = record {
  key = plain_key 0;
  value = record { ref = false; bits = 0 };
  hash = 0;
  next = 0;
}

-- The successor of one node is changed.
abbrev pub relink : List Entry → ℕ → ℕ → List Entry
relink [] index next = []
relink (entry ∷ entries) zero next = record entry { next = next } ∷ entries
relink (entry ∷ entries) (suc index) next = entry ∷ relink entries index next

-- The node of a chain whose successor is the target; the rounds bound the chain.
unfoldable pub predecessor : ℕ → List Entry → ℕ → ℕ → Option ℕ
predecessor zero entries start target = none
predecessor (suc rounds) entries start target = elim (get_elem? entries start) [
  | none ↦ none
  | some entry ↦
      let rest = predecessor rounds entries (entry.next - 1) target in
      if entry.next == target + 1 then some start else if entry.next == 0 then none else rest
]

abbrev pub drop_dead : Store → List Entry → Store
drop_dead store entries = record store { entries = entries; dead = store.dead - 1 }

-- The node behind a dead head moves into its place.
abbrev pub promote : Store → ℕ → ℕ → Option Entry → Option (ℕ × Store)
promote store index successor none = none
promote store index successor (some entry) =
    some (successor, drop_dead store (set (set store.entries index entry) successor empty_entry))

abbrev pub unlink : Store → ℕ → Entry → Option ℕ → Option (ℕ × Store)
unlink store index entry none = none
unlink store index entry (some before) =
    some (index, drop_dead store (set (relink store.entries before entry.next) index empty_entry))

abbrev pub reclaim : Store → ℕ → Entry → Option (ℕ × Store)
reclaim store index entry =
    if entry.hash == entry_hash_empty || is_live entry
    then none
    else if not (main_index store entry.hash == index)
    then unlink store index entry
        (predecessor (length store.entries) store.entries (main_index store entry.hash) index)
    else if entry.next == 0
    then some (index, drop_dead store (set store.entries index empty_entry))
    else promote store index (entry.next - 1) (get_elem? store.entries (entry.next - 1))

unfoldable pub reclaim_dead_at : Store → ℕ → Option (ℕ × Store)
reclaim_dead_at store index = elim (get_elem? store.entries index) [
  | none ↦ none
  | some entry ↦ reclaim store index entry
]

abbrev pub consume_dead_candidate : Store → ℕ → Store
consume_dead_candidate store index = record store {
  last_free = if store.last_free == index + 1 then store.last_free - 1 else store.last_free;
}

-- What is left at the index, dead again, stays eligible.
abbrev pub keep_eligible : Store → ℕ → Option Entry → Store
keep_eligible store index none = store
keep_eligible store index (some entry) =
    if not (entry.hash == entry_hash_empty) && is_nil entry.value
    then record store { last_free = index + 1 }
    else store

abbrev pub reclaimed : ℕ → Option (ℕ × Store) → Option (Option ℕ × Store)
reclaimed index none = none
reclaimed index (some (free, store)) =
    some (some free, keep_eligible store index (get_elem? store.entries index))

-- `takeFreeDownTo` from a cursor.
unfoldable pub take_free_down_to : Store → ℕ → ℕ → Option (Option ℕ × Store)
unfolding reclaim_dead_at
take_free_down_to store limit zero = some (none, record store { last_free = 0 })
take_free_down_to store limit (suc index) =
    let rest = take_free_down_to store limit index in
    if leb (suc index) limit
    then some (none, record store { last_free = suc index })
    else elim (get_elem? store.entries index) [
      | none ↦ none
      | some entry ↦
          if entry.hash == entry_hash_empty
          then some (some index, record store { last_free = index })
          else if is_nil entry.value
          then reclaimed index (reclaim_dead_at (record store { last_free = index }) index)
          else rest
    ]

-- The second scan has to find a node.
abbrev pub found_free : Option (Option ℕ × Store) → Option (Option ℕ × Store)
found_free none = none
found_free (some (none, store)) = none
found_free (some (some free, store)) = some (some free, store)

abbrev pub wrap_scan : ℕ → Option (Option ℕ × Store) → Option (Option ℕ × Store)
wrap_scan start none = none
wrap_scan start (some (some free, store)) = some (some free, store)
wrap_scan start (some (none, store)) =
    if store.dead == 0 && store.live == length store.entries
    then some (none, store)
    else found_free (take_free_down_to store start (length store.entries))

unfoldable pub take_free : Store → Option (Option ℕ × Store)
unfolding take_free_down_to
take_free store = wrap_scan store.last_free (take_free_down_to store 0 store.last_free)

module _ (is_integer : ℕ → Bool) where
  -- `isPositiveIntegerKey`.
  abbrev pub is_positive_integer_key : Key → Bool
  is_positive_integer_key (plain_key bits) = is_integer bits
  is_positive_integer_key (object_key o) = false
  is_positive_integer_key (dead_key o) = false

  abbrev pub record_insert : Store → Key → Store
  record_insert store key = record store {
    live = store.live + 1;
    integer_keys =
        if is_positive_integer_key key then store.integer_keys + 1 else store.integer_keys;
    last_free =
        if store.dead == 0 && store.live + 1 == length store.entries then 0 else store.last_free;
  }

  abbrev pub with_entries : Store → List Entry → Store
  with_entries store entries = record store { entries = entries }

  unfoldable pub delete_at : Store → ℕ → Option Store
  delete_at store index = elim (get_elem? store.entries index) [
    | none ↦ none
    | some entry ↦
        if is_nil entry.value
        then none
        else some (record store {
          entries = set store.entries index (record entry { value = nil_slot });
          integer_keys =
              if is_positive_integer_key entry.key
              then store.integer_keys - 1
              else store.integer_keys;
          live = store.live - 1;
          dead = store.dead + 1;
          last_free = index + 1;
        })
  ]

  unfoldable pub revive_at : Store → ℕ → Slot → Option Store
  revive_at store index value = elim (get_elem? store.entries index) [
    | none ↦ none
    | some entry ↦
        if not (is_nil entry.value) || is_nil value
        then none
        else some (
            consume_dead_candidate
              (record_insert
                (drop_dead store (set store.entries index (record entry { value = value })))
                entry.key)
              index)
  ]

  -- What `setStoredRecordSlow` does to a deleted node where the store is not compacted: a dead key is
  -- replaced by the key that matched it.
  abbrev pub revived_key : Key → Key → Key
  revived_key (dead_key a) key = key
  revived_key (plain_key a) key = plain_key a
  revived_key (object_key a) key = object_key a

  unfoldable pub revive_stored : Store → Key → ℕ → Entry → Slot → Option Store
  unfolding revive_at
  revive_stored store key index entry value =
      if not (is_nil entry.value) || is_nil value
      then none
      else revive_at
          (record store {
            entries = set store.entries index (record entry { key = revived_key entry.key key });
          })
          index value

  abbrev pub fresh : Key → Slot → ℕ → ℕ → Entry
  fresh key value hash next = record { key = key; value = value; hash = hash; next = next }

  -- A node in the main position of another chain moves to the free one.
  abbrev pub displace : Store → Key → Slot → ℕ → ℕ → ℕ → Entry → Option ℕ → Option (Bool × Store)
  displace store key value hash main free occupant none = none
  displace store key value hash main free occupant (some before) = some (
    true,
    record_insert
        (with_entries store (
          set (relink (set store.entries free occupant) before (free + 1)) main
            (fresh key value hash 0)))
        key,
  )

  abbrev pub insert_beside : Store → Key → Slot → ℕ → ℕ → ℕ → Option Entry → Option (Bool × Store)
  insert_beside store key value hash main free none = none
  insert_beside store key value hash main free (some occupant) =
      if occupant.hash == entry_hash_empty
      then some (
        true,
        record_insert (with_entries store (set store.entries main (fresh key value hash 0))) key,
      )
      else if not (main_index store occupant.hash == main)
      then displace store key value hash main free occupant
          (predecessor (length store.entries) store.entries (main_index store occupant.hash) main)
      else some (
        true,
        record_insert
            (with_entries store (
              set (relink store.entries main (free + 1)) free (fresh key value hash occupant.next)))
            key,
      )

  abbrev pub insert_free : Key → Slot → ℕ → ℕ → Option (Option ℕ × Store) → Option (Bool × Store)
  insert_free key value hash main none = none
  insert_free key value hash main (some (none, store)) = some (false, store)
  insert_free key value hash main (some (some free, store)) =
      insert_beside store key value hash main free (get_elem? store.entries main)

  -- Over a dead node: a head keeps its successors, another node is unlinked first.
  abbrev pub insert_over : Key → Slot → ℕ → ℕ → ℕ → Store → Option (Bool × Store)
  insert_over key value hash main next store = some (
    true,
    consume_dead_candidate
        (record_insert (with_entries store (set store.entries main (fresh key value hash next)))
          key)
        main,
  )

  abbrev pub insert_unlinked : Key → Slot → ℕ → ℕ → Option (ℕ × Store) → Option (Bool × Store)
  insert_unlinked key value hash main none = none
  insert_unlinked key value hash main (some (free, store)) =
      if free == main then insert_over key value hash main 0 store else none

  abbrev pub insert_at : Store → Key → Slot → ℕ → ℕ → Entry → Option (Bool × Store)
  insert_at store key value hash main entry =
      if entry.hash == entry_hash_empty
      then some (
        true,
        record_insert (with_entries store (set store.entries main (fresh key value hash 0))) key,
      )
      else if is_nil entry.value
      then (if main_index store entry.hash == main
          then insert_over key value hash main entry.next (drop_dead store store.entries)
          else insert_unlinked key value hash main (reclaim_dead_at store main))
      else insert_free key value hash main (take_free store)

  -- The answer is false where the store is full.
  unfoldable pub insert_absent : Store → Key → Slot → ℕ → Option (Bool × Store)
  unfolding reclaim_dead_at take_free
  insert_absent store key value hash =
      if hash == entry_hash_empty
      then none
      else elim (get_elem? store.entries (main_index store hash)) [
        | none ↦ none
        | some entry ↦ insert_at store key value hash (main_index store hash) entry
      ]

-- A larger dead majority.
unfoldable pub should_compact : Store → Bool
should_compact store =
    ltb 1 store.dead && ltb (length store.entries / 4) store.dead && ltb store.live store.dead
