-- ===== src/Table/Room.antt =====
-- table_store.go: whether an insertion and a rehash find room.
pub mod Total
pub mod Fits
pub mod Ranged
pub mod Reclaim
pub mod Cursor
use lunar.Base.{
  some-injective, none-some, ℕ, zero, suc, ◌+◌, ◌-◌, ◌≡◌, ◌≤◌, ◌<◌, refl, sym, ◌∙◌, ap, Bool, true,
  false, not, ◌&&◌, ◌||◌, Option, none, some, List, [], ◌∷◌, get_elem?, set, length, length-set,
  replicate, arith, ◌==◌, ltb, if◌then◌else◌, inl, inr, Bool-cases, Option-cases, Nat-eq, if-keeps,
  ◌⊎◌, ◌^◌,
}
use mathlib.Core.Path.{subst}
use lunar.Slot.{Slot, is_nil}
use lunar.Table.Store.{Key, Entry, Store, main_index}
use lunar.Table.Sizes.{next_power_of_two, maximum_table_store_capacity}
use lunar.Table.Growth.{next_power_of_two_lem}
use lunar.Table.Insert.{
  insert_absent, delete_at, revive_at, revive_stored, revived_key, empty_entry,
  consume_dead_candidate, record_insert, drop_dead,
}
use lunar.Table.Change.{
  empty_store, new_store, unless_full, refill, rehash, replace_at, retire_at, Change, inserted,
  deleted, replaced, cleared, retired, revived, rehashed, Reached, made, changed, retired_key,
}
use lunar.Table.Counts.{bit, count, is_used, live_entry, dead_entry, IsCounted, get_elem?-set}
use lunar.Table.Chain.Nodes.{Links}
use lunar.Table.Chain.Cleared.{no-Gains}
use lunar.Table.Chain.Added.{insert_absent-Inserts}
use lunar.Table.Lookup.{find_stored-matches}
use lunar.Table.Chain.Walk.{get_elem?-below}
use lunar.Table.Chain.Refilled.{taken, one_taken, live_part}
use lunar.Table.Map.Sound.{IsSound}
use lunar.Table.Map.Steps.{Reached-IsSound}
use lunar.Table.Kept.{Reached-IsCounted, insert_absent-IsCounted}
use lunar.Table.Room.Reclaim.{IsInRange}
use lunar.Table.Room.Fits.{consumed, insert_absent-Fits}
use lunar.Table.Room.Ranged.{
  Refilling, insert_absent-IsInRange, taken-Refilling, empty-Refilling, rehash-IsInRange,
  new_store-IsInRange, delete_at-IsInRange,
}
use lunar.Table.Room.Cursor.{Reached-IsInRange}

module _ (is_integer : ℕ → Bool) where
  dead_idle : (u n : Bool) → (u && not (not n)) ≡ true → (u && not n) ≡ false
  dead_idle true true d = refl
  dead_idle true false d = cc
  dead_idle false n d = refl

  -- With a node to spare the insertion is done.
  spare_done :
      (store : Store) (key : Key) (value : Slot) (hash : ℕ)
      → Links (length store.entries) store.entries
      → IsCounted is_integer store
      → IsInRange store
      → is_nil value ≡ false
      → (hash == 0) ≡ false
      → store.live < length store.entries
      → (after : Store) × (insert_absent is_integer store key value hash ≡ some (true, after))
  spare_done store key value hash links counted range present hashed spare =
      let (done, after, e, _, full) =
        insert_absent-Fits is_integer key value hash store links counted range
          (omega (arith, spare)) hashed in
      answer done after e full
    where
      answer :
          (done : Bool) (after : Store)
          → insert_absent is_integer store key value hash ≡ some (done, after)
          → (done ≡ false → after.live ≡ length after.entries)
          → (after : Store) × (insert_absent is_integer store key value hash ≡ some (true, after))
      answer true after e full = (after, e)
      answer false after e full =
          let (_, same, gains) =
            insert_absent-Inserts is_integer key value hash hashed (length store.entries)
              store.entries store (false, after) (links, refl, no-Gains store.entries) e in
          let (_, equal) = gains live_entry (λ x n. refl) (λ x u. rw u refl) in
          let lives = equal (λ x d. dead_idle (is_used x) (is_nil x.value) d) in
          let counted' =
            insert_absent-IsCounted is_integer store key value hash (false, after) counted present
              e in
          let right = counted.live in
          let right' = counted'.live in
          let no_room = full refl in
          absurd (omega (arith, lives, right, right', no_room, same, spare))

  taken-live :
      (size : ℕ) (store : Store) (entry : Entry) (after : Store)
      → Refilling is_integer size store
      → taken is_integer store entry ≡ some after
      → after.live ≡ store.live + bit (live_entry entry)
  taken-live size store entry after (links, same, counted, range) found =
      let (_, refills) = one_taken is_integer size store entry after (links, same) found in
      let (_, equal) = refills live_entry (λ x n. refl) (λ x u. rw u refl) in
      let lives = equal (λ x d. dead_idle (is_used x) (is_nil x.value) d) in
      let (_, _, counted', _) =
        taken-Refilling is_integer size store entry after (links, same, counted, range) found in
      let right = counted.live in
      let right' = counted'.live in
      let twice = both_bits (live_entry entry) in omega (arith, lives, right, right', twice)
    where
      both_bits : (b : Bool) → bit (b && b) ≡ bit b
      both_bits true = refl
      both_bits false = refl

  taken_total :
      (size : ℕ) (store : Store) (entry : Entry)
      → Refilling is_integer size store
      → store.live + bit (live_entry entry) ≤ size
      → (after : Store) × (taken is_integer store entry ≡ some after)
  taken_total size store entry (links, same, counted, range) spare =
      elim (Bool-cases (entry.hash == 0 || is_nil entry.value)) [
        | inl skip ↦ (store, rw skip refl)
        | inr take ↦
            let (hashed, present) = neither_one (entry.hash == 0) (is_nil entry.value) take in
            let live : live_entry entry ≡ true = rw (hashed, present) refl in
            let room = rw live at spare in
            let (after, e) =
              spare_done store entry.key entry.value entry.hash (rw same links) counted range
                present hashed (omega (arith, room, same)) in
            (after, rw (take, e) refl)
      ]
    where
      neither_one : (a b : Bool) → (a || b) ≡ false → (a ≡ false) × (b ≡ false)
      neither_one true b h = cc
      neither_one false b h = (refl, h)

  refill_total :
      (size : ℕ) (given : List Entry) (store : Store)
      → Refilling is_integer size store
      → store.live + count live_entry given ≤ size
      → (after : Store) × (refill is_integer (some store) given ≡ some after)
  unfolding refill
  refill_total size [] store kept spare = (store, refl)
  refill_total size (entry ∷ given) store kept spare =
      let (middle, e) = taken_total size store entry kept (omega (arith, spare)) in
      let more = taken-live size store entry middle kept e in
      let (after, f) =
        refill_total size given middle (taken-Refilling is_integer size store entry middle kept e)
          (omega (arith, spare, more)) in
      let found : refill is_integer (taken is_integer store entry) given ≡ some after = rw e f in
      (after, found)

  rehash_room :
      (store : Store) (capacity room : ℕ)
      → IsCounted is_integer store
      → (capacity == 0 || ltb maximum_table_store_capacity capacity) ≡ false
      → (if ltb capacity store.live then next_power_of_two store.live else some capacity)
        ≡ some room
      → store.live ≤ room
      → (after : Store) × (rehash is_integer store capacity ≡ some after)
  unfolding rehash
  rehash_room store capacity room counted good found fits =
      let right = counted.live in
      let (after, e) =
        refill_total room store.entries (empty_store room) (empty-Refilling is_integer room)
          (omega (arith, right, fits)) in
      (after, rw (rehash, good, found) e)

-- In a store that was reached, for every key, value that is not nil and hash that is not zero, an
-- insertion where not every node is live does not panic and is done, whatever deleted nodes and chains
-- there are.
pub insert_absent-done :
    (is_integer : ℕ → Bool) (store : Store) (key : Key) (value : Slot) (hash : ℕ)
    → Reached is_integer store
    → is_nil value ≡ false
    → (hash == 0) ≡ false
    → store.live < length store.entries
    → (after : Store) × (insert_absent is_integer store key value hash ≡ some (true, after))
insert_absent-done is_integer store key value hash reached present hashed spare =
    let sound = Reached-IsSound is_integer store reached in
    spare_done is_integer store key value hash sound.links
      (Reached-IsCounted is_integer store reached) (Reached-IsInRange is_integer store reached)
      present hashed spare

-- In a store that was reached, a rehash to a capacity that is neither zero nor above the limit returns a
-- store, where the live nodes do not exceed the limit.
pub rehash-returns :
    (is_integer : ℕ → Bool) (store : Store) (capacity : ℕ)
    → Reached is_integer store
    → 0 < capacity
    → capacity ≤ maximum_table_store_capacity
    → store.live ≤ maximum_table_store_capacity
    → (after : Store) × (rehash is_integer store capacity ≡ some after)
rehash-returns is_integer store capacity reached positive fits fits' =
    let counted = Reached-IsCounted is_integer store reached in
    let good : (capacity == 0 || ltb maximum_table_store_capacity capacity) ≡ false =
      ground (arith, positive, fits) in
    elim (Bool-cases (ltb capacity store.live)) [
      | inl more ↦
          let (k, e, enough, _) = next_power_of_two_lem store.live (ground (arith, more)) fits' in
          rehash_room is_integer store capacity (2 ^ k) counted good (rw more e) enough
      | inr enough ↦
          rehash_room is_integer store capacity capacity counted good (rw enough refl)
            (ground (arith, enough))
    ]
