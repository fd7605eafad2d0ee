-- ===== src/Table/Room/Cursor.antt =====
-- table_store.go: where the cursor `lastFree` of a store stands.
use lunar.Base.{
  some-injective, none-some, ℕ, ◌+◌, ◌≡◌, ◌≤◌, Bool, not, ◌&&◌, ◌||◌, some, get_elem?, set, length,
  length-set, arith, ◌==◌, inl, inr, Bool-cases, Option-cases, if-keeps,
}
use mathlib.Core.Path.{subst}
use lunar.Slot.{Slot, is_nil}
use lunar.Table.Store.{Entry, Store}
use lunar.Table.Insert.{revive_at, revive_stored, revived_key, record_insert, drop_dead}
use lunar.Table.Change.{
  replace_at, retire_at, Change, inserted, deleted, replaced, cleared, retired, revived, rehashed,
  Reached, made, changed, retired_key,
}
use lunar.Table.Counts.{IsCounted}
use lunar.Table.Lookup.{find_stored-matches}
use lunar.Table.Map.Sound.{IsSound}
use lunar.Table.Map.Steps.{Reached-IsSound}
use lunar.Table.Kept.{Reached-IsCounted}
use lunar.Table.Room.Reclaim.{IsInRange}
use lunar.Table.Room.Fits.{consumed}
use lunar.Table.Room.Ranged.{
  insert_absent-IsInRange, rehash-IsInRange, new_store-IsInRange, delete_at-IsInRange,
}

module _ (is_integer : ℕ → Bool) where
  revive_at-IsInRange :
      (store : Store) (index : ℕ) (value : Slot) (after : Store)
      → IsInRange store
      → revive_at is_integer store index value ≡ some after
      → IsInRange after
  unfolding revive_at
  revive_at-IsInRange store index value after range h =
      elim (Option-cases (get_elem? store.entries index)) [
        | inl out ↦ absurd (none-some (rw (revive_at, out) at h))
        | inr (entry, at) ↦
            let h1 = rw (revive_at, at) at h in
            elim (Bool-cases (not (is_nil entry.value) || is_nil value)) [
              | inl bad ↦ absurd (none-some (rw bad at h1))
              | inr good ↦
                  let new : Entry = record entry { value = value } in
                  let same = length-set store.entries index new in
                  let dropped = drop_dead store (set store.entries index new) in
                  subst IsInRange (some-injective (rw good at h1)) (
                    consumed is_integer entry.key value 0
                      (record_insert is_integer dropped entry.key) index
                      (if-keeps (λ n. n ≤ length (set store.entries index new))
                        (dropped.dead == 0 && dropped.live + 1 == length dropped.entries)
                        (λ _. omega arith) (λ _. omega (arith, range, same))))
            ]
      ]

  Change-IsInRange :
      (store after : Store)
      → IsSound store.entries
      → IsCounted is_integer store
      → Change is_integer store after
      → IsInRange store
      → IsInRange after
  unfolding revive_stored replace_at retire_at
  Change-IsInRange store after sound counted (inserted key value hash done own present absent h)
        range =
      insert_absent-IsInRange is_integer store key value hash done after sound.links counted range h
  Change-IsInRange store after sound counted (deleted key hash index entry found h) range =
      delete_at-IsInRange is_integer store after index h
  Change-IsInRange store after sound counted (cleared index entry at hashed h) range =
      delete_at-IsInRange is_integer store after index h
  Change-IsInRange store after sound counted
        (replaced key hash index entry value found alive present h) range =
      let (at, _, _) = find_stored-matches store key hash index entry found in
      let same = length-set store.entries index (record entry { value = value }) in
      subst IsInRange (some-injective (rw (replace_at, at) at h)) (omega (arith, range, same))
  Change-IsInRange store after sound counted (retired is_reference index entry at hashed h) range =
      let new : Entry = record entry { key = retired_key is_reference entry.key } in
      let same = length-set store.entries index new in
      elim (Bool-cases (is_nil entry.value)) [
        | inr alive ↦ absurd (none-some (rw (retire_at, at, alive) at h))
        | inl gone ↦
            subst IsInRange (some-injective (rw (retire_at, at, gone) at h))
              (omega (arith, range, same))
      ]
  Change-IsInRange store after sound counted (revived key hash index entry value found h) range =
      elim (Bool-cases (not (is_nil entry.value) || is_nil value)) [
        | inl bad ↦ absurd (none-some (rw (revive_stored, bad) at h))
        | inr good ↦
            let new : Entry = record entry { key = revived_key is_integer entry.key key } in
            let same = length-set store.entries index new in
            revive_at-IsInRange (record store { entries = set store.entries index new }) index value
              after (omega (arith, range, same)) (rw (revive_stored, good) at h)
      ]
  Change-IsInRange store after sound counted (rehashed capacity h) range =
      rehash-IsInRange is_integer store after capacity h

  pub Reached-IsInRange : (store : Store) → Reached is_integer store → IsInRange store
  Reached-IsInRange store (made hint h) = new_store-IsInRange is_integer hint store h
  Reached-IsInRange store (changed {store = before} reached change) =
      Change-IsInRange before store (Reached-IsSound is_integer before reached)
        (Reached-IsCounted is_integer before reached) change (Reached-IsInRange before reached)
