-- ===== src/Table/Map/Steps.antt =====
-- table_store.go: the chains of the stores that are reached.
use lunar.Base.{
  both_true, some-injective, none-some, ℕ, ◌≡◌, refl, Bool, true, false, ◌&&◌, some, List,
  get_elem?, set, replicate, arith, ◌==◌, inl, inr, Bool-cases, Option-cases,
}
use mathlib.Core.Path.{subst}
use lunar.Slot.{is_nil}
use lunar.Table.Object.{nil_slot}
use lunar.Table.Store.{Entry, Store}
use lunar.Table.Sizes.{next_power_of_two}
use lunar.Table.Insert.{empty_entry, revived_key}
use lunar.Table.Change.{
  new_store, rehash, retired_key, Change, inserted, deleted, replaced, cleared, retired, revived,
  rehashed, Reached, made, changed,
}
use lunar.Table.Counts.{is_used, live_entry}
use lunar.Table.Lookup.{find-live, find_stored-matches}
use lunar.Table.Map.Keys.{
  is_dead_key, retired_key-answers, revived_key-answers, revived_key-not_dead, some-count,
  count_mono,
}
use lunar.Table.Chain.Refilled.{live_part, rehash-Refills, empty-Links, length-empty, count-empty}
use lunar.Table.Map.Sound.{
  answers, dead_live, IsSound, renewed-IsSound, replace_at-set, retire_at-set, delete_at-set,
  revive_stored-set, insert_absent-IsSound,
}

-- A live node of a sound store has no dead key.
pub live_key :
    (entries : List Entry) (index : ℕ) (entry : Entry)
    → IsSound entries
    → get_elem? entries index ≡ some entry
    → is_used entry ≡ true
    → is_nil entry.value ≡ false
    → is_dead_key entry.key ≡ false
live_key entries index entry sound at used alive = elim (Bool-cases (is_dead_key entry.key)) [
  | inr fine ↦ fine
  | inl dead ↦
      let some_dead = some-count dead_live entries index entry at (rw (used, alive, dead) refl) in
      let none_dead = sound.undead in absurd (omega (arith, some_dead, none_dead))
]

nil_is_nil : is_nil nil_slot ≡ true
unfolding is_nil
nil_is_nil = refl

empty-IsSound : (n : ℕ) → IsSound (replicate n empty_entry)
empty-IsSound n = record {
  links = rw (length-empty n) (empty-Links n n);
  unique = λ key hash. let e = count-empty (answers key hash) n refl in omega (arith, e);
  undead = count-empty dead_live n refl;
}

new_store-IsSound : (hint : ℕ) (store : Store) → new_store hint ≡ some store → IsSound store.entries
unfolding new_store
new_store-IsSound hint store h = elim (Bool-cases (hint == 0)) [
  | inl none_wanted ↦
      subst (λ (s : Store). IsSound s.entries) (some-injective (rw none_wanted at h))
        (empty-IsSound 0)
  | inr wanted ↦
      let h1 = rw wanted at h in
      elim (Option-cases (next_power_of_two hint)) [
        | inl panic ↦ absurd (none-some (rw panic at h1))
        | inr (capacity, e) ↦
            subst (λ (s : Store). IsSound s.entries) (some-injective (rw e at h1))
              (empty-IsSound capacity)
      ]
]

module _ (is_integer : ℕ → Bool) where
  rehash-IsSound :
      (store after : Store) (capacity : ℕ)
      → IsSound store.entries
      → rehash is_integer store capacity ≡ some after
      → IsSound after.entries
  rehash-IsSound store after capacity sound h =
      let (links, refills) = rehash-Refills is_integer store after capacity h in
      record {
        links = links;
        unique = λ key hash.
            let (less, _) = refills (answers key hash) (λ e n. refl) (λ e u. rw u refl) in
            let more =
              count_mono (live_part (answers key hash)) (answers key hash) store.entries
                (λ e h. (both_true (live_entry e) (answers key hash e) h).1) in
            let one = sound.unique key hash in omega (arith, less, more, one);
        undead =
            let (less, _) = refills dead_live (λ e n. refl) (λ e u. rw u refl) in
            let more =
              count_mono (live_part dead_live) dead_live store.entries
                (λ e h. (both_true (live_entry e) (dead_live e) h).1) in
            let none_before = sound.undead in omega (arith, less, more, none_before);
      }

  delete-IsSound :
      (store after : Store) (index : ℕ) (entry : Entry)
      → IsSound store.entries
      → get_elem? store.entries index ≡ some entry
      → after.entries ≡ set store.entries index (record entry { value = nil_slot })
      → IsSound after.entries
  delete-IsSound store after index entry sound at e = rw e (
      renewed-IsSound store.entries index entry (record entry { value = nil_slot }) sound at refl
        refl (λ key. refl) (rw nil_is_nil (dull (is_used entry))))
    where
      dull : (b : Bool) → (b && false && is_dead_key entry.key) ≡ false
      dull true = refl
      dull false = refl

  pub Change-IsSound :
      (store after : Store)
      → Change is_integer store after
      → IsSound store.entries
      → IsSound after.entries
  Change-IsSound store after (inserted key value hash done own present absent h) sound =
      insert_absent-IsSound is_integer store key value hash done after sound own absent h
  Change-IsSound store after (deleted key hash index entry found h) sound =
      let (at, _) = find-live store key hash index entry found in
      delete-IsSound store after index entry sound at
        (delete_at-set is_integer store index entry after at h).1
  Change-IsSound store after (cleared index entry at hashed h) sound =
      delete-IsSound store after index entry sound at
        (delete_at-set is_integer store index entry after at h).1
  Change-IsSound store after (replaced key hash index entry value found alive present h) sound =
      let (at, used, _) = find_stored-matches store key hash index entry found in
      rw (replace_at-set store index entry value after at h) (
        renewed-IsSound store.entries index entry (record entry { value = value }) sound at refl
          refl (λ key. refl)
          (rw (used, present) (live_key store.entries index entry sound at used alive)))
  Change-IsSound store after (retired is_reference index entry at hashed h) sound =
      let (gone, e) = retire_at-set is_reference store index entry after at h in
      rw e (
        renewed-IsSound store.entries index entry
          (record entry { key = retired_key is_reference entry.key }) sound at refl refl
          (λ key. retired_key-answers is_reference entry.key key) (rw (hashed, gone) refl))
  Change-IsSound store after (revived key hash index entry value found h) sound =
      let (at, used, hit) = find_stored-matches store key hash index entry found in
      let (gone, present, e) =
        revive_stored-set is_integer store key index entry value after at h in
      let answer = (both_true (entry.hash == hash) _ hit).1 in
      rw e (
        renewed-IsSound store.entries index entry
          (record entry { key = revived_key is_integer entry.key key; value = value }) sound at refl
          refl (λ key'. revived_key-answers is_integer entry.key key key' answer)
          (rw (used, present, revived_key-not_dead is_integer entry.key key answer) refl))
  Change-IsSound store after (rehashed capacity h) sound =
      rehash-IsSound store after capacity sound h

-- In every store that is made empty and then changed by insertions of absent keys, replacements of
-- values, deletions, clearings, retirements of deleted keys, revivals and rehashes, the used nodes form
-- chains without cycles: each one outside its main position has one predecessor, a used node with the
-- same main position, and the successor of each is such a node. No two used nodes answer to one key and
-- hash, and no live node has a dead key.
pub Reached-IsSound :
    (is_integer : ℕ → Bool) (store : Store) → Reached is_integer store → IsSound store.entries
Reached-IsSound is_integer store (made hint h) = new_store-IsSound hint store h
Reached-IsSound is_integer store (changed reached change) =
    Change-IsSound is_integer _ store change (Reached-IsSound is_integer _ reached)
