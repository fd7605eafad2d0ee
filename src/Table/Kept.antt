-- ===== src/Table/Kept.antt =====
-- table_store.go: whatever a table does to its store, the counters count the nodes.
mod Single
use lunar.Base.{
  some-injective, none-some, ℕ, zero, suc, ◌-◌, ◌≡◌, refl, sym, ◌∙◌, Bool, true, false, not, ◌&&◌,
  ◌||◌, Option, none, some, List, [], ◌∷◌, get_elem?, set, replicate, arith, ltb, ◌==◌,
  if◌then◌else◌, inl, inr, Bool-cases, Option-cases,
}
use mathlib.Core.Path.{subst}
use lunar.Slot.{Slot, is_nil}
use lunar.Table.Object.{nil_slot}
use lunar.Table.Store.{Key, Entry, Store, main_index}
use lunar.Table.Sizes.{next_power_of_two, maximum_table_store_capacity}
use lunar.Table.Insert.{
  revive_stored, revived_key, empty_entry, is_positive_integer_key, delete_at, revive_at,
  insert_absent,
}
use lunar.Table.Change.{
  empty_store, new_store, unless_full, refill, rehash, rehashed, Change, inserted, deleted, revived,
  replaced, cleared, retired, replace_at, retire_at, retired_key, Reached, made, changed,
}
use lunar.Table.Counts.{
  get_elem?-set, bit, count, set-Swapped, is_used, live_entry, dead_entry, integer_entry, IsCounted,
}
use lunar.Table.Counted.{dead_bits, moved-IsCounted, record_insert-IsCounted}
use lunar.Table.Lookup.{find-live, find_stored-matches}
use lunar.Table.Inserted.{insert_at-IsCounted}
use lunar.Table.Kept.Single.{
  delete_at-IsCounted, revive_at-IsCounted, rewritten-IsCounted, replace_at-IsCounted,
  retire_at-IsCounted, revive_stored-IsCounted,
}

second_false : (a b : Bool) → (a || b) ≡ false → b ≡ false
second_false true b h = cc
second_false false b h = h

count-replicate :
    (p : Entry → Bool) (n : ℕ) → p empty_entry ≡ false → count p (replicate n empty_entry) ≡ 0
count-replicate p zero h = refl
count-replicate p (suc n) h = rw (h, count-replicate p n h)

module _ (is_integer : ℕ → Bool) where
  pub insert_absent-IsCounted :
      (store : Store) (key : Key) (value : Slot) (hash : ℕ) (answer : Bool × Store)
      → IsCounted is_integer store
      → is_nil value ≡ false
      → insert_absent is_integer store key value hash ≡ some answer
      → IsCounted is_integer answer.1
  unfolding insert_absent
  insert_absent-IsCounted store key value hash answer counted present h =
      elim (Bool-cases (hash == 0)) [
        | inl zero_hash ↦ absurd (none-some (rw (insert_absent, zero_hash) at h))
        | inr hashed ↦
            let h1 = rw (insert_absent, hashed) at h in
            elim (Option-cases (get_elem? store.entries (main_index store hash))) [
              | inl out ↦ absurd (none-some (rw out at h1))
              | inr (entry, at) ↦
                  insert_at-IsCounted is_integer key value hash hashed present store
                    (main_index store hash) entry answer counted at (rw at at h1)
            ]
      ]

  pub empty_store-IsCounted : (capacity : ℕ) → IsCounted is_integer (empty_store capacity)
  empty_store-IsCounted capacity = record {
    live = sym (count-replicate live_entry capacity refl);
    dead = sym (count-replicate dead_entry capacity refl);
    integers = sym (count-replicate (integer_entry is_integer) capacity refl);
  }

  new_store-IsCounted :
      (hint : ℕ) (store : Store) → new_store hint ≡ some store → IsCounted is_integer store
  unfolding new_store
  new_store-IsCounted hint store h = elim (Bool-cases (hint == 0)) [
    | inl none_wanted ↦
        subst (IsCounted is_integer) (some-injective (rw none_wanted at h))
          (empty_store-IsCounted 0)
    | inr wanted ↦
        let h1 = rw wanted at h in
        elim (Option-cases (next_power_of_two hint)) [
          | inl panic ↦ absurd (none-some (rw panic at h1))
          | inr (capacity, e) ↦
              subst (IsCounted is_integer) (some-injective (rw e at h1))
                (empty_store-IsCounted capacity)
        ]
  ]

  unless_full-IsCounted :
      (o : Option (Bool × Store)) (after : Store)
      → ((a : Bool × Store) → o ≡ some a → IsCounted is_integer a.1)
      → unless_full is_integer o ≡ some after
      → IsCounted is_integer after
  unless_full-IsCounted none after each h = cc
  unless_full-IsCounted (some (false, store)) after each h = cc
  unless_full-IsCounted (some (true, store)) after each h =
      subst (IsCounted is_integer) (some-injective h) (each (true, store) refl)

  refill-IsCounted :
      (entries : List Entry) (o : Option Store) (after : Store)
      → ((store : Store) → o ≡ some store → IsCounted is_integer store)
      → refill is_integer o entries ≡ some after
      → IsCounted is_integer after
  unfolding refill
  refill-IsCounted entries none after each h = cc
  refill-IsCounted [] (some store) after each h = each after h
  refill-IsCounted (entry ∷ entries) (some store) after each h =
      refill-IsCounted entries _ after (next (entry.hash == 0 || is_nil entry.value) refl) h
    where
      next :
          (skip : Bool)
          → (entry.hash == 0 || is_nil entry.value) ≡ skip
          → (s : Store)
          → (if skip
              then some store
              else unless_full is_integer
                  (insert_absent is_integer store entry.key entry.value entry.hash))
            ≡ some s
          → IsCounted is_integer s
      next true skipped s e = each s e
      next false taken s e =
          unless_full-IsCounted _ s
            (λ a f.
              insert_absent-IsCounted store entry.key entry.value entry.hash a (each store refl)
                (second_false (entry.hash == 0) (is_nil entry.value) taken) f)
            e

  rehash-IsCounted :
      (store after : Store) (capacity : ℕ)
      → rehash is_integer store capacity ≡ some after
      → IsCounted is_integer after
  unfolding rehash
  rehash-IsCounted store after capacity h =
      elim (Bool-cases (capacity == 0 || ltb maximum_table_store_capacity capacity)) [
        | inl bad ↦ absurd (none-some (rw bad at h))
        | inr good ↦
            let h1 = rw good at h in
            elim (Option-cases
              (if ltb capacity store.live then next_power_of_two store.live else some capacity)) [
                | inl panic ↦ absurd (none-some (rw panic at h1))
                | inr (room, e) ↦
                    refill-IsCounted store.entries (some (empty_store room)) after
                      (λ s f.
                        subst (IsCounted is_integer) (some-injective f)
                          (empty_store-IsCounted room))
                      (rw e at h1)
              ]
      ]

  Change-IsCounted :
      (store after : Store)
      → Change is_integer store after
      → IsCounted is_integer store
      → IsCounted is_integer after
  unfolding delete_at
  Change-IsCounted store after (inserted key value hash done own present absent h) counted =
      insert_absent-IsCounted store key value hash (done, after) counted present h
  Change-IsCounted store after (deleted key hash index entry found h) counted =
      let (at, alive) = find-live store key hash index entry found in
      delete_at-IsCounted is_integer store index entry after counted at alive h
  Change-IsCounted store after (revived key hash index entry value found h) counted =
      let (at, used, _) = find_stored-matches store key hash index entry found in
      revive_stored-IsCounted is_integer store key index entry value after counted at used h
  Change-IsCounted store after (replaced key hash index entry value found alive present h) counted =
      let (at, used, _) = find_stored-matches store key hash index entry found in
      replace_at-IsCounted is_integer store index entry value after counted at used alive present h
  Change-IsCounted store after (cleared index entry at hashed h) counted =
      elim (Bool-cases (is_nil entry.value)) [
        | inl gone ↦ absurd (none-some (rw (delete_at, at, gone) at h))
        | inr alive ↦
            delete_at-IsCounted is_integer store index entry after counted at (rw (hashed, alive)) h
      ]
  Change-IsCounted store after (retired is_reference index entry at hashed h) counted =
      retire_at-IsCounted is_integer is_reference store index entry after counted at hashed h
  Change-IsCounted store after (rehashed capacity h) counted =
      rehash-IsCounted store after capacity h

-- In every store that is made empty and then changed by insertions of absent keys, replacements of
-- values, deletions of keys that are found, clearings, retirements of deleted keys, revivals of deleted
-- nodes that are found and rehashes, the counters are right: `live` is the number of nodes with a value,
-- `dead` that of deleted nodes, and `integer_keys` that of live nodes whose key is a positive integer.
pub Reached-IsCounted :
    (is_integer : ℕ → Bool) (store : Store) → Reached is_integer store → IsCounted is_integer store
Reached-IsCounted is_integer store (made hint h) = new_store-IsCounted is_integer hint store h
Reached-IsCounted is_integer store (changed reached change) =
    Change-IsCounted is_integer _ store change (Reached-IsCounted is_integer _ reached)
