-- ===== src/Table/Kept/Single.antt =====
-- table_store.go: a change of one node keeps the counters right.
use lunar.Base.{
  some-injective, none-some, ℕ, ◌-◌, ◌≡◌, refl, ◌∙◌, Bool, true, false, not, ◌&&◌, ◌||◌, some,
  get_elem?, set, arith, ◌==◌, if◌then◌else◌, inl, inr, Bool-cases,
}
use mathlib.Core.Path.{subst}
use lunar.Slot.{Slot, is_nil}
use lunar.Table.Object.{nil_slot}
use lunar.Table.Store.{Key, Entry, Store}
use lunar.Table.Insert.{revive_stored, revived_key, is_positive_integer_key, delete_at, revive_at}
use lunar.Table.Change.{replace_at, retire_at, retired_key}
use lunar.Table.Counts.{
  get_elem?-set, bit, set-Swapped, is_used, live_entry, dead_entry, integer_entry, IsCounted,
}
use lunar.Table.Counted.{dead_bits, moved-IsCounted, record_insert-IsCounted}

both_false : (a b : Bool) → (not a || b) ≡ false → (a ≡ true) × (b ≡ false)
both_false true true h = cc
both_false true false h = (refl, refl)
both_false false b h = cc

both_parts : (used empty : Bool) → (used && not empty) ≡ true → (used ≡ true) × (empty ≡ false)
both_parts true true h = cc
both_parts true false h = (refl, refl)
both_parts false empty h = cc

one_less : (b : Bool) (k : ℕ) → (if b then k - 1 else k) ≡ k - bit b
one_less true k = refl
one_less false k = omega arith

-- A node whose value is cleared is dead.
emptied :
    (entry : Entry)
    → is_used entry ≡ true
    → (live_entry (record entry { value = nil_slot }) ≡ false)
      × (dead_entry (record entry { value = nil_slot }) ≡ true)
unfolding is_nil
emptied entry used = (rw used, rw used)

module _ (is_integer : ℕ → Bool) where
  pub delete_at-IsCounted :
      (store : Store) (index : ℕ) (entry : Entry) (after : Store)
      → IsCounted is_integer store
      → get_elem? store.entries index ≡ some entry
      → live_entry entry ≡ true
      → delete_at is_integer store index ≡ some after
      → IsCounted is_integer after
  unfolding delete_at
  delete_at-IsCounted store index entry after counted at alive h =
      let h1 = rw (delete_at, at) at h in
      let (used, present) = both_parts (is_used entry) (is_nil entry.value) alive in
      let new : Entry = record entry { value = nil_slot } in
      let (new_live, new_dead) = emptied entry used in
      let swapped = set-Swapped store.entries index entry new at in
      let live = swapped live_entry (λ e n. refl) in
      let dead = swapped dead_entry (λ e n. refl) in
      let integers = swapped (integer_entry is_integer) (λ e n. refl) in
      let new_integer : integer_entry is_integer new ≡ false = rw new_live in
      let old_integer : integer_entry is_integer entry
          ≡ is_positive_integer_key is_integer entry.key =
        rw alive in
      let old_dead : dead_entry entry ≡ false = rw (used, present) in
      subst (IsCounted is_integer) (some-injective (rw present at h1)) (record {
        live = omega (arith, counted.live, rw (alive, new_live) at live);
        dead = omega (arith, counted.dead, rw (old_dead, new_dead) at dead);
        integers =
            one_less (is_positive_integer_key is_integer entry.key) store.integer_keys
            ∙ omega (arith, counted.integers, rw (old_integer, new_integer) at integers);
      })

  pub revive_at-IsCounted :
      (store : Store) (index : ℕ) (entry : Entry) (value : Slot) (after : Store)
      → IsCounted is_integer store
      → get_elem? store.entries index ≡ some entry
      → is_used entry ≡ true
      → revive_at is_integer store index value ≡ some after
      → IsCounted is_integer after
  unfolding revive_at
  revive_at-IsCounted store index entry value after counted at used h =
      let h1 = rw (revive_at, at) at h in
      elim (Bool-cases (not (is_nil entry.value) || is_nil value)) [
        | inl bad ↦ absurd (none-some (rw bad at h1))
        | inr good ↦
            let (gone, present) = both_false (is_nil entry.value) (is_nil value) good in
            let new : Entry = record entry { value = value } in
            let dead : dead_entry entry ≡ true = rw (used, gone) in
            let alive : live_entry new ≡ true = rw (used, present) in
            subst (IsCounted is_integer) (some-injective (rw good at h1)) (
              moved-IsCounted is_integer _ _ (
                record_insert-IsCounted is_integer store (set store.entries index new) entry new
                  (store.dead - 1) counted (dead_bits is_integer entry dead).0 alive (rw dead)
                  (set-Swapped store.entries index entry new at)))
      ]

  -- A node is rewritten, and stays live or not, with the same class of key.
  pub rewritten-IsCounted :
      (store : Store) (index : ℕ) (entry new : Entry)
      → IsCounted is_integer store
      → get_elem? store.entries index ≡ some entry
      → live_entry new ≡ live_entry entry
      → dead_entry new ≡ dead_entry entry
      → integer_entry is_integer new ≡ integer_entry is_integer entry
      → IsCounted is_integer (record store { entries = set store.entries index new })
  rewritten-IsCounted store index entry new counted at same_live same_dead same_integer =
      let swapped = set-Swapped store.entries index entry new at in
      let live = rw same_live at (swapped live_entry (λ e n. refl)) in
      let dead = rw same_dead at (swapped dead_entry (λ e n. refl)) in
      let integers = rw same_integer at (swapped (integer_entry is_integer) (λ e n. refl)) in
      record {
        live = omega (arith, counted.live, live);
        dead = omega (arith, counted.dead, dead);
        integers = omega (arith, counted.integers, integers);
      }

  pub replace_at-IsCounted :
      (store : Store) (index : ℕ) (entry : Entry) (value : Slot) (after : Store)
      → IsCounted is_integer store
      → get_elem? store.entries index ≡ some entry
      → is_used entry ≡ true
      → is_nil entry.value ≡ false
      → is_nil value ≡ false
      → replace_at store index value ≡ some after
      → IsCounted is_integer after
  unfolding replace_at
  replace_at-IsCounted store index entry value after counted at used alive present h =
      let new : Entry = record entry { value = value } in
      subst (IsCounted is_integer) (some-injective (rw (replace_at, at) at h)) (
        rewritten-IsCounted store index entry new counted at (rw (used, alive, present) refl)
          (rw (used, alive, present) refl) (rw (used, alive, present) refl))

  pub retire_at-IsCounted :
      (is_reference : ℕ → Bool) (store : Store) (index : ℕ) (entry : Entry) (after : Store)
      → IsCounted is_integer store
      → get_elem? store.entries index ≡ some entry
      → (entry.hash == 0) ≡ false
      → retire_at is_reference store index ≡ some after
      → IsCounted is_integer after
  unfolding retire_at
  retire_at-IsCounted is_reference store index entry after counted at hashed h =
      let new : Entry = record entry { key = retired_key is_reference entry.key } in
      elim (Bool-cases (is_nil entry.value)) [
        | inr alive ↦ absurd (none-some (rw (retire_at, at, alive) at h))
        | inl gone ↦ subst (IsCounted is_integer) (some-injective (rw (retire_at, at, gone) at h)) (
            rewritten-IsCounted store index entry new counted at refl refl (rw (hashed, gone) refl))
      ]

  pub revive_stored-IsCounted :
      (store : Store) (key : Key) (index : ℕ) (entry : Entry) (value : Slot) (after : Store)
      → IsCounted is_integer store
      → get_elem? store.entries index ≡ some entry
      → is_used entry ≡ true
      → revive_stored is_integer store key index entry value ≡ some after
      → IsCounted is_integer after
  unfolding revive_stored
  revive_stored-IsCounted store key index entry value after counted at used h =
      elim (Bool-cases (not (is_nil entry.value) || is_nil value)) [
        | inl bad ↦ absurd (none-some (rw bad at h))
        | inr good ↦
            let (gone, _) = both_false (is_nil entry.value) (is_nil value) good in
            let new : Entry = record entry { key = revived_key is_integer entry.key key } in
            let old_dead : dead_entry entry ≡ true = rw (used, gone) in
            let new_dead : dead_entry new ≡ true = rw (used, gone) in
            let (old_live, old_integer) = dead_bits is_integer entry old_dead in
            let (_, new_integer) = dead_bits is_integer new new_dead in
            let swapped = set-Swapped store.entries index entry new at in
            let live = swapped live_entry (λ e n. refl) in
            let dead = swapped dead_entry (λ e n. refl) in
            let integers = swapped (integer_entry is_integer) (λ e n. refl) in
            revive_at-IsCounted (record store { entries = set store.entries index new }) index new
              value after
              (record {
                live = omega (arith, counted.live, rw old_live at live);
                dead = omega (arith, counted.dead, rw old_dead at dead);
                integers =
                    omega (arith, counted.integers, rw (old_integer, new_integer) at integers);
              })
              (get_elem?-set store.entries index entry new at) used (rw good at h)
      ]
