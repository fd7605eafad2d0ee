-- ===== src/Table/Inserted.antt =====
-- table_store.go: inserting, deleting and reviving keep the counters right.
use lunar.Base.{
  some-injective, none-some, ℕ, ◌+◌, ◌-◌, ◌≡◌, ◌≢◌, refl, sym, ap, ◌∙◌, inl, inr, Bool, true, false,
  not, Option, none, some, List, get_elem?, set, arith, ◌==◌, Bool-cases,
}
use mathlib.Core.Path.{subst}
use lunar.Slot.{Slot, is_nil}
use lunar.Table.Store.{Key, Entry, Store, main_index}
use lunar.Table.Insert.{
  relink, record_insert, with_entries, fresh, displace, insert_beside, insert_free, insert_over,
  insert_unlinked, insert_at,
}
use lunar.Table.Counts.{
  bit, Swapped, set-Swapped, count-relink, get_elem?-relink, get_elem?-set_other, is_used,
  live_entry, dead_entry, IsCounted,
}
use lunar.Table.Counted.{free_bits, dead_bits, moved-IsCounted, record_insert-IsCounted}
use lunar.Table.Reclaimed.{Reclaims, reclaim_dead_at-Reclaims}
use lunar.Table.Freed.{Frees, take_free-Frees}

module _ (is_integer : ℕ → Bool) (key : Key) (value : Slot) (hash : ℕ)
    (hashed : (hash == 0) ≡ false) (present : is_nil value ≡ false) where
  fresh_live : (next : ℕ) → live_entry (fresh is_integer key value hash next) ≡ true
  fresh_live next = rw (hashed, present)

  -- The new node in the place of a free one.
  placed :
      (store : Store) (after : List Entry) (old : Entry) (next : ℕ)
      → IsCounted is_integer store
      → is_used old ≡ false
      → Swapped store.entries after old (fresh is_integer key value hash next)
      → IsCounted is_integer (record_insert is_integer (with_entries is_integer store after) key)
  placed store after old next counted unused swapped =
      let (idle, not_dead, _) = free_bits is_integer old unused in
      let same : store.dead ≡ store.dead - bit (dead_entry old) = rw not_dead (omega arith) in
      record_insert-IsCounted is_integer store after old (fresh is_integer key value hash next)
        store.dead counted idle (fresh_live next) same swapped

  insert_over-IsCounted :
      (store : Store) (main next dead : ℕ) (old : Entry) (answer : Bool × Store)
      → IsCounted is_integer store
      → get_elem? store.entries main ≡ some old
      → live_entry old ≡ false
      → dead ≡ store.dead - bit (dead_entry old)
      → insert_over is_integer key value hash main next (record store { dead = dead }) ≡ some answer
      → IsCounted is_integer answer.1
  insert_over-IsCounted store main next dead old answer counted at idle rest h =
      let new = fresh is_integer key value hash next in
      let done =
        record_insert-IsCounted is_integer store (set store.entries main new) old new dead counted
          idle (fresh_live next) rest (set-Swapped store.entries main old new at) in
      subst (λ (a : Bool × Store). IsCounted is_integer a.1) (some-injective h)
        (moved-IsCounted is_integer _ _ done)

  insert_unlinked-IsCounted :
      (store : Store) (main : ℕ) (o : Option (ℕ × Store)) (answer : Bool × Store)
      → ((a : ℕ × Store) → o ≡ some a → Reclaims is_integer store a)
      → insert_unlinked is_integer key value hash main o ≡ some answer
      → IsCounted is_integer answer.1
  insert_unlinked-IsCounted store main none answer each h = cc
  insert_unlinked-IsCounted store main (some (free, after)) answer each h =
      let (counted, _, e, there, unused) = each (free, after) refl in
      elim (Bool-cases (free == main)) [
        | inl same ↦
            let here : free ≡ main = ground (arith, same) in
            let (idle, not_dead, _) = free_bits is_integer e unused in
            insert_over-IsCounted after main 0 after.dead e answer counted (rw here at there) idle
              (rw not_dead (omega arith)) (rw same at h)
        | inr other ↦ absurd (none-some (rw other at h))
      ]

  apart :
      (store : Store) (main free : ℕ) (e occupant : Entry)
      → get_elem? store.entries free ≡ some e
      → is_used e ≡ false
      → get_elem? store.entries main ≡ some occupant
      → (occupant.hash == 0) ≡ false
      → free ≢ main
  apart store main free e occupant there unused at used same =
      let one : e ≡ occupant = some-injective (sym there ∙ rw same at) in
      let used' : is_used occupant ≡ true = rw used in
      true_false (sym used' ∙ ap (λ (x : Entry). is_used x) (sym one) ∙ unused)
    where
      true_false : true ≡ false → ⊥
      true_false h = cc

  displace-IsCounted :
      (store : Store) (main free : ℕ) (e occupant : Entry) (o : Option ℕ) (answer : Bool × Store)
      → IsCounted is_integer store
      → get_elem? store.entries free ≡ some e
      → is_used e ≡ false
      → get_elem? store.entries main ≡ some occupant
      → (occupant.hash == 0) ≡ false
      → displace is_integer store key value hash main free occupant o ≡ some answer
      → IsCounted is_integer answer.1
  displace-IsCounted store main free e occupant none answer counted there unused at used h = cc
  displace-IsCounted store main free e occupant (some before) answer counted there unused at used
        h =
      let moved : List Entry = set store.entries free occupant in
      let beside =
        get_elem?-set_other store.entries free main occupant
          (apart store main free e occupant there unused at used)
        ∙ at in
      let (n, kept) = get_elem?-relink moved before (free + 1) main occupant beside in
      subst (λ (a : Bool × Store). IsCounted is_integer a.1) (some-injective h)
        (placed store
          (set (relink moved before (free + 1)) main (fresh is_integer key value hash 0)) e 0
          counted unused
          λ p ignores.
            let one = set-Swapped store.entries free e occupant there p ignores in
            let same = count-relink moved before (free + 1) p ignores in
            let two =
              set-Swapped (relink moved before (free + 1)) main (record occupant { next = n })
                (fresh is_integer key value hash 0) kept p ignores in
            omega (arith, one, same, rw (ignores occupant n) at two))

  -- The node in the main position stays, and the new one is chained behind it.
  behind-IsCounted :
      (store : Store) (main free next : ℕ) (e : Entry)
      → IsCounted is_integer store
      → get_elem? store.entries free ≡ some e
      → is_used e ≡ false
      → IsCounted is_integer (
          record_insert is_integer
            (with_entries is_integer store (
              set
                (relink store.entries main (free + 1))
                free
                (fresh is_integer key value hash next)))
            key)
  behind-IsCounted store main free next e counted there unused =
      let (n, kept) = get_elem?-relink store.entries main (free + 1) free e there in
      placed store _ e next counted unused λ p ignores.
        let same = count-relink store.entries main (free + 1) p ignores in
        let one =
          set-Swapped (relink store.entries main (free + 1)) free (record e { next = n })
            (fresh is_integer key value hash next) kept p ignores in
        omega (arith, same, rw (ignores e n) at one)

  insert_beside-IsCounted :
      (store : Store) (main free : ℕ) (e : Entry) (o : Option Entry) (answer : Bool × Store)
      → IsCounted is_integer store
      → get_elem? store.entries free ≡ some e
      → is_used e ≡ false
      → get_elem? store.entries main ≡ o
      → insert_beside is_integer store key value hash main free o ≡ some answer
      → IsCounted is_integer answer.1
  insert_beside-IsCounted store main free e none answer counted there unused at h = cc
  insert_beside-IsCounted store main free e (some occupant) answer counted there unused at h =
      elim (Bool-cases (occupant.hash == 0)) [
        | inl empty ↦
            subst (λ (a : Bool × Store). IsCounted is_integer a.1) (some-injective (rw empty at h))
              (placed store _ occupant 0 counted (rw empty)
                (set-Swapped store.entries main occupant (fresh is_integer key value hash 0) at))
        | inr used ↦
            let h1 = rw used at h in
            elim (Bool-cases (not (main_index store occupant.hash == main))) [
              | inl other ↦
                  displace-IsCounted store main free e occupant _ answer counted there unused at
                    used (rw other at h1)
              | inr own ↦
                  subst (λ (a : Bool × Store). IsCounted is_integer a.1)
                    (some-injective (rw own at h1))
                    (behind-IsCounted store main free occupant.next e counted there unused)
            ]
      ]

  insert_free-IsCounted :
      (store : Store) (main : ℕ) (o : Option (Option ℕ × Store)) (answer : Bool × Store)
      → ((a : Option ℕ × Store) → o ≡ some a → Frees is_integer store a)
      → insert_free is_integer key value hash main o ≡ some answer
      → IsCounted is_integer answer.1
  insert_free-IsCounted store main none answer each h = cc
  insert_free-IsCounted store main (some (none, after)) answer each h =
      subst (λ (a : Bool × Store). IsCounted is_integer a.1) (some-injective h)
        (each (none, after) refl).0
  insert_free-IsCounted store main (some (some free, after)) answer each h =
      let (counted, _, e, there, unused) = each (some free, after) refl in
      insert_beside-IsCounted after main free e _ answer counted there unused refl h

  pub insert_at-IsCounted :
      (store : Store) (main : ℕ) (entry : Entry) (answer : Bool × Store)
      → IsCounted is_integer store
      → get_elem? store.entries main ≡ some entry
      → insert_at is_integer store key value hash main entry ≡ some answer
      → IsCounted is_integer answer.1
  insert_at-IsCounted store main entry answer counted at h = elim (Bool-cases (entry.hash == 0)) [
    | inl empty ↦
        subst (λ (a : Bool × Store). IsCounted is_integer a.1) (some-injective (rw empty at h))
          (placed store _ entry 0 counted (rw empty)
            (set-Swapped store.entries main entry (fresh is_integer key value hash 0) at))
    | inr used ↦
        let h1 = rw used at h in
        elim (Bool-cases (is_nil entry.value)) [
          | inr alive ↦
              insert_free-IsCounted store main _ answer
                (λ a e. take_free-Frees is_integer store a counted e) (rw alive at h1)
          | inl gone ↦
              let h2 = rw gone at h1 in
              let dead : dead_entry entry ≡ true = rw (used, gone) in
              elim (Bool-cases (main_index store entry.hash == main)) [
                | inl head ↦
                    insert_over-IsCounted store main entry.next (store.dead - 1) entry answer
                      counted at (dead_bits is_integer entry dead).0 (rw dead) (rw head at h2)
                | inr other ↦
                    insert_unlinked-IsCounted store main _ answer
                      (λ a e. reclaim_dead_at-Reclaims is_integer store main a counted e)
                      (rw other at h2)
              ]
        ]
  ]
