-- ===== src/Table/Reclaimed.antt =====
-- table_store.go: reclaiming a dead node frees one node and keeps the counters right.
use lunar.Base.{
  some-injective, none-some, neither, Nat-eq, ℕ, ◌-◌, ◌≡◌, ◌≢◌, refl, ◌∙◌, ◌⊎◌, inl, inr, Bool,
  true, false, not, ◌||◌, Option, none, some, List, length, length-set, get_elem?, set, arith, ◌==◌,
  Bool-cases, Option-cases,
}
use mathlib.Core.Path.{subst}
use lunar.Table.Store.{Entry, Store, is_live, main_index}
use lunar.Table.Insert.{empty_entry, relink, drop_dead, promote, unlink, reclaim, reclaim_dead_at}
use lunar.Table.Counts.{
  Swapped, set-Swapped, count-relink, get_elem?-relink, get_elem?-set, get_elem?-set_other,
  length-relink, is_used, dead_entry, IsCounted,
}
use lunar.Table.Counted.{drop_dead-IsCounted}

module _ (is_integer : ℕ → Bool) where
  -- What reclaiming leaves: right counters, as many nodes, and a free one.
  abbrev pub Reclaims : Store → ℕ × Store → Type 0
  Reclaims store (free, after) =
      IsCounted is_integer after
      × (length after.entries ≡ length store.entries)
      × (e : Entry) × (get_elem? after.entries free ≡ some e)
      × (is_used e ≡ false)

  free_at :
      (store : Store) (entries : List Entry) (index : ℕ) (old middle : Entry)
      → IsCounted is_integer store
      → dead_entry old ≡ true
      → length entries ≡ length store.entries
      → get_elem? entries index ≡ some middle
      → Swapped store.entries (set entries index empty_entry) old empty_entry
      → Reclaims store (index, drop_dead store (set entries index empty_entry))
  free_at store entries index old middle counted dead same h swapped = (
    drop_dead-IsCounted is_integer store (set entries index empty_entry) old empty_entry counted
        dead refl swapped,
    length-set entries index empty_entry ∙ same,
    empty_entry,
    get_elem?-set entries index middle empty_entry h,
    refl,
  )

  promote-Reclaims :
      (store : Store) (index successor : ℕ) (old : Entry) (o : Option Entry) (answer : ℕ × Store)
      → IsCounted is_integer store
      → get_elem? store.entries index ≡ some old
      → dead_entry old ≡ true
      → get_elem? store.entries successor ≡ o
      → promote store index successor o ≡ some answer
      → Reclaims store answer
  promote-Reclaims store index successor old none answer counted at dead found h = cc
  promote-Reclaims store index successor old (some moved) answer counted at dead found h =
      subst (Reclaims store) (some-injective h) (
        free_at store (set store.entries index moved) successor old moved counted dead
          (length-set store.entries index moved) there
          λ p ignores.
            let one = set-Swapped store.entries index old moved at p ignores in
            let two =
              set-Swapped (set store.entries index moved) successor moved empty_entry there p
                ignores in
            omega (arith, one, two))
    where
      there : get_elem? (set store.entries index moved) successor ≡ some moved
      there = moved_there (Nat-eq index successor)
        where
          moved_there :
              (index ≡ successor) ⊎ (index ≢ successor)
              → get_elem? (set store.entries index moved) successor ≡ some moved
          moved_there (inl e) = rw (← e) (get_elem?-set store.entries index old moved at)
          moved_there (inr ne) = get_elem?-set_other store.entries index successor moved ne ∙ found

  unlink-Reclaims :
      (store : Store) (index : ℕ) (old : Entry) (o : Option ℕ) (answer : ℕ × Store)
      → IsCounted is_integer store
      → get_elem? store.entries index ≡ some old
      → dead_entry old ≡ true
      → unlink store index old o ≡ some answer
      → Reclaims store answer
  unlink-Reclaims store index old none answer counted at dead h = cc
  unlink-Reclaims store index old (some before) answer counted at dead h =
      let (n, there) = get_elem?-relink store.entries before old.next index old at in
      subst (Reclaims store) (some-injective h) (
        free_at store (relink store.entries before old.next) index old (record old { next = n })
          counted dead (length-relink store.entries before old.next) there
          λ p ignores.
            let one =
              set-Swapped (relink store.entries before old.next) index (record old { next = n })
                empty_entry there p ignores in
            let same = count-relink store.entries before old.next p ignores in
            omega (arith, same, rw (ignores old n) at one))

  reclaim-Reclaims :
      (store : Store) (index : ℕ) (entry : Entry) (answer : ℕ × Store)
      → IsCounted is_integer store
      → get_elem? store.entries index ≡ some entry
      → reclaim store index entry ≡ some answer
      → Reclaims store answer
  reclaim-Reclaims store index entry answer counted at h =
      elim (Bool-cases (entry.hash == 0 || is_live entry)) [
        | inl bad ↦ absurd (none-some (rw bad at h))
        | inr good ↦
            let dead = neither (entry.hash == 0) (is_live entry) good in
            let h1 = rw good at h in
            elim (Bool-cases (not (main_index store entry.hash == index))) [
              | inl other ↦
                  unlink-Reclaims store index entry _ answer counted at dead (rw other at h1)
              | inr head ↦
                  let h2 = rw head at h1 in
                  elim (Bool-cases (entry.next == 0)) [
                    | inl last ↦ subst (Reclaims store) (some-injective (rw last at h2)) (
                        free_at store store.entries index entry entry counted dead refl at
                          (set-Swapped store.entries index entry empty_entry at))
                    | inr more ↦
                        promote-Reclaims store index (entry.next - 1) entry _ answer counted at dead
                          refl (rw more at h2)
                  ]
            ]
      ]

  pub reclaim_dead_at-Reclaims :
      (store : Store) (index : ℕ) (answer : ℕ × Store)
      → IsCounted is_integer store
      → reclaim_dead_at store index ≡ some answer
      → Reclaims store answer
  unfolding reclaim_dead_at
  reclaim_dead_at-Reclaims store index answer counted h =
      elim (Option-cases (get_elem? store.entries index)) [
        | inl out ↦ absurd (none-some (rw (reclaim_dead_at, out) at h))
        | inr (entry, at) ↦
            reclaim-Reclaims store index entry answer counted at (rw (reclaim_dead_at, at) at h)
      ]
