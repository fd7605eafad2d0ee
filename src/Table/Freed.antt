-- ===== src/Table/Freed.antt =====
-- table_store.go: the search for a free node finds one and keeps the counters right.
use lunar.Base.{ℕ, Bool, ◌≡◌, refl, ◌∙◌, Option, none, some, length}
use lunar.Table.Store.{Store}
use lunar.Table.Insert.{take_free}
use lunar.Table.Counts.{IsCounted}
use lunar.Table.Counted.{moved-IsCounted}
use lunar.Table.Reclaimed.{Reclaims, reclaim_dead_at-Reclaims}
use lunar.Table.Scan

module _ (is_integer : ℕ → Bool) where
  -- What a search for a free node leaves: the same, and the node where there is one.
  abbrev pub Frees : Store → Option ℕ × Store → Type 0
  Frees store (none, after) =
      IsCounted is_integer after × (length after.entries ≡ length store.entries)
  Frees store (some free, after) = Reclaims is_integer store (free, after)

  abbrev Holds : Store → Store → Type 0
  Holds store after = IsCounted is_integer after × (length after.entries ≡ length store.entries)

  pub take_free-Frees :
      (store : Store) (answer : Option ℕ × Store)
      → IsCounted is_integer store
      → take_free store ≡ some answer
      → Frees store answer
  take_free-Frees store answer counted h = found answer (
      Scan.take_free-Frees (Holds store)
        (λ s last (right, same). (moved-IsCounted is_integer s last right, same))
        (λ s index a (right, same) e.
          let (right', same', node, there, unused) =
            reclaim_dead_at-Reclaims is_integer s index a right e in
          ((right', same' ∙ same), node, there, unused))
        store answer (counted, refl) h)
    where
      found : (a : Option ℕ × Store) → Scan.Frees (Holds store) a → Frees store a
      found (none, after) kept = kept
      found (some free, after) ((right, same), e, there, unused) = (right, same, e, there, unused)
