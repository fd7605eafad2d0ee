-- ===== src/Table/Room/Reclaim.antt =====
-- table_store.go: the panics of `reclaimDeadAt`.
use lunar.Base.{
  ℕ, zero, suc, ◌-◌, ◌≡◌, ◌≤◌, ◌<◌, refl, true, false, not, ◌&&◌, Option, none, some, List, [], ◌∷◌,
  get_elem?, set, length, arith, ◌==◌, inl, inr, Bool-cases, if-keeps,
}
use lunar.Slot.{is_nil}
use lunar.Table.Store.{Entry, Store, main_index}
use lunar.Table.Insert.{
  drop_dead, reclaim, reclaim_dead_at, keep_eligible, reclaimed, empty_entry, relink,
}
use lunar.Table.Chain.Nodes.{Links, used_at-some}
use lunar.Table.Chain.Cut.{linked_node}
use lunar.Table.Chain.Cleared.{reclaim_dead_at-Clears}
use lunar.Table.Chain.Walk.{get_elem?-below}
use lunar.Table.Chain.Finds.{predecessor-some}

pub below-get_elem? :
    (entries : List Entry) (i : ℕ)
    → i < length entries
    → (entry : Entry) × (get_elem? entries i ≡ some entry)
below-get_elem? [] i h = absurd (omega arith)
below-get_elem? (e ∷ entries) zero h = (e, refl)
below-get_elem? (e ∷ entries) (suc i) h = below-get_elem? entries i (omega arith)

-- The cursor stands within the store.
abbrev pub IsInRange : Store → Type 0
IsInRange store = store.last_free ≤ length store.entries

module _ (store : Store) (links : Links (length store.entries) store.entries) where
  reclaim_total :
      (index : ℕ) (entry : Entry)
      → get_elem? store.entries index ≡ some entry
      → (entry.hash == 0) ≡ false
      → is_nil entry.value ≡ true
      → (a : ℕ × Store) × (reclaim store index entry ≡ some a) × (a.1.last_free ≡ store.last_free)
  reclaim_total index entry at hashed gone =
      elim (Bool-cases (not (main_index store entry.hash == index))) [
        | inl other ↦
            let (b, e) =
              predecessor-some store links index entry at (rw hashed refl)
                (ground (arith, other)) in
            (
              (index, drop_dead store (set (relink store.entries b entry.next) index empty_entry)),
              rw (hashed, gone, other, e) refl,
              refl,
            )
        | inr own ↦ elim (Bool-cases (entry.next == 0)) [
          | inl last ↦ (
            (index, drop_dead store (set store.entries index empty_entry)),
            rw (hashed, gone, own, last) refl,
            refl,
          )
          | inr more ↦
              let on =
                linked_node (length store.entries) store.entries links index entry (entry.next - 1)
                  at (rw hashed refl) (ground (arith, more)) in
              let (moved, there) = used_at-some store.entries (entry.next - 1) on.0 in
              (
                (
                  entry.next - 1,
                  drop_dead store
                      (set (set store.entries index moved) (entry.next - 1) empty_entry),
                ),
                rw (hashed, gone, own, more, there) refl,
                refl,
              )
        ]
      ]

-- The node at the cursor is reclaimed.
pub reclaimed_total :
    (store : Store) (index : ℕ) (entry : Entry)
    → Links (length store.entries) store.entries
    → store.last_free ≡ index
    → get_elem? store.entries index ≡ some entry
    → (entry.hash == 0) ≡ false
    → is_nil entry.value ≡ true
    → (free : ℕ) × (after : Store) × (reclaimed index (reclaim_dead_at store index)
        ≡ some (some free, after))
      × IsInRange after
unfolding reclaim_dead_at
reclaimed_total store index entry links last at hashed gone =
    let ((free, middle), e, kept) = reclaim_total store links index entry at hashed gone in
    let opened : reclaim_dead_at store index ≡ some (free, middle) = rw (reclaim_dead_at, at) e in
    let cleared =
      reclaim_dead_at-Clears (length store.entries) store refl links index (free, middle) opened in
    let below = get_elem?-below store.entries index entry at in
    let same = cleared.1 in
    (
      free,
      keep_eligible middle index (get_elem? middle.entries index),
      rw opened refl,
      in_range middle (get_elem? middle.entries index) (omega (arith, kept, last, below, same))
          (omega (arith, below, same)),
    )
  where
    in_range :
        (s : Store) (o : Option Entry)
        → s.last_free ≤ length s.entries
        → index < length s.entries
        → IsInRange (keep_eligible s index o)
    in_range s none h below = h
    in_range s (some e) h below =
        if-keeps IsInRange (not (e.hash == 0) && is_nil e.value) (λ _. omega (arith, below))
          (λ _. h)

-- A dead node out of its main position is unlinked at its own index.
pub unlink_total :
    (store : Store) (index : ℕ) (entry : Entry)
    → Links (length store.entries) store.entries
    → get_elem? store.entries index ≡ some entry
    → (entry.hash == 0) ≡ false
    → is_nil entry.value ≡ true
    → (main_index store entry.hash == index) ≡ false
    → (after : Store) × (reclaim_dead_at store index ≡ some (index, after))
      × (after.last_free ≡ store.last_free)
      × (length after.entries ≡ length store.entries)
unfolding reclaim_dead_at
unlink_total store index entry links at hashed gone other =
    let (b, e) =
      predecessor-some store links index entry at (rw hashed refl) (ground (arith, other)) in
    let after : Store =
      drop_dead store (set (relink store.entries b entry.next) index empty_entry) in
    let found : reclaim_dead_at store index ≡ some (index, after) =
      rw (reclaim_dead_at, at, hashed, gone, other, e) refl in
    let cleared =
      reclaim_dead_at-Clears (length store.entries) store refl links index (index, after) found in
    (after, found, refl, cleared.1)
