-- ===== src/Table/Scan.antt =====
-- table_store.go: the search for a free node, for whatever reclaiming a dead node keeps.
use lunar.Base.{
  some-injective, none-some, ℕ, zero, suc, ◌+◌, ◌≡◌, refl, inl, inr, false, not, ◌&&◌, Option, none,
  some, length, get_elem?, leb, ◌==◌, if◌then◌else◌, Bool-cases, Option-cases,
}
use mathlib.Core.Path.{subst}
use lunar.Slot.{is_nil}
use lunar.Table.Store.{Entry, Store}
use lunar.Table.Insert.{
  reclaim_dead_at, keep_eligible, reclaimed, take_free_down_to, found_free, wrap_scan, take_free,
}
use lunar.Table.Counts.{is_used}

module _ (Holds : Store → Type 0) where
  abbrev pub Reclaims : ℕ × Store → Type 0
  Reclaims (free, after) =
      Holds after × (e : Entry) × (get_elem? after.entries free ≡ some e) × (is_used e ≡ false)

  -- What a search for a free node leaves: the same, and the node where there is one.
  abbrev pub Frees : Option ℕ × Store → Type 0
  Frees (none, after) = Holds after
  Frees (some free, after) = Reclaims (free, after)

  module _
      (moved : (store : Store) (last : ℕ) → Holds store → Holds (record store { last_free = last }))
      (reclaim : (store : Store) (index : ℕ) (answer : ℕ × Store)
        → Holds store
        → reclaim_dead_at store index ≡ some answer
        → Reclaims answer) where
    reclaimed-Frees :
        (store : Store) (index : ℕ) (o : Option (ℕ × Store)) (answer : Option ℕ × Store)
        → ((a : ℕ × Store) → o ≡ some a → Reclaims a)
        → reclaimed index o ≡ some answer
        → Frees answer
    reclaimed-Frees store index none answer each h = cc
    reclaimed-Frees store index (some (free, after)) answer each h =
        let (counted, e, there, unused) = each (free, after) refl in
        subst Frees (some-injective h) (kept (get_elem? after.entries index) counted e there unused)
      where
        kept :
            (o : Option Entry)
            → Holds after
            → (e : Entry) → get_elem? after.entries free ≡ some e
            → is_used e ≡ false
            → Frees (some free, keep_eligible after index o)
        kept none counted e there unused = (counted, e, there, unused)
        kept (some entry) counted e there unused =
            elim (Bool-cases (not (entry.hash == 0) && is_nil entry.value)) [
              | inl again ↦ rw again (moved after (index + 1) counted, e, there, unused)
              | inr other ↦ rw other (counted, e, there, unused)
            ]

    -- One node of the scan.
    at_node :
        (store : Store) (limit index : ℕ) (entry : Entry) (answer : Option ℕ × Store)
        → Holds store
        → get_elem? store.entries index ≡ some entry
        → (take_free_down_to store limit index ≡ some answer → Frees answer)
        → (if entry.hash == 0
            then some (some index, record store { last_free = index })
            else if is_nil entry.value
            then reclaimed index (reclaim_dead_at (record store { last_free = index }) index)
            else take_free_down_to store limit index)
          ≡ some answer
        → Frees answer
    at_node store limit index entry answer counted at rest h = elim (Bool-cases (entry.hash == 0)) [
      | inl empty ↦
          subst Frees (some-injective (rw empty at h))
            (moved store index counted, entry, at, rw empty)
      | inr used ↦
          let h1 = rw used at h in
          elim (Bool-cases (is_nil entry.value)) [
            | inl dead ↦
                let next : Store = record store { last_free = index } in
                reclaimed-Frees next index _ answer
                  (λ a e. reclaim next index a (moved store index counted) e) (rw dead at h1)
            | inr alive ↦ rest (rw alive at h1)
          ]
    ]

    take_free_down_to-Frees :
        (store : Store) (limit cursor : ℕ) (answer : Option ℕ × Store)
        → Holds store
        → take_free_down_to store limit cursor ≡ some answer
        → Frees answer
    unfolding take_free_down_to
    take_free_down_to-Frees store limit zero answer counted h =
        subst Frees (some-injective h) (moved store 0 counted)
    take_free_down_to-Frees store limit (suc index) answer counted h =
        let rest = take_free_down_to-Frees store limit index answer counted in
        elim (Bool-cases (leb (suc index) limit)) [
          | inl stop ↦ subst Frees (some-injective (rw stop at h)) (moved store (suc index) counted)
          | inr go ↦
              let h1 = rw go at h in
              elim (Option-cases (get_elem? store.entries index)) [
                | inl out ↦ absurd (none-some (rw out at h1))
                | inr (entry, at) ↦
                    at_node store limit index entry answer counted at rest (rw at at h1)
              ]
        ]

    wrap_scan-Frees :
        (store : Store) (start : ℕ) (o : Option (Option ℕ × Store)) (answer : Option ℕ × Store)
        → ((a : Option ℕ × Store) → o ≡ some a → Frees a)
        → wrap_scan start o ≡ some answer
        → Frees answer
    wrap_scan-Frees store start none answer each h = cc
    wrap_scan-Frees store start (some (some free, after)) answer each h =
        subst Frees (some-injective h) (each (some free, after) refl)
    wrap_scan-Frees store start (some (none, after)) answer each h =
        let counted = each (none, after) refl in
        elim (Bool-cases (after.dead == 0 && after.live == length after.entries)) [
          | inl all ↦ subst Frees (some-injective (rw all at h)) counted
          | inr part ↦
              second counted (take_free_down_to after start (length after.entries)) refl
                (rw part at h)
        ]
      where
        second :
            Holds after
            → (o : Option (Option ℕ × Store))
            → take_free_down_to after start (length after.entries) ≡ o
            → found_free o ≡ some answer
            → Frees answer
        second counted none scan found = absurd (none-some found)
        second counted (some (none, last)) scan found = absurd (none-some found)
        second counted (some (some free, last)) scan found =
            let (counted', e, there, unused) =
              take_free_down_to-Frees after start (length after.entries) (some free, last) counted
                scan in
            subst Frees (some-injective found) (counted', e, there, unused)

    pub take_free-Frees :
        (store : Store) (answer : Option ℕ × Store)
        → Holds store
        → take_free store ≡ some answer
        → Frees answer
    unfolding take_free
    take_free-Frees store answer counted h =
        wrap_scan-Frees store store.last_free _ answer
          (λ a e. take_free_down_to-Frees store 0 store.last_free a counted e) h
