-- ===== src/Table/Room/Total.antt =====
-- table_store.go: the panics of `takeFree`, and when it finds nothing.
use lunar.Base.{
  some-injective, ℕ, zero, suc, ◌≡◌, ◌≤◌, ◌<◌, refl, sym, ◌∙◌, ap, Bool, true, false, ◌&&◌, Option,
  none, some, List, [], ◌∷◌, get_elem?, length, arith, ◌==◌, leb, inl, inr, Bool-cases, Nat-eq,
  leb→le, ltb→lt, ltb,
}
use lunar.Slot.{is_nil}
use lunar.Table.Store.{Entry, Store, is_live}
use lunar.Table.Insert.{take_free_down_to, wrap_scan, take_free}
use lunar.Table.Counts.{count, is_used, live_entry, dead_entry, IsCounted}
use lunar.Table.Chain.Nodes.{Links}
use lunar.Table.Counted.{live_not_dead}
use lunar.Table.Chain.Walk.{get_elem?-below}
use lunar.Table.Room.Reclaim.{below-get_elem?, IsInRange, reclaimed_total}

-- What a scan of the nodes from the cursor down to the limit leaves.
abbrev pub Scanned : Store → ℕ → ℕ → Option ℕ × Store → Type 0
Scanned store limit cursor (some free, after) = IsInRange after
Scanned store limit cursor (none, after) =
    IsInRange after
    × (after.entries ≡ store.entries)
    × (after.live ≡ store.live)
    × (after.dead ≡ store.dead)
    × ((i : ℕ) (e : Entry)
        → limit ≤ i
        → i < cursor
        → get_elem? store.entries i ≡ some e
        → live_entry e ≡ true)

take_free_down_to_total :
    (store : Store) (limit cursor : ℕ)
    → Links (length store.entries) store.entries
    → cursor ≤ length store.entries
    → (answer : Option ℕ × Store) × (take_free_down_to store limit cursor ≡ some answer)
      × Scanned store limit cursor answer
unfolding take_free_down_to
take_free_down_to_total store limit zero links range = (
  (none, record store { last_free = 0 }),
  refl,
  (omega arith, refl, refl, refl, λ i e low high at. absurd (omega arith)),
)
take_free_down_to_total store limit (suc index) links range =
    let rest = take_free_down_to_total store limit index links (omega arith) in
    elim (Bool-cases (leb (suc index) limit)) [
      | inl stop ↦
          let stopped = leb→le (suc index) limit stop in
          (
            (none, record store { last_free = suc index }),
            rw stop refl,
            (range, refl, refl, refl, λ i e low high at. absurd (omega arith)),
          )
      | inr go ↦
          let (entry, at) = below-get_elem? store.entries index (omega arith) in
          elim (Bool-cases (entry.hash == 0)) [
            | inl empty ↦ (
              (some index, record store { last_free = index }),
              rw (go, at, empty) refl,
              omega arith,
            )
            | inr hashed ↦ elim (Bool-cases (is_nil entry.value)) [
              | inl gone ↦
                  let (free, after, e, ranged) =
                    reclaimed_total (record store { last_free = index }) index entry links refl at
                      hashed gone in
                  ((some free, after), rw (go, at, hashed, gone) e, ranged)
              | inr alive ↦
                  let (answer, e, scanned) = rest in
                  (
                    answer,
                    rw (go, at, hashed, alive) e,
                    further answer entry at (rw (hashed, alive) refl) scanned,
                  )
            ]
          ]
    ]
  where
    further :
        (answer : Option ℕ × Store) (entry : Entry)
        → get_elem? store.entries index ≡ some entry
        → live_entry entry ≡ true
        → Scanned store limit index answer
        → Scanned store limit (suc index) answer
    further (some free, after) entry at live scanned = scanned
    further (none, after) entry at live (ranged, same, same', same'', all) = (
      ranged,
      same,
      same',
      same'',
      λ i e low high there. elim (Nat-eq i index) [
        | inl here ↦
            let one : entry ≡ e =
              some-injective (sym at ∙ ap (get_elem? store.entries) (sym here) ∙ there) in
            rw (← one) live
        | inr ne ↦ all i e low (omega (arith, ne)) there
      ],
    )

all_live :
    (entries : List Entry)
    → ((i : ℕ) (e : Entry) → get_elem? entries i ≡ some e → live_entry e ≡ true)
    → (count live_entry entries ≡ length entries) × (count dead_entry entries ≡ 0)
all_live [] h = (refl, refl)
all_live (e ∷ entries) h =
    let (lives, deads) = all_live entries (λ i x at. h (suc i) x at) in
    let live = h zero e refl in
    (
      rw live (omega (arith, lives)),
      rw (live_not_dead (is_used e) (is_live e) live) (omega (arith, deads)),
    )

-- What the search for a free node leaves: where it fails, every node is live.
abbrev pub Searched : Option ℕ × Store → Type 0
Searched (some free, after) = IsInRange after
Searched (none, after) = IsInRange after × (after.live ≡ length after.entries)

module _ (is_integer : ℕ → Bool) where
  wrap_scan_total :
      (store : Store)
      → Links (length store.entries) store.entries
      → IsCounted is_integer store
      → IsInRange store
      → (answer : Option ℕ × Store) → take_free_down_to store 0 store.last_free ≡ some answer
      → Scanned store 0 store.last_free answer
      → (final : Option ℕ × Store) × (wrap_scan store.last_free (some answer) ≡ some final)
        × Searched final
  wrap_scan_total store links counted range (some free, after) h scanned =
      ((some free, after), refl, scanned)
  wrap_scan_total store links counted range (none, after) h (ranged, same, live, dead, low) =
      elim (Bool-cases (after.dead == 0 && after.live == length after.entries)) [
        | inl all ↦ ((none, after), rw all refl, (ranged, ground (arith, all)))
        | inr part ↦
            let (second, e, scanned) =
              take_free_down_to_total after store.last_free (length after.entries) (rw same links)
                (omega arith) in
            found second e scanned part
      ]
    where
      found :
          (second : Option ℕ × Store)
          → take_free_down_to after store.last_free (length after.entries) ≡ some second
          → Scanned after store.last_free (length after.entries) second
          → (after.dead == 0 && after.live == length after.entries) ≡ false
          → (final : Option ℕ × Store) × (wrap_scan store.last_free (some (none, after))
              ≡ some final)
            × Searched final
      found (some free, last) e scanned part = ((some free, last), rw (part, e) refl, scanned)
      found (none, last) e (ranged', same', live', dead', high) part =
          let (lives, deads) = all_live store.entries λ i entry at.
            elim (Bool-cases (ltb i store.last_free)) [
              | inl below ↦ low i entry (omega arith) (ltb→lt i store.last_free below) at
              | inr above ↦
                  high i entry (ground (arith, above))
                    (rw same (get_elem?-below store.entries i entry at)) (rw same at)
            ] in
          let right = counted.live in
          let right' = counted.dead in
          let same_length = ap length same in
          absurd (ground (arith, part, lives, deads, right, right', live, dead, same_length))

  pub take_free_total :
      (store : Store)
      → Links (length store.entries) store.entries
      → IsCounted is_integer store
      → IsInRange store
      → (answer : Option ℕ × Store) × (take_free store ≡ some answer) × Searched answer
  unfolding take_free
  take_free_total store links counted range =
      let (first, e, scanned) = take_free_down_to_total store 0 store.last_free links range in
      let (final, e', searched) = wrap_scan_total store links counted range first e scanned in
      (final, rw (take_free, e) e', searched)
