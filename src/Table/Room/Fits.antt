-- ===== src/Table/Room/Fits.antt =====
-- table_store.go: the panics of `insertAbsent`, and when it fails.
use lunar.Base.{
  ℕ, ◌+◌, ◌≡◌, ◌≤◌, ◌<◌, refl, ◌∙◌, Bool, true, false, not, ◌&&◌, Option, none, some, List,
  get_elem?, set, length, length-set, arith, ◌==◌, inl, inr, Bool-cases, if-keeps,
}
use native.Mathlib.Nat.{mod-lt}
use lunar.Slot.{Slot, is_nil}
use lunar.Table.Store.{Key, Entry, Store, main_index}
use lunar.Table.Insert.{
  relink, record_insert, with_entries, fresh, insert_beside, insert_free, insert_over, insert_at,
  insert_absent, consume_dead_candidate, drop_dead,
}
use lunar.Table.Counts.{IsCounted, length-relink}
use lunar.Table.Chain.Nodes.{Links}
use lunar.Table.Chain.Cleared.{Keeps, take_free-Keeps, no-Gains}
use lunar.Table.Scan
use lunar.Table.Chain.Finds.{predecessor-some}
use lunar.Table.Room.Reclaim.{below-get_elem?, IsInRange, unlink_total}
use lunar.Table.Room.Total.{Searched, take_free_total}

module _ (is_integer : ℕ → Bool) (key : Key) (value : Slot) (hash : ℕ) where
  -- An answer: done, or not for want of a node that is not live.
  abbrev pub Fits : Option (Bool × Store) → Type 0
  Fits o =
      (done : Bool) × (after : Store) × (o ≡ some (done, after))
      × IsInRange after
      × (done ≡ false → after.live ≡ length after.entries)

  recorded :
      (store : Store) (entries : List Entry)
      → IsInRange store
      → length entries ≡ length store.entries
      → IsInRange (record_insert is_integer (with_entries is_integer store entries) key)
  recorded store entries range same =
      if-keeps (λ n. n ≤ length entries) (store.dead == 0 && store.live + 1 == length entries)
        (λ _. omega arith) (λ _. omega (arith, range, same))

  pub consumed :
      (store : Store) (index : ℕ) → IsInRange store → IsInRange (consume_dead_candidate store index)
  consumed store index range =
      if-keeps (λ n. n ≤ length store.entries) (store.last_free == index + 1)
        (λ _. omega (arith, range)) (λ _. range)

  placed :
      (store : Store) (entries : List Entry)
      → IsInRange store
      → length entries ≡ length store.entries
      → Fits (some (true, record_insert is_integer (with_entries is_integer store entries) key))
  placed store entries range same = (
    true,
    record_insert is_integer (with_entries is_integer store entries) key,
    refl,
    recorded store entries range same,
    λ e. absurd (no e),
  )
    where
      no : true ≡ false → ⊥
      no e = cc

  over :
      (store : Store) (main next : ℕ)
      → IsInRange store
      → Fits (insert_over is_integer key value hash main next store)
  over store main next range =
      let entries = set store.entries main (fresh is_integer key value hash next) in
      (
        true,
        _,
        refl,
        consumed (record_insert is_integer (with_entries is_integer store entries) key) main
            (recorded store entries range (length-set store.entries main _)),
        λ e. absurd (no e),
      )
    where
      no : true ≡ false → ⊥
      no e = cc

  insert_beside-Fits :
      (store : Store) (main free : ℕ) (occupant : Entry)
      → Links (length store.entries) store.entries
      → IsInRange store
      → get_elem? store.entries main ≡ some occupant
      → Fits (insert_beside is_integer store key value hash main free (some occupant))
  insert_beside-Fits store main free occupant links range at =
      elim (Bool-cases (occupant.hash == 0)) [
        | inl empty ↦ rw empty (placed store _ range (length-set store.entries main _))
        | inr used ↦ elim (Bool-cases (not (main_index store occupant.hash == main))) [
          | inl other ↦
              let (b, e) =
                predecessor-some store links main occupant at (rw used refl)
                  (ground (arith, other)) in
              rw (used, other, e)
                (placed store _ range (
                  length-set (relink (set store.entries free occupant) b (free + 1)) main _
                  ∙ length-relink (set store.entries free occupant) b (free + 1)
                  ∙ length-set store.entries free occupant))
          | inr own ↦
              rw (used, own)
                (placed store _ range (
                  length-set (relink store.entries main (free + 1)) free _
                  ∙ length-relink store.entries main (free + 1)))
        ]
      ]

  insert_free-Fits :
      (store : Store) (main : ℕ) (answer : Option ℕ × Store)
      → main < length store.entries
      → Scan.Frees (Keeps (length store.entries) store.entries) answer
      → Searched answer
      → Fits (insert_free is_integer key value hash main (some answer))
  insert_free-Fits store main (none, after) below frees (range, full) =
      (false, after, refl, range, λ _. full)
  insert_free-Fits store main (some free, after) below ((links, same, _), _, _, _) range =
      let (occupant, at) = below-get_elem? after.entries main (omega (arith, same, below)) in
      rw at (insert_beside-Fits after main free occupant (rw same links) range at)

  pub insert_absent-Fits :
      (store : Store)
      → Links (length store.entries) store.entries
      → IsCounted is_integer store
      → IsInRange store
      → 0 < length store.entries
      → (hash == 0) ≡ false
      → Fits (insert_absent is_integer store key value hash)
  unfolding insert_absent
  insert_absent-Fits store links counted range some_node hashed =
      let main = main_index store hash in
      let (entry, at) = below-get_elem? store.entries main (main_below some_node) in
      rw (insert_absent, hashed, at) (at_main entry at)
    where
      main_below : 0 < length store.entries → main_index store hash < length store.entries
      main_below h = mod-lt hash h

      at_main :
          (entry : Entry)
          → get_elem? store.entries (main_index store hash) ≡ some entry
          → Fits (insert_at is_integer store key value hash (main_index store hash) entry)
      at_main entry at = elim (Bool-cases (entry.hash == 0)) [
        | inl empty ↦
            rw empty (placed store _ range (length-set store.entries (main_index store hash) _))
        | inr used ↦ elim (Bool-cases (is_nil entry.value)) [
          | inr alive ↦
              let (answer, e, searched) = take_free_total is_integer store links counted range in
              rw (used, alive, e)
                (insert_free-Fits store (main_index store hash) answer (main_below some_node)
                  (take_free-Keeps (length store.entries) store.entries store answer
                    (links, refl, no-Gains store.entries) e)
                  searched)
          | inl gone ↦ elim (Bool-cases (main_index store entry.hash == main_index store hash)) [
            | inl own ↦
                rw (used, gone, own)
                  (over (drop_dead store store.entries) (main_index store hash) entry.next range)
            | inr other ↦
                let (after, e, last, same) =
                  unlink_total store (main_index store hash) entry links at used gone other in
                let self : (main_index store hash == main_index store hash) ≡ true = ground arith in
                rw (used, gone, other, e, self)
                  (over after (main_index store hash) 0 (omega (arith, range, last, same)))
          ]
        ]
      ]
