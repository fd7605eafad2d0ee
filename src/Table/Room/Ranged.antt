-- ===== src/Table/Room/Ranged.antt =====
-- table_store.go: the cursor through an insertion, a deletion and a rehash.
use lunar.Base.{
  some-injective, none-some, ℕ, ◌≡◌, ◌⊎◌, refl, sym, ◌∙◌, Bool, true, false, ◌||◌, Option, none,
  some, List, [], ◌∷◌, get_elem?, length, length-set, arith, ◌==◌, ltb, if◌then◌else◌, inl, inr,
  Bool-cases, Option-cases,
}
use mathlib.Core.Path.{subst}
use lunar.Slot.{Slot, is_nil}
use lunar.Table.Object.{nil_slot}
use lunar.Table.Store.{Key, Entry, Store, main_index}
use lunar.Table.Sizes.{next_power_of_two, maximum_table_store_capacity}
use lunar.Table.Insert.{insert_absent, delete_at}
use lunar.Table.Change.{empty_store, new_store, unless_full, refill, rehash}
use lunar.Table.Counts.{IsCounted}
use lunar.Table.Chain.Nodes.{Links}
use lunar.Table.Chain.Walk.{get_elem?-below}
use lunar.Table.Chain.Refilled.{taken, one_taken, length-empty, empty-Links}
use lunar.Table.Kept.{insert_absent-IsCounted, empty_store-IsCounted}
use lunar.Table.Room.Reclaim.{IsInRange}
use lunar.Table.Room.Fits.{insert_absent-Fits}

module _ (is_integer : ℕ → Bool) where
  pub insert_absent-IsInRange :
      (store : Store) (key : Key) (value : Slot) (hash : ℕ) (done : Bool) (after : Store)
      → Links (length store.entries) store.entries
      → IsCounted is_integer store
      → IsInRange store
      → insert_absent is_integer store key value hash ≡ some (done, after)
      → IsInRange after
  unfolding insert_absent
  insert_absent-IsInRange store key value hash done after links counted range h =
      elim (Bool-cases (hash == 0)) [
        | inl zero_hash ↦ absurd (none-some (rw (insert_absent, zero_hash) at h))
        | inr hashed ↦
            let h1 = rw (insert_absent, hashed) at h in
            elim (Option-cases (get_elem? store.entries (main_index store hash))) [
              | inl out ↦ absurd (none-some (rw out at h1))
              | inr (entry, at) ↦
                  let below = get_elem?-below store.entries (main_index store hash) entry at in
                  let (done', after', e, ranged, _) =
                    insert_absent-Fits is_integer key value hash store links counted range
                      (omega (arith, below)) hashed in
                  let same : (done', after') ≡ (done, after) = some-injective (sym e ∙ h) in
                  subst (λ (a : Bool × Store). IsInRange a.1) same ranged
            ]
      ]

  -- A store on the way through a rehash.
  abbrev pub Refilling : ℕ → Store → Type 0
  Refilling size store =
      Links size store.entries
      × (length store.entries ≡ size)
      × IsCounted is_integer store
      × IsInRange store

  pub taken-Refilling :
      (size : ℕ) (store : Store) (entry : Entry) (after : Store)
      → Refilling size store
      → taken is_integer store entry ≡ some after
      → Refilling size after
  taken-Refilling size store entry after (links, same, counted, range) h =
      let ((links', same'), _) = one_taken is_integer size store entry after (links, same) h in
      let (counted', range') = kept (Bool-cases (entry.hash == 0 || is_nil entry.value)) in
      (links', same', counted', range')
    where
      kept :
          (((entry.hash == 0 || is_nil entry.value) ≡ true)
            ⊎ ((entry.hash == 0 || is_nil entry.value) ≡ false))
          → IsCounted is_integer after × IsInRange after
      kept (inl skip) =
          subst (λ s. IsCounted is_integer s × IsInRange s) (some-injective (rw skip at h))
            (counted, range)
      kept (inr take) =
          inserted_kept (insert_absent is_integer store entry.key entry.value entry.hash) refl
            (rw take at h)
        where
          second : (a b : Bool) → (a || b) ≡ false → b ≡ false
          second true b e = cc
          second false b e = e

          inserted_kept :
              (o : Option (Bool × Store))
              → insert_absent is_integer store entry.key entry.value entry.hash ≡ o
              → unless_full is_integer o ≡ some after
              → IsCounted is_integer after × IsInRange after
          inserted_kept none e f = cc
          inserted_kept (some (false, s)) e f = cc
          inserted_kept (some (true, s)) e f =
              subst (λ s. IsCounted is_integer s × IsInRange s) (some-injective f)
                (
                  insert_absent-IsCounted is_integer store entry.key entry.value entry.hash
                      (true, s) counted (second (entry.hash == 0) (is_nil entry.value) take) e,
                  insert_absent-IsInRange store entry.key entry.value entry.hash true s
                      (rw same links) counted range e,
                )

  refill-Refilling :
      (size : ℕ) (given : List Entry) (store after : Store)
      → Refilling size store
      → refill is_integer (some store) given ≡ some after
      → Refilling size after
  unfolding refill
  refill-Refilling size [] store after kept h = subst (Refilling size) (some-injective h) kept
  refill-Refilling size (entry ∷ given) store after kept h =
      let next : refill is_integer (taken is_integer store entry) given ≡ some after = h in
      elim (Option-cases (taken is_integer store entry)) [
        | inl panic ↦ absurd (none-some (rw panic at next))
        | inr (middle, e) ↦
            refill-Refilling size given middle after
              (taken-Refilling size store entry middle kept e) (rw e at next)
      ]

  pub empty-Refilling : (size : ℕ) → Refilling size (empty_store size)
  empty-Refilling size =
      let e = length-empty size in
      (empty-Links size size, e, empty_store-IsCounted is_integer size, omega (arith, e))

  pub rehash-IsInRange :
      (store after : Store) (capacity : ℕ)
      → rehash is_integer store capacity ≡ some after
      → IsInRange after
  unfolding rehash
  rehash-IsInRange store after capacity h =
      elim (Bool-cases (capacity == 0 || ltb maximum_table_store_capacity capacity)) [
        | inl bad ↦ absurd (none-some (rw bad at h))
        | inr good ↦
            let h1 = rw good at h in
            elim (Option-cases
              (if ltb capacity store.live then next_power_of_two store.live else some capacity)) [
                | inl panic ↦ absurd (none-some (rw panic at h1))
                | inr (room, e) ↦
                    let (_, _, _, range) =
                      refill-Refilling room store.entries (empty_store room) after
                        (empty-Refilling room) (rw e at h1) in
                    range
              ]
      ]

  pub new_store-IsInRange :
      (hint : ℕ) (store : Store) → new_store hint ≡ some store → IsInRange store
  unfolding new_store
  new_store-IsInRange hint store h = elim (Bool-cases (hint == 0)) [
    | inl none_wanted ↦ subst IsInRange (some-injective (rw none_wanted at h)) (omega arith)
    | inr wanted ↦
        let h1 = rw wanted at h in
        elim (Option-cases (next_power_of_two hint)) [
          | inl panic ↦ absurd (none-some (rw panic at h1))
          | inr (capacity, e) ↦
              let same = length-empty capacity in
              subst IsInRange (some-injective (rw e at h1)) (omega (arith, same))
        ]
  ]

  pub delete_at-IsInRange :
      (store after : Store) (index : ℕ)
      → delete_at is_integer store index ≡ some after
      → IsInRange after
  unfolding delete_at
  delete_at-IsInRange store after index h = elim (Option-cases (get_elem? store.entries index)) [
    | inl out ↦ absurd (none-some (rw (delete_at, out) at h))
    | inr (entry, at) ↦
        let h1 = rw (delete_at, at) at h in
        let below = get_elem?-below store.entries index entry at in
        elim (Bool-cases (is_nil entry.value)) [
          | inl gone ↦ absurd (none-some (rw gone at h1))
          | inr alive ↦
              let same = length-set store.entries index (record entry { value = nil_slot }) in
              subst IsInRange (some-injective (rw alive at h1)) (omega (arith, below, same))
        ]
  ]
