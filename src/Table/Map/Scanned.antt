-- ===== src/Table/Map/Scanned.antt =====
-- table_store.go: the search of every node, with which `get` is compared.
use lunar.Base.{
  ℕ, ◌≡◌, ◌<◌, refl, Option, none, some, List, [], ◌∷◌, ◌⊎◌, arith, if◌then◌else◌, inl, inr,
  Bool-cases,
}
use lunar.Slot.{Slot}
use lunar.Table.Store.{Key, Entry}
use lunar.Table.Counts.{count}
use lunar.Table.Map.Bound.{holds, binds, same_slot_refl}

-- The value of the first node of the array that holds the key.
abbrev pub scan : List Entry → Key → ℕ → Option Slot
scan [] key hash = none
scan (entry ∷ entries) key hash =
    let rest = scan entries key hash in if holds key hash entry then some entry.value else rest

pub scan-binds :
    (entries : List Entry) (key : Key) (hash : ℕ)
    → ((scan entries key hash ≡ none) × (count (holds key hash) entries ≡ 0))
      ⊎ ((value : Slot) × (scan entries key hash ≡ some value)
          × (0 < count (binds key hash value) entries))
scan-binds [] key hash = inl (refl, refl)
scan-binds (entry ∷ entries) key hash = elim (Bool-cases (holds key hash entry)) [
  | inl held ↦ inr (entry.value, rw held refl, rw (held, same_slot_refl entry.value) (omega arith))
  | inr other ↦ elim (scan-binds entries key hash) [
    | inl (e, empty) ↦ inl (rw other e, rw other (omega (arith, empty)))
    | inr (value, e, more) ↦ inr (value, rw other e, rw other (omega (arith, more)))
  ]
]
