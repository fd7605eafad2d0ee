-- ===== src/Table/Lookup.antt =====
-- table_store.go: what the lookups of the store find.
use lunar.Base.{
  all_true, some-injective, none-some, ℕ, zero, suc, ◌-◌, ◌≡◌, Bool, true, ◌&&◌, some, length,
  get_elem?, ◌==◌, inl, inr, Bool-cases, Option-cases,
}
use mathlib.Core.Path.{subst}
use lunar.Table.Store.{
  find_stored, find_stored_from, same_stored_key, Key, Entry, Store, is_live, same_key, main_index,
  find_from, find,
}
use lunar.Table.Counts.{is_used, live_entry}

abbrev pub matches : Key → ℕ → Entry → Bool
matches key hash entry = entry.hash == hash && is_live entry && same_key entry.key key

abbrev pub matches_stored : Key → ℕ → Entry → Bool
matches_stored key hash entry = entry.hash == hash && same_stored_key entry.key key

-- What `find` finds is a live node of the store.
find_from-matches :
    (rounds : ℕ) (store : Store) (key : Key) (hash at index : ℕ) (entry : Entry)
    → find_from rounds store key hash at ≡ some (index, entry)
    → (get_elem? store.entries index ≡ some entry)
      × (is_used entry ≡ true)
      × (matches key hash entry ≡ true)
unfolding find_from
find_from-matches zero store key hash at index entry h = cc
find_from-matches (suc rounds) store key hash at index entry h =
    elim (Option-cases (get_elem? store.entries at)) [
      | inl out ↦ absurd (none-some (rw (find_from, out) at h))
      | inr (node, there) ↦
          let h1 = rw (find_from, there) at h in
          elim (Bool-cases (node.hash == 0)) [
            | inl empty ↦ absurd (none-some (rw empty at h1))
            | inr used ↦
                let h2 = rw used at h1 in
                elim (Bool-cases (node.hash == hash && is_live node && same_key node.key key)) [
                  | inl found ↦
                      let same : (at, node) ≡ (index, entry) = some-injective (rw found at h2) in
                      subst
                        (λ (a : ℕ × Entry).
                          (get_elem? store.entries a.0 ≡ some a.1)
                          × (is_used a.1 ≡ true)
                          × (matches key hash a.1 ≡ true))
                        same (there, rw used, found)
                  | inr missed ↦
                      let h3 = rw missed at h2 in
                      elim (Bool-cases (node.next == 0)) [
                        | inl last ↦ absurd (none-some (rw last at h3))
                        | inr more ↦
                            find_from-matches rounds store key hash (node.next - 1) index entry
                              (rw more at h3)
                      ]
                ]
          ]
    ]

-- What `findStored` finds is a used node.
find_stored_from-matches :
    (rounds : ℕ) (store : Store) (key : Key) (hash at index : ℕ) (entry : Entry)
    → find_stored_from rounds store key hash at ≡ some (index, entry)
    → (get_elem? store.entries index ≡ some entry)
      × (is_used entry ≡ true)
      × (matches_stored key hash entry ≡ true)
unfolding find_stored_from
find_stored_from-matches zero store key hash at index entry h = cc
find_stored_from-matches (suc rounds) store key hash at index entry h =
    elim (Option-cases (get_elem? store.entries at)) [
      | inl out ↦ absurd (none-some (rw (find_stored_from, out) at h))
      | inr (node, there) ↦
          let h1 = rw (find_stored_from, there) at h in
          elim (Bool-cases (node.hash == 0)) [
            | inl empty ↦ absurd (none-some (rw empty at h1))
            | inr used ↦
                let h2 = rw used at h1 in
                elim (Bool-cases (node.hash == hash && same_stored_key node.key key)) [
                  | inl found ↦
                      let same : (at, node) ≡ (index, entry) = some-injective (rw found at h2) in
                      subst
                        (λ (a : ℕ × Entry).
                          (get_elem? store.entries a.0 ≡ some a.1)
                          × (is_used a.1 ≡ true)
                          × (matches_stored key hash a.1 ≡ true))
                        same (there, rw used, found)
                  | inr missed ↦
                      let h3 = rw missed at h2 in
                      elim (Bool-cases (node.next == 0)) [
                        | inl last ↦ absurd (none-some (rw last at h3))
                        | inr more ↦
                            find_stored_from-matches rounds store key hash (node.next - 1) index
                              entry (rw more at h3)
                      ]
                ]
          ]
    ]

pub find-matches :
    (store : Store) (key : Key) (hash index : ℕ) (entry : Entry)
    → find store key hash ≡ some (index, entry)
    → (get_elem? store.entries index ≡ some entry)
      × (is_used entry ≡ true)
      × (matches key hash entry ≡ true)
unfolding find
find-matches store key hash index entry h = elim (Bool-cases (length store.entries == 0)) [
  | inl empty ↦ absurd (none-some (rw (find, empty) at h))
  | inr some_node ↦
      find_from-matches (length store.entries) store key hash (main_index store hash) index entry
        (rw (find, some_node) at h)
]

pub find-live :
    (store : Store) (key : Key) (hash index : ℕ) (entry : Entry)
    → find store key hash ≡ some (index, entry)
    → (get_elem? store.entries index ≡ some entry) × (live_entry entry ≡ true)
find-live store key hash index entry h =
    let (at, used, hit) = find-matches store key hash index entry h in
    (at, rw (used, (all_true (entry.hash == hash) (is_live entry) _ hit).1))

pub find_stored-matches :
    (store : Store) (key : Key) (hash index : ℕ) (entry : Entry)
    → find_stored store key hash ≡ some (index, entry)
    → (get_elem? store.entries index ≡ some entry)
      × (is_used entry ≡ true)
      × (matches_stored key hash entry ≡ true)
unfolding find_stored
find_stored-matches store key hash index entry h = elim (Bool-cases (length store.entries == 0)) [
  | inl empty ↦ absurd (none-some (rw (find_stored, empty) at h))
  | inr some_node ↦
      find_stored_from-matches (length store.entries) store key hash (main_index store hash) index
        entry (rw (find_stored, some_node) at h)
]
