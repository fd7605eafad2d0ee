-- ===== src/Table/Map/Bound.antt =====
-- table_store.go: what `get` answers, by the nodes that hold a key.
use lunar.Base.{
  both_true, all_true, some-injective, none-some, ℕ, ◌≡◌, ◌<◌, refl, sym, ◌∙◌, ap, Bool, true,
  false, not, ◌&&◌, none, some, get_elem?, arith, ◌==◌, if◌then◌else◌, inl, inr, Option-cases,
}
use lunar.Slot.{Slot}
use lunar.Table.Store.{Key, Entry, Store, is_live, same_key, find, get}
use lunar.Table.Counts.{count, is_used}
use lunar.Table.Lookup.{matches, matches_stored, find-matches}
use lunar.Table.Chain.Finds.{find-finds}
use lunar.Table.Map.Keys.{same_key_stored, count-some, some-count, count_unique}
use lunar.Table.Map.Sound.{answers, IsSound}

abbrev pub same_slot : Slot → Slot → Bool
same_slot a b = (if a.ref then b.ref else not b.ref) && a.bits == b.bits

same_parts :
    (a b : Bool) (m n : ℕ) → ((if a then b else not b) && m == n) ≡ true → (a ≡ b) × (m ≡ n)
same_parts true true m n h = (refl, ground (arith, h))
same_parts false false m n h = (refl, ground (arith, h))
same_parts true false m n h = cc
same_parts false true m n h = cc

self_bool : (a : Bool) → (if a then a else not a) ≡ true
self_bool true = refl
self_bool false = refl

same_slot_sound : (a b : Slot) → same_slot a b ≡ true → a ≡ b
same_slot_sound a b h =
    let (refs, bits) = same_parts a.ref b.ref a.bits b.bits h in
    λ i. record { ref = refs i; bits = bits i }

pub same_slot_refl : (a : Slot) → same_slot a a ≡ true
same_slot_refl a = let e : (a.bits == a.bits) ≡ true = ground arith in rw (self_bool a.ref, e) refl

-- The nodes that hold a key, and those that hold it with a value.
abbrev pub holds : Key → ℕ → Entry → Bool
holds key hash entry = is_used entry && matches key hash entry

abbrev pub binds : Key → ℕ → Slot → Entry → Bool
binds key hash value entry = holds key hash entry && same_slot entry.value value

module _ (store : Store) where
  -- The node behind an answer.
  pub get-node :
      (key : Key) (hash : ℕ) (value : Slot)
      → get store key hash ≡ some value
      → (i : ℕ) × (entry : Entry) × (get_elem? store.entries i ≡ some entry)
        × (holds key hash entry ≡ true)
        × (entry.value ≡ value)
  unfolding get
  get-node key hash value h = elim (Option-cases (find store key hash)) [
    | inl out ↦ absurd (none-some (rw (get, out) at h))
    | inr ((i, entry), found) ↦
        let (at, used, hit) = find-matches store key hash i entry found in
        (i, entry, at, rw (used, hit) refl, some-injective (rw (get, found) at h))
  ]

  pub get-binds :
      (key : Key) (hash : ℕ) (value : Slot)
      → get store key hash ≡ some value
      → 0 < count (binds key hash value) store.entries
  get-binds key hash value h =
      let (i, entry, at, hit, e) = get-node key hash value h in
      some-count (binds key hash value) store.entries i entry at
        (rw (hit, e, same_slot_refl value) refl)

  module _ (sound : IsSound store.entries) where
    -- A node that binds the key is the one that answers.
    pub binds-get :
        (key : Key) (hash : ℕ) (value : Slot)
        → 0 < count (binds key hash value) store.entries
        → get store key hash ≡ some value
    unfolding get
    binds-get key hash value h =
        let (i, goal, at, bound) = count-some (binds key hash value) store.entries h in
        let (hit, same) = both_true (holds key hash goal) (same_slot goal.value value) bound in
        let (used, match) = both_true (is_used goal) (matches key hash goal) hit in
        let ((j, entry), found) = find-finds store sound.links key hash i goal at used match in
        let (at', used', match') = find-matches store key hash j entry found in
        let only =
          count_unique (answers key hash) store.entries j i entry goal (sound.unique key hash) at'
            (rw used' (stored entry match')) at (rw used (stored goal match)) in
        rw (get, found)
          (ap (λ (e : Entry). some e.value) only ∙ ap some (same_slot_sound goal.value value same))
      where
        stored : (e : Entry) → matches key hash e ≡ true → matches_stored key hash e ≡ true
        stored e m =
            let (same_hash, _, same) =
              all_true (e.hash == hash) (is_live e) (same_key e.key key) m in
            rw (same_hash, same_key_stored e.key key same) refl

    pub no_node-get :
        (key : Key) (hash : ℕ)
        → count (holds key hash) store.entries ≡ 0
        → get store key hash ≡ none
    no_node-get key hash h = elim (Option-cases (get store key hash)) [
      | inl out ↦ out
      | inr (value, e) ↦
          let (i, entry, at, hit, _) = get-node key hash value e in
          let some_node = some-count (holds key hash) store.entries i entry at hit in
          absurd (omega (arith, some_node, h))
    ]

-- Two stores that bind the same values to a key answer the same.
pub same_binds-get :
    (store after : Store) (key : Key) (hash : ℕ)
    → IsSound store.entries
    → IsSound after.entries
    → ((value : Slot)
        → count (binds key hash value) after.entries ≡ count (binds key hash value) store.entries)
    → get after key hash ≡ get store key hash
same_binds-get store after key hash sound sound' same = elim (Option-cases (get store key hash)) [
  | inr (value, e) ↦
      let b = get-binds store key hash value e in
      let s = same value in binds-get after sound' key hash value (omega (arith, b, s)) ∙ sym e
  | inl out ↦ elim (Option-cases (get after key hash)) [
    | inl out' ↦ out' ∙ sym out
    | inr (value, e) ↦
        let b = get-binds after key hash value e in
        let s = same value in
        absurd (none-some (sym out ∙ binds-get store sound key hash value (omega (arith, b, s))))
  ]
]
