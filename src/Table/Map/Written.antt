-- ===== src/Table/Map/Written.antt =====
-- table_store.go: what `get` answers after a node was written or its value was cleared.
use lunar.Base.{
  both_true, all_true, ℕ, ◌≡◌, refl, sym, ◌∙◌, Bool, true, false, ◌&&◌, Option, none, some,
  get_elem?, set, arith, ◌==◌, if◌then◌else◌, inl, inr, Bool-cases,
}
use lunar.Slot.{Slot}
use lunar.Table.Store.{Key, Entry, Store, is_live, same_key, same_stored_key, get}
use lunar.Table.Counts.{set-Swapped, get_elem?-set, is_used, live_entry}
use lunar.Table.Lookup.{matches, matches_stored}
use lunar.Table.Map.Keys.{
  is_dead_key, same_key_stored, same_stored_class, same_stored_of_live, asked_not_dead, some-count,
  count_mono,
}
use lunar.Table.Map.Sound.{answers, IsSound}
use lunar.Table.Map.Bound.{holds, binds, same_slot_refl, binds-get, no_node-get, same_binds-get}

-- A map of keys and their hashes to values, and the change of it at one key.
abbrev pub Contents : Type 0
Contents = Key → ℕ → Option Slot

abbrev pub is_same : Key → ℕ → Key → ℕ → Bool
is_same key hash key' hash' = hash == hash' && same_key key key'

abbrev pub updated : Contents → Key → ℕ → Option Slot → Contents
updated contents key hash answer key' hash' =
    if is_same key hash key' hash' then answer else contents key' hash'

not_true : {b : Bool} → (b ≡ true → ⊥) → b ≡ false
not_true {b = true} h = absurd (h refl)
not_true {b = false} h = refl

module _ (key : Key) (hash : ℕ) (entry : Entry) (stored : matches_stored key hash entry ≡ true)
    (key' : Key) (hash' : ℕ) where
  same_answers : same_stored_key entry.key key' ≡ same_key key key'
  same_answers =
      let (_, answer) = both_true (entry.hash == hash) (same_stored_key entry.key key) stored in
      same_stored_class entry.key key key' answer
      ∙ same_stored_of_live key key' (asked_not_dead entry.key key answer)

  -- A node that answers to a key holds no other one.
  pub holds-is_same : holds key' hash' entry ≡ true → is_same key hash key' hash' ≡ true
  holds-is_same held =
      let (_, match) = both_true (is_used entry) (matches key' hash' entry) held in
      let (same_hash', _, same) =
        all_true (entry.hash == hash') (is_live entry) (same_key entry.key key') match in
      let (same_hash, _) = both_true (entry.hash == hash) (same_stored_key entry.key key) stored in
      let hashes : (hash == hash') ≡ true = ground (arith, same_hash, same_hash') in
      rw (hashes, ← same_answers, same_key_stored entry.key key' same) refl

  pub other-holds : is_same key hash key' hash' ≡ false → holds key' hash' entry ≡ false
  other-holds other = not_true λ held. let clash = sym other ∙ holds-is_same held in cc

  -- A live one holds it.
  pub is_same-holds :
      live_entry entry ≡ true
      → is_dead_key entry.key ≡ false
      → is_same key hash key' hash' ≡ true
      → holds key' hash' entry ≡ true
  is_same-holds live alive same =
      let (used, value) = both_true (is_used entry) (is_live entry) live in
      let (hashes, keys) = both_true (hash == hash') (same_key key key') same in
      let (same_hash, _) = both_true (entry.hash == hash) (same_stored_key entry.key key) stored in
      let hash_of : (entry.hash == hash') ≡ true = ground (arith, same_hash, hashes) in
      let key_of : same_key entry.key key' ≡ true =
        sym (same_stored_of_live entry.key key' alive) ∙ same_answers ∙ keys in
      rw (used, hash_of, value, key_of) refl

module _ (store after : Store) (index : ℕ) (old new : Entry) (key : Key) (hash : ℕ)
    (sound : IsSound store.entries) (sound' : IsSound after.entries)
    (at : get_elem? store.entries index ≡ some old)
    (written : after.entries ≡ set store.entries index new)
    (stored : matches_stored key hash old ≡ true)
    (stored' : matches_stored key hash new ≡ true) where
  others :
      (key' : Key) (hash' : ℕ)
      → is_same key hash key' hash' ≡ false
      → get after key' hash' ≡ get store key' hash'
  others key' hash' other = same_binds-get store after key' hash' sound sound' λ value.
      let swapped =
        set-Swapped store.entries index old new at (binds key' hash' value) (λ e n. refl) in
      let gone : binds key' hash' value old ≡ false =
        rw (other-holds key hash old stored key' hash' other) refl in
      let gone' : binds key' hash' value new ≡ false =
        rw (other-holds key hash new stored' key' hash' other) refl in
      let swapped' = rw (gone, gone') at swapped in rw written (omega (arith, swapped'))

  -- The value of the key is written.
  pub written-get :
      live_entry new ≡ true
      → is_dead_key new.key ≡ false
      → (key' : Key) (hash' : ℕ)
      → get after key' hash' ≡ updated (get store) key hash (some new.value) key' hash'
  written-get live alive key' hash' = elim (Bool-cases (is_same key hash key' hash')) [
    | inr other ↦ rw other (others key' hash' other)
    | inl same ↦
        let held = is_same-holds key hash new stored' key' hash' live alive same in
        rw same (
          binds-get after sound' key' hash' new.value (
            some-count (binds key' hash' new.value) after.entries index new
              (rw written (get_elem?-set store.entries index old new at))
              (rw (held, same_slot_refl new.value) refl)))
  ]

  -- The value of the key is cleared.
  pub cleared-get :
      live_entry old ≡ true
      → is_dead_key old.key ≡ false
      → is_live new ≡ false
      → (key' : Key) (hash' : ℕ)
      → get after key' hash' ≡ updated (get store) key hash none key' hash'
  cleared-get live alive gone key' hash' = elim (Bool-cases (is_same key hash key' hash')) [
    | inr other ↦ rw other (others key' hash' other)
    | inl same ↦
        let held = is_same-holds key hash old stored key' hash' live alive same in
        let swapped = set-Swapped store.entries index old new at (holds key' hash') (λ e n. refl) in
        let gone' : holds key' hash' new ≡ false = not_true λ held'.
          let (_, match) = both_true (is_used new) (matches key' hash' new) held' in
          let (_, live', _) =
            all_true (new.hash == hash') (is_live new) (same_key new.key key') match in
          let clash = sym gone ∙ live' in cc in
        let swapped' = rw (held, gone') at swapped in
        let some_answer = sound.unique key' hash' in
        let fewer = count_mono (holds key' hash') (answers key' hash') store.entries λ e h.
          let (used, match) = both_true (is_used e) (matches key' hash' e) h in
          let (same_hash, _, same_of) =
            all_true (e.hash == hash') (is_live e) (same_key e.key key') match in
          rw (used, same_hash, same_key_stored e.key key' same_of) refl in
        rw same (
          no_node-get after sound' key' hash'
            (rw written (omega (arith, swapped', some_answer, fewer))))
  ]
