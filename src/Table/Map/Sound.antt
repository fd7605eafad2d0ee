-- ===== src/Table/Map/Sound.antt =====
-- table_store.go: chains, the keys that nodes answer to, and single changes of a store.
use lunar.Base.{
  ap, some-injective, none-some, ℕ, zero, suc, ◌+◌, ◌%◌, ◌≡◌, ◌≤◌, refl, sym, ◌∙◌, Bool, true,
  false, not, ◌&&◌, ◌||◌, none, some, List, [], ◌∷◌, get_elem?, set, length, length-set, arith,
  ◌==◌, if◌then◌else◌, inl, inr, Nat-eq, Bool-cases,
}
use lunar.Slot.{Slot, is_nil}
use lunar.Table.Object.{nil_slot}
use lunar.Table.Store.{Key, Entry, Store, same_key, same_stored_key, find_stored}
use lunar.Table.Insert.{fresh, insert_absent, delete_at, revive_at, revive_stored, revived_key}
use lunar.Table.Change.{replace_at, retire_at, retired_key}
use lunar.Table.Counts.{bit, count, set-Swapped, get_elem?-set, is_used, live_entry}
use lunar.Table.Chain.{same-IsLinked}
use lunar.Table.Chain.Nodes.{Links, at-some, used_at-set, home_at-set, next_at-set}
use lunar.Table.Chain.Cleared.{no-Gains}
use lunar.Table.Chain.Added.{insert_absent-Inserts}
use lunar.Table.Lookup.{matches_stored}
use lunar.Table.Chain.Finds.{find_stored-finds}
use lunar.Table.Map.Keys.{
  is_dead_key, same_stored_class, same_key_stored, self_not_dead, count-some,
}

abbrev pub answers : Key → ℕ → Entry → Bool
answers key hash entry = is_used entry && matches_stored key hash entry

abbrev pub dead_live : Entry → Bool
dead_live entry = live_entry entry && is_dead_key entry.key

pub record IsSound (entries : List Entry) : Type 0 where
  pub links : Links (length entries) entries
  pub unique : (key : Key) (hash : ℕ) → count (answers key hash) entries ≤ 1
  pub undead : count dead_live entries ≡ 0

renewed-Links :
    (entries : List Entry) (x : ℕ) (old new : Entry)
    → Links (length entries) entries
    → get_elem? entries x ≡ some old
    → new.hash ≡ old.hash
    → new.next ≡ old.next
    → Links (length (set entries x new)) (set entries x new)
renewed-Links entries x old new links at same_hash same_next =
    let size = length entries in
    let (u, h, n) = at-some size entries x old at in
    let used : is_used new ≡ is_used old = rw same_hash refl in
    let home : new.hash % size ≡ old.hash % size = rw same_hash refl in
    rw (length-set entries x new) (
      same-IsLinked links _ _ _
        (λ i. rw (used_at-set entries x old new at) (ground (arith, u, used)))
        (λ i in_use. (
          rw (home_at-set entries x old new at size) (ground (arith, h, home)),
          rw (next_at-set entries x old new at) (ground (arith, n, same_next)),
        )))

-- A node gets another value, or another form of its key.
pub renewed-IsSound :
    (entries : List Entry) (x : ℕ) (old new : Entry)
    → IsSound entries
    → get_elem? entries x ≡ some old
    → new.hash ≡ old.hash
    → new.next ≡ old.next
    → ((key : Key) → same_stored_key new.key key ≡ same_stored_key old.key key)
    → dead_live new ≡ false
    → IsSound (set entries x new)
renewed-IsSound entries x old new sound at same_hash same_next same_answers alive = record {
  links = renewed-Links entries x old new sound.links at same_hash same_next;
  unique = λ key hash.
      let swapped = set-Swapped entries x old new at (answers key hash) (λ e n. refl) in
      let same : answers key hash new ≡ answers key hash old =
        rw (same_hash, same_answers key) refl in
      let one = sound.unique key hash in
      let swapped' = rw same at swapped in omega (arith, swapped', one);
  undead =
      let swapped = set-Swapped entries x old new at dead_live (λ e n. refl) in
      let swapped' = rw alive at swapped in
      let none_before = sound.undead in omega (arith, swapped', none_before);
}

set-set : (entries : List Entry) (x : ℕ) (a b : Entry) → set (set entries x a) x b ≡ set entries x b
set-set [] x a b = refl
set-set (e ∷ entries) zero a b = refl
set-set (e ∷ entries) (suc x) a b = ap (λ l. e ∷ l) (set-set entries x a b)

pub replace_at-set :
    (store : Store) (index : ℕ) (entry : Entry) (value : Slot) (after : Store)
    → get_elem? store.entries index ≡ some entry
    → replace_at store index value ≡ some after
    → after.entries ≡ set store.entries index (record entry { value = value })
unfolding replace_at
replace_at-set store index entry value after at h =
    sym (ap (λ (s : Store). s.entries) (some-injective (rw (replace_at, at) at h)))

pub retire_at-set :
    (is_reference : ℕ → Bool) (store : Store) (index : ℕ) (entry : Entry) (after : Store)
    → get_elem? store.entries index ≡ some entry
    → retire_at is_reference store index ≡ some after
    → (is_nil entry.value ≡ true)
      × (after.entries
          ≡ set store.entries index (record entry { key = retired_key is_reference entry.key }))
unfolding retire_at
retire_at-set is_reference store index entry after at h = elim (Bool-cases (is_nil entry.value)) [
  | inr alive ↦ absurd (none-some (rw (retire_at, at, alive) at h))
  | inl gone ↦
      (gone, sym (ap (λ (s : Store). s.entries) (some-injective (rw (retire_at, at, gone) at h))))
]

module _ (is_integer : ℕ → Bool) where
  pub delete_at-set :
      (store : Store) (index : ℕ) (entry : Entry) (after : Store)
      → get_elem? store.entries index ≡ some entry
      → delete_at is_integer store index ≡ some after
      → (is_nil entry.value ≡ false)
        × (after.entries ≡ set store.entries index (record entry { value = nil_slot }))
  unfolding delete_at
  delete_at-set store index entry after at h = elim (Bool-cases (is_nil entry.value)) [
    | inl gone ↦ absurd (none-some (rw (delete_at, at, gone) at h))
    | inr alive ↦ (
      alive,
      sym (ap (λ (s : Store). s.entries) (some-injective (rw (delete_at, at, alive) at h))),
    )
  ]

  pub revive_stored-set :
      (store : Store) (key : Key) (index : ℕ) (entry : Entry) (value : Slot) (after : Store)
      → get_elem? store.entries index ≡ some entry
      → revive_stored is_integer store key index entry value ≡ some after
      → (is_nil entry.value ≡ true)
        × (is_nil value ≡ false)
        × (after.entries
            ≡ set store.entries index
                (record entry { key = revived_key is_integer entry.key key; value = value }))
  unfolding revive_stored revive_at
  revive_stored-set store key index entry value after at h =
      elim (Bool-cases (not (is_nil entry.value) || is_nil value)) [
        | inl bad ↦ absurd (none-some (rw bad at h))
        | inr good ↦
            let renamed : Entry = record entry { key = revived_key is_integer entry.key key } in
            let there = get_elem?-set store.entries index entry renamed at in
            let h1 = rw good at h in
            let h2 = rw (revive_at, there, good) at h1 in
            let (gone, present) = both (is_nil entry.value) (is_nil value) good in
            (
              gone,
              present,
              sym (ap (λ (s : Store). s.entries) (some-injective h2))
                  ∙ set-set store.entries index renamed (record renamed { value = value }),
            )
      ]
    where
      both : (a b : Bool) → (not a || b) ≡ false → (a ≡ true) × (b ≡ false)
      both true true h = cc
      both true false h = (refl, refl)
      both false b h = cc

  -- A key that no node answers to is inserted.
  pub insert_absent-IsSound :
      (store : Store) (key : Key) (value : Slot) (hash : ℕ) (done : Bool) (after : Store)
      → IsSound store.entries
      → same_key key key ≡ true
      → find_stored store key hash ≡ none
      → insert_absent is_integer store key value hash ≡ some (done, after)
      → IsSound after.entries
  unfolding insert_absent
  insert_absent-IsSound store key value hash done after sound own absent h =
      elim (Bool-cases (hash == 0)) [
        | inl zero_hash ↦ absurd (none-some (rw (insert_absent, zero_hash) at h))
        | inr hashed ↦
            let (links, same, gains) =
              insert_absent-Inserts is_integer key value hash hashed (length store.entries)
                store.entries store (done, after) (sound.links, refl, no-Gains store.entries) h in
            record {
              links = rw same links;
              unique = λ key' hash'.
                  let (less, _) = gains (answers key' hash') (λ e n. refl) (λ e u. rw u refl) in
                  let one = sound.unique key' hash' in at_most done less one (alone key' hash');
              undead =
                  let (less, _) = gains dead_live (λ e n. refl) (λ e u. rw u refl) in
                  let alive : dead_live (fresh is_integer key value hash 0) ≡ false =
                    rw (self_not_dead key own)
                      (none_of (live_entry (fresh is_integer key value hash 0))) in
                  let none_before = sound.undead in none_added done (rw alive at less) none_before;
            }
      ]
    where
      none_of : (b : Bool) → (b && false) ≡ false
      none_of true = refl
      none_of false = refl

      none_added : {m k : ℕ} (d : Bool) → m ≤ k + (if d then 0 else 0) → k ≡ 0 → m ≡ 0
      none_added true h e = omega arith
      none_added false h e = omega arith

      at_most :
          {m k : ℕ} {b : Bool} (d : Bool)
          → m ≤ k + (if d then bit b else 0)
          → k ≤ 1
          → (b ≡ true → k ≡ 0)
          → m ≤ 1
      at_most {b = true} true h one rest = let e = rest refl in omega (arith, h, e)
      at_most {b = false} true h one rest = omega (arith, h, one)
      at_most false h one rest = omega (arith, h, one)

      alone :
          (key' : Key) (hash' : ℕ)
          → answers key' hash' (fresh is_integer key value hash 0) ≡ true
          → count (answers key' hash') store.entries ≡ 0
      alone key' hash' hit = elim (Nat-eq (count (answers key' hash') store.entries) 0) [
        | inl e ↦ e
        | inr ne ↦
            let (i, e, at, hit') =
              count-some (answers key' hash') store.entries (omega (arith, ne)) in
            let (used, same_hash, answer) = three (is_used e) (e.hash == hash') _ hit' in
            let (_, same_hash', answer') = three (not (hash == 0)) (hash == hash') _ hit in
            let to_key : same_stored_key e.key key ≡ true =
              same_stored_class e.key key' key answer
              ∙ sym (same_stored_class key key' key answer')
              ∙ same_key_stored key key own in
            let hash_of : (e.hash == hash) ≡ true = ground (arith, same_hash, same_hash') in
            let (a, found) =
              find_stored-finds store sound.links key hash i e at used
                (rw (hash_of, to_key) refl) in
            absurd (none-some (sym absent ∙ found))
      ]
        where
          three : (a b c : Bool) → (a && (b && c)) ≡ true → (a ≡ true) × (b ≡ true) × (c ≡ true)
          three true true true h = (refl, refl, refl)
          three true true false h = cc
          three true false c h = cc
          three false b c h = cc
