-- ===== src/Table/Map.antt =====
-- table_store.go: the record store as a map of keys to values.
pub mod Keys
pub mod Sound
pub mod Steps
pub mod Bound
pub mod Written
pub mod Moved
pub mod Scanned
use lunar.Base.{
  both_true, all_true, some-injective, none-some, ℕ, ◌+◌, ◌≡◌, ◌≤◌, ◌<◌, refl, sym, ◌∙◌, ap, Bool,
  true, false, not, ◌&&◌, Option, none, some, List, [], ◌∷◌, ◌⊎◌, get_elem?, set, length, arith,
  ◌==◌, if◌then◌else◌, inl, inr, Bool-cases, Option-cases, Nat-eq,
}
use lunar.Slot.{Slot, is_nil}
use lunar.Table.Object.{nil_slot}
use lunar.Table.Store.{
  Key, plain_key, object_key, dead_key, Entry, Store, is_live, same_key, same_stored_key, get,
  find_stored,
}
use lunar.Table.Insert.{fresh, insert_absent, revived_key}
use lunar.Table.Change.{
  rehash, retired_key, Change, inserted, deleted, replaced, cleared, retired, revived, rehashed,
  Reached,
}
use lunar.Table.Counts.{bit, count, set-Swapped, get_elem?-set, is_used, live_entry, dead_entry}
use lunar.Table.Chain.Cleared.{no-Gains}
use lunar.Table.Chain.Added.{insert_absent-Inserts}
use lunar.Table.Lookup.{matches, matches_stored, find-matches, find_stored-matches}
use lunar.Table.Map.Keys.{
  is_dead_key, same_key_stored, same_stored_of_live, self_not_dead, revived_key-answers,
  revived_key-not_dead, count_mono,
}
use lunar.Table.Chain.Refilled.{live_part, rehash-Refills}
use lunar.Table.Map.Sound.{IsSound, replace_at-set, retire_at-set, delete_at-set, revive_stored-set}
use lunar.Table.Map.Steps.{live_key, Change-IsSound, Reached-IsSound}
use lunar.Table.Map.Bound.{
  holds, binds, same_slot, same_slot_refl, binds-get, no_node-get, same_binds-get,
}
use lunar.Table.Map.Written.{
  Contents, is_same, updated, written-get, cleared-get, other-holds, is_same-holds,
}
use lunar.Table.Map.Moved.{binds-dead, inserted-get, rehashed-get}
use lunar.Table.Map.Scanned.{scan, scan-binds}

-- What a change does to the map: an insertion that finds room, a replacement and a revival write the
-- key, a deletion and the collector's clearing remove one, and the others leave the map as it is.
abbrev pub effect :
    (is_integer : ℕ → Bool) {store after : Store}
    → Change is_integer store after
    → Contents
    → Contents
effect is_integer (inserted key value hash done own present absent h) contents =
    if done then updated contents key hash (some value) else contents
effect is_integer (deleted key hash index entry found h) contents = updated contents key hash none
effect is_integer (replaced key hash index entry value found alive present h) contents =
    updated contents key hash (some value)
effect is_integer (cleared index entry at hashed h) contents =
    updated contents entry.key entry.hash none
effect is_integer (retired is_reference index entry at hashed h) contents = contents
effect is_integer (revived key hash index entry value found h) contents =
    updated contents key hash (some value)
effect is_integer (rehashed capacity h) contents = contents

nil_dead : not (is_nil nil_slot) ≡ false
unfolding is_nil
nil_dead = refl

self_stored : (a : Key) → is_dead_key a ≡ false → same_stored_key a a ≡ true
self_stored (plain_key a) h = ground arith
self_stored (object_key a) h = ground arith
self_stored (dead_key a) h = cc

module _ (is_integer : ℕ → Bool) where
  change-get :
      (store after : Store) (change : Change is_integer store after)
      → IsSound store.entries
      → IsSound after.entries
      → (key : Key) (hash : ℕ) → get after key hash ≡ effect is_integer change (get store) key hash
  change-get store after (inserted key value hash done own present absent h) sound sound' k n =
      inserted-get is_integer store after sound sound' key value hash done own present h k n
      ∙ spread done
    where
      spread :
          (d : Bool)
          → (if d then updated (get store) key hash (some value) k n else get store k n)
            ≡ (if d then updated (get store) key hash (some value) else get store) k n
      spread true = refl
      spread false = refl
  change-get store after (deleted key hash index entry found h) sound sound' k n =
      let (at, used, hit) = find-matches store key hash index entry found in
      let (alive, written) = delete_at-set is_integer store index entry after at h in
      let (same_hash, _, same) = all_true (entry.hash == hash) (is_live entry) _ hit in
      let stored : matches_stored key hash entry ≡ true =
        rw (same_hash, same_key_stored entry.key key same) refl in
      cleared-get store after index entry (record entry { value = nil_slot }) key hash sound sound'
        at written stored stored (rw (used, alive) refl)
        (live_key store.entries index entry sound at used alive) nil_dead k n
  change-get store after (cleared index entry at hashed h) sound sound' k n =
      let (alive, written) = delete_at-set is_integer store index entry after at h in
      let used : is_used entry ≡ true = rw hashed refl in
      let not_dead = live_key store.entries index entry sound at used alive in
      let e : (entry.hash == entry.hash) ≡ true = ground arith in
      let stored : matches_stored entry.key entry.hash entry ≡ true =
        rw (e, self_stored entry.key not_dead) refl in
      cleared-get store after index entry (record entry { value = nil_slot }) entry.key entry.hash
        sound sound' at written stored stored (rw (hashed, alive) refl) not_dead nil_dead k n
  change-get store after (replaced key hash index entry value found alive present h) sound sound' k
        n =
      let (at, used, stored) = find_stored-matches store key hash index entry found in
      written-get store after index entry (record entry { value = value }) key hash sound sound' at
        (replace_at-set store index entry value after at h) stored stored (rw (used, present) refl)
        (live_key store.entries index entry sound at used alive) k n
  change-get store after (retired is_reference index entry at hashed h) sound sound' k n =
      let (gone, written) = retire_at-set is_reference store index entry after at h in
      let new : Entry = record entry { key = retired_key is_reference entry.key } in
      same_binds-get store after k n sound sound' λ v.
        let swapped = set-Swapped store.entries index entry new at (binds k n v) (λ e x. refl) in
        let old_idle = binds-dead k n v entry (rw (hashed, gone) refl) in
        let new_idle = binds-dead k n v new (rw (hashed, gone) refl) in
        let swapped' = rw (old_idle, new_idle) at swapped in rw written (omega (arith, swapped'))
  change-get store after (revived key hash index entry value found h) sound sound' k n =
      let (at, used, stored) = find_stored-matches store key hash index entry found in
      let (gone, present, written) =
        revive_stored-set is_integer store key index entry value after at h in
      let (same_hash, answer) =
        both_true (entry.hash == hash) (same_stored_key entry.key key) stored in
      let stored' : matches_stored key hash
            (record entry { key = revived_key is_integer entry.key key; value = value })
          ≡ true =
        rw (same_hash, revived_key-answers is_integer entry.key key key answer, answer) refl in
      written-get store after index entry
        (record entry { key = revived_key is_integer entry.key key; value = value }) key hash sound
        sound' at written stored stored' (rw (used, present) refl)
        (revived_key-not_dead is_integer entry.key key answer) k n
  change-get store after (rehashed capacity h) sound sound' k n =
      rehashed-get is_integer store after sound sound' capacity h k n

-- In a store that was reached, each change acts on what `get` answers, for every key and hash, as it
-- acts on a map: an insertion that finds room, the replacement of a value and the revival of a deleted
-- node give the key its value, a deletion and the collector's clearing take one key away, and a full
-- insertion, the retirement of a key and a rehash change no answer; no other key is ever affected.
pub effect-get :
    (is_integer : ℕ → Bool) (store after : Store)
    → Reached is_integer store
    → (change : Change is_integer store after) → (key : Key) (hash : ℕ)
    → get after key hash ≡ effect is_integer change (get store) key hash
effect-get is_integer store after reached change key hash =
    let sound = Reached-IsSound is_integer store reached in
    change-get is_integer store after change sound
      (Change-IsSound is_integer store after change sound) key hash

-- In a store that was reached, looking a key up along its chain answers what a search of every node
-- does: the value of the first live node with that hash and key, and nothing where there is none.
pub get-scan :
    (is_integer : ℕ → Bool) (store : Store) (key : Key) (hash : ℕ)
    → Reached is_integer store
    → get store key hash ≡ scan store.entries key hash
get-scan is_integer store key hash reached =
    let sound = Reached-IsSound is_integer store reached in
    elim (scan-binds store.entries key hash) [
      | inl (e, empty) ↦ no_node-get store sound key hash empty ∙ sym e
      | inr (value, e, more) ↦ binds-get store sound key hash value more ∙ sym e
    ]
