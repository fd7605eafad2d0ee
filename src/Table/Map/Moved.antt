-- ===== src/Table/Map/Moved.antt =====
-- table_store.go: what `get` answers after an insertion and after a rehash.
use lunar.Base.{
  both_true, all_true, none-some, ℕ, ◌+◌, ◌≡◌, refl, Bool, true, false, not, ◌&&◌, some, length,
  arith, ◌==◌, if◌then◌else◌, inl, inr, Bool-cases,
}
use lunar.Slot.{Slot, is_nil}
use lunar.Table.Store.{Key, Entry, Store, is_live, same_key, get}
use lunar.Table.Insert.{fresh, insert_absent}
use lunar.Table.Change.{rehash}
use lunar.Table.Counts.{bit, count, is_used, live_entry, dead_entry}
use lunar.Table.Chain.Cleared.{no-Gains}
use lunar.Table.Chain.Added.{insert_absent-Inserts}
use lunar.Table.Lookup.{matches, matches_stored}
use lunar.Table.Map.Keys.{same_key_stored, self_not_dead, count_mono}
use lunar.Table.Chain.Refilled.{live_part, rehash-Refills}
use lunar.Table.Map.Sound.{IsSound}
use lunar.Table.Map.Bound.{holds, binds, same_slot, same_slot_refl, binds-get, same_binds-get}
use lunar.Table.Map.Written.{is_same, updated, other-holds, is_same-holds}

-- A test that asks for a value is false on a dead node.
pub binds-dead :
    (key : Key) (hash : ℕ) (value : Slot) (e : Entry)
    → dead_entry e ≡ true
    → binds key hash value e ≡ false
binds-dead key hash value e dead = gone (is_used e) (is_live e) (e.hash == hash) _ _ dead
  where
    gone : (u l m s v : Bool) → (u && not l) ≡ true → (u && (m && l && s) && v) ≡ false
    gone true false true s v h = refl
    gone true false false s v h = refl
    gone true true m s v h = cc
    gone false l m s v h = cc

module _ (is_integer : ℕ → Bool) (store after : Store) (sound : IsSound store.entries)
    (sound' : IsSound after.entries) where
  pub inserted-get :
      (key : Key) (value : Slot) (hash : ℕ) (done : Bool)
      → same_key key key ≡ true
      → is_nil value ≡ false
      → insert_absent is_integer store key value hash ≡ some (done, after)
      → (key' : Key) (hash' : ℕ)
      → get after key' hash' ≡ (
          if done
          then updated (get store) key hash (some value) key' hash'
          else get store key' hash')
  unfolding insert_absent
  inserted-get key value hash done own present h key' hash' = elim (Bool-cases (hash == 0)) [
    | inl zero_hash ↦ absurd (none-some (rw (insert_absent, zero_hash) at h))
    | inr hashed ↦
        let (_, _, gains) =
          insert_absent-Inserts is_integer key value hash hashed (length store.entries)
            store.entries store (done, after) (sound.links, refl, no-Gains store.entries) h in
        let more : (v : Slot)
            → count (binds key' hash' v) after.entries
              ≡ count (binds key' hash' v) store.entries
                + (if done then bit (binds key' hash' v new) else 0) =
          λ v.
            (gains (binds key' hash' v) (λ e n. refl) (λ e u. rw u refl)).1
              (binds-dead key' hash' v) in
        answer done hashed more
  ]
    where
      new : Entry
      new = fresh is_integer key value hash 0

      stored : matches_stored key hash new ≡ true
      stored =
          let e : (hash == hash) ≡ true = ground arith in rw (e, same_key_stored key key own) refl

      answer :
          (d : Bool)
          → (hash == 0) ≡ false
          → ((v : Slot)
              → count (binds key' hash' v) after.entries
                ≡ count (binds key' hash' v) store.entries
                  + (if d then bit (binds key' hash' v new) else 0))
          → get after key' hash' ≡ (
              if d
              then updated (get store) key hash (some value) key' hash'
              else get store key' hash')
      answer false hashed more =
          same_binds-get store after key' hash' sound sound'
            (λ v. let m = more v in omega (arith, m))
      answer true hashed more = elim (Bool-cases (is_same key hash key' hash')) [
        | inl same ↦
            let held =
              is_same-holds key hash new stored key' hash' (rw (hashed, present) refl)
                (self_not_dead key own) same in
            let m = rw (held, same_slot_refl value) at (more value) in
            rw same (binds-get after sound' key' hash' value (omega (arith, m)))
        | inr other ↦ rw other (
            same_binds-get store after key' hash' sound sound' λ v.
              let m = rw (other-holds key hash new stored key' hash' other) at (more v) in
              omega (arith, m))
      ]

  pub rehashed-get :
      (capacity : ℕ)
      → rehash is_integer store capacity ≡ some after
      → (key' : Key) (hash' : ℕ) → get after key' hash' ≡ get store key' hash'
  rehashed-get capacity h key' hash' =
      let (_, refills) = rehash-Refills is_integer store after capacity h in
      same_binds-get store after key' hash' sound sound' λ v.
        let (_, equal) = refills (binds key' hash' v) (λ e n. refl) (λ e u. rw u refl) in
        let e = equal (binds-dead key' hash' v) in
        let less =
          count_mono (live_part (binds key' hash' v)) (binds key' hash' v) store.entries
            (λ e b. (both_true (live_entry e) (binds key' hash' v e) b).1) in
        let more =
          count_mono (binds key' hash' v) (live_part (binds key' hash' v)) store.entries
            (λ e b. rw (binds-live key' hash' v e b, b) refl) in
        omega (arith, e, less, more)
    where
      binds-live :
          (k : Key) (n : ℕ) (v : Slot) (e : Entry) → binds k n v e ≡ true → live_entry e ≡ true
      binds-live k n v e b =
          let (held, _) = both_true (holds k n e) (same_slot e.value v) b in
          let (used, match) = both_true (is_used e) (matches k n e) held in
          let (_, live, _) = all_true (e.hash == n) (is_live e) (same_key e.key k) match in
          rw (used, live) refl
