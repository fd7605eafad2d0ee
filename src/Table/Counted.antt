-- ===== src/Table/Counted.antt =====
-- The counters of a store stay right through its operations.
use lunar.Base.{
  ℕ, ◌+◌, ◌-◌, ◌≡◌, refl, ◌∙◌, Bool, true, false, not, ◌&&◌, List, arith, if◌then◌else◌,
}
use lunar.Table.Store.{Entry, Store, is_live}
use lunar.Table.Insert.{drop_dead, is_positive_integer_key, record_insert}
use lunar.Table.Counts.{
  bit, count, Swapped, is_used, live_entry, dead_entry, integer_entry, IsCounted,
}

pub live_not_dead : (used live : Bool) → (used && live) ≡ true → (used && not live) ≡ false
live_not_dead true true h = refl
live_not_dead true false h = cc
live_not_dead false live h = refl

one_more : (b : Bool) (k : ℕ) → (if b then k + 1 else k) ≡ k + bit b
one_more true k = refl
one_more false k = omega arith

dead_not_live : (used live : Bool) → (used && not live) ≡ true → (used && live) ≡ false
dead_not_live true true h = cc
dead_not_live true false h = refl
dead_not_live false live h = refl

module _ (is_integer : ℕ → Bool) where
  pub free_bits :
      (e : Entry)
      → is_used e ≡ false
      → (live_entry e ≡ false) × (dead_entry e ≡ false) × (integer_entry is_integer e ≡ false)
  free_bits e h = (rw h, rw h, rw h)

  pub dead_bits :
      (e : Entry)
      → dead_entry e ≡ true
      → (live_entry e ≡ false) × (integer_entry is_integer e ≡ false)
  dead_bits e h =
      let live : live_entry e ≡ false = dead_not_live (is_used e) (is_live e) h in (live, rw live)

  -- The three counts after a swap.
  abbrev Tallied : List Entry → List Entry → Entry → Entry → Type 0
  Tallied before after old new =
      (count live_entry after + bit (live_entry old)
        ≡ count live_entry before + bit (live_entry new))
      × (count dead_entry after + bit (dead_entry old)
          ≡ count dead_entry before + bit (dead_entry new))
      × (count (integer_entry is_integer) after + bit (integer_entry is_integer old)
          ≡ count (integer_entry is_integer) before + bit (integer_entry is_integer new))

  Swapped-Tallied :
      (before after : List Entry) (old new : Entry)
      → Swapped before after old new
      → Tallied before after old new
  Swapped-Tallied before after old new swapped = (
    swapped live_entry (λ e n. refl),
    swapped dead_entry (λ e n. refl),
    swapped (integer_entry is_integer) (λ e n. refl),
  )

  -- A dead node is taken out.
  pub drop_dead-IsCounted :
      (store : Store) (after : List Entry) (old new : Entry)
      → IsCounted is_integer store
      → dead_entry old ≡ true
      → is_used new ≡ false
      → Swapped store.entries after old new
      → IsCounted is_integer (drop_dead store after)
  drop_dead-IsCounted store after old new counted dead unused swapped =
      let (live, gone, integers) = Swapped-Tallied store.entries after old new swapped in
      let (old_live, old_integer) = dead_bits old dead in
      let (new_live, new_dead, new_integer) = free_bits new unused in
      record {
        live = omega (arith, counted.live, rw (old_live, new_live) at live);
        dead = omega (arith, counted.dead, rw (dead, new_dead) at gone);
        integers = omega (arith, counted.integers, rw (old_integer, new_integer) at integers);
      }

  pub moved-IsCounted :
      (store : Store) (last : ℕ)
      → IsCounted is_integer store
      → IsCounted is_integer (record store { last_free = last })
  moved-IsCounted store last counted = record {
    live = counted.live;
    dead = counted.dead;
    integers = counted.integers;
  }

  -- A live node is put in the place of one that is not live.
  pub record_insert-IsCounted :
      (store : Store) (after : List Entry) (old new : Entry) (dead : ℕ)
      → IsCounted is_integer store
      → live_entry old ≡ false
      → live_entry new ≡ true
      → dead ≡ store.dead - bit (dead_entry old)
      → Swapped store.entries after old new
      → IsCounted is_integer
          (record_insert is_integer (record store { entries = after; dead = dead }) new.key)
  record_insert-IsCounted store after old new dead counted idle alive rest swapped =
      let (live, gone, integers) = Swapped-Tallied store.entries after old new swapped in
      let new_dead : dead_entry new ≡ false = live_not_dead (is_used new) (is_live new) alive in
      let old_integer : integer_entry is_integer old ≡ false = rw idle in
      let new_integer : integer_entry is_integer new ≡ is_positive_integer_key is_integer new.key =
        rw alive in
      record {
        live = omega (arith, counted.live, rw (idle, alive) at live);
        dead = omega (arith, rest, counted.dead, rw new_dead at gone);
        integers =
            one_more (is_positive_integer_key is_integer new.key) store.integer_keys
            ∙ omega (arith, counted.integers, rw (old_integer, new_integer) at integers);
      }
