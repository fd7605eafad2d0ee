-- ===== src/Table/Chain/Refilled.antt =====
-- table_store.go: the chains that `rehash` makes, and the nodes it keeps.
use lunar.Base.{
  ap, some-injective, none-some, ℕ, zero, suc, ◌+◌, ◌≡◌, ◌≤◌, refl, Bool, true, false, not, ◌&&◌,
  ◌||◌, Option, none, some, List, [], ◌∷◌, length, replicate, arith, ◌==◌, if◌then◌else◌, inl, inr,
  Bool-cases, Option-cases, ltb,
}
use mathlib.Core.Path.{subst}
use lunar.Slot.{is_nil}
use lunar.Table.Store.{Entry, Store}
use lunar.Table.Sizes.{next_power_of_two, maximum_table_store_capacity}
use lunar.Table.Insert.{empty_entry, insert_absent}
use lunar.Table.Change.{empty_store, unless_full, refill, rehash}
use lunar.Table.Counts.{count, Ignores, is_used, live_entry, dead_entry}
use lunar.Table.Chain.Nodes.{Links, used_at}
use lunar.Table.Chain.Cleared.{no-Gains}
use lunar.Table.Chain.Added.{insert_absent-Inserts}

empty_unused : (n i : ℕ) → used_at (replicate n empty_entry) i ≡ false
unfolding used_at
empty_unused zero i = refl
empty_unused (suc n) zero = refl
empty_unused (suc n) (suc i) = empty_unused n i

pub empty-Links : (size n : ℕ) → Links size (replicate n empty_entry)
empty-Links size n = record {
  rank = λ i. 0;
  before = λ i. 0;
  ahead = λ i next u e. ground (arith, empty_unused n i, u);
  behind = λ i u ne. ground (arith, empty_unused n i, u);
}

pub length-empty : (n : ℕ) → length (replicate n empty_entry) ≡ n
length-empty zero = refl
length-empty (suc n) = ap suc (length-empty n)

pub count-empty :
    (p : Entry → Bool) (n : ℕ) → p empty_entry ≡ false → count p (replicate n empty_entry) ≡ 0
count-empty p zero h = refl
count-empty p (suc n) h = rw (h, count-empty p n h)

-- The nodes that count and are live.
abbrev pub live_part : (Entry → Bool) → Entry → Bool
live_part p entry = live_entry entry && p entry

-- What the refilled store holds of the given nodes.
abbrev Refills : List Entry → List Entry → List Entry → Type 0
Refills start given after =
    (p : Entry → Bool)
    → Ignores p
    → ((e : Entry) → is_used e ≡ false → p e ≡ false)
    → (count p after ≤ count p start + count (live_part p) given)
      × (((e : Entry) → dead_entry e ≡ true → p e ≡ false)
          → count p after ≡ count p start + count (live_part p) given)

live_of : (a b : Bool) → (a || b) ≡ false → (not a && not b) ≡ true
live_of true b h = cc
live_of false true h = cc
live_of false false h = refl

dull_of : (a b : Bool) → (a || b) ≡ true → (not a && not b) ≡ false
dull_of true b h = refl
dull_of false true h = refl
dull_of false false h = cc

module _ (is_integer : ℕ → Bool) where
  abbrev pub Kept : ℕ → Store → Type 0
  Kept size store = Links size store.entries × (length store.entries ≡ size)

  -- One node of the loop.
  abbrev pub taken : Store → Entry → Option Store
  taken store entry =
      if entry.hash == 0 || is_nil entry.value
      then some store
      else unless_full is_integer (insert_absent is_integer store entry.key entry.value entry.hash)

  pub one_taken :
      (size : ℕ) (store : Store) (entry : Entry) (after : Store)
      → Kept size store
      → taken store entry ≡ some after
      → Kept size after × Refills store.entries (entry ∷ []) after.entries
  one_taken size store entry after (links, same) h =
      elim (Bool-cases (entry.hash == 0 || is_nil entry.value)) [
        | inl skip ↦
            let dull : live_entry entry ≡ false =
              dull_of (entry.hash == 0) (is_nil entry.value) skip in
            subst (λ s. Kept size s × Refills store.entries (entry ∷ []) s.entries)
              (some-injective (rw skip at h))
              ((links, same), λ p ignores blank. rw dull (omega arith, λ idle. omega arith))
        | inr take ↦
            inserted (insert_absent is_integer store entry.key entry.value entry.hash) refl
              (rw take at h) take
      ]
    where
      inserted :
          (o : Option (Bool × Store))
          → insert_absent is_integer store entry.key entry.value entry.hash ≡ o
          → unless_full is_integer o ≡ some after
          → (entry.hash == 0 || is_nil entry.value) ≡ false
          → Kept size after × Refills store.entries (entry ∷ []) after.entries
      inserted none e h take = cc
      inserted (some (false, s)) e h take = cc
      inserted (some (true, s)) e h take =
          let live : live_entry entry ≡ true =
            live_of (entry.hash == 0) (is_nil entry.value) take in
          let (links', same', gains) =
            insert_absent-Inserts is_integer entry.key entry.value entry.hash
              (first_false (entry.hash == 0) (is_nil entry.value) take) size store.entries store
              (true, s) (links, same, no-Gains store.entries) e in
          subst (λ s. Kept size s × Refills store.entries (entry ∷ []) s.entries) (some-injective h)
            (
              (links', same'),
              λ p ignores blank.
                  let (less, equal) = rw (ignores entry 0) at (gains p ignores blank) in
                  rw live (omega (arith, less), λ idle. let e' = equal idle in omega (arith, e')),
            )
        where
          first_false : (a b : Bool) → (a || b) ≡ false → a ≡ false
          first_false true b h = cc
          first_false false b h = refl

  refill-Refills :
      (size : ℕ) (given : List Entry) (store after : Store)
      → Kept size store
      → refill is_integer (some store) given ≡ some after
      → Kept size after × Refills store.entries given after.entries
  unfolding refill
  refill-Refills size [] store after kept h =
      subst (λ s. Kept size s × Refills store.entries [] s.entries) (some-injective h)
        (kept, λ p ignores blank. (omega arith, λ idle. omega arith))
  refill-Refills size (entry ∷ given) store after kept h =
      let next : refill is_integer (taken store entry) given ≡ some after = h in
      elim (Option-cases (taken store entry)) [
        | inl panic ↦ absurd (none-some (rw panic at next))
        | inr (middle, e) ↦
            let (kept', one) = one_taken size store entry middle kept e in
            let (kept'', rest) = refill-Refills size given middle after kept' (rw e at next) in
            (
              kept'',
              λ p ignores blank.
                  let (less, equal) = one p ignores blank in
                  let (less', equal') = rest p ignores blank in
                  (
                    omega (arith, less, less'),
                    λ idle. let a = equal idle in let b = equal' idle in omega (arith, a, b),
                  ),
            )
      ]

  -- The rehashed store is chained, and holds the live nodes.
  pub rehash-Refills :
      (store after : Store) (capacity : ℕ)
      → rehash is_integer store capacity ≡ some after
      → Links (length after.entries) after.entries
        × ((p : Entry → Bool)
            → Ignores p
            → ((e : Entry) → is_used e ≡ false → p e ≡ false)
            → (count p after.entries ≤ count (live_part p) store.entries)
              × (((e : Entry) → dead_entry e ≡ true → p e ≡ false)
                  → count p after.entries ≡ count (live_part p) store.entries))
  unfolding rehash
  rehash-Refills store after capacity h =
      elim (Bool-cases (capacity == 0 || ltb maximum_table_store_capacity capacity)) [
        | inl bad ↦ absurd (none-some (rw bad at h))
        | inr good ↦
            let h1 = rw good at h in
            elim (Option-cases
              (if ltb capacity store.live then next_power_of_two store.live else some capacity)) [
                | inl panic ↦ absurd (none-some (rw panic at h1))
                | inr (room, e) ↦
                    let ((links, same), refills) =
                      refill-Refills room store.entries (empty_store room) after
                        (empty-Links room room, length-empty room) (rw e at h1) in
                    (
                      rw same links,
                      λ p ignores blank.
                          let none_yet = count-empty p room (blank empty_entry refl) in
                          let (less, equal) = refills p ignores blank in
                          (
                            omega (arith, less, none_yet),
                            λ idle. let a = equal idle in omega (arith, a, none_yet),
                          ),
                    )
              ]
      ]
