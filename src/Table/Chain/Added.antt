-- ===== src/Table/Chain/Added.antt =====
-- table_store.go: the chains and the live nodes after `insertAbsent`.
use lunar.Base.{
  some-injective, none-some, ℕ, suc, ◌+◌, ◌%◌, ◌≡◌, refl, sym, ◌∙◌, inl, inr, Bool, true, false,
  not, Option, none, some, List, length, length-set, get_elem?, set, arith, ◌==◌, Bool-cases,
  Option-cases,
}
use mathlib.Core.Path.{subst}
use lunar.Slot.{Slot, is_nil}
use lunar.Table.Store.{Key, Entry, Store, main_index}
use lunar.Table.Insert.{relink, fresh, insert_beside, insert_free, insert_at, insert_absent}
use lunar.Table.Counts.{set-Swapped, get_elem?-set_other, is_used, dead_entry}
use lunar.Table.Chain.Nodes.{at-some, relink-set}
use lunar.Table.Chain.{head_used}
use lunar.Table.Chain.Cut.{predecessor-leads}
use lunar.Table.Scan
use lunar.Table.Chain.Cleared.{then-Gains, Keeps, reclaim_dead_at-Clears, take_free-Keeps}
use lunar.Table.Chain.Join.{beside-Links}
use lunar.Table.Chain.Placed.{
  apart, Inserts, placed, over, new_used, insert_unlinked-Inserts, displace-Inserts,
}

module _ (is_integer : ℕ → Bool) (key : Key) (value : Slot) (hash : ℕ)
    (hashed : (hash == 0) ≡ false) (size : ℕ) (entries : List Entry) where
  abbrev Done : Bool × Store → Type 0
  Done answer = Inserts is_integer key value hash hashed size entries answer

  -- Behind the head of its chain.
  behind-Inserts :
      (store : Store) (main free : ℕ) (gap occupant : Entry)
      → Keeps size entries store
      → hash % size ≡ main
      → get_elem? store.entries free ≡ some gap
      → is_used gap ≡ false
      → get_elem? store.entries main ≡ some occupant
      → is_used occupant ≡ true
      → occupant.hash % size ≡ main
      → Done (
        true,
        record store {
          entries =
              set
                (relink store.entries main (free + 1))
                free
                (fresh is_integer key value hash occupant.next);
        },
      )
  behind-Inserts store main free gap occupant (links, same, gains) home there unused at used own =
      let joined : Entry = record occupant { next = suc free } in
      let new : Entry = fresh is_integer key value hash occupant.next in
      let two : get_elem? (set store.entries main joined) free ≡ some gap =
        get_elem?-set_other store.entries main free joined
          (λ e. apart store.entries free main gap occupant there unused at used (sym e))
        ∙ there in
      let last : free + 1 ≡ suc free = omega arith in
      let in_use = new_used is_integer key value hash hashed size entries occupant.next in
      rw (relink-set store.entries main (free + 1) occupant at, last)
        (
          beside-Links size store.entries links main free occupant gap new at used there unused
              in_use home joined own refl used own refl two,
          length-set (set store.entries main joined) free new
              ∙ length-set store.entries main joined
              ∙ same,
          then-Gains _ entries store.entries _ gains λ p ignores blank.
              let one =
                rw (ignores occupant (suc free)) at
                  (set-Swapped store.entries main occupant joined at p ignores) in
              let put_in =
                rw (ignores (fresh is_integer key value hash 0) occupant.next) at
                  (set-Swapped (set store.entries main joined) free gap new two p ignores) in
              let end = rw (blank gap unused) at put_in in
              (omega (arith, one, end), λ idle. omega (arith, one, end)),
        )

  insert_beside-Inserts :
      (store : Store) (main free : ℕ) (gap : Entry) (o : Option Entry) (answer : Bool × Store)
      → Keeps size entries store
      → hash % size ≡ main
      → get_elem? store.entries free ≡ some gap
      → is_used gap ≡ false
      → get_elem? store.entries main ≡ o
      → insert_beside is_integer store key value hash main free o ≡ some answer
      → Done answer
  insert_beside-Inserts store main free gap none answer keeps home there unused at h = cc
  insert_beside-Inserts store main free gap (some occupant) answer (links, same, gains) home there
        unused at h =
      elim (Bool-cases (occupant.hash == 0)) [
        | inl empty ↦ subst Done (some-injective (rw empty at h)) (
            placed is_integer key value hash hashed size entries store main occupant
              (links, same, gains) home at (rw empty))
        | inr used ↦
            let in_use : is_used occupant ≡ true = rw used in
            let h1 = rw used at h in
            elim (Bool-cases (not (main_index store occupant.hash == main))) [
              | inl other ↦
                  let (u, home_of, _) = at-some size store.entries main occupant at in
                  let head = head_used links main (u ∙ in_use) in
                  displace-Inserts is_integer key value hash hashed size entries store main free gap
                    occupant _ answer (links, same, gains) home there unused at in_use
                    (λ b e.
                      predecessor-leads size store.entries links (length store.entries)
                        (main_index store occupant.hash) main b (rw (same, ← home_of) head.0) e)
                    (rw other at h1)
              | inr own ↦
                  let main_of : main_index store occupant.hash ≡ main = ground (arith, own) in
                  subst Done (some-injective (rw own at h1)) (
                    behind-Inserts store main free gap occupant (links, same, gains) home there
                      unused at in_use (rw same at main_of))
            ]
      ]

  insert_free-Inserts :
      (main : ℕ) (o : Option (Option ℕ × Store)) (answer : Bool × Store)
      → hash % size ≡ main
      → ((a : Option ℕ × Store) → o ≡ some a → Scan.Frees (Keeps size entries) a)
      → insert_free is_integer key value hash main o ≡ some answer
      → Done answer
  insert_free-Inserts main none answer home each h = cc
  insert_free-Inserts main (some (none, after)) answer home each h =
      subst Done (some-injective h) (each (none, after) refl)
  insert_free-Inserts main (some (some free, after)) answer home each h =
      let (keeps, e, there, unused) = each (some free, after) refl in
      insert_beside-Inserts after main free e _ answer keeps home there unused refl h

  insert_at-Inserts :
      (store : Store) (main : ℕ) (entry : Entry) (answer : Bool × Store)
      → Keeps size entries store
      → hash % size ≡ main
      → get_elem? store.entries main ≡ some entry
      → insert_at is_integer store key value hash main entry ≡ some answer
      → Done answer
  insert_at-Inserts store main entry answer (links, same, gains) home at h =
      elim (Bool-cases (entry.hash == 0)) [
        | inl empty ↦ subst Done (some-injective (rw empty at h)) (
            placed is_integer key value hash hashed size entries store main entry
              (links, same, gains) home at (rw empty))
        | inr used ↦
            let h1 = rw used at h in
            elim (Bool-cases (is_nil entry.value)) [
              | inr alive ↦
                  insert_free-Inserts main _ answer home
                    (λ a e. take_free-Keeps size entries store a (links, same, gains) e)
                    (rw alive at h1)
              | inl gone ↦
                  let h2 = rw gone at h1 in
                  let dead : dead_entry entry ≡ true = rw (used, gone) in
                  elim (Bool-cases (main_index store entry.hash == main)) [
                    | inl head ↦
                        let main_of : main_index store entry.hash ≡ main = ground (arith, head) in
                        subst Done (some-injective (rw head at h2)) (
                          over is_integer key value hash hashed size entries store main entry
                            (links, same, gains) home at (rw used) dead (rw same at main_of))
                    | inr other ↦
                        insert_unlinked-Inserts is_integer key value hash hashed size entries store
                          main _ answer (links, same, gains) home
                          (λ a e. reclaim_dead_at-Clears size store same links main a e)
                          (rw other at h2)
                  ]
            ]
      ]

  pub insert_absent-Inserts :
      (store : Store) (answer : Bool × Store)
      → Keeps size entries store
      → insert_absent is_integer store key value hash ≡ some answer
      → Done answer
  unfolding insert_absent
  insert_absent-Inserts store answer (links, same, gains) h =
      let h1 = rw (insert_absent, hashed) at h in
      elim (Option-cases (get_elem? store.entries (main_index store hash))) [
        | inl out ↦ absurd (none-some (rw out at h1))
        | inr (entry, at) ↦
            insert_at-Inserts store (main_index store hash) entry answer (links, same, gains)
              (rw same) at (rw at at h1)
      ]
