-- ===== src/Table/Chain/Placed.antt =====
-- table_store.go: the chains and the live nodes where a node is put in.
use lunar.Base.{
  some-injective, none-some, ℕ, suc, ◌+◌, ◌%◌, ◌≡◌, ◌≢◌, ◌⊎◌, refl, sym, ap, ◌∙◌, inl, inr, Bool,
  true, false, Option, none, some, List, length, length-set, get_elem?, set, arith, ◌==◌,
  Bool-cases, if◌then◌else◌,
}
use mathlib.Core.Path.{subst}
use lunar.Slot.{Slot}
use lunar.Table.Store.{Key, Entry, Store}
use lunar.Table.Insert.{fresh, displace, insert_unlinked}
use lunar.Table.Counts.{bit, set-Swapped, get_elem?-set_other, is_used, dead_entry}
use lunar.Table.Chain.Nodes.{Links, at-some, relink-set, used_at}
use lunar.Table.Chain.Cut.{Gains, nothing, linked_node}
use lunar.Table.Chain.Cleared.{then-Gains, Clears, Keeps}
use lunar.Table.Chain.Join.{head-Links, over-Links, displace-Links}

abbrev pub gained : Bool → Entry → (Entry → Bool) → ℕ
gained done new p = if done then bit (p new) else 0

-- A node that is not live is replaced.
pub set-Gains :
    (entries : List Entry) (x : ℕ) (old new : Entry) (next : ℕ)
    → get_elem? entries x ≡ some old
    → (is_used old ≡ false) ⊎ (dead_entry old ≡ true)
    → Gains (gained true new) entries (set entries x (record new { next = next }))
set-Gains entries x old new next at idle p ignores blank =
    let one =
      rw (ignores new next) at
        (set-Swapped entries x old (record new { next = next }) at p ignores) in
    (
      omega (arith, one),
      λ dull.
          let gone : p old ≡ false = elim idle [ inl a ↦ blank old a | inr b ↦ dull old b ] in
          let one' = rw gone at one in omega (arith, one'),
    )

pub apart :
    (entries : List Entry) (i j : ℕ) (a b : Entry)
    → get_elem? entries i ≡ some a
    → is_used a ≡ false
    → get_elem? entries j ≡ some b
    → is_used b ≡ true
    → i ≢ j
apart entries i j a b at u at' u' e =
    let same : a ≡ b = some-injective (sym at ∙ ap (get_elem? entries) e ∙ at') in
    let clash = sym u ∙ ap is_used same ∙ u' in cc

module _ (is_integer : ℕ → Bool) (key : Key) (value : Slot) (hash : ℕ)
    (hashed : (hash == 0) ≡ false) (size : ℕ) (entries : List Entry) where
  abbrev new : ℕ → Entry
  new next = fresh is_integer key value hash next

  pub new_used : (next : ℕ) → is_used (new next) ≡ true
  new_used next = rw hashed

  -- What inserting leaves: the chains, as many nodes, and the new node where it is done.
  abbrev pub Inserts : Bool × Store → Type 0
  Inserts (done, after) =
      Links size after.entries
      × (length after.entries ≡ size)
      × Gains (gained done (fresh is_integer key value hash 0)) entries after.entries

  -- The new node in a free main position.
  pub placed :
      (store : Store) (main : ℕ) (old : Entry)
      → Keeps size entries store
      → hash % size ≡ main
      → get_elem? store.entries main ≡ some old
      → is_used old ≡ false
      → Inserts (true, record store { entries = set store.entries main (new 0) })
  placed store main old (links, same, gains) home at free = (
    head-Links size store.entries links main old (new 0) at (new_used 0) home free refl,
    length-set store.entries main (new 0) ∙ same,
    then-Gains _ entries store.entries _ gains
        (set-Gains store.entries main old (new 0) 0 at (inl free)),
  )

  -- Over a dead node.
  pub over :
      (store : Store) (main : ℕ) (old : Entry)
      → Keeps size entries store
      → hash % size ≡ main
      → get_elem? store.entries main ≡ some old
      → is_used old ≡ true
      → dead_entry old ≡ true
      → old.hash % size ≡ main
      → Inserts (true, record store { entries = set store.entries main (new old.next) })
  over store main old (links, same, gains) home at used dead own = (
    over-Links size store.entries links main old (new old.next) at (new_used old.next) home used own
        refl,
    length-set store.entries main (new old.next) ∙ same,
    then-Gains _ entries store.entries _ gains
        (set-Gains store.entries main old (new 0) old.next at (inr dead)),
  )

  pub insert_unlinked-Inserts :
      (store : Store) (main : ℕ) (o : Option (ℕ × Store)) (answer : Bool × Store)
      → Keeps size entries store
      → hash % size ≡ main
      → ((a : ℕ × Store) → o ≡ some a → Clears size store.entries a)
      → insert_unlinked is_integer key value hash main o ≡ some answer
      → Inserts answer
  insert_unlinked-Inserts store main none answer keeps home each h = cc
  insert_unlinked-Inserts store main (some (free, after)) answer (links, same, gains) home each h =
      let (links', same', gains', e, there, unused) = each (free, after) refl in
      elim (Bool-cases (free == main)) [
        | inr other ↦ absurd (none-some (rw other at h))
        | inl hit ↦
            let e_main : free ≡ main = ground (arith, hit) in
            subst Inserts (some-injective (rw hit at h)) (
              placed after main e
                (links', same' ∙ same, then-Gains nothing entries store.entries _ gains gains') home
                (rw e_main at there) unused)
      ]

  pub displace-Inserts :
      (store : Store) (main free : ℕ) (gap occupant : Entry) (o : Option ℕ) (answer : Bool × Store)
      → Keeps size entries store
      → hash % size ≡ main
      → get_elem? store.entries free ≡ some gap
      → is_used gap ≡ false
      → get_elem? store.entries main ≡ some occupant
      → is_used occupant ≡ true
      → ((b : ℕ)
          → o ≡ some b
          → (used_at store.entries b ≡ true)
            × (entry : Entry) × (get_elem? store.entries b ≡ some entry)
            × (entry.next ≡ main + 1))
      → displace is_integer store key value hash main free occupant o ≡ some answer
      → Inserts answer
  displace-Inserts store main free gap occupant none answer keeps home there unused at used leads
        h =
      cc
  displace-Inserts store main free gap occupant (some b) answer (links, same, gains) home there
        unused at used leads h =
      let (ub, eb, at_b, nb) = leads b refl in
      let (u, _, _) = at-some size store.entries b eb at_b in
      let used_b : is_used eb ≡ true = sym u ∙ ub in
      let next : eb.next ≡ suc main = nb ∙ omega arith in
      let (_, _, _, _, less) = linked_node size store.entries links b eb main at_b used_b next in
      let moved : List Entry = set store.entries free occupant in
      let joined : Entry = record eb { next = suc free } in
      let two : get_elem? moved b ≡ some eb =
        get_elem?-set_other store.entries free b occupant
          (apart store.entries free b gap eb there unused at_b used_b)
        ∙ at_b in
      let three : get_elem? (set moved b joined) main ≡ some occupant =
        get_elem?-set_other moved b main joined (ground (arith, less))
        ∙ get_elem?-set_other store.entries free main occupant
            (apart store.entries free main gap occupant there unused at used)
        ∙ at in
      let last : free + 1 ≡ suc free = omega arith in
      subst Inserts (some-injective h) (
        rw (relink-set moved b (free + 1) eb two, last)
          (
            displace-Links size store.entries links main free occupant gap (new 0) at used there
                unused (new_used 0) home b eb joined at_b used_b next refl used_b refl refl two
                three,
            length-set (set moved b joined) main (new 0)
                ∙ length-set moved b joined
                ∙ length-set store.entries free occupant
                ∙ same,
            then-Gains _ entries store.entries _ gains λ p ignores blank.
                let one = set-Swapped store.entries free gap occupant there p ignores in
                let mid =
                  rw (ignores eb (suc free)) at (set-Swapped moved b eb joined two p ignores) in
                let end = set-Swapped (set moved b joined) main occupant (new 0) three p ignores in
                let dull = blank gap unused in
                let one' = rw dull at one in
                (omega (arith, one', mid, end), λ idle. omega (arith, one', mid, end)),
          ))
