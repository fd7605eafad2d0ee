-- ===== src/Table/Chain/Cleared.antt =====
-- table_store.go: the chains and the live nodes where a dead node is reclaimed or a free one searched.
use lunar.Base.{
  both_true, ℕ, suc, ◌+◌, ◌-◌, ◌%◌, ◌≡◌, refl, sym, ◌∙◌, Bool, true, false, not, ◌||◌, Option, none,
  some, List, length, length-set, get_elem?, set, arith, ◌==◌, some-injective, none-some, neither,
  inl, inr, Bool-cases, Option-cases,
}
use mathlib.Core.Path.{subst}
use lunar.Table.Store.{Entry, Store, is_live, main_index}
use lunar.Table.Insert.{empty_entry, promote, unlink, reclaim, reclaim_dead_at, take_free}
use lunar.Table.Counts.{
  bit, Ignores, set-Swapped, get_elem?-set, get_elem?-set_other, is_used, dead_entry,
}
use lunar.Table.Chain.{head_used}
use lunar.Table.Scan
use lunar.Table.Chain.Nodes.{used_at, Links, at-some, relink-set}
use lunar.Table.Chain.Cut.{Gains, nothing, linked_node, predecessor-leads, cut-Links, drop-Links}

-- A dead node is lost where one is freed.
freed-Gains :
    (entries : List Entry) (x y : ℕ) (old old' new gone : Entry)
    → get_elem? entries x ≡ some old
    → get_elem? (set entries x new) y ≡ some old'
    → dead_entry gone ≡ true
    → ((p : Entry → Bool) → Ignores p → bit (p old) + bit (p old') ≡ bit (p new) + bit (p gone))
    → Gains nothing entries (set (set entries x new) y empty_entry)
freed-Gains entries x y old old' new gone at there dead same p ignores blank =
    let one = set-Swapped entries x old new at p ignores in
    let two = set-Swapped (set entries x new) y old' empty_entry there p ignores in
    let three = same p ignores in
    let two' = rw (blank empty_entry refl) at two in
    (
      omega (arith, one, two', three),
      λ idle. let none_lost = rw (idle gone dead) at three in omega (arith, one, two', none_lost),
    )

one-Gains :
    (entries : List Entry) (x : ℕ) (gone : Entry)
    → get_elem? entries x ≡ some gone
    → dead_entry gone ≡ true
    → Gains nothing entries (set entries x empty_entry)
one-Gains entries x gone at dead p ignores blank =
    let one =
      rw (blank empty_entry refl) at (set-Swapped entries x gone empty_entry at p ignores) in
    (omega (arith, one), λ idle. let one' = rw (idle gone dead) at one in omega (arith, one'))

-- What reclaiming leaves: the chains, as many nodes, no live node lost, and a free one.
abbrev pub Clears : ℕ → List Entry → ℕ × Store → Type 0
Clears size entries (free, after) =
    Links size after.entries
    × (length after.entries ≡ length entries)
    × Gains nothing entries after.entries
    × (e : Entry) × (get_elem? after.entries free ≡ some e)
    × (is_used e ≡ false)

module _ (size : ℕ) (store : Store) (same_size : length store.entries ≡ size)
    (links : Links size store.entries) where
  unlink-Clears :
      (index : ℕ) (old : Entry) (o : Option ℕ) (answer : ℕ × Store)
      → get_elem? store.entries index ≡ some old
      → dead_entry old ≡ true
      → ((found : ℕ)
          → o ≡ some found
          → (used_at store.entries found ≡ true)
            × (entry : Entry) × (get_elem? store.entries found ≡ some entry)
            × (entry.next ≡ index + 1))
      → unlink store index old o ≡ some answer
      → Clears size store.entries answer
  unlink-Clears index old none answer at dead leads h = cc
  unlink-Clears index old (some b) answer at dead leads h =
      let (ub, eb, there, nb) = leads b refl in
      let (u, _, _) = at-some size store.entries b eb there in
      let new : Entry = record eb { next = old.next } in
      let used : is_used eb ≡ true = sym u ∙ ub in
      let next : eb.next ≡ suc index = nb ∙ omega arith in
      let (_, _, _, _, less) = linked_node size store.entries links b eb index there used next in
      let two : get_elem? (set store.entries b new) index ≡ some old =
        get_elem?-set_other store.entries b index new (ground (arith, less)) ∙ at in
      subst (Clears size store.entries) (some-injective h) (
        rw (relink-set store.entries b old.next eb there) (
          cut-Links size store.entries links b index eb new old there used next at used refl refl,
          length-set (set store.entries b new) index empty_entry ∙ length-set store.entries b new,
          freed-Gains store.entries b index eb old new old there two dead
              (λ p ignores. rw (ignores eb old.next) refl),
          empty_entry,
          get_elem?-set (set store.entries b new) index old empty_entry two,
          refl,
        ))

  promote-Clears :
      (index successor : ℕ) (old : Entry) (o : Option Entry) (answer : ℕ × Store)
      → get_elem? store.entries index ≡ some old
      → dead_entry old ≡ true
      → old.next ≡ suc successor
      → get_elem? store.entries successor ≡ o
      → promote store index successor o ≡ some answer
      → Clears size store.entries answer
  promote-Clears index successor old none answer at dead next found h = cc
  promote-Clears index successor old (some moved) answer at dead next found h =
      let used : is_used old ≡ true = (both_true (is_used old) (not (is_live old)) dead).0 in
      let (um, hm, _, _, less) =
        linked_node size store.entries links index old successor at used next in
      let (u, home, _) = at-some size store.entries successor moved found in
      let two : get_elem? (set store.entries index moved) successor ≡ some moved =
        get_elem?-set_other store.entries index successor moved (ground (arith, less)) ∙ found in
      subst (Clears size store.entries) (some-injective h) (
        cut-Links size store.entries links index successor old moved moved at used next found
            (sym u ∙ um) (sym home ∙ hm) refl,
        length-set (set store.entries index moved) successor empty_entry
            ∙ length-set store.entries index moved,
        freed-Gains store.entries index successor old moved moved old at two dead
            (λ p ignores. omega arith),
        empty_entry,
        get_elem?-set (set store.entries index moved) successor moved empty_entry two,
        refl,
      )

  reclaim-Clears :
      (index : ℕ) (entry : Entry) (answer : ℕ × Store)
      → get_elem? store.entries index ≡ some entry
      → reclaim store index entry ≡ some answer
      → Clears size store.entries answer
  reclaim-Clears index entry answer at h = elim (Bool-cases (entry.hash == 0 || is_live entry)) [
    | inl bad ↦ absurd (none-some (rw bad at h))
    | inr good ↦
        let dead = neither (entry.hash == 0) (is_live entry) good in
        let used : is_used entry ≡ true =
          (both_true (is_used entry) (not (is_live entry)) dead).0 in
        let (u, home, _) = at-some size store.entries index entry at in
        let h1 = rw good at h in
        elim (Bool-cases (not (main_index store entry.hash == index))) [
          | inl other ↦
              let head = head_used links index (u ∙ used) in
              unlink-Clears index entry _ answer at dead
                (λ found e.
                  predecessor-leads size store.entries links (length store.entries)
                    (main_index store entry.hash) index found (rw (same_size, ← home) head.0) e)
                (rw other at h1)
          | inr same ↦
              let h2 = rw same at h1 in
              let main : main_index store entry.hash ≡ index = ground (arith, same) in
              let at_home : entry.hash % size ≡ index = rw same_size at main in
              elim (Bool-cases (entry.next == 0)) [
                | inl last ↦ subst (Clears size store.entries) (some-injective (rw last at h2)) (
                  drop-Links size store.entries links index entry at used at_home
                      (ground (arith, last)),
                  length-set store.entries index empty_entry,
                  one-Gains store.entries index entry at dead,
                  empty_entry,
                  get_elem?-set store.entries index entry empty_entry at,
                  refl,
                )
                | inr more ↦
                    promote-Clears index (entry.next - 1) entry _ answer at dead
                      (ground (arith, more)) refl (rw more at h2)
              ]
        ]
  ]

  pub reclaim_dead_at-Clears :
      (index : ℕ) (answer : ℕ × Store)
      → reclaim_dead_at store index ≡ some answer
      → Clears size store.entries answer
  unfolding reclaim_dead_at
  reclaim_dead_at-Clears index answer h = elim (Option-cases (get_elem? store.entries index)) [
    | inl out ↦ absurd (none-some (rw (reclaim_dead_at, out) at h))
    | inr (entry, at) ↦ reclaim-Clears index entry answer at (rw (reclaim_dead_at, at) at h)
  ]

pub then-Gains :
    (extra : (Entry → Bool) → ℕ) (first second third : List Entry)
    → Gains nothing first second
    → Gains extra second third
    → Gains extra first third
then-Gains extra first second third one two p ignores blank =
    let (less, same) = one p ignores blank in
    let (less', same') = two p ignores blank in
    (
      omega (arith, less, less'),
      λ idle. let e = same idle in let e' = same' idle in omega (arith, e, e'),
    )

pub no-Gains : (entries : List Entry) → Gains nothing entries entries
no-Gains entries p ignores blank = (omega arith, λ idle. omega arith)

module _ (size : ℕ) (entries : List Entry) where
  -- The chains are right, and no live node was lost.
  abbrev pub Keeps : Store → Type 0
  Keeps store =
      Links size store.entries × (length store.entries ≡ size) × Gains nothing entries store.entries

  pub take_free-Keeps :
      (store : Store) (answer : Option ℕ × Store)
      → Keeps store
      → take_free store ≡ some answer
      → Scan.Frees Keeps answer
  take_free-Keeps store answer keeps h =
      Scan.take_free-Frees Keeps (λ s last kept. kept)
        (λ s index (free, after) (links, same, gains) e.
          let (links', same', gains', node, there, unused) =
            reclaim_dead_at-Clears size s same links index (free, after) e in
          (
            (links', same' ∙ same, then-Gains nothing entries s.entries after.entries gains gains'),
            node,
            there,
            unused,
          ))
        store answer keeps h
