-- ===== src/Table/Chain/Cut.antt =====
-- table_store.go: what is left of the chains where a dead node is reclaimed.
use lunar.Base.{
  ℕ, zero, suc, ◌+◌, ◌-◌, ◌%◌, ◌≡◌, ◌≢◌, ◌≤◌, ◌<◌, refl, sym, ◌∙◌, Bool, true, false, some, List,
  get_elem?, set, arith, ◌==◌, some-injective, none-some, inl, inr, Bool-cases, Option-cases,
}
use lunar.Table.Store.{Entry}
use lunar.Table.Insert.{empty_entry, predecessor}
use lunar.Table.Counts.{count, Ignores, get_elem?-set_other, is_used, dead_entry}
use lunar.Table.Chain.{unlink-IsLinked, drop-IsLinked, same-IsLinked}
use lunar.Table.Chain.Nodes.{
  used_at, home_at, Links, at-some, used_at-set, home_at-set, next_at-set,
}

-- Nodes are put in, and at most dead nodes are lost.
abbrev pub Gains : ((Entry → Bool) → ℕ) → List Entry → List Entry → Type 0
Gains extra before after =
    (p : Entry → Bool)
    → Ignores p
    → ((e : Entry) → is_used e ≡ false → p e ≡ false)
    → (count p after ≤ count p before + extra p)
      × (((e : Entry) → dead_entry e ≡ true → p e ≡ false)
          → count p after ≡ count p before + extra p)

abbrev pub nothing : (Entry → Bool) → ℕ
nothing p = 0

module _ (size : ℕ) (entries : List Entry) (links : Links size entries) where
  -- The node after a link.
  pub linked_node :
      (i : ℕ) (entry : Entry) (n : ℕ)
      → get_elem? entries i ≡ some entry
      → is_used entry ≡ true
      → entry.next ≡ suc n
      → (used_at entries n ≡ true)
        × (home_at size entries n ≡ entry.hash % size)
        × (n ≢ home_at size entries n)
        × (links.before n ≡ i)
        × (links.rank i < links.rank n)
  linked_node i entry n at used e =
      let (u, h, x) = at-some size entries i entry at in
      let (a, b, c, d, f) = links.ahead i n (u ∙ used) (x ∙ e) in (a, b ∙ h, c, d, f)

  -- What `predecessor` finds is used and leads to the target.
  pub predecessor-leads :
      (rounds start target found : ℕ)
      → used_at entries start ≡ true
      → predecessor rounds entries start target ≡ some found
      → (used_at entries found ≡ true)
        × (entry : Entry) × (get_elem? entries found ≡ some entry)
        × (entry.next ≡ target + 1)
  unfolding predecessor
  predecessor-leads zero start target found u h = cc
  predecessor-leads (suc rounds) start target found u h =
      elim (Option-cases (get_elem? entries start)) [
        | inl out ↦ absurd (none-some (rw (predecessor, out) at h))
        | inr (entry, at) ↦
            let h1 = rw (predecessor, at) at h in
            elim (Bool-cases (entry.next == target + 1)) [
              | inl hit ↦
                  let same : start ≡ found = some-injective (rw hit at h1) in
                  rw (← same) (u, entry, at, ground (arith, hit))
              | inr miss ↦
                  let h2 = rw miss at h1 in
                  elim (Bool-cases (entry.next == 0)) [
                    | inl last ↦ absurd (none-some (rw last at h2))
                    | inr more ↦
                        let (used, _, _) = at-some size entries start entry at in
                        let on =
                          linked_node start entry (entry.next - 1) at (sym used ∙ u)
                            (ground (arith, more)) in
                        predecessor-leads rounds (entry.next - 1) target found on.0 (rw more at h2)
                  ]
            ]
      ]

  -- The node behind another is freed, and what the other holds is changed.
  pub cut-Links :
      (b t : ℕ) (eb new et : Entry)
      → get_elem? entries b ≡ some eb
      → is_used eb ≡ true
      → eb.next ≡ suc t
      → get_elem? entries t ≡ some et
      → is_used new ≡ true
      → new.hash % size ≡ eb.hash % size
      → new.next ≡ et.next
      → Links size (set (set entries b new) t empty_entry)
  cut-Links b t eb new et at ub nb there un hn nn =
      let (u, h, x) = at-some size entries b eb at in
      let (_, _, xt) = at-some size entries t et there in
      let (_, _, _, _, less) = linked_node b eb t at ub nb in
      let two : get_elem? (set entries b new) t ≡ some et =
        get_elem?-set_other entries b t new (ground (arith, less)) ∙ there in
      same-IsLinked (unlink-IsLinked links b t (empty_entry.hash % size) (u ∙ ub) (x ∙ nb)) _ _ _
        (λ i.
          rw (used_at-set (set entries b new) t et empty_entry two, used_at-set entries b eb new at)
            (ground (arith, u)))
        (λ i used. (
          rw
              (
                home_at-set (set entries b new) t et empty_entry two size,
                home_at-set entries b eb new at size,
              )
              (ground (arith, h)),
          rw (next_at-set (set entries b new) t et empty_entry two, next_at-set entries b eb new at)
              (ground (arith, xt)),
        ))

  -- A head without successors is freed.
  pub drop-Links :
      (t : ℕ) (et : Entry)
      → get_elem? entries t ≡ some et
      → is_used et ≡ true
      → et.hash % size ≡ t
      → et.next ≡ 0
      → Links size (set entries t empty_entry)
  drop-Links t et at ut ht nt =
      let (u, h, x) = at-some size entries t et at in
      same-IsLinked (drop-IsLinked links t (empty_entry.hash % size) (u ∙ ut) (h ∙ ht) (x ∙ nt)) _ _
        _ (λ i. rw (used_at-set entries t et empty_entry at) refl)
        (λ i used. (
          rw (home_at-set entries t et empty_entry at size) refl,
          rw (next_at-set entries t et empty_entry at) refl,
        ))
