-- ===== src/Table/Chain/Join.antt =====
-- table_store.go: the chains where a new node is put in.
use lunar.Base.{ℕ, suc, ◌%◌, ◌≡◌, refl, ◌∙◌, true, false, some, List, get_elem?, set, arith}
use lunar.Table.Store.{Entry}
use lunar.Table.Counts.{is_used}
use lunar.Table.Chain.{head-IsLinked, insert-IsLinked, move-IsLinked, same-IsLinked}
use lunar.Table.Chain.Nodes.{Links, at-some, used_at-set, home_at-set, next_at-set}

module _ (size : ℕ) (entries : List Entry) (links : Links size entries) (m : ℕ) (old new : Entry)
    (at : get_elem? entries m ≡ some old) (un : is_used new ≡ true) (hn : new.hash % size ≡ m) where
  -- In a free main position.
  pub head-Links : is_used old ≡ false → new.next ≡ 0 → Links size (set entries m new)
  head-Links uo nn =
      let (u, h, x) = at-some size entries m old at in
      same-IsLinked (head-IsLinked links m (u ∙ uo)) _ _ _
        (λ i. rw (used_at-set entries m old new at) (ground (arith, un)))
        (λ i used. (
          rw (home_at-set entries m old new at size) (ground (arith, hn)),
          rw (next_at-set entries m old new at) (ground (arith, nn)),
        ))

  -- In the place of the head of the same chain.
  pub over-Links :
      is_used old ≡ true
      → old.hash % size ≡ m
      → new.next ≡ old.next
      → Links size (set entries m new)
  over-Links uo ho nn =
      let (u, h, x) = at-some size entries m old at in
      same-IsLinked links _ _ _
        (λ i. rw (used_at-set entries m old new at) (ground (arith, un, u, uo)))
        (λ i used. (
          rw (home_at-set entries m old new at size) (ground (arith, hn, h, ho)),
          rw (next_at-set entries m old new at) (ground (arith, nn, x)),
        ))

module _ (size : ℕ) (entries : List Entry) (links : Links size entries) (m f : ℕ)
    (old gap new : Entry) (at : get_elem? entries m ≡ some old) (uo : is_used old ≡ true)
    (free : get_elem? entries f ≡ some gap) (uf : is_used gap ≡ false) (un : is_used new ≡ true)
    (hn : new.hash % size ≡ m) where
  -- Behind the head of the chain.
  pub beside-Links :
      (joined : Entry)
      → old.hash % size ≡ m
      → new.next ≡ old.next
      → is_used joined ≡ true
      → joined.hash % size ≡ m
      → joined.next ≡ suc f
      → get_elem? (set entries m joined) f ≡ some gap
      → Links size (set (set entries m joined) f new)
  beside-Links joined ho nn uj hj nj two =
      let (u, h, x) = at-some size entries m old at in
      let (u', _, _) = at-some size entries f gap free in
      same-IsLinked (insert-IsLinked links m f (u ∙ uo) (h ∙ ho) (u' ∙ uf)) _ _ _
        (λ i.
          rw (used_at-set (set entries m joined) f gap new two, used_at-set entries m old joined at)
            (ground (arith, u, uo, un, uj)))
        (λ i used. (
          rw
              (
                home_at-set (set entries m joined) f gap new two size,
                home_at-set entries m old joined at size,
              )
              (ground (arith, h, ho, hn, hj)),
          rw (next_at-set (set entries m joined) f gap new two, next_at-set entries m old joined at)
              (ground (arith, nn, nj, x)),
        ))

  -- In the main position, whose node of another chain moves to the free one.
  pub displace-Links :
      (b : ℕ) (eb joined : Entry)
      → get_elem? entries b ≡ some eb
      → is_used eb ≡ true
      → eb.next ≡ suc m
      → new.next ≡ 0
      → is_used joined ≡ true
      → joined.hash ≡ eb.hash
      → joined.next ≡ suc f
      → get_elem? (set entries f old) b ≡ some eb
      → get_elem? (set (set entries f old) b joined) m ≡ some old
      → Links size (set (set (set entries f old) b joined) m new)
  displace-Links b eb joined there ub nb nn uj hj nj two three =
      let (u, h, x) = at-some size entries m old at in
      let (u', _, _) = at-some size entries f gap free in
      let (u'', h'', x'') = at-some size entries b eb there in
      let moved = move-IsLinked links b m f m (u'' ∙ ub) (x'' ∙ nb) (u' ∙ uf) in
      let hj' : joined.hash % size ≡ eb.hash % size = rw hj refl in
      same-IsLinked (head-IsLinked moved m (ground (arith, u, uo, u', uf))) _ _ _
        (λ i.
          rw
            (
              used_at-set (set (set entries f old) b joined) m old new three,
              used_at-set (set entries f old) b eb joined two,
              used_at-set entries f gap old free,
            )
            (ground (arith, u'', uo, ub, un, uj)))
        (λ i used. (
          rw
              (
                home_at-set (set (set entries f old) b joined) m old new three size,
                home_at-set (set entries f old) b eb joined two size,
                home_at-set entries f gap old free size,
              )
              (ground (arith, h, h'', hn, hj', u'', u', ub, uf)),
          rw
              (
                next_at-set (set (set entries f old) b joined) m old new three,
                next_at-set (set entries f old) b eb joined two,
                next_at-set entries f gap old free,
              )
              (ground (arith, nn, nj, x, u'', u', ub, uf)),
        ))
