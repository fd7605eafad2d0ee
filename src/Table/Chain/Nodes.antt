-- ===== src/Table/Chain/Nodes.antt =====
-- table_store.go: the links of the chains, read off the nodes, and how a changed node changes them.
use lunar.Base.{
  ℕ, zero, suc, ◌%◌, ◌≡◌, refl, ap, Bool, true, false, some-injective, sym, Option-cases, Option,
  none, some, List, [], ◌∷◌, get_elem?, set, arith, ◌==◌, Nat-eq, inl, inr,
}
use mathlib.Core.Path.{fun_ext}
use lunar.Table.Store.{Entry}
use lunar.Table.Insert.{relink}
use lunar.Table.Counts.{get_elem?-set, get_elem?-set_other, is_used}
use lunar.Table.Chain.{IsLinked, put}

abbrev pub of_node {ℓ} : {A : Type ℓ} → A → (Entry → A) → Option Entry → A
of_node out read none = out
of_node out read (some entry) = read entry

unfoldable pub used_at : List Entry → ℕ → Bool
used_at entries i = of_node false is_used (get_elem? entries i)

unfoldable pub home_at : ℕ → List Entry → ℕ → ℕ
home_at size entries i = of_node 0 (λ entry. entry.hash % size) (get_elem? entries i)

unfoldable pub next_at : List Entry → ℕ → ℕ
next_at entries i = of_node 0 (λ entry. entry.next) (get_elem? entries i)

false-true : false ≡ true → ⊥
false-true h = cc

-- The nodes are linked into chains, one for each main position that is in use.
abbrev pub Links : ℕ → List Entry → Type 0
Links size entries = IsLinked (used_at entries) (home_at size entries) (next_at entries)

pub at-some :
    (size : ℕ) (entries : List Entry) (i : ℕ) (entry : Entry)
    → get_elem? entries i ≡ some entry
    → (used_at entries i ≡ is_used entry)
      × (home_at size entries i ≡ entry.hash % size)
      × (next_at entries i ≡ entry.next)
unfolding used_at home_at next_at
at-some size entries i entry h = (rw (used_at, h), rw (home_at, h), rw (next_at, h))

pub used_at-some :
    (entries : List Entry) (i : ℕ)
    → used_at entries i ≡ true
    → (entry : Entry) × (get_elem? entries i ≡ some entry)
unfolding used_at
used_at-some entries i h = elim (Option-cases (get_elem? entries i)) [
  | inl out ↦ absurd (false-true (rw (used_at, out) at h))
  | inr found ↦ found
]

at_node-set {ℓ} :
    {A : Type ℓ} (out : A) (read : Entry → A) (entries : List Entry) (x : ℕ) (old new : Entry)
    → get_elem? entries x ≡ some old
    → (i : ℕ)
    → of_node out read (get_elem? (set entries x new) i)
      ≡ put (λ j. of_node out read (get_elem? entries j)) x (read new) i
at_node-set out read entries x old new h i = elim (Nat-eq i x) [
  | inl e ↦
      let hit : (i == x) ≡ true = ground (arith, e) in
      rw (hit, e, get_elem?-set entries x old new h) refl
  | inr ne ↦
      let miss : (i == x) ≡ false = ground (arith, ne) in
      rw (miss, get_elem?-set_other entries x i new (λ e. ne (sym e))) refl
]

module _ (entries : List Entry) (x : ℕ) (old new : Entry) (h : get_elem? entries x ≡ some old) where
  pub used_at-set : used_at (set entries x new) ≡ put (used_at entries) x (is_used new)
  unfolding used_at
  used_at-set = fun_ext (at_node-set false is_used entries x old new h)

  pub home_at-set :
      (size : ℕ) → home_at size (set entries x new) ≡ put (home_at size entries) x (new.hash % size)
  unfolding home_at
  home_at-set size = fun_ext (at_node-set 0 (λ entry. entry.hash % size) entries x old new h)

  pub next_at-set : next_at (set entries x new) ≡ put (next_at entries) x new.next
  unfolding next_at
  next_at-set = fun_ext (at_node-set 0 (λ entry. entry.next) entries x old new h)

-- A relinked node is set.
pub relink-set :
    (entries : List Entry) (index next : ℕ) (entry : Entry)
    → get_elem? entries index ≡ some entry
    → relink entries index next ≡ set entries index (record entry { next = next })
relink-set [] index next entry h = cc
relink-set (e ∷ entries) zero next entry h = rw (some-injective h) refl
relink-set (e ∷ entries) (suc index) next entry h =
    ap (λ l. e ∷ l) (relink-set entries index next entry h)
