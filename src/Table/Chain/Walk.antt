-- ===== src/Table/Chain/Walk.antt =====
-- table_store.go: how far a walk along a chain goes.
use lunar.Base.{
  ℕ, zero, suc, ◌+◌, ◌≡◌, ◌≤◌, ◌<◌, ap, true, some, List, [], ◌∷◌, length, get_elem?, arith, leb,
  inl, inr, Nat-eq,
}
use lunar.Table.Store.{Entry}
use lunar.Table.Counts.{bit, is_used}
use lunar.Table.Chain.Nodes.{used_at, home_at, next_at, Links, used_at-some}
use lunar.Table.Chain.Cut.{linked_node}

-- How many of the first numbers have at least this rank.
abbrev pub above : (ℕ → ℕ) → ℕ → ℕ → ℕ
above rank least zero = 0
above rank least (suc n) = bit (leb least (rank n)) + above rank least n

above-le : (rank : ℕ → ℕ) (least n : ℕ) → above rank least n ≤ n
above-le rank least zero = omega arith
above-le rank least (suc n) = ground (arith, above-le rank least n)

above_mono : (rank : ℕ → ℕ) (less more n : ℕ) → less ≤ more → above rank more n ≤ above rank less n
above_mono rank less more zero h = omega arith
above_mono rank less more (suc n) h = ground (arith, above_mono rank less more n h)

above-lt :
    (rank : ℕ → ℕ) (i least more n : ℕ)
    → i < n
    → least ≤ rank i
    → rank i < more
    → above rank more n < above rank least n
above-lt rank i least more zero below l h = absurd (omega arith)
above-lt rank i least more (suc n) below l h = elim (Nat-eq i n) [
  | inl e ↦
      let same = ap rank e in
      let rest = above_mono rank least more n (omega arith) in ground (arith, rest, same, l, h)
  | inr ne ↦ let rest = above-lt rank i least more n (omega arith) l h in ground (arith, rest, l, h)
]

pub get_elem?-below :
    (entries : List Entry) (i : ℕ) (entry : Entry)
    → get_elem? entries i ≡ some entry
    → i < length entries
get_elem?-below [] i entry h = cc
get_elem?-below (e ∷ entries) zero entry h = omega arith
get_elem?-below (e ∷ entries) (suc i) entry h =
    let rest = get_elem?-below entries i entry h in omega (arith, rest)

-- The links lead from a node to the target.
pub data Reaches (entries : List Entry) (target : ℕ) : ℕ → Type 0 where
  here : Reaches entries target target
  there :
      {i n : ℕ} → next_at entries i ≡ suc n → Reaches entries target n → Reaches entries target i

Reaches-step :
    {entries : List Entry} {target last start : ℕ}
    → Reaches entries last start
    → next_at entries last ≡ suc target
    → Reaches entries target start
Reaches-step here e = there e here
Reaches-step (there f rest) e = there f (Reaches-step rest e)

module _ (size : ℕ) (entries : List Entry) (links : Links size entries) where
  head-Reaches_below :
      (bound i : ℕ)
      → links.rank i < bound
      → used_at entries i ≡ true
      → Reaches entries i (home_at size entries i)
  head-Reaches_below zero i below u = absurd (omega arith)
  head-Reaches_below (suc bound) i below u = elim (Nat-eq i (home_at size entries i)) [
    | inl e ↦ rw (← e) here
    | inr ne ↦
        let (ub, hb, nb) = links.behind i u ne in
        let (_, _, _, _, less) = links.ahead (links.before i) i ub nb in
        let rest = head-Reaches_below bound (links.before i) (omega arith) ub in
        rw hb at (Reaches-step rest nb)
  ]

  -- Each used node is reached from its main position.
  pub head-Reaches : (i : ℕ) → used_at entries i ≡ true → Reaches entries i (home_at size entries i)
  head-Reaches i u = head-Reaches_below (suc (links.rank i)) i (omega arith) u

  -- The nodes that a walk can still visit.
  abbrev pub ahead_of : ℕ → ℕ
  ahead_of i = above links.rank (links.rank i) (length entries)

  pub ahead_of-le : (i : ℕ) → ahead_of i ≤ length entries
  ahead_of-le i = above-le links.rank (links.rank i) (length entries)

  -- One node of a walk.
  pub visited :
      (i n : ℕ) (entry : Entry)
      → get_elem? entries i ≡ some entry
      → is_used entry ≡ true
      → entry.next ≡ suc n
      → (ahead_of n < ahead_of i) × (used_at entries n ≡ true)
  visited i n entry at used e =
      let (un, _, _, _, less) = linked_node size entries links i entry n at used e in
      (
        above-lt links.rank i (links.rank i) (links.rank n) (length entries)
            (get_elem?-below entries i entry at) (omega arith) less,
        un,
      )

  pub some_round : (i : ℕ) → used_at entries i ≡ true → 0 < ahead_of i
  some_round i u =
      let (entry, at) = used_at-some entries i u in
      let less =
        above-lt links.rank i (links.rank i) (suc (links.rank i)) (length entries)
          (get_elem?-below entries i entry at) (omega arith) (omega arith) in
      omega (arith, less)
