-- ===== src/Table/Chain.antt =====
-- table_store.go: the chains of the record store as links between numbers, and how they are cut and
-- joined. A node is used or free, has a main position, and has a successor that is one more than its
-- index, or zero.
pub mod Nodes
pub mod Cut
pub mod Cleared
pub mod Join
pub mod Walk
pub mod Placed
pub mod Added
pub mod Finds
pub mod Refilled
use lunar.Base.{
  ℕ, zero, suc, ◌+◌, ◌*◌, ◌≡◌, ◌≢◌, ◌<◌, Bool, true, false, arith, ◌==◌, if◌then◌else◌, Nat-eq, inl,
  inr, refl,
}

-- A function changed at one number.
abbrev pub put {ℓ} : {A : Type ℓ} → (ℕ → A) → ℕ → A → ℕ → A
put f x v i = if i == x then v else f i

-- Each used node but the one in its own main position has one predecessor, and successors stay
-- with one main position. The rank grows along a chain.
pub record IsLinked (used : ℕ → Bool) (home : ℕ → ℕ) (next : ℕ → ℕ) : Type 0 where
  pub rank : ℕ → ℕ
  pub before : ℕ → ℕ
  pub ahead :
      (i n : ℕ)
      → used i ≡ true
      → next i ≡ suc n
      → (used n ≡ true) × (home n ≡ home i) × (n ≢ home n) × (before n ≡ i) × (rank i < rank n)
  pub behind :
      (i : ℕ)
      → used i ≡ true
      → i ≢ home i
      → (used (before i) ≡ true) × (home (before i) ≡ home i) × (next (before i) ≡ suc i)

module _ {used : ℕ → Bool} {home : ℕ → ℕ} {next : ℕ → ℕ} (linked : IsLinked used home next) where
  head_below :
      (bound i : ℕ)
      → linked.rank i < bound
      → used i ≡ true
      → (used (home i) ≡ true) × (home (home i) ≡ home i)
  head_below zero i below u = absurd (omega arith)
  head_below (suc bound) i below u = elim (Nat-eq i (home i)) [
    | inl e ↦ (rw (← e) u, rw (← e, ← e) refl)
    | inr ne ↦
        let (ub, hb, nb) = linked.behind i u ne in
        let (_, _, _, _, less) = linked.ahead (linked.before i) i ub nb in
        let rest = head_below bound (linked.before i) (omega arith) ub in rw hb at rest
  ]

  -- The main position of a used node is used by a node of its own.
  pub head_used : (i : ℕ) → used i ≡ true → (used (home i) ≡ true) × (home (home i) ≡ home i)
  head_used i u = head_below (suc (linked.rank i)) i (omega arith) u

  -- A free node becomes a chain of one.
  pub head-IsLinked :
      (m : ℕ) → used m ≡ false → IsLinked (put used m true) (put home m m) (put next m 0)
  head-IsLinked m free = record {
    rank = linked.rank;
    before = linked.before;
    ahead = λ i n u e. ground (arith, linked.ahead i n);
    behind = λ i u e. ground (arith, linked.behind i);
  }

  -- A node is taken out behind its predecessor.
  pub unlink-IsLinked :
      (b t c : ℕ)
      → used b ≡ true
      → next b ≡ suc t
      → IsLinked (put used t false) (put home t c) (put (put next b (next t)) t 0)
  unlink-IsLinked b t c ub nb = record {
    rank = linked.rank;
    before = λ j. if next t == suc j then b else linked.before j;
    ahead = λ i n u e. ground (arith, linked.ahead i n, linked.ahead b t, linked.ahead t n);
    behind = λ i u e. ground (arith, linked.behind i, linked.ahead b t, linked.ahead t i);
  }

  -- A node without successors in its own main position is taken out.
  pub drop-IsLinked :
      (t c : ℕ)
      → used t ≡ true
      → home t ≡ t
      → next t ≡ 0
      → IsLinked (put used t false) (put home t c) (put next t 0)
  drop-IsLinked t c ut ht nt = record {
    rank = linked.rank;
    before = linked.before;
    ahead = λ i n u e. ground (arith, linked.ahead i n);
    behind = λ i u e. ground (arith, linked.behind i);
  }

  -- A free node is put in behind the head of a chain.
  pub insert-IsLinked :
      (b f : ℕ)
      → used b ≡ true
      → home b ≡ b
      → used f ≡ false
      → IsLinked (put used f true) (put home f b) (put (put next b (suc f)) f (next b))
  insert-IsLinked b f ub hb uf = record {
    rank = λ j. if j == f then linked.rank b * 2 + 1 else linked.rank j * 2;
    before = λ j. if j == f then b else if next b == suc j then f else linked.before j;
    ahead = λ i n u e. ground (arith, linked.ahead i n, linked.ahead b n);
    behind = λ i u e. ground (arith, linked.behind i, linked.ahead b i);
  }

  -- A node moves to a free place, and its predecessor follows it.
  pub move-IsLinked :
      (b t f c : ℕ)
      → used b ≡ true
      → next b ≡ suc t
      → used f ≡ false
      → IsLinked
          (put (put used t false) f true)
          (put (put home t c) f (home t))
          (put (put (put next b (suc f)) t 0) f (next t))
  move-IsLinked b t f c ub nb uf = record {
    rank = λ j. if j == f then linked.rank t else linked.rank j;
    before = λ j. if j == f then b else if next t == suc j then f else linked.before j;
    ahead = λ i n u e.
        ground (arith, linked.ahead i n, linked.ahead b t, linked.ahead t n, head_used b ub);
    behind = λ i u e. ground (arith, linked.behind i, linked.ahead b t, linked.ahead t i);
  }

  -- Only the links of used nodes matter.
  pub same-IsLinked :
      (used' : ℕ → Bool) (home' next' : ℕ → ℕ)
      → ((i : ℕ) → used' i ≡ used i)
      → ((i : ℕ) → used i ≡ true → (home' i ≡ home i) × (next' i ≡ next i))
      → IsLinked used' home' next'
  same-IsLinked used' home' next' su sl = record {
    rank = linked.rank;
    before = linked.before;
    ahead = λ i n u e. ground (arith, linked.ahead i n, su i, su n, sl i, sl n);
    behind = λ i u e.
        ground (arith, linked.behind i, su i, su (linked.before i), sl i, sl (linked.before i));
  }
