-- ===== src/Table/Chain/Finds.antt =====
-- table_store.go: what the lookups find along a chain.
use lunar.Base.{
  both_true, all_true, some-injective, ℕ, zero, suc, ◌+◌, ◌-◌, ◌≡◌, ◌≢◌, ◌≤◌, ◌<◌, refl, sym, ap,
  ◌∙◌, Bool, true, false, not, some, length, get_elem?, arith, ◌==◌, inl, inr, Bool-cases,
}
use lunar.Table.Store.{
  Key, Entry, Store, is_live, main_index, find_from, find_stored_from, find, find_stored,
}
use lunar.Table.Insert.{predecessor}
use lunar.Table.Counts.{is_used}
use lunar.Table.Lookup.{matches, matches_stored}
use lunar.Table.Chain.{head_used}
use lunar.Table.Chain.Nodes.{used_at, Links, at-some, used_at-some}
use lunar.Table.Chain.Walk.{
  get_elem?-below, Reaches, here, there, ahead_of, ahead_of-le, visited, some_round, head-Reaches,
}

unused_not : {b : Bool} → not b ≡ true → b ≡ false
unused_not {b = true} h = cc
unused_not {b = false} h = refl

module _ (store : Store) (links : Links (length store.entries) store.entries) where
  abbrev left : ℕ → ℕ
  left i = ahead_of (length store.entries) store.entries links i

  -- What a walk does at a node that is not the target: there is a next one, nearer to it.
  onward :
      (start target : ℕ) (entry : Entry)
      → get_elem? store.entries start ≡ some entry
      → is_used entry ≡ true
      → start ≢ target
      → Reaches store.entries target start
      → (entry.next ≡ suc (entry.next - 1))
        × Reaches store.entries target (entry.next - 1)
        × (left (entry.next - 1) < left start)
        × (used_at store.entries (entry.next - 1) ≡ true)
  onward start target entry at used ne here = absurd (ne refl)
  onward start target entry at used ne (there {n = n} e rest) =
      let (_, _, x) = at-some (length store.entries) store.entries start entry at in
      let next : entry.next ≡ suc n = sym x ∙ e in
      let back : n ≡ entry.next - 1 = omega (arith, next) in
      let (less, un) =
        visited (length store.entries) store.entries links start n entry at used next in
      rw (← back) (next, rest, less, un)

  find_from-finds :
      (rounds : ℕ) (key : Key) (hash start target : ℕ) (goal : Entry)
      → used_at store.entries start ≡ true
      → Reaches store.entries target start
      → left start ≤ rounds
      → get_elem? store.entries target ≡ some goal
      → matches key hash goal ≡ true
      → (a : ℕ × Entry) × (find_from rounds store key hash start ≡ some a)
  unfolding find_from
  find_from-finds zero key hash start target goal u reach enough at hit =
      let more = some_round (length store.entries) store.entries links start u in
      absurd (omega (arith, more, enough))
  find_from-finds (suc rounds) key hash start target goal u reach enough at hit =
      let (entry, there_is) = used_at-some store.entries start u in
      let (used, _, _) = at-some (length store.entries) store.entries start entry there_is in
      let in_use : (entry.hash == 0) ≡ false = unused_not (sym used ∙ u) in
      elim (Bool-cases (matches key hash entry)) [
        | inl found ↦ ((start, entry), rw (find_from, there_is, in_use, found) refl)
        | inr missed ↦
            let apart : start ≢ target = λ e.
              let same : entry ≡ goal =
                some-injective (sym there_is ∙ ap (get_elem? store.entries) e ∙ at) in
              let clash = sym missed ∙ ap (matches key hash) same ∙ hit in cc in
            let (next, rest, less, un) =
              onward start target entry there_is (sym used ∙ u) apart reach in
            let more : (entry.next == 0) ≡ false = ground (arith, next) in
            let (a, e) =
              find_from-finds rounds key hash (entry.next - 1) target goal un rest
                (omega (arith, less, enough)) at hit in
            (a, rw (find_from, there_is, in_use, missed, more) e)
      ]

  find_stored_from-finds :
      (rounds : ℕ) (key : Key) (hash start target : ℕ) (goal : Entry)
      → used_at store.entries start ≡ true
      → Reaches store.entries target start
      → left start ≤ rounds
      → get_elem? store.entries target ≡ some goal
      → matches_stored key hash goal ≡ true
      → (a : ℕ × Entry) × (find_stored_from rounds store key hash start ≡ some a)
  unfolding find_stored_from
  find_stored_from-finds zero key hash start target goal u reach enough at hit =
      let more = some_round (length store.entries) store.entries links start u in
      absurd (omega (arith, more, enough))
  find_stored_from-finds (suc rounds) key hash start target goal u reach enough at hit =
      let (entry, there_is) = used_at-some store.entries start u in
      let (used, _, _) = at-some (length store.entries) store.entries start entry there_is in
      let in_use : (entry.hash == 0) ≡ false = unused_not (sym used ∙ u) in
      elim (Bool-cases (matches_stored key hash entry)) [
        | inl found ↦ ((start, entry), rw (find_stored_from, there_is, in_use, found) refl)
        | inr missed ↦
            let apart : start ≢ target = λ e.
              let same : entry ≡ goal =
                some-injective (sym there_is ∙ ap (get_elem? store.entries) e ∙ at) in
              let clash = sym missed ∙ ap (matches_stored key hash) same ∙ hit in cc in
            let (next, rest, less, un) =
              onward start target entry there_is (sym used ∙ u) apart reach in
            let more : (entry.next == 0) ≡ false = ground (arith, next) in
            let (a, e) =
              find_stored_from-finds rounds key hash (entry.next - 1) target goal un rest
                (omega (arith, less, enough)) at hit in
            (a, rw (find_stored_from, there_is, in_use, missed, more) e)
      ]

  predecessor-finds :
      (rounds start target : ℕ)
      → used_at store.entries start ≡ true
      → Reaches store.entries target start
      → left start ≤ rounds
      → start ≢ target
      → (a : ℕ) × (predecessor rounds store.entries start target ≡ some a)
  unfolding predecessor
  predecessor-finds zero start target u reach enough ne =
      let more = some_round (length store.entries) store.entries links start u in
      absurd (omega (arith, more, enough))
  predecessor-finds (suc rounds) start target u reach enough ne =
      let (entry, there_is) = used_at-some store.entries start u in
      let (used, _, _) = at-some (length store.entries) store.entries start entry there_is in
      let (next, rest, less, un) = onward start target entry there_is (sym used ∙ u) ne reach in
      elim (Bool-cases (entry.next == target + 1)) [
        | inl found ↦ (start, rw (predecessor, there_is, found) refl)
        | inr missed ↦
            let more : (entry.next == 0) ≡ false = ground (arith, next) in
            let (a, e) =
              predecessor-finds rounds (entry.next - 1) target un rest (omega (arith, less, enough))
                (ground (arith, missed, next)) in
            (a, rw (predecessor, there_is, missed, more) e)
      ]

  -- A used node that is not in its main position has a predecessor.
  pub predecessor-some :
      (target : ℕ) (entry : Entry)
      → get_elem? store.entries target ≡ some entry
      → is_used entry ≡ true
      → main_index store entry.hash ≢ target
      → (a : ℕ) × (predecessor
            (length store.entries)
            store.entries
            (main_index store entry.hash)
            target
          ≡ some a)
  predecessor-some target entry at used ne =
      let (u, h, _) = at-some (length store.entries) store.entries target entry at in
      let (uh, _) = head_used links target (u ∙ used) in
      predecessor-finds (length store.entries) (main_index store entry.hash) target (rw h at uh)
        (rw h at (head-Reaches (length store.entries) store.entries links target (u ∙ used)))
        (ahead_of-le (length store.entries) store.entries links (main_index store entry.hash)) ne

  module _ (key : Key) (hash target : ℕ) (goal : Entry)
      (at : get_elem? store.entries target ≡ some goal) (used : is_used goal ≡ true) where
    main-Reaches :
        (goal.hash == hash) ≡ true
        → (used_at store.entries (main_index store hash) ≡ true)
          × Reaches store.entries target (main_index store hash)
    main-Reaches same =
        let (u, h, _) = at-some (length store.entries) store.entries target goal at in
        let e : goal.hash ≡ hash = ground (arith, same) in
        let (uh, _) = head_used links target (u ∙ used) in
        (
          rw (h, e) at uh,
          rw (h, e) at (head-Reaches (length store.entries) store.entries links target (u ∙ used)),
        )

    size_positive : (length store.entries == 0) ≡ false
    size_positive =
        let below = get_elem?-below store.entries target goal at in ground (arith, below)

    -- A live node that matches is found, or one before it.
    pub find-finds : matches key hash goal ≡ true → (a : ℕ × Entry) × (find store key hash ≡ some a)
    unfolding find
    find-finds hit =
        let (u, reach) = main-Reaches ((all_true (goal.hash == hash) (is_live goal) _ hit).0) in
        let (a, e) =
          find_from-finds (length store.entries) key hash (main_index store hash) target goal u
            reach (ahead_of-le (length store.entries) store.entries links (main_index store hash))
            at hit in
        (a, rw (find, size_positive) e)

    pub find_stored-finds :
        matches_stored key hash goal ≡ true
        → (a : ℕ × Entry) × (find_stored store key hash ≡ some a)
    unfolding find_stored
    find_stored-finds hit =
        let (u, reach) = main-Reaches (both_true (goal.hash == hash) _ hit).0 in
        let (a, e) =
          find_stored_from-finds (length store.entries) key hash (main_index store hash) target goal
            u reach (ahead_of-le (length store.entries) store.entries links (main_index store hash))
            at hit in
        (a, rw (find_stored, size_positive) e)
