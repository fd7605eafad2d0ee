-- ===== src/Table/Border.antt =====
-- `rawLen` ends, and answers a border.
use lunar.Base.{
  ℕ, zero, suc, ◌+◌, ◌-◌, ◌*◌, ◌/◌, ◌^◌, ◌≤◌, ◌<◌, ◌≡◌, refl, ◌∙◌, ◌⊎◌, inl, inr, Bool, true, false,
  not, ◌&&◌, none, some, length, get_or, arith, ltb, leb, if◌then◌else◌, Bool-cases,
}
use native.Mathlib.Nat.{pow-suc}
use lunar.Slot.{Slot, is_nil}
use lunar.Table.Object.{
  TableObject, nil_slot, max_int, boundary, doubled, raw_int_slot, is_found, is_taken, raw_len,
}

-- A key that is the lower bound or taken, below one that is the upper bound or not taken.
abbrev IsBoundary : (ℕ → Bool) → ℕ → ℕ → ℕ → Type 0
IsBoundary present low high n =
    (low ≤ n)
    × (n < high)
    × ((n ≡ low) ⊎ (present n ≡ true))
    × ((suc n ≡ high) ⊎ (present (suc n) ≡ false))

raise_low :
    (present : ℕ → Bool) (low middle high n : ℕ)
    → low ≤ middle
    → present middle ≡ true
    → IsBoundary present middle high n
    → IsBoundary present low high n
raise_low present low middle high n up there (a, b, c, d) =
    (omega arith, b, elim c [ inl e ↦ inr (rw e there) | inr h ↦ inr h ], d)

lower_high :
    (present : ℕ → Bool) (low middle high n : ℕ)
    → middle ≤ high
    → present middle ≡ false
    → IsBoundary present low middle n
    → IsBoundary present low high n
lower_high present low middle high n down missing (a, b, c, d) =
    (a, omega arith, c, elim d [ inl e ↦ inr (rw e missing) | inr h ↦ inr h ])

boundary-IsBoundary :
    (rounds : ℕ) (present : ℕ → Bool) (low high : ℕ)
    → low < high
    → high ≤ low + suc rounds
    → (n : ℕ) × (boundary rounds present low high ≡ some n) × IsBoundary present low high n
unfolding boundary
boundary-IsBoundary zero present low high ordered enough =
    (low, ground arith, (omega arith, ordered, inl refl, inl (omega arith)))
boundary-IsBoundary (suc rounds) present low high ordered enough =
    elim (Bool-cases (ltb 1 (high - low))) [
      | inl apart ↦
          let middle : ℕ = low + (high - low) / 2 in
          let far : 1 < high - low = ground (arith, apart) in
          elim (Bool-cases (present (low + (high - low) / 2))) [
            | inl there ↦
                let (n, e, b) =
                  boundary-IsBoundary rounds present (low + (high - low) / 2) high
                    (omega (arith, far)) (omega (arith, far)) in
                (n, rw (apart, there, e), raise_low present low middle high n (omega arith) there b)
            | inr missing ↦
                let (n, e, b) =
                  boundary-IsBoundary rounds present low (low + (high - low) / 2)
                    (omega (arith, far)) (omega (arith, far)) in
                (
                  n,
                  rw (apart, missing, e),
                  lower_high present low middle high n (omega (arith, far)) missing b,
                )
          ]
      | inr next ↦ (low, rw next, (omega arith, ordered, inl refl, inl (ground (arith, next))))
    ]

both_true : (a b : Bool) → (a && b) ≡ true → (a ≡ true) × (b ≡ true)
both_true true b h = (refl, h)
both_true false b h = cc

-- The bounds that the doubling ends with.
abbrev IsDoubled : (ℕ → Bool) → ℕ → ℕ × ℕ → Type 0
IsDoubled present start bounds =
    (start ≤ bounds.0)
    × (bounds.0 < bounds.1)
    × ((bounds.0 ≡ start) ⊎ (present bounds.0 ≡ true))
    × ((bounds.1 ≡ max_int) ⊎ (present bounds.1 ≡ false))

raise_start :
    (present : ℕ → Bool) (low middle : ℕ) (bounds : ℕ × ℕ)
    → low ≤ middle
    → present middle ≡ true
    → IsDoubled present middle bounds
    → IsDoubled present low bounds
raise_start present low middle bounds up there (a, b, c, d) =
    (omega arith, b, elim c [ inl e ↦ inr (rw e there) | inr h ↦ inr h ], d)

more_rounds : (high rounds : ℕ) → high * 2 ^ suc rounds ≡ high * 2 * 2 ^ rounds
more_rounds high rounds = grind (arith, pow-suc 2 rounds)

doubled-IsDoubled :
    (rounds : ℕ) (present : ℕ → Bool) (low high : ℕ)
    → low ≤ high
    → low < max_int
    → 0 < high
    → high ≤ max_int
    → 2 ^ 64 ≤ high * 2 ^ rounds
    → (bounds : ℕ × ℕ) × (doubled rounds present low high ≡ some bounds)
      × IsDoubled present low bounds
unfolding doubled
doubled-IsDoubled zero present low high ordered small some_high within enough = absurd (omega arith)
doubled-IsDoubled (suc rounds) present low high ordered small some_high within enough =
    elim (Bool-cases (ltb (max_int / 2) high)) [
      | inl last ↦ ((low, max_int), rw last, (omega arith, small, inl refl, inl refl))
      | inr room ↦
          let half : high ≤ max_int / 2 = ground (arith, room) in
          elim (Bool-cases (present (high * 2))) [
            | inl there ↦
                let (bounds, e, d) =
                  doubled-IsDoubled rounds present (high * 2) (high * 2) (omega arith)
                    (omega (arith, half)) (omega arith) (omega (arith, half))
                    (rw (← more_rounds high rounds) enough) in
                (
                  bounds,
                  rw (room, there, e),
                  raise_start present low (high * 2) bounds (omega arith) there d,
                )
            | inr missing ↦ (
              (low, high * 2),
              rw (room, missing),
              (omega arith, omega arith, inl refl, inr missing),
            )
          ]
    ]

module _ (float_bits : ℕ → ℕ) where
  array_taken :
      (table : TableObject) (key : ℕ)
      → 0 < key
      → key ≤ length table.array
      → is_taken float_bits table key ≡ not (is_nil (get_or table.array (key - 1) nil_slot))
  unfolding raw_int_slot
  array_taken table key some_key inside =
      let low : leb 1 key ≡ true = ground arith in
      let high : leb key (length table.array) ≡ true = ground arith in
      rw (low, high)
        (found_unless (is_nil (get_or table.array (key - 1) nil_slot))
          (get_or table.array (key - 1) nil_slot))
    where
      found_unless :
          (empty : Bool) (value : Slot)
          → is_found float_bits (if empty then none else some value) ≡ not empty
      found_unless true value = refl
      found_unless false value = refl

  abbrev IsBorder : TableObject → ℕ → Type 0
  IsBorder table n =
      ((n ≡ 0) ⊎ (is_taken float_bits table n ≡ true))
      × ((is_taken float_bits table (suc n) ≡ false) ⊎ (suc n ≡ max_int))

  -- A hole at the end of the array part: the border is inside it.
  inside-IsBorder :
      (table : TableObject) (n : ℕ)
      → is_nil (get_or table.array (length table.array - 1) nil_slot) ≡ true
      → IsBoundary
          (λ key. not (is_nil (get_or table.array (key - 1) nil_slot)))
          0
          (length table.array)
          n
      → IsBorder table n
  inside-IsBorder table n hole (_, below, here, above) = (
    elim (Nat-cases n) [
      | inl e ↦ inl e
      | inr some_key ↦ elim here [
        | inl e ↦ inl e
        | inr there ↦ inr (array_taken table n some_key (omega arith) ∙ there)
      ]
    ],
    inl (
        array_taken table (suc n) (omega arith) (omega arith)
        ∙ elim above [ inl e ↦ rw (e, hole) | inr missing ↦ missing ]),
  )
    where
      Nat-cases : (m : ℕ) → (m ≡ 0) ⊎ (0 < m)
      Nat-cases zero = inl refl
      Nat-cases (suc m) = inr (omega arith)

  -- No hole at its end: the key of the last value.
  full_taken :
      (table : TableObject)
      → (ltb 0 (length table.array)
          && is_nil (get_or table.array (length table.array - 1) nil_slot))
        ≡ false
      → (length table.array ≡ 0) ⊎ (is_taken float_bits table (length table.array) ≡ true)
  full_taken table full = elim (Bool-cases (ltb 0 (length table.array))) [
    | inl some_value ↦
        let value : is_nil (get_or table.array (length table.array - 1) nil_slot) ≡ false =
          rw some_value at full in
        inr (
          array_taken table (length table.array) (ground (arith, some_value)) (omega arith)
          ∙ rw value)
    | inr empty ↦ inl (ground (arith, empty))
  ]

  outside-IsBorder :
      (table : TableObject) (n : ℕ) (bounds : ℕ × ℕ)
      → (length table.array ≡ 0) ⊎ (is_taken float_bits table (length table.array) ≡ true)
      → IsDoubled (is_taken float_bits table) (length table.array) bounds
      → IsBoundary (is_taken float_bits table) bounds.0 bounds.1 n
      → IsBorder table n
  outside-IsBorder table n bounds start (_, _, low, high) (_, _, here, above) = (
    elim here [
      | inr there ↦ inr there
      | inl e ↦ elim low [ inr there ↦ inr (rw e there) | inl s ↦ rw (e, s) start ]
    ],
    elim above [
      | inr missing ↦ inl missing
      | inl e ↦ elim high [ inr missing ↦ inl (rw e missing) | inl m ↦ inr (e ∙ m) ]
    ],
  )

-- The length of a table whose array part is shorter than the largest int is computed, and is a border:
-- it is 0 or a key with a value, and the next key has none or is the largest int.
pub raw_len-IsBorder :
    (float_bits : ℕ → ℕ) (table : TableObject)
    → length table.array < max_int
    → (n : ℕ) × (raw_len float_bits table ≡ some n)
      × ((n ≡ 0) ⊎ (is_taken float_bits table n ≡ true))
      × ((is_taken float_bits table (suc n) ≡ false) ⊎ (suc n ≡ max_int))
unfolding raw_len
raw_len-IsBorder float_bits table short =
    elim (Bool-cases (
      ltb 0 (length table.array)
      && is_nil (get_or table.array (length table.array - 1) nil_slot))) [
        | inl holed ↦
            let (some_value, hole) = both_true (ltb 0 (length table.array)) _ holed in
            let (n, e, b) =
              boundary-IsBoundary (length table.array)
                (λ key. not (is_nil (get_or table.array (key - 1) nil_slot))) 0 (length table.array)
                (ground (arith, some_value)) (omega arith) in
            let (here, above) = inside-IsBorder float_bits table n hole b in
            (n, rw (holed, e), here, above)
        | inr full ↦
            let start = full_taken float_bits table full in
            elim (Bool-cases (is_taken float_bits table (length table.array + 1))) [
              | inr missing ↦
                  let next : length table.array + 1 ≡ suc (length table.array) = omega arith in
                  (length table.array, rw (full, missing), start, inl (rw next at missing))
              | inl there ↦
                  let (bounds, e, d) =
                    doubled-IsDoubled 64 (is_taken float_bits table) (length table.array)
                      (length table.array + 1) (omega arith) short (omega arith) (omega arith)
                      (omega arith) in
                  let (n, e', b) =
                    boundary-IsBoundary (bounds.1 - bounds.0) (is_taken float_bits table) bounds.0
                      bounds.1 d.1 (omega arith) in
                  let (here, above) = outside-IsBorder float_bits table n bounds start d b in
                  (n, rw (full, there, e, e'), here, above)
            ]
      ]
