-- ===== src/Table/Map/Keys.antt =====
-- table_store.go: when keys are the same, and numbers of matching nodes.
use lunar.Base.{
  some-injective, ℕ, zero, suc, ◌*◌, ◌≡◌, ◌≤◌, ◌<◌, refl, sym, ◌∙◌, Bool, true, false, ◌&&◌, ◌||◌,
  ◌%◌, ◌^◌, some, List, [], ◌∷◌, get_elem?, arith, ◌==◌, if◌then◌else◌, Nat-eq, inl, inr,
  Bool-cases, ap,
}
use lunar.Table.Store.{
  Key, plain_key, object_key, dead_key, Entry, same_key, same_stored_key, table_number_bits_equal,
}
use lunar.Table.Change.{retired_key}
use lunar.Table.Insert.{revived_key}
use lunar.Table.Counts.{count}

abbrev pub is_dead_key : Key → Bool
is_dead_key (dead_key a) = true
is_dead_key (plain_key a) = false
is_dead_key (object_key a) = false

class_with :
    (is_zero : ℕ → Bool) (a b c : ℕ)
    → (a == b || is_zero a && is_zero b) ≡ true
    → (a == c || is_zero a && is_zero c) ≡ (b == c || is_zero b && is_zero c)
class_with is_zero a b c h = elim (Nat-eq a b) [
  | inl e ↦ rw e refl
  | inr ne ↦ elim (Nat-eq a c) [
    | inl e ↦ let z = ap is_zero e in ground (arith, h, ne, z, e)
    | inr na ↦ elim (Nat-eq b c) [
      | inl e ↦ let z = ap is_zero e in ground (arith, h, ne, z, e)
      | inr nb ↦ ground (arith, h, ne, na, nb)
    ]
  ]
]

bits_class :
    (a b c : ℕ)
    → table_number_bits_equal a b ≡ true
    → table_number_bits_equal a c ≡ table_number_bits_equal b c
bits_class a b c h = class_with (λ n. n * 2 % 2 ^ 64 == 0) a b c h

-- Keys that are the same are the same as the same keys.
pub same_key_class : (a b c : Key) → same_key a b ≡ true → same_key a c ≡ same_key b c
same_key_class (plain_key a) (plain_key b) (plain_key c) h = bits_class a b c h
same_key_class (plain_key a) (plain_key b) (object_key c) h = refl
same_key_class (plain_key a) (plain_key b) (dead_key c) h = refl
same_key_class (plain_key a) (object_key b) c h = cc
same_key_class (plain_key a) (dead_key b) c h = cc
same_key_class (object_key a) (object_key b) (plain_key c) h = refl
same_key_class (object_key a) (object_key b) (object_key c) h = ground (arith, h)
same_key_class (object_key a) (object_key b) (dead_key c) h = refl
same_key_class (object_key a) (plain_key b) c h = cc
same_key_class (object_key a) (dead_key b) c h = cc
same_key_class (dead_key a) b c h = cc

-- A stored key that answers to a key answers to the same keys.
pub same_stored_class :
    (a b c : Key) → same_stored_key a b ≡ true → same_stored_key a c ≡ same_stored_key b c
same_stored_class (plain_key a) (plain_key b) (plain_key c) h = bits_class a b c h
same_stored_class (plain_key a) (plain_key b) (object_key c) h = refl
same_stored_class (plain_key a) (plain_key b) (dead_key c) h = refl
same_stored_class (plain_key a) (object_key b) c h = cc
same_stored_class (plain_key a) (dead_key b) c h = cc
same_stored_class (object_key a) (object_key b) (plain_key c) h = refl
same_stored_class (object_key a) (object_key b) (object_key c) h = ground (arith, h)
same_stored_class (object_key a) (object_key b) (dead_key c) h = refl
same_stored_class (object_key a) (plain_key b) c h = cc
same_stored_class (object_key a) (dead_key b) c h = cc
same_stored_class (dead_key a) (object_key b) (plain_key c) h = refl
same_stored_class (dead_key a) (object_key b) (object_key c) h = ground (arith, h)
same_stored_class (dead_key a) (object_key b) (dead_key c) h = refl
same_stored_class (dead_key a) (plain_key b) c h = cc
same_stored_class (dead_key a) (dead_key b) c h = cc

-- A key that is not dead answers to the same keys, alive or stored.
pub same_stored_of_live : (a b : Key) → is_dead_key a ≡ false → same_stored_key a b ≡ same_key a b
same_stored_of_live (plain_key a) b h = refl
same_stored_of_live (object_key a) b h = refl
same_stored_of_live (dead_key a) b h = cc

pub same_key_stored : (a b : Key) → same_key a b ≡ true → same_stored_key a b ≡ true
same_key_stored (plain_key a) b h = h
same_key_stored (object_key a) b h = h
same_key_stored (dead_key a) b h = cc

pub self_not_dead : (a : Key) → same_key a a ≡ true → is_dead_key a ≡ false
self_not_dead (plain_key a) h = refl
self_not_dead (object_key a) h = refl
self_not_dead (dead_key a) h = cc

-- A node keeps the keys that it answers to where it is retired or revived.
pub retired_key-answers :
    (is_reference : ℕ → Bool) (a b : Key)
    → same_stored_key (retired_key is_reference a) b ≡ same_stored_key a b
retired_key-answers is_reference (plain_key a) b = refl
retired_key-answers is_reference (dead_key a) b = refl
retired_key-answers is_reference (object_key a) b = retired (is_reference a) b
  where
    retired :
        (dead : Bool) (b : Key)
        → same_stored_key (if dead then dead_key a else object_key a) b
          ≡ same_stored_key (object_key a) b
    retired true (plain_key b) = refl
    retired true (object_key b) = refl
    retired true (dead_key b) = refl
    retired false b = refl

module _ (is_integer : ℕ → Bool) where
  pub revived_key-answers :
      (a key b : Key)
      → same_stored_key a key ≡ true
      → same_stored_key (revived_key is_integer a key) b ≡ same_stored_key a b
  revived_key-answers (plain_key a) key b h = refl
  revived_key-answers (object_key a) key b h = refl
  revived_key-answers (dead_key a) key b h = sym (same_stored_class (dead_key a) key b h)

  pub revived_key-not_dead :
      (a key : Key)
      → same_stored_key a key ≡ true
      → is_dead_key (revived_key is_integer a key) ≡ false
  revived_key-not_dead (plain_key a) key h = refl
  revived_key-not_dead (object_key a) key h = refl
  revived_key-not_dead (dead_key a) (object_key b) h = refl
  revived_key-not_dead (dead_key a) (plain_key b) h = cc
  revived_key-not_dead (dead_key a) (dead_key b) h = cc

-- A node that counts is there.
pub count-some :
    (p : Entry → Bool) (entries : List Entry)
    → 0 < count p entries
    → (i : ℕ) × (entry : Entry) × (get_elem? entries i ≡ some entry) × (p entry ≡ true)
count-some p [] h = absurd (omega arith)
count-some p (e ∷ entries) h = elim (Bool-cases (p e)) [
  | inl hit ↦ (0, e, refl, hit)
  | inr miss ↦
      let h' = rw miss at h in
      let (i, entry, at, hit) = count-some p entries (omega (arith, h')) in (suc i, entry, at, hit)
]

pub some-count :
    (p : Entry → Bool) (entries : List Entry) (i : ℕ) (entry : Entry)
    → get_elem? entries i ≡ some entry
    → p entry ≡ true
    → 0 < count p entries
some-count p [] i entry at hit = cc
some-count p (e ∷ entries) zero entry at hit =
    let hit' : p e ≡ true = ap p (some-injective at) ∙ hit in rw hit' (omega arith)
some-count p (e ∷ entries) (suc i) entry at hit =
    let rest = some-count p entries i entry at hit in omega (arith, rest)

pub count_mono :
    (p q : Entry → Bool) (entries : List Entry)
    → ((e : Entry) → p e ≡ true → q e ≡ true)
    → count p entries ≤ count q entries
count_mono p q [] h = omega arith
count_mono p q (e ∷ entries) h =
    let rest = count_mono p q entries h in
    elim (Bool-cases (p e)) [
      | inl hit ↦ rw (hit, h e hit) (omega (arith, rest))
      | inr miss ↦ rw miss (omega (arith, rest))
    ]

-- Two nodes count where they stand apart.
pub count_unique :
    (p : Entry → Bool) (entries : List Entry) (i j : ℕ) (a b : Entry)
    → count p entries ≤ 1
    → get_elem? entries i ≡ some a
    → p a ≡ true
    → get_elem? entries j ≡ some b
    → p b ≡ true
    → a ≡ b
count_unique p [] i j a b one at hit at' hit' = cc
count_unique p (e ∷ entries) zero zero a b one at hit at' hit' =
    sym (some-injective at) ∙ some-injective at'
count_unique p (e ∷ entries) zero (suc j) a b one at hit at' hit' =
    let first : p e ≡ true = ap p (some-injective at) ∙ hit in
    let rest = some-count p entries j b at' hit' in
    let one' = rw first at one in absurd (omega (arith, rest, one'))
count_unique p (e ∷ entries) (suc i) zero a b one at hit at' hit' =
    let first : p e ≡ true = ap p (some-injective at') ∙ hit' in
    let rest = some-count p entries i a at hit in
    let one' = rw first at one in absurd (omega (arith, rest, one'))
count_unique p (e ∷ entries) (suc i) (suc j) a b one at hit at' hit' =
    count_unique p entries i j a b (omega (arith, one)) at hit at' hit'

pub asked_not_dead : (a key : Key) → same_stored_key a key ≡ true → is_dead_key key ≡ false
asked_not_dead (plain_key a) (plain_key b) h = refl
asked_not_dead (plain_key a) (object_key b) h = refl
asked_not_dead (plain_key a) (dead_key b) h = cc
asked_not_dead (object_key a) (plain_key b) h = refl
asked_not_dead (object_key a) (object_key b) h = refl
asked_not_dead (object_key a) (dead_key b) h = cc
asked_not_dead (dead_key a) (plain_key b) h = refl
asked_not_dead (dead_key a) (object_key b) h = refl
asked_not_dead (dead_key a) (dead_key b) h = cc
