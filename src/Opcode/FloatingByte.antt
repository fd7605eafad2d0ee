-- ===== src/Opcode/FloatingByte.antt =====
-- The floating byte: eeeeexxx stands for (1xxx) * 2 ^ (eeeee - 1).
use lunar.Base.{
  ℕ, zero, suc, ◌+◌, ◌-◌, ◌*◌, ◌/◌, ◌%◌, ◌^◌, ◌≤◌, ◌<◌, ◌≡◌, refl, Option, none, some, arith, Bool,
  true, false, leb, Bool-cases, ◌==◌, inl, inr, ap, leb→le, le→ltb_false, all_below,
  all_below_sound, ==_iff,
}
use lunar.Opcode.{encode_floating, int_to_floating_byte, floating_byte_to_uint64, halve_up}
use native.Mathlib.Nat.{pow-suc}
use native.Mathlib.Decide.{dec_lt}
use mathlib.Core.Bool.{false≢true}

pow_double : (d : ℕ) → 2 ^ suc d ≡ 2 * 2 ^ d
pow_double d = omega (arith, pow-suc 2 d)

scale_double : (x d : ℕ) → x * 2 ^ suc d ≡ 2 * (x * 2 ^ d)
scale_double x d = omega (arith, ap (λ (t : ℕ). x * t) (pow_double d))

at_least_eight : (d x y : ℕ) → 8 ≤ y → y ≤ x * 2 ^ d → (0 < d → 8 ≤ x) → 8 ≤ x
at_least_eight zero x y hy h big = omega arith
at_least_eight (suc d) x y hy h big = big (omega arith)

-- What the loop keeps: the result times its scale is at least the start, and exceeds it by less than
-- one unit of the scale.
halve_up_bounds :
    (fuel value exponent : ℕ)
    → value ≤ 15 * 2 ^ fuel
    → (d : ℕ) × ((halve_up fuel value exponent).1 ≡ exponent + d)
      × (value ≤ (halve_up fuel value exponent).0 * 2 ^ d)
      × ((halve_up fuel value exponent).0 * 2 ^ d < value + 2 ^ d)
      × ((halve_up fuel value exponent).0 < 16)
      × (0 < d → 8 ≤ (halve_up fuel value exponent).0)
unfolding halve_up
halve_up_bounds zero value exponent h =
    (0, omega arith, omega arith, omega arith, omega arith, λ p. omega arith)
halve_up_bounds (suc fuel) value exponent h = elim (Bool-cases (leb 16 value)) [
  | inl more ↦
      let half : ℕ = value / 2 + value % 2 in
      let wide : 16 ≤ value = leb→le 16 value more in
      let within : value / 2 + value % 2 ≤ 15 * 2 ^ fuel = omega (arith, pow_double fuel) in
      let (d, e, lo, hi, small, big) =
        halve_up_bounds fuel (value / 2 + value % 2) (exponent + 1) within in
      let x : ℕ = (halve_up fuel (value / 2 + value % 2) (exponent + 1)).0 in
      rw more (
        suc d,
        omega (arith, e),
        omega (arith, scale_double x d),
        omega (arith, scale_double x d, pow_double d),
        small,
        λ p. at_least_eight d x (value / 2 + value % 2) (omega arith) lo big,
      )
  | inr done ↦ rw done (0, omega arith, omega arith, omega arith, ground arith, λ p. omega arith)
]

-- A value of at most 15 * 2 ^ k takes at most k rounds.
halve_up_rounds :
    (fuel k value exponent : ℕ)
    → value ≤ 15 * 2 ^ k
    → (halve_up fuel value exponent).1 ≤ exponent + k
unfolding halve_up
halve_up_rounds zero k value exponent h = omega arith
halve_up_rounds (suc fuel) zero value exponent h = ground arith
halve_up_rounds (suc fuel) (suc k) value exponent h =
    ground (arith, pow_double k, halve_up_rounds fuel k (value / 2 + value % 2) (exponent + 1))

-- A byte made of an exponent and a digit decodes to the digit at that scale.
decode_scaled :
    (x e : ℕ)
    → 8 ≤ x
    → x < 16
    → e ≤ 30
    → floating_byte_to_uint64 ((e + 1) * 8 + (x - 8)) ≡ some (x * 2 ^ e)
unfolding floating_byte_to_uint64
decode_scaled x e lo hi he =
    let digit : ((e + 1) * 8 + (x - 8)) % 8 + 8 ≡ x = omega arith in
    let scale : ((e + 1) * 8 + (x - 8)) / 8 - 1 ≡ e = omega arith in
    rw (
      le→ltb_false 255 ((e + 1) * 8 + (x - 8)) (omega arith),
      le→ltb_false ((e + 1) * 8 + (x - 8)) 8 (omega arith),
      digit,
      scale,
    )

eight_scaled : (x s : ℕ) → 8 ≤ x → 8 * s ≤ x * s
eight_scaled x s h = grind arith

encode_low : (x : ℕ) → x < 8 → encode_floating (x, 0) ≡ some x
unfolding encode_floating
encode_low x h = ground arith

decode_low : (x : ℕ) → x < 8 → floating_byte_to_uint64 x ≡ some x
unfolding floating_byte_to_uint64
decode_low x h = ground arith

encode_high :
    (x e : ℕ) → 8 ≤ x → x < 16 → e ≤ 30 → encode_floating (x, e) ≡ some ((e + 1) * 8 + (x - 8))
unfolding encode_floating
encode_high x e lo hi he = ground arith

-- What the loop leaves, encoded and decoded: a scaled digit, and a small value.
high_lem :
    (value x e : ℕ)
    → value ≤ x * 2 ^ e
    → x * 2 ^ e < value + 2 ^ e
    → 8 ≤ x
    → x < 16
    → e ≤ 30
    → (byte : ℕ) × (decoded : ℕ) × (encode_floating (x, e) ≡ some byte)
      × (byte < 256)
      × (floating_byte_to_uint64 byte ≡ some decoded)
      × (value ≤ decoded)
      × (7 * decoded ≤ 8 * value)
high_lem value x e lo hi digit small he = (
  (e + 1) * 8 + (x - 8),
  x * 2 ^ e,
  encode_high x e digit small he,
  omega arith,
  decode_scaled x e digit small he,
  lo,
  omega (arith, eight_scaled x (2 ^ e) digit),
)

encode_floating_lem :
    (value x e : ℕ)
    → value ≤ x * 2 ^ e
    → x * 2 ^ e < value + 2 ^ e
    → x < 16
    → (0 < e → 8 ≤ x)
    → e ≤ 30
    → (byte : ℕ) × (decoded : ℕ) × (encode_floating (x, e) ≡ some byte)
      × (byte < 256)
      × (floating_byte_to_uint64 byte ≡ some decoded)
      × (value ≤ decoded)
      × (7 * decoded ≤ 8 * value)
encode_floating_lem value x (suc e) lo hi small big he =
    high_lem value x (suc e) lo hi (big (omega arith)) small he
encode_floating_lem value x zero lo hi small big he = elim (dec_lt x 8) [
  | yes low ↦ (x, x, encode_low x low, omega arith, decode_low x low, omega arith, omega arith)
  | no high ↦ high_lem value x 0 lo hi (omega arith) small he
]

-- Every size up to 15 * 2 ^ 30 has a floating byte, and the byte decodes to a size that is not
-- smaller and at most a seventh larger.
pub int_to_floating_byte_lem :
    (value : ℕ)
    → value ≤ 15 * 2 ^ 30
    → (byte : ℕ) × (decoded : ℕ) × (int_to_floating_byte value ≡ some byte)
      × (byte < 256)
      × (floating_byte_to_uint64 byte ≡ some decoded)
      × (value ≤ decoded)
      × (7 * decoded ≤ 8 * value)
unfolding int_to_floating_byte
int_to_floating_byte_lem value h =
    let (d, e, lo, hi, small, big) = halve_up_bounds 64 value 0 (omega arith) in
    let rounds : d ≤ 30 = omega (arith, e, halve_up_rounds 64 30 value 0) in
    let at : (halve_up 64 value 0).1 ≡ d = omega (arith, e) in
    rw at (encode_floating_lem value (halve_up 64 value 0).0 d lo hi small big rounds)

is_some_of : ℕ → Option ℕ → Bool
is_some_of byte none = false
is_some_of byte (some again) = again == byte

is_some_of-eq : (byte : ℕ) (o : Option ℕ) → is_some_of byte o ≡ true → o ≡ some byte
unfolding is_some_of
is_some_of-eq byte none h = cc
is_some_of-eq byte (some again) h = ap some ((==_iff again byte).0 h)

reencodes_as : ℕ → Option ℕ → Bool
reencodes_as byte none = false
reencodes_as byte (some value) = is_some_of byte (int_to_floating_byte value)

reencodes : ℕ → Bool
reencodes byte = reencodes_as byte (floating_byte_to_uint64 byte)

reencodes_table : all_below 256 reencodes ≡ true
unfolding all_below reencodes reencodes_as is_some_of floating_byte_to_uint64 int_to_floating_byte
    halve_up
reencodes_table = refl

reencodes_as-inv :
    (byte : ℕ) (o : Option ℕ)
    → floating_byte_to_uint64 byte ≡ o
    → reencodes_as byte o ≡ true
    → (value : ℕ) × (floating_byte_to_uint64 byte ≡ some value)
      × (int_to_floating_byte value ≡ some byte)
unfolding reencodes_as
reencodes_as-inv byte none e h = absurd (false≢true h)
reencodes_as-inv byte (some value) e h = (value, e, is_some_of-eq byte _ h)

-- Every floating byte decodes, and is the encoding of the size that it decodes to.
pub floating_byte_roundtrip :
    (byte : ℕ)
    → byte < 256
    → (value : ℕ) × (floating_byte_to_uint64 byte ≡ some value)
      × (int_to_floating_byte value ≡ some byte)
unfolding reencodes
floating_byte_roundtrip byte h =
    reencodes_as-inv byte (floating_byte_to_uint64 byte) refl
      (all_below_sound 256 reencodes byte reencodes_table h)
