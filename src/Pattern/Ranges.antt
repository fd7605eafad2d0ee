-- ===== src/Pattern/Ranges.antt =====
-- The byte classes, by their ranges in ASCII.
use lunar.Base.{
  ℕ, ◌-◌, ◌+◌, ◌<◌, ◌≡◌, ap, Bool, true, false, not, ◌&&◌, ◌||◌, leb, ◌==◌, arith, List, [], ◌∷◌,
  All,
}
use lunar.Pattern.Class.{
  match_pattern_class, is_pattern_alpha, is_pattern_control, is_pattern_digit, is_pattern_lower,
  is_pattern_punct, is_pattern_space, is_pattern_upper, is_pattern_hex_digit,
}

-- The first and the last byte of a range.
abbrev pub Range : Type 0
Range = ℕ × ℕ

abbrev pub in_ranges : List Range → ℕ → Bool
in_ranges [] c = false
in_ranges ((first, last) ∷ rest) c = leb first c && leb c last || in_ranges rest c

-- The class letters with the bytes of their classes: letters, controls, digits, lowercase letters,
-- punctuation, spaces, uppercase letters, letters and digits, hexadecimal digits, and the zero byte.
abbrev pub ascii_classes : List (ℕ × List Range)
ascii_classes =
    (b'a', (65, 90) ∷ (97, 122) ∷ [])
    ∷ (b'c', (0, 31) ∷ (127, 127) ∷ [])
    ∷ (b'd', (48, 57) ∷ [])
    ∷ (b'l', (97, 122) ∷ [])
    ∷ (b'p', (33, 47) ∷ (58, 64) ∷ (91, 96) ∷ (123, 126) ∷ [])
    ∷ (b's', (9, 13) ∷ (32, 32) ∷ [])
    ∷ (b'u', (65, 90) ∷ [])
    ∷ (b'w', (48, 57) ∷ (65, 90) ∷ (97, 122) ∷ [])
    ∷ (b'x', (48, 57) ∷ (65, 70) ∷ (97, 102) ∷ [])
    ∷ (b'z', (0, 0) ∷ [])
    ∷ []

-- The letter of neither case names a class.
abbrev pub is_no_class : ℕ → List (ℕ × List Range) → Bool
is_no_class class [] = true
is_no_class class ((letter, ranges) ∷ rest) =
    not (class == letter) && not (class + 32 == letter) && is_no_class class rest

is_pattern_alpha-in_ranges : (c : ℕ) → is_pattern_alpha c ≡ in_ranges ((65, 90) ∷ (97, 122) ∷ []) c
unfolding is_pattern_alpha
is_pattern_alpha-in_ranges c = ground arith

is_pattern_control-in_ranges :
    (c : ℕ) → is_pattern_control c ≡ in_ranges ((0, 31) ∷ (127, 127) ∷ []) c
unfolding is_pattern_control
is_pattern_control-in_ranges c = ground arith

is_pattern_digit-in_ranges : (c : ℕ) → is_pattern_digit c ≡ in_ranges ((48, 57) ∷ []) c
unfolding is_pattern_digit
is_pattern_digit-in_ranges c = ground arith

is_pattern_lower-in_ranges : (c : ℕ) → is_pattern_lower c ≡ in_ranges ((97, 122) ∷ []) c
unfolding is_pattern_lower
is_pattern_lower-in_ranges c = ground arith

is_pattern_punct-in_ranges :
    (c : ℕ) → is_pattern_punct c ≡ in_ranges ((33, 47) ∷ (58, 64) ∷ (91, 96) ∷ (123, 126) ∷ []) c
unfolding is_pattern_punct
is_pattern_punct-in_ranges c = ground arith

is_pattern_space-in_ranges : (c : ℕ) → is_pattern_space c ≡ in_ranges ((9, 13) ∷ (32, 32) ∷ []) c
unfolding is_pattern_space
is_pattern_space-in_ranges c = ground arith

is_pattern_upper-in_ranges : (c : ℕ) → is_pattern_upper c ≡ in_ranges ((65, 90) ∷ []) c
unfolding is_pattern_upper
is_pattern_upper-in_ranges c = ground arith

is_pattern_hex_digit-in_ranges :
    (c : ℕ) → is_pattern_hex_digit c ≡ in_ranges ((48, 57) ∷ (65, 70) ∷ (97, 102) ∷ []) c
unfolding is_pattern_hex_digit
is_pattern_hex_digit-in_ranges c = ground arith

word-in_ranges :
    (c : ℕ)
    → (is_pattern_alpha c || is_pattern_digit c)
      ≡ in_ranges ((48, 57) ∷ (65, 90) ∷ (97, 122) ∷ []) c
unfolding is_pattern_alpha is_pattern_digit
word-in_ranges c = ground arith

zero-in_ranges : (c : ℕ) → (c == 0) ≡ in_ranges ((0, 0) ∷ []) c
zero-in_ranges c = ground arith

either_case : {a b : Bool} → a ≡ b → (a ≡ b) × (not a ≡ not b)
either_case same = (same, ap not same)

-- A byte is matched by the lowercase letter of a class exactly if it lies in the class's ranges of
-- ASCII, and by the uppercase letter exactly if it does not; a byte that is no class letter in either
-- case matches itself only.
pub match_pattern_class-in_ranges :
    (c class : ℕ)
    → c < 256
    → class < 256
    → All
        (λ (letter, ranges).
          (match_pattern_class c letter ≡ in_ranges ranges c)
          × (match_pattern_class c (letter - 32) ≡ not (in_ranges ranges c)))
        ascii_classes
      × (is_no_class class ascii_classes ≡ true → match_pattern_class c class ≡ (class == c))
unfolding match_pattern_class
match_pattern_class-in_ranges c class byte class_byte = (
  (
    either_case (is_pattern_alpha-in_ranges c),
    (
      either_case (is_pattern_control-in_ranges c),
      (
        either_case (is_pattern_digit-in_ranges c),
        (
          either_case (is_pattern_lower-in_ranges c),
          (
            either_case (is_pattern_punct-in_ranges c),
            (
              either_case (is_pattern_space-in_ranges c),
              (
                either_case (is_pattern_upper-in_ranges c),
                (
                  either_case (word-in_ranges c),
                  (
                    either_case (is_pattern_hex_digit-in_ranges c),
                    (either_case (zero-in_ranges c), tt),
                  ),
                ),
              ),
            ),
          ),
        ),
      ),
    ),
  ),
  λ other. ground arith,
)
