-- ===== src/Pattern/Class.antt =====
-- pattern.go: the byte classes. A byte is a number below 256.
use lunar.Base.{ℕ, ◌+◌, ◌/◌, ◌%◌, Bool, not, ◌&&◌, ◌||◌, leb, ltb, ◌==◌, if◌then◌else◌}

-- `c | 0x20`.
abbrev pub lowered : ℕ → ℕ
lowered c = if c / 32 % 2 == 1 then c else c + 32

abbrev within : ℕ → ℕ → ℕ → Bool
within lo hi c = leb lo c && leb c hi

unfoldable pub is_pattern_alpha : ℕ → Bool
is_pattern_alpha c = within b'a' b'z' (lowered c)

unfoldable pub is_pattern_digit : ℕ → Bool
is_pattern_digit c = within b'0' b'9' c

unfoldable pub is_pattern_lower : ℕ → Bool
is_pattern_lower c = within b'a' b'z' c

unfoldable pub is_pattern_upper : ℕ → Bool
is_pattern_upper c = within b'A' b'Z' c

unfoldable pub is_pattern_control : ℕ → Bool
is_pattern_control c = ltb c 0x20 || c == 0x7f

unfoldable pub is_pattern_punct : ℕ → Bool
unfolding is_pattern_alpha is_pattern_digit
is_pattern_punct c =
    ltb 0x20 c && ltb c 0x7f && not (is_pattern_alpha c) && not (is_pattern_digit c)

-- Space, tab, line feed, vertical tab, form feed and carriage return.
unfoldable pub is_pattern_space : ℕ → Bool
is_pattern_space c = c == 32 || c == 9 || c == 10 || c == 11 || c == 12 || c == 13

unfoldable pub is_pattern_hex_digit : ℕ → Bool
unfolding is_pattern_digit
is_pattern_hex_digit c = is_pattern_digit c || within b'a' b'f' (lowered c)

-- An uppercase class letter complements; what is no class letter matches itself.
abbrev signed : ℕ → Bool → Bool
signed class result = if within b'a' b'z' class then result else not result

unfoldable pub match_pattern_class : ℕ → ℕ → Bool
unfolding is_pattern_alpha is_pattern_digit is_pattern_lower is_pattern_upper is_pattern_control
    is_pattern_punct is_pattern_space is_pattern_hex_digit
match_pattern_class c class =
    let letter = lowered class in
    if letter == b'a'
    then signed class (is_pattern_alpha c)
    else if letter == b'c'
    then signed class (is_pattern_control c)
    else if letter == b'd'
    then signed class (is_pattern_digit c)
    else if letter == b'l'
    then signed class (is_pattern_lower c)
    else if letter == b'p'
    then signed class (is_pattern_punct c)
    else if letter == b's'
    then signed class (is_pattern_space c)
    else if letter == b'u'
    then signed class (is_pattern_upper c)
    else if letter == b'w'
    then signed class (is_pattern_alpha c || is_pattern_digit c)
    else if letter == b'x'
    then signed class (is_pattern_hex_digit c)
    else if letter == b'z'
    then signed class (c == 0)
    else class == c
