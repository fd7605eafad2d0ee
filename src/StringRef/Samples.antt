-- ===== src/StringRef/Samples.antt =====
-- The loop of `hashString` as a mixing of sampled bytes: from the last byte of a string down, one byte
-- in every `length / 32 + 1`.
use lunar.Base.{
  ℕ, zero, suc, true, false, ◌+◌, ◌-◌, ◌*◌, ◌/◌, ◌%◌, ◌^◌, ◌≤◌, ◌<◌, ◌≡◌, refl, sym, leb, ◌==◌,
  if◌then◌else◌, length, get_or, List, [], ◌∷◌, Text, arith,
}
use Prim.Native.Nat.{bit_xor}
use native.Mathlib.Nat.{suc-mul, mod-lt, div-add-mod', div-le_self}
use lunar.StringRef.{hash_loop, hash_string, finalize_string_hash, normalize_string_hash}

-- `count` bytes of the text, the first of them `k` steps below the last byte.
abbrev pub samples : Text → ℕ → ℕ → ℕ → List ℕ
samples text step k zero = []
samples text step k (suc count) =
    get_or text (length text - 1 - k * step) 0 ∷ samples text step (suc k) count

-- `hash ^= hash<<5 + hash>>2 + byte` in 32 bits, byte by byte.
abbrev pub mixed : ℕ → List ℕ → ℕ
mixed hash [] = hash
mixed hash (byte ∷ rest) = mixed (bit_xor hash ((hash * 2 ^ 5 + hash / 2 ^ 2 + byte) % 2 ^ 32)) rest

hash_loop-mixed :
    (rounds count k step rest : ℕ) (text : Text) (index hash : ℕ)
    → count ≤ rounds
    → rest < step
    → index ≡ count * step + rest
    → length text ≡ k * step + index
    → hash_loop rounds step text index hash ≡ mixed hash (samples text step k count)
unfolding hash_loop
hash_loop-mixed zero zero k step rest text index hash enough small here whole = refl
hash_loop-mixed zero (suc count) k step rest text index hash enough small here whole =
    absurd (omega arith)
hash_loop-mixed (suc rounds) zero k step rest text index hash enough small here whole =
    let stop : leb step index ≡ false = ground arith in rw stop
hash_loop-mixed (suc rounds) (suc count) k step rest text index hash enough small here whole =
    let more = suc-mul count step in
    let more_read = suc-mul k step in
    let above : step ≤ index = omega (arith, here, more) in
    let next : leb step index ≡ true = ground arith in
    let at_byte : length text - 1 - k * step ≡ index - 1 = omega arith in
    rw (next, at_byte)
      (hash_loop-mixed rounds count (suc k) step rest text (index - step) _ (omega arith) small
        (omega arith) (omega arith))

-- The multiplication by 0x9e3779b1, the upper half folded in, and 1 in the place of 0.
abbrev pub finalized : ℕ → ℕ
finalized hash =
    let product : ℕ = hash * 2654435761 % 2 ^ 32 in
    let folded : ℕ = bit_xor product (product / 2 ^ 16) % 2 ^ 32 in
    if folded == 0 then 1 else folded

-- The hash of the bytes sampled, without the loop.
abbrev pub sampled_hash : Text → ℕ
sampled_hash text =
    let step : ℕ = length text / 32 + 1 in
    finalized (mixed (length text % 2 ^ 32) (samples text step 0 (length text / step)))

pub hash_string-samples : (text : Text) → hash_string text ≡ sampled_hash text
unfolding hash_string finalize_string_hash normalize_string_hash
hash_string-samples text =
    let step : ℕ = length text / 32 + 1 in
    let whole = div-add-mod' (length text) step in
    rw (
      hash_loop-mixed (length text) (length text / step) 0 step (length text % step) text
        (length text) (length text % 2 ^ 32) (div-le_self (length text) step)
        (mod-lt (length text) (omega arith)) (sym whole) (omega arith))
