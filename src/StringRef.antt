-- ===== src/StringRef.antt =====
-- string.go: the hash of a string and the word of a string slot. The pointer is not modelled.
mod Samples
mod Laws
mod Tests
use Prim.Native.Nat.{bit_xor}
use lunar.Base.{
  ℕ, zero, suc, ◌+◌, ◌-◌, ◌*◌, ◌/◌, ◌%◌, ◌^◌, true, Text, ltb, leb, ◌==◌, if◌then◌else◌, length,
  get_or,
}
use lunar.Slot.{Slot}

abbrev pub string_length_sentinel : ℕ
string_length_sentinel = 0xff_ffff

unfoldable pub normalize_string_hash : ℕ → ℕ
normalize_string_hash hash = if hash % 2 ^ 32 == 0 then 1 else hash % 2 ^ 32

unfoldable pub finalize_string_hash : ℕ → ℕ
unfolding normalize_string_hash
finalize_string_hash hash =
    let mixed : ℕ = hash * 0x9e37_79b1 % 2 ^ 32 in
    normalize_string_hash (bit_xor mixed (mixed / 2 ^ 16))

-- The loop of `hashString` from `index` down while it is at least `step`: the rounds left, and the hash
-- so far, a uint32.
unfoldable pub hash_loop : ℕ → ℕ → Text → ℕ → ℕ → ℕ
hash_loop zero step text index hash = hash
hash_loop (suc rounds) step text index hash =
    let mixed : ℕ =
      bit_xor hash ((hash * 2 ^ 5 + hash / 2 ^ 2 + get_or text (index - 1) 0) % 2 ^ 32) in
    let rest = hash_loop rounds step text (index - step) mixed in
    if leb step index then rest else hash

-- The length goes into the hash as a uint32.
unfoldable pub hash_string : Text → ℕ
unfolding hash_loop finalize_string_hash
hash_string text =
    finalize_string_hash
      (hash_loop (length text) (length text / 2 ^ 5 + 1) text (length text) (length text % 2 ^ 32))

-- The kind, the length or the mark of a long string, and the hash.
unfoldable pub string_bits : Text → ℕ → ℕ
string_bits text hash =
    4
    + (if leb string_length_sentinel (length text) then string_length_sentinel else length text)
      * 2 ^ 8
    + hash * 2 ^ 32

-- `stringSlot` of a string hashed by `hashString`. A string of one byte has a shared slot with the same word.
unfoldable pub string_slot : Text → Slot
unfolding string_bits hash_string
string_slot text = record { ref = true; bits = string_bits text (hash_string text) }
