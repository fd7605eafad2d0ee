-- ===== src/Chunk/Written.antt =====
-- chunk.go: `chunkWriter`. An error is kept and ends all further output; since the output of a writer
-- with an error is dropped, a part of the output is the bytes or the error.
use lunar.Base.{
  ℕ, zero, suc, ◌+◌, ◌/◌, ◌%◌, Option, none, some, Text, List, [], ◌∷◌, ◌++◌, ltb, if◌then◌else◌,
  length,
}
use mathlib.Core.List.{reverse}
use lunar.Chunk.Function.{Host, WordSize, four_bytes, eight_bytes}

pub data Refusal : Type 0 where
  invalid_prototype integer_too_large string_too_long : Refusal

pub data Written : Type 0 where
  wrote : List ℕ → Written
  unwritten : Refusal → Written

-- One part after the other: the first error is kept.
infixr 5 ◌&◌
abbrev pub ◌&◌ : Written → Written → Written
unwritten refusal & more = unwritten refusal
wrote bytes & unwritten refusal = unwritten refusal
wrote bytes & wrote more = wrote (bytes ++ more)

abbrev pub nothing : Written
nothing = wrote []

abbrev pub write_byte : ℕ → Written
write_byte value = wrote (value ∷ [])

-- `binary.LittleEndian` on a number of bytes.
abbrev pub little_bytes : ℕ → ℕ → List ℕ
little_bytes zero value = []
little_bytes (suc count) value = value % 256 ∷ little_bytes count (value / 256)

abbrev pub in_order : Host → List ℕ → List ℕ
in_order host bytes = if host.big_endian then reverse bytes else bytes

module _ (host : Host) where
  abbrev pub write_uint32 : ℕ → Written
  write_uint32 value = wrote (in_order host (little_bytes 4 value))

  abbrev pub write_uint64 : ℕ → Written
  write_uint64 value = wrote (in_order host (little_bytes 8 value))

  abbrev pub sized : WordSize → ℕ → Written
  sized four_bytes value =
      if ltb 0xffff_ffff value then unwritten string_too_long else write_uint32 value
  sized eight_bytes value = write_uint64 value

  abbrev pub write_size : ℕ → Written
  write_size value = sized host.word_size value

  -- `writeInt64` of what is not negative: it has to fit an int32.
  unfoldable pub write_int : ℕ → Written
  write_int value =
      if ltb 0x7fff_ffff value then unwritten integer_too_large else write_uint32 value

  unfoldable pub write_string_text : Text → Written
  write_string_text text = write_size (length text + 1) & wrote text & write_byte 0

  abbrev pub write_string : Option Text → Written
  write_string none = write_size 0
  write_string (some text) = write_string_text text

-- A loop over a vector.
abbrev pub write_each {ℓ} : {A : Type ℓ} → (A → Written) → List A → Written
write_each write [] = nothing
write_each write (x ∷ xs) = write x & write_each write xs
