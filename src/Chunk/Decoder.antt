-- ===== src/Chunk/Decoder.antt =====
-- chunk.go: `chunkDecoder` on the bytes that are left.
use lunar.Base.{
  ℕ, zero, suc, ◌+◌, ◌-◌, ◌*◌, Option, none, some, Text, List, [], ◌∷◌, ltb, ◌==◌, if◌then◌else◌,
  get_or,
}
use lunar.Chunk.Function.{Host, WordSize, four_bytes, eight_bytes}
use lunar.Chunk.Written.{in_order}

-- The reasons of `syntaxError`.
pub data Fault : Type 0 where
  unexpected_end bad_header code_too_deep bad_code bad_integer bad_string bad_constant : Fault

-- A value, and the bytes behind it.
pub data Read {ℓ} (A : Type ℓ) : Type ℓ where
  got : A → List ℕ → Read A
  failed : Fault → Read A

abbrev pub Decoder {ℓ} : Type ℓ → Type ℓ
Decoder A = List ℕ → Read A

abbrev pub pure {ℓ} : {A : Type ℓ} → A → Decoder A
pure a bytes = got a bytes

abbrev pub fail {ℓ} : {A : Type ℓ} → Fault → Decoder A
fail fault bytes = failed fault

abbrev pub go_on {ℓ κ} : {A : Type ℓ} {B : Type κ} → Read A → (A → Decoder B) → Read B
go_on (got a rest) f = f a rest
go_on (failed fault) f = failed fault

infixl 1 ◌>>=◌
abbrev pub ◌>>=◌ {ℓ κ} : {A : Type ℓ} {B : Type κ} → Decoder A → (A → Decoder B) → Decoder B
d >>= f = λ bytes. go_on (d bytes) f

abbrev pub read_byte : Decoder ℕ
read_byte [] = failed unexpected_end
read_byte (b ∷ bytes) = got b bytes

abbrev pub read_full : ℕ → Decoder (List ℕ)
read_full zero bytes = got [] bytes
read_full (suc count) [] = failed unexpected_end
read_full (suc count) (b ∷ bytes) = go_on (read_full count bytes) λ more rest. got (b ∷ more) rest

-- A number of values, one after the other.
abbrev pub read_each {ℓ} : {A : Type ℓ} → ℕ → Decoder A → Decoder (List A)
read_each zero read = pure []
read_each (suc count) read = read >>= λ x. read_each count read >>= λ xs. pure (x ∷ xs)

abbrev pub little_value : List ℕ → ℕ
little_value [] = 0
little_value (b ∷ bytes) = b + 256 * little_value bytes

module _ (host : Host) where
  abbrev pub read_uint32 : Decoder ℕ
  read_uint32 = read_full 4 >>= λ bytes. pure (little_value (in_order host bytes))

  abbrev pub read_uint64 : Decoder ℕ
  read_uint64 = read_full 8 >>= λ bytes. pure (little_value (in_order host bytes))

  abbrev pub sized : WordSize → Decoder ℕ
  sized four_bytes = read_uint32
  sized eight_bytes = read_uint64

  abbrev pub read_size : Decoder ℕ
  read_size = sized host.word_size

  -- A negative int32 is refused.
  unfoldable pub read_integer : Decoder ℕ
  read_integer =
      read_uint32 >>= λ value. (if ltb 0x7fff_ffff value then fail bad_integer else pure value)

  abbrev pub max_int : WordSize → ℕ
  max_int four_bytes = 0x7fff_ffff
  max_int eight_bytes = 0x7fff_ffff_ffff_ffff

  -- All bytes but the last.
  abbrev pub text_of : List ℕ → Text
  text_of [] = []
  text_of (b ∷ []) = []
  text_of (b ∷ c ∷ bytes) = b ∷ text_of (c ∷ bytes)

  -- A size of 0 is no string; the last byte has to be 0.
  unfoldable pub read_string : Decoder (Option Text)
  read_string = read_size >>= λ size.
      (if size == 0
        then pure none
        else if ltb (max_int host.word_size) size
        then fail bad_string
        else (read_full size >>= λ bytes.
            (if get_or bytes (size - 1) 0 == 0
              then pure (some (text_of bytes))
              else fail bad_string)))
