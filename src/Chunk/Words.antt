-- ===== src/Chunk/Words.antt =====
-- The words of a chunk: what is written is read back as the words of Lua 5.1, lowered.
use lunar.Base.{
  ℕ, ◌<◌, ◌^◌, ◌≡◌, refl, ap, suc, Bool, true, false, Option, some, List, [], ◌∷◌, length, All, leb,
  arith, get_elem?,
}
use lunar.Opcode.{
  Opcode, op_get_field, op_set_field, op_self_field, operations, opcode, opcode_number, with_opcode,
}
use lunar.Chunk.Function.{Host}
use lunar.Chunk.Written.{wrote, write_uint32}
use lunar.Chunk.Decoder.{read_each, read_uint32}
use lunar.Chunk.Code.{
  set_opcode, lowered, lua51_chunk_instruction, is_set_list, is_extended, write_words,
  is_chunk_code, lua51_opcode_count,
}
use lunar.Chunk.Reads.{
  Reads, bind-Reads, map-Reads, refused-Reads, read_uint32-Reads, &-wrote, nothing-Reads,
  written_unless,
}

-- The words that a code is written as.
unfoldable pub lower_words : Bool → List ℕ → List ℕ
lower_words extra [] = []
lower_words true (word ∷ rest) = word ∷ lower_words false rest
lower_words false (code ∷ rest) = lua51_chunk_instruction code ∷ lower_words (is_extended code) rest

pub length-lower_words :
    (extra : Bool) (code : List ℕ) → length (lower_words extra code) ≡ length code
unfolding lower_words
length-lower_words extra [] = refl
length-lower_words true (word ∷ rest) = ap suc (length-lower_words false rest)
length-lower_words false (code ∷ rest) = ap suc (length-lower_words (is_extended code) rest)

pub set_opcode-fields :
    (code number : ℕ)
    → number < 64
    → code < 2 ^ 32
    → (set_opcode code number < 2 ^ 32) × (opcode_number (set_opcode code number) ≡ number)
unfolding with_opcode
set_opcode-fields code number small fits = ground arith

replaced-fits :
    (code number : ℕ)
    → number < 64
    → code < 2 ^ 32
    → is_set_list (get_elem? operations number) ≡ false
    → is_set_list (opcode code) ≡ false
    → (set_opcode code number < 2 ^ 32) × (is_extended (set_opcode code number) ≡ is_extended code)
unfolding opcode
replaced-fits code number small fits new old =
    let (fits', is) = set_opcode-fields code number small fits in (fits', rw (is, new, old))

lowered-fits :
    (o : Option Opcode) (code : ℕ)
    → opcode code ≡ o
    → code < 2 ^ 32
    → (lowered o code < 2 ^ 32) × (is_extended (lowered o code) ≡ is_extended code)
lowered-fits (some op_get_field) code h fits = replaced-fits code 6 (omega arith) fits refl (rw h)
lowered-fits (some op_set_field) code h fits = replaced-fits code 9 (omega arith) fits refl (rw h)
lowered-fits (some op_self_field) code h fits = replaced-fits code 11 (omega arith) fits refl (rw h)
lowered-fits _ code h fits = (fits, refl)

pub lua51_chunk_instruction-fits :
    (code : ℕ)
    → code < 2 ^ 32
    → (lua51_chunk_instruction code < 2 ^ 32)
      × (is_extended (lua51_chunk_instruction code) ≡ is_extended code)
unfolding lua51_chunk_instruction
lua51_chunk_instruction-fits code fits = lowered-fits (opcode code) code refl fits

abbrev pub IsWord : ℕ → Type 0
IsWord code = code < 2 ^ 32

-- The lowered code has the opcodes of Lua 5.1 only.
pub write_words-is_chunk_code :
    (host : Host) (extra : Bool) (code : List ℕ) (bytes : List ℕ)
    → All IsWord code
    → write_words host extra code ≡ wrote bytes
    → is_chunk_code extra (lower_words extra code) ≡ true
unfolding write_words is_chunk_code lower_words
write_words-is_chunk_code host false [] bytes fits h = refl
write_words-is_chunk_code host true [] bytes fits h = cc
write_words-is_chunk_code host true (word ∷ rest) bytes fits h =
    let (_, after, _, e, _) =
      &-wrote (write_uint32 host word) (write_words host false rest) bytes h in
    write_words-is_chunk_code host false rest after fits.1 e
write_words-is_chunk_code host false (code ∷ rest) bytes fits h =
    let (known, e) =
      written_unless (leb lua51_opcode_count (opcode_number (lua51_chunk_instruction code))) _ _
        bytes h in
    let (_, after, _, e', _) =
      &-wrote (write_uint32 host (lua51_chunk_instruction code))
        (write_words host (is_extended code) rest) bytes e in
    rw (known, (lua51_chunk_instruction-fits code fits.0).1)
      (write_words-is_chunk_code host (is_extended code) rest after fits.1 e')

module _ (host : Host) where
  pub write_words-Reads :
      (extra : Bool) (code : List ℕ)
      → All IsWord code
      → Reads
          (read_each (length code) (read_uint32 host))
          (write_words host extra code)
          (lower_words extra code)
  unfolding write_words lower_words
  write_words-Reads false [] fits = nothing-Reads []
  write_words-Reads true [] fits = record { reads = λ bytes rest h. cc }
  write_words-Reads true (word ∷ rest) fits =
      bind-Reads _ (read_uint32-Reads host word fits.0)
        (map-Reads (λ ys. word ∷ ys) (write_words-Reads false rest fits.1))
  write_words-Reads false (code ∷ rest) fits =
      refused-Reads (leb lua51_opcode_count (opcode_number (lua51_chunk_instruction code))) _ λ _.
        bind-Reads _
          (read_uint32-Reads host (lua51_chunk_instruction code)
            (lua51_chunk_instruction-fits code fits.0).0)
          (map-Reads _ (write_words-Reads (is_extended code) rest fits.1))
