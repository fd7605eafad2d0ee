-- ===== src/Chunk/Specialized.antt =====
-- The instructions on fields: lowering them to Lua 5.1, and finding them again from the constants.
use lunar.Base.{
  ℕ, ◌<◌, ◌^◌, ◌==◌, ◌≡◌, all_below, all_below_sound, if◌then◌else◌, refl, ap, Bool, true, false,
  Option, some, List, [], ◌∷◌, All, arith, get_elem?,
}
use lunar.Opcode.{
  Opcode, op_get_field, op_set_field, op_self_field, op_get_table, op_set_table, op_self,
  operations, opcode, opcode_number, with_opcode, operand_b, operand_c,
}
use lunar.Slot.{Slot}
use lunar.Chunk.Code.{
  set_opcode, lowered, raised, lua51_chunk_instruction, is_extended, specialize, is_specialized,
  is_specialized_word,
}
use lunar.Chunk.Words.{lower_words, IsWord, set_opcode-fields, lua51_chunk_instruction-fits}

-- The opcode replaced and put back, and the operands meanwhile.
set_opcode-back :
    (code number : ℕ)
    → number < 64
    → (set_opcode (set_opcode code number) (opcode_number code) ≡ code)
      × (operand_b (set_opcode code number) ≡ operand_b code)
      × (operand_c (set_opcode code number) ≡ operand_c code)
unfolding with_opcode operand_b operand_c
set_opcode-back code number small = ground arith

abbrev field_number : Option Opcode → ℕ → Bool
field_number (some op_get_field) number = number == 38
field_number (some op_set_field) number = number == 39
field_number (some op_self_field) number = number == 40
field_number _ number = true

opcode-field_number : (code : ℕ) → field_number (opcode code) (opcode_number code) ≡ true
unfolding opcode all_below
opcode-field_number code =
    all_below_sound 64 (λ number. field_number (get_elem? operations number) number)
      (opcode_number code) refl (omega arith)

set_opcode-opcode :
    (code number : ℕ)
    → number < 64
    → code < 2 ^ 32
    → opcode (set_opcode code number) ≡ get_elem? operations number
unfolding opcode
set_opcode-opcode code number small fits = rw ((set_opcode-fields code number small fits).1)

restored :
    (code number own : ℕ)
    → number < 64
    → (own == opcode_number code) ≡ true
    → set_opcode (set_opcode code number) own ≡ code
restored code number own small same =
    let (back, _, _) = set_opcode-back code number small in
    let own_number : own ≡ opcode_number code = ground arith in rw own_number back

raised-lowered :
    (constants : List Slot) (o : Option Opcode) (code : ℕ)
    → opcode code ≡ o
    → code < 2 ^ 32
    → field_number o (opcode_number code) ≡ true
    → is_specialized_word constants o code ≡ true
    → raised constants (opcode (lowered o code)) (lowered o code) ≡ code
raised-lowered constants (some op_get_field) code h fits number is =
    let (_, _, kept) = set_opcode-back code 6 (omega arith) in
    let (_, new) = set_opcode-fields code 6 (omega arith) fits in
    rw (set_opcode-opcode code 6 (omega arith) fits, kept, is)
      (restored code 6 38 (omega arith) (ground arith))
raised-lowered constants (some op_set_field) code h fits number is =
    let (_, kept, _) = set_opcode-back code 9 (omega arith) in
    rw (set_opcode-opcode code 9 (omega arith) fits, kept, is)
      (restored code 9 39 (omega arith) (ground arith))
raised-lowered constants (some op_self_field) code h fits number is =
    let (_, _, kept) = set_opcode-back code 11 (omega arith) in
    rw (set_opcode-opcode code 11 (omega arith) fits, kept, is)
      (restored code 11 40 (omega arith) (ground arith))
raised-lowered constants (some op_get_table) code h fits number is = ground arith
raised-lowered constants (some op_set_table) code h fits number is = ground arith
raised-lowered constants (some op_self) code h fits number is = ground arith
raised-lowered constants _ code h fits number is = rw h

pub specialize-lower_words :
    (constants : List Slot) (extra : Bool) (code : List ℕ)
    → All IsWord code
    → is_specialized constants extra code ≡ true
    → specialize constants extra (lower_words extra code) ≡ code
unfolding specialize is_specialized lower_words lua51_chunk_instruction
specialize-lower_words constants true [] fits is = refl
specialize-lower_words constants false [] fits is = refl
specialize-lower_words constants true (word ∷ rest) fits is =
    ap (λ tail. word ∷ tail) (specialize-lower_words constants false rest fits.1 is)
specialize-lower_words constants false (code ∷ rest) fits is =
    let (word, tail) =
      both (is_specialized_word constants (opcode code) code)
        (is_specialized constants (is_extended code) rest) is in
    let first =
      raised-lowered constants (opcode code) code refl fits.0 (opcode-field_number code) word in
    let (_, extended) = lua51_chunk_instruction-fits code fits.0 in
    rw (first, extended, specialize-lower_words constants (is_extended code) rest fits.1 tail)
  where
    both : (a b : Bool) → (if a then b else false) ≡ true → (a ≡ true) × (b ≡ true)
    both a b h = ground arith
