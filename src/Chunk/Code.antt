-- ===== src/Chunk/Code.antt =====
-- chunk.go: the words of a chunk. Lua 5.1 has no field instructions: they are lowered when a chunk is
-- written, and found again from the constants when it is read. The word behind an extended SETLIST is
-- no instruction: the flag says that the next word is one.
use lunar.Base.{
  ℕ, Bool, true, false, not, ◌&&◌, Option, none, some, List, [], ◌∷◌, leb, ◌==◌, if◌then◌else◌,
  get_elem?,
}
use lunar.Opcode.{
  Opcode, op_get_table, op_set_table, op_self, op_get_field, op_set_field, op_self_field,
  op_set_list, opcode, opcode_number, operand_b, operand_c, with_opcode, is_constant_operand,
  constant_index,
}
use lunar.Slot.{Slot, Kind, string_kind, kind}
use lunar.Chunk.Function.{Host}
use lunar.Chunk.Written.{Written, nothing, unwritten, ◌&◌, write_uint32, invalid_prototype}

abbrev pub lua51_opcode_count : ℕ
lua51_opcode_count = 38

-- `withOpcode` panics only from 64 on.
abbrev pub set_opcode : ℕ → ℕ → ℕ
set_opcode code number = elim (with_opcode code number) [ none ↦ code | some word ↦ word ]

abbrev pub lowered : Option Opcode → ℕ → ℕ
lowered (some op_get_field) code = set_opcode code 6
lowered (some op_set_field) code = set_opcode code 9
lowered (some op_self_field) code = set_opcode code 11
lowered _ code = code

unfoldable pub lua51_chunk_instruction : ℕ → ℕ
unfolding opcode with_opcode
lua51_chunk_instruction code = lowered (opcode code) code

abbrev pub is_set_list : Option Opcode → Bool
is_set_list (some op_set_list) = true
is_set_list _ = false

-- `code.opcode() == opSetList && code.c() == 0`.
abbrev pub is_extended : ℕ → Bool
is_extended code = is_set_list (opcode code) && operand_c code == 0

-- The loop of `writeFunction` over the code.
unfoldable pub write_words : Host → Bool → List ℕ → Written
unfolding lua51_chunk_instruction
write_words host false [] = nothing
write_words host true [] = unwritten invalid_prototype
write_words host true (word ∷ rest) = write_uint32 host word & write_words host false rest
write_words host false (code ∷ rest) =
    let more = write_words host (is_extended code) rest in
    if leb lua51_opcode_count (opcode_number (lua51_chunk_instruction code))
    then unwritten invalid_prototype
    else write_uint32 host (lua51_chunk_instruction code) & more

-- `isLua51ChunkCode`.
unfoldable pub is_chunk_code : Bool → List ℕ → Bool
is_chunk_code false [] = true
is_chunk_code true [] = false
is_chunk_code true (word ∷ rest) = is_chunk_code false rest
is_chunk_code false (code ∷ rest) =
    let more = is_chunk_code (is_extended code) rest in
    if leb lua51_opcode_count (opcode_number code) then false else more

abbrev pub is_string_kind : Kind → Bool
is_string_kind string_kind = true
is_string_kind _ = false

abbrev pub is_string_at : List Slot → ℕ → Bool
is_string_at constants index = elim (get_elem? constants index) [
  | none ↦ false
  | some value ↦ is_string_kind (kind value)
]

-- The operand is the index of a string constant.
abbrev pub names_field : List Slot → ℕ → Bool
names_field constants operand =
    is_constant_operand operand && is_string_at constants (constant_index operand)

abbrev pub raised : List Slot → Option Opcode → ℕ → ℕ
raised constants (some op_get_table) code =
    if names_field constants (operand_c code) then set_opcode code 38 else code
raised constants (some op_set_table) code =
    if names_field constants (operand_b code) then set_opcode code 39 else code
raised constants (some op_self) code =
    if names_field constants (operand_c code) then set_opcode code 40 else code
raised constants _ code = code

-- Whether the word has the field form exactly where its key operand is a string constant.
abbrev pub is_specialized_word : List Slot → Option Opcode → ℕ → Bool
is_specialized_word constants (some op_get_table) code =
    not (names_field constants (operand_c code))
is_specialized_word constants (some op_set_table) code =
    not (names_field constants (operand_b code))
is_specialized_word constants (some op_self) code = not (names_field constants (operand_c code))
is_specialized_word constants (some op_get_field) code = names_field constants (operand_c code)
is_specialized_word constants (some op_set_field) code = names_field constants (operand_b code)
is_specialized_word constants (some op_self_field) code = names_field constants (operand_c code)
is_specialized_word constants _ code = true

-- The same of a code; the word behind an extended SETLIST is no instruction.
unfoldable pub is_specialized : List Slot → Bool → List ℕ → Bool
is_specialized constants extra [] = true
is_specialized constants true (word ∷ rest) = is_specialized constants false rest
is_specialized constants false (code ∷ rest) =
    let more = is_specialized constants (is_extended code) rest in
    if is_specialized_word constants (opcode code) code then more else false

-- `specializeStringTableInstructions`.
unfoldable pub specialize : List Slot → Bool → List ℕ → List ℕ
specialize constants extra [] = []
specialize constants true (word ∷ rest) = word ∷ specialize constants false rest
specialize constants false (code ∷ rest) =
    raised constants (opcode code) code ∷ specialize constants (is_extended code) rest
