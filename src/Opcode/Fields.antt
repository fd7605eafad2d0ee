-- ===== src/Opcode/Fields.antt =====
-- opcode.go: the fields of an instruction word. Building and patching succeed on the operands that
-- fit, and read back.
use lunar.Base.{
  Bool, true, false, get_elem?-past, ℕ, ◌+◌, ◌≤◌, ◌<◌, ◌^◌, ◌≡◌, refl, Option, none, some, arith,
}
use lunar.Base.Int.{ℤ, pos_part, neg_part}
use lunar.Opcode.{
  with_bx, with_opcode, opcode, operations, executor_outcome, register_or_constant,
  is_constant_operand, constant_index, max_register_constant, make_abc, make_abx, make_asbx,
  opcode_number, operand_a, operand_b, operand_c, operand_bx, operand_sbx, with_a, with_b, with_c,
  with_sbx, max_operand_a, max_operand_b, max_operand_c, max_operand_bx, max_operand_sbx, op_count,
}

-- An optional word that cannot be missing.
present : (o : Option ℕ) → (o ≡ none → ⊥) → (word : ℕ) × (o ≡ some word)
present none h = absurd (h refl)
present (some word) h = (word, refl)

-- `make_abc` builds a 32-bit word of every operation with operands that fit, and the word reads back
-- as the operation and the three operands.
pub make_abc-fields :
    (operation a b c : ℕ)
    → operation < op_count
    → a ≤ max_operand_a
    → b ≤ max_operand_b
    → c ≤ max_operand_c
    → (word : ℕ) × (make_abc operation a b c ≡ some word)
      × (word < 2 ^ 32)
      × (opcode_number word ≡ operation)
      × (operand_a word ≡ a)
      × (operand_b word ≡ b)
      × (operand_c word ≡ c)
unfolding make_abc operand_a operand_b operand_c
make_abc-fields operation a b c known fits_a fits_b fits_c =
    let (word, h) = present (make_abc operation a b c) (λ missing. ground arith) in
    (word, h, ground arith, ground arith, ground arith, ground arith, ground arith)

-- `make_abx` builds a 32-bit word of every operation with operands that fit, and the word reads back
-- as the operation and the two operands.
pub make_abx-fields :
    (operation a bx : ℕ)
    → operation < op_count
    → a ≤ max_operand_a
    → bx ≤ max_operand_bx
    → (word : ℕ) × (make_abx operation a bx ≡ some word)
      × (word < 2 ^ 32)
      × (opcode_number word ≡ operation)
      × (operand_a word ≡ a)
      × (operand_bx word ≡ bx)
unfolding make_abx operand_a operand_bx
make_abx-fields operation a bx known fits_a fits_bx =
    let (word, h) = present (make_abx operation a bx) (λ missing. ground arith) in
    (word, h, ground arith, ground arith, ground arith, ground arith)

-- `make_asbx` builds a word of every operation with an A that fits and a signed operand of at most
-- `max_operand_sbx` in size, and the word reads back as the three.
pub make_asbx-fields :
    (operation a : ℕ) (sbx : ℤ)
    → operation < op_count
    → a ≤ max_operand_a
    → pos_part sbx + neg_part sbx ≤ max_operand_sbx
    → (word : ℕ) × (make_asbx operation a sbx ≡ some word)
      × (word < 2 ^ 32)
      × (opcode_number word ≡ operation)
      × (operand_a word ≡ a)
      × (operand_sbx word ≡ sbx)
unfolding make_asbx operand_a operand_sbx
make_asbx-fields operation a sbx known fits_a fits_sbx =
    let (word, h) = present (make_asbx operation a sbx) (λ missing. ground arith) in
    (word, h, ground arith, ground arith, ground arith, ground arith)

-- `with_a` accepts every A that fits; the new word has it, and keeps the opcode and Bx, of which B
-- and C are parts.
with_a-fields :
    (code a : ℕ)
    → a ≤ max_operand_a
    → (word : ℕ) × (with_a code a ≡ some word)
      × (operand_a word ≡ a)
      × (opcode_number word ≡ opcode_number code)
      × (operand_bx word ≡ operand_bx code)
unfolding with_a operand_a operand_bx
with_a-fields code a fits =
    let (word, h) = present (with_a code a) (λ missing. ground arith) in
    (word, h, ground arith, ground arith, ground arith)

-- `with_b` accepts every B that fits; the new word has it, and keeps the opcode, A and C.
with_b-fields :
    (code b : ℕ)
    → b ≤ max_operand_b
    → (word : ℕ) × (with_b code b ≡ some word)
      × (operand_b word ≡ b)
      × (opcode_number word ≡ opcode_number code)
      × (operand_a word ≡ operand_a code)
      × (operand_c word ≡ operand_c code)
unfolding with_b operand_a operand_b operand_c
with_b-fields code b fits =
    let (word, h) = present (with_b code b) (λ missing. ground arith) in
    (word, h, ground arith, ground arith, ground arith, ground arith)

-- `with_c` accepts every C that fits; the new word has it, and keeps the opcode, A and B.
with_c-fields :
    (code c : ℕ)
    → c ≤ max_operand_c
    → (word : ℕ) × (with_c code c ≡ some word)
      × (operand_c word ≡ c)
      × (opcode_number word ≡ opcode_number code)
      × (operand_a word ≡ operand_a code)
      × (operand_b word ≡ operand_b code)
unfolding with_c operand_a operand_b operand_c
with_c-fields code c fits =
    let (word, h) = present (with_c code c) (λ missing. ground arith) in
    (word, h, ground arith, ground arith, ground arith, ground arith)

-- A patched jump: `with_sbx` accepts every signed operand of at most `max_operand_sbx` in size; the
-- new word reads back as the operand, and keeps the opcode and A.
pub with_sbx-fields :
    (code : ℕ) (sbx : ℤ)
    → pos_part sbx + neg_part sbx ≤ max_operand_sbx
    → (word : ℕ) × (with_sbx code sbx ≡ some word)
      × (operand_sbx word ≡ sbx)
      × (opcode_number word ≡ opcode_number code)
      × (operand_a word ≡ operand_a code)
unfolding with_sbx operand_a operand_sbx
with_sbx-fields code sbx fits =
    let (word, h) = present (with_sbx code sbx) (λ missing. ground arith) in
    (word, h, ground arith, ground arith, ground arith)

-- `with_bx` accepts every Bx that fits; the new word has it, and keeps the opcode and A.
with_bx-fields :
    (code bx : ℕ)
    → bx ≤ max_operand_bx
    → (word : ℕ) × (with_bx code bx ≡ some word)
      × (operand_bx word ≡ bx)
      × (opcode_number word ≡ opcode_number code)
      × (operand_a word ≡ operand_a code)
unfolding with_bx operand_a operand_bx
with_bx-fields code bx fits =
    let (word, h) = present (with_bx code bx) (λ missing. ground arith) in
    (word, h, ground arith, ground arith, ground arith)

-- `with_opcode` accepts every opcode of six bits; the new word has it, and keeps A and Bx, of which B
-- and C are parts.
with_opcode-fields :
    (code operation : ℕ)
    → operation < 64
    → (word : ℕ) × (with_opcode code operation ≡ some word)
      × (opcode_number word ≡ operation)
      × (operand_a word ≡ operand_a code)
      × (operand_bx word ≡ operand_bx code)
unfolding with_opcode operand_a operand_bx
with_opcode-fields code operation fits =
    let (word, h) = present (with_opcode code operation) (λ missing. ground arith) in
    (word, h, ground arith, ground arith, ground arith)

-- An outcome of the executor is never a word of the verifier's operations: `executor_outcome` accepts
-- the numbers from `op_count` to 63, the new word reads back as the outcome's number, has no known
-- opcode, and keeps A and Bx.
pub executor_outcome-fields :
    (code operation : ℕ)
    → op_count ≤ operation
    → operation < 64
    → (word : ℕ) × (executor_outcome code operation ≡ some word)
      × (opcode_number word ≡ operation)
      × (opcode word ≡ none)
      × (operand_a word ≡ operand_a code)
      × (operand_bx word ≡ operand_bx code)
unfolding executor_outcome operand_a operand_bx opcode
executor_outcome-fields code operation private_number fits =
    let (word, h) = present (executor_outcome code operation) (λ missing. ground arith) in
    let number : opcode_number word ≡ operation = ground arith in
    (
      word,
      h,
      number,
      get_elem?-past operations (opcode_number word) (omega arith),
      ground arith,
      ground arith,
    )

-- An operand that `register_or_constant` encodes fits in nine bits, and reads back as the index and
-- as a register or a constant.
pub register_or_constant-fields :
    (index : ℕ) (constant : Bool)
    → index ≤ max_register_constant
    → (operand : ℕ) × (register_or_constant index constant ≡ some operand)
      × (operand ≤ max_operand_b)
      × (is_constant_operand operand ≡ constant)
      × (constant_index operand ≡ index)
unfolding register_or_constant is_constant_operand constant_index
register_or_constant-fields index true fits =
    let (word, h) = present (register_or_constant index true) (λ missing. ground arith) in
    (word, h, ground arith, ground arith, ground arith)
register_or_constant-fields index false fits =
    let (word, h) = present (register_or_constant index false) (λ missing. ground arith) in
    (word, h, ground arith, ground arith, ground arith)
