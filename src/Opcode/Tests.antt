-- ===== src/Opcode/Tests.antt =====
-- Words built and patched, and size hints coded.
use lunar.Base.{none, true, ℕ, ◌≤◌, ◌<◌, ◌*◌, ◌^◌, ◌≡◌, refl, some, arith}
use lunar.Base.Int.{pos, negsuc}
use lunar.Opcode.{
  opcode, executor_outcome, register_or_constant, is_constant_operand, constant_index, make_abc,
  make_abx, make_asbx, opcode_number, operand_a, operand_b, operand_c, operand_bx, operand_sbx,
  with_sbx, int_to_floating_byte, floating_byte_to_uint64,
}
use lunar.Opcode.Fields.{
  executor_outcome-fields, register_or_constant-fields, make_abc-fields, make_abx-fields,
  make_asbx-fields, with_sbx-fields,
}
use lunar.Opcode.FloatingByte.{int_to_floating_byte_lem, floating_byte_roundtrip}

-- CALL with A 3, B 2 and C 1.
call_word : make_abc 28 3 2 1 ≡ some 16793820
unfolding make_abc
call_word = refl

-- A jump back by two words.
jump_word : make_asbx 22 0 (negsuc 1) ≡ some 2147434518
unfolding make_asbx
jump_word = refl

make_abc-fields_example :
    (word : ℕ) × (make_abc 28 3 2 1 ≡ some word)
    × (word < 2 ^ 32)
    × (opcode_number word ≡ 28)
    × (operand_a word ≡ 3)
    × (operand_b word ≡ 2)
    × (operand_c word ≡ 1)
make_abc-fields_example =
    make_abc-fields 28 3 2 1 (omega arith) (omega arith) (omega arith) (omega arith)

make_abx-fields_example :
    (word : ℕ) × (make_abx 1 4 1000 ≡ some word)
    × (word < 2 ^ 32)
    × (opcode_number word ≡ 1)
    × (operand_a word ≡ 4)
    × (operand_bx word ≡ 1000)
make_abx-fields_example = make_abx-fields 1 4 1000 (omega arith) (omega arith) (omega arith)

make_asbx-fields_example :
    (word : ℕ) × (make_asbx 22 0 (negsuc 1) ≡ some word)
    × (word < 2 ^ 32)
    × (opcode_number word ≡ 22)
    × (operand_a word ≡ 0)
    × (operand_sbx word ≡ negsuc 1)
make_asbx-fields_example =
    make_asbx-fields 22 0 (negsuc 1) (omega arith) (omega arith) (omega arith)

with_sbx-fields_example :
    (word : ℕ) × (with_sbx 2147434518 (pos 12) ≡ some word)
    × (operand_sbx word ≡ pos 12)
    × (opcode_number word ≡ opcode_number 2147434518)
    × (operand_a word ≡ operand_a 2147434518)
with_sbx-fields_example = with_sbx-fields 2147434518 (pos 12) (omega arith)

int_to_floating_byte_lem_example :
    (byte : ℕ) × (decoded : ℕ) × (int_to_floating_byte 1001 ≡ some byte)
    × (byte < 256)
    × (floating_byte_to_uint64 byte ≡ some decoded)
    × (1001 ≤ decoded)
    × (7 * decoded ≤ 8 * 1001)
int_to_floating_byte_lem_example = int_to_floating_byte_lem 1001 (omega arith)

floating_byte_roundtrip_example :
    (value : ℕ) × (floating_byte_to_uint64 77 ≡ some value) × (int_to_floating_byte value ≡ some 77)
floating_byte_roundtrip_example = floating_byte_roundtrip 77 (omega arith)

executor_outcome-fields_example :
    (word : ℕ) × (executor_outcome 16793820 50 ≡ some word)
    × (opcode_number word ≡ 50)
    × (opcode word ≡ none)
    × (operand_a word ≡ operand_a 16793820)
    × (operand_bx word ≡ operand_bx 16793820)
executor_outcome-fields_example = executor_outcome-fields 16793820 50 (omega arith) (omega arith)

register_or_constant-fields_example :
    (operand : ℕ) × (register_or_constant 255 true ≡ some operand)
    × (operand ≤ 511)
    × (is_constant_operand operand ≡ true)
    × (constant_index operand ≡ 255)
register_or_constant-fields_example = register_or_constant-fields 255 true (omega arith)
