-- ===== src/Opcode.antt =====
-- opcode.go: the 32-bit instruction word, its fields, and the floating byte of table size hints.
pub mod Fields
pub mod FloatingByte
mod Tests
use lunar.Base.{
  ℕ, zero, suc, ◌+◌, ◌-◌, ◌*◌, ◌/◌, ◌%◌, ◌^◌, Bool, ◌||◌, Option, none, some, List, [], ◌∷◌, ltb,
  leb, ◌==◌, if◌then◌else◌, get_elem?,
}
use lunar.Base.Int.{ℤ, pos, negsuc, sub_ℕ}

-- The executable operations, in the order of their numbers.
pub data Opcode : Type 0 where
  op_move op_load_k op_load_bool op_load_nil op_get_upvalue op_get_global op_get_table : Opcode
  op_set_global op_set_upvalue op_set_table op_new_table op_self : Opcode
  op_add op_sub op_mul op_div op_mod op_pow op_unary_minus op_not op_length op_concat : Opcode
  op_jump op_equal op_less_than op_less_equal op_test op_test_set : Opcode
  op_call op_tail_call op_return op_for_loop op_for_prep op_iterator_loop : Opcode
  op_set_list op_close op_closure op_vararg op_get_field op_set_field op_self_field : Opcode

abbrev pub operations : List Opcode
operations =
    op_move ∷ op_load_k ∷ op_load_bool ∷ op_load_nil ∷ op_get_upvalue ∷ op_get_global ∷ op_get_table
    ∷ op_set_global ∷ op_set_upvalue ∷ op_set_table ∷ op_new_table ∷ op_self ∷ op_add ∷ op_sub
    ∷ op_mul ∷ op_div ∷ op_mod ∷ op_pow ∷ op_unary_minus ∷ op_not ∷ op_length ∷ op_concat ∷ op_jump
    ∷ op_equal ∷ op_less_than ∷ op_less_equal ∷ op_test ∷ op_test_set ∷ op_call ∷ op_tail_call
    ∷ op_return ∷ op_for_loop ∷ op_for_prep ∷ op_iterator_loop ∷ op_set_list ∷ op_close ∷ op_closure
    ∷ op_vararg ∷ op_get_field ∷ op_set_field ∷ op_self_field ∷ []

abbrev pub op_count : ℕ
op_count = 41

abbrev pub max_operand_a : ℕ
max_operand_a = 255

abbrev pub max_operand_b : ℕ
max_operand_b = 511

abbrev pub max_operand_c : ℕ
max_operand_c = 511

abbrev pub max_operand_bx : ℕ
max_operand_bx = 262143

abbrev pub max_operand_sbx : ℕ
max_operand_sbx = 131071

abbrev pub register_constant_bit : ℕ
register_constant_bit = 256

abbrev pub max_register_constant : ℕ
max_register_constant = 255

-- The shifts and masks are divisions and remainders: the fields are disjoint, so `|` adds.
-- `none` is the panic on an operand out of range.
unfoldable pub make_abc : ℕ → ℕ → ℕ → ℕ → Option ℕ
make_abc operation a b c =
    if leb op_count operation || ltb max_operand_a a || ltb max_operand_b b || ltb max_operand_c c
    then none
    else some (operation + a * 2 ^ 6 + b * 2 ^ 23 + c * 2 ^ 14)

unfoldable pub make_abx : ℕ → ℕ → ℕ → Option ℕ
make_abx operation a bx =
    if leb op_count operation || ltb max_operand_a a || ltb max_operand_bx bx
    then none
    else some (operation + a * 2 ^ 6 + bx * 2 ^ 14)

-- `sbx + maxOperandsBx`, or `none` out of range.
unfoldable pub bias_sbx : ℤ → Option ℕ
bias_sbx (pos n) = if ltb max_operand_sbx n then none else some (n + max_operand_sbx)
bias_sbx (negsuc n) = if leb max_operand_sbx n then none else some (max_operand_sbx - n - 1)

unfoldable pub make_asbx : ℕ → ℕ → ℤ → Option ℕ
unfolding bias_sbx make_abx
make_asbx operation a sbx = elim (bias_sbx sbx) [ none ↦ none | some bx ↦ make_abx operation a bx ]

abbrev pub opcode_number : ℕ → ℕ
opcode_number code = code % 2 ^ 6

-- `none` is a number from opCount on.
unfoldable pub opcode : ℕ → Option Opcode
opcode code = get_elem? operations (opcode_number code)

unfoldable pub operand_a : ℕ → ℕ
operand_a code = code / 2 ^ 6 % 2 ^ 8

unfoldable pub operand_b : ℕ → ℕ
operand_b code = code / 2 ^ 23 % 2 ^ 9

unfoldable pub operand_c : ℕ → ℕ
operand_c code = code / 2 ^ 14 % 2 ^ 9

unfoldable pub operand_bx : ℕ → ℕ
operand_bx code = code / 2 ^ 14 % 2 ^ 18

unfoldable pub operand_sbx : ℕ → ℤ
unfolding operand_bx
operand_sbx code = sub_ℕ (operand_bx code) max_operand_sbx

-- `code &^ mask | value`: the old field is taken away and the new one put in its place.
unfoldable pub with_opcode : ℕ → ℕ → Option ℕ
with_opcode code operation =
    if leb 64 operation then none else some (code - opcode_number code + operation)

-- The opcode is one of the executor's private outcomes, from opCount to 63.
unfoldable pub executor_outcome : ℕ → ℕ → Option ℕ
executor_outcome code operation =
    if ltb operation op_count || leb 64 operation
    then none
    else some (code - opcode_number code + operation)

unfoldable pub with_a : ℕ → ℕ → Option ℕ
unfolding operand_a
with_a code a =
    if ltb max_operand_a a then none else some (code - operand_a code * 2 ^ 6 + a * 2 ^ 6)

unfoldable pub with_b : ℕ → ℕ → Option ℕ
unfolding operand_b
with_b code b =
    if ltb max_operand_b b then none else some (code - operand_b code * 2 ^ 23 + b * 2 ^ 23)

unfoldable pub with_c : ℕ → ℕ → Option ℕ
unfolding operand_c
with_c code c =
    if ltb max_operand_c c then none else some (code - operand_c code * 2 ^ 14 + c * 2 ^ 14)

unfoldable pub with_bx : ℕ → ℕ → Option ℕ
unfolding operand_bx
with_bx code bx =
    if ltb max_operand_bx bx then none else some (code - operand_bx code * 2 ^ 14 + bx * 2 ^ 14)

unfoldable pub with_sbx : ℕ → ℤ → Option ℕ
unfolding bias_sbx with_bx
with_sbx code sbx = elim (bias_sbx sbx) [ none ↦ none | some bx ↦ with_bx code bx ]

unfoldable pub register_or_constant : ℕ → Bool → Option ℕ
register_or_constant index constant =
    if ltb max_register_constant index
    then none
    else some (if constant then index + register_constant_bit else index)

unfoldable pub is_constant_operand : ℕ → Bool
is_constant_operand operand = operand / register_constant_bit % 2 == 1

unfoldable pub constant_index : ℕ → ℕ
constant_index operand = operand - operand / register_constant_bit % 2 * register_constant_bit

-- The loop `for value >= 16`: the rounds left, the value and the exponent. The first argument
-- bounds the rounds; it runs out only past every 64-bit value.
unfoldable pub halve_up : ℕ → ℕ → ℕ → ℕ × ℕ
halve_up zero value exponent = (value, exponent)
halve_up (suc fuel) value exponent =
    let rest = halve_up fuel (value / 2 + value % 2) (exponent + 1) in
    if leb 16 value then rest else (value, exponent)

-- What follows the loop. `none` is the panic on a value that no floating byte reaches.
unfoldable pub encode_floating : ℕ × ℕ → Option ℕ
encode_floating (value, exponent) =
    if ltb value 8
    then some value
    else if ltb 255 ((exponent + 1) * 8 + (value - 8))
    then none
    else some ((exponent + 1) * 8 + (value - 8))

unfoldable pub int_to_floating_byte : ℕ → Option ℕ
unfolding encode_floating
int_to_floating_byte value = encode_floating (halve_up 64 value 0)

unfoldable pub floating_byte_to_uint64 : ℕ → Option ℕ
floating_byte_to_uint64 value =
    if ltb 255 value
    then none
    else if ltb value 8
    then some value
    else some ((value % 8 + 8) * 2 ^ (value / 8 - 1))
