-- ===== src/Executor/Bounds/Plain.antt =====
-- The instructions that name their operands one by one.
use lunar.Base.{ℕ, ◌≡◌, List, arith, All, true, false}
use lunar.Opcode.{
  Opcode, op_move, op_load_k, op_load_bool, op_get_upvalue, op_get_global, op_get_table,
  op_set_global, op_set_upvalue, op_set_table, op_new_table, op_self, op_add, op_not, op_close,
  op_get_field, op_set_field, op_self_field, operand_a, operand_b, operand_c, operand_bx,
}
use lunar.Verify.Prototype.{Prototype, ok, Role}
use lunar.Verify.Instructions.{
  verify_move, verify_load_k, verify_load_bool, verify_get_upvalue, verify_get_global,
  verify_get_table, verify_set_global, verify_set_upvalue, verify_set_table, verify_new_table,
  verify_self, verify_arithmetic, verify_unary, verify_close, verify_get_field, verify_set_field,
  verify_self_field,
}
use lunar.Executor.{accesses, arithmetic_accesses}
use lunar.Executor.Bounds.{
  InBounds, check_register-lt, check_registers-lt, check_register_range-le, check_constant-lt,
  operand-InBounds, string_operand-lt,
}

module _ (p : Prototype) (roles : List Role) (pc : ℕ) (code : ℕ) where
  -- The operands that a code field names, as the checks bound them.
  abbrev Safe : Opcode → Type 0
  Safe op = All (InBounds p) (accesses p pc code op)

  pub move-Safe : verify_move p roles pc code ≡ ok tt → Safe op_move
  unfolding verify_move accesses
  move-Safe h = ground (arith, check_registers-lt p pc (operand_a code) (operand_b code))

  pub unary-Safe : verify_unary p roles pc code ≡ ok tt → Safe op_not
  unfolding verify_unary accesses
  unary-Safe h = ground (arith, check_registers-lt p pc (operand_a code) (operand_b code))

  pub load_k-Safe : verify_load_k p roles pc code ≡ ok tt → Safe op_load_k
  unfolding verify_load_k accesses
  load_k-Safe h = ground (
    arith,
    check_register-lt p pc (operand_a code) "destination",
    check_constant-lt p pc (operand_bx code) false,
  )

  pub load_bool-Safe : verify_load_bool p roles pc code ≡ ok tt → Safe op_load_bool
  unfolding verify_load_bool accesses
  load_bool-Safe h = ground (arith, check_register-lt p pc (operand_a code) "destination")

  pub get_upvalue-Safe : verify_get_upvalue p roles pc code ≡ ok tt → Safe op_get_upvalue
  unfolding verify_get_upvalue accesses
  get_upvalue-Safe h = ground (arith, check_register-lt p pc (operand_a code) "destination")

  pub set_upvalue-Safe : verify_set_upvalue p roles pc code ≡ ok tt → Safe op_set_upvalue
  unfolding verify_set_upvalue accesses
  set_upvalue-Safe h = ground (arith, check_register-lt p pc (operand_a code) "source")

  pub get_global-Safe : verify_get_global p roles pc code ≡ ok tt → Safe op_get_global
  unfolding verify_get_global accesses
  get_global-Safe h = ground (
    arith,
    check_register-lt p pc (operand_a code) "destination",
    check_constant-lt p pc (operand_bx code) true,
  )

  pub set_global-Safe : verify_set_global p roles pc code ≡ ok tt → Safe op_set_global
  unfolding verify_set_global accesses
  set_global-Safe h = ground (
    arith,
    check_register-lt p pc (operand_a code) "source",
    check_constant-lt p pc (operand_bx code) true,
  )

  pub get_table-Safe : verify_get_table p roles pc code ≡ ok tt → Safe op_get_table
  unfolding verify_get_table accesses
  get_table-Safe h = ground (
    arith,
    check_registers-lt p pc (operand_a code) (operand_b code),
    operand-InBounds p pc (operand_c code) "table key",
  )

  pub set_table-Safe : verify_set_table p roles pc code ≡ ok tt → Safe op_set_table
  unfolding verify_set_table accesses
  set_table-Safe h = ground (
    arith,
    check_register-lt p pc (operand_a code) "table",
    operand-InBounds p pc (operand_b code) "table key",
    operand-InBounds p pc (operand_c code) "table value",
  )

  pub get_field-Safe : verify_get_field p roles pc code ≡ ok tt → Safe op_get_field
  unfolding verify_get_field accesses
  get_field-Safe h = ground (
    arith,
    check_registers-lt p pc (operand_a code) (operand_b code),
    string_operand-lt p pc (operand_c code) "field key",
  )

  pub set_field-Safe : verify_set_field p roles pc code ≡ ok tt → Safe op_set_field
  unfolding verify_set_field accesses
  set_field-Safe h = ground (
    arith,
    check_register-lt p pc (operand_a code) "table",
    string_operand-lt p pc (operand_b code) "field key",
    operand-InBounds p pc (operand_c code) "table value",
  )

  pub new_table-Safe : verify_new_table p roles pc code ≡ ok tt → Safe op_new_table
  unfolding verify_new_table accesses
  new_table-Safe h = ground (arith, check_register-lt p pc (operand_a code) "destination")

  pub self-Safe : verify_self p roles pc code ≡ ok tt → Safe op_self
  unfolding verify_self accesses
  self-Safe h = ground (
    arith,
    check_register_range-le p pc (operand_a code) 2 "SELF result",
    check_register-lt p pc (operand_b code) "receiver",
    operand-InBounds p pc (operand_c code) "method key",
  )

  pub self_field-Safe : verify_self_field p roles pc code ≡ ok tt → Safe op_self_field
  unfolding verify_self_field accesses
  self_field-Safe h = ground (
    arith,
    check_register_range-le p pc (operand_a code) 2 "SELFFIELD result",
    check_register-lt p pc (operand_b code) "receiver",
    string_operand-lt p pc (operand_c code) "method key",
  )

  pub arithmetic-Safe : verify_arithmetic p roles pc code ≡ ok tt → Safe op_add
  unfolding verify_arithmetic accesses arithmetic_accesses
  arithmetic-Safe h = ground (
    arith,
    check_register-lt p pc (operand_a code) "destination",
    operand-InBounds p pc (operand_b code) "left operand",
    operand-InBounds p pc (operand_c code) "right operand",
  )

  pub close-Safe : verify_close p roles pc code ≡ ok tt → Safe op_close
  unfolding verify_close accesses
  close-Safe h = ground (arith, check_register-lt p pc (operand_a code) "close base")
