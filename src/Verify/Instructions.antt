-- ===== src/Verify/Instructions.antt =====
-- verify.go: `verifyPrototypeInstruction`, one definition for each case of its `switch`. A case that
-- does not return in the source goes on to `checkFallthrough` at the next word.
use Prim.Native.Nat.{max}
use lunar.Base.{
  ℕ, zero, suc, ◌+◌, ◌-◌, ◌/◌, ◌%◌, Bool, true, false, ◌&&◌, not, Option, none, some, String, List,
  ltb, leb, ◌==◌, if◌then◌else◌, length, get_elem?,
}
use lunar.Base.Int.{ℤ, pos, negsuc, ◌+ℤ◌, eq_ℤ}
use lunar.Opcode.{
  Opcode, opcode, opcode_number, operand_a, operand_b, operand_c, operand_bx, operand_sbx,
}
use lunar.Verify.Prototype.{
  Prototype, Child, Check, ◌>>◌, pass, reject, require, word, Role, is_executable, is_for_loop,
  is_for_prep, load_bool_operands, load_nil_reversed, upvalue_out_of_range, table_hint,
  concat_registers, jump_operand, inversion_flag, test_operands, test_set_flag, tail_call_operand,
  return_operand, for_prep_unpaired, for_loop_unpaired, iterator_operands, close_operands,
  closure_child, vararg_in_fixed, vararg_needs_arg, vararg_operand, unknown_opcode,
}
use lunar.Verify.Checks.{
  check_register, check_registers, check_register_range, check_constant, check_register_or_constant,
  check_string_constant_operand, check_zero, check_control_target, check_fallthrough,
  check_test_follower,
}

-- `pc + 1 + sbx`.
abbrev pub relative_target : ℕ → ℕ → ℤ
relative_target pc code = pos (pc + 1) +ℤ operand_sbx code

abbrev pub is_vararg : ℕ → Bool
is_vararg flags = flags / 2 % 2 == 1

abbrev pub needs_arg : ℕ → Bool
needs_arg flags = flags / 4 % 2 == 1

-- The children's upvalue count, 0 where there is no such child.
abbrev pub child_upvalues : Option (Option Child) → ℕ
child_upvalues (some (some child)) = child.upvalues
child_upvalues (some none) = 0
child_upvalues none = 0

module _ (p : Prototype) (roles : List Role) (pc : ℕ) (code : ℕ) where
  abbrev fallthrough : Check
  fallthrough = check_fallthrough p roles pc (pc + 1)

  abbrev a_is : String → Check
  a_is purpose = check_register p pc (operand_a code) purpose

  abbrev a_and_b : Check
  a_and_b = check_registers p pc (operand_a code) (operand_b code)

  abbrev range_at_a : ℕ → String → Check
  range_at_a count purpose = check_register_range p pc (operand_a code) count purpose

  abbrev b_operand : String → Check
  b_operand purpose = check_register_or_constant p pc (operand_b code) purpose

  abbrev c_operand : String → Check
  c_operand purpose = check_register_or_constant p pc (operand_c code) purpose

  abbrev check_upvalue : Check
  check_upvalue =
      if leb p.upvalues (operand_b code)
      then reject pc (upvalue_out_of_range (operand_b code))
      else pass

  unfoldable pub verify_move : Check
  verify_move = a_and_b >> check_zero pc (operand_c code) "C"

  unfoldable pub verify_load_k : Check
  verify_load_k = a_is "destination" >> check_constant p pc (operand_bx code) false

  unfoldable pub verify_load_bool : Check
  verify_load_bool =
      a_is "destination"
      >> require (leb (operand_b code) 1 && leb (operand_c code) 1) pc load_bool_operands
      >> (if operand_c code == 0
          then fallthrough
          else check_control_target p roles pc (pos (pc + 2)) "LOADBOOL skip")

  unfoldable pub verify_load_nil : Check
  verify_load_nil = require (leb (operand_a code) (operand_b code)) pc load_nil_reversed >> a_and_b

  unfoldable pub verify_get_upvalue : Check
  verify_get_upvalue = a_is "destination" >> check_upvalue >> check_zero pc (operand_c code) "C"

  unfoldable pub verify_get_global : Check
  verify_get_global = a_is "destination" >> check_constant p pc (operand_bx code) true

  unfoldable pub verify_get_table : Check
  verify_get_table = a_and_b >> c_operand "table key"

  unfoldable pub verify_get_field : Check
  verify_get_field = a_and_b >> check_string_constant_operand p pc (operand_c code) "field key"

  unfoldable pub verify_set_global : Check
  verify_set_global = a_is "source" >> check_constant p pc (operand_bx code) true

  unfoldable pub verify_set_upvalue : Check
  verify_set_upvalue = a_is "source" >> check_upvalue >> check_zero pc (operand_c code) "C"

  unfoldable pub verify_set_table : Check
  verify_set_table = a_is "table" >> b_operand "table key" >> c_operand "table value"

  unfoldable pub verify_set_field : Check
  verify_set_field =
      a_is "table"
      >> check_string_constant_operand p pc (operand_b code) "field key"
      >> c_operand "table value"

  unfoldable pub verify_new_table : Check
  verify_new_table =
      a_is "destination"
      >> require (leb (operand_b code) 0xff && leb (operand_c code) 0xff) pc table_hint
      >> fallthrough

  unfoldable pub verify_self : Check
  verify_self =
      range_at_a 2 "SELF result"
      >> check_register p pc (operand_b code) "receiver"
      >> c_operand "method key"

  unfoldable pub verify_self_field : Check
  verify_self_field =
      range_at_a 2 "SELFFIELD result"
      >> check_register p pc (operand_b code) "receiver"
      >> check_string_constant_operand p pc (operand_c code) "method key"

  unfoldable pub verify_arithmetic : Check
  verify_arithmetic = a_is "destination" >> b_operand "left operand" >> c_operand "right operand"

  unfoldable pub verify_unary : Check
  verify_unary = a_and_b >> check_zero pc (operand_c code) "C"

  unfoldable pub verify_concat : Check
  verify_concat =
      a_is "destination"
      >> require (ltb (operand_b code) (operand_c code)) pc concat_registers
      >> check_registers p pc (operand_b code) (operand_c code)

  unfoldable pub verify_jump : Check
  verify_jump =
      require (operand_a code == 0) pc jump_operand
      >> check_control_target p roles pc (relative_target pc code) "JMP"

  unfoldable pub verify_comparison : Check
  verify_comparison =
      require (leb (operand_a code) 1) pc inversion_flag
      >> b_operand "left operand"
      >> c_operand "right operand"
      >> check_test_follower p roles pc

  unfoldable pub verify_test : Check
  verify_test =
      a_is "condition"
      >> require (operand_b code == 0 && leb (operand_c code) 1) pc test_operands
      >> check_test_follower p roles pc

  unfoldable pub verify_test_set : Check
  verify_test_set =
      a_and_b >> require (leb (operand_c code) 1) pc test_set_flag >> check_test_follower p roles pc

  unfoldable pub verify_call : Check
  verify_call =
      a_is "function"
      >> (if operand_b code == 0 then pass else range_at_a (operand_b code) "CALL arguments")
      >> (if leb (operand_c code) 1
          then fallthrough
          else range_at_a (operand_c code - 1) "CALL results")

  unfoldable pub verify_tail_call : Check
  verify_tail_call =
      a_is "function"
      >> require (operand_c code == 0) pc tail_call_operand
      >> (if operand_b code == 0 then pass else range_at_a (operand_b code) "TAILCALL arguments")

  unfoldable pub verify_return : Check
  verify_return =
      a_is "return base"
      >> require (operand_c code == 0) pc return_operand
      >> (if leb (operand_b code) 1 then pass else range_at_a (operand_b code - 1) "RETURN values")

  -- The test that FORPREP makes of the word at its target.
  abbrev pub paired_loop : ℤ → Bool
  paired_loop (negsuc _) = false
  paired_loop (pos target) =
      is_for_loop (opcode (word p target))
      && operand_a (word p target) == operand_a code
      && eq_ℤ (relative_target target (word p target)) (pos (pc + 1))

  unfoldable pub verify_for_prep : Check
  verify_for_prep =
      range_at_a 4 "FORPREP registers"
      >> check_control_target p roles pc (relative_target pc code) "FORPREP"
      >> require (paired_loop (relative_target pc code)) pc for_prep_unpaired

  -- The test that FORLOOP makes of the word before its target, where there is one.
  abbrev pub paired_preparation : ℤ → Bool
  paired_preparation (negsuc _) = false
  paired_preparation (pos zero) = false
  paired_preparation (pos (suc preparation)) =
      is_executable (get_elem? roles preparation)
      && is_for_prep (opcode (word p preparation))
      && operand_a (word p preparation) == operand_a code
      && eq_ℤ (relative_target preparation (word p preparation)) (pos pc)

  unfoldable pub verify_for_loop : Check
  verify_for_loop =
      range_at_a 4 "FORLOOP registers"
      >> check_control_target p roles pc (relative_target pc code) "FORLOOP"
      >> require (paired_preparation (relative_target pc code)) pc for_loop_unpaired
      >> fallthrough

  unfoldable pub verify_iterator_loop : Check
  verify_iterator_loop =
      require (operand_b code == 0 && ltb 0 (operand_c code)) pc iterator_operands
      >> range_at_a (3 + max (operand_c code) 3) "TFORLOOP registers"
      >> check_test_follower p roles pc

  unfoldable pub verify_set_list : Check
  verify_set_list =
      a_is "table"
      >> (if operand_b code == 0
          then pass
          else check_register_range p pc (operand_a code + 1) (operand_b code) "SETLIST values")
      >> check_fallthrough p roles pc (if operand_c code == 0 then pc + 2 else pc + 1)

  unfoldable pub verify_close : Check
  verify_close =
      a_is "close base"
      >> require (operand_b code == 0 && operand_c code == 0) pc close_operands
      >> fallthrough

  unfoldable pub verify_closure : Check
  verify_closure =
      a_is "destination"
      >> (if leb (length p.children) (operand_bx code) then reject pc closure_child else pass)
      >> check_fallthrough p roles pc
          (pc + 1 + child_upvalues (get_elem? p.children (operand_bx code)))

  unfoldable pub verify_vararg : Check
  verify_vararg =
      require (is_vararg p.vararg_flags) pc vararg_in_fixed
      >> require (not (needs_arg p.vararg_flags)) pc vararg_needs_arg
      >> a_is "result base"
      >> require (operand_c code == 0) pc vararg_operand
      >> (if leb (operand_b code) 1
          then fallthrough
          else range_at_a (operand_b code - 1) "VARARG results")

  -- The `switch` itself.
  unfoldable pub verify_operation : Option Opcode → Check
  verify_operation none = reject pc (unknown_opcode (opcode_number code))
  verify_operation (some Opcode.op_move) = verify_move
  verify_operation (some Opcode.op_load_k) = verify_load_k
  verify_operation (some Opcode.op_load_bool) = verify_load_bool
  verify_operation (some Opcode.op_load_nil) = verify_load_nil
  verify_operation (some Opcode.op_get_upvalue) = verify_get_upvalue
  verify_operation (some Opcode.op_get_global) = verify_get_global
  verify_operation (some Opcode.op_get_table) = verify_get_table
  verify_operation (some Opcode.op_set_global) = verify_set_global
  verify_operation (some Opcode.op_set_upvalue) = verify_set_upvalue
  verify_operation (some Opcode.op_set_table) = verify_set_table
  verify_operation (some Opcode.op_new_table) = verify_new_table
  verify_operation (some Opcode.op_self) = verify_self
  verify_operation (some Opcode.op_add) = verify_arithmetic
  verify_operation (some Opcode.op_sub) = verify_arithmetic
  verify_operation (some Opcode.op_mul) = verify_arithmetic
  verify_operation (some Opcode.op_div) = verify_arithmetic
  verify_operation (some Opcode.op_mod) = verify_arithmetic
  verify_operation (some Opcode.op_pow) = verify_arithmetic
  verify_operation (some Opcode.op_unary_minus) = verify_unary
  verify_operation (some Opcode.op_not) = verify_unary
  verify_operation (some Opcode.op_length) = verify_unary
  verify_operation (some Opcode.op_concat) = verify_concat
  verify_operation (some Opcode.op_jump) = verify_jump
  verify_operation (some Opcode.op_equal) = verify_comparison
  verify_operation (some Opcode.op_less_than) = verify_comparison
  verify_operation (some Opcode.op_less_equal) = verify_comparison
  verify_operation (some Opcode.op_test) = verify_test
  verify_operation (some Opcode.op_test_set) = verify_test_set
  verify_operation (some Opcode.op_call) = verify_call
  verify_operation (some Opcode.op_tail_call) = verify_tail_call
  verify_operation (some Opcode.op_return) = verify_return
  verify_operation (some Opcode.op_for_loop) = verify_for_loop
  verify_operation (some Opcode.op_for_prep) = verify_for_prep
  verify_operation (some Opcode.op_iterator_loop) = verify_iterator_loop
  verify_operation (some Opcode.op_set_list) = verify_set_list
  verify_operation (some Opcode.op_close) = verify_close
  verify_operation (some Opcode.op_closure) = verify_closure
  verify_operation (some Opcode.op_vararg) = verify_vararg
  verify_operation (some Opcode.op_get_field) = verify_get_field
  verify_operation (some Opcode.op_set_field) = verify_set_field
  verify_operation (some Opcode.op_self_field) = verify_self_field

unfoldable pub verify_instruction : Prototype → List Role → ℕ → Check
verify_instruction p roles pc = verify_operation p roles pc (word p pc) (opcode (word p pc))
