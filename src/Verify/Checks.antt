-- ===== src/Verify/Checks.antt =====
-- verify.go: the operand and control-flow checks that the instructions share.
use lunar.Base.{
  ℕ, ◌+◌, ◌-◌, Bool, true, false, ◌&&◌, ◌||◌, none, some, String, List, ltb, leb, ◌==◌,
  if◌then◌else◌, length, get_elem?, not,
}
use lunar.Base.Int.{ℤ, pos, negsuc}
use lunar.Opcode.{opcode, is_constant_operand, constant_index}
use lunar.Slot.{Kind, string_kind, kind}
use lunar.Verify.Prototype.{
  Prototype, Check, Role, pass, reject, ◌>>◌, word, is_executable, is_jump, register_outside,
  range_width, range_outside, not_a_constant, constant_not_string, constant_out_of_range,
  global_name_not_string, operand_nonzero, no_jump_after_test, falls_beyond, enters_metadata,
  target_outside, target_metadata,
}

unfoldable pub check_register : Prototype → ℕ → ℕ → String → Check
check_register p pc register purpose =
    if ltb register p.registers then pass else reject pc (register_outside purpose register)

-- The variadic `checkRegisters`, called with two registers.
unfoldable pub check_registers : Prototype → ℕ → ℕ → ℕ → Check
unfolding check_register
check_registers p pc first second =
    check_register p pc first "operand" >> check_register p pc second "operand"

unfoldable pub check_register_range : Prototype → ℕ → ℕ → ℕ → String → Check
check_register_range p pc first count purpose =
    if count == 0
    then reject pc (range_width purpose)
    else if leb p.registers (first + count - 1)
    then reject pc (range_outside purpose first (first + count - 1))
    else pass

abbrev is_string_kind : Kind → Bool
is_string_kind string_kind = true
is_string_kind _ = false

-- `prototype.constants[index].kind() == StringKind`; read only below the length.
unfoldable pub constant_is_string : Prototype → ℕ → Bool
unfolding kind
constant_is_string p index = elim (get_elem? p.constants index) [
  | none ↦ false
  | some value ↦ is_string_kind (kind value)
]

unfoldable pub check_constant : Prototype → ℕ → ℕ → Bool → Check
check_constant p pc index require_string =
    if leb (length p.constants) index
    then reject pc (constant_out_of_range index)
    else if require_string && not (constant_is_string p index)
    then reject pc (global_name_not_string index)
    else pass

unfoldable pub check_register_or_constant : Prototype → ℕ → ℕ → String → Check
unfolding check_constant check_register is_constant_operand constant_index
check_register_or_constant p pc operand purpose =
    if is_constant_operand operand
    then check_constant p pc (constant_index operand) false
    else check_register p pc operand purpose

unfoldable pub check_string_constant_operand : Prototype → ℕ → ℕ → String → Check
unfolding check_constant is_constant_operand constant_index
check_string_constant_operand p pc operand purpose =
    if is_constant_operand operand
    then check_constant p pc (constant_index operand) false
      >> (if constant_is_string p (constant_index operand)
          then pass
          else reject pc (constant_not_string purpose (constant_index operand)))
    else reject pc (not_a_constant purpose)

unfoldable pub check_zero : ℕ → ℕ → String → Check
check_zero pc value operand = if value == 0 then pass else reject pc (operand_nonzero operand)

unfoldable pub check_control_target : Prototype → List Role → ℕ → ℤ → String → Check
check_control_target p roles pc (negsuc n) operation =
    reject pc (target_outside operation (negsuc n))
check_control_target p roles pc (pos target) operation =
    if leb (length p.code) target
    then reject pc (target_outside operation (pos target))
    else if is_executable (get_elem? roles target)
    then pass
    else reject pc (target_metadata operation target)

unfoldable pub check_fallthrough : Prototype → List Role → ℕ → ℕ → Check
check_fallthrough p roles pc target =
    if leb (length p.code) target
    then reject pc falls_beyond
    else if is_executable (get_elem? roles target)
    then pass
    else reject pc enters_metadata

unfoldable pub check_test_follower : Prototype → List Role → ℕ → Check
unfolding check_control_target opcode
check_test_follower p roles pc =
    if leb (length p.code) (pc + 1)
      || not (is_executable (get_elem? roles (pc + 1)))
      || not (is_jump (opcode (word p (pc + 1))))
    then reject pc no_jump_after_test
    else check_control_target p roles pc (pos (pc + 2)) "test skip"
