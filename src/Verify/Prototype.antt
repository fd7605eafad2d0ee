-- ===== src/Verify/Prototype.antt =====
-- prototype.go: the sealed prototype, and the errors that verification answers with.
use lunar.Base.{ℕ, Bool, true, false, Option, none, some, String, Text, List, get_or}
use lunar.Base.Int.{ℤ}
use lunar.Opcode.{Opcode}
use lunar.Slot.{Slot}

-- The messages of `syntaxError`, with their arguments. Their wording, and the source name that is
-- put in front of them, are not modelled.
pub data Problem : Type 0 where
  source_line_out_of_range ends_before_it_begins invalid_vararg_flags : Problem
  arg_without_vararg arg_undeclared parameters_exceed_frame : Problem
  register_count fixed_parameter_count upvalue_count : ℤ → Problem
  debug_line_count debug_upvalue_count : ℕ → Problem
  debug_line_out_of_range : Problem
  local_unnamed local_lifetime upvalue_unnamed : ℕ → Problem
  missing_prototype builder_consumed no_instructions not_ending_in_return : Problem
  constant_count child_count : ℕ → Problem
  bad_constant missing_child unsealed_child : ℕ → Problem
  unknown_opcode : ℕ → Problem
  missing_block_number block_number_zero : Problem
  set_list_index : ℕ → Problem
  closure_child_out_of_range : ℕ → Problem
  closure_child_missing : Problem
  missing_binding : ℕ → Problem
  captured_upvalue : ℕ → Problem
  binding_operation : Problem
  load_bool_operands load_nil_reversed : Problem
  upvalue_out_of_range : ℕ → Problem
  table_hint concat_registers jump_operand inversion_flag test_operands : Problem
  test_set_flag tail_call_operand return_operand for_prep_unpaired for_loop_unpaired : Problem
  iterator_operands close_operands closure_child : Problem
  vararg_in_fixed vararg_needs_arg vararg_operand : Problem
  open_results_unconsumed : Problem
  open_result_base : ℕ → ℕ → Problem
  register_outside : String → ℕ → Problem
  range_width : String → Problem
  range_outside : String → ℕ → ℕ → Problem
  not_a_constant : String → Problem
  constant_not_string : String → ℕ → Problem
  constant_out_of_range global_name_not_string : ℕ → Problem
  operand_nonzero : String → Problem
  no_jump_after_test falls_beyond enters_metadata : Problem
  target_outside : String → ℤ → Problem
  target_metadata : String → ℕ → Problem

-- `at` is the instruction, `none` where the source passes -1.
pub record SyntaxError : Type 0 where
  pub at : Option ℕ
  pub problem : Problem

pub data Result {ℓ} (A : Type ℓ) : Type ℓ where
  ok : A → Result A
  err : SyntaxError → Result A

infixl 5 ◌>>=◌ ◌>>◌
abbrev pub ◌>>=◌ {ℓ κ} :
    {Given : Type ℓ} {Wanted : Type κ} → Result Given → (Given → Result Wanted) → Result Wanted
err failure >>= next = err failure
ok value >>= next = next value

-- A check answers `nil` or an error.
abbrev pub Check : Type 0
Check = Result (Unit {0})

abbrev pub pass : Check
pass = ok tt

abbrev pub ◌>>◌ {ℓ} : {B : Type ℓ} → Check → Result B → Result B
ok _ >> k = k
err e >> k = err e

abbrev pub reject {ℓ} : {A : Type ℓ} → ℕ → Problem → Result A
reject pc p = err (record { at = some pc; problem = p })

abbrev pub refuse {ℓ} : {A : Type ℓ} → Problem → Result A
refuse p = err (record { at = none; problem = p })

abbrev pub require : Bool → ℕ → Problem → Check
require true pc p = pass
require false pc p = reject pc p

-- What a parent's verifier and executor read of a child prototype.
pub record Child : Type 0 where
  pub upvalues : ℕ
  pub sealed : Bool

pub record LocalInfo : Type 0 where
  pub name : Text
  pub start_pc : ℕ
  pub end_pc : ℕ

pub record Debug : Type 0 where
  pub lines : List ℕ
  pub locals : List LocalInfo
  pub upvalue_names : List Text

-- A missing child is the nil pointer. The sealed bit of `metadata` is read of children only: it
-- stands in `Child`, and `seal` answers it beside the prototype.
pub record Prototype : Type 0 where
  pub code : List ℕ
  pub constants : List Slot
  pub children : List (Option Child)
  pub debug : Option Debug
  pub line_defined : ℕ
  pub last_line : ℕ
  pub parameters : ℕ
  pub registers : ℕ
  pub upvalues : ℕ
  pub vararg_flags : ℕ

-- `prototype.code[pc]`. The source indexes only below the length, where the default is not reached.
abbrev pub word : Prototype → ℕ → ℕ
word p pc = get_or p.code pc 0

-- What a word means to the executor.
pub data Role : Type 0 where
  executable set_list_extra closure_binding : Role

abbrev pub is_executable : Option Role → Bool
is_executable (some executable) = true
is_executable (some set_list_extra) = false
is_executable (some closure_binding) = false
is_executable none = false

abbrev pub is_extra : Option Role → Bool
is_extra (some set_list_extra) = true
is_extra (some executable) = false
is_extra (some closure_binding) = false
is_extra none = false

abbrev pub is_jump : Option Opcode → Bool
is_jump (some Opcode.op_jump) = true
is_jump _ = false

abbrev pub is_return : Option Opcode → Bool
is_return (some Opcode.op_return) = true
is_return _ = false

abbrev pub is_for_loop : Option Opcode → Bool
is_for_loop (some Opcode.op_for_loop) = true
is_for_loop _ = false

abbrev pub is_for_prep : Option Opcode → Bool
is_for_prep (some Opcode.op_for_prep) = true
is_for_prep _ = false
