-- ===== src/Executor/Tests.antt =====
-- A small prototype: an empty numeric loop, and a call whose open results a RETURN passes on.
use lunar.Base.{
  ℕ, ◌+◌, ◌≤◌, ◌<◌, ◌≡◌, refl, inl, inr, true, some, none, List, [], ◌∷◌, length, All, get_elem?,
}
use lunar.Base.Int.{pos}
use lunar.Opcode.{Opcode, op_for_loop, op_for_prep, op_call, opcode, operand_a}
use lunar.Verify.Prototype.{Prototype, ok, Role, executable, word}
use lunar.Verify.Words.{classify_words}
use lunar.Verify.Instructions.{relative_target}
use lunar.Verify.Flow.{
  verify_prototype, is_open_result_producer, is_open_result_consumer, first_consumed,
}
use lunar.Executor.{accesses, successors, Step, step, Reach, entry, advance}
use lunar.Executor.Bounds.{InBounds}
use lunar.Executor.Safety.{IsInside, execution_safe, reached_executable}
use lunar.Executor.Pairs.{open_results_consumed, for_prep_paired}

-- FORPREP 0 to the FORLOOP behind it, FORLOOP 0 back, CALL 0 1 0, RETURN 0 0 and RETURN 0 1.
abbrev looping : Prototype
looping = record {
  code = 2147467296 ∷ 2147450911 ∷ 8388636 ∷ 30 ∷ 8388638 ∷ [];
  constants = [];
  children = [];
  debug = none;
  line_defined = 0;
  last_line = 0;
  parameters = 0;
  registers = 4;
  upvalues = 0;
  vararg_flags = 0;
}

abbrev all_executable : List Role
all_executable = executable ∷ executable ∷ executable ∷ executable ∷ executable ∷ []

looping-verified : verify_prototype looping ≡ ok tt
unfolding verify_prototype lunar.Verify.Flow.check_tables lunar.Verify.Flow.check_constants
    lunar.Verify.Flow.check_children lunar.Verify.Words.classify_words lunar.Verify.Words.classify
    lunar.Verify.Words.after_instruction lunar.Opcode.opcode lunar.Verify.Flow.verify_code
    lunar.Verify.Flow.ends_in_return lunar.Verify.Flow.for_executable
    lunar.Verify.Instructions.verify_instruction lunar.Verify.Instructions.verify_operation
    lunar.Verify.Checks.check_register_range lunar.Opcode.operand_a
    lunar.Verify.Instructions.verify_return lunar.Opcode.operand_b lunar.Opcode.operand_c
    lunar.Verify.Flow.verify_open_result_flow lunar.Verify.Flow.check_open_results
    lunar.Verify.Flow.is_open_result_producer lunar.Verify.Checks.check_register
    lunar.Verify.Checks.check_control_target lunar.Verify.Checks.check_fallthrough
    lunar.Verify.Instructions.verify_for_prep lunar.Verify.Instructions.verify_for_loop
    lunar.Verify.Instructions.verify_call lunar.Verify.Flow.is_open_result_consumer
    lunar.Verify.Flow.first_consumed lunar.Opcode.operand_sbx lunar.Opcode.operand_bx
    lunar.Base.Int.◌+ℤ◌
looping-verified = refl

looping-roles : classify_words looping ≡ ok all_executable
unfolding classify_words lunar.Verify.Words.classify lunar.Verify.Words.after_instruction opcode
looping-roles = refl

at_loop : Reach looping 1
unfolding successors opcode lunar.Base.Int.◌+ℤ◌ lunar.Opcode.operand_sbx
at_loop = advance entry (step op_for_prep refl (inl refl))

at_call : Reach looping 2
unfolding successors opcode lunar.Base.Int.◌+ℤ◌ lunar.Opcode.operand_sbx
at_call = advance at_loop (step op_for_loop refl (inl refl))

execution_safe_example :
    (2 < length looping.code)
    × (op : Opcode) × (opcode (word looping 2) ≡ some op)
    × All (InBounds looping) (accesses looping 2 (word looping 2) op)
    × All (IsInside looping) (successors looping 2 (word looping 2) op)
execution_safe_example = execution_safe looping 2 looping-verified at_call

reached_executable_example : get_elem? all_executable 2 ≡ some executable
reached_executable_example =
    reached_executable looping all_executable 2 looping-verified looping-roles at_call

call_open : is_open_result_producer (word looping 2) ≡ true
unfolding is_open_result_producer opcode lunar.Opcode.operand_c
call_open = refl

open_results_consumed_example :
    (2 + 1 < length looping.code)
    × (is_open_result_consumer (word looping (2 + 1)) ≡ true)
    × (first_consumed (word looping (2 + 1)) ≤ operand_a (word looping 2))
    × ((next : ℕ) → Step looping 2 next → next ≡ 2 + 1)
open_results_consumed_example = open_results_consumed looping 2 looping-verified at_call call_open

prep_word : opcode (word looping 0) ≡ some op_for_prep
unfolding opcode
prep_word = refl

for_prep_paired_example :
    (target : ℕ) × (relative_target 0 (word looping 0) ≡ pos target)
    × (opcode (word looping target) ≡ some op_for_loop)
    × (operand_a (word looping target) ≡ operand_a (word looping 0))
    × (relative_target target (word looping target) ≡ pos (0 + 1))
for_prep_paired_example = for_prep_paired looping 0 looping-verified entry prep_word
