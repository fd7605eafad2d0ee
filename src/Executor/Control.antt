-- ===== src/Executor/Control.antt =====
-- Control stays on the instructions of a verified prototype.
use lunar.Base.{ℕ, ◌+◌, ◌≡◌, some, List, [], ◌∷◌, arith, get_elem?, All}
use lunar.Base.Int.{pos}
use lunar.Opcode.{
  Opcode, op_jump, op_load_bool, op_equal, op_less_than, op_less_equal, op_test, op_test_set,
  op_return, op_for_loop, op_for_prep, op_iterator_loop, op_set_list, op_closure, opcode,
  operand_bx,
}
use lunar.Verify.Prototype.{Prototype, ok, Role, word}
use lunar.Verify.Checks.{check_test_follower}
use lunar.Verify.Words.{after_instruction}
use lunar.Verify.Instructions.{
  verify_instruction, verify_operation, verify_load_bool, verify_jump, verify_comparison,
  verify_test, verify_test_set, verify_for_loop, verify_for_prep, verify_iterator_loop,
  verify_set_list, verify_closure, relative_target, child_upvalues,
}
use lunar.Executor.{successors}
use lunar.Executor.Bounds.{
  IsInstruction, IsTarget, check_fallthrough-IsInstruction, check_control_target-IsTarget,
  check_test_follower-lem,
}
use lunar.Executor.Verified.{Verified, next-IsInstruction}

module _ (p : Prototype) (roles : List Role) (v : Verified p roles) where
  -- The check of an instruction whose operation is known.
  pub operation-checked :
      (pc : ℕ) (op : Opcode)
      → IsInstruction p roles pc
      → opcode (word p pc) ≡ some op
      → verify_operation p roles pc (word p pc) (some op) ≡ ok tt
  unfolding verify_instruction
  operation-checked pc op (lt, x) e = rw e at (v.each pc x)

  jump-IsTarget :
      (pc : ℕ)
      → IsInstruction p roles pc
      → opcode (word p pc) ≡ some op_jump
      → IsTarget p roles (relative_target pc (word p pc))
  unfolding verify_operation verify_jump
  jump-IsTarget pc at e = ground (
    arith,
    operation-checked pc op_jump at e,
    check_control_target-IsTarget p roles pc (relative_target pc (word p pc)) "JMP",
  )

  -- Both ways of a test are instructions.
  test-IsTarget :
      (pc : ℕ)
      → check_test_follower p roles pc ≡ ok tt
      → All (IsTarget p roles) (pos (pc + 2) ∷ relative_target (pc + 1) (word p (pc + 1)) ∷ [])
  test-IsTarget pc h =
      let (follower, jump, skip) = check_test_follower-lem p roles pc h in
      (skip, (jump-IsTarget (pc + 1) follower jump, tt))

  -- Wherever the executor may go on from an instruction, there is an instruction.
  pub successors-IsTarget :
      (pc : ℕ) (op : Opcode)
      → IsInstruction p roles pc
      → opcode (word p pc) ≡ some op
      → All (IsTarget p roles) (successors p pc (word p pc) op)
  unfolding successors after_instruction verify_operation verify_load_bool verify_comparison
      verify_test verify_test_set verify_for_loop verify_for_prep verify_iterator_loop
      verify_set_list verify_closure
  successors-IsTarget pc op_load_bool at e = ground (
    arith,
    operation-checked pc op_load_bool at e,
    check_fallthrough-IsInstruction p roles pc (pc + 1),
    check_control_target-IsTarget p roles pc (pos (pc + 2)) "LOADBOOL skip",
  )
  successors-IsTarget pc op_jump at e = (jump-IsTarget pc at e, tt)
  successors-IsTarget pc op_equal at e =
      test-IsTarget pc (ground (arith, operation-checked pc op_equal at e))
  successors-IsTarget pc op_less_than at e =
      test-IsTarget pc (ground (arith, operation-checked pc op_less_than at e))
  successors-IsTarget pc op_less_equal at e =
      test-IsTarget pc (ground (arith, operation-checked pc op_less_equal at e))
  successors-IsTarget pc op_test at e =
      test-IsTarget pc (ground (arith, operation-checked pc op_test at e))
  successors-IsTarget pc op_test_set at e =
      test-IsTarget pc (ground (arith, operation-checked pc op_test_set at e))
  successors-IsTarget pc op_iterator_loop at e =
      test-IsTarget pc (ground (arith, operation-checked pc op_iterator_loop at e))
  successors-IsTarget pc op_return at e = tt
  successors-IsTarget pc op_for_loop at e = (
    ground (
      arith,
      operation-checked pc op_for_loop at e,
      check_fallthrough-IsInstruction p roles pc (pc + 1),
    ),
    (
      ground (
        arith,
        operation-checked pc op_for_loop at e,
        check_control_target-IsTarget p roles pc (relative_target pc (word p pc)) "FORLOOP",
      ),
      tt,
    ),
  )
  successors-IsTarget pc op_for_prep at e = (
    ground (
      arith,
      operation-checked pc op_for_prep at e,
      check_control_target-IsTarget p roles pc (relative_target pc (word p pc)) "FORPREP",
    ),
    tt,
  )
  successors-IsTarget pc op_set_list at e = ground (
    arith,
    operation-checked pc op_set_list at e,
    check_fallthrough-IsInstruction p roles pc (pc + 1),
    check_fallthrough-IsInstruction p roles pc (pc + 2),
  )
  successors-IsTarget pc op_closure at e = (
    ground (
      arith,
      operation-checked pc op_closure at e,
      check_fallthrough-IsInstruction p roles pc
          (pc + 1 + child_upvalues (get_elem? p.children (operand_bx (word p pc)))),
    ),
    tt,
  )
  successors-IsTarget pc _ at e = (next-IsInstruction p roles v pc at (rw e) (rw e), tt)
