-- ===== src/Executor.antt =====
-- execute.go, execute_table.go, execute_numeric.go and execute_continuation.go: which registers,
-- constants, upvalues, children and code words the executor touches at an instruction without a
-- bounds check of its own, and where control may go on in the same frame. What the values are, and
-- so which of several ways is taken, is left open: the model lists all of them.
pub mod Bounds
pub mod Verified
pub mod Control
pub mod Safety
pub mod Pairs
mod Tests
use lunar.Base.{
  ℕ, zero, suc, ◌+◌, ◌-◌, Bool, true, false, Option, none, some, List, [], ◌∷◌, ◌++◌, ◌≡◌, ◌⊎◌, leb,
  ◌==◌, if◌then◌else◌, get_elem?,
}
use lunar.Base.Int.{ℤ, pos}
use lunar.Opcode.{
  Opcode, op_move, op_load_k, op_load_bool, op_load_nil, op_get_upvalue, op_get_global,
  op_get_table, op_set_global, op_set_upvalue, op_set_table, op_new_table, op_self, op_add, op_sub,
  op_mul, op_div, op_mod, op_pow, op_unary_minus, op_not, op_length, op_concat, op_jump, op_equal,
  op_less_than, op_less_equal, op_test, op_test_set, op_call, op_tail_call, op_return, op_for_loop,
  op_for_prep, op_iterator_loop, op_set_list, op_close, op_closure, op_vararg, op_get_field,
  op_set_field, op_self_field, opcode, operand_a, operand_b, operand_c, operand_bx, operand_sbx,
  is_constant_operand, constant_index,
}
use lunar.Verify.Prototype.{Prototype, word}
use lunar.Verify.Instructions.{relative_target, child_upvalues}

-- A register is counted from the base of the frame.
pub data Access : Type 0 where
  register constant upvalue child code_word : ℕ → Access

abbrev pub registers_from : ℕ → ℕ → List Access
registers_from first zero = []
registers_from first (suc count) = register first ∷ registers_from (suc first) count

-- `operandSlotUnchecked`.
unfoldable pub operand_access : ℕ → Access
operand_access operand =
    if is_constant_operand operand then constant (constant_index operand) else register operand

-- `installClosure`: the binding words, and the register or upvalue that each captures.
unfoldable pub binding_access : Option Opcode → ℕ → Access
binding_access (some op_move) code = register (operand_b code)
binding_access _ code = upvalue (operand_b code)

unfoldable pub binding_accesses : Prototype → ℕ → ℕ → List Access
binding_accesses p pc zero = []
binding_accesses p pc (suc left) =
    code_word pc
    ∷ binding_access (opcode (word p pc)) (word p pc)
    ∷ binding_accesses p (pc + 1) left

module _ (p : Prototype) (pc : ℕ) (code : ℕ) where
  abbrev at_a : Access
  at_a = register (operand_a code)

  abbrev at_b : Access
  at_b = register (operand_b code)

  -- A test reads the jump behind it.
  abbrev follower : Access
  follower = code_word (pc + 1)

  -- The compact dispatch of `runInstructions`.
  unfoldable pub arithmetic_accesses : List Access
  arithmetic_accesses =
      operand_access (operand_b code) ∷ operand_access (operand_c code) ∷ at_a ∷ []

  unfoldable pub comparison_accesses : List Access
  comparison_accesses =
      operand_access (operand_b code) ∷ operand_access (operand_c code) ∷ follower ∷ []

  -- CALL: the callable with its fixed arguments, and the window of its fixed results.
  unfoldable pub call_accesses : List Access
  call_accesses =
      at_a ∷ registers_from (operand_a code) (operand_b code)
      ++ registers_from (operand_a code) (operand_c code - 1)

  -- `startIteratorCall` and `resumeIteratorContinuation`: the generator, state and control, their
  -- copies, the results, and the jump behind.
  unfoldable pub iterator_accesses : List Access
  iterator_accesses =
      follower ∷ registers_from (operand_a code) 6
      ++ registers_from (operand_a code + 3) (operand_c code)

  -- `executeSetList`: the table, the fixed values, and the extended block number.
  unfoldable pub set_list_accesses : List Access
  set_list_accesses =
      at_a ∷ registers_from (operand_a code + 1) (operand_b code)
      ++ (if operand_c code == 0 then code_word (pc + 1) ∷ [] else [])

  unfoldable pub closure_accesses : List Access
  closure_accesses =
      at_a
      ∷ child (operand_bx code)
      ∷ binding_accesses p (pc + 1) (child_upvalues (get_elem? p.children (operand_bx code)))

  unfoldable pub accesses : Opcode → List Access
  accesses op_move = at_b ∷ at_a ∷ []
  accesses op_load_k = constant (operand_bx code) ∷ at_a ∷ []
  accesses op_load_bool = at_a ∷ []
  accesses op_load_nil = registers_from (operand_a code) (operand_b code + 1 - operand_a code)
  accesses op_get_upvalue = upvalue (operand_b code) ∷ at_a ∷ []
  accesses op_get_global = constant (operand_bx code) ∷ at_a ∷ []
  accesses op_get_table = at_b ∷ operand_access (operand_c code) ∷ at_a ∷ []
  accesses op_set_global = constant (operand_bx code) ∷ at_a ∷ []
  accesses op_set_upvalue = upvalue (operand_b code) ∷ at_a ∷ []
  accesses op_set_table =
      at_a ∷ operand_access (operand_b code) ∷ operand_access (operand_c code) ∷ []
  accesses op_new_table = at_a ∷ []
  accesses op_self =
      at_b ∷ register (operand_a code + 1) ∷ operand_access (operand_c code) ∷ at_a ∷ []
  accesses op_add = arithmetic_accesses
  accesses op_sub = arithmetic_accesses
  accesses op_mul = arithmetic_accesses
  accesses op_div = arithmetic_accesses
  accesses op_mod = arithmetic_accesses
  accesses op_pow = arithmetic_accesses
  accesses op_unary_minus = at_b ∷ at_a ∷ []
  accesses op_not = at_b ∷ at_a ∷ []
  accesses op_length = at_b ∷ at_a ∷ []
  accesses op_concat = at_a ∷ registers_from (operand_b code) (operand_c code + 1 - operand_b code)
  accesses op_jump = []
  accesses op_equal = comparison_accesses
  accesses op_less_than = comparison_accesses
  accesses op_less_equal = comparison_accesses
  accesses op_test = at_a ∷ follower ∷ []
  accesses op_test_set = at_b ∷ at_a ∷ follower ∷ []
  accesses op_call = call_accesses
  accesses op_tail_call = at_a ∷ registers_from (operand_a code) (operand_b code)
  accesses op_return = at_a ∷ registers_from (operand_a code) (operand_b code - 1)
  accesses op_for_loop = registers_from (operand_a code) 4
  accesses op_for_prep = registers_from (operand_a code) 3
  accesses op_iterator_loop = iterator_accesses
  accesses op_set_list = set_list_accesses
  accesses op_close = at_a ∷ []
  accesses op_closure = closure_accesses
  accesses op_vararg = at_a ∷ registers_from (operand_a code) (operand_b code - 1)
  accesses op_get_field = at_b ∷ constant (constant_index (operand_c code)) ∷ at_a ∷ []
  accesses op_set_field =
      at_a ∷ constant (constant_index (operand_b code)) ∷ operand_access (operand_c code) ∷ []
  accesses op_self_field =
      at_b ∷ register (operand_a code + 1) ∷ constant (constant_index (operand_c code)) ∷ at_a ∷ []

  -- After a test: over the jump, or along it.
  abbrev test_successors : List ℤ
  test_successors = pos (pc + 2) ∷ relative_target (pc + 1) (word p (pc + 1)) ∷ []

  -- The places in the same frame at which the executor may read its next instruction. A tail call of
  -- a native function comes back behind the call.
  unfoldable pub successors : Opcode → List ℤ
  successors op_load_bool = (if operand_c code == 0 then pos (pc + 1) else pos (pc + 2)) ∷ []
  successors op_jump = relative_target pc code ∷ []
  successors op_equal = test_successors
  successors op_less_than = test_successors
  successors op_less_equal = test_successors
  successors op_test = test_successors
  successors op_test_set = test_successors
  successors op_iterator_loop = test_successors
  successors op_return = []
  successors op_for_loop = pos (pc + 1) ∷ relative_target pc code ∷ []
  successors op_for_prep = relative_target pc code ∷ []
  successors op_set_list = (if operand_c code == 0 then pos (pc + 2) else pos (pc + 1)) ∷ []
  successors op_closure =
      pos (pc + 1 + child_upvalues (get_elem? p.children (operand_bx code))) ∷ []
  successors _ = pos (pc + 1) ∷ []

abbrev pub Elem : ℤ → List ℤ → Type 0
Elem x [] = ⊥
Elem x (y ∷ ys) = (x ≡ y) ⊎ Elem x ys

-- One instruction, and then the frame goes on at one of its successors.
pub data Step (p : Prototype) (pc : ℕ) (next : ℕ) : Type 0 where
  step :
      (op : Opcode)
      → opcode (word p pc) ≡ some op
      → Elem (pos next) (successors p pc (word p pc) op)
      → Step p pc next

-- Where a frame that enters at the first word may come to.
pub data Reach (p : Prototype) : ℕ → Type 0 where
  entry : Reach p 0
  advance : {pc next : ℕ} → Reach p pc → Step p pc next → Reach p next
