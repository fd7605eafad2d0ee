-- ===== src/Verify/Words.antt =====
-- verify.go: `classifyPrototypeWords`, which tells instructions from the words that only describe
-- the instruction before them.
use lunar.Base.{
  ℕ, zero, suc, ◌+◌, ◌-◌, ◌*◌, Option, none, some, List, [], ◌∷◌, ltb, leb, ◌==◌, if◌then◌else◌,
  length, get_elem?,
}
use lunar.Opcode.{
  Opcode, op_move, op_get_upvalue, op_set_list, op_closure, opcode, opcode_number, operand_a,
  operand_b, operand_c, operand_bx,
}
use lunar.Verify.Prototype.{
  Prototype, Child, Result, ok, ◌>>=◌, ◌>>◌, Check, pass, reject, word, Role, executable,
  set_list_extra, closure_binding, unknown_opcode, missing_block_number, block_number_zero,
  set_list_index, closure_child_out_of_range, closure_child_missing, missing_binding,
  captured_upvalue, binding_operation,
}
use lunar.Verify.Checks.{check_zero, check_register, check_registers}

abbrev pub max_set_list_index : ℕ
max_set_list_index = 0x7fff_ffff

abbrev pub fields_per_flush : ℕ
fields_per_flush = 50

abbrev pub binding_source : Prototype → ℕ → ℕ → Option Opcode → Check
binding_source p pc code (some op_move) = check_registers p pc (operand_a code) (operand_b code)
binding_source p pc code (some op_get_upvalue) =
    check_register p pc (operand_a code) "binding destination"
    >> (if leb p.upvalues (operand_b code)
        then reject pc (captured_upvalue (operand_b code))
        else pass)
binding_source p pc code _ = reject pc binding_operation

unfoldable pub verify_closure_binding : Prototype → ℕ → Check
verify_closure_binding p pc =
    check_zero pc (operand_c (word p pc)) "C"
    >> binding_source p pc (word p pc) (opcode (word p pc))

-- The last index that an extended SETLIST is known to write; an open count stands for one value.
unfoldable pub set_list_last_index : ℕ → ℕ → ℕ
set_list_last_index block count = (block - 1) * fields_per_flush + (if count == 0 then 1 else count)

-- What the loop expects of the word at its `pc`: an instruction; the block number of the SETLIST
-- before it; or an upvalue binding of the CLOSURE at the first number, where the second counts the
-- bindings before this one and the third those after it.
pub data Awaiting : Type 0 where
  instruction block_number : Awaiting
  binding : ℕ → ℕ → ℕ → Awaiting

abbrev pub bindings_of : ℕ → ℕ → Awaiting
bindings_of pc zero = instruction
bindings_of pc (suc left) = binding pc 0 left

abbrev pub next_binding : ℕ → ℕ → ℕ → Awaiting
next_binding pc index zero = instruction
next_binding pc index (suc left) = binding pc (suc index) left

abbrev pub closure_child : Prototype → ℕ → ℕ → Option (Option Child) → Result Awaiting
closure_child p pc index none = reject pc (closure_child_out_of_range index)
closure_child p pc index (some none) = reject pc closure_child_missing
closure_child p pc index (some (some child)) = ok (bindings_of pc child.upvalues)

-- The `switch` on the operation of an instruction.
abbrev pub after_operation : Prototype → ℕ → ℕ → Option Opcode → Result Awaiting
after_operation p pc code none = reject pc (unknown_opcode (opcode_number code))
after_operation p pc code (some op_set_list) =
    ok (if operand_c code == 0 then block_number else instruction)
after_operation p pc code (some op_closure) =
    closure_child p pc (operand_bx code) (get_elem? p.children (operand_bx code))
after_operation p pc code (some _) = ok instruction

unfoldable pub after_instruction : Prototype → ℕ → Result Awaiting
after_instruction p pc = after_operation p pc (word p pc) (opcode (word p pc))

-- The block number at `pc`, of the SETLIST before it.
unfoldable pub check_block_number : Prototype → ℕ → Check
unfolding set_list_last_index
check_block_number p pc =
    if word p pc == 0
    then reject pc block_number_zero
    else if ltb max_set_list_index (set_list_last_index (word p pc) (operand_b (word p (pc - 1))))
    then reject pc (set_list_index (set_list_last_index (word p pc) (operand_b (word p (pc - 1)))))
    else pass

-- The end of the code, where a SETLIST or CLOSURE still misses its words.
abbrev at_end : ℕ → Awaiting → Result (List Role)
at_end pc instruction = ok []
at_end pc block_number = reject (pc - 1) missing_block_number
at_end pc (binding closure index left) = reject closure (missing_binding index)

-- The loop, over the number of words left from `pc` on; the roles of those words.
unfoldable pub classify : Prototype → ℕ → ℕ → Awaiting → Result (List Role)
classify p zero pc awaiting = at_end pc awaiting
classify p (suc left) pc instruction = after_instruction p pc >>= λ awaiting.
    classify p left (pc + 1) awaiting >>= λ roles. ok (executable ∷ roles)
classify p (suc left) pc block_number =
    check_block_number p pc
    >> (classify p left (pc + 1) instruction >>= λ roles. ok (set_list_extra ∷ roles))
classify p (suc left) pc (binding closure index more) =
    verify_closure_binding p pc
    >> (classify p left (pc + 1) (next_binding closure index more) >>= λ roles.
        ok (closure_binding ∷ roles))

unfoldable pub classify_words : Prototype → Result (List Role)
classify_words p = classify p (length p.code) 0 instruction
