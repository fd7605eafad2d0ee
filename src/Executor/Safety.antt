-- ===== src/Executor/Safety.antt =====
-- No run of a verified prototype leaves its tables: the claim on which the executor's unchecked
-- reads and writes rest.
use lunar.Base.{
  ℕ, ◌+◌, ◌<◌, ◌≡◌, refl, sym, ◌∙◌, Option, none, some, List, [], ◌∷◌, arith, length, get_elem?,
  All, inl, inr,
}
use lunar.Base.Int.{ℤ, pos, negsuc}
use lunar.Opcode.{Opcode, op_closure, opcode, operand_bx}
use lunar.Verify.Prototype.{Prototype, Child, ok, Role, executable, word}
use lunar.Verify.Words.{
  Awaiting, bindings_of, after_instruction, closure_child, classify_words, verify_closure_binding,
}
use lunar.Verify.Instructions.{verify_instruction, verify_operation, child_upvalues}
use lunar.Verify.Flow.{verify_prototype}
use lunar.Verify.Roles.{ok-injective, closure_bindings, instruction_awaits}
use lunar.Executor.{accesses, successors, Elem, step, Reach, entry, advance}
use lunar.Executor.Bounds.{InBounds, IsInstruction, IsTarget}
use lunar.Executor.Bounds.Plain
use lunar.Executor.Bounds.Windows
use lunar.Executor.Bounds.Closure.{closure-Safe}
use lunar.Executor.Verified.{Verified, verify_prototype-Verified, entry-IsInstruction}
use lunar.Executor.Control.{operation-checked, successors-IsTarget}

-- A place inside the code.
abbrev pub IsInside : Prototype → ℤ → Type 0
IsInside p (pos target) = target < length p.code
IsInside p (negsuc n) = ⊥

-- A CLOSURE that the classification accepted has a child, and awaits its bindings.
closure_awaits :
    (p : Prototype) (pc index : ℕ) (child : Option (Option Child)) (awaiting : Awaiting)
    → closure_child p pc index child ≡ ok awaiting
    → closure_child p pc index child ≡ ok (bindings_of pc (child_upvalues child))
closure_awaits p pc index none awaiting h = cc
closure_awaits p pc index (some none) awaiting h = cc
closure_awaits p pc index (some (some child)) awaiting h = refl

operation_known :
    (p : Prototype) (roles : List Role) (pc code : ℕ) (op : Option Opcode)
    → verify_operation p roles pc code op ≡ ok tt
    → (known : Opcode) × (op ≡ some known)
unfolding verify_operation
operation_known p roles pc code none h = cc
operation_known p roles pc code (some op) h = (op, refl)

known_operation :
    (p : Prototype) (roles : List Role) (pc : ℕ)
    → verify_instruction p roles pc ≡ ok tt
    → (op : Opcode) × (opcode (word p pc) ≡ some op)
unfolding verify_instruction
known_operation p roles pc h = operation_known p roles pc (word p pc) (opcode (word p pc)) h

IsTarget-IsInside :
    (p : Prototype) (roles : List Role) (targets : List ℤ)
    → All (IsTarget p roles) targets
    → All (IsInside p) targets
IsTarget-IsInside p roles [] h = tt
IsTarget-IsInside p roles (pos t ∷ targets) (h, rest) =
    (h.0, IsTarget-IsInside p roles targets rest)
IsTarget-IsInside p roles (negsuc n ∷ targets) (h, rest) = absurd h

target_of :
    (p : Prototype) (roles : List Role) (next : ℕ) (targets : List ℤ)
    → All (IsTarget p roles) targets
    → Elem (pos next) targets
    → IsInstruction p roles next
target_of p roles next [] h m = absurd m
target_of p roles next (t ∷ targets) (h, rest) (inl e) = rw (← e) at h
target_of p roles next (t ∷ targets) (h, rest) (inr m) = target_of p roles next targets rest m

module _ (p : Prototype) (roles : List Role) (v : Verified p roles) where
  after_closure :
      (pc : ℕ)
      → IsInstruction p roles pc
      → opcode (word p pc) ≡ some op_closure
      → after_instruction p pc
        ≡ ok (bindings_of pc (child_upvalues (get_elem? p.children (operand_bx (word p pc)))))
  unfolding after_instruction
  after_closure pc (lt, x) e =
      let (awaiting, a) = instruction_awaits pc pc v.classified (omega arith) x in
      rw e
        (closure_awaits p pc _ (get_elem? p.children (operand_bx (word p pc))) awaiting (rw e at a))

  closure_checked :
      (pc : ℕ)
      → IsInstruction p roles pc
      → opcode (word p pc) ≡ some op_closure
      → (k : ℕ) → k < child_upvalues (get_elem? p.children (operand_bx (word p pc)))
      → verify_closure_binding p (pc + 1 + k) ≡ ok tt
  closure_checked pc (lt, x) e k h =
      closure_bindings pc pc _ k v.classified (omega arith) x (after_closure pc (lt, x) e) h

  -- Whatever the executor touches at an instruction lies inside the prototype's tables.
  pub accesses-InBounds :
      (pc : ℕ) (op : Opcode)
      → IsInstruction p roles pc
      → opcode (word p pc) ≡ some op
      → All (InBounds p) (accesses p pc (word p pc) op)
  unfolding accesses verify_operation
  accesses-InBounds pc Opcode.op_move at e =
      Plain.move-Safe p roles pc (word p pc) (operation-checked p roles v pc Opcode.op_move at e)
  accesses-InBounds pc Opcode.op_load_k at e =
      Plain.load_k-Safe p roles pc (word p pc)
        (operation-checked p roles v pc Opcode.op_load_k at e)
  accesses-InBounds pc Opcode.op_load_bool at e =
      Plain.load_bool-Safe p roles pc (word p pc)
        (operation-checked p roles v pc Opcode.op_load_bool at e)
  accesses-InBounds pc Opcode.op_get_upvalue at e =
      Plain.get_upvalue-Safe p roles pc (word p pc)
        (operation-checked p roles v pc Opcode.op_get_upvalue at e)
  accesses-InBounds pc Opcode.op_get_global at e =
      Plain.get_global-Safe p roles pc (word p pc)
        (operation-checked p roles v pc Opcode.op_get_global at e)
  accesses-InBounds pc Opcode.op_get_table at e =
      Plain.get_table-Safe p roles pc (word p pc)
        (operation-checked p roles v pc Opcode.op_get_table at e)
  accesses-InBounds pc Opcode.op_set_global at e =
      Plain.set_global-Safe p roles pc (word p pc)
        (operation-checked p roles v pc Opcode.op_set_global at e)
  accesses-InBounds pc Opcode.op_set_upvalue at e =
      Plain.set_upvalue-Safe p roles pc (word p pc)
        (operation-checked p roles v pc Opcode.op_set_upvalue at e)
  accesses-InBounds pc Opcode.op_set_table at e =
      Plain.set_table-Safe p roles pc (word p pc)
        (operation-checked p roles v pc Opcode.op_set_table at e)
  accesses-InBounds pc Opcode.op_new_table at e =
      Plain.new_table-Safe p roles pc (word p pc)
        (operation-checked p roles v pc Opcode.op_new_table at e)
  accesses-InBounds pc Opcode.op_self at e =
      Plain.self-Safe p roles pc (word p pc) (operation-checked p roles v pc Opcode.op_self at e)
  accesses-InBounds pc Opcode.op_add at e =
      Plain.arithmetic-Safe p roles pc (word p pc)
        (operation-checked p roles v pc Opcode.op_add at e)
  accesses-InBounds pc Opcode.op_sub at e =
      Plain.arithmetic-Safe p roles pc (word p pc)
        (operation-checked p roles v pc Opcode.op_sub at e)
  accesses-InBounds pc Opcode.op_mul at e =
      Plain.arithmetic-Safe p roles pc (word p pc)
        (operation-checked p roles v pc Opcode.op_mul at e)
  accesses-InBounds pc Opcode.op_div at e =
      Plain.arithmetic-Safe p roles pc (word p pc)
        (operation-checked p roles v pc Opcode.op_div at e)
  accesses-InBounds pc Opcode.op_mod at e =
      Plain.arithmetic-Safe p roles pc (word p pc)
        (operation-checked p roles v pc Opcode.op_mod at e)
  accesses-InBounds pc Opcode.op_pow at e =
      Plain.arithmetic-Safe p roles pc (word p pc)
        (operation-checked p roles v pc Opcode.op_pow at e)
  accesses-InBounds pc Opcode.op_unary_minus at e =
      Plain.unary-Safe p roles pc (word p pc)
        (operation-checked p roles v pc Opcode.op_unary_minus at e)
  accesses-InBounds pc Opcode.op_not at e =
      Plain.unary-Safe p roles pc (word p pc) (operation-checked p roles v pc Opcode.op_not at e)
  accesses-InBounds pc Opcode.op_length at e =
      Plain.unary-Safe p roles pc (word p pc) (operation-checked p roles v pc Opcode.op_length at e)
  accesses-InBounds pc Opcode.op_close at e =
      Plain.close-Safe p roles pc (word p pc) (operation-checked p roles v pc Opcode.op_close at e)
  accesses-InBounds pc Opcode.op_get_field at e =
      Plain.get_field-Safe p roles pc (word p pc)
        (operation-checked p roles v pc Opcode.op_get_field at e)
  accesses-InBounds pc Opcode.op_set_field at e =
      Plain.set_field-Safe p roles pc (word p pc)
        (operation-checked p roles v pc Opcode.op_set_field at e)
  accesses-InBounds pc Opcode.op_self_field at e =
      Plain.self_field-Safe p roles pc (word p pc)
        (operation-checked p roles v pc Opcode.op_self_field at e)
  accesses-InBounds pc Opcode.op_load_nil at e =
      Windows.load_nil-Safe p roles pc (word p pc)
        (operation-checked p roles v pc Opcode.op_load_nil at e)
  accesses-InBounds pc Opcode.op_concat at e =
      Windows.concat-Safe p roles pc (word p pc)
        (operation-checked p roles v pc Opcode.op_concat at e)
  accesses-InBounds pc Opcode.op_equal at e =
      Windows.comparison-Safe p roles pc (word p pc)
        (operation-checked p roles v pc Opcode.op_equal at e)
  accesses-InBounds pc Opcode.op_less_than at e =
      Windows.comparison-Safe p roles pc (word p pc)
        (operation-checked p roles v pc Opcode.op_less_than at e)
  accesses-InBounds pc Opcode.op_less_equal at e =
      Windows.comparison-Safe p roles pc (word p pc)
        (operation-checked p roles v pc Opcode.op_less_equal at e)
  accesses-InBounds pc Opcode.op_test at e =
      Windows.test-Safe p roles pc (word p pc) (operation-checked p roles v pc Opcode.op_test at e)
  accesses-InBounds pc Opcode.op_test_set at e =
      Windows.test_set-Safe p roles pc (word p pc)
        (operation-checked p roles v pc Opcode.op_test_set at e)
  accesses-InBounds pc Opcode.op_call at e =
      Windows.call-Safe p roles pc (word p pc) (operation-checked p roles v pc Opcode.op_call at e)
  accesses-InBounds pc Opcode.op_tail_call at e =
      Windows.tail_call-Safe p roles pc (word p pc)
        (operation-checked p roles v pc Opcode.op_tail_call at e)
  accesses-InBounds pc Opcode.op_return at e =
      Windows.return-Safe p roles pc (word p pc)
        (operation-checked p roles v pc Opcode.op_return at e)
  accesses-InBounds pc Opcode.op_for_loop at e =
      Windows.for_loop-Safe p roles pc (word p pc)
        (operation-checked p roles v pc Opcode.op_for_loop at e)
  accesses-InBounds pc Opcode.op_for_prep at e =
      Windows.for_prep-Safe p roles pc (word p pc)
        (operation-checked p roles v pc Opcode.op_for_prep at e)
  accesses-InBounds pc Opcode.op_iterator_loop at e =
      Windows.iterator_loop-Safe p roles pc (word p pc)
        (operation-checked p roles v pc Opcode.op_iterator_loop at e)
  accesses-InBounds pc Opcode.op_set_list at e =
      Windows.set_list-Safe p roles pc (word p pc)
        (operation-checked p roles v pc Opcode.op_set_list at e)
  accesses-InBounds pc Opcode.op_vararg at e =
      Windows.vararg-Safe p roles pc (word p pc)
        (operation-checked p roles v pc Opcode.op_vararg at e)
  accesses-InBounds pc Opcode.op_jump at e = tt
  accesses-InBounds pc Opcode.op_closure at e =
      closure-Safe p roles pc (word p pc) (operation-checked p roles v pc Opcode.op_closure at e)
        (closure_checked pc at e)

  -- A run that enters at the first word only comes to instructions.
  pub Reach-IsInstruction : {pc : ℕ} → Reach p pc → IsInstruction p roles pc
  Reach-IsInstruction entry = entry-IsInstruction p roles v
  Reach-IsInstruction (advance {pc = at} {next = next} r (step op e m)) =
      let here = Reach-IsInstruction r in
      target_of p roles next (successors p at (word p at) op)
        (successors-IsTarget p roles v at op here e) m

-- A run of a prototype that passed verification stays inside the code: at every word that it comes
-- to stands a known operation, every register, constant, upvalue, child and code word that the
-- executor touches there exists, and so does every word at which it may go on.
pub execution_safe :
    (p : Prototype) (pc : ℕ)
    → verify_prototype p ≡ ok tt
    → Reach p pc
    → (pc < length p.code)
      × (op : Opcode) × (opcode (word p pc) ≡ some op)
      × All (InBounds p) (accesses p pc (word p pc) op)
      × All (IsInside p) (successors p pc (word p pc) op)
execution_safe p pc verified r =
    let (roles, v) = verify_prototype-Verified p verified in
    let at = Reach-IsInstruction p roles v r in
    let (op, e) = known_operation p roles pc (v.each pc at.1) in
    (
      at.0,
      op,
      e,
      accesses-InBounds p roles v pc op at e,
      IsTarget-IsInside p roles (successors p pc (word p pc) op)
          (successors-IsTarget p roles v pc op at e),
    )

-- A run of a verified prototype only comes to words that the classification marks as instructions:
-- no SETLIST block number and no CLOSURE binding is ever executed.
pub reached_executable :
    (p : Prototype) (roles : List Role) (pc : ℕ)
    → verify_prototype p ≡ ok tt
    → classify_words p ≡ ok roles
    → Reach p pc
    → get_elem? roles pc ≡ some executable
reached_executable p roles pc verified e r =
    let (known, v) = verify_prototype-Verified p verified in
    let same : known ≡ roles = ok-injective (sym v.answered ∙ e) in
    rw same at (Reach-IsInstruction p known v r).1
