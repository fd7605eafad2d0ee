-- ===== src/Executor/Bounds/Closure.antt =====
-- CLOSURE: the child, and the binding words behind the instruction.
use lunar.Base.{
  ℕ, zero, suc, ◌+◌, ◌≤◌, ◌<◌, ◌≡◌, List, arith, All, Option, none, some, get_elem?, length,
}
use lunar.Opcode.{
  Opcode, op_move, op_get_upvalue, op_closure, opcode, operand_a, operand_b, operand_bx,
}
use lunar.Verify.Prototype.{Prototype, ok, Role, word}
use lunar.Verify.Checks.{check_fallthrough}
use lunar.Verify.Words.{verify_closure_binding, binding_source}
use lunar.Verify.Instructions.{verify_closure, child_upvalues}
use lunar.Executor.{accesses, closure_accesses, binding_access, binding_accesses}
use lunar.Executor.Bounds.{
  InBounds, check_register-lt, check_registers-lt, check_fallthrough-IsInstruction,
}

-- A checked binding names a register of the parent's frame or one of its upvalues.
binding_source-InBounds :
    (p : Prototype) (pc code : ℕ) (op : Option Opcode)
    → binding_source p pc code op ≡ ok tt
    → InBounds p (binding_access op code)
unfolding binding_access
binding_source-InBounds p pc code (some op_move) h =
    ground (arith, check_registers-lt p pc (operand_a code) (operand_b code))
binding_source-InBounds p pc code (some op_get_upvalue) h = ground arith
binding_source-InBounds p pc code none h = ground arith
binding_source-InBounds p pc code _ h = ground arith

binding-InBounds :
    (p : Prototype) (pc : ℕ)
    → verify_closure_binding p pc ≡ ok tt
    → InBounds p (binding_access (opcode (word p pc)) (word p pc))
unfolding verify_closure_binding
binding-InBounds p pc h =
    ground (arith, binding_source-InBounds p pc (word p pc) (opcode (word p pc)))

binding_accesses-InBounds :
    (p : Prototype) (count pc : ℕ)
    → ((k : ℕ) → k < count → verify_closure_binding p (pc + k) ≡ ok tt)
    → pc + count ≤ length p.code
    → All (InBounds p) (binding_accesses p pc count)
unfolding binding_accesses
binding_accesses-InBounds p zero pc checked h = tt
binding_accesses-InBounds p (suc count) pc checked h =
    let here : pc + 0 ≡ pc = omega arith in
    (
      omega arith,
      (
        binding-InBounds p pc (rw here at (checked 0 (omega arith))),
        binding_accesses-InBounds p count (pc + 1)
            (λ k lt.
              let there : pc + 1 + k ≡ pc + suc k = omega arith in
              rw there (checked (suc k) (omega arith)))
            (omega arith),
      ),
    )

module _ (p : Prototype) (roles : List Role) (pc : ℕ) (code : ℕ) where
  -- What `verifyPrototypeInstruction` adds to the bindings' own checks.
  pub closure-Safe :
      verify_closure p roles pc code ≡ ok tt
      → ((k : ℕ)
          → k < child_upvalues (get_elem? p.children (operand_bx code))
          → verify_closure_binding p (pc + 1 + k) ≡ ok tt)
      → All (InBounds p) (accesses p pc code op_closure)
  unfolding verify_closure accesses closure_accesses
  closure-Safe h checked = (
    ground (arith, check_register-lt p pc (operand_a code) "destination"),
    (
      ground arith,
      binding_accesses-InBounds p (child_upvalues (get_elem? p.children (operand_bx code))) (pc + 1)
          checked (ground (arith, fits)),
    ),
  )
    where
      fits :
          check_fallthrough p roles pc
              (pc + 1 + child_upvalues (get_elem? p.children (operand_bx code)))
            ≡ ok tt
          → pc + 1 + child_upvalues (get_elem? p.children (operand_bx code)) < length p.code
      fits e = (check_fallthrough-IsInstruction p roles pc _ e).0
