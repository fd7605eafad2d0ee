-- ===== src/Executor/Bounds/Windows.antt =====
-- The instructions that use a window of registers, or read the word behind them.
use Prim.Native.Nat.{max}
use lunar.Base.{
  ℕ, zero, suc, ◌+◌, ◌-◌, ◌≤◌, ◌<◌, ◌≡◌, List, arith, All, Bool-cases, inl, inr, ◌==◌, length,
  ==_iff,
}
use lunar.Opcode.{
  Opcode, op_load_nil, op_concat, op_equal, op_test, op_test_set, op_call, op_tail_call, op_return,
  op_for_loop, op_for_prep, op_iterator_loop, op_set_list, op_vararg, operand_a, operand_b,
  operand_c,
}
use lunar.Verify.Prototype.{Prototype, ok, Role}
use lunar.Verify.Instructions.{
  verify_load_nil, verify_concat, verify_comparison, verify_test, verify_test_set, verify_call,
  verify_tail_call, verify_return, verify_for_loop, verify_for_prep, verify_iterator_loop,
  verify_set_list, verify_vararg,
}
use lunar.Executor.{
  accesses, comparison_accesses, call_accesses, iterator_accesses, set_list_accesses,
  registers_from,
}
use lunar.Executor.Bounds.{
  InBounds, check_register-lt, check_registers-lt, check_register_range-le, operand-InBounds,
  registers_from-InBounds, All-append, check_test_follower-lem, check_fallthrough-IsInstruction,
}

-- A window of no registers needs none.
window :
    (p : Prototype) (first count : ℕ)
    → (0 < count → first + count ≤ p.registers)
    → All (InBounds p) (registers_from first count)
window p first zero h = tt
window p first (suc count) h = registers_from-InBounds p first (suc count) (h (omega arith))

module _ (p : Prototype) (roles : List Role) (pc : ℕ) (code : ℕ) where
  abbrev Safe : Opcode → Type 0
  Safe op = All (InBounds p) (accesses p pc code op)

  pub load_nil-Safe : verify_load_nil p roles pc code ≡ ok tt → Safe op_load_nil
  unfolding verify_load_nil accesses
  load_nil-Safe h =
      window p (operand_a code) (operand_b code + 1 - operand_a code)
        λ some_left. ground (arith, check_registers-lt p pc (operand_a code) (operand_b code))

  pub concat-Safe : verify_concat p roles pc code ≡ ok tt → Safe op_concat
  unfolding verify_concat accesses
  concat-Safe h = (
    ground (arith, check_register-lt p pc (operand_a code) "destination"),
    window p (operand_b code) (operand_c code + 1 - operand_b code)
        λ some_left. ground (arith, check_registers-lt p pc (operand_b code) (operand_c code)),
  )

  pub comparison-Safe : verify_comparison p roles pc code ≡ ok tt → Safe op_equal
  unfolding verify_comparison accesses comparison_accesses
  comparison-Safe h = ground (
    arith,
    operand-InBounds p pc (operand_b code) "left operand",
    operand-InBounds p pc (operand_c code) "right operand",
    check_test_follower-lem p roles pc,
  )

  pub test-Safe : verify_test p roles pc code ≡ ok tt → Safe op_test
  unfolding verify_test accesses
  test-Safe h = ground (
    arith,
    check_register-lt p pc (operand_a code) "condition",
    check_test_follower-lem p roles pc,
  )

  pub test_set-Safe : verify_test_set p roles pc code ≡ ok tt → Safe op_test_set
  unfolding verify_test_set accesses
  test_set-Safe h = ground (
    arith,
    check_registers-lt p pc (operand_a code) (operand_b code),
    check_test_follower-lem p roles pc,
  )

  pub call-Safe : verify_call p roles pc code ≡ ok tt → Safe op_call
  unfolding verify_call accesses call_accesses
  call-Safe h = (
    ground (arith, check_register-lt p pc (operand_a code) "function"),
    All-append (InBounds p) (registers_from (operand_a code) (operand_b code)) _
        (window p (operand_a code) (operand_b code) λ some_left.
          ground (
            arith,
            check_register_range-le p pc (operand_a code) (operand_b code) "CALL arguments",
          ))
        (window p (operand_a code) (operand_c code - 1) λ some_left. ground (
          arith,
          check_register_range-le p pc (operand_a code) (operand_c code - 1) "CALL results",
        )),
  )

  pub tail_call-Safe : verify_tail_call p roles pc code ≡ ok tt → Safe op_tail_call
  unfolding verify_tail_call accesses
  tail_call-Safe h = (
    ground (arith, check_register-lt p pc (operand_a code) "function"),
    window p (operand_a code) (operand_b code) λ some_left. ground (
      arith,
      check_register_range-le p pc (operand_a code) (operand_b code) "TAILCALL arguments",
    ),
  )

  pub return-Safe : verify_return p roles pc code ≡ ok tt → Safe op_return
  unfolding verify_return accesses
  return-Safe h = (
    ground (arith, check_register-lt p pc (operand_a code) "return base"),
    window p (operand_a code) (operand_b code - 1) λ some_left.
        ground (
          arith,
          check_register_range-le p pc (operand_a code) (operand_b code - 1) "RETURN values",
        ),
  )

  pub for_loop-Safe : verify_for_loop p roles pc code ≡ ok tt → Safe op_for_loop
  unfolding verify_for_loop accesses
  for_loop-Safe h =
      ground (arith, check_register_range-le p pc (operand_a code) 4 "FORLOOP registers")

  pub for_prep-Safe : verify_for_prep p roles pc code ≡ ok tt → Safe op_for_prep
  unfolding verify_for_prep accesses
  for_prep-Safe h =
      ground (arith, check_register_range-le p pc (operand_a code) 4 "FORPREP registers")

  pub iterator_loop-Safe : verify_iterator_loop p roles pc code ≡ ok tt → Safe op_iterator_loop
  unfolding verify_iterator_loop accesses iterator_accesses
  iterator_loop-Safe h = (
    ground (arith, check_test_follower-lem p roles pc),
    All-append (InBounds p) (registers_from (operand_a code) 6) _
        (window p (operand_a code) 6 λ some_left. ground (
          arith,
          check_register_range-le p pc (operand_a code) (3 + max (operand_c code) 3)
              "TFORLOOP registers",
        ))
        (window p (operand_a code + 3) (operand_c code) λ some_left. ground (
          arith,
          check_register_range-le p pc (operand_a code) (3 + max (operand_c code) 3)
              "TFORLOOP registers",
        )),
  )

  pub vararg-Safe : verify_vararg p roles pc code ≡ ok tt → Safe op_vararg
  unfolding verify_vararg accesses
  vararg-Safe h = (
    ground (arith, check_register-lt p pc (operand_a code) "result base"),
    window p (operand_a code) (operand_b code - 1) λ some_left. ground (
      arith,
      check_register_range-le p pc (operand_a code) (operand_b code - 1) "VARARG results",
    ),
  )

  block_word-Safe :
      verify_set_list p roles pc code ≡ ok tt → operand_c code ≡ 0 → pc + 1 < length p.code
  unfolding verify_set_list
  block_word-Safe h c0 = ground (arith, check_fallthrough-IsInstruction p roles pc (pc + 2))

  pub set_list-Safe : verify_set_list p roles pc code ≡ ok tt → Safe op_set_list
  unfolding verify_set_list accesses set_list_accesses
  set_list-Safe h = (
    ground (arith, check_register-lt p pc (operand_a code) "table"),
    All-append (InBounds p) (registers_from (operand_a code + 1) (operand_b code)) _
        (window p (operand_a code + 1) (operand_b code) λ some_left. ground (
          arith,
          check_register_range-le p pc (operand_a code + 1) (operand_b code) "SETLIST values",
        ))
        (elim (Bool-cases (operand_c code == 0)) [
          | inl extended ↦
              rw extended (block_word-Safe h ((==_iff (operand_c code) 0).0 extended), tt)
          | inr plain ↦ rw plain tt
        ]),
  )
