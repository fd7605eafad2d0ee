-- ===== src/Executor/Pairs.antt =====
-- Instructions that rely on a partner: open results on their consumer, and the two ends of a
-- numeric loop on one another.
use lunar.Base.{ℕ, ◌+◌, ◌≤◌, ◌<◌, ◌≡◌, refl, true, Option, some, List, arith, length, inl, inr}
use lunar.Base.Int.{ℤ, pos, negsuc, eq_ℤ-eq}
use lunar.Opcode.{
  Opcode, op_call, op_tail_call, op_vararg, op_for_loop, op_for_prep, opcode, operand_a,
}
use lunar.Verify.Prototype.{Prototype, ok, Role, word, is_for_loop}
use lunar.Verify.Instructions.{relative_target, verify_operation, verify_for_prep, paired_loop}
use lunar.Verify.Flow.{
  verify_prototype, check_open_results, is_open_result_producer, is_open_result_consumer,
  first_consumed, producer_of,
}
use lunar.Executor.{successors, Elem, Step, step, Reach}
use lunar.Executor.Verified.{verify_prototype-Verified}
use lunar.Executor.Control.{operation-checked}
use lunar.Executor.Safety.{Reach-IsInstruction}
use mathlib.Core.Bool.{false≢true}

check_open_results-lem :
    (p : Prototype) (roles : List Role) (pc : ℕ)
    → check_open_results p roles pc ≡ ok tt
    → is_open_result_producer (word p pc) ≡ true
    → (pc + 1 < length p.code)
      × (is_open_result_consumer (word p (pc + 1)) ≡ true)
      × (first_consumed (word p (pc + 1)) ≤ operand_a (word p pc))
unfolding check_open_results
check_open_results-lem p roles pc h open_results = ground arith

-- The producers are CALL, TAILCALL and VARARG, which all go on at the next word.
producer_next :
    (p : Prototype) (pc next : ℕ) (op : Opcode)
    → producer_of (some op) (word p pc) ≡ true
    → Elem (pos next) (successors p pc (word p pc) op)
    → next ≡ pc + 1
unfolding successors
producer_next p pc next op_call h (inl e) = ground arith
producer_next p pc next op_tail_call h (inl e) = ground arith
producer_next p pc next op_vararg h (inl e) = ground arith
producer_next p pc next op_call h (inr m) = absurd m
producer_next p pc next op_tail_call h (inr m) = absurd m
producer_next p pc next op_vararg h (inr m) = absurd m
producer_next p pc next _ h m = absurd (false≢true h)

only_after_producer :
    (p : Prototype) (pc next : ℕ)
    → is_open_result_producer (word p pc) ≡ true
    → Step p pc next
    → next ≡ pc + 1
unfolding is_open_result_producer
only_after_producer p pc next h (step op e m) = producer_next p pc next op (rw e at h) m

-- Where a run of a verified prototype produces an open number of results, the next word lies in the
-- code, consumes them from a register at or below their first one, and is the only place at which
-- the frame can go on.
pub open_results_consumed :
    (p : Prototype) (pc : ℕ)
    → verify_prototype p ≡ ok tt
    → Reach p pc
    → is_open_result_producer (word p pc) ≡ true
    → (pc + 1 < length p.code)
      × (is_open_result_consumer (word p (pc + 1)) ≡ true)
      × (first_consumed (word p (pc + 1)) ≤ operand_a (word p pc))
      × ((next : ℕ) → Step p pc next → next ≡ pc + 1)
open_results_consumed p pc verified r produces =
    let (roles, v) = verify_prototype-Verified p verified in
    let at = Reach-IsInstruction p roles v r in
    let (lt, consumes, base) = check_open_results-lem p roles pc (v.flow pc at.1) produces in
    (lt, consumes, base, λ next s. only_after_producer p pc next produces s)

is_for_loop-eq : (op : Option Opcode) → is_for_loop op ≡ true → op ≡ some op_for_loop
is_for_loop-eq (some op_for_loop) h = refl
is_for_loop-eq _ h = ground arith

paired_loop-lem :
    (p : Prototype) (roles : List Role) (pc code : ℕ) (t : ℤ)
    → paired_loop p roles pc code t ≡ true
    → (target : ℕ) × (t ≡ pos target)
      × (opcode (word p target) ≡ some op_for_loop)
      × (operand_a (word p target) ≡ operand_a code)
      × (relative_target target (word p target) ≡ pos (pc + 1))
paired_loop-lem p roles pc code (negsuc n) h = absurd (false≢true h)
paired_loop-lem p roles pc code (pos target) h = (
  target,
  refl,
  ground (arith, is_for_loop-eq (opcode (word p target))),
  ground arith,
  eq_ℤ-eq (relative_target target (word p target)) (pos (pc + 1)) (ground arith),
)

-- In a run of a verified prototype a FORPREP jumps to a FORLOOP over the same registers, whose own
-- jump comes back to the word behind the FORPREP.
pub for_prep_paired :
    (p : Prototype) (pc : ℕ)
    → verify_prototype p ≡ ok tt
    → Reach p pc
    → opcode (word p pc) ≡ some op_for_prep
    → (target : ℕ) × (relative_target pc (word p pc) ≡ pos target)
      × (opcode (word p target) ≡ some op_for_loop)
      × (operand_a (word p target) ≡ operand_a (word p pc))
      × (relative_target target (word p target) ≡ pos (pc + 1))
unfolding verify_operation verify_for_prep
for_prep_paired p pc verified r e =
    let (roles, v) = verify_prototype-Verified p verified in
    let at = Reach-IsInstruction p roles v r in
    paired_loop-lem p roles pc (word p pc) (relative_target pc (word p pc))
      (ground (arith, operation-checked p roles v pc op_for_prep at e))
