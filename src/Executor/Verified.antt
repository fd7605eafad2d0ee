-- ===== src/Executor/Verified.antt =====
-- What a prototype that passed `verifyPrototype` is known by: one fact for each pass.
use lunar.Base.{
  ℕ, zero, suc, ◌+◌, ◌-◌, ◌<◌, ◌≡◌, sym, ◌∙◌, true, false, some, List, [], ◌∷◌, arith, length,
  get_elem?,
}
use lunar.Opcode.{opcode}
use lunar.Verify.Prototype.{
  Prototype, ok, Check, Role, executable, set_list_extra, closure_binding, word, is_return,
}
use lunar.Verify.Words.{instruction, classify_words, after_instruction}
use lunar.Verify.Instructions.{verify_instruction}
use lunar.Verify.Flow.{
  for_executable, check_open_results, verify_open_result_flow, ends_in_return, verify_code,
  check_tables, verify_prototype,
}
use lunar.Verify.Roles.{
  Classified, classify_words-Classified, first_executable, next_executable, bind-eq-ok, then-eq-ok,
}
use lunar.Executor.Bounds.{IsInstruction}
use native.Mathlib.Decide.{dec_lt}
use mathlib.Core.Bool.{false≢true}

pub record Verified (p : Prototype) (roles : List Role) : Type 0 where
  pub not_empty : 0 < length p.code
  pub answered : classify_words p ≡ ok roles
  pub classified : Classified p (length p.code) 0 instruction roles
  pub last_returns : is_return (opcode (word p (length p.code - 1))) ≡ true
  pub each : (pc : ℕ) → get_elem? roles pc ≡ some executable → verify_instruction p roles pc ≡ ok tt
  pub flow : (pc : ℕ) → get_elem? roles pc ≡ some executable → check_open_results p roles pc ≡ ok tt

for_executable-inv :
    (check : ℕ → Check) (roles : List Role) (start i pc : ℕ)
    → pc ≡ start + i
    → for_executable check start roles ≡ ok tt
    → get_elem? roles i ≡ some executable
    → check pc ≡ ok tt
unfolding for_executable
for_executable-inv check [] start i pc e h x = cc
for_executable-inv check (executable ∷ roles) start zero pc e h x =
    let here : pc ≡ start = omega arith in rw here (then-eq-ok (check start) _ h).0
for_executable-inv check (executable ∷ roles) start (suc i) pc e h x =
    for_executable-inv check roles (start + 1) i pc (omega arith) (then-eq-ok (check start) _ h).1 x
for_executable-inv check (set_list_extra ∷ roles) start zero pc e h x = cc
for_executable-inv check (set_list_extra ∷ roles) start (suc i) pc e h x =
    for_executable-inv check roles (start + 1) i pc (omega arith) h x
for_executable-inv check (closure_binding ∷ roles) start zero pc e h x = cc
for_executable-inv check (closure_binding ∷ roles) start (suc i) pc e h x =
    for_executable-inv check roles (start + 1) i pc (omega arith) h x

check_tables-not_empty : (p : Prototype) → check_tables p ≡ ok tt → 0 < length p.code
unfolding check_tables
check_tables-not_empty p h = ground arith

-- The three passes of `verify_code` succeeded.
verify_code-inv :
    (p : Prototype) (roles : List Role)
    → verify_code p roles ≡ ok tt
    → (ends_in_return p roles ≡ true)
      × (for_executable (verify_instruction p roles) 0 roles ≡ ok tt)
      × (for_executable (check_open_results p roles) 0 roles ≡ ok tt)
unfolding verify_code verify_open_result_flow
verify_code-inv p roles h = ground arith

ends_in_return-last :
    (p : Prototype) (roles : List Role)
    → ends_in_return p roles ≡ true
    → is_return (opcode (word p (length p.code - 1))) ≡ true
unfolding ends_in_return
ends_in_return-last p roles h = ground arith

-- A prototype that passes has roles under which all of this holds.
pub verify_prototype-Verified :
    (p : Prototype) → verify_prototype p ≡ ok tt → (roles : List Role) × Verified p roles
unfolding verify_prototype
verify_prototype-Verified p h =
    let (tables, passes) = then-eq-ok (check_tables p) _ h in
    let (roles, e, code) = bind-eq-ok (classify_words p) (verify_code p) passes in
    let (ends, each, flow) = verify_code-inv p roles code in
    (
      roles,
      record {
        not_empty = check_tables-not_empty p tables;
        answered = e;
        classified = classify_words-Classified p roles e;
        last_returns = ends_in_return-last p roles ends;
        each = λ pc x.
            for_executable-inv (verify_instruction p roles) roles 0 pc pc (omega arith) each x;
        flow = λ pc x.
            for_executable-inv (check_open_results p roles) roles 0 pc pc (omega arith) flow x;
      },
    )

-- The last word is no other operation.
not_last :
    (p : Prototype) (pc : ℕ)
    → is_return (opcode (word p (length p.code - 1))) ≡ true
    → is_return (opcode (word p pc)) ≡ false
    → pc < length p.code
    → pc + 1 < length p.code
not_last p pc last other lt = elim (dec_lt (pc + 1) (length p.code)) [
  | yes h ↦ h
  | no h ↦
      let here : length p.code - 1 ≡ pc = omega arith in
      absurd (false≢true (sym other ∙ rw (← here) last))
]

module _ (p : Prototype) (roles : List Role) (v : Verified p roles) where
  -- The first word is an instruction.
  pub entry-IsInstruction : IsInstruction p roles 0
  entry-IsInstruction = (v.not_empty, first_executable v.classified v.not_empty)

  -- An instruction that is no RETURN, and has no words of its own, is followed by another.
  pub next-IsInstruction :
      (pc : ℕ)
      → IsInstruction p roles pc
      → is_return (opcode (word p pc)) ≡ false
      → after_instruction p pc ≡ ok instruction
      → IsInstruction p roles (pc + 1)
  next-IsInstruction pc (lt, x) other plain =
      let within : pc + 1 < length p.code = not_last p pc v.last_returns other lt in
      let next : pc + 1 ≡ suc pc = omega arith in
      (within, rw next (next_executable pc pc v.classified (omega arith) x plain (omega arith)))
