-- ===== src/Executor/Bounds.antt =====
-- The checks of the verifier bound what the executor touches at each instruction.
pub mod Plain
pub mod Windows
pub mod Closure
use lunar.Base.{
  ℕ, zero, suc, ◌+◌, ◌-◌, ◌≤◌, ◌<◌, ◌≡◌, refl, Bool, true, false, Option, none, some, String, List,
  [], ◌∷◌, ◌++◌, arith, length, All, leb, ◌==◌,
}
use lunar.Base.{get_elem?}
use lunar.Base.Int.{ℤ, pos, negsuc}
use lunar.Opcode.{
  Opcode, op_jump, opcode, constant_index, operand_a, operand_b, operand_c, operand_bx,
}
use lunar.Verify.Prototype.{
  Prototype, ok, Role, executable, set_list_extra, closure_binding, is_executable, is_jump, word,
}
use lunar.Verify.Checks.{
  check_register, check_registers, check_register_range, check_constant, check_register_or_constant,
  check_string_constant_operand, check_zero, check_control_target, check_fallthrough,
  check_test_follower,
}
use lunar.Executor.{
  Access, register, constant, upvalue, child, code_word, registers_from, operand_access,
}

-- An access stays inside the frame, the constants, the upvalues, the children or the code.
abbrev pub InBounds : Prototype → Access → Type 0
InBounds p (register r) = r < p.registers
InBounds p (constant i) = i < length p.constants
InBounds p (upvalue i) = i < p.upvalues
InBounds p (child i) = i < length p.children
InBounds p (code_word i) = i < length p.code

pub registers_from-InBounds :
    (p : Prototype) (first count : ℕ)
    → first + count ≤ p.registers
    → All (InBounds p) (registers_from first count)
registers_from-InBounds p first zero h = tt
registers_from-InBounds p first (suc count) h =
    (omega arith, registers_from-InBounds p (suc first) count (omega arith))

pub All-append {ℓ κ} :
    {Item : Type ℓ} (Good : Item → Type κ) (front back : List Item)
    → All Good front
    → All Good back
    → All Good (front ++ back)
All-append Good [] back none_left rest = rest
All-append Good (item ∷ front) back (first, others) rest =
    (first, All-append Good front back others rest)

pub check_register-lt :
    (p : Prototype) (pc r : ℕ) (s : String) → check_register p pc r s ≡ ok tt → r < p.registers
unfolding check_register
check_register-lt p pc r s h = ground arith

pub check_registers-lt :
    (p : Prototype) (pc r q : ℕ)
    → check_registers p pc r q ≡ ok tt
    → (r < p.registers) × (q < p.registers)
unfolding check_registers
check_registers-lt p pc r q h = ground arith

pub check_register_range-le :
    (p : Prototype) (pc first count : ℕ) (s : String)
    → check_register_range p pc first count s ≡ ok tt
    → (0 < count) × (first + count ≤ p.registers)
unfolding check_register_range
check_register_range-le p pc first count s h = ground arith

pub check_constant-lt :
    (p : Prototype) (pc i : ℕ) (b : Bool) → check_constant p pc i b ≡ ok tt → i < length p.constants
unfolding check_constant
check_constant-lt p pc i b h = ground arith

pub operand-InBounds :
    (p : Prototype) (pc operand : ℕ) (s : String)
    → check_register_or_constant p pc operand s ≡ ok tt
    → InBounds p (operand_access operand)
unfolding check_register_or_constant operand_access
operand-InBounds p pc operand s h = ground arith

pub string_operand-lt :
    (p : Prototype) (pc operand : ℕ) (s : String)
    → check_string_constant_operand p pc operand s ≡ ok tt
    → InBounds p (constant (constant_index operand))
unfolding check_string_constant_operand
string_operand-lt p pc operand s h = ground arith

-- A word of the code that is an instruction.
abbrev pub IsInstruction : Prototype → List Role → ℕ → Type 0
IsInstruction p roles pc = (pc < length p.code) × (get_elem? roles pc ≡ some executable)

-- A place where control may go on.
abbrev pub IsTarget : Prototype → List Role → ℤ → Type 0
IsTarget p roles (pos target) = IsInstruction p roles target
IsTarget p roles (negsuc n) = ⊥

is_executable-eq : (r : Option Role) → is_executable r ≡ true → r ≡ some executable
is_executable-eq none h = cc
is_executable-eq (some executable) h = refl
is_executable-eq (some set_list_extra) h = cc
is_executable-eq (some closure_binding) h = cc

is_jump-eq : (op : Option Opcode) → is_jump op ≡ true → op ≡ some op_jump
is_jump-eq (some op_jump) h = refl
is_jump-eq _ h = ground arith

pub check_fallthrough-IsInstruction :
    (p : Prototype) (roles : List Role) (pc target : ℕ)
    → check_fallthrough p roles pc target ≡ ok tt
    → IsInstruction p roles target
unfolding check_fallthrough
check_fallthrough-IsInstruction p roles pc target h =
    ground (arith, is_executable-eq (get_elem? roles target))

pub check_control_target-IsTarget :
    (p : Prototype) (roles : List Role) (pc : ℕ) (target : ℤ) (s : String)
    → check_control_target p roles pc target s ≡ ok tt
    → IsTarget p roles target
unfolding check_control_target
check_control_target-IsTarget p roles pc (pos target) s h =
    ground (arith, is_executable-eq (get_elem? roles target))
check_control_target-IsTarget p roles pc (negsuc n) s h = cc

-- Behind a test stand a jump and another instruction.
pub check_test_follower-lem :
    (p : Prototype) (roles : List Role) (pc : ℕ)
    → check_test_follower p roles pc ≡ ok tt
    → IsInstruction p roles (pc + 1)
      × (opcode (word p (pc + 1)) ≡ some op_jump)
      × IsInstruction p roles (pc + 2)
unfolding check_test_follower
check_test_follower-lem p roles pc h = ground (
  arith,
  is_executable-eq (get_elem? roles (pc + 1)),
  is_jump-eq (opcode (word p (pc + 1))),
  check_control_target-IsTarget p roles pc (pos (pc + 2)) "test skip",
)
