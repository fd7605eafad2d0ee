-- ===== src/Verify/Flow.antt =====
-- verify.go: the open-result flow, and `verifyPrototype`, which puts the passes together.
use lunar.Base.{
  ℕ, ◌+◌, ◌-◌, ◌/◌, ◌%◌, Bool, false, not, ◌&&◌, ◌||◌, Option, none, some, List, [], ◌∷◌, ltb, leb,
  ◌==◌, if◌then◌else◌, length, get_elem?,
}
use lunar.Opcode.{
  Opcode, op_call, op_tail_call, op_vararg, op_return, op_set_list, opcode, operand_a, operand_b,
  operand_c, max_operand_bx,
}
use lunar.Slot.{Slot}
use lunar.Verify.Prototype.{
  Prototype, Child, Check, ◌>>=◌, ◌>>◌, pass, reject, refuse, word, Role, executable,
  set_list_extra, closure_binding, is_executable, is_extra, is_return, open_results_unconsumed,
  open_result_base, no_instructions, not_ending_in_return, constant_count, child_count,
  bad_constant, missing_child, unsealed_child,
}
use lunar.Verify.Words.{classify_words}
use lunar.Verify.Instructions.{verify_instruction}

abbrev pub producer_of : Option Opcode → ℕ → Bool
producer_of (some op_call) code = operand_c code == 0
producer_of (some op_tail_call) code = operand_c code == 0
producer_of (some op_vararg) code = operand_b code == 0
producer_of _ code = false

unfoldable pub is_open_result_producer : ℕ → Bool
is_open_result_producer code = producer_of (opcode code) code

abbrev pub consumer_of : Option Opcode → ℕ → Bool
consumer_of (some op_call) code = operand_b code == 0
consumer_of (some op_tail_call) code = operand_b code == 0
consumer_of (some op_return) code = operand_b code == 0
consumer_of (some op_set_list) code = operand_b code == 0
consumer_of _ code = false

unfoldable pub is_open_result_consumer : ℕ → Bool
is_open_result_consumer code = consumer_of (opcode code) code

abbrev pub consumer_offset : Option Opcode → ℕ
consumer_offset (some op_call) = 1
consumer_offset (some op_tail_call) = 1
consumer_offset (some op_set_list) = 1
consumer_offset _ = 0

-- `firstConsumed`: the first register that the consumer takes from the open results.
unfoldable pub first_consumed : ℕ → ℕ
first_consumed code = operand_a code + consumer_offset (opcode code)

-- One round of the loop, at an executable word.
unfoldable pub check_open_results : Prototype → List Role → ℕ → Check
check_open_results p roles pc =
    if is_open_result_producer (word p pc)
    then (if leb (length p.code) (pc + 1)
          || is_extra (get_elem? roles (pc + 1))
          || not (is_open_result_consumer (word p (pc + 1)))
        then reject pc open_results_unconsumed
        else if ltb (operand_a (word p pc)) (first_consumed (word p (pc + 1)))
        then reject pc (open_result_base (operand_a (word p pc)) (first_consumed (word p (pc + 1))))
        else pass)
    else pass

-- A loop over the executable words: the roles from `pc` on.
unfoldable pub for_executable : (ℕ → Check) → ℕ → List Role → Check
for_executable check pc [] = pass
for_executable check pc (executable ∷ rest) = check pc >> for_executable check (pc + 1) rest
for_executable check pc (set_list_extra ∷ rest) = for_executable check (pc + 1) rest
for_executable check pc (closure_binding ∷ rest) = for_executable check (pc + 1) rest

unfoldable pub verify_open_result_flow : Prototype → List Role → Check
verify_open_result_flow p roles = for_executable (check_open_results p roles) 0 roles

-- A reference constant is a string with a hash, the upper half of its bits.
unfoldable pub valid_prototype_constant : Slot → Bool
valid_prototype_constant value =
    not value.ref || value.bits % 256 == 4 && not (value.bits / 0x1_0000_0000 == 0)

unfoldable pub check_constants : ℕ → List Slot → Check
check_constants index [] = pass
check_constants index (value ∷ rest) =
    (if valid_prototype_constant value then pass else refuse (bad_constant index))
    >> check_constants (index + 1) rest

abbrev check_child : ℕ → Option Child → Check
check_child index none = refuse (missing_child index)
check_child index (some child) = if child.sealed then pass else refuse (unsealed_child index)

unfoldable pub check_children : ℕ → List (Option Child) → Check
check_children index [] = pass
check_children index (child ∷ rest) = check_child index child >> check_children (index + 1) rest

-- The last word of the code is an executable RETURN.
unfoldable pub ends_in_return : Prototype → List Role → Bool
ends_in_return p roles =
    is_executable (get_elem? roles (length p.code - 1))
    && is_return (opcode (word p (length p.code - 1)))

-- The passes over the code, once the roles are known.
unfoldable pub verify_code : Prototype → List Role → Check
verify_code p roles =
    (if ends_in_return p roles then pass else reject (length p.code - 1) not_ending_in_return)
    >> for_executable (verify_instruction p roles) 0 roles
    >> verify_open_result_flow p roles

unfoldable pub check_tables : Prototype → Check
check_tables p =
    (if length p.code == 0 then refuse no_instructions else pass)
    >> (if ltb (max_operand_bx + 1) (length p.constants)
        then refuse (constant_count (length p.constants))
        else pass)
    >> (if ltb (max_operand_bx + 1) (length p.children)
        then refuse (child_count (length p.children))
        else pass)
    >> check_constants 0 p.constants
    >> check_children 0 p.children

-- `verifyPrototype` of a prototype that is not nil.
unfoldable pub verify_prototype : Prototype → Check
verify_prototype p = check_tables p >> (classify_words p >>= λ roles. verify_code p roles)
