-- ===== src/Verify/Seal.antt =====
-- verify.go: `verifyPrototypeHeader` and `sealPrototypeDebug`; prototype.go: the builder and `seal`,
-- the only way to a sealed prototype.
use lunar.Base.{
  ℕ, ◌+◌, ◌/◌, ◌%◌, Bool, true, not, ◌&&◌, ◌||◌, Option, none, some, Text, List, [], ◌∷◌, ltb, ◌==◌,
  if◌then◌else◌, length,
}
use lunar.Base.Int.{ℤ, pos, pos_part, is_negative, ltb_ℤ}
use lunar.Slot.{Slot}
use lunar.Verify.Prototype.{
  Problem, Prototype, Child, LocalInfo, Debug, Check, Result, ok, ◌>>=◌, ◌>>◌, pass, reject, refuse,
  source_line_out_of_range, ends_before_it_begins, register_count, fixed_parameter_count,
  upvalue_count, invalid_vararg_flags, arg_without_vararg, arg_undeclared, parameters_exceed_frame,
  debug_line_count, debug_upvalue_count, debug_line_out_of_range, local_unnamed, local_lifetime,
  upvalue_unnamed, builder_consumed,
}
use lunar.Verify.Flow.{verify_prototype}

abbrev pub max_lua_registers : ℕ
max_lua_registers = 250

abbrev pub max_lua_upvalues : ℕ
max_lua_upvalues = 60

abbrev pub max_uint32 : ℕ
max_uint32 = 0xffff_ffff

-- A name is `none` where the source holds a nil pointer.
pub record LocalBuilder : Type 0 where
  pub name : Option Text
  pub start_pc : ℤ
  pub end_pc : ℤ

pub record DebugBuilder : Type 0 where
  pub lines : List ℤ
  pub locals : List LocalBuilder
  pub upvalue_names : List (Option Text)

pub record Builder : Type 0 where
  pub line_defined : ℤ
  pub last_line : ℤ
  pub parameters : ℤ
  pub registers : ℤ
  pub upvalues : ℤ
  pub vararg_flags : ℤ
  pub code : List ℕ
  pub constants : List Slot
  pub children : List (Option Child)
  pub debug : Option DebugBuilder
  pub consumed : Bool

-- `refuse p` where the test holds.
abbrev refuse_if : Bool → Problem → Check
refuse_if bad p = if bad then refuse p else pass

abbrev outside_uint32 : ℤ → Bool
outside_uint32 line = is_negative line || ltb max_uint32 (pos_part line)

abbrev pub has_arg : ℕ → Bool
has_arg flags = flags % 2 == 1

abbrev pub vararg_flag : ℕ → Bool
vararg_flag flags = flags / 2 % 2 == 1

abbrev needs_arg_flag : ℕ → Bool
needs_arg_flag flags = flags / 4 % 2 == 1

unfoldable pub check_header : Builder → Check
check_header b =
    refuse_if (outside_uint32 b.line_defined || outside_uint32 b.last_line) source_line_out_of_range
    >> refuse_if (ltb_ℤ b.last_line b.line_defined) ends_before_it_begins
    >> refuse_if (ltb_ℤ b.registers (pos 1) || ltb_ℤ (pos max_lua_registers) b.registers)
        (register_count b.registers)
    >> refuse_if (is_negative b.parameters || ltb_ℤ b.registers b.parameters)
        (fixed_parameter_count b.parameters)
    >> refuse_if (is_negative b.upvalues || ltb_ℤ (pos max_lua_upvalues) b.upvalues)
        (upvalue_count b.upvalues)
    >> refuse_if (is_negative b.vararg_flags || ltb 7 (pos_part b.vararg_flags))
        invalid_vararg_flags
    >> refuse_if (has_arg (pos_part b.vararg_flags) && not (vararg_flag (pos_part b.vararg_flags)))
        arg_without_vararg
    >> refuse_if
        (needs_arg_flag (pos_part b.vararg_flags)
          && not (has_arg (pos_part b.vararg_flags) && vararg_flag (pos_part b.vararg_flags)))
        arg_undeclared
    >> refuse_if
        (ltb (pos_part b.registers)
          (pos_part b.parameters + (if has_arg (pos_part b.vararg_flags) then 1 else 0)))
        parameters_exceed_frame

unfoldable pub seal_lines : ℕ → List ℤ → Result (List ℕ)
seal_lines index [] = ok []
seal_lines index (line ∷ rest) =
    (if outside_uint32 line then reject index debug_line_out_of_range else pass)
    >> (seal_lines (index + 1) rest >>= λ sealed. ok (pos_part line ∷ sealed))

abbrev pub seal_local : ℕ → ℕ → LocalBuilder → Option Text → Result LocalInfo
seal_local code_length index l none = refuse (local_unnamed index)
seal_local code_length index l (some name) =
    if is_negative l.start_pc || ltb_ℤ l.end_pc l.start_pc || ltb_ℤ (pos code_length) l.end_pc
    then refuse (local_lifetime index)
    else ok (record {
      name = name;
      start_pc = pos_part l.start_pc % 0x1_0000_0000;
      end_pc = pos_part l.end_pc % 0x1_0000_0000;
    })

unfoldable pub seal_locals : ℕ → ℕ → List LocalBuilder → Result (List LocalInfo)
seal_locals code_length index [] = ok []
seal_locals code_length index (l ∷ rest) = seal_local code_length index l l.name >>= λ one.
    seal_locals code_length (index + 1) rest >>= λ sealed. ok (one ∷ sealed)

unfoldable pub seal_names : ℕ → List (Option Text) → Result (List Text)
seal_names index [] = ok []
seal_names index (none ∷ rest) = refuse (upvalue_unnamed index)
seal_names index (some name ∷ rest) = seal_names (index + 1) rest >>= λ sealed. ok (name ∷ sealed)

-- A debug record with nothing in it is left out.
abbrev pub debug_unless_empty : List ℕ → List LocalInfo → List Text → Option Debug
debug_unless_empty [] [] [] = none
debug_unless_empty lines locals names =
    some (record { lines = lines; locals = locals; upvalue_names = names })

-- The counts of a debug record against the code and the upvalues.
unfoldable pub check_debug_counts : ℕ → ℕ → DebugBuilder → Check
check_debug_counts code_length upvalues d =
    refuse_if (not (length d.lines == 0) && not (length d.lines == code_length))
      (debug_line_count (length d.lines))
    >> refuse_if (ltb upvalues (length d.upvalue_names))
        (debug_upvalue_count (length d.upvalue_names))

unfoldable pub seal_prototype_debug : ℕ → ℕ → Option DebugBuilder → Result (Option Debug)
unfolding check_debug_counts
seal_prototype_debug code_length upvalues none = ok none
seal_prototype_debug code_length upvalues (some d) =
    check_debug_counts code_length upvalues d
    >> (seal_lines 0 d.lines >>= λ lines. seal_locals code_length 0 d.locals >>= λ locals.
        seal_names 0 d.upvalue_names >>= λ names. ok (debug_unless_empty lines locals names))

-- The fields that the header's pass sets; the conversions to uint32 and uint8 follow the checks.
abbrev pub sealed_header : Builder → Option Debug → Prototype
sealed_header b debug = record {
  code = b.code;
  constants = b.constants;
  children = b.children;
  debug = debug;
  line_defined = pos_part b.line_defined % 0x1_0000_0000;
  last_line = pos_part b.last_line % 0x1_0000_0000;
  parameters = pos_part b.parameters % 256;
  registers = pos_part b.registers % 256;
  upvalues = pos_part b.upvalues % 256;
  vararg_flags = pos_part b.vararg_flags % 256;
}

unfoldable pub verify_prototype_header : Builder → Result Prototype
verify_prototype_header b =
    check_header b
    >> (seal_prototype_debug (length b.code) (pos_part b.upvalues) b.debug >>= λ debug.
        ok (sealed_header b debug))

-- What `markSealed` makes of a prototype: a parent's verifier accepts it as a child.
unfoldable pub mark_sealed : Prototype → Child
mark_sealed p = record { upvalues = p.upvalues; sealed = true }

unfoldable pub seal_fresh : Builder → Result (Prototype × Child)
seal_fresh b = verify_prototype_header b >>= λ p. verify_prototype p >> ok (p, mark_sealed p)

-- `seal` of a builder that is not nil: the builder afterwards, and the prototype with its mark, or
-- the error. The copies of `exactBuilderSlice` are not told apart from the builder's own slices.
unfoldable pub seal : Builder → Builder × Result (Prototype × Child)
unfolding seal_fresh
seal b =
    if b.consumed
    then (b, refuse builder_consumed)
    else (record b { consumed = true }, seal_fresh b)
