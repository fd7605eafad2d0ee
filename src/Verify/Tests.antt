-- ===== src/Verify/Tests.antt =====
-- Sealing a builder with one line per word.
use lunar.Base.{arith, ◌≡◌, refl, true, false, some, [], ◌∷◌, length}
use lunar.Base.Int.{pos}
use lunar.Verify.Prototype.{Prototype, Child, Debug, ok, refuse, builder_consumed}
use lunar.Verify.Flow.{verify_prototype}
use lunar.Verify.Seal.{Builder, DebugBuilder, LocalBuilder, seal}
use lunar.Verify.Sealed.{Holds, IsFrame, seal_lem, seal_consumes}
use lunar.Verify.DebugTables.{IsDebug, seal-debug}

abbrev debug_builder : DebugBuilder
debug_builder = record {
  lines = pos 3 ∷ [];
  locals = record { name = some (b'x' ∷ []); start_pc = pos 0; end_pc = pos 1 } ∷ [];
  upvalue_names = [];
}

-- One RETURN 0 1.
abbrev builder : Builder
builder = record {
  line_defined = pos 3;
  last_line = pos 4;
  parameters = pos 1;
  registers = pos 2;
  upvalues = pos 0;
  vararg_flags = pos 0;
  code = 8388638 ∷ [];
  constants = [];
  children = [];
  debug = some debug_builder;
  consumed = false;
}

abbrev debug : Debug
debug = record {
  lines = 3 ∷ [];
  locals = record { name = (b'x' ∷ []); start_pc = 0; end_pc = 1 } ∷ [];
  upvalue_names = [];
}

abbrev prototype : Prototype
prototype = record {
  code = 8388638 ∷ [];
  constants = [];
  children = [];
  debug = some debug;
  line_defined = 3;
  last_line = 4;
  parameters = 1;
  registers = 2;
  upvalues = 0;
  vararg_flags = 0;
}

abbrev mark : Child
mark = record { upvalues = 0; sealed = true }

builder-sealed : (seal builder).1 ≡ ok (prototype, mark)
unfolding seal lunar.Verify.Flow.check_tables lunar.Verify.Flow.check_constants
    lunar.Verify.Flow.check_children lunar.Verify.Words.classify_words lunar.Verify.Words.classify
    lunar.Verify.Words.after_instruction lunar.Opcode.opcode lunar.Verify.Flow.verify_code
    lunar.Verify.Flow.ends_in_return lunar.Verify.Flow.for_executable
    lunar.Verify.Instructions.verify_instruction lunar.Verify.Instructions.verify_operation
    lunar.Verify.Checks.check_register_range lunar.Opcode.operand_a
    lunar.Verify.Instructions.verify_return lunar.Opcode.operand_b lunar.Opcode.operand_c
    lunar.Verify.Flow.verify_open_result_flow lunar.Verify.Flow.check_open_results
    lunar.Verify.Flow.is_open_result_producer lunar.Verify.Checks.check_register
    lunar.Verify.Checks.check_control_target lunar.Verify.Checks.check_fallthrough
    lunar.Verify.Seal.verify_prototype_header lunar.Verify.Flow.verify_prototype
    lunar.Verify.Seal.check_header lunar.Verify.Seal.seal_prototype_debug
    lunar.Verify.Seal.seal_lines lunar.Verify.Seal.seal_locals lunar.Verify.Seal.seal_names
    lunar.Verify.Seal.check_debug_counts lunar.Verify.Seal.mark_sealed lunar.Verify.Seal.seal_fresh
builder-sealed = refl

seal_lem_example :
    (builder.consumed ≡ false)
    × Holds builder prototype
    × (verify_prototype prototype ≡ ok tt)
    × IsFrame prototype
    × (mark.sealed ≡ true)
    × (mark.upvalues ≡ prototype.upvalues)
seal_lem_example = seal_lem builder prototype mark builder-sealed

seal_consumes_example :
    ((seal builder).0.consumed ≡ true)
    × (seal (seal builder).0 ≡ ((seal builder).0, refuse builder_consumed))
seal_consumes_example = seal_consumes builder

seal-debug_example : IsDebug (length prototype.code) prototype.upvalues debug
seal-debug_example = seal-debug builder prototype mark debug builder-sealed refl (omega arith)
