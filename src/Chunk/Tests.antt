-- ===== src/Chunk/Tests.antt =====
-- Chunks: a function with a child, dumped and loaded.
use lunar.Base.{
  ℕ, arith, ◌≡◌, refl, true, false, none, some, Text, List, [], ◌∷◌, ◌++◌, ◌<◌, length, All,
}
use lunar.Verify.Prototype.{ok, word}
use lunar.Verify.Seal.{Builder, seal}
use lunar.Chunk.Function.{
  Host, eight_bytes, nil_constant, bool_constant, number_constant, string_constant, Body, Function,
  function, no_functions, next_function, prototype_of, mark,
}
use lunar.Chunk.Written.{Written, wrote, unwritten}
use lunar.Chunk.Decoder.{got}
use lunar.Chunk.Writer.{dump_prototype}
use lunar.Chunk.Reader.{max_chunk_function_depth, decode_binary_chunk}
use lunar.Chunk.Reseal.{builder_again}
use lunar.Chunk.Accepted.{IsAccepted, decode_binary_chunk-IsAccepted}
use lunar.Chunk.Loaded.{whole, inner, here, decode_binary_chunk-execution_safe}
use lunar.Opcode.{Opcode, opcode}
use lunar.Executor.{accesses, successors, entry}
use lunar.Executor.Bounds.{InBounds}
use lunar.Executor.Safety.{IsInside}
use lunar.Chunk.Nested.{IsSealed, IsDumpable}
use lunar.Chunk.RoundTrip.{dump_prototype-decode_binary_chunk}

abbrev host : Host
host = record { big_endian = false; word_size = eight_bytes }

abbrev source_text : Text
source_text = b'@' ∷ b't' ∷ []

abbrev child_body : Body
child_body = record {
  source_name = some source_text;
  code = 8388638 ∷ [];
  constants = [];
  debug = none;
  line_defined = 2;
  last_line = 3;
  parameters = 0;
  registers = 2;
  upvalues = 0;
  vararg_flags = 0;
  sealed = true;
}

-- LOADNIL, an instruction on the field "x", and RETURN.
abbrev main_body : Body
main_body = record {
  source_name = some source_text;
  code = 3 ∷ 4243494 ∷ 8388638 ∷ [];
  constants =
      nil_constant
      ∷ bool_constant true
      ∷ number_constant 4607182418800017408
      ∷ string_constant (b'x' ∷ [])
      ∷ [];
  debug = some (record {
    lines = 1 ∷ 1 ∷ 4 ∷ [];
    locals = record { name = b'a' ∷ []; start_pc = 1; end_pc = 3 } ∷ [];
    upvalue_names = [];
  });
  line_defined = 0;
  last_line = 0;
  parameters = 0;
  registers = 2;
  upvalues = 0;
  vararg_flags = 2;
  sealed = true;
}

abbrev child : Function
child = function child_body no_functions

abbrev main : Function
main = function main_body (next_function child no_functions)

abbrev bytes_of : Written → List ℕ
bytes_of (wrote bytes) = bytes
bytes_of (unwritten refusal) = []

abbrev main_bytes : List ℕ
main_bytes = bytes_of (dump_prototype host main)

main_seals : (seal (builder_again (prototype_of main))).1 ≡ ok (prototype_of main, mark main)
unfolding seal lunar.Verify.Seal.check_header lunar.Verify.Seal.seal_lines
    lunar.Verify.Seal.seal_locals lunar.Verify.Seal.seal_names lunar.Verify.Seal.check_debug_counts
    lunar.Verify.Seal.seal_prototype_debug lunar.Verify.Seal.verify_prototype_header
    lunar.Verify.Seal.mark_sealed lunar.Verify.Seal.seal_fresh
    lunar.Verify.Flow.is_open_result_producer lunar.Verify.Flow.is_open_result_consumer
    lunar.Verify.Flow.first_consumed lunar.Verify.Flow.check_open_results
    lunar.Verify.Flow.for_executable lunar.Verify.Flow.verify_open_result_flow
    lunar.Verify.Flow.valid_prototype_constant lunar.Verify.Flow.check_constants
    lunar.Verify.Flow.check_children lunar.Verify.Flow.ends_in_return lunar.Verify.Flow.verify_code
    lunar.Verify.Flow.check_tables lunar.Verify.Flow.verify_prototype
    lunar.Verify.Words.verify_closure_binding lunar.Verify.Words.set_list_last_index
    lunar.Verify.Words.after_instruction lunar.Verify.Words.check_block_number
    lunar.Verify.Words.classify lunar.Verify.Words.classify_words lunar.Verify.Checks.check_register
    lunar.Verify.Checks.check_registers lunar.Verify.Checks.check_register_range
    lunar.Verify.Checks.constant_is_string lunar.Verify.Checks.check_constant
    lunar.Verify.Checks.check_register_or_constant lunar.Verify.Checks.check_string_constant_operand
    lunar.Verify.Checks.check_zero lunar.Verify.Checks.check_control_target
    lunar.Verify.Checks.check_fallthrough lunar.Verify.Checks.check_test_follower
    lunar.Verify.Instructions.verify_move lunar.Verify.Instructions.verify_load_k
    lunar.Verify.Instructions.verify_load_bool lunar.Verify.Instructions.verify_load_nil
    lunar.Verify.Instructions.verify_get_upvalue lunar.Verify.Instructions.verify_get_global
    lunar.Verify.Instructions.verify_get_table lunar.Verify.Instructions.verify_get_field
    lunar.Verify.Instructions.verify_set_global lunar.Verify.Instructions.verify_set_upvalue
    lunar.Verify.Instructions.verify_set_table lunar.Verify.Instructions.verify_set_field
    lunar.Verify.Instructions.verify_new_table lunar.Verify.Instructions.verify_self
    lunar.Verify.Instructions.verify_self_field lunar.Verify.Instructions.verify_arithmetic
    lunar.Verify.Instructions.verify_unary lunar.Verify.Instructions.verify_concat
    lunar.Verify.Instructions.verify_jump lunar.Verify.Instructions.verify_comparison
    lunar.Verify.Instructions.verify_test lunar.Verify.Instructions.verify_test_set
    lunar.Verify.Instructions.verify_call lunar.Verify.Instructions.verify_tail_call
    lunar.Verify.Instructions.verify_return lunar.Verify.Instructions.verify_for_prep
    lunar.Verify.Instructions.verify_for_loop lunar.Verify.Instructions.verify_iterator_loop
    lunar.Verify.Instructions.verify_set_list lunar.Verify.Instructions.verify_close
    lunar.Verify.Instructions.verify_closure lunar.Verify.Instructions.verify_vararg
    lunar.Verify.Instructions.verify_operation lunar.Verify.Instructions.verify_instruction
    lunar.Opcode.opcode lunar.Opcode.operand_a lunar.Opcode.operand_b lunar.Opcode.operand_c
    lunar.Opcode.is_constant_operand lunar.Opcode.constant_index lunar.StringRef.string_slot
    lunar.StringRef.string_bits lunar.StringRef.hash_string lunar.StringRef.hash_loop
    lunar.StringRef.finalize_string_hash lunar.StringRef.normalize_string_hash lunar.Slot.kind
    lunar.Slot.tag_kind lunar.Slot.is_string
main_seals = refl

child_seals : (seal (builder_again (prototype_of child))).1 ≡ ok (prototype_of child, mark child)
unfolding seal lunar.Verify.Seal.check_header lunar.Verify.Seal.seal_lines
    lunar.Verify.Seal.seal_locals lunar.Verify.Seal.seal_names lunar.Verify.Seal.check_debug_counts
    lunar.Verify.Seal.seal_prototype_debug lunar.Verify.Seal.verify_prototype_header
    lunar.Verify.Seal.mark_sealed lunar.Verify.Seal.seal_fresh
    lunar.Verify.Flow.is_open_result_producer lunar.Verify.Flow.is_open_result_consumer
    lunar.Verify.Flow.first_consumed lunar.Verify.Flow.check_open_results
    lunar.Verify.Flow.for_executable lunar.Verify.Flow.verify_open_result_flow
    lunar.Verify.Flow.valid_prototype_constant lunar.Verify.Flow.check_constants
    lunar.Verify.Flow.check_children lunar.Verify.Flow.ends_in_return lunar.Verify.Flow.verify_code
    lunar.Verify.Flow.check_tables lunar.Verify.Flow.verify_prototype
    lunar.Verify.Words.verify_closure_binding lunar.Verify.Words.set_list_last_index
    lunar.Verify.Words.after_instruction lunar.Verify.Words.check_block_number
    lunar.Verify.Words.classify lunar.Verify.Words.classify_words lunar.Verify.Checks.check_register
    lunar.Verify.Checks.check_registers lunar.Verify.Checks.check_register_range
    lunar.Verify.Checks.constant_is_string lunar.Verify.Checks.check_constant
    lunar.Verify.Checks.check_register_or_constant lunar.Verify.Checks.check_string_constant_operand
    lunar.Verify.Checks.check_zero lunar.Verify.Checks.check_control_target
    lunar.Verify.Checks.check_fallthrough lunar.Verify.Checks.check_test_follower
    lunar.Verify.Instructions.verify_move lunar.Verify.Instructions.verify_load_k
    lunar.Verify.Instructions.verify_load_bool lunar.Verify.Instructions.verify_load_nil
    lunar.Verify.Instructions.verify_get_upvalue lunar.Verify.Instructions.verify_get_global
    lunar.Verify.Instructions.verify_get_table lunar.Verify.Instructions.verify_get_field
    lunar.Verify.Instructions.verify_set_global lunar.Verify.Instructions.verify_set_upvalue
    lunar.Verify.Instructions.verify_set_table lunar.Verify.Instructions.verify_set_field
    lunar.Verify.Instructions.verify_new_table lunar.Verify.Instructions.verify_self
    lunar.Verify.Instructions.verify_self_field lunar.Verify.Instructions.verify_arithmetic
    lunar.Verify.Instructions.verify_unary lunar.Verify.Instructions.verify_concat
    lunar.Verify.Instructions.verify_jump lunar.Verify.Instructions.verify_comparison
    lunar.Verify.Instructions.verify_test lunar.Verify.Instructions.verify_test_set
    lunar.Verify.Instructions.verify_call lunar.Verify.Instructions.verify_tail_call
    lunar.Verify.Instructions.verify_return lunar.Verify.Instructions.verify_for_prep
    lunar.Verify.Instructions.verify_for_loop lunar.Verify.Instructions.verify_iterator_loop
    lunar.Verify.Instructions.verify_set_list lunar.Verify.Instructions.verify_close
    lunar.Verify.Instructions.verify_closure lunar.Verify.Instructions.verify_vararg
    lunar.Verify.Instructions.verify_operation lunar.Verify.Instructions.verify_instruction
    lunar.Opcode.opcode lunar.Opcode.operand_a lunar.Opcode.operand_b lunar.Opcode.operand_c
    lunar.Opcode.is_constant_operand lunar.Opcode.constant_index lunar.StringRef.string_slot
    lunar.StringRef.string_bits lunar.StringRef.hash_string lunar.StringRef.hash_loop
    lunar.StringRef.finalize_string_hash lunar.StringRef.normalize_string_hash lunar.Slot.kind
    lunar.Slot.tag_kind lunar.Slot.is_string
child_seals = refl

main-IsSealed : IsSealed host main_body (next_function child no_functions)
unfolding lunar.Chunk.Code.is_specialized lunar.Opcode.opcode lunar.Opcode.with_opcode
    lunar.Opcode.operand_c lunar.Opcode.operand_b lunar.Opcode.is_constant_operand
    lunar.Opcode.constant_index lunar.Slot.kind lunar.Slot.tag_kind lunar.StringRef.string_slot
    lunar.StringRef.string_bits lunar.Slot.canonical_number_bits
main-IsSealed = record {
  source = source_text;
  named = refl;
  source_fits = omega arith;
  words = (omega arith, (omega arith, (omega arith, tt)));
  constants = (tt, (tt, ((omega arith, refl), (omega arith, tt))));
  debug = ((omega arith, tt), tt);
  specialized = refl;
  short = omega arith;
  builder = builder_again (prototype_of main);
  sealed = main_seals;
}

child-IsSealed : IsSealed host child_body no_functions
unfolding lunar.Chunk.Code.is_specialized lunar.Opcode.opcode lunar.Opcode.with_opcode
child-IsSealed = record {
  source = source_text;
  named = refl;
  source_fits = omega arith;
  words = (omega arith, tt);
  constants = tt;
  debug = tt;
  specialized = refl;
  short = omega arith;
  builder = builder_again (prototype_of child);
  sealed = child_seals;
}

main-IsDumpable : IsDumpable host max_chunk_function_depth main
unfolding IsDumpable
main-IsDumpable = (main-IsSealed, ((child-IsSealed, tt), tt))

main_written : dump_prototype host main ≡ wrote main_bytes
unfolding dump_prototype lunar.Chunk.Writer.write_function lunar.Chunk.Written.write_int
    lunar.Chunk.Written.write_string_text lunar.Chunk.Code.write_words
    lunar.Chunk.Code.lua51_chunk_instruction lunar.Opcode.opcode lunar.Opcode.with_opcode
    lunar.Opcode.operand_c
main_written = refl

main_decoded : decode_binary_chunk host (main_bytes ++ 7 ∷ []) ≡ got main (7 ∷ [])
main_decoded =
    dump_prototype-decode_binary_chunk host main main_bytes (7 ∷ []) main-IsDumpable main_written

dump_prototype-decode_binary_chunk_example :
    decode_binary_chunk host (main_bytes ++ 7 ∷ []) ≡ got main (7 ∷ [])
dump_prototype-decode_binary_chunk_example =
    dump_prototype-decode_binary_chunk host main main_bytes (7 ∷ []) main-IsDumpable main_written

decode_binary_chunk-IsAccepted_example : IsAccepted main
decode_binary_chunk-IsAccepted_example =
    decode_binary_chunk-IsAccepted host (main_bytes ++ 7 ∷ []) (7 ∷ []) main main_decoded

decode_binary_chunk-execution_safe_example :
    (0 < length child_body.code)
    × (op : Opcode) × (opcode (word (prototype_of child) 0) ≡ some op)
    × All
        (InBounds (prototype_of child))
        (accesses (prototype_of child) 0 (word (prototype_of child) 0) op)
    × All
        (IsInside (prototype_of child))
        (successors (prototype_of child) 0 (word (prototype_of child) 0) op)
decode_binary_chunk-execution_safe_example =
    decode_binary_chunk-execution_safe host (main_bytes ++ 7 ∷ []) (7 ∷ []) main child 0
      main_decoded (inner (here whole)) entry
