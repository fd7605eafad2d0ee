-- ===== src/Chunk/Reader.antt =====
-- chunk.go: `decodeBinaryChunk`.
use lunar.Base.{
  ℕ, zero, suc, ◌+◌, Bool, false, not, ◌&&◌, Option, none, some, Text, List, [], ◌∷◌, ltb, ◌==◌,
  if◌then◌else◌, length, map,
}
use lunar.Base.Int.{ℤ, pos}
use lunar.Opcode.{max_operand_bx}
use lunar.Slot.{canonical_number_bits}
use lunar.Verify.Prototype.{Prototype, Child, Result, ok, err}
use lunar.Verify.Seal.{Builder, LocalBuilder, DebugBuilder, seal}
use lunar.Chunk.Function.{
  Host, Constant, nil_constant, bool_constant, number_constant, string_constant, constant_slot,
  Function, Functions, function, no_functions, next_function, marks,
}
use lunar.Chunk.Decoder.{
  Fault, bad_header, code_too_deep, bad_code, bad_constant, Decoder, pure, fail, ◌>>=◌, read_byte,
  read_full, read_each, read_uint32, read_uint64, read_integer, read_string,
}
use lunar.Chunk.Code.{is_chunk_code, specialize}
use lunar.Chunk.Writer.{same_text, native_header}

abbrev pub max_chunk_function_depth : ℕ
max_chunk_function_depth = 200

abbrev pub chunk_fallback_source : Text
chunk_fallback_source = b'=' ∷ b'?' ∷ []

-- A string that may not be missing.
abbrev pub named : Fault → Option Text → Decoder Text
named fault none = fail fault
named fault (some text) = pure text

abbrev pub own_or : Option Text → Option Text → Option Text
own_or none parent = parent
own_or (some name) parent = some name

abbrev pub or_fault {ℓ} : {A : Type ℓ} → Bool → Fault → Decoder A → Decoder A
or_fault bad fault d = if bad then fail fault else d

abbrev pub nil_if_empty : List ℤ → List LocalBuilder → List (Option Text) → Option DebugBuilder
nil_if_empty [] [] [] = none
nil_if_empty lines locals names =
    some (record { lines = lines; locals = locals; upvalue_names = names })

-- The fields of a function up to its constants.
pub record Head : Type 0 where
  pub source_name : Option Text
  pub line_defined : ℕ
  pub last_line : ℕ
  pub upvalues : ℕ
  pub parameters : ℕ
  pub vararg_flags : ℕ
  pub registers : ℕ
  pub code : List ℕ
  pub constants : List Constant

-- The builder of a function; its code is specialized by its constants.
abbrev pub builder_of : Head → Functions → Option DebugBuilder → Builder
builder_of head children debug = record {
  line_defined = pos head.line_defined;
  last_line = pos head.last_line;
  parameters = pos head.parameters;
  registers = pos head.registers;
  upvalues = pos head.upvalues;
  vararg_flags = pos head.vararg_flags;
  code = specialize (map constant_slot head.constants) false head.code;
  constants = map constant_slot head.constants;
  children = marks children;
  debug = debug;
  consumed = false;
}

-- What `seal` answers, with the source name, the texts and the children it holds.
abbrev pub sealed_function : Head → Functions → Result (Prototype × Child) → Decoder Function
sealed_function head children (err e) = fail bad_code
sealed_function head children (ok (p, mark)) = pure (
    function
      (record {
        source_name = head.source_name;
        code = p.code;
        constants = head.constants;
        debug = p.debug;
        line_defined = p.line_defined;
        last_line = p.last_line;
        parameters = p.parameters;
        registers = p.registers;
        upvalues = p.upvalues;
        vararg_flags = p.vararg_flags;
        sealed = mark.sealed;
      })
      children)

module _ (host : Host) where
  abbrev pub read_tagged : ℕ → Decoder Constant
  read_tagged tag =
      if tag == 0
      then pure nil_constant
      else if tag == 1
      then (read_byte >>= λ value. pure (bool_constant (not (value == 0))))
      else if tag == 3
      then (read_uint64 host >>= λ bits. pure (number_constant (canonical_number_bits bits)))
      else if tag == 4
      then (read_string host >>= named bad_constant >>= λ text. pure (string_constant text))
      else fail bad_constant

  abbrev pub read_constant : Decoder Constant
  read_constant = read_byte >>= read_tagged

  abbrev pub read_vector {ℓ} : {A : Type ℓ} → (ℕ → Bool) → Decoder A → Decoder (List A)
  read_vector bad_count read =
      read_integer host >>= λ count. or_fault (bad_count count) bad_code (read_each count read)

  abbrev pub any_count : ℕ → Bool
  any_count count = false

  abbrev pub beyond_bx : ℕ → Bool
  beyond_bx count = ltb (max_operand_bx + 1) count

  abbrev pub read_code : Decoder (List ℕ)
  read_code = read_vector any_count (read_uint32 host)

  abbrev pub read_constants : Decoder (List Constant)
  read_constants = read_vector beyond_bx read_constant

  abbrev pub read_line : Decoder ℤ
  read_line = read_integer host >>= λ line. pure (pos line)

  abbrev pub read_local : Decoder LocalBuilder
  read_local = read_string host >>= named bad_code >>= λ name. read_integer host >>= λ start.
      read_integer host >>= λ end.
      pure (record { name = some name; start_pc = pos start; end_pc = pos end })

  abbrev pub read_name : Decoder (Option Text)
  read_name = read_string host >>= named bad_code >>= λ name. pure (some name)

  -- `readDebug`, from the number of words and of upvalues.
  abbrev pub read_debug : ℕ → ℕ → Decoder (Option DebugBuilder)
  read_debug code_count upvalue_count =
      read_vector (λ count. not (count == 0) && not (count == code_count)) read_line >>= λ lines.
      read_vector any_count read_local >>= λ locals.
      read_vector (λ count. ltb upvalue_count count) read_name >>= λ names.
      pure (nil_if_empty lines locals names)

  abbrev pub read_head : Option Text → Decoder Head
  read_head parent = read_string host >>= λ name. read_integer host >>= λ line_defined.
      read_integer host >>= λ last_line. read_byte >>= λ upvalues. read_byte >>= λ parameters.
      read_byte >>= λ vararg_flags. read_byte >>= λ registers. read_code >>= λ code.
      or_fault (not (is_chunk_code false code)) bad_code read_constants >>= λ constants.
      pure (record {
        source_name = own_or name parent;
        line_defined = line_defined;
        last_line = last_line;
        upvalues = upvalues;
        parameters = parameters;
        vararg_flags = vararg_flags;
        registers = registers;
        code = code;
        constants = constants;
      })

  -- The loop of `readChildren`.
  abbrev pub read_functions : ℕ → Decoder Function → Decoder Functions
  read_functions zero read = pure no_functions
  read_functions (suc count) read =
      read >>= λ f. read_functions count read >>= λ fs. pure (next_function f fs)

  abbrev pub read_children : Decoder Function → Decoder Functions
  read_children read =
      read_integer host >>= λ count. or_fault (beyond_bx count) bad_code (read_functions count read)

  -- `readFunction`, with the levels of nesting that are left.
  unfoldable pub read_function : ℕ → Option Text → Decoder Function
  read_function zero parent = fail code_too_deep
  read_function (suc levels) parent = read_head parent >>= λ head.
      read_children (read_function levels head.source_name) >>= λ children.
      read_debug (length head.code) head.upvalues >>= λ debug.
      sealed_function head children (seal (builder_of head children debug)).1

  abbrev pub read_header : Decoder (Unit {0})
  read_header = read_full 12 >>= λ actual.
      (if same_text actual (native_header host) then pure tt else fail bad_header)

  unfoldable pub decode_binary_chunk : Decoder Function
  unfolding read_function
  decode_binary_chunk =
      read_header >>= λ _. read_function max_chunk_function_depth (some chunk_fallback_source)
