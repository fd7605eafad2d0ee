-- ===== src/Chunk/Writer.antt =====
-- chunk.go: `dumpPrototype`.
use lunar.Base.{
  ℕ, suc, Bool, true, false, ◌&&◌, Option, none, some, Text, List, [], ◌∷◌, ◌==◌, if◌then◌else◌,
  length,
}
use lunar.Verify.Prototype.{Debug, LocalInfo}
use lunar.Chunk.Function.{
  Host, WordSize, four_bytes, eight_bytes, Constant, nil_constant, bool_constant, number_constant,
  string_constant, Body, Function, Functions, function, no_functions, next_function,
}
use lunar.Chunk.Written.{
  Written, wrote, unwritten, nothing, ◌&◌, write_byte, write_uint64, write_int, write_string_text,
  write_string, write_each, invalid_prototype, write_uint32,
}
use lunar.Chunk.Code.{write_words}

abbrev pub same_text : Text → Text → Bool
same_text [] [] = true
same_text [] (c ∷ cs) = false
same_text (b ∷ bs) [] = false
same_text (b ∷ bs) (c ∷ cs) = b == c && same_text bs cs

-- `prototype.sourceName == parentSource`.
abbrev pub same_name : Option Text → Option Text → Bool
same_name none none = true
same_name none (some b) = false
same_name (some a) none = false
same_name (some a) (some b) = same_text a b

abbrev pub word_bytes : WordSize → ℕ
word_bytes four_bytes = 4
word_bytes eight_bytes = 8

-- `lua51NativeHeader`.
abbrev pub native_header : Host → List ℕ
native_header host =
    0x1b
    ∷ b'L'
    ∷ b'u'
    ∷ b'a'
    ∷ 0x51
    ∷ 0
    ∷ (if host.big_endian then 0 else 1)
    ∷ 4
    ∷ word_bytes host.word_size
    ∷ 4
    ∷ 8
    ∷ 0
    ∷ []

module _ (host : Host) where
  abbrev pub write_constant : Constant → Written
  write_constant nil_constant = write_byte 0
  write_constant (bool_constant value) = write_byte 1 & write_byte (if value then 1 else 0)
  write_constant (number_constant bits) = write_byte 3 & write_uint64 host bits
  write_constant (string_constant text) = write_byte 4 & write_string_text host text

  abbrev pub write_local : LocalInfo → Written
  write_local l =
      write_string host (some l.name) & write_int host l.start_pc & write_int host l.end_pc

  abbrev pub write_vector {ℓ} : {A : Type ℓ} → (A → Written) → List A → Written
  write_vector write xs = write_int host (length xs) & write_each write xs

  abbrev pub write_debug : Option Debug → Written
  write_debug none = write_uint32 host 0 & write_uint32 host 0 & write_uint32 host 0
  write_debug (some d) =
      write_vector (write_int host) d.lines
      & write_vector write_local d.locals
      & write_vector (λ name. write_string host (some name)) d.upvalue_names

  abbrev pub write_source : Option Text → Option Text → Written
  write_source parent source = write_string host (if same_name source parent then none else source)

  -- All of a function but its children and its debug tables.
  abbrev pub write_head : Option Text → Body → Written
  write_head parent body =
      write_source parent body.source_name
      & write_int host body.line_defined
      & write_int host body.last_line
      & write_byte body.upvalues
      & write_byte body.parameters
      & write_byte body.vararg_flags
      & write_byte body.registers
      & (write_int host (length body.code) & write_words host false body.code)
      & write_vector write_constant body.constants

  abbrev pub count_functions : Functions → ℕ
  count_functions no_functions = 0
  count_functions (next_function f fs) = suc (count_functions fs)

  unfoldable mutual
    pub write_function : Option Text → Function → Written
    write_function parent (function body children) =
        if body.sealed
        then write_head parent body
          & (write_int host (count_functions children) & write_functions body.source_name children)
          & write_debug body.debug
        else unwritten invalid_prototype

    pub write_functions : Option Text → Functions → Written
    write_functions source no_functions = nothing
    write_functions source (next_function f fs) =
        write_function source f & write_functions source fs

  unfoldable pub dump_prototype : Function → Written
  unfolding write_function
  dump_prototype f = wrote (native_header host) & write_function none f
