-- ===== src/Chunk/RoundTrip.antt =====
-- chunk.go: `dumpPrototype` against `decodeBinaryChunk`.
use lunar.Base.{
  map, ℕ, zero, suc, ◌+◌, ◌≡◌, refl, sym, ap, ◌∙◌, Bool, true, false, Option, none, some, Text,
  List, [], ◌∷◌, ◌++◌, length, length-map, ltb, arith, if◌then◌else◌,
}
use lunar.Opcode.{max_operand_bx}
use lunar.Verify.Prototype.{Prototype, ok}
use lunar.Verify.Flow.{verify_prototype, check_tables}
use lunar.Verify.Roles.{then-eq-ok}
use lunar.Verify.Seal.{seal}
use lunar.Verify.Sealed.{seal_lem}
use lunar.Chunk.Function.{
  Host, WordSize, four_bytes, eight_bytes, constant_slot, Body, Function, Functions, function,
  no_functions, next_function, marks, prototype_of,
}
use lunar.Chunk.Written.{wrote, ◌&◌, write_int}
use lunar.Chunk.Decoder.{got, Decoder, pure, bad_header, fail}
use lunar.Chunk.Writer.{
  same_text, native_header, count_functions, write_function, write_functions, write_debug,
  dump_prototype,
}
use lunar.Chunk.Reader.{
  max_chunk_function_depth, chunk_fallback_source, builder_of, sealed_function, beyond_bx,
  read_functions, read_children, read_function, read_debug, read_header, decode_binary_chunk,
}
use lunar.Chunk.Words.{length-lower_words, lower_words}
use lunar.Chunk.Reads.{
  Reads, bind-Reads, map-Reads, after-Reads, passed-Reads, only_if-Reads, read_integer-Reads,
  read_full-Reads, nothing-Reads,
}
use lunar.Chunk.Debug.{debug_builder, read_debug-Reads}
use lunar.Chunk.Reseal.{seal-again}
use lunar.Chunk.Specialized.{specialize-lower_words}
use lunar.Chunk.Nested.{IsSealed, IsDumpable, AreDumpable}
use lunar.Chunk.Heads.{Agree, head_of, read_head-Reads}

check_tables-counts :
    (p : Prototype)
    → check_tables p ≡ ok tt
    → (ltb (max_operand_bx + 1) (length p.constants) ≡ false)
      × (ltb (max_operand_bx + 1) (length p.children) ≡ false)
unfolding check_tables
check_tables-counts p h = ground arith

verify_prototype-counts :
    (p : Prototype)
    → verify_prototype p ≡ ok tt
    → (ltb (max_operand_bx + 1) (length p.constants) ≡ false)
      × (ltb (max_operand_bx + 1) (length p.children) ≡ false)
unfolding verify_prototype
verify_prototype-counts p h = check_tables-counts p (then-eq-ok (check_tables p) _ h).0

same_text-eq : (a b : Text) → same_text a b ≡ true → a ≡ b
same_text-eq [] [] h = refl
same_text-eq [] (c ∷ cs) h = cc
same_text-eq (b ∷ bs) [] h = cc
same_text-eq (b ∷ bs) (c ∷ cs) h = ground (arith, same_text-eq bs cs)

header_good :
    (big : Bool) (size : WordSize) (rest : List ℕ)
    → (if same_text
            (native_header (record { big_endian = big; word_size = size }))
            (native_header (record { big_endian = big; word_size = size }))
          then pure {A = Unit {0}} tt
          else fail bad_header)
        rest
      ≡ got tt rest
header_good true four_bytes rest = refl
header_good true eight_bytes rest = refl
header_good false four_bytes rest = refl
header_good false eight_bytes rest = refl

length-marks : (host : Host) (fs : Functions) → length (marks fs) ≡ count_functions host fs
length-marks host no_functions = refl
length-marks host (next_function f fs) = ap suc (length-marks host fs)

module _ (host : Host) where
  read_children-Reads :
      (read : Decoder Function) (source : Option Text) (children : Functions)
      → ltb (max_operand_bx + 1) (count_functions host children) ≡ false
      → Reads
          (read_functions host (count_functions host children) read)
          (write_functions host source children)
          children
      → Reads
          (read_children host read)
          (write_int host (count_functions host children) & write_functions host source children)
          children
  read_children-Reads read source children few each =
      bind-Reads _ (read_integer-Reads host (count_functions host children))
        (passed-Reads (beyond_bx host (count_functions host children)) _ few each)

  -- The builder of what was read is that of the sealed body, and its answer the function.
  answered :
      (body : Body) (children : Functions) (rest : List ℕ)
      → IsSealed host body children
      → sealed_function
          (head_of host body)
          children
          (seal (builder_of (head_of host body) children (debug_builder body.debug))).1
          rest
        ≡ got (function body children) rest
  answered body children rest is =
      let (again, _) = seal-again is.builder _ _ is.short is.sealed in
      let same =
        specialize-lower_words (map constant_slot body.constants) false body.code is.words
          is.specialized in
      rw (same, again)

  debug_read :
      (body : Body) (children : Functions)
      → IsSealed host body children
      → Reads
          (read_debug host (length (lower_words false body.code)) body.upvalues)
          (write_debug host body.debug)
          (debug_builder body.debug)
  debug_read body children is =
      let (_, tables) = seal-again is.builder _ _ is.short is.sealed in
      rw (length-lower_words false body.code)
        (read_debug-Reads host body.debug (length body.code) body.upvalues is.debug tables)

  body-Reads :
      (levels : ℕ) (written inherited : Option Text) (body : Body) (children : Functions)
      → Agree written inherited
      → IsSealed host body children
      → Reads
          (read_functions host
            (count_functions host children)
            (read_function host levels body.source_name))
          (write_functions host body.source_name children)
          children
      → Reads
          (read_function host (suc levels) inherited)
          (write_function host written (function body children))
          (function body children)
  unfolding read_function write_function
  body-Reads levels written inherited body children agree is below =
      let (_, _, verified, _, _, _) = seal_lem is.builder _ _ is.sealed in
      let (few_constants, few_children) =
        verify_prototype-counts (prototype_of (function body children)) verified in
      only_if-Reads body.sealed _ (
        bind-Reads _
          (read_head-Reads host written inherited body children is agree
            (rw (length-map constant_slot body.constants) at few_constants))
          (bind-Reads _
            (read_children-Reads (read_function host levels body.source_name) body.source_name
              children (rw (length-marks host children) at few_children) below)
            (after-Reads _ (debug_read body children is) (λ rest. answered body children rest is))))

  -- A child inherits the name that its parent was read with.
  Agree-child :
      (body : Body) (source : Text)
      → body.source_name ≡ some source
      → Agree body.source_name body.source_name
  Agree-child body source named other same =
      named ∙ ap some (sym (same_text-eq other source (rw named at same)))

  mutual
    unfolding IsDumpable read_function write_function

    function-Reads :
        (levels : ℕ) (written inherited : Option Text) (f : Function)
        → IsDumpable host levels f
        → Agree written inherited
        → Reads (read_function host levels inherited) (write_function host written f) f
    function-Reads zero written inherited f fits agree = absurd fits
    function-Reads (suc levels) written inherited (function body children) (is, below) agree =
        body-Reads levels written inherited body children agree is (
          functions-Reads levels body.source_name body.source_name children below
            (Agree-child body is.source is.named))

    functions-Reads :
        (levels : ℕ) (written inherited : Option Text) (fs : Functions)
        → AreDumpable host levels fs
        → Agree written inherited
        → Reads
            (read_functions host (count_functions host fs) (read_function host levels inherited))
            (write_functions host written fs)
            fs
    functions-Reads levels written inherited no_functions fits agree = nothing-Reads no_functions
    functions-Reads levels written inherited (next_function f fs) (first, rest) agree =
        bind-Reads _ (function-Reads levels written inherited f first agree)
          (map-Reads _ (functions-Reads levels written inherited fs rest agree))

  header-Reads : Reads (read_header host) (wrote (native_header host)) tt
  header-Reads =
      after-Reads _ (read_full-Reads (native_header host))
        (header_good host.big_endian host.word_size)

-- A function of at most 200 levels that at every level is sealed from some builder, has a source name,
-- texts that fit a Go string, at most 2^32 - 1 words, all of 32 bits, canonical number constants, and
-- GETFIELD, SETFIELD and SELFFIELD exactly where the key operand is a string constant (GETTABLE,
-- SETTABLE and SELF nowhere there; a word behind an extended SETLIST is no instruction): what `dump_prototype` writes of it, `decode_binary_chunk` reads
-- as the same function, and leaves the bytes that follow.
pub dump_prototype-decode_binary_chunk :
    (host : Host) (f : Function) (bytes rest : List ℕ)
    → IsDumpable host max_chunk_function_depth f
    → dump_prototype host f ≡ wrote bytes
    → decode_binary_chunk host (bytes ++ rest) ≡ got f rest
unfolding dump_prototype decode_binary_chunk
dump_prototype-decode_binary_chunk host f bytes rest fits h =
    (bind-Reads (λ _. read_function host max_chunk_function_depth (some chunk_fallback_source))
        (header-Reads host)
        (function-Reads host max_chunk_function_depth none (some chunk_fallback_source) f fits
          λ source same. cc)).reads
      bytes rest h
