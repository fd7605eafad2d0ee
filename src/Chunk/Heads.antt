-- ===== src/Chunk/Heads.antt =====
-- chunk.go: the fields of a function up to its children are read as they were written.
use lunar.Base.{
  ℕ, ◌+◌, ◌≡◌, refl, sym, ap, ◌∙◌, Bool, true, false, not, Option, none, some, Text, List, [], ◌∷◌,
  length, map, All, ltb, if◌then◌else◌,
}
use mathlib.Core.Path.{subst}
use lunar.Opcode.{max_operand_bx}
use lunar.Chunk.Function.{
  Host, Constant, nil_constant, bool_constant, number_constant, string_constant, Body, Functions,
}
use lunar.Chunk.Written.{wrote, ◌&◌, write_int, write_string}
use lunar.Chunk.Decoder.{read_string}
use lunar.Chunk.Code.{is_chunk_code, write_words}
use lunar.Chunk.Writer.{same_name, write_constant, write_source, write_head, write_vector}
use lunar.Chunk.Reader.{own_or, Head, read_constant, read_vector, beyond_bx, read_code, read_head}
use lunar.Chunk.Words.{lower_words, IsWord, write_words-is_chunk_code, write_words-Reads}
use lunar.Chunk.Reads.{
  Reads, bind-Reads, written-Reads, map-Reads, after-Reads, passed-Reads, read_byte-Reads,
  read_uint64-Reads, read_integer-Reads, read_string-Reads, read_vector-Reads, TextFits, &-wrote,
}
use lunar.Chunk.Nested.{ConstantFits, IsSealed}

map_id {ℓ} : {A : Type ℓ} (xs : List A) → map (λ x. x) xs ≡ xs
map_id [] = refl
map_id (x ∷ xs) = ap (λ ys. x ∷ ys) (map_id xs)

-- A name that the writer leaves out is the one that the reader inherits.
abbrev pub Agree : Option Text → Option Text → Type 0
Agree written inherited =
    (source : Text) → same_name (some source) written ≡ true → inherited ≡ some source

module _ (host : Host) where
  read_constant-Reads :
      (k : Constant) → ConstantFits host k → Reads (read_constant host) (write_constant host k) k
  read_constant-Reads nil_constant fits = after-Reads _ (read_byte-Reads 0) (λ rest. refl)
  read_constant-Reads (bool_constant true) fits =
      bind-Reads _ (read_byte-Reads 1) (map-Reads _ (read_byte-Reads 1))
  read_constant-Reads (bool_constant false) fits =
      bind-Reads _ (read_byte-Reads 1) (map-Reads _ (read_byte-Reads 0))
  read_constant-Reads (number_constant bits) (small, canonical) =
      bind-Reads _ (read_byte-Reads 3)
        (after-Reads _ (read_uint64-Reads host bits small) (λ rest. rw canonical))
  read_constant-Reads (string_constant text) fits =
      bind-Reads _ (read_byte-Reads 4)
        (map-Reads _ (after-Reads _ (read_string-Reads host (some text) fits) (λ rest. refl)))

  constant_items :
      (ks : List Constant)
      → All (ConstantFits host) ks
      → All (λ k. Reads (read_constant host) (write_constant host k) k) ks
  constant_items [] fits = tt
  constant_items (k ∷ ks) (first, fits) = (read_constant-Reads k first, constant_items ks fits)

  read_constants-Reads :
      (ks : List Constant)
      → All (ConstantFits host) ks
      → ltb (max_operand_bx + 1) (length ks) ≡ false
      → Reads
          (read_vector host (beyond_bx host) (read_constant host))
          (write_vector host (write_constant host) ks)
          ks
  read_constants-Reads ks fits few =
      subst
        (Reads (read_vector host (beyond_bx host) (read_constant host))
          (write_vector host (write_constant host) ks))
        (map_id ks)
        (read_vector-Reads host (beyond_bx host) (read_constant host) (write_constant host) (λ k. k)
          ks few (constant_items ks fits))

  -- The name of the source, written or inherited.
  source_cases :
      (written inherited : Option Text) (source : Text)
      → TextFits host source
      → Agree written inherited
      → (name : Option Text) × Reads
          (read_string host)
          (write_source host written (some source))
          name
        × (own_or name inherited ≡ some source)
  source_cases written inherited source fits agree = cases (same_name (some source) written) refl
    where
      cases :
          (same : Bool)
          → same_name (some source) written ≡ same
          → (name : Option Text) × Reads
              (read_string host)
              (write_string host (if same then none else some source))
              name
            × (own_or name inherited ≡ some source)
      cases true h = (none, read_string-Reads host none tt, agree source h)
      cases false h = (some source, read_string-Reads host (some source) fits, refl)

  code-Reads :
      (code : List ℕ)
      → All IsWord code
      → Reads
          (read_code host)
          (write_int host (length code) & write_words host false code)
          (lower_words false code)
  code-Reads code fits =
      bind-Reads _ (read_integer-Reads host (length code)) (write_words-Reads host false code fits)

  abbrev pub head_of : Body → Head
  head_of body = record {
    source_name = body.source_name;
    line_defined = body.line_defined;
    last_line = body.last_line;
    upvalues = body.upvalues;
    parameters = body.parameters;
    vararg_flags = body.vararg_flags;
    registers = body.registers;
    code = lower_words false body.code;
    constants = body.constants;
  }

  pub read_head-Reads :
      (written inherited : Option Text) (body : Body) (children : Functions)
      → IsSealed host body children
      → Agree written inherited
      → ltb (max_operand_bx + 1) (length body.constants) ≡ false
      → Reads (read_head host inherited) (write_head host written body) (head_of body)
  read_head-Reads written inherited body children is agree few =
      let (name, source, given) = source_cases written inherited is.source is.source_fits agree in
      let written_name : Reads (read_string host) (write_source host written body.source_name)
          name =
        rw is.named source in
      let own : own_or name inherited ≡ body.source_name = given ∙ sym is.named in
      subst
        (λ (s : Option Text).
          Reads (read_head host inherited) (write_head host written body)
            (record (head_of body) { source_name = s }))
        own
        (bind-Reads _ written_name (
          bind-Reads _ (read_integer-Reads host body.line_defined) (
            bind-Reads _ (read_integer-Reads host body.last_line) (
              bind-Reads _ (read_byte-Reads body.upvalues) (
                bind-Reads _ (read_byte-Reads body.parameters) (
                  bind-Reads _ (read_byte-Reads body.vararg_flags) (
                    bind-Reads _ (read_byte-Reads body.registers) (
                      written-Reads _ (code-Reads body.code is.words) λ bytes e. map-Reads _ (
                        passed-Reads (not (is_chunk_code false (lower_words false body.code))) _
                          (lua51 bytes e)
                          (read_constants-Reads body.constants is.constants few))))))))))
    where
      lua51 :
          (bytes : List ℕ)
          → (write_int host (length body.code) & write_words host false body.code) ≡ wrote bytes
          → not (is_chunk_code false (lower_words false body.code)) ≡ false
      lua51 bytes e =
          let (_, words, _, ew, _) = &-wrote _ _ bytes e in
          ap not (write_words-is_chunk_code host false body.code words is.words ew)
