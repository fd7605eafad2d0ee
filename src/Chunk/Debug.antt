-- ===== src/Chunk/Debug.antt =====
-- The debug tables of a chunk: they are read as the builder that seals to them.
use lunar.Base.{
  ℕ, ◌+◌, ◌≤◌, ◌≡◌, refl, ◌∙◌, Bool, false, not, ◌&&◌, ◌||◌, Option, none, some, Text, List, [],
  ◌∷◌, length, length-map, map, All, ltb, ◌==◌, arith, if◌then◌else◌, le→ltb_false,
}
use lunar.Base.Int.{ℤ, pos, pos_part, is_negative}
use lunar.Verify.Prototype.{LocalInfo, Debug, ok, pass, reject, debug_line_out_of_range}
use lunar.Verify.Roles.{bind-eq-ok, then-eq-ok, ok-injective}
use lunar.Verify.Seal.{
  LocalBuilder, DebugBuilder, seal_lines, seal_local, seal_locals, seal_names, debug_unless_empty,
  check_debug_counts, seal_prototype_debug, max_uint32,
}
use lunar.Verify.DebugTables.{debug_unless_empty-some}
use lunar.Chunk.Function.{Host}
use lunar.Chunk.Written.{Written, ◌&◌, write_int, write_string, write_uint32}
use lunar.Chunk.Decoder.{Decoder, pure, ◌>>=◌}
use lunar.Chunk.Writer.{write_local, write_debug}
use lunar.Chunk.Reader.{
  read_line, read_local, read_name, read_debug, read_vector, nil_if_empty, any_count,
}
use lunar.Chunk.Reads.{
  Reads, bind-Reads, map-Reads, after-Reads, read_integer-Reads, read_string-Reads,
  read_vector-Reads, TextFits,
}

abbrev pub local_builder : LocalInfo → LocalBuilder
local_builder l = record { name = some l.name; start_pc = pos l.start_pc; end_pc = pos l.end_pc }

abbrev pub debug_builder : Option Debug → Option DebugBuilder
debug_builder none = none
debug_builder (some d) = some (record {
  lines = map pos d.lines;
  locals = map local_builder d.locals;
  upvalue_names = map some d.upvalue_names;
})

abbrev pub built : Debug → DebugBuilder
built d = record {
  lines = map pos d.lines;
  locals = map local_builder d.locals;
  upvalue_names = map some d.upvalue_names;
}

pub whole :
    (lines : List ℕ) (locals : List LocalInfo) (names : List Text) (d : Debug)
    → debug_unless_empty lines locals names ≡ some d
    → debug_unless_empty d.lines d.locals d.upvalue_names ≡ some d
whole lines locals names d h =
    let (a, b, c) = debug_unless_empty-some lines locals names d h in
    let same : debug_unless_empty d.lines d.locals d.upvalue_names
        ≡ debug_unless_empty lines locals names =
      rw (← a, ← b, ← c) in
    same ∙ h

-- Sealing what was sealed gives it again.
line-again :
    (i j : ℕ) (line : ℤ)
    → (if is_negative line || ltb max_uint32 (pos_part line)
        then reject i debug_line_out_of_range
        else pass)
      ≡ ok tt
    → ltb max_uint32 (pos_part line) ≡ false
line-again i j line h = ground arith

pub seal_lines-again :
    (i j : ℕ) (lines : List ℤ) (sealed : List ℕ)
    → seal_lines i lines ≡ ok sealed
    → seal_lines j (map pos sealed) ≡ ok sealed
unfolding seal_lines
seal_lines-again i j [] sealed h = rw (← ok-injective h)
seal_lines-again i j (line ∷ rest) sealed h =
    let (inside, h') = then-eq-ok _ _ h in
    let (tail, e, r) = bind-eq-ok (seal_lines (i + 1) rest) _ h' in
    let same : pos_part line ∷ tail ≡ sealed = ok-injective r in
    rw (← same, line-again i j line inside, seal_lines-again (i + 1) (j + 1) rest tail e)

seal_local-again :
    (n i j : ℕ) (l : LocalBuilder) (name : Option Text) (one : LocalInfo)
    → n ≤ max_uint32
    → seal_local n i l name ≡ ok one
    → seal_local n j (local_builder one) (some one.name) ≡ ok one
seal_local-again n i j l none one short h = cc
seal_local-again n i j l (some name) one short h = ground arith

pub seal_locals-again :
    (n i j : ℕ) (locals : List LocalBuilder) (sealed : List LocalInfo)
    → n ≤ max_uint32
    → seal_locals n i locals ≡ ok sealed
    → seal_locals n j (map local_builder sealed) ≡ ok sealed
unfolding seal_locals
seal_locals-again n i j [] sealed short h = rw (← ok-injective h)
seal_locals-again n i j (l ∷ rest) sealed short h =
    let (one, first, h') = bind-eq-ok (seal_local n i l l.name) _ h in
    let (tail, e, r) = bind-eq-ok (seal_locals n (i + 1) rest) _ h' in
    let same : one ∷ tail ≡ sealed = ok-injective r in
    rw (
      ← same,
      seal_local-again n i j l l.name one short first,
      seal_locals-again n (i + 1) (j + 1) rest tail short e,
    )

pub seal_names-again : (i : ℕ) (names : List Text) → seal_names i (map some names) ≡ ok names
unfolding seal_names
seal_names-again i [] = refl
seal_names-again i (name ∷ names) = rw (seal_names-again (i + 1) names)

module _ (host : Host) where
  abbrev pub LocalFits : LocalInfo → Type 0
  LocalFits l = TextFits host l.name

  abbrev pub DebugFits : Option Debug → Type 0
  DebugFits none = Unit
  DebugFits (some d) = All LocalFits d.locals × All (TextFits host) d.upvalue_names

  read_local-Reads :
      (l : LocalInfo) → LocalFits l → Reads (read_local host) (write_local host l) (local_builder l)
  read_local-Reads l fits =
      bind-Reads _ (after-Reads _ (read_string-Reads host (some l.name) fits) (λ rest. refl)) (
        bind-Reads _ (read_integer-Reads host l.start_pc)
          (map-Reads _ (read_integer-Reads host l.end_pc)))

  read_name-Reads :
      (name : Text)
      → TextFits host name
      → Reads (read_name host) (write_string host (some name)) (some name)
  read_name-Reads name fits =
      after-Reads _ (after-Reads _ (read_string-Reads host (some name) fits) (λ rest. refl))
        (λ rest. refl)

  no_vector-Reads {ℓ} :
      {A : Type ℓ} (bad : ℕ → Bool) (read : Decoder A)
      → bad 0 ≡ false
      → Reads (read_vector host bad read) (write_uint32 host 0) []
  unfolding write_int
  no_vector-Reads bad read good = after-Reads _ (read_integer-Reads host 0) (λ rest. rw good)

  some_counts :
      (n upvalues : ℕ) (d : DebugBuilder)
      → check_debug_counts n upvalues d ≡ ok tt
      → ((not (length d.lines == 0) && not (length d.lines == n)) ≡ false)
        × (ltb upvalues (length d.upvalue_names) ≡ false)
  unfolding check_debug_counts
  some_counts n upvalues d h = ground arith

  not_empty :
      (lines : List ℕ) (locals : List LocalInfo) (names : List Text) (d : Debug)
      → debug_unless_empty lines locals names ≡ some d
      → nil_if_empty (map pos lines) (map local_builder locals) (map some names)
        ≡ some (record {
          lines = map pos lines;
          locals = map local_builder locals;
          upvalue_names = map some names;
        })
  not_empty [] [] [] d h = cc
  not_empty [] [] (n ∷ names) d h = refl
  not_empty [] (l ∷ locals) names d h = refl
  not_empty (l ∷ lines) locals names d h = refl

  three-Reads :
      {a : Decoder (List ℤ)} {b : Decoder (List LocalBuilder)} {c : Decoder (List (Option Text))}
      {u v w : Written} {lines : List ℤ} {locals : List LocalBuilder} {names : List (Option Text)}
      → Reads a u lines
      → Reads b v locals
      → Reads c w names
      → Reads
          (a >>= λ lines. b >>= λ locals. c >>= λ names. pure (nil_if_empty lines locals names))
          (u & v & w)
          (nil_if_empty lines locals names)
  three-Reads lines locals names = bind-Reads _ lines (bind-Reads _ locals (map-Reads _ names))

  line_items :
      (lines : List ℕ) → All (λ line. Reads (read_line host) (write_int host line) (pos line)) lines
  line_items [] = tt
  line_items (line ∷ lines) = (map-Reads pos (read_integer-Reads host line), line_items lines)

  local_items :
      (locals : List LocalInfo)
      → All LocalFits locals
      → All (λ l. Reads (read_local host) (write_local host l) (local_builder l)) locals
  local_items [] fits = tt
  local_items (l ∷ locals) (first, fits) = (read_local-Reads l first, local_items locals fits)

  name_items :
      (names : List Text)
      → All (TextFits host) names
      → All (λ name. Reads (read_name host) (write_string host (some name)) (some name)) names
  name_items [] fits = tt
  name_items (name ∷ names) (first, fits) = (read_name-Reads name first, name_items names fits)

  pub read_debug-Reads :
      (debug : Option Debug) (code_count upvalue_count : ℕ)
      → DebugFits debug
      → seal_prototype_debug code_count upvalue_count (debug_builder debug) ≡ ok debug
      → Reads
          (read_debug host code_count upvalue_count)
          (write_debug host debug)
          (debug_builder debug)
  unfolding seal_prototype_debug
  read_debug-Reads none code_count upvalue_count fits sealed =
      three-Reads
        (no_vector-Reads (λ count. not (count == 0) && not (count == code_count)) (read_line host)
          refl)
        (no_vector-Reads (any_count host) (read_local host) refl)
        (no_vector-Reads (λ count. ltb upvalue_count count) (read_name host)
          (le→ltb_false upvalue_count 0 (omega arith)))
  read_debug-Reads (some d) code_count upvalue_count fits sealed =
      let b = built d in
      let (counts, h1) = then-eq-ok (check_debug_counts code_count upvalue_count b) _ sealed in
      let (lines, e1, h2) = bind-eq-ok (seal_lines 0 b.lines) _ h1 in
      let (locals, e2, h3) = bind-eq-ok (seal_locals code_count 0 b.locals) _ h2 in
      let (names, e3, h4) = bind-eq-ok (seal_names 0 b.upvalue_names) _ h3 in
      let (line_count, name_count) = some_counts code_count upvalue_count b counts in
      let filled : debug_unless_empty d.lines d.locals d.upvalue_names ≡ some d =
        whole lines locals names d (ok-injective h4) in
      rw (← not_empty d.lines d.locals d.upvalue_names d filled) (
        three-Reads
          (read_vector-Reads host _ (read_line host) (write_int host) pos d.lines
            (rw (length-map pos d.lines) at line_count) (line_items d.lines))
          (read_vector-Reads host (any_count host) (read_local host) (write_local host)
            local_builder d.locals refl (local_items d.locals fits.0))
          (read_vector-Reads host (λ count. ltb upvalue_count count) (read_name host)
            (λ name. write_string host (some name)) some d.upvalue_names
            (rw (length-map {B = Option Text} some d.upvalue_names) at name_count)
            (name_items d.upvalue_names fits.1)))
