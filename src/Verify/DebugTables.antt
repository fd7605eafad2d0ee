-- ===== src/Verify/DebugTables.antt =====
-- What the debug tables of a sealed prototype hold.
use lunar.Base.{
  ℕ, suc, ◌+◌, ◌≤◌, ◌≡◌, ap, ◌⊎◌, Option, none, some, Text, List, [], ◌∷◌, arith, length, All,
}
use lunar.Base.Int.{ℤ, pos_part}
use lunar.Verify.Prototype.{Prototype, Child, LocalInfo, Debug, ok}
use lunar.Verify.Roles.{bind-eq-ok, then-eq-ok, ok-injective}
use lunar.Verify.Seal.{
  debug_unless_empty, check_debug_counts, Builder, DebugBuilder, LocalBuilder, seal_lines,
  seal_locals, seal_names, seal_local, seal_prototype_debug, sealed_header, seal, max_uint32,
}
use lunar.Verify.Sealed.{
  IsHeader, check_header-IsHeader, verify_prototype_header-debug, seal_fresh-parts, seal-parts,
}

pub seal_lines-length :
    (index : ℕ) (lines : List ℤ) (sealed : List ℕ)
    → seal_lines index lines ≡ ok sealed
    → length sealed ≡ length lines
unfolding seal_lines
seal_lines-length index [] sealed h = let same : [] ≡ sealed = ok-injective h in rw (← same)
seal_lines-length index (line ∷ rest) sealed h =
    let (_, h') = then-eq-ok _ _ h in
    let (tail, e, r) = bind-eq-ok (seal_lines (index + 1) rest) _ h' in
    let same : pos_part line ∷ tail ≡ sealed = ok-injective r in
    rw (← same) (ap suc (seal_lines-length (index + 1) rest tail e))

-- A local's lifetime lies in the code.
abbrev pub LivesIn : ℕ → LocalInfo → Type 0
LivesIn code_length l = (l.start_pc ≤ l.end_pc) × (l.end_pc ≤ code_length)

seal_local-LivesIn :
    (code_length index : ℕ) (b : LocalBuilder) (name : Option Text) (l : LocalInfo)
    → code_length ≤ max_uint32
    → seal_local code_length index b name ≡ ok l
    → LivesIn code_length l
seal_local-LivesIn code_length index b none l small h = cc
seal_local-LivesIn code_length index b (some name) l small h = ground arith

seal_locals-LivesIn :
    (code_length index : ℕ) (locals : List LocalBuilder) (sealed : List LocalInfo)
    → code_length ≤ max_uint32
    → seal_locals code_length index locals ≡ ok sealed
    → All (LivesIn code_length) sealed
unfolding seal_locals
seal_locals-LivesIn code_length index [] sealed small h =
    let same : [] ≡ sealed = ok-injective h in rw (← same) tt
seal_locals-LivesIn code_length index (l ∷ rest) sealed small h =
    let (one, first, h') = bind-eq-ok (seal_local code_length index l l.name) _ h in
    let (tail, e, r) = bind-eq-ok (seal_locals code_length (index + 1) rest) _ h' in
    let same : one ∷ tail ≡ sealed = ok-injective r in
    rw (← same) (
      seal_local-LivesIn code_length index l l.name one small first,
      seal_locals-LivesIn code_length (index + 1) rest tail small e,
    )

pub seal_names-length :
    (index : ℕ) (names : List (Option Text)) (sealed : List Text)
    → seal_names index names ≡ ok sealed
    → length sealed ≡ length names
unfolding seal_names
seal_names-length index [] sealed h = let same : [] ≡ sealed = ok-injective h in rw (← same)
seal_names-length index (none ∷ rest) sealed h = cc
seal_names-length index (some name ∷ rest) sealed h =
    let (tail, e, r) = bind-eq-ok (seal_names (index + 1) rest) _ h in
    let same : name ∷ tail ≡ sealed = ok-injective r in
    rw (← same) (ap suc (seal_names-length (index + 1) rest tail e))

-- The tables of a debug record fit the code.
pub record IsDebug (code_length upvalues : ℕ) (d : Debug) : Type 0 where
  pub lines : (length d.lines ≡ 0) ⊎ (length d.lines ≡ code_length)
  pub locals : All (LivesIn code_length) d.locals
  pub names : length d.upvalue_names ≤ upvalues

pub debug_unless_empty-some :
    (lines : List ℕ) (locals : List LocalInfo) (names : List Text) (d : Debug)
    → debug_unless_empty lines locals names ≡ some d
    → (lines ≡ d.lines) × (locals ≡ d.locals) × (names ≡ d.upvalue_names)
debug_unless_empty-some [] [] [] d h = cc
debug_unless_empty-some [] [] (n ∷ names) d h = ground arith
debug_unless_empty-some [] (l ∷ locals) names d h = ground arith
debug_unless_empty-some (l ∷ lines) locals names d h = ground arith

debug_counts :
    (code_length upvalues : ℕ) (d : DebugBuilder)
    → check_debug_counts code_length upvalues d ≡ ok tt
    → ((length d.lines ≡ 0) ⊎ (length d.lines ≡ code_length)) × (length d.upvalue_names ≤ upvalues)
unfolding check_debug_counts
debug_counts code_length upvalues d h = ground arith

seal_prototype_debug-IsDebug :
    (code_length upvalues : ℕ) (o : Option DebugBuilder) (d : Debug)
    → code_length ≤ max_uint32
    → seal_prototype_debug code_length upvalues o ≡ ok (some d)
    → IsDebug code_length upvalues d
unfolding seal_prototype_debug
seal_prototype_debug-IsDebug code_length upvalues none d small h = cc
seal_prototype_debug-IsDebug code_length upvalues (some b) d small h =
    let (counts, h1) = then-eq-ok (check_debug_counts code_length upvalues b) _ h in
    let (lines, e1, h2) = bind-eq-ok (seal_lines 0 b.lines) _ h1 in
    let (locals, e2, h3) = bind-eq-ok (seal_locals code_length 0 b.locals) _ h2 in
    let (names, e3, h4) = bind-eq-ok (seal_names 0 b.upvalue_names) _ h3 in
    let (line_count, name_count) = debug_counts code_length upvalues b counts in
    let (same_lines, same_locals, same_names) =
      debug_unless_empty-some lines locals names d (ok-injective h4) in
    record {
      lines = rw (← same_lines, seal_lines-length 0 b.lines lines e1) line_count;
      locals = rw (← same_locals) (seal_locals-LivesIn code_length 0 b.locals locals small e2);
      names = rw (← same_names, seal_names-length 0 b.upvalue_names names e3) name_count;
    }

upvalues_kept :
    (b : Builder) (p : Prototype) (debug : Option Debug)
    → IsHeader b
    → p ≡ sealed_header b debug
    → p.upvalues ≡ pos_part b.upvalues
upvalues_kept b p debug i same = rw same (omega arith)

-- A sealed prototype of at most 2^32-1 words that keeps debug tables keeps a line for each word or none at all, locals
-- whose lifetimes lie in the code, and no more upvalue names than upvalues.
pub seal-debug :
    (b : Builder) (p : Prototype) (c : Child) (d : Debug)
    → (seal b).1 ≡ ok (p, c)
    → p.debug ≡ some d
    → length p.code ≤ max_uint32
    → IsDebug (length p.code) p.upvalues d
seal-debug b p c d h e small =
    let (_, sealed) = seal-parts b p c h in
    let (header, _, _) = seal_fresh-parts b p c sealed in
    let (checked, debug, answer, same) = verify_prototype_header-debug b p header in
    let i = check_header-IsHeader b checked in
    let kept : debug ≡ some d = rw same at e in
    let code : p.code ≡ b.code = rw same in
    let upvalues : p.upvalues ≡ pos_part b.upvalues = upvalues_kept b p debug i same in
    rw (code, upvalues)
      (seal_prototype_debug-IsDebug (length b.code) (pos_part b.upvalues) b.debug d
        (rw code at small) (rw kept at answer))
