-- ===== src/Chunk/Reseal.antt =====
-- A sealed prototype, put back into a builder, seals to itself.
use lunar.Base.{
  ℕ, ◌≤◌, ◌≡◌, refl, sym, ap, ◌∙◌, false, Option, none, some, Text, length, length-map, map,
}
use lunar.Base.Int.{pos, pos_part}
use lunar.Verify.Prototype.{Debug, Prototype, Child, ok}
use lunar.Verify.Flow.{verify_prototype}
use lunar.Verify.Roles.{bind-eq-ok, then-eq-ok, ok-injective}
use lunar.Verify.Seal.{
  Builder, DebugBuilder, seal_lines, seal_locals, seal_names, debug_unless_empty,
  check_debug_counts, seal_prototype_debug, sealed_header, verify_prototype_header, check_header,
  mark_sealed, seal_fresh, seal, max_uint32,
}
use lunar.Verify.Sealed.{
  Holds, seal_lem, seal-parts, seal_fresh-parts, verify_prototype_header-debug,
}
use lunar.Verify.DebugTables.{debug_unless_empty-some, seal_lines-length, seal_names-length}
use lunar.Chunk.Debug.{
  debug_builder, built, whole, seal_lines-again, seal_locals-again, seal_names-again,
}

counts-again :
    (n upvalues : ℕ) (b : DebugBuilder) (d : Debug)
    → length d.lines ≡ length b.lines
    → length d.upvalue_names ≡ length b.upvalue_names
    → check_debug_counts n upvalues b ≡ ok tt
    → check_debug_counts n upvalues (built d) ≡ ok tt
unfolding check_debug_counts
counts-again n upvalues b d lines names h =
    let line_count : length (built d).lines ≡ length b.lines = length-map pos d.lines ∙ lines in
    let name_count : length (built d).upvalue_names ≡ length b.upvalue_names =
      length-map {B = Option Text} some d.upvalue_names ∙ names in
    rw (line_count, name_count) h

sealed_debug-again :
    (n upvalues : ℕ) (d : Debug)
    → check_debug_counts n upvalues (built d) ≡ ok tt
    → seal_lines 0 (map pos d.lines) ≡ ok d.lines
    → seal_locals n 0 (built d).locals ≡ ok d.locals
    → debug_unless_empty d.lines d.locals d.upvalue_names ≡ some d
    → seal_prototype_debug n upvalues (some (built d)) ≡ ok (some d)
unfolding seal_prototype_debug
sealed_debug-again n upvalues d counts lines locals same =
    rw (counts, lines, locals, seal_names-again 0 d.upvalue_names) (ap ok same)

pub seal_prototype_debug-again :
    (n upvalues : ℕ) (b : Option DebugBuilder) (debug : Option Debug)
    → n ≤ max_uint32
    → seal_prototype_debug n upvalues b ≡ ok debug
    → seal_prototype_debug n upvalues (debug_builder debug) ≡ ok debug
unfolding seal_prototype_debug
seal_prototype_debug-again n upvalues b none short h = refl
seal_prototype_debug-again n upvalues none (some d) short h = cc
seal_prototype_debug-again n upvalues (some b) (some d) short h =
    let (counts, h1) = then-eq-ok (check_debug_counts n upvalues b) _ h in
    let (lines, e1, h2) = bind-eq-ok (seal_lines 0 b.lines) _ h1 in
    let (locals, e2, h3) = bind-eq-ok (seal_locals n 0 b.locals) _ h2 in
    let (names, e3, h4) = bind-eq-ok (seal_names 0 b.upvalue_names) _ h3 in
    let (same_lines, same_locals, same_names) =
      debug_unless_empty-some lines locals names d (ok-injective h4) in
    let line_count = seal_lines-length 0 b.lines lines e1 in
    let name_count = seal_names-length 0 b.upvalue_names names e3 in
    sealed_debug-again n upvalues d
      (counts-again n upvalues b d (rw (← same_lines) line_count) (rw (← same_names) name_count)
        counts)
      (rw (← same_lines) (seal_lines-again 0 0 b.lines lines e1))
      (rw (← same_locals) (seal_locals-again n 0 0 b.locals locals short e2))
      (whole lines locals names d (ok-injective h4))

abbrev pub builder_again : Prototype → Builder
builder_again p = record {
  line_defined = pos p.line_defined;
  last_line = pos p.last_line;
  parameters = pos p.parameters;
  registers = pos p.registers;
  upvalues = pos p.upvalues;
  vararg_flags = pos p.vararg_flags;
  code = p.code;
  constants = p.constants;
  children = p.children;
  debug = debug_builder p.debug;
  consumed = false;
}

builder_again-Holds :
    (b : Builder) (p : Prototype)
    → Holds b p
    → builder_again p ≡ record b { debug = debug_builder p.debug; consumed = false }
builder_again-Holds b p holds = rw (
  holds.line_defined, holds.last_line, holds.parameters, holds.registers, holds.upvalues,
  holds.vararg_flags, holds.code, holds.constants, holds.children,
)

check_header-again :
    (b : Builder) (debug : Option DebugBuilder)
    → check_header b ≡ ok tt
    → check_header (record b { debug = debug; consumed = false }) ≡ ok tt
unfolding check_header
check_header-again b debug h = h

verify_prototype_header-again :
    (b : Builder) (p : Prototype) (debug : Option Debug)
    → check_header b ≡ ok tt
    → seal_prototype_debug (length b.code) (pos_part b.upvalues) (debug_builder debug) ≡ ok debug
    → p ≡ sealed_header b debug
    → verify_prototype_header (record b { debug = debug_builder debug; consumed = false }) ≡ ok p
unfolding verify_prototype_header
verify_prototype_header-again b p debug header tables same =
    rw (check_header-again b (debug_builder debug) header, tables) (ap ok (sym same))

seal_fresh-again :
    (b : Builder) (p : Prototype)
    → verify_prototype_header b ≡ ok p
    → verify_prototype p ≡ ok tt
    → seal_fresh b ≡ ok (p, mark_sealed p)
unfolding seal_fresh
seal_fresh-again b p header verified = rw (header, verified)

seal-fresh :
    (b : Builder) (debug : Option DebugBuilder)
    → (seal (record b { debug = debug; consumed = false })).1
      ≡ seal_fresh (record b { debug = debug; consumed = false })
unfolding seal
seal-fresh b debug = refl

-- The answer of `seal`, asked again.
pub seal-again :
    (b : Builder) (p : Prototype) (c : Child)
    → length p.code ≤ max_uint32
    → (seal b).1 ≡ ok (p, c)
    → ((seal (builder_again p)).1 ≡ ok (p, c))
      × (seal_prototype_debug (length p.code) p.upvalues (debug_builder p.debug) ≡ ok p.debug)
seal-again b p c short h =
    let (_, holds, verified, _, _, _) = seal_lem b p c h in
    let (_, sealed) = seal-parts b p c h in
    let (header, _, mark) = seal_fresh-parts b p c sealed in
    let (checked, debug, answer, same) = verify_prototype_header-debug b p header in
    let kept : p.debug ≡ debug = ap (λ (q : Prototype). q.debug) same in
    let tables =
      seal_prototype_debug-again (length b.code) (pos_part b.upvalues) b.debug debug
        (rw (← holds.code) short) answer in
    let again : (seal (record b { debug = debug_builder debug; consumed = false })).1
        ≡ ok (p, mark_sealed p) =
      seal-fresh b (debug_builder debug)
      ∙ seal_fresh-again _ p (verify_prototype_header-again b p debug checked tables same)
          verified in
    let upvalues : p.upvalues ≡ pos_part b.upvalues = ap pos_part holds.upvalues in
    let start : (seal (builder_again p)).1
        ≡ (seal (record b { debug = debug_builder debug; consumed = false })).1 =
      rw (builder_again-Holds b p holds, kept) in
    (rw mark (start ∙ again), rw (kept, holds.code, upvalues) tables)
