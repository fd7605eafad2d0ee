-- ===== src/Verify/Sealed.antt =====
-- What a sealed prototype is known by, and that sealing consumes the builder.
use lunar.Base.{◌≤◌, ◌≡◌, refl, ap, sym, true, false, Option, arith, length}
use lunar.Base.Int.{ℤ, pos, negsuc, pos_part, is_negative}
use lunar.Verify.Prototype.{Prototype, Child, Debug, ok, refuse, builder_consumed}
use lunar.Verify.Flow.{verify_prototype}
use lunar.Verify.Roles.{bind-eq-ok, then-eq-ok, ok-injective}
use lunar.Verify.Seal.{
  Builder, check_header, seal_prototype_debug, sealed_header, verify_prototype_header, mark_sealed,
  seal_fresh, seal, max_uint32,
}

-- The header of a builder that passed its check.
pub record IsHeader (b : Builder) : Type 0 where
  pub line_defined : b.line_defined ≡ pos (pos_part b.line_defined)
  pub last_line : b.last_line ≡ pos (pos_part b.last_line)
  pub lines_fit : pos_part b.last_line ≤ max_uint32
  pub lines_ordered : pos_part b.line_defined ≤ pos_part b.last_line
  pub parameters : b.parameters ≡ pos (pos_part b.parameters)
  pub registers : b.registers ≡ pos (pos_part b.registers)
  pub some_register : 1 ≤ pos_part b.registers
  pub few_registers : pos_part b.registers ≤ 250
  pub parameters_fit : pos_part b.parameters ≤ pos_part b.registers
  pub upvalues : b.upvalues ≡ pos (pos_part b.upvalues)
  pub few_upvalues : pos_part b.upvalues ≤ 60
  pub vararg_flags : b.vararg_flags ≡ pos (pos_part b.vararg_flags)
  pub few_flags : pos_part b.vararg_flags ≤ 7

pos-pos_part : (a : ℤ) → is_negative a ≡ false → a ≡ pos (pos_part a)
pos-pos_part (pos n) h = refl
pos-pos_part (negsuc n) h = cc

pub check_header-IsHeader : (b : Builder) → check_header b ≡ ok tt → IsHeader b
unfolding check_header
check_header-IsHeader b h = ground arith

-- The prototype that the header's pass builds holds the builder's fields unchanged: the
-- conversions to narrower words lose nothing.
pub record Holds (b : Builder) (p : Prototype) : Type 0 where
  pub code : p.code ≡ b.code
  pub constants : p.constants ≡ b.constants
  pub children : p.children ≡ b.children
  pub line_defined : pos p.line_defined ≡ b.line_defined
  pub last_line : pos p.last_line ≡ b.last_line
  pub parameters : pos p.parameters ≡ b.parameters
  pub registers : pos p.registers ≡ b.registers
  pub upvalues : pos p.upvalues ≡ b.upvalues
  pub vararg_flags : pos p.vararg_flags ≡ b.vararg_flags

-- The frame of a sealed prototype has 1 to 250 registers that hold its parameters, and at most 60
-- upvalues.
pub record IsFrame (p : Prototype) : Type 0 where
  pub some_register : 1 ≤ p.registers
  pub few_registers : p.registers ≤ 250
  pub parameters_fit : p.parameters ≤ p.registers
  pub few_upvalues : p.upvalues ≤ 60
  pub lines_ordered : p.line_defined ≤ p.last_line

pub verify_prototype_header-debug :
    (b : Builder) (p : Prototype)
    → verify_prototype_header b ≡ ok p
    → (check_header b ≡ ok tt)
      × (debug : Option Debug) × (seal_prototype_debug (length b.code) (pos_part b.upvalues) b.debug
          ≡ ok debug)
      × (p ≡ sealed_header b debug)
unfolding verify_prototype_header
verify_prototype_header-debug b p h =
    let (header, rest) = then-eq-ok (check_header b) _ h in
    let (debug, e, r) =
      bind-eq-ok (seal_prototype_debug (length b.code) (pos_part b.upvalues) b.debug) _ rest in
    (header, debug, e, sym (ok-injective r))

header_values :
    (b : Builder) (debug : Option Debug)
    → IsHeader b
    → Holds b (sealed_header b debug) × IsFrame (sealed_header b debug)
header_values b debug i = (
  record {
    code = refl;
    constants = refl;
    children = refl;
    line_defined = ground arith;
    last_line = ground arith;
    parameters = ground arith;
    registers = ground arith;
    upvalues = ground arith;
    vararg_flags = ground arith;
  },
  omega arith,
)

pub seal_fresh-parts :
    (b : Builder) (p : Prototype) (c : Child)
    → seal_fresh b ≡ ok (p, c)
    → (verify_prototype_header b ≡ ok p) × (verify_prototype p ≡ ok tt) × (c ≡ mark_sealed p)
unfolding seal_fresh
seal_fresh-parts b p c h =
    let (built, header, rest) = bind-eq-ok (verify_prototype_header b) _ h in
    let (verified, e) = then-eq-ok (verify_prototype built) _ rest in
    let same : built ≡ p = ap (λ (r : Prototype × Child). r.0) (ok-injective e) in
    let mark : mark_sealed built ≡ c = ap (λ (r : Prototype × Child). r.1) (ok-injective e) in
    (rw same at header, rw same at verified, sym (rw same at mark))

pub seal-parts :
    (b : Builder) (p : Prototype) (c : Child)
    → (seal b).1 ≡ ok (p, c)
    → (b.consumed ≡ false) × (seal_fresh b ≡ ok (p, c))
unfolding seal
seal-parts b p c h = ground arith

-- A builder that `seal` accepts was not consumed. The prototype holds its code, constants, children
-- and header fields unchanged, passed verification, has 1 to 250 registers that hold its parameters
-- and at most 60 upvalues; and its mark makes it an acceptable child.
pub seal_lem :
    (b : Builder) (p : Prototype) (c : Child)
    → (seal b).1 ≡ ok (p, c)
    → (b.consumed ≡ false)
      × Holds b p
      × (verify_prototype p ≡ ok tt)
      × IsFrame p
      × (c.sealed ≡ true)
      × (c.upvalues ≡ p.upvalues)
unfolding mark_sealed
seal_lem b p c h =
    let (fresh, sealed) = seal-parts b p c h in
    let (header, verified, mark) = seal_fresh-parts b p c sealed in
    let (checked, debug, _, e) = verify_prototype_header-debug b p header in
    let (holds, frame) = header_values b debug (check_header-IsHeader b checked) in
    (fresh, rw e holds, verified, rw e frame, rw mark, rw mark)

-- `seal` consumes its builder whatever it answers: the builder it leaves is consumed, and sealing
-- that one again is refused and changes nothing.
pub seal_consumes :
    (b : Builder)
    → ((seal b).0.consumed ≡ true) × (seal (seal b).0 ≡ ((seal b).0, refuse builder_consumed))
unfolding seal
seal_consumes b = ground arith
