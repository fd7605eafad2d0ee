-- ===== src/Chunk/Accepted.antt =====
-- Whatever bytes a chunk holds, the functions that are read from it passed verification.
use lunar.Base.{ℕ, zero, suc, ◌≡◌, refl, Bool, true, false, Option, some, Text, List, map, length}
use mathlib.Core.Path.{subst}
use lunar.Slot.{Slot}
use lunar.Verify.Prototype.{Prototype, Child, Result, ok, err}
use lunar.Verify.Flow.{verify_prototype}
use lunar.Verify.Seal.{DebugBuilder, seal}
use lunar.Verify.Sealed.{IsFrame, seal_lem}
use lunar.Chunk.Function.{
  Host, Function, Functions, function, no_functions, next_function, marks, prototype_of,
  constant_slot,
}
use lunar.Chunk.Decoder.{Read, bad_code, got, failed, Decoder, go_on, read_integer}
use lunar.Chunk.Reader.{
  Head, builder_of, sealed_function, read_head, read_functions, read_children, read_debug,
  read_function, read_header, decode_binary_chunk, max_chunk_function_depth, chunk_fallback_source,
  or_fault, beyond_bx,
}

-- A sequence that gave a value: both parts did.
pub go_on-got {ℓ κ} :
    {A : Type ℓ} {B : Type κ} (r : Read A) (f : A → Decoder B) {b : B} {rest : List ℕ}
    → go_on r f ≡ got b rest
    → (a : A) × (mid : List ℕ) × (r ≡ got a mid) × (f a mid ≡ got b rest)
go_on-got (got a mid) f h = (a, mid, refl, h)
go_on-got (failed fault) f h = cc

pub got-injective {ℓ} : {A : Type ℓ} {a b : A} {r s : List ℕ} → got a r ≡ got b s → a ≡ b
got-injective h = cc

-- Every function of a tree passed verification, has the frame of a sealed one, and is sealed.
unfoldable mutual
  pub IsAccepted : Function → Type 0
  IsAccepted (function body children) =
      (verify_prototype (prototype_of (function body children)) ≡ ok tt)
      × IsFrame (prototype_of (function body children))
      × (body.sealed ≡ true)
      × AreAccepted children

  pub AreAccepted : Functions → Type 0
  AreAccepted no_functions = Unit
  AreAccepted (next_function f fs) = IsAccepted f × AreAccepted fs

same_prototype :
    (p : Prototype) (constants : List Slot) (children : List (Option Child))
    → p.constants ≡ constants
    → p.children ≡ children
    → p ≡ record p { constants = constants; children = children }
same_prototype p constants children e f = rw (← e, ← f)

sealed_function-IsAccepted :
    (head : Head) (children : Functions) (debug : Option DebugBuilder)
    (answer : Result (Prototype × Child)) (f : Function) (bytes rest : List ℕ)
    → AreAccepted children
    → (seal (builder_of head children debug)).1 ≡ answer
    → sealed_function head children answer bytes ≡ got f rest
    → IsAccepted f
unfolding IsAccepted
sealed_function-IsAccepted head children debug (err e) f bytes rest below answered h = cc
sealed_function-IsAccepted head children debug (ok (p, c)) f bytes rest below answered h =
    let (_, holds, verified, frame, sealed, _) =
      seal_lem (builder_of head children debug) p c answered in
    let same =
      same_prototype p (map constant_slot head.constants) (marks children) holds.constants
        holds.children in
    subst IsAccepted (got-injective h) (
      subst (λ q. verify_prototype q ≡ ok tt) same verified,
      subst IsFrame same frame,
      sealed,
      below,
    )

-- What a decoder may give, whatever it reads.
abbrev Gives : (Function → Type 0) → Decoder Function → Type 0
Gives P d = (bytes rest : List ℕ) (f : Function) → d bytes ≡ got f rest → P f

read_functions-AreAccepted :
    (host : Host) (count : ℕ) (read : Decoder Function) (bytes rest : List ℕ) (fs : Functions)
    → Gives IsAccepted read
    → read_functions host count read bytes ≡ got fs rest
    → AreAccepted fs
unfolding AreAccepted
read_functions-AreAccepted host zero read bytes rest fs each h =
    subst AreAccepted (got-injective h) tt
read_functions-AreAccepted host (suc count) read bytes rest fs each h =
    let (f, mid, first, h1) = go_on-got (read bytes) _ h in
    let (more, mid', others, h2) = go_on-got (read_functions host count read mid) _ h1 in
    subst AreAccepted (got-injective h2)
      (each bytes mid f first, read_functions-AreAccepted host count read mid mid' more each others)

read_children-AreAccepted :
    (host : Host) (read : Decoder Function) (bytes rest : List ℕ) (fs : Functions)
    → Gives IsAccepted read
    → read_children host read bytes ≡ got fs rest
    → AreAccepted fs
read_children-AreAccepted host read bytes rest fs each h =
    let (count, mid, first, h1) = go_on-got (read_integer host bytes) _ h in
    within_bx count mid (beyond_bx host count) h1
  where
    within_bx :
        (count : ℕ) (mid : List ℕ) (bad : Bool)
        → or_fault bad bad_code (read_functions host count read) mid ≡ got fs rest
        → AreAccepted fs
    within_bx count mid true e = cc
    within_bx count mid false e = read_functions-AreAccepted host count read mid rest fs each e

read_function-IsAccepted :
    (host : Host) (levels : ℕ) (parent : Option Text)
    → Gives IsAccepted (read_function host levels parent)
unfolding read_function
read_function-IsAccepted host zero parent bytes rest f h = cc
read_function-IsAccepted host (suc levels) parent bytes rest f h =
    let (head, r1, _, h1) = go_on-got (read_head host parent bytes) _ h in
    let (children, r2, below, h2) =
      go_on-got (read_children host (read_function host levels head.source_name) r1) _ h1 in
    let (debug, r3, _, h3) = go_on-got (read_debug host (length head.code) head.upvalues r2) _ h2 in
    sealed_function-IsAccepted head children debug (seal (builder_of head children debug)).1 f r3
      rest
      (read_children-AreAccepted host (read_function host levels head.source_name) r1 r2 children
        (read_function-IsAccepted host levels head.source_name) below)
      refl h3

-- Whatever the bytes are, every function of a chunk that is read has passed verification, has 1 to 250
-- registers that hold its parameters, and is sealed, and so have all functions inside it.
pub decode_binary_chunk-IsAccepted :
    (host : Host) (bytes rest : List ℕ) (f : Function)
    → decode_binary_chunk host bytes ≡ got f rest
    → IsAccepted f
unfolding decode_binary_chunk
decode_binary_chunk-IsAccepted host bytes rest f h =
    let (_, mid, _, h1) = go_on-got (read_header host bytes) _ h in
    read_function-IsAccepted host max_chunk_function_depth (some chunk_fallback_source) mid rest f
      h1
