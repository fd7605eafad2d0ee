-- ===== src/Chunk/Nested.antt =====
-- What a function has to hold to be dumped and loaded again, all the way down.
use lunar.Base.{ℕ, zero, suc, ◌<◌, ◌≤◌, ◌^◌, ◌≡◌, true, false, some, length, Text, All, map}
use lunar.Slot.{canonical_number_bits}
use lunar.Verify.Prototype.{ok}
use lunar.Verify.Seal.{Builder, seal, max_uint32}
use lunar.Chunk.Function.{
  Host, Constant, nil_constant, bool_constant, number_constant, string_constant, constant_slot,
  Body, Function, Functions, function, no_functions, next_function, mark, prototype_of,
}
use lunar.Chunk.Code.{is_specialized}
use lunar.Chunk.Words.{IsWord}
use lunar.Chunk.Reads.{TextFits}
use lunar.Chunk.Debug.{DebugFits}

module _ (host : Host) where
  -- A number has canonical bits, a text a length that fits.
  abbrev pub ConstantFits : Constant → Type 0
  ConstantFits nil_constant = Unit
  ConstantFits (bool_constant value) = Unit
  ConstantFits (number_constant bits) = (bits < 2 ^ 64) × (canonical_number_bits bits ≡ bits)
  ConstantFits (string_constant text) = TextFits host text

  -- A body that was sealed from some builder. Its source has a name, its words have 32 bits and their
  -- number fits a uint32, and an instruction has the field form where its key operand is a string
  -- constant, and only there.
  pub record IsSealed (body : Body) (children : Functions) : Type 0 where
    pub source : Text
    pub named : body.source_name ≡ some source
    pub source_fits : TextFits host source
    pub words : All IsWord body.code
    pub constants : All ConstantFits body.constants
    pub debug : DebugFits host body.debug
    pub specialized : is_specialized (map constant_slot body.constants) false body.code ≡ true
    pub short : length body.code ≤ max_uint32
    pub builder : Builder
    pub sealed :
        (seal builder).1 ≡ ok (prototype_of (function body children), mark (function body children))

  -- Every function of the tree is such, and the tree has at most this many levels.
  unfoldable mutual
    pub IsDumpable : ℕ → Function → Type 0
    IsDumpable zero f = ⊥
    IsDumpable (suc levels) (function body children) =
        IsSealed body children × AreDumpable levels children

    pub AreDumpable : ℕ → Functions → Type 0
    AreDumpable levels no_functions = Unit
    AreDumpable levels (next_function f fs) = IsDumpable levels f × AreDumpable levels fs
