-- ===== src/Chunk/Function.antt =====
-- chunk.go, prototype.go: the functions that a chunk holds. Names are interned in one compile unit, so
-- that two of the source's pointers are the same exactly if the texts are.
use lunar.Base.{ℕ, Bool, true, false, Option, some, Text, List, [], ◌∷◌, map}
use lunar.Slot.{Slot, nil_slot_bits, false_slot_bits, true_slot_bits}
use lunar.StringRef.{string_slot}
use lunar.Verify.Prototype.{Prototype, Child, Debug}

-- The host's byte order, and the size of its words.
pub data WordSize : Type 0 where
  four_bytes eight_bytes : WordSize

pub record Host : Type 0 where
  pub big_endian : Bool
  pub word_size : WordSize

-- The constants that verification admits, with the text that the pointer of a string stands for.
pub data Constant : Type 0 where
  nil_constant : Constant
  bool_constant : Bool → Constant
  number_constant : ℕ → Constant
  string_constant : Text → Constant

abbrev pub constant_slot : Constant → Slot
constant_slot nil_constant = record { ref = false; bits = nil_slot_bits }
constant_slot (bool_constant true) = record { ref = false; bits = true_slot_bits }
constant_slot (bool_constant false) = record { ref = false; bits = false_slot_bits }
constant_slot (number_constant bits) = record { ref = false; bits = bits }
constant_slot (string_constant text) = string_slot text

-- A prototype without its children.
pub record Body : Type 0 where
  pub source_name : Option Text
  pub code : List ℕ
  pub constants : List Constant
  pub debug : Option Debug
  pub line_defined : ℕ
  pub last_line : ℕ
  pub parameters : ℕ
  pub registers : ℕ
  pub upvalues : ℕ
  pub vararg_flags : ℕ
  pub sealed : Bool

mutual
  pub data Function : Type 0 where
    function : Body → Functions → Function

  pub data Functions : Type 0 where
    no_functions : Functions
    next_function : Function → Functions → Functions

abbrev pub mark : Function → Child
mark (function body children) = record { upvalues = body.upvalues; sealed = body.sealed }

abbrev pub marks : Functions → List (Option Child)
marks no_functions = []
marks (next_function f fs) = some (mark f) ∷ marks fs

-- What verification and execution read of a function.
abbrev pub prototype_of : Function → Prototype
prototype_of (function body children) = record {
  code = body.code;
  constants = map constant_slot body.constants;
  children = marks children;
  debug = body.debug;
  line_defined = body.line_defined;
  last_line = body.last_line;
  parameters = body.parameters;
  registers = body.registers;
  upvalues = body.upvalues;
  vararg_flags = body.vararg_flags;
}
