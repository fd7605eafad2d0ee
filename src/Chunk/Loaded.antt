-- ===== src/Chunk/Loaded.antt =====
-- A chunk that was loaded, and the executor: the functions of the chunk run inside their prototypes.
use lunar.Base.{ℕ, ◌≡◌, ◌<◌, some, List, length, All}
use lunar.Opcode.{Opcode, opcode}
use lunar.Verify.Prototype.{ok, word}
use lunar.Verify.Flow.{verify_prototype}
use lunar.Executor.{accesses, successors, Reach}
use lunar.Executor.Bounds.{InBounds}
use lunar.Executor.Safety.{IsInside, execution_safe}
use lunar.Chunk.Function.{Host, Body, Function, Functions, function, next_function, prototype_of}
use lunar.Chunk.Decoder.{got}
use lunar.Chunk.Reader.{decode_binary_chunk}
use lunar.Chunk.Accepted.{IsAccepted, AreAccepted, decode_binary_chunk-IsAccepted}

-- A function is itself, or a child, or a child's child, and so on.
mutual
  pub data Part : Function → Function → Type 0 where
    whole : {f : Function} → Part f f
    inner : {g : Function} {body : Body} {fs : Functions} → PartOf g fs → Part g (function body fs)

  pub data PartOf : Function → Functions → Type 0 where
    here : {g f : Function} {fs : Functions} → Part g f → PartOf g (next_function f fs)
    there : {g f : Function} {fs : Functions} → PartOf g fs → PartOf g (next_function f fs)

mutual
  unfolding IsAccepted

  Part-IsAccepted : (g f : Function) → Part g f → IsAccepted f → IsAccepted g
  Part-IsAccepted g f whole accepted = accepted
  Part-IsAccepted g f (inner p) accepted = PartOf-IsAccepted g _ p accepted.3

  PartOf-IsAccepted : (g : Function) (fs : Functions) → PartOf g fs → AreAccepted fs → IsAccepted g
  PartOf-IsAccepted g fs (here p) accepted = Part-IsAccepted g _ p accepted.0
  PartOf-IsAccepted g fs (there p) accepted = PartOf-IsAccepted g _ p accepted.1

accepted_verified : (g : Function) → IsAccepted g → verify_prototype (prototype_of g) ≡ ok tt
unfolding IsAccepted
accepted_verified (function body children) accepted = accepted.0

-- Whatever bytes a chunk is read from, a run of the function that was read, or of any function inside
-- it, stays inside the code: at every word that it comes to stands a known operation, every register,
-- constant, upvalue, child and code word that the executor touches there exists, and so does every word
-- at which it may go on.
pub decode_binary_chunk-execution_safe :
    (host : Host) (bytes rest : List ℕ) (f g : Function) (pc : ℕ)
    → decode_binary_chunk host bytes ≡ got f rest
    → Part g f
    → Reach (prototype_of g) pc
    → (pc < length (prototype_of g).code)
      × (op : Opcode) × (opcode (word (prototype_of g) pc) ≡ some op)
      × All (InBounds (prototype_of g)) (accesses (prototype_of g) pc (word (prototype_of g) pc) op)
      × All
          (IsInside (prototype_of g))
          (successors (prototype_of g) pc (word (prototype_of g) pc) op)
decode_binary_chunk-execution_safe host bytes rest f g pc loaded part r =
    let accepted =
      Part-IsAccepted g f part (decode_binary_chunk-IsAccepted host bytes rest f loaded) in
    execution_safe (prototype_of g) pc (accepted_verified g accepted) r
