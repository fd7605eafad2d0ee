-- ===== src/Lib.antt =====
-- The core of Lunar, a Lua 5.1 runtime in Go: instruction words, the bytecode verifier and what the
-- executor takes from it, slots, binary chunks, tables, pattern matching, and the schedule of the
-- collector.
--
-- Parts and files. The compiler and the chunk decoder (chunk.go) hand code to `prototypeBuilder.seal`
-- (prototype.go), which has it verified (verify.go); the executor (execute.go and its siblings) then
-- reads words, registers and constants without bounds checks. The string library searches with
-- pattern.go. Allocation charges collection_control.go, and the executor asks it at safe points.
--
--   Base        shared names, Boolean tests, lists and signed integers on the native numbers
--   Opcode      opcode.go: building, reading and patching words; Fields and FloatingByte are proofs
--   Slot        value.go: the two-word slot, `kind` and the `is...` predicates; Laws are proofs
--   Verify      verify.go, prototype.go: Prototype (data), Checks (`check...`), Words
--               (`classifyPrototypeWords`), Instructions (the cases of
--               `verifyPrototypeInstruction`), Flow (`verifyOpenResultFlow`, `verifyPrototype`),
--               Seal (`verifyPrototypeHeader`, `sealPrototypeDebug`, `seal`); proofs in Roles,
--               Sealed and DebugTables
--   Executor    execute.go, execute_calls.go, execute_continuation.go, execute_table.go: the accesses
--               and successors of each operation, and the runs of a frame; proofs in Bounds,
--               Verified, Control, Safety and Pairs
--   Pattern     pattern.go: Class (`matchPatternClass`), Item (`classEnd`, `singleMatch`), Matcher
--               (`matchFrom` and what it calls), Search (`searchFrom`, `captureValue`); proofs in
--               Invariant, Captures, Loops, Bounds, Found and Ranges
--   StringRef   string.go: `hashString` and the word of a string slot; proofs in Samples and Laws
--   Chunk       chunk.go: Function (what a chunk holds), Written (`chunkWriter`), Decoder
--               (`chunkDecoder`, single values), Code (the words), Writer (`dumpPrototype`), Reader
--               (`decodeBinaryChunk`); proofs in Accepted, Loaded, Reads, Words, Debug, Reseal,
--               Specialized, Nested, Heads and RoundTrip
--   Table       table_store.go, table_storage.go, table.go: Store (nodes, `find`, `get`, `findStored`,
--               hashes), Insert (`insertAbsent` and what it calls, `deleteAt`, `reviveAt`), Change
--               (`init`, `rehash`, `replaceTableValue`, `retireDeletedReferenceKey`, the stores that
--               come about), Object (`rawIntSlot`, `rawLen`), Sizes (`growTableArrayCapacity`,
--               `selectArrayDensity`, `nextPowerOfTwo`). Proofs: Border, Growth and Density on the
--               length and the sizes; Counts, Counted, Reclaimed, Freed, Inserted, Scan, Lookup and Kept
--               on the counters; Chain and its children on the links between nodes (cutting, joining,
--               walking them); Map and its children on the store as a map of keys to values; Room and
--               its children on panics and on the search for a free node
--   Collection  collection_control.go: `charge`, `resetDebt`, `release` and the other operations, and
--               library_base.go: the writes of the pause and the step multiplier; proofs in Budget and
--               Schedule
--
-- A function of the source keeps its name in snake case. A panic or a missing value is `none`, an
-- error is a constructor that names its message, and a method that writes its receiver answers the
-- receiver afterwards. The Tests modules run the definitions on small inputs.
--
-- Bounds. Words are numbers below 2 ^ 32 and slots and byte counts numbers below 2 ^ 64, with the
-- source's saturation and wrap-around written out. The loops of the matcher have rounds: one more
-- than the length of the pattern for the main loop, one more than the rest of the subject for a
-- minimal repetition and for the search; `out_of_rounds` would mark a loop that ran out. The
-- recursion depth of the matcher is the source's 8192, and the nesting of the functions of a chunk
-- its 200. The loop of `rawLen` that doubles has 64 rounds, more than a 63-bit key can take, its
-- binary search as many as keys lie between the bounds, and a walk along a chain of the store as
-- many as it has nodes. The loop of the floating byte has 64 rounds, more than a 64-bit value can
-- take.
--
-- Not modelled: the values that the executor computes and the ways metamethods go; contexts that
-- cancel a search; the collector's mark and sweep and the attribution of long strings; the input of a
-- chunk that fails, and the budget and cancellation of a load; the string pool; the table's
-- choice between growing and redistributing, moving keys between its parts, and `next`; which entries of
-- a weak table the collector clears; lexer, parser, compiler, coroutines, the host interface
-- and the libraries. The bits of a float64 and the test whether they are a positive integer are Go's,
-- and parameters of the table modules.
pub mod Base
pub mod Opcode
pub mod Slot
pub mod StringRef
pub mod Verify
pub mod Executor
pub mod Pattern
pub mod Collection
pub mod Chunk
pub mod Table
