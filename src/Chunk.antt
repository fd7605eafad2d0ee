-- ===== src/Chunk.antt =====
-- chunk.go: the binary chunks of Lua 5.1, written and read. The input is the sequence of bytes that the
-- pieces of a load make up; a refill that fails, and a load control that cancels or runs out of its
-- budget, are not modelled.
pub mod Function
pub mod Written
pub mod Decoder
pub mod Code
pub mod Writer
pub mod Reader
mod Accepted
mod Reads
mod Debug
mod Words
mod Reseal
mod Specialized
mod Nested
mod Heads
mod RoundTrip
mod Loaded
mod Tests
