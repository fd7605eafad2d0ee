-- ===== src/Pattern.antt =====
-- pattern.go: Lua 5.1 pattern matching, for calls without a context: the thread of the match state
-- is nil, so that no work is counted against a budget and nothing is cancelled.
pub mod Class
pub mod Item
pub mod Matcher
pub mod Search
mod Tests
mod Invariant
mod Captures
mod Loops
mod Bounds
mod Found
mod Ranges
