-- ===== src/Table.antt =====
-- table.go, table_storage.go, table_store.go: the array part of a table, its record store, its length
-- and its sizes.
pub mod Store
pub mod Object
pub mod Sizes
mod Growth
mod Density
mod Chain
mod Scan
mod Border
pub mod Insert
pub mod Change
mod Counts
mod Counted
mod Reclaimed
mod Freed
mod Inserted
mod Lookup
mod Kept
mod Map
mod Room
mod Tests
