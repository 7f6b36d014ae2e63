-- ===== src/Db.antt =====
-- The package `db`: the SQLite store. Each statement is a function on the tables.
pub mod Schema
pub mod Query
pub mod Meta
pub mod Processes
pub mod VotePackages
pub mod Proofs
pub mod Invariant
pub mod Writes
pub mod Integrity
pub mod History
pub mod VoteOrder
pub mod VoteCollision
pub mod Freezing
pub mod FreezingById
pub mod ProcessLookup
pub mod SyncBlock
