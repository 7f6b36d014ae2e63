-- ===== src/Census.antt =====
-- census/census.go. Census.Store is the key-value database and the Merkle tree that a census stands
-- on, Census.Operations the methods, Census.Actions the sequences of calls, and the
-- other modules what holds of them.
pub mod Store
pub mod Operations
pub mod Fields
pub mod Actions
pub mod Lifecycle
pub mod Growth
pub mod Beginning
pub mod Membership
pub mod Batches
pub mod Proofs
pub mod Roll
pub mod RollEntries
pub mod RollWrites
pub mod RollRefinement
