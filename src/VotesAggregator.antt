-- ===== src/VotesAggregator.antt =====
-- votesaggregator/votesaggregator.go. The database is passed on as a state; the prover is the
-- client of Prover.Client, here an interface.
pub mod AddVote
pub mod ZkInputs
pub mod Slots
pub mod Columns
pub mod Receipts
pub mod Untouched
pub mod Represents
pub mod Ballots
pub mod Capacity
pub mod Counting
pub mod Proofs
pub mod ProofRequests
pub mod Result
pub mod SyncProcesses
