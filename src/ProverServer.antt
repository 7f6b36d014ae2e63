-- ===== src/ProverServer.antt =====
-- cmd/prover-server: the server that runs the prover. ProverServer.System has its handlers and
-- goroutines as threads that interleave, the other modules what holds of every interleaving.
pub mod System
pub mod Totals
pub mod Downloads
pub mod Locking
pub mod Progress
pub mod Provenance
pub mod Delivery
