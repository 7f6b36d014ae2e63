-- ===== src/Prover.antt =====
-- prover/client.go, the client of the prover's server.
pub mod Client
pub mod Replies
