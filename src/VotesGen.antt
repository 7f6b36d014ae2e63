-- ===== src/VotesGen.antt =====
-- test/votesgen.go: keys, a census of them and the votes that they sign.
pub mod Generate
pub mod Voters
pub mod Verified
