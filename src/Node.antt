-- ===== src/Node.antt =====
-- cmd/ovote-node/cmd.go: what the node does when it starts.
pub mod Start
pub mod Serving
pub mod Resume
