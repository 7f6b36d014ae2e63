-- ===== src/Api.antt =====
-- api/api.go and api/types.go: the HTTP API. Api.Atoi reads the ids of the paths, Api.Handlers has
-- the handlers, Api.Routes the routes, the other modules what holds of them.
pub mod Atoi
pub mod Handlers
pub mod Routes
pub mod Votes
pub mod MerkleProofs
pub mod Goroutines
pub mod Weights
