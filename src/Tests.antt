-- ===== src/Tests.antt =====
-- Concrete runs: the theorems at inputs that meet their hypotheses.
mod Toy
mod Store
mod Votes
mod Chain
mod Simulations
mod ToyCensus
mod Censuses
mod Voters
mod Rolls
mod Registries
mod Builders
mod Replies
mod Hexes
mod Servers
mod Goroutines
mod Weights
mod Provers
mod Deliveries
mod Nodes
mod Polling
mod Jsons
