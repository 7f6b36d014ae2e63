-- ===== src/CensusBuilder.antt =====
-- censusbuilder/censusbuilder.go: several censuses, each in a database of its own.
-- CensusBuilder.Operations has the methods, the other modules what holds of them.
pub mod Operations
pub mod Directory
pub mod Creation
pub mod Loading
pub mod Messages
pub mod Registry
pub mod Registered
pub mod RegisteredCalls
pub mod RegisteredCreation
pub mod RegistryRefinement
pub mod RegisteredProofs
