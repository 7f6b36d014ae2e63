-- ===== src/Eth.antt =====
-- The package `eth`: events of the contract, and their synchronisation into the database.
pub mod Events
pub mod Words
pub mod Layouts
pub mod Parsing
mod OtherEvents
pub mod Sync
pub mod SyncedState
pub mod TestClient
pub mod Simulation
