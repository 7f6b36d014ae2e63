-- ===== src/Types.antt =====
-- The package `types`: processes, vote packages and their encodings.
pub mod Process
pub mod VotePackage
pub mod Encoding
pub mod Hex
pub mod HexRoundTrip
pub mod RoundTrip
pub mod ZkInputs
pub mod ZkJson
pub mod ZkJsonRoundTrip
