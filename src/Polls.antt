-- ===== src/Polls.antt =====
-- The node seen from outside: polls that open, take ballots and freeze. Polls.Spec says it without
-- the tables, Polls.View reads the polls off the tables, Polls.Steps has what the node does, and
-- Polls.Refinement shows that it is among what Polls.Spec allows.
pub mod Spec
pub mod View
pub mod Steps
pub mod Writes
pub mod Refinement
pub mod Closing
pub mod Results
