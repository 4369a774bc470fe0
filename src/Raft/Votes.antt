-- ===== src/Raft/Votes.antt =====
-- What a step may do to the term and the vote of a node (raft/node.go): the relations that the
-- handlers keep, and the rules to build them.
pub mod Quiet
pub mod Handlers
pub mod Moves
pub mod Changes
pub mod Steps
pub mod Inputs
