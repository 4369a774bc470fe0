-- ===== src/Raft.antt =====
-- raft/: the consensus core, a state machine without clocks, threads or a random source of its own.
pub mod Types
pub mod Log
pub mod State
pub mod Conf
pub mod Replication
pub mod Membership
pub mod Snapshots
pub mod Responses
pub mod Election
pub mod Step
pub mod Votes
pub mod Commit
pub mod Merging
pub mod Quorum
mod Examples
