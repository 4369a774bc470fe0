-- ===== src/Raft/Commit.antt =====
-- The commit rule of raft/node.go: the index that a quorum holds, and what a leader commits.
pub mod Quorums
pub mod Sends
pub mod Rule
