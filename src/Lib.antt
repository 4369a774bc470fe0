-- ===== src/Lib.antt =====
-- A model of the Raft library and of what it stands on, with the theorems that make it correct.
--
-- The program is a simulator of Raft clusters. raft/ is the consensus core: a node is a state machine
-- that takes one input at a time (a tick, a message, a proposal) and returns messages, what to make
-- durable and which entries to apply. storage/ is the disk of one node. kv/ is the application: a
-- key-value store with one session for each client. checker/ judges a run: by what it is told of the
-- nodes after every event, and afterwards by the history that the clients recorded. A server of the
-- simulator makes durable what a step asks for, then sends its messages, then applies its entries to
-- its store; after a crash it starts a node from its disk.
--
-- Base is what the parts share: a result type with panics, maps as association lists, the 64-bit sum
-- and difference, big-endian bytes, sorting, and lemmas on lists.
--
-- Raft is raft/.
--   Raft.Types      raft/types.go
--   Raft.Log        raft/log.go; Log.Terms, Log.Changes and Log.Scans are its theorems
--   Raft.State      the record Node of raft/node.go and what all handlers share: send, becomeFollower,
--                   applyCommitted
--   Raft.Conf       raft/conf.go, and Conf.Codec its round trip
--   Raft.Replication  sendAppend, maybeCommit, propose and handleApp of raft/node.go
--   Raft.Responses  handleAppResp of raft/node.go, handleSnapshotResp of raft/snapshot.go
--   Raft.Election   tick, campaign, becomeLeader, handleVote and handleVoteResp of raft/node.go
--   Raft.Membership raft/membership.go
--   Raft.Snapshots  createSnapshot and installSnapshot of raft/snapshot.go
--   Raft.Step       receive, Step, NewNode and RestartNode of raft/node.go
--   Raft.Votes      terms and votes through every handler
--   Raft.Commit     what maybeCommit commits
--   Raft.Merging    what handleApp does to a follower's log, commit index and answer
--   Raft.Quorum     majorities and changes by one server
-- Storage is storage/storage.go, with the runs of one server over crashes and restarts.
-- Kv is kv/: Kv.Store is kv/kv.go, Kv.Codec is kv/codec.go.
-- Checker is checker/: Checker.Linear is checker/linear.go, the decision whether a history is
-- linearizable; Linear.Spec is what that means, with no search, and Checker.Register takes the runs of
-- the store as such histories, with the records that sim/client.go makes of them. The search is
-- recursive on the number of operations that are left, and keeps the source's limit on states.
-- Checker.Track, Checker.Chain, Checker.Observe and Checker.Invariants are checker/invariants.go: its
-- state and reports, the scan of a log, what it is told of a node, and Check. A report is a value with
-- what its text names, and the hash of the standard library is a parameter, of which nothing is
-- assumed. The loops over indexes run on natural numbers, for logs that end below the last uint64.
-- Sim is sim/: Sim.Queue is sim/queue.go, over the heap of the standard library as an interface with
-- its documented laws, Sim.Network is sim/net.go, Sim.Client is the clients of sim/client.go with
-- the history that they share; their requests and events are effects, and what the queue and the
-- network run of them comes in any order, with the limits that a theorem names. Sim.Calls, Sim.Moves
-- and Sim.Answers follow their records. Sim.Loop is RunUntil of sim/sim.go, in which what an event runs,
-- with the checks after it, is a parameter that may panic; Sim.Turns describes the run of one event. Probabilities and draws are parameters, and times are
-- natural numbers. The recursion of the loop goes one level further than events are left of those that
-- are allowed, so that its end is not met.
-- The modules named Examples run the theorems at concrete inputs.
--
-- A method that changes its receiver is a function to the changed record. A panic of the source, also
-- one of an index out of range or of a read past the end, is the outcome `panic`. A pointer that may be
-- nil is an option, and a nil map is an empty one. A pointer to a progress is the entry of `prs`.
-- Indexes and terms are uint64: their sums and differences are taken modulo 2 ^ 64. The tick counters
-- and other values of type int are natural numbers without a bound. Strings and byte slices are lists
-- of numbers. Every loop is a recursion on its list or on a number that falls, so no other fuel is needed.
-- Where the first index of the log wraps around to 0, which takes 2 ^ 64 entries, the loop of
-- lastIndexOfTerm is not followed; the invariant of the log excludes it.
--
-- The source of random numbers is given by the caller: it is a function of the arguments it was asked
-- with before, of which nothing is assumed.
--
-- Not modelled: of the simulator (sim/) the servers, the handling of a request there, the faults and
-- the options; traces and soak runs; the command line (cmd/) and the import check (tools/); from
-- the modelled files, the accessors that read one field and the functions that print.
pub mod Base
pub mod Raft
pub mod Storage
pub mod Kv
pub mod Checker
pub mod Sim
