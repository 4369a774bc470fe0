-- ===== src/Raft/Responses/Bounds.antt =====
-- Where a leader sends next (handleAppResp of raft/node.go).
use raft_sim.Base.{◌+◌, ◌^◌, ◌≤◌, ◌<◌, arith}
use raft_sim.Raft.Types.{Message}
use raft_sim.Raft.State.{Node, Progress}
use raft_sim.Raft.Log
use raft_sim.Raft.Responses.{next_try}

-- After a refusal, whatever its hint, the next try is above what the follower is known to hold and at
-- most one behind the leader's last index: where that index is below 2 ^ 64 - 1 and at least what the
-- follower is known to hold.
pub next_try_lem :
    (m : Message) (pr : Progress) (n : Node)
    → Log.last_index n.log + 1 < 2 ^ 64
    → pr.matched ≤ Log.last_index n.log
    → (pr.matched < next_try m pr n) × (next_try m pr n ≤ Log.last_index n.log + 1)
unfolding next_try
next_try_lem m pr n room known = (ground arith, ground arith)
