-- ===== src/Storage/Examples.antt =====
-- A node of three that votes, crashes, starts again and is asked for another vote.
use raft_sim.Base.{ℕ, ◌≡◌, refl, arith, true, [], ◌∷◌, ◌++◌, Outcome, ok, panic}
use raft_sim.Raft.Types.{Message, MessageType, message, Input, Output, empty_output}
use raft_sim.Raft.State.{Node, Params, send, become_follower}
use raft_sim.Raft.Step.{step, handle, receive, dispatch, new_node, restart_node, blank, hard_state}
use raft_sim.Raft.Election.{handle_vote}
use raft_sim.Raft.Replication.{for_each}
use raft_sim.Raft.Log
use raft_sim.Storage.{Durable, new_durable, apply, load}
use raft_sim.Storage.Life.{StepSafe, step_safe}
use raft_sim.Storage.Votes.{
  alive, Life, start, run, crash, restart, OneVote, Synced, AllFit, vote_once, disk-Synced,
}

abbrev params : Params
params = record {
  id = 1;
  voters = 1 ∷ 2 ∷ 3 ∷ [];
  election_ticks = 10;
  heartbeat_ticks = 2;
  max_entries_per_msg = 0;
  pre_vote = true;
  rng = record { intn = λ asked n. 0; asked = [] };
}

abbrev node_or : Node → Outcome Node → Node
node_or n (ok a) = a
node_or n panic = n

abbrev first : Node
first = node_or (blank params (record { term = 0; voted_for = 0 })) (new_node params)

abbrev ask : ℕ → ℕ → Message
ask from term = record (message MessageType.vote 1 term) { from = from }

abbrev stepped : Outcome (Node × Output) → Node × Output
stepped (ok r) = r
stepped panic = (first, empty_output)

abbrev disk_or : Outcome Durable → Durable
disk_or (ok d) = d
disk_or panic = new_durable

abbrev voted : Node × Output
voted = stepped (step first (Input.receive (ask 2 1)))

abbrev disk_voted : Durable
disk_voted = disk_or (apply voted.1.persist new_durable)

abbrev again : Node
again = node_or first (restart_node params (load disk_voted))

abbrev refused : Node × Output
refused = stepped (step again (Input.receive (ask 3 1)))

abbrev disk_refused : Durable
disk_refused = disk_or (apply refused.1.persist disk_voted)

voted_for_two : hard_state voted.0 ≡ record { term = 1; voted_for = 2 }
unfolding step handle receive dispatch new_node handle_vote send become_follower for_each
    Log.last_term Log.last_index
voted_for_two = refl

first_vote_ran : step first (Input.receive (ask 2 1)) ≡ ok voted
unfolding step handle receive dispatch new_node handle_vote send become_follower for_each
    Log.last_term Log.last_index
first_vote_ran = refl

voted_write : apply voted.1.persist new_durable ≡ ok disk_voted
unfolding step handle receive dispatch new_node handle_vote send become_follower for_each
    Log.last_term Log.last_index apply
voted_write = refl

again_start : restart_node params (load disk_voted) ≡ ok again
unfolding step handle receive dispatch new_node handle_vote send become_follower for_each
    Log.last_term Log.last_index apply load
again_start = refl

second_vote_ran : step again (Input.receive (ask 3 1)) ≡ ok refused
unfolding step handle receive dispatch new_node handle_vote send become_follower for_each
    Log.last_term Log.last_index apply load
second_vote_ran = refl

refused_write : apply refused.1.persist disk_voted ≡ ok disk_refused
unfolding step handle receive dispatch new_node handle_vote send become_follower for_each
    Log.last_term Log.last_index apply load
refused_write = refl

abbrev life :
    Life
      (alive first new_durable)
      (alive refused.0 disk_refused)
      (([] ++ voted.1.messages) ++ refused.1.messages)
life =
    run (Input.receive (ask 3 1)) refused.0 refused.1 disk_refused
      (restart params again
        (crash (
          run (Input.receive (ask 2 1)) voted.0 voted.1 disk_voted start first_vote_ran
            voted_write))
        again_start)
      second_vote_ran refused_write

Synced-start : Synced (alive first new_durable)
unfolding new_node for_each become_follower
Synced-start = refl

life_fits : AllFit life
unfolding step handle receive dispatch new_node handle_vote send become_follower for_each
    Log.last_term Log.last_index apply load
life_fits = omega arith

vote_once_example : OneVote (([] ++ voted.1.messages) ++ refused.1.messages)
vote_once_example = vote_once life Synced-start life_fits

disk-Synced_example : Synced (alive refused.0 disk_refused)
disk-Synced_example = disk-Synced life Synced-start life_fits

step_safe_example : StepSafe first voted.0 voted.1
unfolding new_node for_each become_follower
step_safe_example =
    step_safe first voted.0 (Input.receive (ask 2 1)) voted.1 (omega arith) first_vote_ran
