-- ===== src/Raft/Conf.antt =====
-- raft/conf.go: the encoding of a configuration, and the history of the configurations of a node,
-- oldest first.
pub mod Codec
use mathlib.Core.List.{reverse}
use raft_sim.Base.{
  ℕ, zero, suc, ◌%◌, ◌^◌, Bool, true, false, List, [], ◌∷◌, ◌++◌, Option, none, some, Outcome, ok,
  panic, ◌>>=◌, or_panic, Map, lookup, insert, nat_eq, leb, nat_beq, if◌then◌else◌, ◌||◌, length,
  put_u32, read_u32, put_u64, read_u64, add64,
}
use raft_sim.Raft.Types.{Config}
use raft_sim.Raft.State.{Node, Progress, ConfRecord, new_progress, is_leader}
use raft_sim.Raft.Log

unfoldable pub put_voters : List ℕ → List ℕ
put_voters [] = []
put_voters (v ∷ vs) = put_u64 v ++ put_voters vs

unfoldable pub encode_config : Config → List ℕ
unfolding put_voters
encode_config c = put_u32 (length c.voters % 2 ^ 32) ++ put_voters c.voters

unfoldable pub read_voters : ℕ → List ℕ → Outcome (List ℕ)
read_voters zero b = ok []
read_voters (suc n) b = do (v, rest) ← read_u64 b; vs ← read_voters n rest; ok (v ∷ vs)

unfoldable pub decode_config : List ℕ → Outcome Config
unfolding read_voters
decode_config b = do (n, rest) ← read_u32 b; vs ← read_voters n rest; ok (record { voters = vs })

unfoldable pub init_conf_history : ℕ → Config → Node → Node
init_conf_history index base n = record n {
  conf_history = record { index = index; cfg = base } ∷ [];
  config = base;
  config_index = index;
}

-- A leader has a progress for every other voter.
unfoldable pub add_progress : ℕ → ℕ → List ℕ → Map ℕ Progress → Map ℕ Progress
add_progress id next [] prs = prs
add_progress id next (v ∷ vs) prs = add_progress id next vs (elim (lookup v prs) [
  | none ↦ if nat_beq v id then prs else insert v (new_progress next) prs
  | some p ↦ prs
])

unfoldable pub set_config : ℕ → Config → Node → Node
unfolding add_progress
set_config index cfg n = record n {
  config = cfg;
  config_index = index;
  conf_history = n.conf_history ++ record { index = index; cfg = cfg } ∷ [];
  prs =
      if is_leader n.state
      then add_progress n.id (add64 (Log.last_index n.log) 1) cfg.voters n.prs
      else n.prs;
}

-- The loop that drops the latest records from an index on, over the history with the latest first;
-- the oldest record stays.
unfoldable pub unwind : ℕ → List ConfRecord → List ConfRecord
unwind index [] = []
unwind index (r ∷ []) = r ∷ []
unwind index (r ∷ s ∷ rs) =
    let rest = unwind index (s ∷ rs) in if leb index r.index then rest else r ∷ s ∷ rs

abbrev pub latest : List ConfRecord → Option ConfRecord
latest [] = none
latest (r ∷ rs) = some r

unfoldable pub truncate_configs_from : ℕ → Node → Outcome Node
unfolding unwind
truncate_configs_from index n = do
  let kept = unwind index (reverse n.conf_history)
  last ← or_panic (latest kept)
  ok (record n { conf_history = reverse kept; config = last.cfg; config_index = last.index })

-- The latest record up to an index, over the history with the latest first; else the oldest.
unfoldable pub config_before : ℕ → List ConfRecord → Option Config
config_before index [] = none
config_before index (r ∷ []) = some r.cfg
config_before index (r ∷ s ∷ rs) =
    let rest = config_before index (s ∷ rs) in if leb r.index index then some r.cfg else rest

unfoldable pub config_at : ℕ → Node → Outcome Config
unfolding config_before
config_at index n = or_panic (config_before index (reverse n.conf_history))

-- Drops the oldest record while the next one is not above the index.
unfoldable pub prune : ℕ → List ConfRecord → List ConfRecord
prune index [] = []
prune index (r ∷ []) = r ∷ []
prune index (r ∷ s ∷ rs) =
    let rest = prune index (s ∷ rs) in if leb s.index index then rest else r ∷ s ∷ rs

unfoldable pub prune_conf_history : ℕ → Node → Node
unfolding prune
prune_conf_history index n = record n { conf_history = prune index n.conf_history }
