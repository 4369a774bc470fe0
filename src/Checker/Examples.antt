-- ===== src/Checker/Examples.antt =====
-- Two clients on one key: histories that the checker accepts and refuses.
use mathlib.Core.List.Perm
use raft_sim.Base.{
  ℕ, ◌≤◌, ◌≡◌, refl, arith, true, false, List, [], ◌∷◌, Option, none, some, ok, length, bytes_eq,
  ◌==◌, Bool-cases, inl, inr, sort_by,
}
use raft_sim.Kv.Types.{OpType, Command}
use raft_sim.Kv.Store.{new_store, apply}
use raft_sim.Checker.Linear.{
  LinKind, LinOp, check_linearizable, check_key, explore, apply_op, output_matches, memo_key,
  node_limit,
}
use raft_sim.Checker.Linear.Returns.{visits}
use raft_sim.Checker.Linear.Histories.{
  Answer, ops_at, check_linearizable_lem, check_linearizable_returns,
}
use raft_sim.Checker.Register.{Request, history}
use raft_sim.Checker.Register.Accepted.{check_linearizable-history}

abbrev key_a : List ℕ
key_a = 97 ∷ []

abbrev written : LinOp
written = record {
  client_id = 1;
  kind = LinKind.put;
  key = key_a;
  arg1 = 120 ∷ [];
  arg2 = [];
  out_value = [];
  out_ok = true;
  invoke = 0;
  response = 10;
  complete = true;
}

-- A read of a missing key, after the write.
abbrev stale : LinOp
stale = record {
  client_id = 2;
  kind = LinKind.get;
  key = key_a;
  arg1 = [];
  arg2 = [];
  out_value = [];
  out_ok = false;
  invoke = 11;
  response = 20;
  complete = true;
}

abbrev overlapping : LinOp
overlapping = record stale { invoke = 5 }

accepts : check_linearizable (written ∷ overlapping ∷ []) ≡ ok none
unfolding check_linearizable check_key sort_by explore apply_op output_matches memo_key
accepts = refl

refuses : check_linearizable (written ∷ stale ∷ []) ≡ ok (some key_a)
unfolding check_linearizable check_key sort_by explore apply_op output_matches memo_key
refuses = refl

check_linearizable_lem_example : Answer (some key_a) (written ∷ stale ∷ [])
check_linearizable_lem_example =
    check_linearizable_lem (written ∷ stale ∷ []) (some key_a) refl refuses

few : (k : List ℕ) → visits (length (ops_at k (written ∷ stale ∷ []))) ≤ node_limit
unfolding visits
few k = elim (Bool-cases (key_a == k)) [
  | inl here ↦ rw here (omega arith)
  | inr elsewhere ↦ rw elsewhere (omega arith)
]

check_linearizable_returns_example :
    (found : Option (List ℕ)) × (check_linearizable (written ∷ stale ∷ []) ≡ ok found)
check_linearizable_returns_example = check_linearizable_returns (written ∷ stale ∷ []) refl few

abbrev put_a : Command
put_a = record {
  client_id = 1;
  seq = 1;
  op = OpType.put;
  key = key_a;
  value = 120 ∷ [];
  expect = [];
}

abbrev get_a : Command
get_a = record put_a { client_id = 2; op = OpType.get; value = [] }

-- The put is applied twice, and the read is recorded before it.
abbrev requests : List Request
requests =
    record { command = get_a; invoke = 5; response = 20 }
    ∷ record { command = put_a; invoke = 0; response = 10 }
    ∷ record { command = put_a; invoke = 0; response = 10 }
    ∷ []

records : history new_store requests ≡ overlapping ∷ written ∷ []
unfolding history apply
records = refl

abbrev no_key : Option (List ℕ)
no_key = none

check_linearizable-history_example : no_key ≡ none
check_linearizable-history_example =
    check_linearizable-history requests (written ∷ overlapping ∷ []) none refl
      (rw records (Perm.swap written overlapping [])) (rw records (refl, (refl, tt))) refl accepts
