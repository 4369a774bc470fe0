-- ===== src/Checker/Register.antt =====
-- The key-value store against the checker of histories: the operations that clients record of a run
-- of the store (startNextOp and handleResp of sim/client.go), as checker/linear.go reads them.
pub mod Accepted
use mathlib.Core.Logic.{∥∥₁_elim}
use mathlib.Core.List.{Perm, Permᴰ}
use mathlib.Core.List.Permᴰ
use mathlib.Core.List.Perm
use raft_sim.Base.{
  ℕ, ◌≤◌, ◌≡◌, ◌≢◌, refl, sym, ap, ◌∙◌, subst, arith, Bool, true, false, not, ◌&&◌, ◌||◌, List, [],
  ◌∷◌, ◌++◌, Option, none, some, Outcome, ok, panic, Map, lookup, insert, lookup-insert, beq_refl,
  bytes_eq, bytes_beq_iff, ◌==◌, all, leb, if◌then◌else◌, Bool-cases, inl, inr,
}
use raft_sim.Kv.Types.{OpType, Command, Result, Session, Store}
use raft_sim.Kv.Store.{value_of, present, execute, apply_in, apply, session_of}
use raft_sim.Kv.Store.Sessions.{entries-apply, entries-apply_dup}
use raft_sim.Checker.Linear.{
  LinKind, LinOp, RegState, new_register, apply_kind, apply_op, matches_kind, output_matches,
  bool_beq, check_linearizable,
}
use raft_sim.Checker.Linear.Spec.{Legal, Linearization, InTime, may_precede, is_lost}
use raft_sim.Checker.Linear.Spec.{is_timed}
use raft_sim.Checker.Linear.Returns.{is_known_kind}
use raft_sim.Checker.Linear.Histories.{ops_at, check_linearizable_lem}

-- A command with the times at which its client invoked it and had the response.
pub record Request : Type 0 where
  pub command : Command
  pub invoke : ℕ
  pub response : ℕ

abbrev pub op_kind : OpType → LinKind
op_kind OpType.get = LinKind.get
op_kind OpType.put = LinKind.put
op_kind OpType.cas = LinKind.cas
op_kind (OpType.other n) = LinKind.other n

abbrev pub first_arg : OpType → Command → List ℕ
first_arg OpType.put c = c.value
first_arg OpType.cas c = c.expect
first_arg _ c = []

abbrev pub second_arg : OpType → Command → List ℕ
second_arg OpType.cas c = c.value
second_arg _ c = []

-- What the client records of a command when it sends it, and what the answer adds.
abbrev pub invoked_op : Command → ℕ → LinOp
invoked_op c now = record {
  client_id = c.client_id;
  kind = op_kind c.op;
  key = c.key;
  arg1 = first_arg c.op c;
  arg2 = second_arg c.op c;
  out_value = [];
  out_ok = false;
  invoke = now;
  response = 0;
  complete = false;
}

abbrev pub completed : LinOp → Result → ℕ → LinOp
completed op res now = record op {
  response = now;
  complete = true;
  out_value = res.value;
  out_ok = res.ok;
}

-- The record of a request that was answered.
abbrev pub recorded : Request → Result → LinOp
recorded q r = completed (invoked_op q.command q.invoke) r q.response

-- The register that the store keeps at a key.
abbrev pub register_at : List ℕ → Map (List ℕ) (List ℕ) → RegState
register_at k m = record { value = value_of (lookup k m); present = present (lookup k m) }

abbrev pub is_operation : OpType → Bool
is_operation (OpType.other n) = false
is_operation _ = true

-- The records of a run of the store, a duplicate apart: it does not run again.
unfoldable pub history : Store → List Request → List LinOp
history s [] = []
history s (q ∷ qs) =
    let (r, fresh, s') = apply s q.command in
    let rest = history s' qs in if fresh then recorded q r ∷ rest else rest

bool_beq_refl : (b : Bool) → bool_beq b b ≡ true
bool_beq_refl true = refl
bool_beq_refl false = refl

-- A step of the store at the key of the command is the step of the register, with the same output.
execute_lem :
    (op : OpType) (c : Command) (m : Map (List ℕ) (List ℕ)) (o : LinOp)
    → is_operation op ≡ true
    → o.arg1 ≡ first_arg op c
    → o.arg2 ≡ second_arg op c
    → apply_kind (op_kind op) (register_at c.key m) o
      ≡ ok (register_at c.key (execute op c m).1, (execute op c m).0.value, (execute op c m).0.ok)
unfolding execute apply_kind
execute_lem OpType.get c m o known a1 a2 = refl
execute_lem OpType.put c m o known a1 a2 =
    rw (lookup-insert c.key c.key c.value m, beq_refl c.key, a1) refl
execute_lem OpType.cas c m o known a1 a2 =
    elim (Bool-cases (present (lookup c.key m) && (value_of (lookup c.key m) == c.expect))) [
      | inl hit ↦ rw (a1, hit, a2, lookup-insert c.key c.key c.value m, beq_refl c.key) refl
      | inr miss ↦ rw (a1, miss) refl
    ]
execute_lem (OpType.other n) c m o known a1 a2 = cc

-- A step of the store leaves the other keys alone.
execute_other :
    (op : OpType) (c : Command) (m : Map (List ℕ) (List ℕ)) (k : List ℕ)
    → (c.key == k) ≡ false
    → lookup k (execute op c m).1 ≡ lookup k m
unfolding execute
execute_other OpType.get c m k h = refl
execute_other OpType.put c m k h = rw (lookup-insert c.key k c.value m, h) refl
execute_other OpType.cas c m k h =
    elim (Bool-cases (present (lookup c.key m) && (value_of (lookup c.key m) == c.expect))) [
      | inl hit ↦ rw (hit, lookup-insert c.key k c.value m, h) refl
      | inr miss ↦ rw miss refl
    ]
execute_other (OpType.other n) c m k h = refl

module _ (s : Store) (c : Command) where
  result-apply : (apply s c).1 ≡ true → (apply s c).0 ≡ (execute c.op c s.entries).0
  unfolding apply
  result-apply h = ground arith

output_matches_refl :
    (o : LinOp) → is_known_kind o.kind ≡ true → output_matches o o.out_value o.out_ok ≡ true
unfolding output_matches
output_matches_refl o h = go o.kind h
  where
    same : bytes_eq.same o.out_value o.out_value ≡ true
    same = beq_refl o.out_value

    go : (k : LinKind) → is_known_kind k ≡ true → matches_kind k o o.out_value o.out_ok ≡ true
    go LinKind.get h = ground (arith, bool_beq_refl o.out_ok, same)
    go LinKind.put h = refl
    go LinKind.cas h = ground (arith, bool_beq_refl o.out_ok, same)
    go (LinKind.other n) h = cc

abbrev pub is_request : Request → Bool
is_request q = is_operation q.command.op

is_known_kind-op_kind : (op : OpType) → is_operation op ≡ true → is_known_kind (op_kind op) ≡ true
is_known_kind-op_kind OpType.get h = refl
is_known_kind-op_kind OpType.put h = refl
is_known_kind-op_kind OpType.cas h = refl
is_known_kind-op_kind (OpType.other n) h = h

module _ (s : Store) (q : Request) where
  apply_op-recorded :
      is_request q ≡ true
      → (apply s q.command).1 ≡ true
      → apply_op (register_at q.command.key s.entries) (recorded q (apply s q.command).0)
        ≡ ok (
          register_at q.command.key (apply s q.command).2.entries,
          (apply s q.command).0.value,
          (apply s q.command).0.ok,
        )
  unfolding apply_op
  apply_op-recorded known fresh =
      rw (entries-apply s q.command fresh, result-apply s q.command fresh)
        (execute_lem q.command.op q.command s.entries
          (recorded q (execute q.command.op q.command s.entries).0) known refl refl)

  register_at-other :
      (k : List ℕ)
      → (apply s q.command).1 ≡ true
      → (q.command.key == k) ≡ false
      → register_at k (apply s q.command).2.entries ≡ register_at k s.entries
  register_at-other k fresh h =
      rw (entries-apply s q.command fresh, execute_other q.command.op q.command s.entries k h) refl

  Legal-recorded :
      (os : List LinOp)
      → is_request q ≡ true
      → (apply s q.command).1 ≡ true
      → Legal (register_at q.command.key (apply s q.command).2.entries) os
      → Legal (register_at q.command.key s.entries) (recorded q (apply s q.command).0 ∷ os)
  Legal-recorded os known fresh legal =
      let o = recorded q (apply s q.command).0 in
      Legal.next o (register_at q.command.key (apply s q.command).2.entries) o.out_value o.out_ok
        (apply_op-recorded known fresh)
        (output_matches_refl o (is_known_kind-op_kind q.command.op known)) legal

-- The records of a run of the store run through the register of each key.
pub history-Legal :
    (k : List ℕ) (s : Store) (qs : List Request)
    → all is_request qs ≡ true
    → Legal (register_at k s.entries) (ops_at k (history s qs))
unfolding history
history-Legal k s [] known = Legal.done
history-Legal k s (q ∷ qs) known =
    let c = q.command in
    let s' = (apply s c).2 in
    let later : (j : List ℕ) → Legal (register_at j s'.entries) (ops_at j (history s' qs)) =
      λ j. history-Legal j s' qs (ground arith) in
    elim (Bool-cases (apply s c).1) [
      | inl fresh ↦ elim (Bool-cases (c.key == k)) [
        | inl hit ↦
            rw (fresh, hit)
              (subst
                (λ j.
                  Legal (register_at j s.entries)
                    (recorded q (apply s c).0 ∷ ops_at j (history s' qs)))
                ((bytes_beq_iff c.key k).0 hit)
                (Legal-recorded s q (ops_at c.key (history s' qs)) (ground arith) fresh
                  (later c.key)))
        | inr miss ↦
            rw (fresh, miss)
              (subst (λ r. Legal r (ops_at k (history s' qs))) (register_at-other s q k fresh miss)
                (later k))
      ]
      | inr again ↦ rw again (
          subst (λ m. Legal (register_at k m) (ops_at k (history s' qs)))
            (entries-apply_dup s c again) (later k))
    ]
