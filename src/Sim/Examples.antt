-- ===== src/Sim/Examples.antt =====
-- A heap as a sorted list, and runs of the loop and the network on it.
use mathlib.Core.List.Perm
use raft_sim.Base.{
  ℕ, suc, ◌+◌, ◌-◌, ◌≤◌, ◌≡◌, refl, ◌∙◌, arith, Bool, true, false, not, List, [], ◌∷◌, ◌++◌, zero,
  some, subst, get_elem?, Outcome, ok, panic, ltb, leb, sym, ap, nat_beq, if◌then◌else◌, Bool-cases,
  inl, inr, all, all-Perm, all-weaken, insert_by, insert_by-Perm, length,
}
use raft_sim.Sim.Queue.{Event, less, Heap, empty_queue, at_time, pop, peek_time}
use raft_sim.Sim.Network.{Random, NetParams, Network, partitioned, send}
use raft_sim.Kv.Types.{OpType, Command, Result}
use raft_sim.Checker.Register.{invoked_op, recorded}
use raft_sim.Sim.Client.{
  Client, Clients, Call, Happening, happen, happen_all, watchdog_fires, handle_resp, send_req,
  schedule_retry,
}
use raft_sim.Sim.Moves.{Pending, Sound, Allowed, AllAllowed, some_inj}
use raft_sim.Sim.Answers.{handle_resp-once}
use raft_sim.Sim.Loop.{Simulator, End, Program, run_until}
use raft_sim.Sim.Order.{run_until-Ends, run_until-Finished, Outcomes, Finished, Forward}
use raft_sim.Sim.Sends.{Delivers, send_lem}

abbrev not_less : Event ℕ → Event ℕ → Bool
not_less e x = not (less x e)

abbrev Sorted : List (Event ℕ) → Type 0
Sorted [] = Unit {0}
Sorted (e ∷ h) = (all (not_less e) h ≡ true) × Sorted h

less-asym : (a e : Event ℕ) → less a e ≡ true → not (less e a) ≡ true
unfolding less
less-asym a e h = ground (arith, h)

less_trans : (a e x : Event ℕ) → less a e ≡ false → not (less x a) ≡ true → not (less x e) ≡ true
unfolding less
less_trans a e x h k = ground (arith, h, k)

insert_by-Sorted : (e : Event ℕ) (h : List (Event ℕ)) → Sorted h → Sorted (insert_by less e h)
unfolding insert_by
insert_by-Sorted e [] s = (refl, tt)
insert_by-Sorted e (a ∷ h) s = elim (Bool-cases (less a e)) [
  | inl before ↦ rw before (
    all-Perm (not_less a) (insert_by-Perm less e h) ∙ ground (arith, s.0, less-asym a e before),
    insert_by-Sorted e h s.1,
  )
  | inr behind ↦
      let rest = all-weaken (not_less a) (not_less e) h (λ x k. less_trans a e x behind k) s.0 in
      rw behind (ground (arith, behind, rest), s)
]

abbrev sorted_heap : Heap ℕ
sorted_heap = record {
  push = λ h e. insert_by less e h;
  pop = λ e h. (e, h);
  IsHeap = Sorted;
  nil-IsHeap = tt;
  push-IsHeap = λ h e s. insert_by-Sorted e h s;
  push-Perm = λ h e. insert_by-Perm less e h;
  pop-IsHeap = λ e h s. s.1;
  pop-Perm = λ e h s. Perm.rfl;
  pop-root = λ e h. refl;
  root-least = λ e h s. s.0;
}

-- Every event counts down to 0, five units later each time.
abbrev program : Program ℕ ℕ
program = record {
  run = λ t fn st. ok (st + fn, (t + 5, fn - 1) ∷ []);
  is_violated = λ st. false;
  max_events = 100;
  horizon = 12;
}

abbrev start : Simulator ℕ ℕ
start = record { now = 0; q = at_time sorted_heap 3 9 empty_queue; events = 0; state = 0 }

abbrev state_or : Simulator ℕ ℕ → Outcome (End × Simulator ℕ ℕ) → Simulator ℕ ℕ
state_or s panic = s
state_or s (ok r) = r.1

abbrev finish : Simulator ℕ ℕ
finish = state_or start (run_until sorted_heap program 20 start)

run_ends : run_until sorted_heap program 20 start ≡ ok (End.idle, finish)
unfolding run_until at_time insert_by peek_time pop
run_ends = refl

counted : finish.state ≡ 17
unfolding run_until at_time insert_by peek_time pop
counted = refl

run_until-Ends_example :
    Outcomes sorted_heap program 12 start (run_until sorted_heap program 20 start)
unfolding at_time insert_by
run_until-Ends_example = run_until-Ends sorted_heap program 20 start (refl, tt)

-- The same with an event that panics.
abbrev failing : Program ℕ ℕ
failing = record program { run = λ t fn st. if nat_beq fn 8 then panic else program.run t fn st }

fails : run_until sorted_heap failing 20 start ≡ panic
unfolding run_until at_time insert_by peek_time pop
fails = refl

abbrev more_or : Outcome (ℕ × List (ℕ × ℕ)) → List (ℕ × ℕ)
more_or panic = []
more_or (ok r) = r.1

program-Forward : Forward sorted_heap program
program-Forward t fn st st' more h =
    ap (λ r. all (λ x. leb t x.0) (more_or r)) (sym h) ∙ ground arith

run_until-Finished_example : Finished sorted_heap program 12 start finish
unfolding at_time insert_by
run_until-Finished_example =
    run_until-Finished sorted_heap program 20 start finish program-Forward
      (record { is_heap = (refl, tt); ahead = refl }) run_ends

-- A source whose draws are the digits of a counter.
abbrev digits : Random ℕ ℕ
digits = record {
  positive = λ p. ltb 0 p;
  below = λ p r. (ltb r p, suc r);
  exp = λ mean r. (mean, suc r);
}

abbrev net_params : NetParams ℕ
net_params = record { drop_prob = 0; dup_prob = 5; delay_min = 1; delay_mean = 4; delay_max = 3 }

abbrev network : Network ℕ ℕ ℕ
network = record { p = net_params; rng = 0; q = empty_queue; partition = (2, 1) ∷ [] }

send_lem_example :
    ((k : ℕ) × (k ≤ 2)
      × Delivers digits sorted_heap 10 7 net_params k empty_queue
          (send digits sorted_heap 10 1 3 false 7 network).q)
    × (false ≡ false
        → partitioned network 1 3 ≡ true
        → send digits sorted_heap 10 1 3 false 7 network ≡ network)
send_lem_example =
    send_lem digits sorted_heap 10 7 net_params 1 3 false network refl (omega arith) (omega arith)

sent_twice : length (send digits sorted_heap 10 1 3 false 7 network).q.h ≡ 2
unfolding send at_time insert_by less
sent_twice = refl

cut_off : send digits sorted_heap 10 1 2 false 7 network ≡ network
unfolding send
cut_off = refl

-- Two clients, the first of which has put a value with a record behind one of the second.
abbrev sent : Command
sent = record {
  client_id = 1;
  seq = 4;
  op = OpType.put;
  key = 97 ∷ [];
  value = 1 ∷ 4 ∷ [];
  expect = [];
}

abbrev asked : Command
asked = record { client_id = 2; seq = 9; op = OpType.get; key = 97 ∷ []; value = []; expect = [] }

abbrev client_of : ℕ → Command → ℕ → Client
client_of id cmd i = record {
  id = id;
  seq = cmd.seq;
  inflight = true;
  hist_idx = i;
  cmd = cmd;
  target = 0;
  retry_scheduled = false;
  last_seen = [];
}

abbrev two_clients : Clients
two_clients = record {
  clients = client_of 1 sent 0 ∷ client_of 2 asked 1 ∷ [];
  history = invoked_op sent 5 ∷ invoked_op asked 6 ∷ [];
  effects = [];
}

two_clients-Sound : Sound two_clients
two_clients-Sound zero c h =
    subst (λ (y : Client). (y.id ≡ 1) × (y.inflight ≡ true → Pending 0 y two_clients.history))
      (some_inj h) (refl, λ fly. (5, refl, refl))
two_clients-Sound (suc zero) c h =
    subst (λ (y : Client). (y.id ≡ 2) × (y.inflight ≡ true → Pending 1 y two_clients.history))
      (some_inj h) (refl, λ fly. (6, refl, refl))
two_clients-Sound (suc (suc k)) c h = cc h

abbrev text : ℕ → ℕ → List ℕ
text id seq = id ∷ seq ∷ []

abbrev swapped : Result
swapped = record { value = []; ok = true }

-- The watchdog of the first client runs, it is answered, and then answered once more.
abbrev before_it : List Happening
before_it = record { place = 0; now = 805; call = Call.watchdog 2 4 } ∷ []

abbrev answer : ℕ → Happening
answer now = record { place = 0; now = now; call = Call.response 4 swapped true 0 }

abbrev calls : List Happening
calls = before_it ++ answer 810 ∷ answer 820 ∷ []

abbrev clients_or : Clients → Outcome Clients → Clients
clients_or w panic = w
clients_or w (ok w') = w'

step_by_step :
    (x : Happening) (xs : List Happening) (w m : Clients)
    → Allowed x w
    → happen text x w ≡ ok m
    → AllAllowed text xs m
    → AllAllowed text (x ∷ xs) w
step_by_step x xs w m a h rest =
    (a, λ n q. subst (AllAllowed text xs) (ap (clients_or m) (sym h ∙ q)) rest)

abbrev next_of : Happening → Clients → Clients
next_of x w = clients_or w (happen text x w)

calls_allowed : AllAllowed text calls two_clients
unfolding happen watchdog_fires handle_resp send_req schedule_retry
calls_allowed =
    let x : Happening = record { place = 0; now = 805; call = Call.watchdog 2 4 } in
    let w1 = next_of x two_clients in
    let w2 = next_of (answer 810) w1 in
    let w3 = next_of (answer 820) w2 in
    step_by_step x (answer 810 ∷ answer 820 ∷ []) two_clients w1 (omega arith, λ c h st. cc st) refl
      (step_by_step (answer 810) (answer 820 ∷ []) w1 w2 (omega arith, λ c h st. cc st) refl
        (step_by_step (answer 820) [] w2 w3 (omega arith, λ c h st. cc st) refl tt))

handle_resp-once_example :
    (w' : Clients) × (i : ℕ) × (happen_all text calls two_clients ≡ ok w')
    × Sound w'
    × (some (invoked_op sent 5) ≡ some (invoked_op sent i))
    × (get_elem? w'.history 0
        ≡ some (recorded (record { command = sent; invoke = i; response = 810 }) swapped))
handle_resp-once_example =
    handle_resp-once text before_it (answer 820 ∷ []) two_clients 0 (client_of 1 sent 0) 810 0
      swapped two_clients-Sound refl refl (refl, tt) calls_allowed
