-- ===== src/Sim/Client.antt =====
-- sim/client.go: the clients, each of which sends one command at a time until it is answered, and the
-- history that they share. What a client sends and puts into the queue are effects. The draws (an
-- operation, a key, a server) and the text of a value are arguments, and so is the time, which is a
-- natural number.
use raft_sim.Base.{
  ℕ, Bool, true, false, ◌&&◌, ◌||◌, not, List, [], ◌∷◌, ◌++◌, Option, none, some, Map, lookup,
  insert, remove, bytes_eq, Outcome, ok, panic, ◌>>=◌, nat_beq, if◌then◌else◌, length, get_elem?,
  set, add64,
}
use raft_sim.Kv.Types.{OpType, Command, Result}
use raft_sim.Kv.Store.{value_of}
use raft_sim.Checker.Linear.{LinKind, LinOp}
use raft_sim.Checker.Register.{completed}

pub record Client : Type 0 where
  pub id : ℕ
  pub seq : ℕ
  pub inflight : Bool
  pub hist_idx : ℕ
  pub cmd : Command
  pub target : ℕ
  pub retry_scheduled : Bool
  pub last_seen : Map (List ℕ) (List ℕ)

-- What the client with this id does: it sends a request to a server, puts a call into the queue, or
-- puts its next command there behind a draw of the time to think.
pub data Effect : Type 0 where
  request : ℕ → ℕ → ℕ → Command → Effect
  watchdog : ℕ → ℕ → Effect
  retry : ℕ → ℕ → Effect
  think : ℕ → Effect

-- The three ranges of the draw between 0 and 1.
pub data Choice : Type 0 where
  get put cas : Choice

pub record Draws : Type 0 where
  pub choice : Choice
  pub key : List ℕ
  pub server : ℕ

-- A client with what it reaches of the simulator that it points to.
pub record Caller : Type 0 where
  pub client : Client
  pub history : List LinOp
  pub effects : List Effect

abbrev pub effect : Effect → Caller → Caller
effect x s = record s { effects = s.effects ++ x ∷ [] }

abbrev pub command_of : Choice → (ℕ → ℕ → List ℕ) → List ℕ → ℕ → Client → Command
command_of Choice.get text key seq c = record {
  client_id = c.id;
  seq = seq;
  op = OpType.get;
  key = key;
  value = [];
  expect = [];
}
command_of Choice.put text key seq c = record {
  client_id = c.id;
  seq = seq;
  op = OpType.put;
  key = key;
  value = text c.id seq;
  expect = [];
}
command_of Choice.cas text key seq c = record {
  client_id = c.id;
  seq = seq;
  op = OpType.cas;
  key = key;
  value = text c.id seq;
  expect = value_of (lookup key c.last_seen);
}

abbrev pub invoked : Choice → Command → ℕ → LinOp
invoked Choice.get cmd now = record {
  client_id = cmd.client_id;
  kind = LinKind.get;
  key = cmd.key;
  arg1 = [];
  arg2 = [];
  out_value = [];
  out_ok = false;
  invoke = now;
  response = 0;
  complete = false;
}
invoked Choice.put cmd now = record {
  client_id = cmd.client_id;
  kind = LinKind.put;
  key = cmd.key;
  arg1 = cmd.value;
  arg2 = [];
  out_value = [];
  out_ok = false;
  invoke = now;
  response = 0;
  complete = false;
}
invoked Choice.cas cmd now = record {
  client_id = cmd.client_id;
  kind = LinKind.cas;
  key = cmd.key;
  arg1 = cmd.expect;
  arg2 = cmd.value;
  out_value = [];
  out_ok = false;
  invoke = now;
  response = 0;
  complete = false;
}

-- The server is drawn where none is chosen.
unfoldable pub send_req : ℕ → Caller → Caller
send_req drawn s =
    let c = s.client in
    effect (Effect.request c.id (if nat_beq c.target 0 then drawn else c.target) c.seq c.cmd) s

unfoldable pub start_next_op : (ℕ → ℕ → List ℕ) → Draws → ℕ → Caller → Caller
unfolding send_req
start_next_op text d now s =
    let seq = add64 s.client.seq 1 in
    let cmd = command_of d.choice text d.key seq s.client in
    let c : Client = record s.client {
      seq = seq;
      inflight = true;
      target = 0;
      cmd = cmd;
      hist_idx = length s.history;
    } in
    effect (Effect.watchdog s.client.id seq) (
      send_req d.server
        (record s { client = c; history = s.history ++ invoked d.choice cmd now ∷ [] }))

-- The event that armWatchdog puts into the queue.
unfoldable pub watchdog_fires : ℕ → ℕ → Caller → Caller
unfolding send_req
watchdog_fires drawn seq s =
    if s.client.inflight && nat_beq s.client.seq seq
    then effect (Effect.watchdog s.client.id seq)
        (send_req drawn (record s { client = record s.client { target = 0 } }))
    else s

unfoldable pub schedule_retry : ℕ → Caller → Caller
schedule_retry seq s =
    if s.client.retry_scheduled
    then s
    else effect (Effect.retry s.client.id seq)
        (record s { client = record s.client { retry_scheduled = true } })

-- The event that scheduleRetry puts into the queue.
unfoldable pub retry_fires : ℕ → ℕ → Caller → Caller
unfolding send_req
retry_fires drawn seq s =
    let s' : Caller = record s { client = record s.client { retry_scheduled = false } } in
    if s'.client.inflight && nat_beq s'.client.seq seq then send_req drawn s' else s'

-- What the client remembers of a key.
abbrev pub learn : LinKind → LinOp → Result → Map (List ℕ) (List ℕ) → Map (List ℕ) (List ℕ)
learn LinKind.get op res m = if res.ok then insert op.key res.value m else remove op.key m
learn LinKind.put op res m = insert op.key op.arg1 m
learn LinKind.cas op res m = if res.ok then insert op.key op.arg2 m else insert op.key res.value m
learn (LinKind.other n) op res m = m

abbrev pub after_answer : LinOp → Result → ℕ → Caller → Caller
after_answer op res now s =
    let done = completed op res now in
    effect (Effect.think s.client.id) (record s {
      client = record s.client {
        inflight = false;
        last_seen = learn op.kind done res s.client.last_seen;
      };
      history = set s.history s.client.hist_idx done;
    })

-- The record at `hist_idx` is completed; where there is none, the access panics.
abbrev pub finish : Option LinOp → Result → ℕ → Caller → Outcome Caller
finish none res now s = panic
finish (some op) res now s = ok (after_answer op res now s)

unfoldable pub handle_resp : ℕ → Result → Bool → ℕ → ℕ → Caller → Outcome Caller
unfolding schedule_retry
handle_resp seq res fine leader_hint now s =
    let c = s.client in
    let target =
      if not (nat_beq leader_hint 0) && not (nat_beq leader_hint c.target)
      then leader_hint
      else 0 in
    if not c.inflight || not (nat_beq seq c.seq)
    then ok s
    else if not fine
    then ok (schedule_retry seq (record s { client = record c { target = target } }))
    else finish (get_elem? s.history c.hist_idx) res now s

-- What the queue and the network run of a client: its next command, the watchdog and the retry of a
-- sequence number, and a response.
pub data Call : Type 0 where
  start : Draws → Call
  watchdog retry : ℕ → ℕ → Call
  response : ℕ → Result → Bool → ℕ → Call

abbrev pub call : (ℕ → ℕ → List ℕ) → ℕ → Call → Caller → Outcome Caller
call text now (Call.start d) s = ok (start_next_op text d now s)
call text now (Call.watchdog drawn seq) s = ok (watchdog_fires drawn seq s)
call text now (Call.retry drawn seq) s = ok (retry_fires drawn seq s)
call text now (Call.response seq res fine hint) s = handle_resp seq res fine hint now s

-- The simulator's clients, with the history that they share.
pub record Clients : Type 0 where
  pub clients : List Client
  pub history : List LinOp
  pub effects : List Effect

abbrev pub put_back : ℕ → Clients → Outcome Caller → Outcome Clients
put_back k w panic = panic
put_back k w (ok s) =
    ok (record { clients = set w.clients k s.client; history = s.history; effects = s.effects })

abbrev pub call_on : (Caller → Outcome Caller) → ℕ → Option Client → Clients → Outcome Clients
call_on f k none w = panic
call_on f k (some c) w =
    put_back k w (f (record { client = c; history = w.history; effects = w.effects }))

-- A call of the client at a place, at a time, which shares the history with the others.
pub record Happening : Type 0 where
  pub place : ℕ
  pub now : ℕ
  pub call : Call

unfoldable pub happen : (ℕ → ℕ → List ℕ) → Happening → Clients → Outcome Clients
happen text x w = call_on (call text x.now x.call) x.place (get_elem? w.clients x.place) w

unfoldable pub happen_all : (ℕ → ℕ → List ℕ) → List Happening → Clients → Outcome Clients
happen_all text [] w = ok w
happen_all text (x ∷ xs) w = happen text x w >>= happen_all text xs
