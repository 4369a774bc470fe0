-- ===== src/Sim/Calls.antt =====
-- What one call of a client of sim/client.go does to the client and to the history.
use raft_sim.Base.{
  ℕ, zero, suc, ◌≡◌, ◌≢◌, ◌⊎◌, refl, ap, arith, Bool, true, false, ◌&&◌, List, [], ◌∷◌, ◌++◌, some,
  Outcome, ok, nat_beq, nat_beq_iff, length, get_elem?, set, add64, Bool-cases, not, if◌then◌else◌,
  inl, inr,
}
use raft_sim.Kv.Types.{Result}
use raft_sim.Checker.Linear.{LinOp}
use raft_sim.Checker.Register.{invoked_op, completed}
use raft_sim.Sim.Client.{
  Client, Caller, Choice, Draws, Call, invoked, command_of, send_req, after_answer, start_next_op,
  watchdog_fires, schedule_retry, retry_fires, handle_resp, call,
}

pub get_elem?-last {ℓ} :
    {A : Type ℓ} (xs : List A) (x : A) → get_elem? (xs ++ x ∷ []) (length xs) ≡ some x
get_elem?-last [] x = refl
get_elem?-last (y ∷ xs) x = get_elem?-last xs x

pub get_elem?-old {ℓ} :
    {A : Type ℓ} (xs ys : List A) (i : ℕ) (x : A)
    → get_elem? xs i ≡ some x
    → get_elem? (xs ++ ys) i ≡ some x
get_elem?-old [] ys i x h = cc
get_elem?-old (y ∷ xs) ys zero x h = h
get_elem?-old (y ∷ xs) ys (suc i) x h = get_elem?-old xs ys i x h

pub get_elem?-set_same {ℓ} :
    {A : Type ℓ} (xs : List A) (i : ℕ) (x v : A)
    → get_elem? xs i ≡ some x
    → get_elem? (set xs i v) i ≡ some v
get_elem?-set_same [] i x v h = cc
get_elem?-set_same (y ∷ xs) zero x v h = refl
get_elem?-set_same (y ∷ xs) (suc i) x v h = get_elem?-set_same xs i x v h

pub get_elem?-set_other {ℓ} :
    {A : Type ℓ} (xs : List A) (i j : ℕ) (v : A) → i ≢ j → get_elem? (set xs i v) j ≡ get_elem? xs j
get_elem?-set_other [] i j v h = refl
get_elem?-set_other (y ∷ xs) zero zero v h = absurd (h refl)
get_elem?-set_other (y ∷ xs) zero (suc j) v h = refl
get_elem?-set_other (y ∷ xs) (suc i) zero v h = refl
get_elem?-set_other (y ∷ xs) (suc i) (suc j) v h = get_elem?-set_other xs i j v (λ e. h (ap suc e))

pub same_or_other : (i j : ℕ) → (i ≡ j) ⊎ (i ≢ j)
same_or_other i j = elim (Bool-cases (nat_beq i j)) [
  | inl same ↦ inl ((nat_beq_iff i j).0 same)
  | inr other ↦ inr (λ e. cc ((nat_beq_iff i j).1 e, other))
]

-- A call that starts the next command; a response that answers the command with this number.
abbrev pub is_start : Call → Bool
is_start (Call.start d) = true
is_start _ = false

abbrev pub is_answer : ℕ → Call → Bool
is_answer seq (Call.response seq' res fine hint) = fine && nat_beq seq' seq
is_answer seq _ = false

-- The client has the same command in flight, or none as before.
pub record Same (c c' : Client) : Type 0 where
  pub id : c'.id ≡ c.id
  pub inflight : c'.inflight ≡ c.inflight
  pub seq : c'.seq ≡ c.seq
  pub cmd : c'.cmd ≡ c.cmd
  pub hist_idx : c'.hist_idx ≡ c.hist_idx

-- What a call does to its client and to the history.
pub data Changes (now : ℕ) (x : Call) (s s' : Caller) : Type 0 where
  waits :
      Same s.client s'.client
      → s'.history ≡ s.history
      → (s.client.inflight ≡ true → is_answer s.client.seq x ≡ false)
      → Changes now x s s'
  begins :
      is_start x ≡ true
      → s'.client.id ≡ s.client.id
      → s'.client.cmd.client_id ≡ s.client.id
      → s'.client.hist_idx ≡ length s.history
      → s'.history ≡ s.history ++ invoked_op s'.client.cmd now ∷ []
      → Changes now x s s'
  answers :
      (o : LinOp) (res : Result) (hint : ℕ)
      → x ≡ Call.response s.client.seq res true hint
      → s.client.inflight ≡ true
      → get_elem? s.history s.client.hist_idx ≡ some o
      → s'.client.id ≡ s.client.id
      → s'.client.inflight ≡ false
      → s'.history ≡ set s.history s.client.hist_idx (completed o res now)
      → Changes now x s s'

-- The record that a client in flight points to is there.
abbrev pub Points : Caller → Type 0
Points s = s.client.inflight ≡ true → (o : LinOp) × (get_elem? s.history s.client.hist_idx ≡ some o)

abbrev pub Done : ℕ → Call → Caller → Outcome Caller → Type 0
Done now x s r = (s' : Caller) × (r ≡ ok s') × Changes now x s s'

invoked_op-command_of :
    (ch : Choice) (text : ℕ → ℕ → List ℕ) (key : List ℕ) (seq : ℕ) (c : Client) (now : ℕ)
    → (invoked ch (command_of ch text key seq c) now
        ≡ invoked_op (command_of ch text key seq c) now)
      × ((command_of ch text key seq c).client_id ≡ c.id)
invoked_op-command_of Choice.get text key seq c now = (refl, refl)
invoked_op-command_of Choice.put text key seq c now = (refl, refl)
invoked_op-command_of Choice.cas text key seq c now = (refl, refl)

start_next_op-Changes :
    (text : ℕ → ℕ → List ℕ) (now : ℕ) (d : Draws) (s : Caller)
    → Changes now (Call.start d) s (start_next_op text d now s)
unfolding start_next_op send_req
start_next_op-Changes text now d s =
    let seq = add64 s.client.seq 1 in
    let same = invoked_op-command_of d.choice text d.key seq s.client now in
    Changes.begins refl refl same.1 refl (ap (λ o. s.history ++ o ∷ []) same.0)

watchdog_fires-Changes :
    (now drawn seq : ℕ) (s : Caller)
    → Changes now (Call.watchdog drawn seq) s (watchdog_fires drawn seq s)
unfolding watchdog_fires send_req
watchdog_fires-Changes now drawn seq s =
    elim (Bool-cases (s.client.inflight && nat_beq s.client.seq seq)) [
      | inl due ↦ rw due (
          Changes.waits
            (record { id = refl; inflight = refl; seq = refl; cmd = refl; hist_idx = refl }) refl
            (λ _. refl))
      | inr off ↦ rw off (
          Changes.waits
            (record { id = refl; inflight = refl; seq = refl; cmd = refl; hist_idx = refl }) refl
            (λ _. refl))
    ]

retry_fires-Changes :
    (now drawn seq : ℕ) (s : Caller)
    → Changes now (Call.retry drawn seq) s (retry_fires drawn seq s)
unfolding retry_fires send_req
retry_fires-Changes now drawn seq s =
    elim (Bool-cases (s.client.inflight && nat_beq s.client.seq seq)) [
      | inl due ↦ rw due (
          Changes.waits
            (record { id = refl; inflight = refl; seq = refl; cmd = refl; hist_idx = refl }) refl
            (λ _. refl))
      | inr off ↦ rw off (
          Changes.waits
            (record { id = refl; inflight = refl; seq = refl; cmd = refl; hist_idx = refl }) refl
            (λ _. refl))
    ]

schedule_retry-Same :
    (seq target : ℕ) (s : Caller)
    → let s' = schedule_retry seq (record s { client = record s.client { target = target } }) in
      Same s.client s'.client × (s'.history ≡ s.history)
unfolding schedule_retry
schedule_retry-Same seq target s = elim (Bool-cases s.client.retry_scheduled) [
  | inl is_on ↦
      rw is_on
        (record { id = refl; inflight = refl; seq = refl; cmd = refl; hist_idx = refl }, refl)
  | inr off ↦
      rw off (record { id = refl; inflight = refl; seq = refl; cmd = refl; hist_idx = refl }, refl)
]

handle_resp-Changes :
    (now seq hint : ℕ) (res : Result) (fine : Bool) (s : Caller)
    → Points s
    → Done now (Call.response seq res fine hint) s (handle_resp seq res fine hint now s)
unfolding handle_resp
handle_resp-Changes now seq hint res fine s points = elim (Bool-cases s.client.inflight) [
  | inr off ↦
      let runs : handle_resp seq res fine hint now s ≡ ok s = rw off refl in
      (
        s,
        runs,
        Changes.waits
            (record { id = refl; inflight = refl; seq = refl; cmd = refl; hist_idx = refl }) refl
            (λ fly. cc (fly, off)),
      )
  | inl fly ↦ elim (Bool-cases (nat_beq seq s.client.seq)) [
    | inr other ↦
        let runs : handle_resp seq res fine hint now s ≡ ok s = rw (fly, other) refl in
        (
          s,
          runs,
          Changes.waits
              (record { id = refl; inflight = refl; seq = refl; cmd = refl; hist_idx = refl }) refl
              (λ _. ground (arith, other)),
        )
    | inl own ↦ elim (Bool-cases fine) [
      | inr refused ↦
          let target =
            if not (nat_beq hint 0) && not (nat_beq hint s.client.target) then hint else 0 in
          let m : Caller = record s { client = record s.client { target = target } } in
          let runs : handle_resp seq res fine hint now s ≡ ok (schedule_retry seq m) =
            rw (fly, own, refused) refl in
          let h = schedule_retry-Same seq target s in
          (schedule_retry seq m, runs, Changes.waits h.0 h.1 (λ _. ground (arith, refused)))
      | inl accepted ↦
          let (o, found) = points fly in
          let runs : handle_resp seq res fine hint now s ≡ ok (after_answer o res now s) =
            rw (fly, own, accepted, found) refl in
          let same : Call.response seq res fine hint ≡ Call.response s.client.seq res true hint =
            cc ((nat_beq_iff seq s.client.seq).0 own, accepted) in
          (after_answer o res now s, runs, Changes.answers o res hint same fly found refl refl refl)
    ]
  ]
]

pub call-Changes :
    (text : ℕ → ℕ → List ℕ) (now : ℕ) (x : Call) (s : Caller)
    → Points s
    → Done now x s (call text now x s)
call-Changes text now (Call.start d) s points = (_, refl, start_next_op-Changes text now d s)
call-Changes text now (Call.watchdog drawn seq) s points =
    (_, refl, watchdog_fires-Changes now drawn seq s)
call-Changes text now (Call.retry drawn seq) s points =
    (_, refl, retry_fires-Changes now drawn seq s)
call-Changes text now (Call.response seq res fine hint) s points =
    handle_resp-Changes now seq hint res fine s points
