-- ===== src/Sim/Loop.antt =====
-- RunUntil of sim/sim.go: the loop that takes the events in turn. What an event runs, with the checks
-- after it, is a parameter: from the time and the state it makes a state and the events it puts into
-- the queue, in order, or it panics. The limit on events bounds the recursion.
use raft_sim.Base.{
  ℕ, zero, suc, ◌-◌, Bool, List, [], ◌∷◌, Option, none, some, Outcome, ok, panic, ltb,
  if◌then◌else◌,
}
use raft_sim.Sim.Queue.{Heap, Queue, at_time, peek_time, pop}

pub record Simulator (A S : Type 0) : Type 0 where
  pub now : ℕ
  pub q : Queue A
  pub events : ℕ
  pub state : S

-- Why the loop ends: a violation, no event until the time asked for, or more events than allowed.
pub data End : Type 0 where
  violated idle too_many : End

-- What an event may do.
pub record Program (A S : Type 0) : Type 0 where
  pub run : ℕ → A → S → Outcome (S × List (ℕ × A))
  pub is_violated : S → Bool
  pub max_events : ℕ
  pub horizon : ℕ

module _ {A : Type 0} (heap : Heap A) where
  unfoldable pub schedule : List (ℕ × A) → Queue A → Queue A
  schedule [] q = q
  schedule (x ∷ xs) q = schedule xs (at_time heap x.0 x.1 q)

module _ {A S : Type 0} (heap : Heap A) (program : Program A S) where
  -- The event that was popped runs at its time.
  unfoldable pub fire : ℕ → Option (ℕ × A) → Queue A → Simulator A S → Outcome (Simulator A S)
  unfolding schedule
  fire t none q s = panic
  fire t (some x) q s = elim (program.run t x.1 s.state) [
    | panic ↦ panic
    | ok r ↦ ok (record { now = t; q = schedule heap r.1 q; events = suc s.events; state = r.0 })
  ]

  -- The recursion ends at the limit on events before its first clause.
  unfoldable pub loop : ℕ → ℕ → Simulator A S → Outcome (End × Simulator A S)
  unfolding fire
  loop zero until s = panic
  loop (suc k) until s =
      if program.is_violated s.state then ok (End.violated, s) else elim (peek_time s.q) [
        | none ↦ ok (End.idle, s)
        | some t ↦
            if ltb until t
            then ok (End.idle, s)
            else (let (x, q') = pop heap s.q in
                if ltb program.max_events (suc s.events)
                then ok (End.too_many, record s { q = q'; events = suc s.events })
                else elim (fire t x q' s) [ ok s' ↦ loop k until s' | panic ↦ panic ])
      ]

  unfoldable pub run_until : ℕ → Simulator A S → Outcome (End × Simulator A S)
  unfolding loop
  run_until until s =
      loop (suc (program.max_events - s.events))
        (if ltb program.horizon until then program.horizon else until) s
