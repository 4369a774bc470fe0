-- ===== src/Sim/Order.antt =====
-- The loop of sim/sim.go over the queue of sim/queue.go: how it ends, and what it ran, in which order.
use raft_sim.Base.{
  all-weaken, all-Perm, ℕ, zero, suc, ◌+◌, ◌-◌, ◌≤◌, ◌<◌, ◌≡◌, refl, sym, ap, ◌∙◌, subst, arith,
  add64, Bool, true, false, List, [], ◌∷◌, ◌++◌, Outcome, ok, panic, ltb, leb, if◌then◌else◌, all,
  length, not,
}
use raft_sim.Sim.Queue.{Event, less, Heap, pop}
use raft_sim.Sim.Loop.{Simulator, End, Program, loop, run_until}
use raft_sim.Sim.Turns.{
  not_before, is_behind, labelled, less-not_before, Next, Ran, Trace, Turn, turn,
}

module _ {A S : Type 0} (heap : Heap A) (program : Program A S) where
  -- How the loop ends in the state behind the last event that it ran: with a violation, with nothing
  -- left that is due, over the limit on events, or with an event that panics.
  pub data Ends (until : ℕ) (last : Simulator A S) (out : Outcome (End × Simulator A S))
      : Type 0 where
    violated :
        program.is_violated last.state ≡ true → out ≡ ok (End.violated, last) → Ends until last out
    idle :
        program.is_violated last.state ≡ false
        → all (is_behind until) last.q.h ≡ true
        → out ≡ ok (End.idle, last)
        → Ends until last out
    too_many :
        (e : Event A) (rest : List (Event A))
        → Next heap program until e rest last
        → program.max_events ≤ last.events
        → out ≡ ok (End.too_many, record last { q = (pop heap last.q).1; events = suc last.events })
        → Ends until last out
    panics :
        (e : Event A) (rest : List (Event A))
        → Next heap program until e rest last
        → program.run e.time e.fn last.state ≡ panic
        → out ≡ panic
        → Ends until last out

  -- The events that ran, no more than the limit leaves, and how it ended.
  abbrev pub Outcomes : ℕ → Simulator A S → Outcome (End × Simulator A S) → Type 0
  Outcomes until s out =
      (es : List (Event A)) × (last : Simulator A S) × Trace heap program until es s last
      × (length es ≤ program.max_events - s.events)
      × Ends until last out

  loop-Ends :
      (k until : ℕ) (s : Simulator A S)
      → heap.IsHeap s.q.h
      → program.max_events < s.events + k
      → 0 < k
      → Outcomes until s (loop heap program k until s)
  loop-Ends zero until s w room pos = absurd (omega arith)
  loop-Ends (suc k) until s w room pos = elim (turn heap program k until s w) [
    | Turn.stops bad q ↦ ([], s, refl, omega arith, Ends.violated bad q)
    | Turn.rests fine quiet q ↦ ([], s, refl, omega arith, Ends.idle fine quiet q)
    | Turn.overruns e rest next many q ↦
        ([], s, refl, omega arith, Ends.too_many e rest next many q)
    | Turn.breaks e rest next bad q ↦ ([], s, refl, omega arith, Ends.panics e rest next bad q)
    | Turn.fires e m ran few q ↦
        let (es, last, trace, count, ends) =
          loop-Ends k until m ran.is_heap (omega (arith, ran.events, few))
            (omega (arith, ran.events, few)) in
        (
          e ∷ es,
          last,
          (m, ran, trace),
          omega (arith, ran.events, few, count),
          subst (Ends until last) (sym q) ends,
        )
  ]

  -- RunUntil ends: from a queue that is a heap it runs a list of events, no more than the limit on
  -- events leaves, each the first of the queue when its turn comes and due by the time asked for or by
  -- the horizon, whichever is first; then it reports the violation on record, returns with no due event
  -- left, reports too many events with a due one left, or panics in the run of the next due event.
  pub run_until-Ends :
      (until : ℕ) (s : Simulator A S)
      → heap.IsHeap s.q.h
      → Outcomes
          (if ltb program.horizon until then program.horizon else until)
          s
          (run_until heap program until s)
  unfolding run_until
  run_until-Ends until s w =
      loop-Ends (suc (program.max_events - s.events)) _ s w (omega arith) (omega arith)

  -- No event schedules another one in its past.
  abbrev pub Forward : Type 0
  Forward =
      (t : ℕ) (fn : A) (st st' : S) (more : List (ℕ × A))
      → program.run t fn st ≡ ok (st', more)
      → all (λ x. leb t x.0) more ≡ true

  -- The queue is a heap, with no event in the past.
  pub record Ahead (s : Simulator A S) : Type 0 where
    pub is_heap : heap.IsHeap s.q.h
    pub ahead : all (not_before s.now) s.q.h ≡ true

  all-both :
      (p : Event A → Bool) (xs ys : List (Event A))
      → all p xs ≡ true
      → all p ys ≡ true
      → all p (xs ++ ys) ≡ true
  all-both p [] ys a b = b
  all-both p (x ∷ xs) ys a b = ground (arith, a, all-both p xs ys (ground (arith, a)) b)

  labelled-not_before :
      (t seq : ℕ) (xs : List (ℕ × A))
      → all (λ x. leb t x.0) xs ≡ true
      → all (not_before t) (labelled seq xs) ≡ true
  labelled-not_before t seq [] h = refl
  labelled-not_before t seq (x ∷ xs) h =
      ground (arith, h, labelled-not_before t (add64 seq 1) xs (ground (arith, h)))

  Ran-Ahead :
      (until : ℕ) (e : Event A) (s m : Simulator A S)
      → Forward
      → Ran heap program until e s m
      → Ahead m
  Ran-Ahead until e s m forward ran =
      let news = labelled-not_before e.time s.q.seq ran.more (forward _ _ _ _ _ ran.effect) in
      let rest : all (not_before e.time) ran.rest ≡ true =
        all-weaken (λ x. not (less x e)) (not_before e.time) ran.rest (λ x l. less-not_before x e l)
          ran.next.first in
      record {
        is_heap = ran.is_heap;
        ahead =
            ap (λ t. all (not_before t) m.q.h) ran.now
            ∙ all-Perm (not_before e.time) ran.queue
            ∙ all-both (not_before e.time) (labelled s.q.seq ran.more) ran.rest news rest;
      }

  -- Events one after the other, none of them before a time.
  abbrev pub InOrder : ℕ → List (Event A) → Type 0
  InOrder t [] = Unit {0}
  InOrder t (e ∷ es) = (t ≤ e.time) × InOrder e.time es

  -- What the loop has done when it has nothing left to do.
  abbrev pub Finished : ℕ → Simulator A S → Simulator A S → Type 0
  Finished until s s' =
      (es : List (Event A)) × Trace heap program until es s s'
      × InOrder s.now es
      × (s.now ≤ s'.now)
      × (all (is_behind until) s'.q.h ≡ true)
      × Ahead s'

  Trace-InOrder :
      (until : ℕ) (es : List (Event A)) (s s' : Simulator A S)
      → Forward
      → Ahead s
      → Trace heap program until es s s'
      → InOrder s.now es × (s.now ≤ s'.now) × Ahead s'
  Trace-InOrder until [] s s' forward a same =
      (tt, omega (arith, ap (λ (x : Simulator A S). x.now) same), subst Ahead (sym same) a)
  Trace-InOrder until (e ∷ es) s s' forward a (m, ran, trace) =
      let (order, later, b) =
        Trace-InOrder until es m s' forward (Ran-Ahead until e s m forward ran) trace in
      let seen : all (not_before s.now) (e ∷ ran.rest) ≡ true =
        sym (all-Perm (not_before s.now) ran.next.taken) ∙ a.ahead in
      let start : s.now ≤ e.time = ground (arith, seen) in
      ((start, subst (λ t. InOrder t es) ran.now order), omega (arith, later, start, ran.now), b)

  abbrev second_or : Simulator A S → Outcome (End × Simulator A S) → Simulator A S
  second_or s panic = s
  second_or s (ok r) = r.1

  abbrev idle_at : Simulator A S → Outcome (End × Simulator A S)
  idle_at s = ok (End.idle, s)

  same_end : (s s' : Simulator A S) → idle_at s ≡ idle_at s' → s ≡ s'
  same_end s s' h = ap (second_or s) h

  -- Where events schedule nothing in their past, and the queue is a heap without events in the past, a
  -- run that ends for want of events is the run of a list of events from the first state to the last:
  -- each was the first of the queue and due by the time asked for or by the horizon, whichever is
  -- first, and its effect and the events that it schedules are in the next state; they ran in the order
  -- of their times, the clock has not gone back, no due event is left, and the queue is still such a
  -- heap.
  pub run_until-Finished :
      (until : ℕ) (s s' : Simulator A S)
      → Forward
      → Ahead s
      → run_until heap program until s ≡ ok (End.idle, s')
      → Finished (if ltb program.horizon until then program.horizon else until) s s'
  run_until-Finished until s s' forward a h =
      let limit = if ltb program.horizon until then program.horizon else until in
      let (es, last, trace, count, ends) = run_until-Ends until s a.is_heap in
      elim ends [
        | Ends.violated _ q ↦ cc (sym q ∙ h)
        | Ends.idle _ quiet q ↦
            let same = same_end last s' (sym q ∙ h) in
            let (order, later, b) = Trace-InOrder limit es s last forward a trace in
            subst (Finished limit s) same (es, trace, order, later, quiet, b)
        | Ends.too_many _ _ _ _ q ↦ cc (sym q ∙ h)
        | Ends.panics _ _ _ _ q ↦ cc (sym q ∙ h)
      ]
