-- ===== src/Sim/Turns.antt =====
-- One turn of the loop of sim/sim.go, against a description of the event that runs next and of what its
-- run does to the simulator.
use mathlib.Core.List.{Perm, perm_middle}
use mathlib.Core.List.Perm
use raft_sim.Base.{
  ℕ, suc, ◌≤◌, ◌<◌, ◌≡◌, ◌⊎◌, refl, ap, ◌∙◌, subst, arith, Bool, true, false, not, List, [], ◌∷◌,
  ◌++◌, Option, none, some, Outcome, ok, panic, ltb, leb, Bool-cases, inl, inr, add64, all,
  all-weaken,
}
use raft_sim.Sim.Queue.{Event, less, Heap, Queue, at_time, peek_time, pop, pop_from}
use raft_sim.Sim.Loop.{Simulator, End, Program, schedule, loop, fire}

list_cases : {A : Type 0} (xs : List A) → (xs ≡ []) ⊎ ((x : A) × (ys : List A) × (xs ≡ x ∷ ys))
list_cases [] = inl refl
list_cases (x ∷ ys) = inr (x, ys, refl)

-- An event is not before a time; an event is behind a time.
abbrev pub not_before : {A : Type 0} → ℕ → Event A → Bool
not_before t x = leb t x.time

abbrev pub is_behind : {A : Type 0} → ℕ → Event A → Bool
is_behind t x = ltb t x.time

-- The events for what a run schedules, with the sequence numbers behind seq, and the last of these.
abbrev pub labelled : {A : Type 0} → ℕ → List (ℕ × A) → List (Event A)
labelled seq [] = []
labelled seq (x ∷ xs) =
    record { time = x.0; seq = add64 seq 1; fn = x.1 } ∷ labelled (add64 seq 1) xs

abbrev pub seq_after : {A : Type 0} → ℕ → List (ℕ × A) → ℕ
seq_after seq [] = seq
seq_after seq (x ∷ xs) = seq_after (add64 seq 1) xs

pub less-not_before :
    {A : Type 0} (x e : Event A) → not (less x e) ≡ true → not_before e.time x ≡ true
unfolding less
less-not_before x e h = ground (arith, h)

module _ {A : Type 0} (heap : Heap A) where
  pub root-not_before :
      (e : Event A) (h : List (Event A)) → heap.IsHeap (e ∷ h) → all (not_before e.time) h ≡ true
  root-not_before e h w =
      all-weaken (λ x. not (less x e)) (not_before e.time) h (λ x l. less-not_before x e l)
        (heap.root-least e h w)

  schedule-IsHeap :
      (xs : List (ℕ × A)) (q : Queue A) → heap.IsHeap q.h → heap.IsHeap (schedule heap xs q).h
  unfolding schedule at_time
  schedule-IsHeap [] q w = w
  schedule-IsHeap (x ∷ xs) q w = schedule-IsHeap xs _ (heap.push-IsHeap q.h _ w)

  schedule-labelled :
      (xs : List (ℕ × A)) (q : Queue A) → Perm (schedule heap xs q).h (labelled q.seq xs ++ q.h)
  unfolding schedule at_time
  schedule-labelled [] q = Perm.rfl
  schedule-labelled (x ∷ xs) q =
      let e : Event A = record { time = x.0; seq = add64 q.seq 1; fn = x.1 } in
      let news = labelled (add64 q.seq 1) xs in
      Perm.trans (schedule-labelled xs _)
        (Perm.trans (Perm.append_left news (heap.push-Perm q.h e)) (perm_middle news q.h))

  schedule-seq_after :
      (xs : List (ℕ × A)) (q : Queue A) → (schedule heap xs q).seq ≡ seq_after q.seq xs
  unfolding schedule at_time
  schedule-seq_after [] q = refl
  schedule-seq_after (x ∷ xs) q = schedule-seq_after xs _

module _ {A S : Type 0} (heap : Heap A) (program : Program A S) where
  -- No violation is on record, and e is the first event of the queue and due.
  pub record Next (until : ℕ) (e : Event A) (rest : List (Event A)) (s : Simulator A S)
      : Type 0 where
    pub fine : program.is_violated s.state ≡ false
    pub taken : Perm s.q.h (e ∷ rest)
    pub first : all (λ x. not (less x e)) rest ≡ true
    pub due : e.time ≤ until

  -- The event e has run: what it makes of the state at its time is the state, what it schedules is in
  -- the queue with all that was there but itself.
  pub record Ran (until : ℕ) (e : Event A) (s s' : Simulator A S) : Type 0 where
    pub rest : List (Event A)
    pub more : List (ℕ × A)
    pub next : Next until e rest s
    pub effect : program.run e.time e.fn s.state ≡ ok (s'.state, more)
    pub now : s'.now ≡ e.time
    pub events : s'.events ≡ suc s.events
    pub queue : Perm s'.q.h (labelled s.q.seq more ++ rest)
    pub seq : s'.q.seq ≡ seq_after s.q.seq more
    pub is_heap : heap.IsHeap s'.q.h

  -- A list of events ran one after the other, from one state of the simulator to another.
  abbrev pub Trace : ℕ → List (Event A) → Simulator A S → Simulator A S → Type 0
  Trace until [] s s' = s' ≡ s
  Trace until (e ∷ es) s s' = (m : Simulator A S) × Ran until e s m × Trace until es m s'

  peek_time-empty : (q : Queue A) → q.h ≡ [] → peek_time q ≡ none
  unfolding peek_time
  peek_time-empty q h = rw h refl

  peek_time-root :
      (q : Queue A) (e : Event A) (h : List (Event A)) → q.h ≡ e ∷ h → peek_time q ≡ some e.time
  unfolding peek_time
  peek_time-root q e h r = rw r refl

  abbrev taken_out : ℕ → List (Event A) → Event A → Option (ℕ × A) × Queue A
  taken_out seq h x = (some (x.time, x.fn), record { h = h; seq = seq })

  pop-root :
      (q : Queue A) (e : Event A) (h : List (Event A))
      → q.h ≡ e ∷ h
      → pop heap q ≡ (some (e.time, e.fn), record { h = (heap.pop e h).1; seq = q.seq })
  unfolding pop
  pop-root q e h r =
      ap (pop_from heap q.seq) r ∙ ap (taken_out q.seq (heap.pop e h).1) (heap.pop-root e h)

  -- What the loop leaves behind when the root e of the queue has run.
  abbrev fired : Event A → List (Event A) → S × List (ℕ × A) → Simulator A S → Simulator A S
  fired e h r s = record {
    now = e.time;
    q = schedule heap r.1 (record { h = (heap.pop e h).1; seq = s.q.seq });
    events = suc s.events;
    state = r.0;
  }

  module _ (until : ℕ) (e : Event A) (h : List (Event A)) (s : Simulator A S)
      (w : heap.IsHeap s.q.h) (root : s.q.h ≡ e ∷ h) (fine : program.is_violated s.state ≡ false)
      (due : e.time ≤ until) where
    root-IsHeap : heap.IsHeap (e ∷ h)
    root-IsHeap = subst heap.IsHeap root w

    root-Next : Next until e h s
    root-Next = record {
      fine = fine;
      taken = subst (Perm s.q.h) root Perm.rfl;
      first = heap.root-least e h root-IsHeap;
      due = due;
    }

    fired-Ran :
        (r : S × List (ℕ × A))
        → program.run e.time e.fn s.state ≡ ok r
        → Ran until e s (fired e h r s)
    fired-Ran r run =
        let q : Queue A = record { h = (heap.pop e h).1; seq = s.q.seq } in
        record {
          rest = h;
          more = r.1;
          next = root-Next;
          effect = run;
          now = refl;
          events = refl;
          queue =
              Perm.trans (schedule-labelled heap r.1 q)
                (Perm.append_left (labelled s.q.seq r.1) (heap.pop-Perm e h root-IsHeap));
          seq = schedule-seq_after heap r.1 q;
          is_heap = schedule-IsHeap heap r.1 q (heap.pop-IsHeap e h root-IsHeap);
        }

  Quiet-behind :
      (until : ℕ) (e : Event A) (h : List (Event A))
      → heap.IsHeap (e ∷ h)
      → until < e.time
      → all (is_behind until) (e ∷ h) ≡ true
  Quiet-behind until e h w late =
      let rest =
        all-weaken (not_before e.time) (is_behind until) h (λ x l. ground (arith, late, l))
          (root-not_before heap e h w) in
      ground (arith, late, rest)

  -- One turn of the loop.
  pub data Turn (k until : ℕ) (s : Simulator A S) : Type 0 where
    stops :
        program.is_violated s.state ≡ true
        → loop heap program (suc k) until s ≡ ok (End.violated, s)
        → Turn k until s
    rests :
        program.is_violated s.state ≡ false
        → all (is_behind until) s.q.h ≡ true
        → loop heap program (suc k) until s ≡ ok (End.idle, s)
        → Turn k until s
    overruns :
        (e : Event A) (rest : List (Event A))
        → Next until e rest s
        → program.max_events ≤ s.events
        → loop heap program (suc k) until s
          ≡ ok (End.too_many, record s { q = (pop heap s.q).1; events = suc s.events })
        → Turn k until s
    breaks :
        (e : Event A) (rest : List (Event A))
        → Next until e rest s
        → program.run e.time e.fn s.state ≡ panic
        → loop heap program (suc k) until s ≡ panic
        → Turn k until s
    fires :
        (e : Event A) (s' : Simulator A S)
        → Ran until e s s'
        → suc s.events ≤ program.max_events
        → loop heap program (suc k) until s ≡ loop heap program k until s'
        → Turn k until s

  outcome_cases : {B : Type 0} (o : Outcome B) → (o ≡ panic) ⊎ ((b : B) × (o ≡ ok b))
  outcome_cases panic = inl refl
  outcome_cases (ok b) = inr (b, refl)

  pub turn : (k until : ℕ) (s : Simulator A S) → heap.IsHeap s.q.h → Turn k until s
  unfolding loop fire
  turn k until s w = elim (Bool-cases (program.is_violated s.state)) [
    | inl bad ↦ Turn.stops bad (rw bad refl)
    | inr fine ↦ elim (list_cases s.q.h) [
      | inl empty ↦
          Turn.rests fine (ap (all (is_behind until)) empty)
            (rw (fine, peek_time-empty s.q empty) refl)
      | inr (e, h, root) ↦
          let peek = peek_time-root s.q e h root in
          let popped = pop-root s.q e h root in
          elim (Bool-cases (ltb until e.time)) [
            | inl later ↦
                Turn.rests fine
                  (ap (all (is_behind until)) root
                    ∙ Quiet-behind until e h (subst heap.IsHeap root w) (ground (arith, later)))
                  (rw (fine, peek, later) refl)
            | inr due ↦
                let next = root-Next until e h s w root fine (ground (arith, due)) in
                elim (Bool-cases (ltb program.max_events (suc s.events))) [
                  | inl many ↦
                      Turn.overruns e h next (ground (arith, many))
                        (rw (fine, peek, due, many) refl)
                  | inr few ↦ elim (outcome_cases (program.run e.time e.fn s.state)) [
                    | inl bad ↦
                        Turn.breaks e h next bad (rw (fine, peek, due, few, popped, bad) refl)
                    | inr (r, run) ↦
                        Turn.fires e (fired e h r s)
                          (fired-Ran until e h s w root fine (ground (arith, due)) r run)
                          (ground (arith, few)) (rw (fine, peek, due, few, popped, run) refl)
                  ]
                ]
          ]
    ]
  ]
