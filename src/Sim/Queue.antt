-- ===== src/Sim/Queue.antt =====
-- sim/queue.go: the queue of events by virtual time. An event holds a value for what it runs. The heap
-- is container/heap of the standard library, an interface with what its documentation says of it.
use mathlib.Core.List.{Perm}
use raft_sim.Base.{
  ℕ, ◌≡◌, Bool, true, not, List, [], ◌∷◌, Option, none, some, ltb, nat_beq, if◌then◌else◌, add64,
  all, length,
}

pub record Event (A : Type 0) : Type 0 where
  pub time : ℕ
  pub seq : ℕ
  pub fn : A

module _ {A : Type 0} where
  unfoldable pub less : Event A → Event A → Bool
  less a b = if nat_beq a.time b.time then ltb a.seq b.seq else ltb a.time b.time

-- heap.Push and heap.Pop on slices ordered by `less`; `pop` takes a slice that is not empty, in two
-- parts. The root, at index 0, is what Pop returns, and nothing in the heap is less.
pub record Heap (A : Type 0) : Type 1 where
  pub push : List (Event A) → Event A → List (Event A)
  pub pop : Event A → List (Event A) → Event A × List (Event A)
  pub IsHeap : List (Event A) → Type 0
  pub nil-IsHeap : IsHeap []
  pub push-IsHeap : (h : List (Event A)) (e : Event A) → IsHeap h → IsHeap (push h e)
  pub push-Perm : (h : List (Event A)) (e : Event A) → Perm (push h e) (e ∷ h)
  pub pop-IsHeap : (e : Event A) (h : List (Event A)) → IsHeap (e ∷ h) → IsHeap (pop e h).1
  pub pop-Perm : (e : Event A) (h : List (Event A)) → IsHeap (e ∷ h) → Perm (pop e h).1 h
  pub pop-root : (e : Event A) (h : List (Event A)) → (pop e h).0 ≡ e
  pub root-least :
      (e : Event A) (h : List (Event A)) → IsHeap (e ∷ h) → all (λ x. not (less x e)) h ≡ true

pub record Queue (A : Type 0) : Type 0 where
  pub h : List (Event A)
  pub seq : ℕ

module _ {A : Type 0} where
  abbrev pub empty_queue : Queue A
  empty_queue = record { h = []; seq = 0 }

  unfoldable pub peek_time : Queue A → Option ℕ
  peek_time q = elim q.h [ [] ↦ none | e ∷ h ↦ some e.time ]

  unfoldable pub len : Queue A → ℕ
  len q = length q.h

module _ {A : Type 0} (heap : Heap A) where
  unfoldable pub at_time : ℕ → A → Queue A → Queue A
  at_time t fn q =
      let seq' = add64 q.seq 1 in
      record { h = heap.push q.h (record { time = t; seq = seq'; fn = fn }); seq = seq' }

  abbrev pub pop_from : ℕ → List (Event A) → Option (ℕ × A) × Queue A
  pop_from seq [] = (none, record { h = []; seq = seq })
  pop_from seq (e ∷ h) =
      let (first, rest) = heap.pop e h in
      (some (first.time, first.fn), record { h = rest; seq = seq })

  unfoldable pub pop : Queue A → Option (ℕ × A) × Queue A
  pop q = pop_from q.seq q.h
