-- ===== src/Sim/Sends.antt =====
-- What one Send of sim/net.go puts into the queue.
use mathlib.Core.List.{Perm}
use mathlib.Core.List.Perm
use raft_sim.Base.{
  ℕ, suc, ◌+◌, ◌≤◌, ◌<◌, ◌≡◌, refl, sym, ap, ◌∙◌, subst, arith, Bool, true, false, ◌&&◌, not, List,
  [], ◌∷◌, ◌++◌, if◌then◌else◌, add64, length,
}
use raft_sim.Sim.Queue.{Event, Heap, Queue, at_time}
use raft_sim.Sim.Network.{Random, NetParams, Network, delay, chance, partitioned, deliver_at, send}

module _ {P R A : Type 0} (random : Random P R) (heap : Heap A) (now : ℕ) (deliver : A)
    (p : NetParams P) where
  -- A delivery within the delays of the network.
  abbrev pub InDelay : Event A → Type 0
  InDelay x = (now + p.delay_min ≤ x.time) × (x.time ≤ now + p.delay_max) × (x.fn ≡ deliver)

  abbrev pub AllInDelay : List (Event A) → Type 0
  AllInDelay [] = Unit {0}
  AllInDelay (x ∷ xs) = InDelay x × AllInDelay xs

  -- The queue after some deliveries.
  abbrev pub Delivers : ℕ → Queue A → Queue A → Type 0
  Delivers k q q' =
      (news : List (Event A)) × (length news ≡ k) × AllInDelay news × Perm q'.h (news ++ q.h)

  delay_lem :
      (r : R)
      → p.delay_min ≤ p.delay_max
      → 0 < p.delay_max
      → (p.delay_min ≤ (delay random p r).0) × ((delay random p r).0 ≤ p.delay_max)
  unfolding delay
  delay_lem r le pos = (ground arith, ground arith)

  deliver_at-Delivers :
      (n : Network P R A) (k : ℕ) (q : Queue A)
      → n.p ≡ p
      → p.delay_min ≤ p.delay_max
      → 0 < p.delay_max
      → Delivers k q n.q
      → Delivers (suc k) q (deliver_at random heap now deliver n).q
  unfolding deliver_at at_time
  deliver_at-Delivers n k q same le pos (news, count, good, perm) =
      let d = (delay random n.p n.rng).0 in
      let bounds : (p.delay_min ≤ d) × (d ≤ p.delay_max) =
        subst
          (λ x. (p.delay_min ≤ (delay random x n.rng).0) × ((delay random x n.rng).0 ≤ p.delay_max))
          (sym same) (delay_lem n.rng le pos) in
      let x : Event A = record { time = now + d; seq = add64 n.q.seq 1; fn = deliver } in
      (
        x ∷ news,
        ap suc count,
        ((omega (arith, bounds.0), omega (arith, bounds.1), refl), good),
        Perm.trans (heap.push-Perm n.q.h x) (Perm.cons x perm),
      )

  abbrev Sends : Network P R A → Network P R A → Type 0
  Sends n m = (k : ℕ) × (k ≤ 2) × Delivers k n.q m.q

  if-Sends :
      (n : Network P R A) (b : Bool) (u v : Network P R A)
      → Sends n u
      → Sends n v
      → Sends n (if b then u else v)
  if-Sends n true u v g h = g
  if-Sends n false u v g h = h

  p-deliver_at : (n : Network P R A) → (deliver_at random heap now deliver n).p ≡ n.p
  unfolding deliver_at
  p-deliver_at n = refl

  -- Send puts at most two deliveries into the queue, each of what was given and due between the least
  -- and the greatest delay from now, where the least is not above the greatest and that is not 0; it
  -- changes nothing at all where a partition stands between the two ends and is not ignored.
  pub send_lem :
      (from to : ℕ) (ignore_partition : Bool) (n : Network P R A)
      → n.p ≡ p
      → p.delay_min ≤ p.delay_max
      → 0 < p.delay_max
      → ((k : ℕ) × (k ≤ 2)
          × Delivers k n.q (send random heap now from to ignore_partition deliver n).q)
        × (ignore_partition ≡ false
            → partitioned n from to ≡ true
            → send random heap now from to ignore_partition deliver n ≡ n)
  unfolding send
  send_lem from to ignore_partition n same le pos =
      let n₁ : Network P R A = record n { rng = (chance random n.p.drop_prob n.rng).1 } in
      let n₂ = deliver_at random heap now deliver n₁ in
      let n₃ : Network P R A = record n₂ { rng = (chance random n.p.dup_prob n₂.rng).1 } in
      let nothing : Delivers 0 n.q n.q = ([], refl, tt, Perm.rfl) in
      let once : Delivers 1 n.q n₂.q = deliver_at-Delivers n₁ 0 n.q same le pos nothing in
      let twice = deliver_at-Delivers n₃ 1 n.q (p-deliver_at n₁ ∙ same) le pos once in
      (
        if-Sends n (not ignore_partition && partitioned n from to) n _ (0, omega arith, nothing)
            (if-Sends n (chance random n.p.drop_prob n.rng).0 n₁ _ (0, omega arith, nothing)
              (if-Sends n (chance random n.p.dup_prob n₂.rng).0 _ n₃ (2, omega arith, twice)
                (1, omega arith, once))),
        λ q b. rw (q, b) refl,
      )
