-- ===== src/Sim/Network.antt =====
-- sim/net.go: the network. A probability and the source of random numbers are parameters: whether a
-- probability is positive, whether a number that is drawn is below it, and the exponential delay before
-- its cut. A time is a natural number, and a send without partitions is marked as in the source.
use raft_sim.Base.{
  ℕ, ◌+◌, ◌-◌, Bool, false, ◌&&◌, not, [], Option, none, some, Map, lookup, nat_eq, ltb, nat_beq,
  if◌then◌else◌,
}
use raft_sim.Sim.Queue.{Heap, Queue, at_time}

pub record Random (P R : Type 0) : Type 0 where
  pub positive : P → Bool
  -- rng.Float64() < p
  pub below : P → R → Bool × R
  -- int64(rng.ExpFloat64() * mean), for a mean
  pub exp : ℕ → R → ℕ × R

pub record NetParams (P : Type 0) : Type 0 where
  pub drop_prob : P
  pub dup_prob : P
  pub delay_min : ℕ
  pub delay_mean : ℕ
  pub delay_max : ℕ

pub record Network (P R A : Type 0) : Type 0 where
  pub p : NetParams P
  pub rng : R
  pub q : Queue A
  pub partition : Map ℕ ℕ

abbrev pub group_of : Option ℕ → ℕ
group_of none = 0
group_of (some g) = g

module _ {P R A : Type 0} where
  abbrev pub new_network : NetParams P → R → Queue A → Network P R A
  new_network p rng q = record { p = p; rng = rng; q = q; partition = [] }

  -- A nil or empty map is all connected.
  abbrev pub set_partition : Map ℕ ℕ → Network P R A → Network P R A
  set_partition groups n = record n { partition = groups }

  abbrev pub group : Network P R A → ℕ → ℕ
  group n id = group_of (lookup id n.partition)

  unfoldable pub partitioned : Network P R A → ℕ → ℕ → Bool
  partitioned n from to = not (nat_beq (group n from) (group n to))

abbrev pub mean_of : {P : Type 0} → NetParams P → ℕ
mean_of p = if ltb (p.delay_mean - p.delay_min) 1 then 1 else p.delay_mean - p.delay_min

abbrev pub cut : ℕ → ℕ → ℕ
cut top d = if ltb 0 top && ltb top d then top else d

module _ {P R : Type 0} (random : Random P R) where
  unfoldable pub delay : NetParams P → R → ℕ × R
  delay p r = let (d, r') = random.exp (mean_of p) r in (cut p.delay_max (p.delay_min + d), r')

  -- A draw against a probability, made only where it is positive.
  abbrev pub chance : P → R → Bool × R
  chance p r = if random.positive p then random.below p r else (false, r)

module _ {P R A : Type 0} (random : Random P R) (heap : Heap A) where
  unfoldable pub deliver_at : ℕ → A → Network P R A → Network P R A
  unfolding delay
  deliver_at now deliver n =
      let (d, r) = delay random n.p n.rng in
      record n { rng = r; q = at_time heap (now + d) deliver n.q }

  unfoldable pub send : ℕ → ℕ → ℕ → Bool → A → Network P R A → Network P R A
  unfolding partitioned deliver_at
  send now from to ignore_partition deliver n =
      let (dropped, r₁) = chance random n.p.drop_prob n.rng in
      let n₁ : Network P R A = record n { rng = r₁ } in
      let n₂ = deliver_at now deliver n₁ in
      let (doubled, r₂) = chance random n.p.dup_prob n₂.rng in
      let n₃ : Network P R A = record n₂ { rng = r₂ } in
      if not ignore_partition && partitioned n from to
      then n
      else if dropped
      then n₁
      else if doubled
      then deliver_at now deliver n₃
      else n₃
