-- ===== src/Raft/Quorum.antt =====
-- Majorities of a configuration (raft/types.go, raft/membership.go) and of the configurations one
-- server apart.
use raft_sim.Base.{
  ℕ, suc, ◌+◌, ◌/◌, ◌≤◌, ◌<◌, ◌≡◌, refl, ap, subst, arith, Bool, true, false, List, [], ◌∷◌, ◌||◌,
  ◌&&◌, Map, lookup, nat_eq, nat_beq, ltb, if◌then◌else◌, length, Bool-cases, inl, inr,
}
use raft_sim.Raft.Types.{Config, contains, contains_id, quorum}
use raft_sim.Raft.Replication.{without}
use raft_sim.Raft.Membership.{insert_sorted, insert_sorted_from}
use raft_sim.Raft.Election.{voted_yes, count_yes, one_if}

-- How many of the voters satisfy a test.
unfoldable pub count_if : (ℕ → Bool) → List ℕ → ℕ
count_if f [] = 0
count_if f (v ∷ vs) = one_if (f v) + count_if f vs

pub count_yes-eq :
    (vs : List ℕ) (votes : Map ℕ Bool)
    → count_yes vs votes ≡ count_if (λ v. voted_yes (lookup v votes)) vs
unfolding count_yes count_if
count_yes-eq [] votes = refl
count_yes-eq (v ∷ vs) votes = omega (arith, count_yes-eq vs votes)

-- Some voter satisfies both tests.
abbrev pub Shared : (ℕ → Bool) → (ℕ → Bool) → List ℕ → Type 0
Shared f g vs = (v : ℕ) × (contains_id vs v ≡ true) × (f v ≡ true) × (g v ≡ true)

later-Shared : (f g : ℕ → Bool) (v : ℕ) (vs : List ℕ) → Shared f g vs → Shared f g (v ∷ vs)
unfolding contains_id
later-Shared f g v vs (w, c, p, q) = (w, ground arith, p, q)

-- More yes than voters: one voter said yes twice.
pub overlap :
    (f g : ℕ → Bool) (vs : List ℕ) → length vs < count_if f vs + count_if g vs → Shared f g vs
unfolding count_if contains_id
overlap f g [] h = absurd (omega arith)
overlap f g (v ∷ vs) h = elim (Bool-cases (f v && g v)) [
  | inl both ↦ (v, ground arith, ground arith, ground arith)
  | inr one ↦ later-Shared f g v vs (overlap f g vs (ground arith))
]

-- Any two majorities of one configuration share a voter that is for both.
pub quorum_overlap :
    (c : Config) (votes votes' : Map ℕ Bool)
    → quorum c ≤ count_yes c.voters votes
    → quorum c ≤ count_yes c.voters votes'
    → (v : ℕ) × (contains c v ≡ true)
      × (voted_yes (lookup v votes) ≡ true)
      × (voted_yes (lookup v votes') ≡ true)
unfolding quorum contains
quorum_overlap c votes votes' h k =
    overlap (λ v. voted_yes (lookup v votes)) (λ v. voted_yes (lookup v votes')) c.voters
      (omega (arith, count_yes-eq c.voters votes, count_yes-eq c.voters votes'))

-- Voters in ascending order, all above k.
abbrev pub Above : ℕ → List ℕ → Type 0
Above k [] = Unit {0}
Above k (v ∷ vs) = (k < v) × Above v vs

-- What one new server does to a list of voters.
pub record Adds (k v : ℕ) (vs ws : List ℕ) : Type 0 where
  pub ascends : Above k ws
  pub one_more : length ws ≡ suc (length vs)
  pub members : (j : ℕ) → contains_id ws j ≡ (nat_beq v j || contains_id vs j)
  pub counts : (f : ℕ → Bool) → count_if f ws ≡ one_if (f v) + count_if f vs

insert_sorted_from-true : (vs : List ℕ) (v : ℕ) → insert_sorted_from true vs v ≡ vs
unfolding insert_sorted_from
insert_sorted_from-true [] v = refl
insert_sorted_from-true (x ∷ xs) v = ap (◌∷◌ x) (insert_sorted_from-true xs v)

insert_sorted_from-Adds :
    (k : ℕ) (vs : List ℕ) (v : ℕ)
    → Above k vs
    → k < v
    → contains_id vs v ≡ false
    → Adds k v vs (insert_sorted_from false vs v)
unfolding insert_sorted_from contains_id count_if
insert_sorted_from-Adds k [] v h lt out = record {
  ascends = (lt, tt);
  one_more = refl;
  members = λ j. refl;
  counts = λ f. refl;
}
insert_sorted_from-Adds k (x ∷ xs) v h lt out = elim (Bool-cases (ltb v x)) [
  | inl before ↦
      let e : insert_sorted_from false (x ∷ xs) v ≡ v ∷ x ∷ xs =
        ground (arith, insert_sorted_from-true xs v) in
      rw e (record {
        ascends = (lt, (ground arith, h.1));
        one_more = refl;
        members = λ j. refl;
        counts = λ f. refl;
      })
  | inr behind ↦
      let e : insert_sorted_from false (x ∷ xs) v ≡ x ∷ insert_sorted_from false xs v =
        ground arith in
      let rest = insert_sorted_from-Adds x xs v h.1 (ground arith) (ground arith) in
      rw e (record {
        ascends = (h.0, rest.ascends);
        one_more = ap suc rest.one_more;
        members = λ j. ground (arith, rest.members j);
        counts = λ f. omega (arith, rest.counts f);
      })
]

-- A server that joins a list of voters in ascending order, with an id above 0 that is not there yet:
-- the order is kept, the list is one longer, its members are the old ones and the
-- new one, and each test counts one more voter exactly if the new one satisfies it.
pub insert_sorted-Adds :
    (vs : List ℕ) (v : ℕ)
    → Above 0 vs
    → 0 < v
    → contains_id vs v ≡ false
    → Adds 0 v vs (insert_sorted vs v)
unfolding insert_sorted
insert_sorted-Adds vs v h lt out = insert_sorted_from-Adds 0 vs v h lt out

-- What the removal of a server does: the other way round.
without_absent : (k id : ℕ) (vs : List ℕ) → Above k vs → id ≤ k → without id vs ≡ vs
unfolding without
without_absent k id [] h le = refl
without_absent k id (v ∷ vs) h le = ground (arith, without_absent v id vs h.1)

contains_id-below : (k id : ℕ) (vs : List ℕ) → Above k vs → id ≤ k → contains_id vs id ≡ false
unfolding contains_id
contains_id-below k id [] h le = refl
contains_id-below k id (v ∷ vs) h le = ground (arith, contains_id-below v id vs h.1)

Above-mono : (j k : ℕ) (vs : List ℕ) → j ≤ k → Above k vs → Above j vs
Above-mono j k [] le h = tt
Above-mono j k (v ∷ vs) le h = (omega arith, h.1)

pub without-Above : (k id : ℕ) (vs : List ℕ) → Above k vs → Above k (without id vs)
unfolding without
without-Above k id [] h = tt
without-Above k id (v ∷ vs) h = elim (Bool-cases (nat_beq v id)) [
  | inl hit ↦
      let e : without id (v ∷ vs) ≡ without id vs = ground arith in
      rw e (Above-mono k v (without id vs) (omega arith) (without-Above v id vs h.1))
  | inr miss ↦
      let e : without id (v ∷ vs) ≡ v ∷ without id vs = ground arith in
      rw e (h.0, without-Above v id vs h.1)
]

-- A server that leaves a list of voters in ascending order: seen from the shorter list, it is the
-- server that was added.
pub without-Adds :
    (k : ℕ) (vs : List ℕ) (id : ℕ)
    → Above k vs
    → contains_id vs id ≡ true
    → Adds k id (without id vs) vs
unfolding without contains_id count_if
without-Adds k [] id h inside = cc
without-Adds k (v ∷ vs) id h inside = elim (Bool-cases (nat_beq v id)) [
  | inl hit ↦
      let e : without id (v ∷ vs) ≡ vs = ground (arith, without_absent v id vs h.1) in
      rw e (record {
        ascends = h;
        one_more = refl;
        members = λ j. ground arith;
        counts = λ f. ground (arith, ap f {x = v} {y = id});
      })
  | inr miss ↦
      let e : without id (v ∷ vs) ≡ v ∷ without id vs = ground arith in
      let rest = without-Adds v vs id h.1 (ground arith) in
      rw e (record {
        ascends = h;
        one_more = ap suc rest.one_more;
        members = λ j. ground (arith, rest.members j);
        counts = λ f. omega (arith, rest.counts f);
      })
]

Adds-overlap :
    (k v : ℕ) (vs ws : List ℕ) (f g : ℕ → Bool)
    → Adds k v vs ws
    → length vs / 2 + 1 ≤ count_if f vs
    → length ws / 2 + 1 ≤ count_if g ws
    → Shared f g vs
Adds-overlap k v vs ws f g a h p =
    let gone : one_if (g v) ≤ 1 = ground arith in
    overlap f g vs (omega (arith, a.one_more, a.counts g, h, p, gone))

-- The configuration after a server that is in it leaves, or one that is not joins.
abbrev pub toggled : Config → ℕ → Config
toggled c id = record {
  voters = if contains c id then without id c.voters else insert_sorted c.voters id;
}

abbrev yes_in : Map ℕ Bool → ℕ → Bool
yes_in votes v = voted_yes (lookup v votes)

-- A change by one server keeps majorities overlapping: where the voters are in ascending order above
-- 0 and the server's id is not 0, a majority of the configuration before and a majority of the one
-- after, whether the server joins or leaves, share a voter of the one before that is for both.
pub change_overlap :
    (c : Config) (id : ℕ) (votes votes' : Map ℕ Bool)
    → Above 0 c.voters
    → 0 < id
    → quorum c ≤ count_yes c.voters votes
    → quorum (toggled c id) ≤ count_yes (toggled c id).voters votes'
    → (v : ℕ) × (contains c v ≡ true)
      × (voted_yes (lookup v votes) ≡ true)
      × (voted_yes (lookup v votes') ≡ true)
unfolding quorum contains
change_overlap c id votes votes' asc pos h k = elim (Bool-cases (contains_id c.voters id)) [
  | inl inside ↦
      let ws = without id c.voters in
      let e : (toggled c id).voters ≡ ws = ground arith in
      let a = without-Adds 0 c.voters id asc inside in
      let k' : length ws / 2 + 1 ≤ count_yes ws votes' =
        subst (λ (xs : List ℕ). length xs / 2 + 1 ≤ count_yes xs votes') e k in
      let (v, m, p, q) =
        Adds-overlap 0 id ws c.voters (yes_in votes') (yes_in votes) a
          (omega (arith, count_yes-eq ws votes', k'))
          (omega (arith, count_yes-eq c.voters votes, h)) in
      (v, ground (arith, a.members v, m), q, p)
  | inr outside ↦
      let ws = insert_sorted c.voters id in
      let e : (toggled c id).voters ≡ ws = ground arith in
      let a = insert_sorted-Adds c.voters id asc pos outside in
      let k' : length ws / 2 + 1 ≤ count_yes ws votes' =
        subst (λ (xs : List ℕ). length xs / 2 + 1 ≤ count_yes xs votes') e k in
      Adds-overlap 0 id c.voters ws (yes_in votes) (yes_in votes') a
        (omega (arith, count_yes-eq c.voters votes, h)) (omega (arith, count_yes-eq ws votes', k'))
]
