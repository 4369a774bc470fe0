-- ===== src/Raft/Commit/Sends.antt =====
-- Operations of raft/node.go that only send: they change nothing but the messages and the progress of
-- the followers.
use raft_sim.Base.{
  ℕ, ◌≡◌, refl, subst, Bool, true, false, List, [], ◌∷◌, Option, none, some, Outcome, ok, panic,
  ◌>>=◌, Ensures, or_panic, lookup, nat_eq, if◌then◌else◌, leb, sub64, Map,
}
use raft_sim.Raft.Types.{Message}
use raft_sim.Raft.State.{Node, Progress, is_leader, send}
use raft_sim.Raft.Log
use raft_sim.Raft.Replication.{
  for_each, send_snapshot, send_entries, send_append, broadcast_append, replication_targets,
  broadcast_if_leader,
}

abbrev pub with_sent : Node → Map ℕ Progress → List Message → Node
with_sent n prs ms = record n { prs = prs; out = record n.out { messages = ms } }

pub record Sends (n n' : Node) : Type 0 where
  pub only : n' ≡ with_sent n n'.prs n'.out.messages

pub Sends-refl : (n : Node) → Sends n n
Sends-refl n = record { only = refl }

pub Sends-trans : (a b c : Node) → Sends a b → Sends b c → Sends a c
Sends-trans a b c p q = record {
  only = subst (λ (x : Node). c ≡ with_sent x c.prs c.out.messages) p.only q.only;
}

-- An operation that only sends where it returns.
pub record Sending (n : Node) (m : Outcome Node) : Type 0 where
  pub at : Ensures (Sends n) m

Sending-bind :
    (n : Node) (m : Outcome Node) (f : Node → Outcome Node)
    → Sending n m
    → ((a : Node) → Sending a (f a))
    → Sending n (m >>= f)
Sending-bind n (ok a) f h k = go (f a) (k a)
  where
    go : (r : Outcome Node) → Sending a r → Sending n r
    go (ok b) q = record { at = Sends-trans n a b h.at q.at }
    go panic q = record { at = tt }
Sending-bind n panic f h k = record { at = tt }

Sending-value {ℓ} :
    {A : Type ℓ} (n : Node) (m : Outcome A) (f : A → Outcome Node)
    → ((a : A) → Sending n (f a))
    → Sending n (m >>= f)
Sending-value n (ok a) f k = k a
Sending-value n panic f k = record { at = tt }

Sending-if :
    (n : Node) (b : Bool) (x y : Outcome Node)
    → Sending n x
    → Sending n y
    → Sending n (if b then x else y)
Sending-if n true x y p q = p
Sending-if n false x y p q = q

send_snapshot-Sending : (to : ℕ) (pr : Progress) (n : Node) → Sending n (send_snapshot to pr n)
unfolding send_snapshot send
send_snapshot-Sending to pr n =
    Sending-if n pr.pending_snap _ _ (record { at = Sends-refl n })
      (Sending-value n (or_panic n.snapshot) _ (λ s. record { at = record { only = refl } }))

send_entries-Sending : (to : ℕ) (pr : Progress) (n : Node) → Sending n (send_entries to pr n)
unfolding send_entries send
send_entries-Sending to pr n =
    Sending-value n (or_panic (Log.term n.log (sub64 pr.next 1))) _
      (λ t. record { at = record { only = refl } })

send_to-Sending :
    (to : ℕ) (o : Option Progress) (n : Node) → lookup to n.prs ≡ o → Sending n (send_append to n)
unfolding send_append
send_to-Sending to none n h = rw (h, send_append) (record { at = Sends-refl n })
send_to-Sending to (some pr) n h =
    rw (h, send_append)
      (Sending-if n (leb pr.next n.log.snap_index) _ _ (send_snapshot-Sending to pr n)
        (send_entries-Sending to pr n))

pub send_append-Sending : (to : ℕ) (n : Node) → Sending n (send_append to n)
send_append-Sending to n = send_to-Sending to (lookup to n.prs) n refl

send_all-Sending : (ts : List ℕ) (n : Node) → Sending n (for_each send_append ts n)
unfolding for_each
send_all-Sending [] n = record { at = Sends-refl n }
send_all-Sending (t ∷ ts) n =
    Sending-bind n (send_append t n) (for_each send_append ts) (send_append-Sending t n)
      (send_all-Sending ts)

pub broadcast_append-Sending : (n : Node) → Sending n (broadcast_append n)
unfolding broadcast_append
broadcast_append-Sending n = send_all-Sending (replication_targets n) n

pub broadcast_if_leader-Sending : (n : Node) → Sending n (broadcast_if_leader n)
broadcast_if_leader-Sending n =
    Sending-if n (is_leader n.state) _ _ (broadcast_append-Sending n) (record { at = Sends-refl n })
