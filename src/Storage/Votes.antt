-- ===== src/Storage/Votes.antt =====
-- Votes over the whole life of a node with its disk (raft/node.go, storage/storage.go), crashes and
-- restarts included.
use raft_sim.Base.{
  ◌≤◌, ◌≡◌, ◌≢◌, refl, sym, ap, ◌∙◌, subst, arith, Bool, true, List, [], ◌∷◌, ◌++◌, Option, none,
  some, Outcome, ok, panic, ◌>>=◌, Ensures,
}
use raft_sim.Raft.Types.{HardState, Persist, Snapshot, Input, Output, Entry, Message}
use raft_sim.Raft.State.{Node, Params, Restore, become_follower}
use raft_sim.Raft.Conf.{init_conf_history}
use raft_sim.Raft.Replication.{for_each, append_one}
use raft_sim.Raft.Step.{step, hard_state, restart_node, restore_snapshot, blank}
use raft_sim.Raft.Votes.Quiet.{Quiet, Quiet-trans, grants, become_follower-Quiet}
use raft_sim.Raft.Votes.Handlers.{for_each-Calm, append_one-Calm}
use raft_sim.Raft.Votes.Steps.{AllGrant}
use raft_sim.Raft.Votes.Inputs.{TermsFit}
use raft_sim.Storage.{Durable, apply, apply_unit, apply_snapshot, apply_entries, load}
use raft_sim.Storage.Life.{StepSafe, step_safe, persisted}

-- The disk after a unit holds the hard state of the unit, if it has one.
hs-apply_snapshot :
    (s : Option Snapshot) (r : Bool) (d : Durable) → (apply_snapshot s r d).hs ≡ d.hs
unfolding apply_snapshot
hs-apply_snapshot none r d = refl
hs-apply_snapshot (some s) r d = refl

hs-apply_entries : (es : List Entry) (d d' : Durable) → apply_entries es d ≡ ok d' → d'.hs ≡ d.hs
unfolding apply_entries
hs-apply_entries [] d d' h = ground arith
hs-apply_entries (e ∷ es) d d' h = ground arith

pub hs-apply : (p : Option Persist) (d d' : Durable) → apply p d ≡ ok d' → d'.hs ≡ persisted d.hs p
unfolding apply apply_unit
hs-apply none d d' h = ground arith
hs-apply (some p) d d' h =
    hs-apply_entries p.entries _ d' h ∙ hs-apply_snapshot p.snapshot p.replace_log _

-- A restarted node has the hard state that it is given.
hard_state-restore :
    (s : Option Snapshot) (n : Node) → hard_state (restore_snapshot s n) ≡ hard_state n
unfolding restore_snapshot
hard_state-restore none n = refl
hard_state-restore (some s) n = refl

hard_state-Quiet : (n n' : Node) → Quiet n n' → hard_state n' ≡ hard_state n
hard_state-Quiet n n' q = ground (arith, q.term, q.voted_for)

pub hard_state-restart_node :
    (p : Params) (r : Restore) (n : Node) → restart_node p r ≡ ok n → hard_state n ≡ r.hard_state
unfolding restart_node init_conf_history
hard_state-restart_node p r n h =
    go (for_each append_one r.entries base)
      (for_each-Calm append_one r.entries base append_one-Calm).at (ground arith)
    ∙ hard_state-restore r.snapshot _
  where
    base : Node
    base =
        restore_snapshot r.snapshot
          (init_conf_history 0 (record { voters = p.voters }) (blank p r.hard_state))

    go :
        (m : Outcome Node)
        → Ensures (Quiet base) m
        → (m >>= λ a. ok (become_follower a.term 0 a)) ≡ ok n
        → hard_state n ≡ hard_state base
    go (ok a) q e =
        let same : n ≡ become_follower a.term 0 a = ground arith in
        ap hard_state same ∙ hard_state-Quiet base _ (Quiet-trans q (become_follower-Quiet 0 a))
    go panic q e = cc

-- A node that runs on a disk, or the disk of one that has crashed.
pub data World : Type 0 where
  alive : Node → Durable → World
  down : Durable → World

-- A life from w, with all messages that were sent in it. A step is followed by the write of its unit
-- and then by the sending. A crash loses the node and keeps the disk: this is also what a crash
-- within a step leaves, before the unit is written.
pub data Life (w : World) : World → List Message → Type 0 where
  start : Life w w []
  run :
      {n : Node} {d : Durable} {ms : List Message} (input : Input) (n' : Node) (out : Output)
      (d' : Durable)
      → Life w (alive n d) ms
      → step n input ≡ ok (n', out)
      → apply out.persist d ≡ ok d'
      → Life w (alive n' d') (ms ++ out.messages)
  crash : {n : Node} {d : Durable} {ms : List Message} → Life w (alive n d) ms → Life w (down d) ms
  restart :
      {d : Durable} {ms : List Message} (p : Params) (n : Node)
      → Life w (down d) ms
      → restart_node p (load d) ≡ ok n
      → Life w (alive n d) ms

-- The terms fit at every step of a life.
abbrev pub AllFit : {w u : World} {ms : List Message} → Life w u ms → Type 0
AllFit start = Unit {0}
AllFit (run {n} input n' out d' l h k) = TermsFit n input × AllFit l
AllFit (crash l) = AllFit l
AllFit (restart p n l h) = AllFit l

abbrev pub disk : World → Durable
disk (alive n d) = d
disk (down d) = d

-- A running node has the hard state of its disk.
abbrev pub Synced : World → Type 0
Synced (alive n d) = hard_state n ≡ d.hs
Synced (down d) = Unit {0}

-- The disk remembers the votes that were sent: none is of a later term, and those of its term to a
-- real node are its vote.
abbrev Remembers : HardState → List Message → Type 0
Remembers hs [] = Unit {0}
Remembers hs (m ∷ ms) =
    (grants m ≡ true → (m.term ≤ hs.term) × (m.term ≡ hs.term → m.to ≢ 0 → m.to ≡ hs.voted_for))
    × Remembers hs ms

-- Of two votes for real nodes in one term, both are for the same node.
abbrev pub Agrees : Message → List Message → Type 0
Agrees m [] = Unit {0}
Agrees m (k ∷ ms) =
    (grants m ≡ true → grants k ≡ true → m.term ≡ k.term → m.to ≢ 0 → k.to ≢ 0 → m.to ≡ k.to)
    × Agrees m ms

abbrev pub OneVote : List Message → Type 0
OneVote [] = Unit {0}
OneVote (m ∷ ms) = Agrees m ms × OneVote ms

Remembers-later :
    (hs hs' : HardState) (ms : List Message)
    → hs.term ≤ hs'.term
    → (hs'.term ≡ hs.term → hs.voted_for ≢ 0 → hs'.voted_for ≡ hs.voted_for)
    → Remembers hs ms
    → Remembers hs' ms
Remembers-later hs hs' [] le kept h = tt
Remembers-later hs hs' (m ∷ ms) le kept h = (
  λ g.
      let (old, same) = h.0 g in
      (
        omega (arith, old, le),
        λ e ne.
            let now : m.term ≡ hs.term = omega (arith, old, le, e) in
            let v = same now ne in v ∙ sym (kept (sym e ∙ now) (λ z. ne (v ∙ z))),
      ),
  Remembers-later hs hs' ms le kept h.1,
)

Remembers-granted :
    (hs : HardState) (ms : List Message) → AllGrant hs.term hs.voted_for ms → Remembers hs ms
Remembers-granted hs [] h = tt
Remembers-granted hs (m ∷ ms) h =
    (λ g. (omega (arith, (h.0 g).0), λ e ne. (h.0 g).1), Remembers-granted hs ms h.1)

Remembers-append :
    (hs : HardState) (xs ys : List Message)
    → Remembers hs xs
    → Remembers hs ys
    → Remembers hs (xs ++ ys)
Remembers-append hs [] ys h k = k
Remembers-append hs (x ∷ xs) ys h k = (h.0, Remembers-append hs xs ys h.1 k)

Agrees-granted :
    (hs : HardState) (m : Message) (ms : List Message)
    → Remembers hs (m ∷ [])
    → AllGrant hs.term hs.voted_for ms
    → Agrees m ms
Agrees-granted hs m [] r h = tt
Agrees-granted hs m (k ∷ ms) r h = (
  λ gm gk same ne ne'. let (t, v) = h.0 gk in (r.0 gm).1 (same ∙ t) ne ∙ sym v,
  Agrees-granted hs m ms r h.1,
)

Agrees-append :
    (m : Message) (xs ys : List Message) → Agrees m xs → Agrees m ys → Agrees m (xs ++ ys)
Agrees-append m [] ys h k = k
Agrees-append m (x ∷ xs) ys h k = (h.0, Agrees-append m xs ys h.1 k)

OneVote-granted :
    (hs : HardState) (ms : List Message) → AllGrant hs.term hs.voted_for ms → OneVote ms
OneVote-granted hs [] h = tt
OneVote-granted hs (m ∷ ms) h = (
  Agrees-granted hs m ms (Remembers-granted hs (m ∷ []) (h.0, tt)) h.1,
  OneVote-granted hs ms h.1,
)

OneVote-append :
    (hs : HardState) (xs ys : List Message)
    → OneVote xs
    → Remembers hs xs
    → AllGrant hs.term hs.voted_for ys
    → OneVote (xs ++ ys)
OneVote-append hs [] ys h r g = OneVote-granted hs ys g
OneVote-append hs (x ∷ xs) ys h r g = (
  Agrees-append x xs ys h.0 (Agrees-granted hs x ys (r.0, tt) g),
  OneVote-append hs xs ys h.1 r.1 g,
)

-- What holds at every point of a life.
record Sound (u : World) (ms : List Message) : Type 0 where
  pub once : OneVote ms
  pub remembers : Remembers (disk u).hs ms
  pub synced : Synced u

run-Sound :
    (n n' : Node) (d d' : Durable) (ms : List Message) (out : Output)
    → StepSafe n n' out
    → apply out.persist d ≡ ok d'
    → Sound (alive n d) ms
    → Sound (alive n' d') (ms ++ out.messages)
run-Sound n n' d d' ms out s k v =
    let written : d'.hs ≡ hard_state n' =
      hs-apply out.persist d d' k
      ∙ ap (λ (x : HardState). persisted x out.persist) (sym v.synced)
      ∙ s.recorded in
    let old : Remembers (hard_state n') ms =
      Remembers-later (hard_state n) (hard_state n') ms s.later s.kept
        (subst (λ (x : HardState). Remembers x ms) (sym v.synced) v.remembers) in
    record {
      once = OneVote-append (hard_state n') ms out.messages v.once old s.granted;
      remembers =
          subst (λ (x : HardState). Remembers x (ms ++ out.messages)) (sym written)
            (Remembers-append (hard_state n') ms out.messages old
              (Remembers-granted (hard_state n') out.messages s.granted));
      synced = sym written;
    }

Life-Sound : {w u : World} {ms : List Message} (l : Life w u ms) → Synced w → AllFit l → Sound u ms
Life-Sound start s f = record { once = tt; remembers = tt; synced = s }
Life-Sound (run {n} {d} {ms} input n' out d' l h k) s f =
    run-Sound n n' d d' ms out (step_safe n n' input out f.0 h) k (Life-Sound l s f.1)
Life-Sound (crash l) s f =
    let v = Life-Sound l s f in record { once = v.once; remembers = v.remembers; synced = tt }
Life-Sound (restart {d} p n l h) s f =
    let v = Life-Sound l s f in
    record {
      once = v.once;
      remembers = v.remembers;
      synced = hard_state-restart_node p (load d) n h ∙ hs-load d;
    }
  where
    hs-load : (d : Durable) → (load d).hard_state ≡ d.hs
    hs-load d = unfold load in refl

-- Votes are cast once: in a life of a node with its disk that starts with both in agreement, with any
-- inputs, crashes and restarts, and with terms that fit, no two messages that were sent grant real
-- votes of one term to different nodes (with ids other than 0).
pub vote_once :
    {w u : World} {ms : List Message} (l : Life w u ms) → Synced w → AllFit l → OneVote ms
vote_once l s f = (Life-Sound l s f).once

-- The disk follows: in a life of a node with its disk that starts with both in agreement, with any
-- inputs, crashes and restarts, and with terms that fit, a node that runs has on its disk the term
-- and the vote that it goes by.
pub disk-Synced :
    {w u : World} {ms : List Message} (l : Life w u ms) → Synced w → AllFit l → Synced u
disk-Synced l s f = (Life-Sound l s f).synced
