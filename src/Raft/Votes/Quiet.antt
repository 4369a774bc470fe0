-- ===== src/Raft/Votes/Quiet.antt =====
-- Operations of raft/node.go that leave the term and the vote alone and grant no vote.
use raft_sim.Base.{
  ℕ, ◌≡◌, refl, sym, subst, ◌∙◌, arith, Bool, true, false, List, [], ◌∷◌, ◌++◌, none, Outcome, ok,
  panic, ◌>>=◌, or_panic, Ensures, if◌then◌else◌, ◌&&◌, not,
}
use raft_sim.Raft.Types.{Config, Message, MessageType, ProposeReply}
use raft_sim.Raft.State.{
  Node, send, mark_appended, become_follower, apply_committed, reply, reject_propose, base_persist,
}
use raft_sim.Raft.Conf.{set_config, truncate_configs_from}

-- The message grants a real vote.
abbrev pub is_vote_resp : MessageType → Bool
is_vote_resp MessageType.vote_resp = true
is_vote_resp _ = false

abbrev pub grants : Message → Bool
grants m = is_vote_resp m.type_of && not m.pre_vote && m.granted

abbrev pub AllQuiet : List Message → Type 0
AllQuiet [] = Unit {0}
AllQuiet (m ∷ ms) = (grants m ≡ false) × AllQuiet ms

pub AllQuiet-append :
    (ms : List Message) (m : Message) → AllQuiet ms → grants m ≡ false → AllQuiet (ms ++ m ∷ [])
AllQuiet-append [] m h q = (q, tt)
AllQuiet-append (x ∷ ms) m h q = (h.0, AllQuiet-append ms m h.1 q)

-- No hard state is in the unit for the disk yet.
abbrev pub NoHard : Node → Type 0
NoHard n = (base_persist n.snap_dirty).hard_state ≡ none

-- Identity, term, vote and the mark of a changed hard state are the same, and no vote is granted.
pub record Quiet (n n' : Node) : Type 0 where
  pub id : n'.id ≡ n.id
  pub term : n'.term ≡ n.term
  pub voted_for : n'.voted_for ≡ n.voted_for
  pub hs_dirty : n'.hs_dirty ≡ n.hs_dirty
  pub messages : AllQuiet n.out.messages → AllQuiet n'.out.messages
  pub clean : NoHard n → NoHard n'

pub Quiet-refl : (n : Node) → Quiet n n
Quiet-refl n = record {
  id = refl;
  term = refl;
  voted_for = refl;
  hs_dirty = refl;
  messages = λ h. h;
  clean = λ c. c;
}

pub Quiet-trans : {a b c : Node} → Quiet a b → Quiet b c → Quiet a c
Quiet-trans p q = record {
  id = q.id ∙ p.id;
  term = q.term ∙ p.term;
  voted_for = q.voted_for ∙ p.voted_for;
  hs_dirty = q.hs_dirty ∙ p.hs_dirty;
  messages = λ h. q.messages (p.messages h);
  clean = λ c. q.clean (p.clean c);
}

pub Quiet-same :
    (n n' : Node)
    → n'.id ≡ n.id
    → n'.term ≡ n.term
    → n'.voted_for ≡ n.voted_for
    → n'.hs_dirty ≡ n.hs_dirty
    → n'.out.messages ≡ n.out.messages
    → (NoHard n → NoHard n')
    → Quiet n n'
Quiet-same n n' i t v d m c = record {
  id = i;
  term = t;
  voted_for = v;
  hs_dirty = d;
  messages = λ h. subst AllQuiet (sym m) h;
  clean = c;
}

pub Quiet-either :
    (n : Node) (b : Bool) (x y : Node) → Quiet n x → Quiet n y → Quiet n (if b then x else y)
Quiet-either n true x y p q = p
Quiet-either n false x y p q = q

-- An operation on `n` that is quiet where it returns.
pub record Calm (n : Node) (m : Outcome Node) : Type 0 where
  pub at : Ensures (Quiet n) m

module _ {n : Node} where
  pub Calm-ok : {a : Node} → Quiet n a → Calm n (ok a)
  Calm-ok q = record { at = q }

  pub Calm-panic : Calm n panic
  Calm-panic = record { at = tt }

  pub Calm-from : {a : Node} (m : Outcome Node) → Quiet n a → Calm a m → Calm n m
  Calm-from (ok b) p q = record { at = Quiet-trans p q.at }
  Calm-from panic p q = record { at = tt }

  pub Calm-bind :
      (m : Outcome Node) (f : Node → Outcome Node)
      → Calm n m
      → ((a : Node) → Calm a (f a))
      → Calm n (m >>= f)
  Calm-bind (ok a) f h k = Calm-from (f a) h.at (k a)
  Calm-bind panic f h k = Calm-panic

  -- A value that may be missing is read first.
  pub Calm-value {ℓ} :
      {A : Type ℓ} (m : Outcome A) (f : A → Outcome Node)
      → ((a : A) → Calm n (f a))
      → Calm n (m >>= f)
  Calm-value (ok a) f k = k a
  Calm-value panic f k = Calm-panic

  pub Calm-if : (b : Bool) (x y : Outcome Node) → Calm n x → Calm n y → Calm n (if b then x else y)
  Calm-if true x y p q = p
  Calm-if false x y p q = q

pub send-Quiet : (m : Message) (n : Node) → grants m ≡ false → Quiet n (send m n)
unfolding send
send-Quiet m n h = record {
  id = refl;
  term = refl;
  voted_for = refl;
  hs_dirty = refl;
  messages = λ q. AllQuiet-append n.out.messages _ q h;
  clean = λ c. c;
}

pub mark_appended-Quiet : (i : ℕ) (n : Node) → Quiet n (mark_appended i n)
unfolding mark_appended
mark_appended-Quiet i n =
    Quiet-either n _ _ _ (Quiet-same n _ refl refl refl refl refl (λ c. c)) (Quiet-refl n)

pub apply_committed-Quiet : (n : Node) → Quiet n (apply_committed n)
unfolding apply_committed
apply_committed-Quiet n =
    Quiet-either n _ _ _ (Quiet-refl n) (Quiet-same n _ refl refl refl refl refl (λ c. c))

pub reply-Quiet : (r : ProposeReply) (n : Node) → Quiet n (reply r n)
unfolding reply
reply-Quiet r n = Quiet-same n _ refl refl refl refl refl (λ c. c)

pub reject_propose-Quiet : (n : Node) → Quiet n (reject_propose n)
unfolding reject_propose
reject_propose-Quiet n = reply-Quiet _ n

pub become_follower-Quiet : (leader : ℕ) (n : Node) → Quiet n (become_follower n.term leader n)
unfolding become_follower
become_follower-Quiet leader n =
    Quiet-same n _ refl (ground arith) (ground arith) (ground arith) refl (λ c. c)

pub set_config-Quiet : (index : ℕ) (cfg : Config) (n : Node) → Quiet n (set_config index cfg n)
unfolding set_config
set_config-Quiet index cfg n = Quiet-same n _ refl refl refl refl refl (λ c. c)

pub truncate_configs_from-Calm : (index : ℕ) (n : Node) → Calm n (truncate_configs_from index n)
unfolding truncate_configs_from
truncate_configs_from-Calm index n =
    Calm-value (or_panic _) _ (λ r. Calm-ok (Quiet-same n _ refl refl refl refl refl (λ c. c)))

-- Sending after something quiet.
pub send_after :
    {n : Node} (m : Message) (a : Node) → Quiet n a → grants m ≡ false → Quiet n (send m a)
send_after m a q h = Quiet-trans q (send-Quiet m a h)
