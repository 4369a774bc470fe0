-- ===== src/Sim/Moves.antt =====
-- The clients of sim/client.go with the history that they share: each client in flight points to the
-- record of its own command, and what a call of one client leaves of the others.
use raft_sim.Base.{
  ℕ, suc, ◌<◌, ◌≡◌, ◌≢◌, refl, sym, ap, ◌∙◌, subst, arith, true, false, ◌&&◌, List, [], ◌∷◌, some,
  ok, nat_beq, nat_beq_iff, length, get_elem?, set, get_elem?-some, inl, inr,
}
use raft_sim.Kv.Types.{Command}
use raft_sim.Checker.Linear.{LinOp}
use raft_sim.Checker.Register.{invoked_op, completed}
use raft_sim.Sim.Client.{Client, Caller, Clients, Happening, call, call_on, put_back, happen}
use raft_sim.Sim.Calls.{
  is_start, is_answer, Same, Changes, call-Changes, same_or_other, get_elem?-last, get_elem?-old,
  get_elem?-set_same, get_elem?-set_other,
}

-- A client with the shared history.
abbrev pub caller : Client → Clients → Caller
caller c w = record { client = c; history = w.history; effects = w.effects }

abbrev pub put : ℕ → Clients → Caller → Clients
put k w s = record { clients = set w.clients k s.client; history = s.history; effects = s.effects }

-- The client at a place points to the record of its command, which waits for the answer.
abbrev pub Pending : ℕ → Client → List LinOp → Type 0
Pending k c h =
    (i : ℕ) × (get_elem? h c.hist_idx ≡ some (invoked_op c.cmd i)) × (c.cmd.client_id ≡ suc k)

-- The ids are the places, counted from 1, and each client in flight has its record.
abbrev pub Sound : Clients → Type 0
Sound w =
    (k : ℕ) (c : Client)
    → get_elem? w.clients k ≡ some c
    → (c.id ≡ suc k) × (c.inflight ≡ true → Pending k c w.history)

-- A call is of a client that is there, and no client starts a command with one in flight.
abbrev pub Allowed : Happening → Clients → Type 0
Allowed x w =
    (x.place < length w.clients)
    × ((c : Client)
        → get_elem? w.clients x.place ≡ some c
        → is_start x.call ≡ true
        → c.inflight ≡ false)

abbrev pub AllAllowed : (ℕ → ℕ → List ℕ) → List Happening → Clients → Type 0
AllAllowed text [] w = Unit {0}
AllAllowed text (x ∷ xs) w =
    Allowed x w × ((m : Clients) → happen text x w ≡ ok m → AllAllowed text xs m)

-- One call, taken apart.
pub record Moves (text : ℕ → ℕ → List ℕ) (x : Happening) (w : Clients) : Type 0 where
  pub client : Client
  pub after : Caller
  pub found : get_elem? w.clients x.place ≡ some client
  pub runs : happen text x w ≡ ok (put x.place w after)
  pub changes : Changes x.now x.call (caller client w) after

pub moves :
    (text : ℕ → ℕ → List ℕ) (x : Happening) (w : Clients) → Sound w → Allowed x w → Moves text x w
unfolding happen
moves text x w sound allowed =
    let (c, found) = get_elem?-some w.clients x.place allowed.0 in
    let (s, runs, changes) =
      call-Changes text x.now x.call (caller c w)
        (λ fly. let (i, q, own) = (sound x.place c found).1 fly in (invoked_op c.cmd i, q)) in
    record {
      client = c;
      after = s;
      found = found;
      runs =
          ap (λ o. call_on (call text x.now x.call) x.place o w) found
          ∙ ap (put_back x.place w) runs;
      changes = changes;
    }

pub some_inj : {A : Type 0} {a b : A} → some a ≡ some b → a ≡ b
some_inj h = cc h

-- Two clients in flight point to different records.
apart :
    (h : List LinOp) (j k : ℕ) (b c : Client)
    → j ≢ k
    → Pending j b h
    → Pending k c h
    → c.hist_idx ≢ b.hist_idx
apart h j k b c other (i, q, own) (i', q', own') same =
    let both : some (invoked_op c.cmd i') ≡ some (invoked_op b.cmd i) =
      sym q' ∙ ap (get_elem? h) same ∙ q in
    let ids : c.cmd.client_id ≡ b.cmd.client_id = ap (λ (o : LinOp). o.client_id) (some_inj both) in
    other (ground (arith, ids, own, own'))

module _ (text : ℕ → ℕ → List ℕ) (x : Happening) (w : Clients) (sound : Sound w)
    (allowed : Allowed x w) (mv : Moves text x w) where
  abbrev pub after_call : Clients
  after_call = put x.place w mv.after

  -- The record at another index than the one in flight here stays.
  pub record_stays :
      (i : ℕ) (o : LinOp)
      → get_elem? w.history i ≡ some o
      → (mv.client.inflight ≡ true → mv.client.hist_idx ≢ i)
      → get_elem? mv.after.history i ≡ some o
  record_stays i o h other = elim mv.changes [
    | Changes.waits same hist idle ↦ ap (λ xs. get_elem? xs i) hist ∙ h
    | Changes.begins st id own idx hist ↦
        ap (λ xs. get_elem? xs i) hist ∙ get_elem?-old w.history _ i o h
    | Changes.answers o' res hint is_resp fly found id off hist ↦
        ap (λ xs. get_elem? xs i) hist
        ∙ get_elem?-set_other w.history mv.client.hist_idx i (completed o' res x.now) (other fly)
        ∙ h
  ]

  pub complete_stays :
      (i : ℕ) (o : LinOp)
      → get_elem? w.history i ≡ some o
      → o.complete ≡ true
      → get_elem? mv.after.history i ≡ some o
  complete_stays i o h full = record_stays i o h (λ fly same.
      let (t, q, own) = (sound x.place mv.client mv.found).1 fly in
      let same_op : invoked_op mv.client.cmd t ≡ o =
        some_inj (sym q ∙ ap (get_elem? w.history) same ∙ h) in
      cc (ap (λ (o : LinOp). o.complete) same_op, full))

  Pending-other :
      (j : ℕ) (b : Client) → x.place ≢ j → Pending j b w.history → Pending j b mv.after.history
  Pending-other j b other p =
      let (t, q, own) = p in
      (
        t,
        record_stays b.hist_idx (invoked_op b.cmd t) q (λ fly.
            apart w.history j x.place b mv.client (λ e. other (sym e)) p
              ((sound x.place mv.client mv.found).1 fly)),
        own,
      )

  Pending-own : mv.after.client.inflight ≡ true → Pending x.place mv.after.client mv.after.history
  Pending-own now_fly = elim mv.changes [
    | Changes.waits same hist idle ↦
        let (t, q, own) = (sound x.place mv.client mv.found).1 (sym same.inflight ∙ now_fly) in
        (t, cc (hist, same.hist_idx, q, same.cmd), ap (λ (c : Command). c.client_id) same.cmd ∙ own)
    | Changes.begins st id own idx hist ↦ (
      x.now,
      cc (hist, idx, get_elem?-last w.history (invoked_op mv.after.client.cmd x.now)),
      own ∙ (sound x.place mv.client mv.found).0,
    )
    | Changes.answers o' res hint is_resp fly found id off hist ↦ cc (off, now_fly)
  ]

  after-id : mv.after.client.id ≡ mv.client.id
  after-id = elim mv.changes [
    | Changes.waits same hist idle ↦ same.id
    | Changes.begins st id own idx hist ↦ id
    | Changes.answers o' res hint is_resp fly found id off hist ↦ id
  ]

  pub after_call-Sound : Sound after_call
  after_call-Sound j b h = elim (same_or_other x.place j) [
    | inl same ↦
        let here : some mv.after.client ≡ some b =
          sym (get_elem?-set_same w.clients x.place mv.client mv.after.client mv.found)
          ∙ ap (get_elem? (set w.clients x.place mv.after.client)) same
          ∙ h in
        subst (λ (y : Client). (y.id ≡ suc j) × (y.inflight ≡ true → Pending j y mv.after.history))
          (some_inj here)
          (subst
            (λ q.
              (mv.after.client.id ≡ suc q)
              × (mv.after.client.inflight ≡ true → Pending q mv.after.client mv.after.history))
            same (after-id ∙ (sound x.place mv.client mv.found).0, Pending-own))
    | inr other ↦
        let there : get_elem? w.clients j ≡ some b =
          sym (get_elem?-set_other w.clients x.place j mv.after.client other) ∙ h in
        ((sound j b there).0, λ fly. Pending-other j b other ((sound j b there).1 fly))
  ]

  -- A client in flight that is not answered here has the same command and record.
  pub still_waits :
      (k : ℕ) (c : Client)
      → get_elem? w.clients k ≡ some c
      → c.inflight ≡ true
      → (nat_beq x.place k && is_answer c.seq x.call) ≡ false
      → (c' : Client) × (get_elem? after_call.clients k ≡ some c')
        × Same c c'
        × (get_elem? mv.after.history c.hist_idx ≡ get_elem? w.history c.hist_idx)
  still_waits k c h fly not_mine = elim (same_or_other x.place k) [
    | inr other ↦
        let p = (sound k c h).1 fly in
        (
          c,
          get_elem?-set_other w.clients x.place k mv.after.client other ∙ h,
          record { id = refl; inflight = refl; seq = refl; cmd = refl; hist_idx = refl },
          record_stays c.hist_idx (invoked_op c.cmd p.0) p.1 (λ fly'.
                apart w.history k x.place c mv.client (λ e. other (sym e)) p
                  ((sound x.place mv.client mv.found).1 fly'))
              ∙ sym p.1,
        )
    | inl same ↦
        let me : mv.client ≡ c = some_inj (sym mv.found ∙ ap (get_elem? w.clients) same ∙ h) in
        let set_here =
          subst (λ q. get_elem? (set w.clients x.place mv.after.client) q ≡ some mv.after.client)
            same (get_elem?-set_same w.clients x.place mv.client mv.after.client mv.found) in
        elim mv.changes [
          | Changes.waits kept hist idle ↦ (
            mv.after.client,
            set_here,
            subst (λ (y : Client). Same y mv.after.client) me kept,
            ap (λ xs. get_elem? xs c.hist_idx) hist,
          )
          | Changes.begins st id own idx hist ↦
              absurd (cc (allowed.1 c (ap (get_elem? w.clients) same ∙ h) st, fly))
          | Changes.answers o' res hint is_resp fly' found id off hist ↦
              let asked : is_answer c.seq x.call ≡ true =
                ap (is_answer c.seq) is_resp
                ∙ (nat_beq_iff mv.client.seq c.seq).1 (ap (λ (y : Client). y.seq) me) in
              let at_k : nat_beq x.place k ≡ true = (nat_beq_iff x.place k).1 same in
              absurd (ground (arith, asked, at_k, not_mine))
        ]
  ]
