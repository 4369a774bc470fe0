-- ===== src/Sim/Answers.antt =====
-- What becomes of a command of a client of sim/client.go, whatever calls of the clients come before and
-- after its answer.
use raft_sim.Base.{
  ℕ, ◌≡◌, refl, sym, ap, ◌∙◌, subst, true, false, ◌&&◌, List, [], ◌∷◌, ◌++◌, some, ok, ◌>>=◌,
  nat_beq, nat_beq_iff, get_elem?,
}
use raft_sim.Kv.Types.{Result}
use raft_sim.Kv.Store.{zero_result}
use raft_sim.Checker.Linear.{LinOp}
use raft_sim.Checker.Register.{invoked_op, completed, recorded}
use raft_sim.Sim.Client.{Client, Clients, Call, Happening, happen, happen_all}
use raft_sim.Sim.Calls.{is_answer, Same, Changes, get_elem?-set_same}
use raft_sim.Sim.Moves.{
  Sound, Allowed, AllAllowed, Moves, moves, put, some_inj, complete_stays, after_call-Sound,
  still_waits,
}

-- No call of the client at a place is a response that answers the command with this number.
abbrev pub NotAnswered : ℕ → ℕ → List Happening → Type 0
NotAnswered k seq [] = Unit {0}
NotAnswered k seq (x ∷ xs) =
    ((nat_beq x.place k && is_answer seq x.call) ≡ false) × NotAnswered k seq xs

module _ (text : ℕ → ℕ → List ℕ) where
  happen_all-step :
      (x : Happening) (xs : List Happening) (w m : Clients)
      → happen text x w ≡ ok m
      → happen_all text (x ∷ xs) w ≡ happen_all text xs m
  unfolding happen_all
  happen_all-step x xs w m h = ap (λ o. o >>= happen_all text xs) h

  -- Calls that are allowed do not panic, and leave complete records as they are.
  all_stay :
      (xs : List Happening) (w : Clients)
      → Sound w
      → AllAllowed text xs w
      → (w' : Clients) × (happen_all text xs w ≡ ok w')
        × Sound w'
        × ((i : ℕ) (o : LinOp)
            → get_elem? w.history i ≡ some o
            → o.complete ≡ true
            → get_elem? w'.history i ≡ some o)
  unfolding happen_all
  all_stay [] w sound a = (w, refl, sound, λ i o h full. h)
  all_stay (x ∷ xs) w sound a =
      let mv = moves text x w sound a.0 in
      let m = put x.place w mv.after in
      let (w', runs, sound', stay) =
        all_stay xs m (after_call-Sound text x w sound a.0 mv) (a.1 m mv.runs) in
      (
        w',
        happen_all-step x xs w m mv.runs ∙ runs,
        sound',
        λ i o h full. stay i o (complete_stays text x w sound a.0 mv i o h full) full,
      )

  -- Calls before the answer leave the command in flight, with its record.
  all_wait :
      (xs rest : List Happening) (w : Clients) (k : ℕ) (c : Client)
      → Sound w
      → get_elem? w.clients k ≡ some c
      → c.inflight ≡ true
      → NotAnswered k c.seq xs
      → AllAllowed text (xs ++ rest) w
      → (m : Clients) × (c' : Client) × (happen_all text (xs ++ rest) w ≡ happen_all text rest m)
        × Sound m
        × AllAllowed text rest m
        × (get_elem? m.clients k ≡ some c')
        × Same c c'
        × (get_elem? m.history c.hist_idx ≡ get_elem? w.history c.hist_idx)
  all_wait [] rest w k c sound h fly none_yet a = (
    w,
    c,
    refl,
    sound,
    a,
    h,
    record { id = refl; inflight = refl; seq = refl; cmd = refl; hist_idx = refl },
    refl,
  )
  all_wait (x ∷ xs) rest w k c sound h fly none_yet a =
      let mv = moves text x w sound a.0 in
      let m = put x.place w mv.after in
      let (b, h', same, kept) = still_waits text x w sound a.0 mv k c h fly none_yet.0 in
      let (m', c', runs, sound', a', h'', same', kept') =
        all_wait xs rest m k b (after_call-Sound text x w sound a.0 mv) h' (same.inflight ∙ fly)
          (subst (λ q. NotAnswered k q xs) (sym same.seq) none_yet.1) (a.1 m mv.runs) in
      (
        m',
        c',
        happen_all-step x (xs ++ rest) w m mv.runs ∙ runs,
        sound',
        a',
        h'',
        record {
          id = same'.id ∙ same.id;
          inflight = same'.inflight ∙ same.inflight;
          seq = same'.seq ∙ same.seq;
          cmd = same'.cmd ∙ same.cmd;
          hist_idx = same'.hist_idx ∙ same.hist_idx;
        },
        subst (λ i. get_elem? m'.history i ≡ get_elem? m.history i) same.hist_idx kept' ∙ kept,
      )

  abbrev res_of : Call → Result
  res_of (Call.response seq res fine hint) = res
  res_of _ = zero_result

  -- The answer completes the record.
  answer_completes :
      (x : Happening) (w : Clients) (c : Client) (res : Result) (hint i : ℕ) (sound : Sound w)
      (allowed : Allowed x w) (mv : Moves text x w)
      → get_elem? w.clients x.place ≡ some c
      → c.inflight ≡ true
      → x.call ≡ Call.response c.seq res true hint
      → get_elem? w.history c.hist_idx ≡ some (invoked_op c.cmd i)
      → get_elem? mv.after.history c.hist_idx ≡ some (completed (invoked_op c.cmd i) res x.now)
  answer_completes x w c res hint i sound allowed mv h fly asked q =
      let me : mv.client ≡ c = some_inj (sym mv.found ∙ h) in
      let fly' : mv.client.inflight ≡ true = ap (λ (y : Client). y.inflight) me ∙ fly in
      let asked' : is_answer mv.client.seq x.call ≡ true =
        ap (is_answer mv.client.seq) asked
        ∙ (nat_beq_iff c.seq mv.client.seq).1 (ap (λ (y : Client). y.seq) (sym me)) in
      elim mv.changes [
        | Changes.waits same hist idle ↦ cc (idle fly', asked')
        | Changes.begins st id own idx hist ↦ cc (allowed.1 c h st, fly)
        | Changes.answers o res' hint' is_resp _ found id off hist ↦
            let results : res' ≡ res = ap res_of (sym is_resp ∙ asked) in
            let idx : mv.client.hist_idx ≡ c.hist_idx = ap (λ (y : Client). y.hist_idx) me in
            let ops : o ≡ invoked_op c.cmd i =
              some_inj (sym found ∙ ap (get_elem? w.history) idx ∙ q) in
            ap (get_elem? mv.after.history) (sym idx)
            ∙ ap (λ xs. get_elem? xs mv.client.hist_idx) hist
            ∙ get_elem?-set_same w.history mv.client.hist_idx o (completed o res' x.now) found
            ∙ (λ j. some (completed (ops j) (results j) x.now))
      ]

  -- A command in flight is recorded once and for all when it is answered: from any state in which the
  -- clients have the ids of their places and each client in flight points to the record of its own
  -- command, through any calls of any clients that start no command with one in flight, of which the
  -- first that answers the command of the client at place k is the one shown, nothing panics, that
  -- condition holds at the end, and the record of the command, which was the one made when it was
  -- invoked, is then the one that the checker's model takes of the command with this answer and time.
  pub handle_resp-once :
      (evs more : List Happening) (w : Clients) (k : ℕ) (c : Client) (later hint : ℕ) (res : Result)
      → Sound w
      → get_elem? w.clients k ≡ some c
      → c.inflight ≡ true
      → NotAnswered k c.seq evs
      → let answer : Happening = record {
        place = k;
        now = later;
        call = Call.response c.seq res true hint;
      } in
        AllAllowed text (evs ++ answer ∷ more) w
        → (w' : Clients) × (i : ℕ) × (happen_all text (evs ++ answer ∷ more) w ≡ ok w')
          × Sound w'
          × (get_elem? w.history c.hist_idx ≡ some (invoked_op c.cmd i))
          × (get_elem? w'.history c.hist_idx
              ≡ some (recorded (record { command = c.cmd; invoke = i; response = later }) res))
  handle_resp-once evs more w k c later hint res sound h fly none_yet a =
      let x : Happening = record {
        place = k;
        now = later;
        call = Call.response c.seq res true hint;
      } in
      let (i, q, own) = (sound k c h).1 fly in
      let (m, b, runs, sound', a', h', same, kept) =
        all_wait evs (x ∷ more) w k c sound h fly none_yet a in
      let mv = moves text x m sound' a'.0 in
      let n = put k m mv.after in
      let done : get_elem? mv.after.history c.hist_idx
          ≡ some (completed (invoked_op c.cmd i) res later) =
        let q' : get_elem? m.history b.hist_idx ≡ some (invoked_op b.cmd i) =
          ap (get_elem? m.history) same.hist_idx
          ∙ kept
          ∙ q
          ∙ ap (λ d. some (invoked_op d i)) (sym same.cmd) in
        ap (get_elem? mv.after.history) (sym same.hist_idx)
        ∙ answer_completes x m b res hint i sound' a'.0 mv h' (same.inflight ∙ fly)
            (ap (λ d. Call.response d res true hint) (sym same.seq)) q'
        ∙ ap (λ d. some (completed (invoked_op d i) res later)) same.cmd in
      let (w', runs', sound'', stay) =
        all_stay more n (after_call-Sound text x m sound' a'.0 mv) (a'.1 n mv.runs) in
      (
        w',
        i,
        runs ∙ happen_all-step x more m n mv.runs ∙ runs',
        sound'',
        q,
        stay c.hist_idx (completed (invoked_op c.cmd i) res later) done refl,
      )
