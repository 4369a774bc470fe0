-- ===== src/Checker/Linear.antt =====
-- checker/linear.go: whether the history of the clients is linearizable, key by key. A time is a
-- number below 2 ^ 63, and a panic is the outcome `panic`.
pub mod Spec
pub mod Keys
pub mod Steps
pub mod Sound
pub mod Loop
pub mod Blocked
pub mod Complete
pub mod Returns
pub mod Verdicts
pub mod Histories
use raft_sim.Base.{
  ℕ, zero, suc, ◌+◌, ◌-◌, ◌*◌, ◌^◌, Bool, true, false, not, ◌&&◌, ◌||◌, List, [], ◌∷◌, ◌++◌, map,
  Option, none, some, Outcome, ok, panic, ◌>>=◌, Map, lookup, insert, nat_eq, bytes_eq, ◌==◌,
  nat_beq, ltb, leb, if◌then◌else◌, sort_by, bytes_less, elem, length, set,
}

-- `other n` is a byte that names no operation.
pub data LinKind : Type 0 where
  get put cas : LinKind
  other : ℕ → LinKind

pub record LinOp : Type 0 where
  pub client_id : ℕ
  pub kind : LinKind
  pub key : List ℕ
  pub arg1 : List ℕ
  pub arg2 : List ℕ
  pub out_value : List ℕ
  pub out_ok : Bool
  pub invoke : ℕ
  pub response : ℕ
  pub complete : Bool

pub record RegState : Type 0 where
  pub value : List ℕ
  pub present : Bool

abbrev pub new_register : RegState
new_register = record { value = []; present = false }

-- The state after the operation, and the output that it must have there.
unfoldable pub apply_kind : LinKind → RegState → LinOp → Outcome (RegState × List ℕ × Bool)
apply_kind LinKind.get st o = ok (st, st.value, st.present)
apply_kind LinKind.put st o = ok (record { value = o.arg1; present = true }, [], true)
apply_kind LinKind.cas st o =
    if st.present && (st.value == o.arg1)
    then ok (record { value = o.arg2; present = true }, [], true)
    else ok (st, st.value, false)
apply_kind (LinKind.other n) st o = panic

unfoldable pub apply_op : RegState → LinOp → Outcome (RegState × List ℕ × Bool)
unfolding apply_kind
apply_op st o = apply_kind o.kind st o

abbrev pub bool_beq : Bool → Bool → Bool
bool_beq true b = b
bool_beq false b = not b

unfoldable pub matches_kind : LinKind → LinOp → List ℕ → Bool → Bool
matches_kind LinKind.get o value out_ok = bool_beq o.out_ok out_ok && (o.out_value == value)
matches_kind LinKind.put o value out_ok = true
matches_kind LinKind.cas o value out_ok =
    bool_beq o.out_ok out_ok && (out_ok || (o.out_value == value))
matches_kind (LinKind.other n) o value out_ok = false

unfoldable pub output_matches : LinOp → List ℕ → Bool → Bool
unfolding matches_kind
output_matches o value out_ok = matches_kind o.kind o value out_ok

abbrev pub max_int64 : ℕ
max_int64 = 2 ^ 63 - 1

abbrev pub bit : Bool → ℕ
bit b = if b then 1 else 0

-- The mask as bytes, bit i % 8 of byte i / 8 for operation i: `acc` is the byte so far, of i bits.
unfoldable pub pack : ℕ → ℕ → List Bool → List ℕ
pack i acc [] = if nat_beq i 0 then [] else acc ∷ []
pack i acc (b ∷ bs) =
    let byte = acc + bit b * 2 ^ i in
    let next = pack 0 0 bs in
    let more = pack (suc i) byte bs in if nat_beq i 7 then byte ∷ next else more

abbrev pub digit : Bool → ℕ
digit b = if b then 49 else 48

unfoldable pub memo_key : List Bool → RegState → List ℕ
unfolding pack
memo_key mask st = pack 0 0 mask ++ (0 ∷ (st.value ++ (0 ∷ digit st.present ∷ [])))

-- The variables of the search that survive a return from it: the map `visited` and `nodes`.
pub record Memo : Type 0 where
  pub visited : List (List ℕ)
  pub nodes : ℕ

abbrev pub Search : Type 0
Search = List Bool → ℕ → RegState → Memo → Outcome (Bool × Memo)

-- The least response of the completed operations that are left.
unfoldable pub min_response : ℕ → List Bool → List LinOp → ℕ
min_response least [] os = least
min_response least (b ∷ bs) [] = least
min_response least (b ∷ bs) (o ∷ os) =
    min_response (if not b && o.complete && ltb o.response least then o.response else least) bs os

-- Operation i stands next, if its output fits; else, and where that fails, the rest is tried.
unfoldable pub try_op :
    Search
    → List Bool
    → ℕ
    → RegState
    → ℕ
    → LinOp
    → (Memo → Outcome (Bool × Memo))
    → Memo
    → Outcome (Bool × Memo)
try_op dfs mask left st i o rest memo = do
  (next, value, out_ok) ← apply_op st o
  if o.complete && not (output_matches o value out_ok) then rest memo else (do
    (done, memo') ← dfs (set mask i true) (if o.complete then left - 1 else left) next memo
    if done then ok (true, memo') else rest memo')

-- The loop over the operations from index i on: `bs` is the mask from there.
unfoldable pub try_ops :
    Search
    → ℕ
    → List Bool
    → ℕ
    → RegState
    → ℕ
    → List Bool
    → List LinOp
    → Memo
    → Outcome (Bool × Memo)
unfolding try_op
try_ops dfs least mask left st i [] os memo = ok (false, memo)
try_ops dfs least mask left st i (b ∷ bs) [] memo = ok (false, memo)
try_ops dfs least mask left st i (b ∷ bs) (o ∷ os) memo =
    let rest = try_ops dfs least mask left st (suc i) bs os in
    if b
    then rest memo
    else if ltb least o.invoke
    then ok (false, memo)
    else try_op dfs mask left st i o rest memo

-- The search from a mask, with `left` completed operations left. It is as deep as operations are
-- left, so that the panic of the first clause is not met.
unfoldable pub dfs : ℕ → List LinOp → ℕ → Search
unfolding try_ops min_response
dfs limit ops zero mask left st memo = if nat_beq left 0 then ok (true, memo) else panic
dfs limit ops (suc depth) mask left st memo =
    let key = memo_key mask st in
    if nat_beq left 0
    then ok (true, memo)
    else if ltb limit (suc memo.nodes)
    then panic
    else if elem key memo.visited
    then ok (false, record memo { nodes = suc memo.nodes })
    else try_ops (dfs limit ops depth) (min_response max_int64 mask ops) mask left st 0 mask ops
        (record { visited = key ∷ memo.visited; nodes = suc memo.nodes })

abbrev pub node_limit : ℕ
node_limit = 20000000

abbrev pub by_invoke : LinOp → LinOp → Bool
by_invoke a b = ltb a.invoke b.invoke

abbrev pub unmarked : List LinOp → List Bool
unmarked ops = map (λ o. false) ops

unfoldable pub count_complete : List LinOp → ℕ
count_complete [] = 0
count_complete (o ∷ os) = bit o.complete + count_complete os

abbrev pub empty_memo : Memo
empty_memo = record { visited = []; nodes = 0 }

unfoldable pub explore : ℕ → List LinOp → Outcome Bool
unfolding dfs count_complete
explore limit ops = do
  (found, memo) ←
      dfs limit ops (length ops) (unmarked ops) (count_complete ops) new_register empty_memo
  ok found

unfoldable pub check_key : List LinOp → Outcome Bool
check_key ops =
    let sorted = sort_by by_invoke ops in
    if nat_beq (length sorted) 0 then ok true else explore node_limit sorted

abbrev pub ops_of : Option (List LinOp) → List LinOp
ops_of none = []
ops_of (some os) = os

-- byKey
unfoldable pub by_key : Map (List ℕ) (List LinOp) → List LinOp → Map (List ℕ) (List LinOp)
by_key m [] = m
by_key m (o ∷ os) = by_key (insert o.key (ops_of (lookup o.key m) ++ o ∷ []) m) os

-- The first key whose history is not linearizable.
unfoldable pub check_keys : Map (List ℕ) (List LinOp) → List (List ℕ) → Outcome (Option (List ℕ))
check_keys m [] = ok none
check_keys m (k ∷ ks) = do
  fine ← check_key (ops_of (lookup k m))
  if fine then check_keys m ks else ok (some k)

unfoldable pub check_linearizable : List LinOp → Outcome (Option (List ℕ))
unfolding by_key check_keys
check_linearizable ops =
    let m = by_key [] ops in check_keys m (sort_by bytes_less (map (λ e. e.0) m))
