-- ===== src/Kv/Examples.antt =====
-- A store with a few commands, and the theorems about stores and encodings at them.
use raft_sim.Base.{
  ℕ, ◌≡◌, ◌≤◌, refl, subst, arith, true, false, List, [], ◌∷◌, ok, lookup, bytes_eq, nat_eq, elem,
  bytes_beq_iff,
}
use raft_sim.Kv.Types.{OpType, Command, Store}
use raft_sim.Kv.Store.{new_store, value_of, session_of, apply, apply_all, cached_result}
use raft_sim.Kv.Codec.{encode, decode_command, snapshot, restore_store, keys}
use raft_sim.Kv.Store.Sessions.{
  executed, execute_all, times, exactly_once, apply_retry, client_session, cached_result-apply,
}
use raft_sim.Kv.Codec.Commands.{Fits, FitsStr, decode-encode}
use raft_sim.Kv.Codec.Snapshots.{FitsStore, FitsSession, restore_store_lem}

abbrev put_a : Command
put_a = record {
  client_id = 1;
  seq = 1;
  op = OpType.put;
  key = 97 ∷ [];
  value = 120 ∷ [];
  expect = [];
}

abbrev cas_a : Command
cas_a = record {
  client_id = 2;
  seq = 1;
  op = OpType.cas;
  key = 97 ∷ [];
  value = 121 ∷ [];
  expect = 120 ∷ [];
}

abbrev log : List Command
log = put_a ∷ cas_a ∷ put_a ∷ cas_a ∷ []

data_at_end : (apply_all new_store log).entries ≡ (97 ∷ [], 121 ∷ []) ∷ []
unfolding apply_all apply
data_at_end = refl

exactly_once_example :
    ((apply_all new_store log).entries ≡ execute_all (executed new_store log) [])
    × (times 1 1 (executed new_store log) ≤ 1)
exactly_once_example = exactly_once 1 1 new_store log (omega arith)

put_fresh : (apply new_store put_a).1 ≡ true
unfolding apply
put_fresh = refl

apply_retry_example :
    let t = apply_all (apply new_store put_a).2 (cas_a ∷ []) in
    ((apply t put_a).0 ≡ (apply new_store put_a).0)
    × ((apply t put_a).1 ≡ false)
    × ((apply t put_a).2.entries ≡ t.entries)
    × (client_session (apply t put_a).2 2 ≡ client_session t 2)
apply_retry_example =
    apply_retry new_store put_a (cas_a ∷ []) 2 (omega arith) put_fresh (omega arith)

cached_result-apply_example :
    cached_result (apply new_store put_a).2 1 1 ≡ ((apply new_store put_a).0, true)
cached_result-apply_example = cached_result-apply new_store put_a (omega arith) put_fresh

cas-Fits : Fits cas_a
cas-Fits = record {
  client = omega arith;
  seq = omega arith;
  key = omega arith;
  value = omega arith;
  expect = omega arith;
  op = refl;
}

decode-encode_example : decode_command (encode cas_a) ≡ ok cas_a
decode-encode_example = decode-encode cas_a cas-Fits

abbrev filled : Store
filled = record {
  entries = (97 ∷ [], 121 ∷ []) ∷ [];
  sessions = (1, record { last_seq = 1; last_result = record { value = []; ok = true } }) ∷ [];
}

-- The only key and the only client.
only_key : (k : List ℕ) → elem k ((97 ∷ []) ∷ []) ≡ true → (97 ∷ []) ≡ k
only_key k e = ground (arith, bytes_beq_iff (97 ∷ []) k)

only_client : (c : ℕ) → elem c (1 ∷ []) ≡ true → 1 ≡ c
only_client c e = ground arith

filled_fits : FitsStore filled
unfolding keys
filled_fits = record {
  key_count = omega arith;
  client_count = omega arith;
  entries = λ k e.
      subst (λ (j : List ℕ). FitsStr j × FitsStr (value_of (lookup j filled.entries)))
        (only_key k e) (omega arith);
  sessions = λ c e.
      subst (λ (j : ℕ). FitsSession j (session_of j filled.sessions)) (only_client c e)
        (record { client = omega arith; seq = omega arith; value = omega arith });
}

restore_store_lem_example :
    (t : Store) × (restore_store (snapshot filled) ≡ ok t)
    × ((k : List ℕ) → lookup k t.entries ≡ lookup k filled.entries)
    × ((c : ℕ) → lookup c t.sessions ≡ lookup c filled.sessions)
restore_store_lem_example = restore_store_lem filled filled_fits
