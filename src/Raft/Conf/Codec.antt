-- ===== src/Raft/Conf/Codec.antt =====
-- A configuration survives its encoding (raft/conf.go).
use mathlib.Core.List.{append_assoc}
use raft_sim.Base.{
  ℕ, ◌%◌, ◌^◌, ◌<◌, ◌≡◌, refl, List, [], ◌∷◌, ◌++◌, ok, length, put_u32, read_u32-count, put_u64,
  read_u64-put,
}
use raft_sim.Raft.Types.{Config}
use raft_sim.Raft.Conf.{put_voters, encode_config, read_voters, decode_config}

-- Every id is a uint64.
abbrev pub AllIds : List ℕ → Type 0
AllIds [] = Unit {0}
AllIds (v ∷ vs) = (v < 2 ^ 64) × AllIds vs

read_voters-put :
    (vs : List ℕ) (r : List ℕ) → AllIds vs → read_voters (length vs) (put_voters vs ++ r) ≡ ok vs
unfolding read_voters put_voters
read_voters-put [] r h = refl
read_voters-put (v ∷ vs) r h =
    rw (append_assoc (put_u64 v) (put_voters vs) r)
      (rw (read_u64-put v (put_voters vs ++ r) h.0) (rw (read_voters-put vs r h.1) refl))

-- Decoding the encoding of a configuration gives it back, whatever bytes follow: with fewer than
-- 2 ^ 32 voters, whose ids are below 2 ^ 64.
pub decode-encode_config :
    (c : Config) (r : List ℕ)
    → length c.voters < 2 ^ 32
    → AllIds c.voters
    → decode_config (encode_config c ++ r) ≡ ok c
unfolding decode_config encode_config
decode-encode_config c r few ids =
    rw (append_assoc (put_u32 (length c.voters % 2 ^ 32)) (put_voters c.voters) r) (
      rw (read_u32-count (length c.voters) (put_voters c.voters ++ r) few)
        (rw (read_voters-put c.voters r ids) refl))
