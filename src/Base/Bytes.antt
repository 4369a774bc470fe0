-- ===== src/Base/Bytes.antt =====
-- Go's encoding/binary in big-endian order, over lists of bytes: the codecs of kv/codec.go and
-- raft/conf.go call it. A read past the end of the slice panics.
use raft_sim.Base.Outcomes.{Outcome, ok, panic, ◌>>=◌}
use Prim.Native.Nat.{ℕ, ◌+◌, ◌*◌, ◌/◌, ◌%◌, ◌^◌, ◌<◌}
use mathlib.Core.Path.{◌≡◌, ap, ◌∙◌}
use mathlib.Core.List.{List, [], ◌∷◌, ◌++◌}
use native.Mathlib.Omega.{arith}

-- binary.BigEndian.AppendUint32(nil, uint32(n))
unfoldable pub put_u32 : ℕ → List ℕ
put_u32 n = (n / 2 ^ 24 % 256) ∷ (n / 2 ^ 16 % 256) ∷ (n / 2 ^ 8 % 256) ∷ (n % 256) ∷ []

-- The value at the front of a slice, and what follows it.
unfoldable pub read_u32 : List ℕ → Outcome (ℕ × List ℕ)
read_u32 (a ∷ b ∷ c ∷ d ∷ r) = ok (a * 2 ^ 24 + b * 2 ^ 16 + c * 2 ^ 8 + d, r)
read_u32 _ = panic

unfoldable pub put_u64 : ℕ → List ℕ
unfolding put_u32
put_u64 n = put_u32 (n / 2 ^ 32) ++ put_u32 n

unfoldable pub read_u64 : List ℕ → Outcome (ℕ × List ℕ)
unfolding read_u32
read_u64 b = do (hi, r) ← read_u32 b; (lo, r') ← read_u32 r; ok (hi * 2 ^ 32 + lo, r')

pub read_u32-put : (n : ℕ) (r : List ℕ) → n < 2 ^ 32 → read_u32 (put_u32 n ++ r) ≡ ok (n, r)
unfolding put_u32 read_u32
read_u32-put n r h = ap (λ (m : ℕ). ok (m, r)) (omega arith)

pub read_u64-put : (n : ℕ) (r : List ℕ) → n < 2 ^ 64 → read_u64 (put_u64 n ++ r) ≡ ok (n, r)
unfolding put_u64 read_u64
read_u64-put n r h = ap (λ (m : ℕ). ok (m, r)) (omega arith)

-- A count that fits is read back after its cast to uint32.
pub read_u32-count :
    (n : ℕ) (r : List ℕ) → n < 2 ^ 32 → read_u32 (put_u32 (n % 2 ^ 32) ++ r) ≡ ok (n, r)
read_u32-count n r h =
    read_u32-put (n % 2 ^ 32) r (omega arith) ∙ ap (λ (k : ℕ). ok (k, r)) (omega arith)
