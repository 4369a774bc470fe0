-- ===== src/Kv/Codec/Commands.antt =====
-- A command survives its encoding (kv/codec.go).
use mathlib.Core.List.{append-nil, append_assoc}
use raft_sim.Base.{
  ℕ, ◌+◌, ◌-◌, ◌%◌, ◌^◌, ◌<◌, ◌≡◌, ap, ◌∙◌, arith, List, [], ◌∷◌, ◌++◌, ok, length, take, drop,
  put_u32, read_u32, read_u32-count, put_u64, read_u64-put, take-append, drop-append, length-append,
}
use raft_sim.Kv.Types.{Command}
use raft_sim.Kv.Codec.{append_str, read_str, op_byte, op_of_byte, encode, decode_command}

-- A string with its length in front.
abbrev pub str : List ℕ → List ℕ
str s = put_u32 (length s % 2 ^ 32) ++ s

pub append_str-eq : (b s : List ℕ) → append_str b s ≡ b ++ str s
unfolding append_str
append_str-eq b s = append_assoc b (put_u32 (length s % 2 ^ 32)) s

-- The length of a string that the codec can carry.
abbrev pub FitsStr : List ℕ → Type 0
FitsStr s = length s + 4 < 2 ^ 32

read_u32-len : (s r : List ℕ) → FitsStr s → read_u32 (str s ++ r) ≡ ok (length s, s ++ r)
read_u32-len s r h =
    ap read_u32 (append_assoc (put_u32 (length s % 2 ^ 32)) s r)
    ∙ read_u32-count (length s) (s ++ r) (omega arith)

length-str : (s r : List ℕ) → length (str s ++ r) ≡ 4 + length s + length r
unfolding put_u32
length-str s r = omega (arith, length-append s r)

pub read_str-append : (s r : List ℕ) → FitsStr s → read_str (str s ++ r) ≡ ok (s, r)
unfolding read_str
read_str-append s r h =
    let stop : (4 + length s) % 2 ^ 32 - 4 ≡ length s = omega arith in
    rw (read_u32-len s r h) (
      ground (
        arith,
        length-str s r,
        stop,
        ap (λ (n : ℕ). take n (s ++ r)) stop ∙ take-append s r,
        ap (λ (n : ℕ). drop n (s ++ r)) stop ∙ drop-append s r,
      ))

pub encode-eq :
    (c : Command)
    → encode c
      ≡ op_byte c.op
        ∷ (put_u64 c.client_id ++ (put_u64 c.seq ++ (str c.key ++ (str c.value ++ str c.expect))))
unfolding encode
encode-eq c = simp append_assoc

-- What a command must satisfy to be carried: numbers of 64 bits, strings whose length the length
-- field holds, and an operation that is one of the three.
pub record Fits (c : Command) : Type 0 where
  pub client : c.client_id < 2 ^ 64
  pub seq : c.seq < 2 ^ 64
  pub key : FitsStr c.key
  pub value : FitsStr c.value
  pub expect : FitsStr c.expect
  pub op : op_of_byte (op_byte c.op) ≡ c.op

decode_command-parts :
    (c : Command)
    → Fits c
    → decode_command (
        op_byte c.op
        ∷ (put_u64 c.client_id
            ++ (put_u64 c.seq ++ (str c.key ++ (str c.value ++ (str c.expect ++ []))))))
      ≡ ok c
unfolding decode_command
decode_command-parts c h = rw (read_u64-put c.client_id _ h.client) (
    rw (read_u64-put c.seq _ h.seq) (
      rw (read_str-append c.key _ h.key) (
        rw (read_str-append c.value _ h.value)
          (rw (read_str-append c.expect [] h.expect) (ground (arith, h.op))))))

-- Decoding the encoding of a command gives the command back: with ids below 2 ^ 64, strings whose
-- length and four more is below 2 ^ 32, and an operation that is its byte's.
pub decode-encode : (c : Command) → Fits c → decode_command (encode c) ≡ ok c
decode-encode c h = ap decode_command (encode-eq c ∙ simp append-nil) ∙ decode_command-parts c h
