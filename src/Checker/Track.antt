-- ===== src/Checker/Track.antt =====
-- checker/invariants.go: what the checker of invariants keeps. A violation is what its text reports;
-- the hash FNV-1a of a list of bytes, which is a library's, is an argument wherever it is used.
use raft_sim.Base.{
  ℕ, ◌≡◌, ◌↔◌, ap, arith, Bool, true, false, ◌&&◌, List, [], ◌∷◌, ◌++◌, Option, none, some, Map,
  lookup, insert, Comparable, nat_eq, nat_beq,
}
use raft_sim.Raft.Types.{EntryType, Entry}

abbrev pub type_byte : EntryType → ℕ
type_byte EntryType.normal = 0
type_byte EntryType.noop = 1
type_byte EntryType.config = 2

unfoldable pub entry_hash : (List ℕ → ℕ) → Entry → ℕ
entry_hash fnv e = fnv (type_byte e.type_of ∷ e.bytes)

pub record EntryKey : Type 0 where
  pub index : ℕ
  pub term : ℕ

pub record ChainVal : Type 0 where
  pub hash : ℕ
  pub prev_term : ℕ

pub record CommittedVal : Type 0 where
  pub term : ℕ
  pub hash : ℕ
  pub commit_term_ub : ℕ

abbrev pub same_entry : CommittedVal → CommittedVal → Bool
same_entry c o = nat_beq c.term o.term && nat_beq c.hash o.hash

abbrev pub key_beq : EntryKey → EntryKey → Bool
key_beq a b = nat_beq a.index b.index && nat_beq a.term b.term

pub key_beq_iff : (a b : EntryKey) → (key_beq a b ≡ true) ↔ (a ≡ b)
key_beq_iff a b = (
  λ h. ground (arith, h),
  λ h. ground (arith, ap (λ (k : EntryKey). k.index) h, ap (λ (k : EntryKey). k.term) h),
)

instance abbrev pub key_eq : Comparable EntryKey
key_eq = record { sound = key_beq_iff; same = key_beq }

-- A nil slice of terms is `none`; a slice of voters is nil where it is empty.
pub record NodeTrack : Type 0 where
  pub restarted : Bool
  pub term : ℕ
  pub commit : ℕ
  pub leader_term : ℕ
  pub leader_last : ℕ
  pub leader_last_term : ℕ
  pub log_first : ℕ
  pub terms : Option (List ℕ)
  pub verified : ℕ
  pub applied_to : ℕ
  pub applied_reset : Bool
  pub voters : List ℕ

abbrev pub new_track : NodeTrack
new_track = record {
  restarted = false;
  term = 0;
  commit = 0;
  leader_term = 0;
  leader_last = 0;
  leader_last_term = 0;
  log_first = 0;
  terms = none;
  verified = 0;
  applied_to = 0;
  applied_reset = false;
  voters = [];
}

pub data Violation : Type 0 where
  apply_order : ℕ → ℕ → ℕ → Violation
  applied_twice : ℕ → ℕ → ℕ → Violation
  applied_uncommitted : ℕ → Violation
  restored_uncommitted : ℕ → ℕ → ℕ → Violation
  term_fell : ℕ → ℕ → ℕ → Violation
  commit_fell : ℕ → ℕ → ℕ → Violation
  no_voters : ℕ → Violation
  unordered_voters : ℕ → List ℕ → Violation
  many_changes : ℕ → ℕ → List ℕ → List ℕ → Violation
  two_leaders : ℕ → ℕ → ℕ → Violation
  leader_shrank : ℕ → ℕ → ℕ → ℕ → Violation
  leader_overwrote : ℕ → ℕ → ℕ → ℕ → Violation
  log_hole : ℕ → ℕ → Violation
  log_mismatch : ℕ → ℕ → ℕ → Violation
  commit_past_last : ℕ → ℕ → ℕ → Violation
  committed_differs : ℕ → ℕ → ℕ → ℕ → Violation
  snapshot_differs : ℕ → ℕ → ℕ → ℕ → Violation
  leader_lacks : ℕ → ℕ → ℕ → Violation
  leader_differs : ℕ → ℕ → ℕ → ℕ → Violation

pub record Invariants : Type 0 where
  pub violations : List Violation
  pub leaders : Map ℕ ℕ
  pub chain : Map EntryKey ChainVal
  pub committed : Map ℕ CommittedVal
  pub commit_order : List ℕ
  pub applied : Map ℕ CommittedVal
  pub tracks : Map ℕ NodeTrack

abbrev pub new_invariants : Invariants
new_invariants = record {
  violations = [];
  leaders = [];
  chain = [];
  committed = [];
  commit_order = [];
  applied = [];
  tracks = [];
}

-- The report comes last.
abbrev pub violate : Violation → Invariants → Invariants
violate x v = record v { violations = v.violations ++ x ∷ [] }

abbrev pub or_new_track : Option NodeTrack → NodeTrack
or_new_track none = new_track
or_new_track (some t) = t

-- The track of a node; `put_track` writes through the pointer that `track` of the source returns.
abbrev pub track : ℕ → Invariants → NodeTrack
track id v = or_new_track (lookup id v.tracks)

abbrev pub put_track : ℕ → NodeTrack → Invariants → Invariants
put_track id t v = record v { tracks = insert id t v.tracks }
