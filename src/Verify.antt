-- ===== src/Verify.antt =====
-- runtime/lang_runtime.c: the ledger of a --verify build, which stands in for the heap there and counts
-- what is allocated, released, and released wrongly.
--
-- An address is a number, NULL is 0, and what malloc answers for a block is an argument, with whether
-- it had memory for the ledger's own node. A call runs under the ledger's lock and is one step. The
-- backtraces and the text of the report are not modelled. The counters are 64 bits wide, and no
-- program gets so far as to wrap them.
pub mod Chain
pub mod Laws
pub mod Script
mod Tests
use Prim.Native.Nat.{bit_xor}
use prismio.Base.{
  ℕ, zero, suc, ◌+◌, ◌-◌, ◌*◌, ◌/◌, ◌%◌, ◌^◌, Bool, true, false, not, ◌&&◌, ◌||◌, Option, none,
  some, List, [], ◌∷◌, ◌==◌, ltb, leb, if◌then◌else◌, length, min,
}

-- AifLive, less its backtrace
pub record Node : Type 0 where
  pub p : ℕ
  pub size : ℕ
  pub serial : ℕ

pub record Ledger : Type 0 where
  pub live : ℕ → List Node
  pub allocs : ℕ
  pub releases : ℕ
  pub violations : ℕ
  pub allocated_bytes : ℕ
  pub released_bytes : ℕ
  pub live_bytes : ℕ
  pub peak_live_bytes : ℕ
  pub size_buckets : ℕ → ℕ
  pub report_armed : Bool
  -- the bytes of memory, and the blocks that were handed back to libc
  pub mem : ℕ → ℕ
  pub freed : List ℕ

abbrev pub buckets : ℕ
buckets = 4096

abbrev pub poison : ℕ
poison = 0xDD

abbrev pub empty_ledger : (ℕ → ℕ) → Ledger
empty_ledger mem = record {
  live = λ b. [];
  allocs = 0;
  releases = 0;
  violations = 0;
  allocated_bytes = 0;
  released_bytes = 0;
  live_bytes = 0;
  peak_live_bytes = 0;
  size_buckets = λ b. 0;
  report_armed = false;
  mem = mem;
  freed = [];
}

-- aif_live_hash
unfoldable pub live_hash : ℕ → ℕ
live_hash p =
    let v = bit_xor p (p / 2 ^ 33) in
    let w = v * 0xff51afd7ed558ccd % 2 ^ 64 in bit_xor w (w / 2 ^ 29) % buckets

-- aif_verify_arm
unfoldable pub arm : Ledger → Ledger
arm l = record l { report_armed = true }

abbrev pub size_bucket : ℕ → ℕ
size_bucket size =
    if leb size 16
    then 0
    else if leb size 32
    then 1
    else if leb size 64
    then 2
    else if leb size 128
    then 3
    else if leb size 256
    then 4
    else if leb size 512
    then 5
    else if leb size 1024
    then 6
    else if leb size 4096
    then 7
    else 8

abbrev pub at_bucket : (ℕ → List Node) → ℕ → List Node → ℕ → List Node
at_bucket live b chain c = if c == b then chain else live c

-- What an allocation that is served counts.
abbrev pub counted : Ledger → ℕ → Ledger
counted l size =
    let now = l.live_bytes + size in
    record l {
      allocs = l.allocs + 1;
      allocated_bytes = l.allocated_bytes + size;
      live_bytes = now;
      peak_live_bytes = if ltb l.peak_live_bytes now then now else l.peak_live_bytes;
      size_buckets = λ b. if b == size_bucket size then l.size_buckets b + 1 else l.size_buckets b;
    }

abbrev pub linked : Ledger → Node → Ledger
linked l n = record l { live = at_bucket l.live (live_hash n.p) (n ∷ l.live (live_hash n.p)) }

-- aif_verify_alloc, where malloc answers `answer` for the block and has memory for the node or not
unfoldable pub alloc : Ledger → ℕ → ℕ → Bool → ℕ × Ledger
unfolding arm
alloc l size zero has_node = (0, arm l)
alloc l size (suc a) has_node =
    let k = counted (arm l) size in
    let n : Node = record { p = suc a; size = size; serial = k.allocs } in
    (suc a, if has_node then linked k n else k)

abbrev pub size_in : ℕ → List Node → ℕ
size_in p [] = 0
size_in p (n ∷ ns) = if n.p == p then n.size else size_in p ns

-- aif_verify_usable_size
unfoldable pub usable_size : Ledger → ℕ → ℕ
usable_size l zero = 0
usable_size l (suc a) = size_in (suc a) (l.live (live_hash (suc a)))

-- The walk of aif_verify_release along a chain: the node of a block, and the chain without it.
unfoldable pub unlink : ℕ → List Node → Option (Node × List Node)
unlink p [] = none
unlink p (n ∷ ns) =
    let rest = unlink p ns in
    if n.p == p then some (n, ns) else elim rest [ none ↦ none | some r ↦ some (r.0, n ∷ r.1) ]

abbrev pub poisoned : (ℕ → ℕ) → ℕ → ℕ → ℕ → ℕ
poisoned mem p size a = if leb p a && ltb a (p + size) then poison else mem a

abbrev pub violation : Ledger → Ledger
violation l = record l { violations = l.violations + 1 }

-- What a release of a block that is live counts and does.
abbrev pub retired : Ledger → ℕ → Node → List Node → Ledger
retired l p n chain =
    let k = record l {
      live = at_bucket l.live (live_hash p) chain;
      releases = l.releases + 1;
      released_bytes = l.released_bytes + n.size;
      mem = poisoned l.mem p n.size;
      freed = p ∷ l.freed;
    } in
    if leb n.size l.live_bytes
    then record k { live_bytes = l.live_bytes - n.size }
    else record k { live_bytes = 0; violations = l.violations + 1 }

-- aif_verify_release
unfoldable pub release : Ledger → ℕ → Ledger
unfolding unlink
release l zero = l
release l (suc a) = elim (unlink (suc a) (l.live (live_hash (suc a)))) [
  | none ↦ violation l
  | some r ↦ retired l (suc a) r.0 r.1
]

abbrev pub copied : (ℕ → ℕ) → ℕ → ℕ → ℕ → ℕ → ℕ
copied mem to from n a = if leb to a && ltb a (to + n) then mem (from + (a - to)) else mem a

-- The end of aif_verify_realloc: the bytes that fit are copied and the old block is released.
abbrev pub moved : ℕ → ℕ → ℕ → ℕ × Ledger → ℕ × Ledger
moved p old size (zero, l) = (0, l)
moved p old size (suc q, l) =
    (suc q, release (record l { mem = copied l.mem (suc q) p (min old size) }) p)

-- aif_verify_realloc
unfoldable pub realloc : Ledger → ℕ → ℕ → ℕ → Bool → ℕ × Ledger
unfolding alloc usable_size release
realloc l zero size answer has_node = alloc l size answer has_node
realloc l (suc a) size answer has_node =
    let old = usable_size l (suc a) in
    if old == 0 then (0, violation l) else moved (suc a) old size (alloc l size answer has_node)

-- What aif_verify_report counts as leaked: the nodes of every bucket.
unfoldable pub leaked_below : Ledger → ℕ → ℕ
leaked_below l zero = 0
leaked_below l (suc b) = leaked_below l b + length (l.live b)

unfoldable pub leaked : Ledger → ℕ
unfolding leaked_below
leaked l = leaked_below l buckets

-- aif_verify_report: whether what the analysis inferred held.
unfoldable pub report_passes : Ledger → Bool
unfolding leaked
report_passes l = (leaked l == 0) && (l.violations == 0)
