-- ===== src/Verify/Laws.antt =====
-- The ledger beside a heap that is one list of live blocks.
use mathlib.Core.Path.{subst}
use prismio.Base.{
  ℕ, zero, suc, ◌+◌, ◌-◌, ◌<◌, ◌≤◌, ◌≡◌, refl, sym, ap, ◌∙◌, Bool, true, false, Option, none, some,
  List, [], ◌∷◌, arith, ◌==◌, le→leb, if◌then◌else◌, length, min,
}
use prismio.Verify.{
  Node, Ledger, live_hash, arm, alloc, size_in, usable_size, unlink, violation, retired, release,
  moved, poisoned, copied, realloc, at_bucket,
}
use prismio.Verify.Chain.{
  on_bucket, at_bucket-cons, at_bucket-unlinked, Unlinked, unlink-on_bucket, size_in-on_bucket,
}

-- A heap that keeps its live blocks in one list, newest first, and counts what was made, what was
-- released, and the calls with an address that was not live.
pub record Heap : Type 0 where
  pub blocks : List Node
  pub made : ℕ
  pub gone : ℕ
  pub bad : ℕ

abbrev pub total : List Node → ℕ
total [] = 0
total (n ∷ ns) = n.size + total ns

abbrev pub make : Heap → ℕ → ℕ → Heap
make h size zero = h
make h size (suc a) = record h {
  blocks = record { p = suc a; size = size; serial = h.made + 1 } ∷ h.blocks;
  made = h.made + 1;
}

abbrev pub blame : Heap → Heap
blame h = record h { bad = h.bad + 1 }

abbrev pub drop_block : Heap → ℕ → Heap
drop_block h zero = h
drop_block h (suc a) = elim (unlink (suc a) h.blocks) [
  | none ↦ blame h
  | some r ↦ record h { blocks = r.1; gone = h.gone + 1 }
]

abbrev pub move_block : Heap → ℕ → ℕ → ℕ → Heap
move_block h zero size answer = make h size answer
move_block h (suc a) size answer = elim (unlink (suc a) h.blocks) [
  | none ↦ blame h
  | some r ↦ elim answer [ zero ↦ h | suc q ↦ drop_block (make h size (suc q)) (suc a) ]
]

-- What the ledger says of such a heap.
pub record Holds (l : Ledger) (h : Heap) : Type 0 where
  pub chains : (b : ℕ) → l.live b ≡ on_bucket b h.blocks
  pub allocs : l.allocs ≡ h.made
  pub releases : l.releases ≡ h.gone
  pub violations : l.violations ≡ h.bad
  pub bytes : l.live_bytes ≡ total h.blocks

pub alloc-Holds :
    (l : Ledger) (h : Heap) (size answer : ℕ)
    → Holds l h
    → Holds (alloc l size answer true).1 (make h size answer)
unfolding alloc arm
alloc-Holds l h size zero k = record {
  chains = k.chains;
  allocs = k.allocs;
  releases = k.releases;
  violations = k.violations;
  bytes = k.bytes;
}
alloc-Holds l h size (suc a) k =
    let n : Node = record { p = suc a; size = size; serial = h.made + 1 } in
    let m : Node = record { p = suc a; size = size; serial = l.allocs + 1 } in
    let same : m ≡ n = ap (λ s. record { p = suc a; size = size; serial = s + 1 }) k.allocs in
    record {
      chains = λ b.
          at_bucket-cons l.live h.blocks m k.chains b ∙ ap (λ x. on_bucket b (x ∷ h.blocks)) same;
      allocs = omega (arith, k.allocs);
      releases = k.releases;
      violations = k.violations;
      bytes = omega (arith, k.bytes);
    }

-- A block in use is not empty.
abbrev pub Sized : List Node → Type 0
Sized [] = Unit
Sized (n ∷ ns) = (0 < n.size) × Sized ns

-- What the list loses with a block, and what it has without one.
abbrev pub Lost : ℕ → List Node → Option (Node × List Node) → Type 0
Lost p ns none = size_in p ns ≡ 0
Lost p ns (some r) =
    (total ns ≡ r.0.size + total r.1)
    × (length ns ≡ suc (length r.1))
    × (size_in p ns ≡ r.0.size)
    × (Sized ns → (0 < r.0.size) × Sized r.1)

pub unlink-Lost : (p : ℕ) (ns : List Node) → Lost p ns (unlink p ns)
unfolding unlink
unlink-Lost p [] = refl
unlink-Lost p (n ∷ ns) = by_test (n.p == p) refl (unlink p ns) (unlink-Lost p ns)
  where
    by_test :
        (b : Bool)
        → (n.p == p) ≡ b
        → (o : Option (Node × List Node)) → Lost p ns o
        → Lost p
            (n ∷ ns)
            (if b then some (n, ns) else elim o [ none ↦ none | some r ↦ some (r.0, n ∷ r.1) ])
    by_test true e o k = (refl, refl, rw e refl, λ z. z)
    by_test false e none k = rw e k
    by_test false e (some r) k =
        (omega (arith, k.0), ap suc k.1, rw e k.2, λ z. ((k.3 z.1).0, (z.0, (k.3 z.1).1)))

pub release-Holds :
    (l : Ledger) (h : Heap) (p : ℕ) → Holds l h → Holds (release l p) (drop_block h p)
unfolding release
release-Holds l h zero k = k
release-Holds l h (suc a) k =
    by_outcome (unlink (suc a) h.blocks) (unlink-on_bucket (suc a) h.blocks)
      (unlink-Lost (suc a) h.blocks)
  where
    by_chain : Option (Node × List Node) → Ledger
    by_chain c = elim c [ none ↦ violation l | some r ↦ retired l (suc a) r.0 r.1 ]

    settled : Node → List Node → Bool → Ledger
    settled n chain t =
        let with_chain = record l {
          live = at_bucket l.live (live_hash (suc a)) chain;
          releases = l.releases + 1;
          released_bytes = l.released_bytes + n.size;
          mem = poisoned l.mem (suc a) n.size;
          freed = suc a ∷ l.freed;
        } in
        if t
        then record with_chain { live_bytes = l.live_bytes - n.size }
        else record with_chain { live_bytes = 0; violations = l.violations + 1 }

    by_outcome :
        (o : Option (Node × List Node))
        → Unlinked (suc a) h.blocks o
        → Lost (suc a) h.blocks o
        → Holds
            (release l (suc a))
            (elim o [ none ↦ blame h | some r ↦ record h { blocks = r.1; gone = h.gone + 1 } ])
    by_outcome none u lost =
        subst (λ c. Holds (by_chain c) (blame h))
          (sym (ap (unlink (suc a)) (k.chains (live_hash (suc a))) ∙ u))
          (record {
            chains = k.chains;
            allocs = k.allocs;
            releases = k.releases;
            violations = omega (arith, k.violations);
            bytes = k.bytes;
          })
    by_outcome (some r) u lost =
        let chain = on_bucket (live_hash (suc a)) r.1 in
        let fits : r.0.size ≤ l.live_bytes = omega (arith, k.bytes, lost.0) in
        subst (λ c. Holds (by_chain c) (record h { blocks = r.1; gone = h.gone + 1 }))
          (sym (ap (unlink (suc a)) (k.chains (live_hash (suc a))) ∙ u.1))
          (subst (λ t. Holds (settled r.0 chain t) (record h { blocks = r.1; gone = h.gone + 1 }))
            (sym (le→leb r.0.size l.live_bytes fits))
            (record {
              chains = at_bucket-unlinked l.live h.blocks r.1 (suc a) k.chains u.2;
              allocs = k.allocs;
              releases = omega (arith, k.releases);
              violations = k.violations;
              bytes = omega (arith, k.bytes, lost.0);
            }))

copied-Holds : (l : Ledger) (h : Heap) (mem : ℕ → ℕ) → Holds l h → Holds (record l { mem = mem }) h
copied-Holds l h mem k = record {
  chains = k.chains;
  allocs = k.allocs;
  releases = k.releases;
  violations = k.violations;
  bytes = k.bytes;
}

positive_eqb : (n : ℕ) → 0 < n → (n == 0) ≡ false
positive_eqb n h = ground arith

pub realloc-Holds :
    (l : Ledger) (h : Heap) (p size answer : ℕ)
    → Sized h.blocks
    → Holds l h
    → Holds (realloc l p size answer true).1 (move_block h p size answer)
unfolding realloc usable_size alloc release
realloc-Holds l h zero size answer sized k = alloc-Holds l h size answer k
realloc-Holds l h (suc a) size answer sized k =
    let old : usable_size l (suc a) ≡ size_in (suc a) h.blocks =
      ap (size_in (suc a)) (k.chains (live_hash (suc a))) ∙ size_in-on_bucket (suc a) h.blocks in
    subst (λ s. Holds (by_size s).1 (move_block h (suc a) size answer)) (sym old)
      (by_outcome (unlink (suc a) h.blocks) (unlink-Lost (suc a) h.blocks))
  where
    by_size : ℕ → ℕ × Ledger
    by_size old =
        if old == 0 then (0, violation l) else moved (suc a) old size (alloc l size answer true)

    by_answer :
        (old q : ℕ)
        → Holds
            (moved (suc a) old size (alloc l size q true)).1
            (elim q [ zero ↦ h | suc q ↦ drop_block (make h size (suc q)) (suc a) ])
    by_answer old zero = alloc-Holds l h size zero k
    by_answer old (suc q) = release-Holds _ (make h size (suc q)) (suc a) (
        copied-Holds (alloc l size (suc q) true).1 (make h size (suc q))
          (copied (alloc l size (suc q) true).1.mem (suc q) (suc a) (min old size))
          (alloc-Holds l h size (suc q) k))

    by_outcome :
        (o : Option (Node × List Node))
        → Lost (suc a) h.blocks o
        → Holds (by_size (size_in (suc a) h.blocks)).1 (elim o [
          | none ↦ blame h
          | some r ↦ elim answer [ zero ↦ h | suc q ↦ drop_block (make h size (suc q)) (suc a) ]
        ])
    by_outcome none lost =
        subst (λ n. Holds (by_size n).1 (blame h)) (sym lost)
          (record {
            chains = k.chains;
            allocs = k.allocs;
            releases = k.releases;
            violations = omega (arith, k.violations);
            bytes = k.bytes;
          })
    by_outcome (some r) lost =
        let old = size_in (suc a) h.blocks in
        subst
          (λ t.
            Holds
              (if t then (0, violation l) else moved (suc a) old size (alloc l size answer true)).1
              (elim answer [ zero ↦ h | suc q ↦ drop_block (make h size (suc q)) (suc a) ]))
          (sym (positive_eqb old (omega (arith, lost.2, (lost.3 sized).0)))) (by_answer old answer)
