-- ===== src/Verify/Script.antt =====
-- Scripts of calls on the ledger, and what its report says after one.
use prismio.Base.{
  ℕ, zero, suc, ◌+◌, ◌<◌, ◌≡◌, refl, sym, ap, ap₂, ◌∙◌, true, ◌&&◌, Option, none, some, List, [],
  ◌∷◌, arith, ◌==◌, length,
}
use prismio.Verify.{
  Node, Ledger, buckets, empty_ledger, alloc, release, realloc, leaked_below, leaked, report_passes,
  unlink,
}
use prismio.Verify.Chain.{in_buckets, in_buckets-length, on_bucket}
use prismio.Verify.Laws.{
  Heap, make, drop_block, move_block, total, Holds, Sized, alloc-Holds, release-Holds,
  realloc-Holds, Lost, unlink-Lost, blame,
}

-- A call with what malloc answers to it.
pub data Call : Type 0 where
  allocates : ℕ → ℕ → Call
  moves : ℕ → ℕ → ℕ → Call
  frees : ℕ → Call

abbrev pub step : Ledger → Call → Ledger
step l (allocates size answer) = (alloc l size answer true).1
step l (moves p size answer) = (realloc l p size answer true).1
step l (frees p) = release l p

abbrev pub run : Ledger → List Call → Ledger
run l [] = l
run l (c ∷ cs) = run (step l c) cs

abbrev pub on_heap : Heap → Call → Heap
on_heap h (allocates size answer) = make h size answer
on_heap h (moves p size answer) = move_block h p size answer
on_heap h (frees p) = drop_block h p

abbrev pub run_heap : Heap → List Call → Heap
run_heap h [] = h
run_heap h (c ∷ cs) = run_heap (on_heap h c) cs

abbrev pub empty_heap : Heap
empty_heap = record { blocks = []; made = 0; gone = 0; bad = 0 }

-- Every block that is asked for has a byte at least.
abbrev pub AllSized : List Call → Type 0
AllSized [] = Unit
AllSized (allocates size answer ∷ cs) = (0 < size) × AllSized cs
AllSized (moves p size answer ∷ cs) = (0 < size) × AllSized cs
AllSized (frees p ∷ cs) = AllSized cs

-- What a heap keeps: no empty block, and the live ones are those made and not released.
record IsHeap (h : Heap) : Type 0 where
  sized : Sized h.blocks
  balance : h.made ≡ h.gone + length h.blocks

make-IsHeap : (h : Heap) (size answer : ℕ) → 0 < size → IsHeap h → IsHeap (make h size answer)
make-IsHeap h size zero pos k = k
make-IsHeap h size (suc a) pos k = record {
  sized = (pos, k.sized);
  balance = omega (arith, k.balance);
}

drop_block-IsHeap : (h : Heap) (p : ℕ) → IsHeap h → IsHeap (drop_block h p)
drop_block-IsHeap h zero k = k
drop_block-IsHeap h (suc a) k = by_outcome (unlink (suc a) h.blocks) (unlink-Lost (suc a) h.blocks)
  where
    by_outcome :
        (o : Option (Node × List Node))
        → Lost (suc a) h.blocks o
        → IsHeap (elim o [ none ↦ blame h | some r ↦ record h { blocks = r.1; gone = h.gone + 1 } ])
    by_outcome none lost = record { sized = k.sized; balance = k.balance }
    by_outcome (some r) lost = record {
      sized = (lost.3 k.sized).1;
      balance = omega (arith, k.balance, lost.1);
    }

move_block-IsHeap :
    (h : Heap) (p size answer : ℕ) → 0 < size → IsHeap h → IsHeap (move_block h p size answer)
move_block-IsHeap h zero size answer pos k = make-IsHeap h size answer pos k
move_block-IsHeap h (suc a) size answer pos k = by_outcome (unlink (suc a) h.blocks)
  where
    by_answer :
        (q : ℕ) → IsHeap (elim q [ zero ↦ h | suc q ↦ drop_block (make h size (suc q)) (suc a) ])
    by_answer zero = k
    by_answer (suc q) =
        drop_block-IsHeap (make h size (suc q)) (suc a) (make-IsHeap h size (suc q) pos k)

    by_outcome :
        (o : Option (Node × List Node))
        → IsHeap (elim o [
          | none ↦ blame h
          | some r ↦ elim answer [ zero ↦ h | suc q ↦ drop_block (make h size (suc q)) (suc a) ]
        ])
    by_outcome none = record { sized = k.sized; balance = k.balance }
    by_outcome (some r) = by_answer answer

run-Holds :
    (cs : List Call) (l : Ledger) (h : Heap)
    → AllSized cs
    → IsHeap h
    → Holds l h
    → IsHeap (run_heap h cs) × Holds (run l cs) (run_heap h cs)
run-Holds [] l h all i k = (i, k)
run-Holds (allocates size answer ∷ cs) l h all i k =
    run-Holds cs _ _ all.1 (make-IsHeap h size answer all.0 i) (alloc-Holds l h size answer k)
run-Holds (moves p size answer ∷ cs) l h all i k =
    run-Holds cs _ _ all.1 (move_block-IsHeap h p size answer all.0 i)
      (realloc-Holds l h p size answer i.sized k)
run-Holds (frees p ∷ cs) l h all i k =
    run-Holds cs _ _ all (drop_block-IsHeap h p i) (release-Holds l h p k)

leaked_below-Holds :
    (l : Ledger) (h : Heap) (b : ℕ) → Holds l h → leaked_below l b ≡ in_buckets b h.blocks
unfolding leaked_below in_buckets
leaked_below-Holds l h zero k = refl
leaked_below-Holds l h (suc b) k =
    ap₂ (λ x y. x + y) (leaked_below-Holds l h b k) (ap length (k.chains b))

leaked-Holds : (l : Ledger) (h : Heap) → Holds l h → leaked l ≡ length h.blocks
unfolding leaked
leaked-Holds l h k = leaked_below-Holds l h buckets k ∙ in_buckets-length h.blocks

start-IsHeap : IsHeap empty_heap
start-IsHeap = record { sized = tt; balance = omega arith }

start : (mem : ℕ → ℕ) → Holds (empty_ledger mem) empty_heap
unfolding on_bucket
start mem = record {
  chains = λ b. refl;
  allocs = refl;
  releases = refl;
  violations = refl;
  bytes = refl;
}

balanced :
    (l : Ledger) (h : Heap)
    → Holds l h
    → IsHeap h
    → leaked l ≡ length h.blocks
    → l.allocs ≡ l.releases + leaked l
balanced l h k i leak = k.allocs ∙ (i.balance ∙ ap₂ (λ x y. x + y) (sym k.releases) (sym leak))

-- After any script of allocations, reallocations and releases from the start, none of them of an
-- empty block and the ledger's nodes always served: the blocks that the report counts as leaked are
-- as many as the live ones of a heap that is one list, the violations are its calls with an address
-- that was not live, the live bytes are its blocks', what was allocated is what was released and what
-- leaked, and the report passes exactly when that heap is empty and no call was wrong.
pub run-report :
    (mem : ℕ → ℕ) (cs : List Call)
    → AllSized cs
    → (let l = run (empty_ledger mem) cs in
        let h = run_heap empty_heap cs in
        (leaked l ≡ length h.blocks)
        × (l.violations ≡ h.bad)
        × (l.live_bytes ≡ total h.blocks)
        × (l.allocs ≡ l.releases + leaked l)
        × (report_passes l ≡ ((length h.blocks == 0) && (h.bad == 0))))
unfolding report_passes
run-report mem cs all =
    let l = run (empty_ledger mem) cs in
    let h = run_heap empty_heap cs in
    let both = run-Holds cs (empty_ledger mem) empty_heap all start-IsHeap (start mem) in
    let k = both.1 in
    let leak = leaked-Holds l h k in
    (
      leak,
      k.violations,
      k.bytes,
      balanced l h k both.0 leak,
      ap₂ (λ n v. (n == 0) && (v == 0)) leak k.violations,
    )
