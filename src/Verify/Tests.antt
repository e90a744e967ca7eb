-- ===== src/Verify/Tests.antt =====
-- The ledger at a concrete run.
use prismio.Base.{ℕ, ◌≡◌, ◌+◌, refl, false, List, [], ◌∷◌, arith}
use prismio.Verify.{
  empty_ledger, alloc, release, realloc, unlink, live_hash, leaked, report_passes, usable_size,
}
use prismio.Verify.Script.{Call, allocates, moves, frees, run, run-report}

abbrev zeroes : ℕ → ℕ
zeroes a = 0

-- A block that is moved and released, one that is released twice, and one that is left.
abbrev calls : List Call
calls =
    allocates 24 4096
    ∷ allocates 8 8192
    ∷ moves 4096 40 12288
    ∷ frees 8192
    ∷ frees 8192
    ∷ frees 12288
    ∷ allocates 5 4096
    ∷ []

one_bad : (run (empty_ledger zeroes) calls).violations ≡ 1
unfolding alloc release realloc unlink usable_size live_hash
one_bad = refl

run-report_example :
    (leaked (run (empty_ledger zeroes) calls) ≡ 1)
    × ((run (empty_ledger zeroes) calls).violations ≡ 1)
    × ((run (empty_ledger zeroes) calls).live_bytes ≡ 5)
    × ((run (empty_ledger zeroes) calls).allocs
        ≡ (run (empty_ledger zeroes) calls).releases + leaked (run (empty_ledger zeroes) calls))
    × (report_passes (run (empty_ledger zeroes) calls) ≡ false)
unfolding unlink
run-report_example =
    run-report zeroes calls (omega arith, (omega arith, (omega arith, (omega arith, tt))))

-- A reallocation of an empty block that is live counts as one of a pointer that is not.
empty_block_moved :
    (run (empty_ledger zeroes) (allocates 0 4096 ∷ moves 4096 8 8192 ∷ [])).violations ≡ 1
unfolding alloc release realloc unlink usable_size live_hash
empty_block_moved = refl
