-- ===== src/Arena/Regions.antt =====
-- Entering and leaving regions: where the chunks of a region go.
use prismio.Base.{
  ℕ, ◌+◌, ◌<◌, ◌≤◌, ◌≡◌, inl, inr, refl, sym, ap, Bool, true, false, ◌&&◌, Bool-cases, List, [],
  ◌∷◌, ◌++◌, arith, ◌==◌, ltb, length,
}
use mathlib.Core.Path.{subst}
use prismio.Base.Count.{one_if}
use prismio.Arena.{
  Chunk, Arena, Freed, chunk_min, pool_max, depth, give_chunks, pop_region, pop, pop_all,
  thread_cleanup,
}
use prismio.Arena.Laws.{IsChunk, All, IsPooled, IsValid}

-- How often the memory at `a` is that of one of the chunks.
abbrev pub count_chunks : ℕ → List Chunk → ℕ
count_chunks a [] = 0
count_chunks a (c ∷ cs) = one_if c.base a + count_chunks a cs

abbrev pub count_regions : ℕ → List (List Chunk) → ℕ
count_regions a [] = 0
count_regions a (r ∷ rs) = count_chunks a r + count_regions a rs

-- Every chunk an arena has, in a region or pooled.
abbrev pub owned : ℕ → Arena → ℕ
owned a s = count_regions a s.stack + count_chunks a s.pool

pub count_chunks-append :
    (a : ℕ) (xs ys : List Chunk) → count_chunks a (xs ++ ys) ≡ count_chunks a xs + count_chunks a ys
count_chunks-append a [] ys = omega arith
count_chunks-append a (x ∷ xs) ys = omega (arith, count_chunks-append a xs ys)

-- What becomes of the chunks given up: `r` leaves the regions alone, each chunk is pooled or freed,
-- and the pool stays short.
pub record IsGiven (a : ℕ) (cs : List Chunk) (s : Arena) (r : Freed × Arena) : Type 0 where
  pub stack_eq : r.1.stack ≡ s.stack
  pub chunks_eq :
      count_chunks a r.0 + count_chunks a r.1.pool ≡ count_chunks a cs + count_chunks a s.pool
  pub pooled : All IsPooled r.1.pool
  pub pool_len : r.1.pool_count ≡ length r.1.pool
  pub pool_short : r.1.pool_count ≤ pool_max

and-split : (a b : Bool) → (a && b) ≡ true → (a ≡ true) × (b ≡ true)
and-split true true h = (refl, refl)
and-split true false h = absurd (ground arith)
and-split false b h = absurd (ground arith)

give_chunks-IsGiven :
    (a : ℕ) (cs : List Chunk) (s : Arena)
    → All IsPooled s.pool
    → s.pool_count ≡ length s.pool
    → s.pool_count ≤ pool_max
    → IsGiven a cs s (give_chunks cs s)
unfolding give_chunks
give_chunks-IsGiven a [] s pooled len short = record {
  stack_eq = refl;
  chunks_eq = refl;
  pooled = pooled;
  pool_len = len;
  pool_short = short;
}
give_chunks-IsGiven a (c ∷ cs) s pooled len short =
    elim (Bool-cases ((c.cap == chunk_min) && ltb s.pool_count pool_max)) [
      | inl e ↦
          let parts = and-split (c.cap == chunk_min) (ltb s.pool_count pool_max) e in
          let room : s.pool_count < pool_max = ground (arith, parts.1) in
          let cap_eq : c.cap ≡ chunk_min = ground (arith, parts.0) in
          let s' : Arena = record s { pool = c ∷ s.pool; pool_count = s.pool_count + 1 } in
          let r = give_chunks-IsGiven a cs s' (cap_eq, pooled) (omega (arith, len)) (omega arith) in
          rw e (record {
            stack_eq = r.stack_eq;
            chunks_eq = omega (arith, r.chunks_eq);
            pooled = r.pooled;
            pool_len = r.pool_len;
            pool_short = r.pool_short;
          })
      | inr e ↦
          let r = give_chunks-IsGiven a cs s pooled len short in
          rw e (record {
            stack_eq = r.stack_eq;
            chunks_eq = omega (arith, r.chunks_eq);
            pooled = r.pooled;
            pool_len = r.pool_len;
            pool_short = r.pool_short;
          })
    ]

-- Leaving a region of a valid arena: the outer ones stay, each of its chunks is pooled or freed,
-- once, and the arena is valid again.
pub pop_region-gives :
    (a : ℕ) (s : Arena) (region : List Chunk) (outer : List (List Chunk))
    → IsValid s
    → s.stack ≡ region ∷ outer
    → ((pop s).1.stack ≡ outer)
      × (count_chunks a (pop s).0 + owned a (pop s).1 ≡ owned a s)
      × IsValid (pop s).1
unfolding pop_region
pop_region-gives a s region outer v e =
    let s' : Arena = record s { stack = outer } in
    let g = give_chunks-IsGiven a region s' v.pooled v.pool_len v.pool_short in
    let here : All (All IsChunk) (region ∷ outer) = subst (All (All IsChunk)) e v.regions in
    let popped : pop s ≡ give_chunks region s' = ap (pop_region s) e in
    subst
      (λ (r : Freed × Arena).
        (r.1.stack ≡ outer) × (count_chunks a r.0 + owned a r.1 ≡ owned a s) × IsValid r.1)
      (sym popped)
      (
        g.stack_eq,
        omega (arith, g.chunks_eq, ap (count_regions a) g.stack_eq, ap (count_regions a) e),
        record {
          regions = subst (All (All IsChunk)) (sym g.stack_eq) here.1;
          pooled = g.pooled;
          pool_len = g.pool_len;
          pool_short = g.pool_short;
        },
      )

-- The loop that leaves all regions.
pub record IsLeft (a : ℕ) (s : Arena) (regions : List (List Chunk)) (r : Freed × Arena)
    : Type 0 where
  pub closed : r.1.stack ≡ []
  pub chunks_eq :
      count_chunks a r.0 + count_chunks a r.1.pool ≡ count_regions a regions + count_chunks a s.pool

pop_all-IsLeft :
    (a : ℕ) (regions : List (List Chunk)) (s : Arena)
    → All IsPooled s.pool
    → s.pool_count ≡ length s.pool
    → s.pool_count ≤ pool_max
    → IsLeft a s regions (pop_all s regions)
unfolding pop_all
pop_all-IsLeft a [] s pooled len short = record { closed = refl; chunks_eq = omega arith }
pop_all-IsLeft a (region ∷ outer) s pooled len short =
    let s' : Arena = record s { stack = outer } in
    let g = give_chunks-IsGiven a region s' pooled len short in
    let first = give_chunks region s' in
    let r = pop_all-IsLeft a outer first.1 g.pooled g.pool_len g.pool_short in
    record {
      closed = r.closed;
      chunks_eq = omega (
        arith,
        r.chunks_eq,
        g.chunks_eq,
        count_chunks-append a first.0 (pop_all first.1 outer).0,
      );
    }

-- When a thread ends, its valid arena keeps no region and no pooled chunk, and each chunk it had is
-- freed, once.
pub thread_cleanup-frees :
    (a : ℕ) (s : Arena)
    → IsValid s
    → (count_chunks a (thread_cleanup s).0 ≡ owned a s)
      × (owned a (thread_cleanup s).1 ≡ 0)
      × (depth (thread_cleanup s).1 ≡ 0)
unfolding thread_cleanup
thread_cleanup-frees a s v =
    let r = pop_all-IsLeft a s.stack s v.pooled v.pool_len v.pool_short in
    let p = pop_all s s.stack in
    (
      omega (arith, r.chunks_eq, count_chunks-append a p.0 p.1.pool),
      omega (arith, ap (count_regions a) r.closed),
      ap length r.closed,
    )
