-- ===== src/Arena/Laws.antt =====
-- What holds of an arena whatever its thread does: its pool is short, its chunks are not overrun,
-- and a block lies past all that its chunk served before.
use prismio.Base.{
  ℕ, zero, suc, ◌+◌, ◌%◌, ◌<◌, ◌≤◌, ◌≡◌, ◌⊎◌, inl, inr, refl, sym, ap, ◌∙◌, false, Bool-cases,
  Option, none, some, List, [], ◌∷◌, arith, ◌==◌, ltb, leb, if◌then◌else◌, length, get_or, set,
}
use mathlib.Core.Path.{subst}
use prismio.Arena.{
  Chunk, Arena, Mem, chunk_min, pool_max, size_t, depth, fresh_chunk, chunk_from, chunk_new,
  rounded, bump, grow_region, alloc_region, alloc_slot,
}

-- The largest size of an object.
abbrev pub ptrdiff_max : ℕ
ptrdiff_max = 9223372036854775807

-- What has been served of a chunk lies in it and is whole 16 bytes.
pub record IsChunk (c : Chunk) : Type 0 where
  pub inside : c.used ≤ c.cap
  pub cap_in : c.cap ≤ ptrdiff_max
  pub aligned : c.used % 16 ≡ 0

abbrev pub All : {A : Type 0} → (A → Type 0) → List A → Type 0
All P [] = Unit {0}
All P (x ∷ xs) = P x × All P xs

abbrev pub IsPooled : Chunk → Type 0
IsPooled c = c.cap ≡ chunk_min

pub record IsValid (s : Arena) : Type 0 where
  pub regions : All (All IsChunk) s.stack
  pub pooled : All IsPooled s.pool
  pub pool_len : s.pool_count ≡ length s.pool
  pub pool_short : s.pool_count ≤ pool_max

-- A block of `size` bytes at `r.0` from the region at `i` of `s`, leaving `r.1`.
pub record IsServed (s : Arena) (i size : ℕ) (r : ℕ × Arena) : Type 0 where
  pub chunk : Chunk
  pub others : List Chunk
  pub used : ℕ
  pub address : r.0 ≡ chunk.base + chunk.used
  pub stack_eq : r.1.stack ≡ set s.stack i ((record chunk { used = used }) ∷ others)
  pub holds : chunk.used + size ≤ used
  pub chunk_after : IsChunk (record chunk { used = used })
  pub chunk_before : IsChunk chunk
  -- the chunk was the region's newest, or it is new
  pub origin :
      (get_or s.stack i [] ≡ chunk ∷ others) ⊎ ((others ≡ get_or s.stack i []) × (chunk.used ≡ 0))

bump-IsServed :
    (s s' : Arena) (i size : ℕ) (c : Chunk) (others : List Chunk)
    → s'.stack ≡ s.stack
    → i < depth s
    → IsChunk c
    → c.used + rounded size ≤ c.cap
    → size + 15 ≤ ptrdiff_max
    → (get_or s.stack i [] ≡ c ∷ others) ⊎ ((others ≡ get_or s.stack i []) × (c.used ≡ 0))
    → IsServed s i size (bump s' i (rounded size) c others)
bump-IsServed s s' i size c others same_stack deep ok fits small origin = record {
  chunk = c;
  others = others;
  used = size_t (c.used + rounded size);
  address = refl;
  stack_eq =
      ap
        (λ (st : List (List Chunk)).
          set st i ((record c { used = size_t (c.used + rounded size) }) ∷ others))
        same_stack;
  holds = omega (arith, ok.cap_in);
  chunk_after = record {
    inside = omega (arith, ok.cap_in);
    cap_in = ok.cap_in;
    aligned = omega (arith, ok.cap_in, ok.aligned);
  };
  chunk_before = ok;
  origin = origin;
}

-- What arena_chunk_new answers when memory is there: an unused chunk that holds the request, and
-- nothing else is touched but the pool.
pub record IsNew (s : Arena) (need : ℕ) (r : Option Chunk × Arena) : Type 0 where
  pub chunk : Chunk
  pub answer : r.0 ≡ some chunk
  pub unused : chunk.used ≡ 0
  pub holds : need ≤ chunk.cap
  pub cap_in : chunk.cap ≤ ptrdiff_max
  pub stack_eq : r.1.stack ≡ s.stack

pub record HasMemory (m : Mem) : Type 0 where
  pub header_there : 0 < m.header
  pub block_there : 0 < m.block

fresh_chunk-some :
    (m : Mem) (cap : ℕ)
    → HasMemory m
    → fresh_chunk m cap ≡ some (record { base = m.block; used = 0; cap = cap })
fresh_chunk-some m cap has =
    let h : (m.header == 0) ≡ false = ground (arith, has.header_there) in
    let b : (m.block == 0) ≡ false = ground (arith, has.block_there) in rw (h, b) refl

chunk_from-IsNew :
    (m : Mem) (s : Arena) (need : ℕ) (pool : List Chunk)
    → HasMemory m
    → need ≤ ptrdiff_max
    → All IsPooled pool
    → IsNew s need (chunk_from m s need pool)
unfolding chunk_from
chunk_from-IsNew m s need [] has small pooled =
    let cap = if ltb chunk_min need then need else chunk_min in
    record {
      chunk = record { base = m.block; used = 0; cap = cap };
      answer = fresh_chunk-some m cap has;
      unused = refl;
      holds = ground arith;
      cap_in = ground arith;
      stack_eq = refl;
    }
chunk_from-IsNew m s need (c ∷ more) has small (ok, rest) = elim (Bool-cases (leb need chunk_min)) [
  | inl e ↦ rw e (record {
    chunk = record c { used = 0 };
    answer = refl;
    unused = refl;
    holds = ground arith;
    cap_in = omega (arith, ok);
    stack_eq = refl;
  })
  | inr e ↦ rw e (record {
    chunk = record { base = m.block; used = 0; cap = need };
    answer = fresh_chunk-some m need has;
    unused = refl;
    holds = omega arith;
    cap_in = small;
    stack_eq = refl;
  })
]

abbrev used_of : Option Chunk → ℕ
used_of none = 1
used_of (some c) = c.used

abbrev cap_of : Option Chunk → ℕ
cap_of none = 0
cap_of (some c) = c.cap

grow_region-IsServed :
    (m : Mem) (s : Arena) (i size : ℕ) (region : List Chunk) (r : Option Chunk × Arena)
    → IsNew s (rounded size) r
    → get_or s.stack i [] ≡ region
    → i < depth s
    → size + 15 ≤ ptrdiff_max
    → IsServed s i size (grow_region m i (rounded size) region r)
unfolding grow_region
grow_region-IsServed m s i size region (none, s') n e deep small =
    absurd (let h : 1 ≡ n.chunk.used = ap used_of n.answer in omega (arith, h, n.unused))
grow_region-IsServed m s i size region (some c, s') n e deep small =
    let empty : c.used ≡ 0 = ap used_of n.answer ∙ n.unused in
    let cap_eq : c.cap ≡ n.chunk.cap = ap cap_of n.answer in
    bump-IsServed s s' i size c region n.stack_eq deep
      (record {
        inside = omega (arith, empty);
        cap_in = omega (arith, cap_eq, n.cap_in);
        aligned = omega (arith, empty);
      })
      (omega (arith, empty, cap_eq, n.holds)) small (inr (sym e, empty))

alloc_region-IsServed :
    (m : Mem) (s : Arena) (i size : ℕ) (region : List Chunk)
    → HasMemory m
    → All IsPooled s.pool
    → All IsChunk region
    → get_or s.stack i [] ≡ region
    → i < depth s
    → size + 15 ≤ ptrdiff_max
    → IsServed s i size (alloc_region m s i size region)
unfolding alloc_region
alloc_region-IsServed m s i size [] has pooled ok e deep small =
    grow_region-IsServed m s i size [] (chunk_new m s (rounded size))
      (chunk_from-IsNew m s (rounded size) s.pool has (omega arith) pooled) e deep small
alloc_region-IsServed m s i size (c ∷ cs) has pooled (ok, oks) e deep small =
    elim (Bool-cases (ltb c.cap (size_t (c.used + rounded size)))) [
      | inl over ↦ rw over (
          grow_region-IsServed m s i size (c ∷ cs) (chunk_new m s (rounded size))
            (chunk_from-IsNew m s (rounded size) s.pool has (omega arith) pooled) e deep small)
      | inr under ↦
          let fits : size_t (c.used + rounded size) ≤ c.cap = ground arith in
          rw under (
            bump-IsServed s s i size c cs refl deep ok (omega (arith, fits, ok.inside, ok.cap_in))
              small (inl e))
    ]

All-get_or : (xs : List (List Chunk)) (i : ℕ) → All (All IsChunk) xs → All IsChunk (get_or xs i [])
All-get_or [] i h = tt
All-get_or (x ∷ xs) zero (h, hs) = h
All-get_or (x ∷ xs) (suc i) (h, hs) = All-get_or xs i hs

-- With memory there, a request below 2^63 from an open region of a valid arena is served: the block
-- lies in a chunk of that region, at a multiple of 16 bytes from its start, past all that the chunk
-- had served, and no other region changes.
pub alloc_slot-IsServed :
    (m : Mem) (s : Arena) (i size : ℕ)
    → HasMemory m
    → IsValid s
    → i < depth s
    → size + 15 ≤ ptrdiff_max
    → IsServed s i size (alloc_slot m s i size)
alloc_slot-IsServed m s i size has v deep small =
    alloc_region-IsServed m s i size (get_or s.stack i []) has v.pooled
      (All-get_or s.stack i v.regions) refl deep small

All-set :
    (xs : List (List Chunk)) (i : ℕ) (v : List Chunk)
    → All (All IsChunk) xs
    → All IsChunk v
    → All (All IsChunk) (set xs i v)
All-set [] i v h hv = tt
All-set (x ∷ xs) zero v (h, hs) hv = (hv, hs)
All-set (x ∷ xs) (suc i) v (h, hs) hv = (h, All-set xs i v hs hv)

-- The pool alone.
pub record IsPool (s : Arena) : Type 0 where
  pub pooled : All IsPooled s.pool
  pub pool_len : s.pool_count ≡ length s.pool
  pub pool_short : s.pool_count ≤ pool_max

chunk_from-IsPool :
    (m : Mem) (s : Arena) (need : ℕ) (pool : List Chunk)
    → s.pool ≡ pool
    → IsPool s
    → IsPool (chunk_from m s need pool).1
unfolding chunk_from
chunk_from-IsPool m s need [] e v = v
chunk_from-IsPool m s need (c ∷ more) e v =
    let all : All IsPooled (c ∷ more) = subst (All IsPooled) e v.pooled in
    let len : s.pool_count ≡ suc (length more) = v.pool_len ∙ ap length e in
    elim (Bool-cases (leb need chunk_min)) [
      | inl small ↦ rw small (record {
        pooled = all.1;
        pool_len = omega (arith, len);
        pool_short = omega (arith, v.pool_short);
      })
      | inr large ↦ rw large v
    ]

grow_region-IsPool :
    (m : Mem) (i need : ℕ) (region : List Chunk) (r : Option Chunk × Arena)
    → IsPool r.1
    → IsPool (grow_region m i need region r).1
unfolding grow_region
grow_region-IsPool m i need region (none, s) v = v
grow_region-IsPool m i need region (some c, s) v = record {
  pooled = v.pooled;
  pool_len = v.pool_len;
  pool_short = v.pool_short;
}

alloc_region-IsPool :
    (m : Mem) (s : Arena) (i size : ℕ) (region : List Chunk)
    → IsPool s
    → IsPool (alloc_region m s i size region).1
unfolding alloc_region
alloc_region-IsPool m s i size [] v =
    grow_region-IsPool m i (rounded size) [] (chunk_new m s (rounded size))
      (chunk_from-IsPool m s (rounded size) s.pool refl v)
alloc_region-IsPool m s i size (c ∷ cs) v =
    elim (Bool-cases (ltb c.cap (size_t (c.used + rounded size)))) [
      | inl over ↦ rw over (
          grow_region-IsPool m i (rounded size) (c ∷ cs) (chunk_new m s (rounded size))
            (chunk_from-IsPool m s (rounded size) s.pool refl v))
      | inr under ↦
          rw under (record { pooled = v.pooled; pool_len = v.pool_len; pool_short = v.pool_short })
    ]

IsValid-IsPool : {s : Arena} → IsValid s → IsPool s
IsValid-IsPool v = record { pooled = v.pooled; pool_len = v.pool_len; pool_short = v.pool_short }

-- With memory there, a request below 2^63 from an open region leaves a valid arena valid.
pub alloc_slot-IsValid :
    (m : Mem) (s : Arena) (i size : ℕ)
    → HasMemory m
    → IsValid s
    → i < depth s
    → size + 15 ≤ ptrdiff_max
    → IsValid (alloc_slot m s i size).1
alloc_slot-IsValid m s i size has v deep small =
    let r = alloc_slot-IsServed m s i size has v deep small in
    let p = alloc_region-IsPool m s i size (get_or s.stack i []) (IsValid-IsPool v) in
    let here : All IsChunk (get_or s.stack i []) = All-get_or s.stack i v.regions in
    let others : All IsChunk r.others = elim r.origin [
      | inl e ↦ (subst (All IsChunk) e here).1
      | inr e ↦ subst (All IsChunk) (sym e.0) here
    ] in
    record {
      regions = subst (All (All IsChunk)) (sym r.stack_eq) (
          All-set s.stack i ((record r.chunk { used = r.used }) ∷ r.others) v.regions
            (r.chunk_after, others));
      pooled = p.pooled;
      pool_len = p.pool_len;
      pool_short = p.pool_short;
    }
