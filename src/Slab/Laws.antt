-- ===== src/Slab/Laws.antt =====
-- What an allocation, a release and a flush do to the free blocks of a class.
use prismio.Base.{
  ℕ, zero, suc, ◌+◌, ◌-◌, ◌<◌, ◌≤◌, ◌≡◌, ◌⊎◌, inl, inr, refl, sym, ap, ap₂, ◌∙◌, true, false, ◌&&◌,
  Bool-cases, List, [], ◌∷◌, arith, lt→ltb, le→leb, ◌==◌, leb, if◌then◌else◌, length, take, drop,
}
use mathlib.Core.Path.{subst}
use prismio.Base.Count.{count-take-drop, one_if, count}
use prismio.Slab.{
  Bin, Shared, Status, ready, Slab, Os, Call, block_size, class_of, recycle, batch, give_back,
  with_bin, with_shared, u32, sub32, span_of, in_slab, start_from, refill, pop, pop_chain,
  recycle_from, restock, spill_chain, base_alloc, spill, free, flush_class, flush_from,
  thread_flush, classes, high, slab_max, is_refused, registered, refill_ready,
}
use prismio.Slab.Stock.{
  IsWindow, uncut, count_batches, stock, in_stock, has_stock, uncut-cut, uncut-none,
  count-give_back,
}

pub same : (n : ℕ) → (n == n) ≡ true
same n = ground arith

pub in_stock-put_bin :
    (a : ℕ) (s : Slab) (cache c : ℕ) (bin : Bin)
    → in_stock a (with_bin s cache c bin) cache c ≡ stock a c bin (s.shared c)
in_stock-put_bin a s cache c bin = rw (same cache, same c) refl

pub in_stock-put :
    (a : ℕ) (s : Slab) (cache c : ℕ) (bin : Bin) (g : Shared)
    → in_stock a (with_bin (with_shared s c g) cache c bin) cache c ≡ stock a c bin g
in_stock-put a s cache c bin g = rw (same cache, same c) refl

pub refill-ready :
    (os : Os) (s : Slab) (cache c : ℕ)
    → s.status ≡ ready
    → refill os s cache c ≡ refill_ready os s cache c
unfolding refill start_from
refill-ready os s cache c r =
    ap (λ (s1 : Slab). if is_refused s1.status then (os.malloc, s1) else refill_ready os s1 cache c)
      (ap (start_from os s) r)
    ∙ ap (λ (st : Status). if is_refused st then (os.malloc, s) else refill_ready os s cache c) r

-- Once the reservation holds, and the cache's window is whole blocks: from a class with a free
-- block, an allocation takes exactly one of them, whether it comes off the cache's chain, out of
-- its window, from a batch or from the leftovers.
pub pop-takes_stock :
    (os : Os) (s : Slab) (cache c a : ℕ)
    → s.status ≡ ready
    → IsWindow c (s.bins cache c)
    → has_stock (s.bins cache c) (s.shared c) ≡ true
    → one_if (pop os s cache c).0 a + in_stock a (pop os s cache c).1 cache c ≡ in_stock a s cache c
unfolding pop_chain refill_ready recycle_from restock
pop-takes_stock os s cache c a r w h = by_head bin.head refl
  where
    bin : Bin
    bin = s.bins cache c

    g : Shared
    g = s.shared c

    Goal : Type 0
    Goal =
        one_if (pop os s cache c).0 a + in_stock a (pop os s cache c).1 cache c
        ≡ in_stock a s cache c

    taken : ℕ × Slab → ℕ
    taken r = one_if r.0 a + in_stock a r.1 cache c

    t : Slab
    t = registered s cache

    Refilled : Type 0
    Refilled = taken (refill_ready os s cache c) ≡ in_stock a s cache c

    restocked :
        (bin.cur == bin.stop) ≡ true
        → refill_ready os s cache c ≡ restock os t cache c (recycle bin g)
    restocked ec = rw ec refl

    by_loose :
        (ls : List ℕ)
        → g.loose ≡ ls
        → g.batches ≡ []
        → bin.head ≡ []
        → (bin.cur == bin.stop) ≡ true
        → Refilled
    by_loose [] el eb eh ec =
        absurd (let h' : false ≡ true = rw (el, eb, eh, ec) at h in ground arith)
    by_loose (f ∷ ls) el eb eh ec =
        ap taken (
          restocked ec
          ∙ ap₂
              (λ (x : List (ℕ × List ℕ)) (y : List ℕ).
                restock os t cache c (recycle_from bin g x y))
              eb el)
        ∙ omega (
          arith,
          in_stock-put a t cache c
              (record bin { head = take (batch - 1) ls; count = length (take (batch - 1) ls) })
              (record g {
                loose = drop (batch - 1) ls;
                loose_n = sub32 g.loose_n (1 + length (take (batch - 1) ls));
              }),
          count-take-drop a (batch - 1) ls,
          ap (count a) eh,
          ap (count a) el,
        )

    by_batches :
        (bs : List (ℕ × List ℕ))
        → g.batches ≡ bs
        → bin.head ≡ []
        → (bin.cur == bin.stop) ≡ true
        → Refilled
    by_batches [] eb eh ec = by_loose g.loose refl eb eh ec
    by_batches (b ∷ bs) eb eh ec =
        ap taken (
          restocked ec
          ∙ ap (λ (x : List (ℕ × List ℕ)). restock os t cache c (recycle_from bin g x g.loose)) eb)
        ∙ omega (
          arith,
          in_stock-put a t cache c (record bin { head = b.1; count = batch - 1 })
              (record g { batches = bs }),
          ap (count a) eh,
          ap (count_batches a) eb,
        )

    by_window :
        (bin.cur == bin.stop) ≡ true ⊎ (bin.cur == bin.stop) ≡ false → bin.head ≡ [] → Refilled
    by_window (inl ec) eh = by_batches g.batches refl eh ec
    by_window (inr ec) eh = rw ec (
        omega (
          arith,
          in_stock-put_bin a t cache c (record bin { cur = bin.cur + block_size c }),
          ap (count a) (uncut-cut c bin w ec),
        ))

    by_head : (hd : List ℕ) → bin.head ≡ hd → Goal
    by_head [] eh =
        ap taken (ap (pop_chain os s cache c) eh ∙ refill-ready os s cache c r)
        ∙ by_window (Bool-cases (bin.cur == bin.stop)) eh
    by_head (b ∷ rest) eh =
        ap taken (ap (pop_chain os s cache c) eh)
        ∙ omega (
          arith,
          ap (count a) eh,
          in_stock-put_bin a s cache c (record bin { head = rest; count = sub32 bin.count 1 }),
        )

-- What a cache spills stays among the free blocks.
pub spill-keeps :
    (a : ℕ) (s : Slab) (cache c : ℕ) → in_stock a (spill s cache c) cache c ≡ in_stock a s cache c
unfolding spill_chain
spill-keeps a s cache c = by_head (s.bins cache c).head refl
  where
    by_head :
        (hd : List ℕ)
        → (s.bins cache c).head ≡ hd
        → in_stock a (spill s cache c) cache c ≡ in_stock a s cache c
    by_head [] eh = ap (λ (r : Slab). in_stock a r cache c) (ap (spill_chain s cache c) eh)
    by_head (b ∷ rest) eh =
        ap (λ (r : Slab). in_stock a r cache c) (ap (spill_chain s cache c) eh)
        ∙ omega (
          arith,
          ap (count a) eh,
          in_stock-put a s cache c
              (record (s.bins cache c) {
                head = drop (batch - 1) rest;
                count = sub32 (s.bins cache c).count batch;
              })
              (record (s.shared c) { batches = (b, take (batch - 1) rest) ∷ (s.shared c).batches }),
          count-take-drop a (batch - 1) rest,
        )

-- A release of a slab block puts it, and no other, among the free blocks of its class, also when
-- the cache spills a batch.
pub free-adds_block :
    (s : Slab) (cache p a : ℕ)
    → 0 < p
    → in_slab s p ≡ true
    → let c = s.span_class (span_of s p) in
      in_stock a (free s cache p).1 cache c ≡ one_if p a + in_stock a s cache c
unfolding free
free-adds_block s cache p a pos_p inside = by_spill (Bool-cases (leb high n && s.threads))
  where
    c : ℕ
    c = s.span_class (span_of s p)

    bin : Bin
    bin = s.bins cache c

    n : ℕ
    n = u32 (bin.count + 1)

    pushed : Bin
    pushed = record bin { head = p ∷ bin.head; count = n }

    Goal : Type 0
    Goal = in_stock a (free s cache p).1 cache c ≡ one_if p a + in_stock a s cache c

    nonzero : (p == 0) ≡ false
    nonzero = ground arith

    by_spill : (leb high n && s.threads) ≡ true ⊎ (leb high n && s.threads) ≡ false → Goal
    by_spill (inl e) =
        rw (nonzero, inside, e)
          (omega (
            arith,
            spill-keeps a (with_bin s cache c pushed) cache c,
            in_stock-put_bin a s cache c pushed,
          ))
    by_spill (inr e) = rw (nonzero, inside, e) (omega (arith, in_stock-put_bin a s cache c pushed))

flush_class-keeps :
    (a : ℕ) (s : Slab) (cache c : ℕ)
    → (in_stock a (flush_class s cache c) cache c ≡ in_stock a s cache c)
unfolding flush_class
flush_class-keeps a s cache c =
    let bin = s.bins cache c in
    let one = count-give_back a (uncut c bin) (s.shared c) in
    let two = count-give_back a bin.head (give_back (uncut c bin) (s.shared c)) in
    let none_left : uncut c (record bin { head = []; count = 0; cur = bin.stop }) ≡ [] =
      uncut-none c (record bin { head = []; count = 0; cur = bin.stop }) (same bin.stop) in
    in_stock-put a (s) cache c (record bin { head = []; count = 0; cur = bin.stop })
      (give_back bin.head (give_back (uncut c bin) (s.shared c)))
    ∙ rw (none_left, two.1, one.1) (omega (arith, one.0, two.0))

-- What a cache alone holds of a class.
abbrev pub in_cache : ℕ → Slab → ℕ → ℕ → ℕ
in_cache a s cache c = count a (s.bins cache c).head + count a (uncut c (s.bins cache c))

flush_class-other :
    (a : ℕ) (s : Slab) (cache c d : ℕ)
    → (c == d) ≡ false
    → (in_stock a (flush_class s cache d) cache c ≡ in_stock a s cache c)
      × (in_cache a (flush_class s cache d) cache c ≡ in_cache a s cache c)
unfolding flush_class
flush_class-other a s cache c d h = (rw (same cache, h) refl, rw (same cache, h) refl)

flush_class-empties :
    (a : ℕ) (s : Slab) (cache c : ℕ) → in_cache a (flush_class s cache c) cache c ≡ 0
unfolding flush_class
flush_class-empties a s cache c =
    let bin : Bin = record (s.bins cache c) { head = []; count = 0; cur = (s.bins cache c).stop } in
    rw (same cache, same c) (omega (arith, ap (count a) (uncut-none c bin (same bin.stop))))

flush_from-keeps :
    (a : ℕ) (s : Slab) (cache c d n : ℕ)
    → in_stock a (flush_from s cache d n) cache c ≡ in_stock a s cache c
unfolding flush_from
flush_from-keeps a s cache c d zero = refl
flush_from-keeps a s cache c d (suc n) =
    flush_from-keeps a (flush_class s cache d) cache c (suc d) n ∙ elim (Bool-cases (c == d)) [
      | inl e ↦
          let e' : d ≡ c = ground arith in
          subst (λ (x : ℕ). in_stock a (flush_class s cache x) cache c ≡ in_stock a s cache c)
            (sym e') (flush_class-keeps a s cache c)
      | inr e ↦ (flush_class-other a s cache c d e).0
    ]

flush_from-empties :
    (a : ℕ) (s : Slab) (cache c d n : ℕ)
    → (in_cache a s cache c ≡ 0) ⊎ (d ≤ c)
    → c < d + n
    → in_cache a (flush_from s cache d n) cache c ≡ 0
unfolding flush_from
flush_from-empties a s cache c d zero (inl h) lt = h
flush_from-empties a s cache c d zero (inr h) lt = absurd (omega arith)
flush_from-empties a s cache c d (suc n) h lt =
    flush_from-empties a (flush_class s cache d) cache c (suc d) n
      (elim (Bool-cases (c == d)) [
        | inl e ↦
            let e' : d ≡ c = ground arith in
            inl (
              subst (λ (x : ℕ). in_cache a (flush_class s cache x) cache c ≡ 0) (sym e')
                (flush_class-empties a s cache c))
        | inr e ↦ elim h [
          | inl z ↦ inl ((flush_class-other a s cache c d e).1 ∙ z)
          | inr le ↦ inr (ground arith)
        ]
      ])
      (omega arith)

-- When a worker exits, its cache is left with no block of any class, and none is lost: each is in
-- the shared list of its class.
pub thread_flush-gives_back :
    (a : ℕ) (s : Slab) (cache c : ℕ)
    → c < classes
    → (in_cache a (thread_flush s cache) cache c ≡ 0)
      × (in_stock a (thread_flush s cache) cache c ≡ in_stock a s cache c)
unfolding thread_flush
thread_flush-gives_back a s cache c h = (
  flush_from-empties a s cache c 0 classes (inr (omega arith)) (omega arith),
  flush_from-keeps a s cache c 0 classes,
)

-- With no threads, a released block is what the next request that its class serves gets.
pub free-base_alloc :
    (os : Os) (s : Slab) (cache p size : ℕ)
    → 0 < p
    → in_slab s p ≡ true
    → s.threads ≡ false
    → 0 < size
    → size ≤ slab_max
    → class_of size ≡ s.span_class (span_of s p)
    → (base_alloc os (free s cache p).1 cache size).0 ≡ p
unfolding free base_alloc pop_chain
free-base_alloc os s cache p size pos_p inside single pos_size small e =
    let c = s.span_class (span_of s p) in
    let bin = s.bins cache c in
    let n = u32 (bin.count + 1) in
    let pushed : Bin = record bin { head = p ∷ bin.head; count = n } in
    let s' = with_bin s cache c pushed in
    let nonzero : (p == 0) ≡ false = ground arith in
    let unspilt : (leb high n && s.threads) ≡ false = rw single (ground arith) in
    let freed : free s cache p ≡ ([], s') = rw (nonzero, inside, unspilt) refl in
    let served : base_alloc os s' cache size ≡ pop os s' cache (class_of size) =
      rw (lt→ltb 0 size pos_size, le→leb size slab_max small) refl in
    let there : s'.bins cache c ≡ pushed = rw (same cache, same c) refl in
    ap (λ (r : List Call × Slab). (base_alloc os r.1 cache size).0) freed
    ∙ ap (λ (r : ℕ × Slab). r.0)
        (served ∙ ap (pop os s' cache) e ∙ ap (λ (b : Bin). pop_chain os s' cache c b.head) there)
