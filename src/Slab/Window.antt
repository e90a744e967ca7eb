-- ===== src/Slab/Window.antt =====
-- Fresh memory: where a window lies, and which blocks it adds; and the class of a request.
use native.Mathlib.Nat.{mul-div-le, mul_comm}
use prismio.Base.{
  ℕ, suc, ◌+◌, ◌-◌, ◌*◌, ◌/◌, ◌%◌, ◌<◌, ◌≤◌, ◌≡◌, ◌⊎◌, inl, inr, refl, sym, ap, ◌∙◌, Bool, true,
  false, Bool-cases, arith, ltb, leb, if◌then◌else◌,
}
use mathlib.Core.Path.{subst}
use prismio.Base.Count.{one_if, count}
use prismio.Slab.{
  Bin, Shared, Slab, Os, block_size, class_of, blocks, put, span_of, span_bytes, classes, slab_max,
  carve, cut, window, window_bytes, stagger,
}
use prismio.Slab.Stock.{IsWindow, count_batches, in_stock, uncut-blocks}
use prismio.Slab.Laws.{same, in_stock-put}

-- A request of up to 512 bytes gets a block of its class that holds it, with less than 16 bytes
-- over.
pub class_of-fits :
    (size : ℕ)
    → 0 < size
    → size ≤ slab_max
    → (class_of size < classes)
      × (size ≤ block_size (class_of size))
      × (block_size (class_of size) < size + 16)
class_of-fits size pos_size small = (omega arith, omega arith, omega arith)

-- A window is whole blocks, at least one, and no more than 8 KiB.
pub window-blocks :
    (c : ℕ) → c < classes → (n : ℕ) × (window c ≡ suc n * block_size c) × (window c ≤ window_bytes)
window-blocks c h = by_size (Bool-cases (ltb 8 (window_bytes / block_size c)))
  where
    k : ℕ
    k = window_bytes / block_size c

    by_size :
        ltb 8 k ≡ true ⊎ ltb 8 k ≡ false
        → (n : ℕ) × (window c ≡ suc n * block_size c) × (window c ≤ window_bytes)
    by_size (inl e) =
        let big : 8 < k = ground (arith) in
        let e' : suc (k - 1) ≡ k = omega arith in
        (
          k - 1,
          rw (e, e') (mul_comm (block_size c) k),
          rw e (mul-div-le window_bytes (block_size c)),
        )
    by_size (inr e) = (7, rw e (mul_comm (block_size c) 8), rw e (omega arith))

-- Where the fresh window of a class starts.
pub data Origin (s : Slab) (c w bytes : ℕ) : Type 0 where
  in_span : w ≡ (s.shared c).bump → w + bytes ≤ (s.shared c).limit → Origin s c w bytes
  new_span : s.span_next ≤ w → w + bytes ≤ s.span_next + span_bytes → Origin s c w bytes

pub record Fresh (a : ℕ) (s : Slab) (cache c : ℕ) (r : ℕ × Slab) : Type 0 where
  pub blocks_more : ℕ
  pub origin : Origin s c r.0 (suc blocks_more * block_size c)
  pub bump_eq : (r.1.shared c).bump ≡ r.0 + suc blocks_more * block_size c
  pub window_eq : IsWindow c (r.1.bins cache c)
  pub stock_eq :
      one_if r.0 a + in_stock a r.1 cache c
      ≡ count a (blocks r.0 (block_size c) (suc blocks_more))
        + (count a (s.bins cache c).head
            + count_batches a (s.shared c).batches
            + count a (s.shared c).loose)

put-same : {A : Type 0} (table : ℕ → A) (i : ℕ) (x : A) → put table i x i ≡ x
put-same table i x = ap (λ (b : Bool). if b then x else table i) (same i)

-- A cut makes a whole window of blocks free, less the answer.
cut-Fresh :
    (a : ℕ) (s : Slab) (cache c w limit n : ℕ)
    → window c ≡ suc n * block_size c
    → ((cut s cache c w limit).1.shared c).bump ≡ w + suc n * block_size c
      × IsWindow c ((cut s cache c w limit).1.bins cache c)
      × (one_if w a + in_stock a (cut s cache c w limit).1 cache c
          ≡ count a (blocks w (block_size c) (suc n))
            + (count a (s.bins cache c).head
                + count_batches a (s.shared c).batches
                + count a (s.shared c).loose))
unfolding blocks
cut-Fresh a s cache c w limit n e =
    let bin : Bin = record (s.bins cache c) { cur = w + block_size c; stop = w + window c } in
    let g : Shared = record (s.shared c) { bump = w + window c; limit = limit } in
    let stop_eq : bin.stop ≡ w + block_size c + n * block_size c = omega (arith, e) in
    (
      ap (λ (g : Shared). g.bump) (put-same s.shared c g) ∙ ap (◌+◌ w) e,
      subst (IsWindow c)
          (sym (
            ap (λ (t : ℕ → Bin). t c) (put-same s.bins cache (put (s.bins cache) c bin))
            ∙ put-same (s.bins cache) c bin))
          (record { left = n; stop_eq = stop_eq }),
      omega (
        arith,
        in_stock-put a s cache c bin g,
        ap (count a) (uncut-blocks c (w + block_size c) n bin refl stop_eq),
      ),
    )

-- With room in the reservation, fresh memory for a class is whole blocks past all that was carved
-- for it before, in its span or in a new one; the first is the answer and the others join the free
-- blocks.
pub carve-Fresh :
    (os : Os) (s : Slab) (cache c a : ℕ)
    → c < classes
    → s.span_next + span_bytes ≤ s.base + s.span
    → Fresh a s cache c (carve os s cache c)
unfolding carve blocks
carve-Fresh os s cache c a small room = by_room (Bool-cases (leb (g.bump + window c) g.limit))
  where
    g : Shared
    g = s.shared c

    n : ℕ
    n = (window-blocks c small).0

    e : window c ≡ suc n * block_size c
    e = (window-blocks c small).1

    w : ℕ
    w = s.span_next + (c * stagger) % 4096

    s' : Slab
    s' = record s {
      span_next = s.span_next + span_bytes;
      span_class = put s.span_class (span_of s s.span_next) c;
    }

    roomy : leb (s.span_next + span_bytes) (s.base + s.span) ≡ true
    roomy = ground arith

    by_room :
        leb (g.bump + window c) g.limit ≡ true ⊎ leb (g.bump + window c) g.limit ≡ false
        → Fresh a s cache c (carve os s cache c)
    by_room (inl h) =
        let f = cut-Fresh a s cache c g.bump g.limit n e in
        let le : g.bump + window c ≤ g.limit = ground arith in
        rw h (record {
          blocks_more = n;
          origin = in_span refl (omega (arith, e));
          bump_eq = f.0;
          window_eq = f.1;
          stock_eq = f.2;
        })
    by_room (inr h) =
        let f = cut-Fresh a s' cache c w (s.span_next + span_bytes) n e in
        rw (h, roomy)
          (record {
            blocks_more = n;
            origin = new_span (omega arith) (omega (arith, e, (window-blocks c small).2));
            bump_eq = f.0;
            window_eq = f.1;
            stock_eq = f.2;
          })
