-- ===== src/Slab/Stock.antt =====
-- The free blocks of one class that a cache can hand out: its chain, what it has not cut of its
-- window, and the shared list.
use native.Mathlib.Nat.{mul-div_cancel}
use prismio.Base.{
  ℕ, zero, suc, ◌+◌, ◌-◌, ◌*◌, ◌/◌, ◌≡◌, refl, sym, ap, ap₂, ◌∙◌, Bool, true, false, not, ◌||◌,
  List, [], ◌∷◌, arith, ◌==◌,
}
use prismio.Base.Count.{one_if, count}
use prismio.Slab.{Bin, Shared, Slab, block_size, blocks, give_back, u32}

-- A bin's window holds whole blocks.
pub record IsWindow (c : ℕ) (bin : Bin) : Type 0 where
  pub left : ℕ
  pub stop_eq : bin.stop ≡ bin.cur + left * block_size c

abbrev pub uncut : ℕ → Bin → List ℕ
uncut c bin = blocks bin.cur (block_size c) ((bin.stop - bin.cur) / block_size c)

abbrev pub count_batches : ℕ → List (ℕ × List ℕ) → ℕ
count_batches a [] = 0
count_batches a (b ∷ bs) = one_if b.0 a + count a b.1 + count_batches a bs

-- How often the address `a` is among the free blocks.
abbrev pub stock : ℕ → ℕ → Bin → Shared → ℕ
stock a c bin g =
    count a bin.head + count a (uncut c bin) + count_batches a g.batches + count a g.loose

abbrev pub in_stock : ℕ → Slab → ℕ → ℕ → ℕ
in_stock a s cache c = stock a c (s.bins cache c) (s.shared c)

abbrev pub is_nil : {A : Type 0} → List A → Bool
is_nil [] = true
is_nil (x ∷ xs) = false

-- Whether a cache can serve a block of the class without a new window.
abbrev pub has_stock : Bin → Shared → Bool
has_stock bin g =
    not (is_nil bin.head)
    || not (bin.cur == bin.stop)
    || not (is_nil g.batches)
    || not (is_nil g.loose)

div_window : (cur k c : ℕ) → (cur + k * block_size c - cur) / block_size c ≡ k
div_window cur k c =
    let e : cur + k * block_size c - cur ≡ k * block_size c = omega arith in
    ap (λ (n : ℕ). n / block_size c) e ∙ mul-div_cancel k (omega arith)

pub uncut-blocks :
    (c cur k : ℕ) (bin : Bin)
    → bin.cur ≡ cur
    → bin.stop ≡ cur + k * block_size c
    → uncut c bin ≡ blocks cur (block_size c) k
uncut-blocks c cur k bin ec es =
    ap₂ (λ (f t : ℕ). blocks f (block_size c) ((t - f) / block_size c)) ec es
    ∙ ap (blocks cur (block_size c)) (div_window cur k c)

-- The next uncut block is what a bin cuts.
pub uncut-cut :
    (c : ℕ) (bin : Bin)
    → IsWindow c bin
    → (bin.cur == bin.stop) ≡ false
    → uncut c bin ≡ bin.cur ∷ uncut c (record bin { cur = bin.cur + block_size c })
unfolding blocks
uncut-cut c bin w h = split w.left w.stop_eq
  where
    split :
        (k : ℕ)
        → bin.stop ≡ bin.cur + k * block_size c
        → uncut c bin ≡ bin.cur ∷ uncut c (record bin { cur = bin.cur + block_size c })
    split zero e = absurd (ground arith)
    split (suc k) e =
        uncut-blocks c bin.cur (suc k) bin refl e
        ∙ ap (◌∷◌ bin.cur) (
            sym (
              uncut-blocks c (bin.cur + block_size c) k
                (record bin { cur = bin.cur + block_size c }) refl (e ∙ omega arith)))

-- A bin with nothing to cut.
pub uncut-none : (c : ℕ) (bin : Bin) → (bin.cur == bin.stop) ≡ true → uncut c bin ≡ []
unfolding blocks
uncut-none c bin h =
    let e : bin.cur ≡ bin.stop = ground arith in
    uncut-blocks c bin.cur 0 bin refl (sym e ∙ omega arith)

-- Onto the leftovers: one block after the other, nothing else touched.
pub count-give_back :
    (a : ℕ) (bs : List ℕ) (g : Shared)
    → (count a (give_back bs g).loose ≡ count a bs + count a g.loose)
      × ((give_back bs g).batches ≡ g.batches)
unfolding give_back
count-give_back a [] g = (omega arith, refl)
count-give_back a (b ∷ bs) g =
    let g' : Shared = record g { loose = b ∷ g.loose; loose_n = u32 (g.loose_n + 1) } in
    let r = count-give_back a bs g' in (omega (arith, r.0), r.1)
