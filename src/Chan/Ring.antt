-- ===== src/Chan/Ring.antt =====
-- The ring of a channel as a list: the messages from `head` on, going round at `cap`.
use mathlib.Core.Path.{subst}
use native.Mathlib.Nat.{mod-add-mod, mod-mod, mod-lt, mod-eq_of_lt, mod-eq-sub-mod}
use prismio.Base.{
  ℕ, zero, suc, ◌+◌, ◌-◌, ◌%◌, ◌≤◌, ◌<◌, ◌≡◌, ◌≢◌, refl, sym, ap, ap₂, ◌∙◌, List, [], ◌∷◌, ◌++◌,
  arith, leb, length, get_or, set, get_or-set_self, get_or-set_ne, inl, inr, Bool-cases, leb→le,
}

module _ (block : List ℕ) (cap : ℕ) where
  -- the `n` messages from position `i` on; positions are read modulo `cap`
  abbrev pub ring : ℕ → ℕ → List ℕ
  ring i zero = []
  ring i (suc n) = get_or block (i % cap) 0 ∷ ring (i + 1) n

  pub length-ring : (i n : ℕ) → length (ring i n) ≡ n
  length-ring i zero = refl
  length-ring i (suc n) = ap suc (length-ring (i + 1) n)

  -- A start that has gone round is the same start.
  pub ring-mod : (i n : ℕ) → ring (i % cap) n ≡ ring i n
  ring-mod i zero = refl
  ring-mod i (suc n) = ap₂ ◌∷◌ (ap (λ k. get_or block k 0) (mod-mod i cap)) (
      sym (ring-mod (i % cap + 1) n)
      ∙ ap (λ k. ring k n) (mod-add-mod i cap 1)
      ∙ ring-mod (i + 1) n)

  ring_of_pos : (i n : ℕ) → 0 < n → ring i n ≡ get_or block (i % cap) 0 ∷ ring (i + 1) (n - 1)
  ring_of_pos i zero p = absurd (omega arith)
  ring_of_pos i (suc n) p = ap (λ k. ring i (suc k)) (omega arith)

-- Fewer than `cap` steps lead to another slot.
slots_differ : (cap i k : ℕ) → i < cap → 0 < k → k < cap → (i + k) % cap ≢ i % cap
slots_differ cap i k hi hk hc = elim (Bool-cases (leb cap (i + k))) [
  | inl over ↦ omega (
    arith,
    leb→le _ _ over,
    mod-eq_of_lt hi,
    mod-eq-sub-mod {n = i + k} {m = cap} (leb→le _ _ over),
    mod-eq_of_lt {n = i + k - cap} {m = cap} (omega (arith, leb→le _ _ over)),
  )
  | inr under ↦ omega (arith, mod-eq_of_lt hi, mod-eq_of_lt {n = i + k} {m = cap} (ground arith))
]

-- Positions that are the same slot or not, wherever they start.
positions_differ : (cap i k : ℕ) → 0 < cap → 0 < k → k < cap → (i + k) % cap ≢ i % cap
positions_differ cap i k h hk hc e =
    slots_differ cap (i % cap) k (mod-lt i h) hk hc (mod-add-mod i cap k ∙ e ∙ sym (mod-mod i cap))

-- A write at the position behind `n` messages leaves those as they are.
ring-set_end :
    (block : List ℕ) (cap i n msg : ℕ)
    → 0 < cap
    → n < cap
    → (k j : ℕ) → j + k ≡ n
    → ring (set block ((i + n) % cap) msg) cap (i + j) k ≡ ring block cap (i + j) k
ring-set_end block cap i n msg h hn zero j e = refl
ring-set_end block cap i n msg h hn (suc k) j e = ap₂ ◌∷◌ (get_or-set_ne block msg 0 apart) (
    subst (λ p. ring (set block ((i + n) % cap) msg) cap p k ≡ ring block cap p k) (omega arith)
      (ring-set_end block cap i n msg h hn k (j + 1) (omega arith)))
  where
    apart : (i + n) % cap ≢ (i + j) % cap
    apart =
        subst (λ p. p % cap ≢ (i + j) % cap) (omega arith)
          (positions_differ cap (i + j) (suc k) h (omega arith) (omega arith))

ring_snoc :
    (block : List ℕ) (cap i n : ℕ)
    → ring block cap i (suc n) ≡ ring block cap i n ++ (get_or block ((i + n) % cap) 0 ∷ [])
ring_snoc block cap i zero = ap (λ p. get_or block (p % cap) 0 ∷ []) (omega arith)
ring_snoc block cap i (suc n) = ap (◌∷◌ (get_or block (i % cap) 0)) (
    ring_snoc block cap (i + 1) n
    ∙ ap (λ p. ring block cap (i + 1) n ++ (get_or block (p % cap) 0 ∷ [])) (omega arith))

-- Writing behind the last message appends it.
pub ring-push :
    (block : List ℕ) (cap i n msg : ℕ)
    → n < cap
    → cap ≤ length block
    → ring (set block ((i + n) % cap) msg) cap i (suc n) ≡ ring block cap i n ++ (msg ∷ [])
ring-push block cap i n msg hn room =
    ring_snoc (set block ((i + n) % cap) msg) cap i n
    ∙ ap₂ (λ r x. r ++ (x ∷ []))
        (subst (λ p. ring (set block ((i + n) % cap) msg) cap p n ≡ ring block cap p n)
          (omega arith) (ring-set_end block cap i n msg (omega arith) hn n 0 (omega arith)))
        (get_or-set_self block ((i + n) % cap) msg 0
          (omega (arith, mod-lt (i + n) {m = cap} (omega arith))))

-- Taking the first message leaves the rest.
pub ring-pop :
    (block : List ℕ) (cap i n : ℕ)
    → i < cap
    → 0 < n
    → ring block cap i n ≡ get_or block i 0 ∷ ring block cap ((i + 1) % cap) (n - 1)
ring-pop block cap i n hi hn =
    ring_of_pos block cap i n hn
    ∙ ap₂ (λ k r. get_or block k 0 ∷ r) (mod-eq_of_lt hi) (sym (ring-mod block cap (i + 1) (n - 1)))
