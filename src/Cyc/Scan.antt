-- ===== src/Cyc/Scan.antt =====
-- What cyc_scan leaves: what it whitens had no count, what it blackens has black children, and
-- whatever it has seen is grey no more.
use prismio.Base.{
  ℕ, zero, suc, ◌+◌, ◌≤◌, ◌≡◌, ◌≢◌, ◌⊎◌, inl, inr, refl, sym, ap, ◌∙◌, Bool, true, false, List,
  arith, ◌==◌, ==_iff, if◌then◌else◌, Bool-cases,
}
use prismio.Cyc.{
  Marks, paint, recount, over, unless_null, sweep, raised, black, grey, white, scan_black,
}
use prismio.Cyc.Sweep.{over-keeps, over-same, sweep-Repaints, eqb_false, put_other}

not_eqb : (a b : ℕ) → a ≢ b → (a == b) ≡ false
not_eqb a b h = ground arith

module _ (children : ℕ → List ℕ) where
  abbrev blacken : ℕ → Marks → ℕ → Marks
  blacken n m y =
      let counted = recount raised m y in
      unless_null y m
        (if counted.colour y == black then counted else scan_black children n counted y)

  sweep_painted :
      (k n : ℕ) (f : ℕ → ℕ) (m : Marks) (x : ℕ) → m.colour x ≡ k → sweep children k f n m x ≡ m
  unfolding sweep
  sweep_painted k zero f m x e = refl
  sweep_painted k (suc n) f m x e = rw ((==_iff (m.colour x) k).1 e) refl

  -- cyc_scan_black is a walk that paints black and counts up.
  pub scan_black-sweep :
      (n : ℕ) (m : Marks) (x : ℕ)
      → m.colour x ≢ black
      → scan_black children n m x ≡ sweep children black raised n m x
  unfolding scan_black sweep
  scan_black-sweep zero m x nb = refl
  scan_black-sweep (suc n) m x nb =
      over-same (blacken n)
        (λ m y. unless_null y m (sweep children black raised n (recount raised m y) y))
        (same (scan_black-sweep n)) (paint black m x) (children x)
      ∙ ap
          (λ b.
            if b
            then m
            else over
                (λ m y. unless_null y m (sweep children black raised n (recount raised m y) y))
                (paint black m x) (children x))
          (sym (not_eqb (m.colour x) black nb))
    where
      same :
          ((m : Marks) (x : ℕ)
            → m.colour x ≢ black
            → scan_black children n m x ≡ sweep children black raised n m x)
          → (m : Marks) (y : ℕ)
          → blacken n m y ≡ unless_null y m (sweep children black raised n (recount raised m y) y)
      same later m zero = refl
      same later m (suc y) = elim (Bool-cases (m.colour (suc y) == black)) [
        | inl e ↦
            ap (λ b. if b then counted else scan_black children n counted (suc y)) e
            ∙ sym (
                sweep_painted black n raised counted (suc y)
                  ((==_iff (m.colour (suc y)) black).0 e))
        | inr e ↦
            ap (λ b. if b then counted else scan_black children n counted (suc y)) e
            ∙ later counted (suc y) (eqb_false (m.colour (suc y)) black e)
      ]
        where
          counted : Marks
          counted = recount raised m (suc y)

  same_count : (m : Marks) (y z : ℕ) → (z ≢ y) ⊎ (m.rc z ≡ m.rc y)
  same_count m y z = elim (Bool-cases (z == y)) [
    | inl e ↦ inr (ap m.rc ((==_iff z y).0 e))
    | inr e ↦ inl (eqb_false z y e)
  ]

  -- No count falls.
  abbrev pub Raises : Marks → Marks → Type 0
  Raises m t = (z : ℕ) → m.rc z ≤ t.rc z

  Raises-chain : (a b c : Marks) → Raises a b → Raises b c → Raises a c
  Raises-chain a b c p q z = omega (arith, p z, q z)

  recount-Raises : (m : Marks) (y : ℕ) → Raises m (recount raised m y)
  recount-Raises m y z = raise (m.rc y) (m.rc z) (same_count m y z)
    where
      raise : (d c : ℕ) → (z ≢ y) ⊎ (c ≡ d) → c ≤ (if z == y then d + 1 else c)
      raise d c h = ground arith

  pub sweep-Raises : (k n : ℕ) (m : Marks) (x : ℕ) → Raises m (sweep children k raised n m x)
  unfolding sweep
  sweep-Raises k zero m x = λ z. omega arith
  sweep-Raises k (suc n) m x = by_test (m.colour x == k) (sweep-Raises k n)
    where
      round : Marks → ℕ → Marks
      round m y = unless_null y m (sweep children k raised n (recount raised m y) y)

      round-Raises :
          ((m : Marks) (x : ℕ) → Raises m (sweep children k raised n m x))
          → (m : Marks) (y : ℕ) → Raises m (round m y)
      round-Raises later m zero z = omega arith
      round-Raises later m (suc y) z =
          Raises-chain m (recount raised m (suc y))
            (sweep children k raised n (recount raised m (suc y)) (suc y))
            (recount-Raises m (suc y)) (later (recount raised m (suc y)) (suc y)) z

      by_test :
          (b : Bool)
          → ((m : Marks) (x : ℕ) → Raises m (sweep children k raised n m x))
          → Raises m (if b then m else over round (paint k m x) (children x))
      by_test true later = λ z. omega arith
      by_test false later =
          over-keeps Raises round (λ a z. omega arith) Raises-chain (round-Raises later)
            (paint k m x) (children x)

  -- What becomes of a colour, the count at the start given: none, black, or from grey without a
  -- count to white.
  abbrev pub Outcome : ℕ → ℕ → ℕ → Type 0
  Outcome c d r = (d ≡ c) ⊎ ((d ≡ black) ⊎ ((d ≡ white) × (c ≡ grey) × (r ≡ 0)))

  abbrev pub Scans : Marks → Marks → Type 0
  Scans m t = (z : ℕ) → (m.rc z ≤ t.rc z) × Outcome (m.colour z) (t.colour z) (m.rc z)

  pub Scans-same : (m : Marks) → Scans m m
  Scans-same m z = (omega arith, inl refl)

  Outcome-chain : (c d e r s : ℕ) → r ≤ s → Outcome c d r → Outcome d e s → Outcome c e r
  Outcome-chain c d e r s h p q = ground arith

  pub Scans-chain : (a b c : Marks) → Scans a b → Scans b c → Scans a c
  Scans-chain a b c p q z = (
    omega (arith, (p z).0, (q z).0),
    Outcome-chain (a.colour z) (b.colour z) (c.colour z) (a.rc z) (b.rc z) (p z).0 (p z).1 (q z).1,
  )

  pub Outcome-black : (c d r : ℕ) → Outcome c d r → c ≡ black → d ≡ black
  Outcome-black c d r o e = ground arith

  pub Outcome-grey : (c d r : ℕ) → Outcome c d r → c ≢ grey → d ≢ grey
  Outcome-grey c d r o e = ground arith

  pub whiten-Scans :
      (m : Marks) (x : ℕ) → m.colour x ≡ grey → m.rc x ≡ 0 → Scans m (paint white m x)
  whiten-Scans m x g r z = (
    omega arith,
    elim (Bool-cases (z == x)) [
      | inl e ↦
          let same = (==_iff z x).0 e in
          inr (inr (rw e refl, ap m.colour same ∙ g, ap m.rc same ∙ r))
      | inr e ↦ inl (put_other children black raised m.colour x white z e)
    ],
  )

  pub scan_black-Scans : (n : ℕ) (m : Marks) (x : ℕ) → Scans m (sweep children black raised n m x)
  scan_black-Scans n m x z = (
    sweep-Raises black n m x z,
    elim (sweep-Repaints children black raised n m x z) [ inl e ↦ inl e | inr e ↦ inr (inl e) ],
  )
