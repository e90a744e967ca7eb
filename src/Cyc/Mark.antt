-- ===== src/Cyc/Mark.antt =====
-- Trial deletion: a count that cyc_mark_grey lowers is made up for by an edge from an object that it
-- paints.
use mathlib.Core.Path.{subst}
use prismio.Base.{
  ℕ, zero, suc, ◌+◌, ◌-◌, ◌<◌, ◌≤◌, ◌≡◌, ◌≢◌, ◌⊎◌, inl, inr, refl, sym, ap, ◌∙◌, Bool, true, false,
  List, [], ◌∷◌, arith, ◌==◌, ==_iff, if◌then◌else◌, Bool-cases,
}
use prismio.Base.Count.{count, one_if, count_split, count_here, count_later}
use prismio.Cyc.{Marks, put, paint, recount, over, unless_null, sweep, lowered}
use prismio.Cyc.Sweep.{paint-Repaints, painted_at, eqb_false}

module _ (children : ℕ → List ℕ) (k : ℕ) where
  -- The edges into an object from those that have a colour, and from those that do not.
  abbrev pub edges_from : Marks → ℕ → List ℕ → ℕ
  edges_from m z [] = 0
  edges_from m z (u ∷ us) =
      (if m.colour u == k then count z (children u) else 0) + edges_from m z us

  abbrev pub edges_from_others : Marks → ℕ → List ℕ → ℕ
  edges_from_others m z [] = 0
  edges_from_others m z (u ∷ us) =
      (if m.colour u == k then 0 else count z (children u)) + edges_from_others m z us

  abbrev pub all_edges : ℕ → List ℕ → ℕ
  all_edges z [] = 0
  all_edges z (u ∷ us) = count z (children u) + all_edges z us

  pub edges_split :
      (m : Marks) (z : ℕ) (us : List ℕ)
      → all_edges z us ≡ edges_from m z us + edges_from_others m z us
  edges_split m z [] = omega arith
  edges_split m z (u ∷ us) = part (m.colour u == k) (edges_split m z us)
    where
      part :
          (b : Bool)
          → all_edges z us ≡ edges_from m z us + edges_from_others m z us
          → count z (children u) + all_edges z us
            ≡ (if b then count z (children u) else 0)
              + edges_from m z us
              + ((if b then 0 else count z (children u)) + edges_from_others m z us)
      part true e = omega (arith, e)
      part false e = omega (arith, e)

  -- An edge from an object of another colour counts.
  pub edge_counts :
      (m : Marks) (u z : ℕ) (us : List ℕ)
      → 0 < count u us
      → m.colour u ≢ k
      → 0 < count z (children u)
      → 0 < edges_from_others m z us
  edge_counts m u z [] h c e = absurd (omega arith)
  edge_counts m u z (v ∷ us) h c e = elim (count_split u v us h) [
    | inl same ↦
        here (m.colour v) (count z (children v)) (edges_from_others m z us)
          (λ q. c (ap m.colour (sym same) ∙ q)) (subst (λ w. 0 < count z (children w)) (sym same) e)
    | inr later ↦ omega (arith, edge_counts m u z us later c e)
  ]
    where
      here : (c n r : ℕ) → c ≢ k → 0 < n → 0 < (if c == k then 0 else n) + r
      here c n r h pos = ground arith

  paint_other :
      (m : Marks) (x z : ℕ) (us : List ℕ) → edges_from m z us ≤ edges_from (paint k m x) z us
  paint_other m x z [] = omega arith
  paint_other m x z (u ∷ us) = omega (
    arith,
    paint_other m x z us,
    grows (m.colour u) (put m.colour x k u) (count z (children u))
        (paint-Repaints children k lowered m x u),
  )
    where
      grows :
          (c d n : ℕ) → (d ≡ c) ⊎ (d ≡ k) → (if c == k then n else 0) ≤ (if d == k then n else 0)
      grows c d n h = ground arith

  paint_edges :
      (m : Marks) (x z : ℕ) (us : List ℕ)
      → 0 < count x us
      → m.colour x ≢ k
      → edges_from m z us + count z (children x) ≤ edges_from (paint k m x) z us
  paint_edges m x z [] h c = absurd (omega arith)
  paint_edges m x z (u ∷ us) h c = elim (count_split x u us h) [
    | inl same ↦
        here (m.colour u) (put m.colour x k u) (count z (children u)) (count z (children x))
          (edges_from m z us) (edges_from (paint k m x) z us) (λ q. c (ap m.colour (sym same) ∙ q))
          (painted_at children k lowered m x u same) (ap (λ w. count z (children w)) same)
          (paint_other m x z us)
    | inr later ↦
        there (m.colour u) (put m.colour x k u) (count z (children u)) (count z (children x))
          (edges_from m z us) (edges_from (paint k m x) z us)
          (paint-Repaints children k lowered m x u) (paint_edges m x z us later c)
  ]
    where
      here :
          (c d n a e f : ℕ)
          → c ≢ k
          → d ≡ k
          → n ≡ a
          → e ≤ f
          → (if c == k then n else 0) + e + a ≤ (if d == k then n else 0) + f
      here c d n a e f hc hd hn h = ground arith

      there :
          (c d n a e f : ℕ)
          → (d ≡ c) ⊎ (d ≡ k)
          → e + a ≤ f
          → (if c == k then n else 0) + e + a ≤ (if d == k then n else 0) + f
      there c d n a e f hd h = ground arith

  -- The count of an object and the edges into it from the painted ones.
  abbrev pub weight : List ℕ → Marks → ℕ → ℕ
  weight objects m z = m.rc z + edges_from m z objects

  lowered-weight :
      (objects : List ℕ) (m : Marks) (y z : ℕ)
      → weight objects m z ≤ weight objects (recount lowered m y) z + one_if y z
  lowered-weight objects m y z =
      lowers (edges_from m z objects) (m.rc z) (m.rc y) (elim (Bool-cases (z == y)) [
        | inl e ↦ inr (ap m.rc ((==_iff z y).0 e))
        | inr e ↦ inl (eqb_false z y e)
      ])
    where
      lowers :
          (e c d : ℕ)
          → (z ≢ y) ⊎ (c ≡ d)
          → c + e ≤ (if z == y then d - 1 else c) + e + (if y == z then 1 else 0)
      lowers e c d h = ground arith

  -- The weight of every object is kept by a walk that lowers counts.
  module _ (objects : List ℕ)
      (closed : (u y : ℕ)
        → 0 < count u objects
        → 0 < count y (children u)
        → y ≢ 0
        → 0 < count y objects) where
    abbrev Weighs : ℕ → Type 0
    Weighs n =
        (m : Marks) (x : ℕ)
        → 0 < count x objects
        → (z : ℕ) → weight objects m z ≤ weight objects (sweep children k lowered n m x) z

    abbrev round : ℕ → Marks → ℕ → Marks
    round n m y = unless_null y m (sweep children k lowered n (recount lowered m y) y)

    rounds_weight :
        (n : ℕ)
        → Weighs n
        → (m : Marks) (ys : List ℕ) → ((y : ℕ) → 0 < count y ys → y ≢ 0 → 0 < count y objects)
        → (z : ℕ) → weight objects m z ≤ weight objects (over (round n) m ys) z + count z ys
    rounds_weight n walks m [] all z = omega arith
    rounds_weight n walks m (zero ∷ ys) all z =
        omega (arith, rounds_weight n walks m ys (λ y h nz. all y (count_later y 0 ys h) nz) z)
    rounds_weight n walks m (suc y ∷ ys) all z =
        let x = suc y in
        let started = recount lowered m x in
        chained (weight objects m z) (weight objects started z)
          (weight objects (sweep children k lowered n started x) z)
          (weight objects (over (round n) (sweep children k lowered n started x) ys) z) (one_if x z)
          (count z ys) (lowered-weight objects m x z)
          (walks started x (all x (count_here x x ys refl) (omega arith)) z)
          (rounds_weight n walks (sweep children k lowered n started x) ys
            (λ v h nz. all v (count_later v x ys h) nz) z)
      where
        chained : (a b c d i j : ℕ) → a ≤ b + i → b ≤ c → c ≤ d + j → a ≤ d + (i + j)
        chained a b c d i j p q r = omega arith

    pub sweep_weight : (n : ℕ) → Weighs n
    unfolding sweep
    sweep_weight zero m x inside z = omega arith
    sweep_weight (suc n) m x inside z = by_test (m.colour x == k) refl (sweep_weight n)
      where
        painted : (c e f w a : ℕ) → e + a ≤ f → c + f ≤ w + a → c + e ≤ w
        painted c e f w a p q = omega arith

        by_test :
            (b : Bool)
            → (m.colour x == k) ≡ b
            → Weighs n
            → weight objects m z
              ≤ weight objects (if b then m else over (round n) (paint k m x) (children x)) z
        by_test true e walks = omega arith
        by_test false e walks =
            painted (m.rc z) (edges_from m z objects) (edges_from (paint k m x) z objects)
              (weight objects (over (round n) (paint k m x) (children x)) z) (count z (children x))
              (paint_edges m x z objects inside (eqb_false (m.colour x) k e))
              (rounds_weight n walks (paint k m x) (children x) (λ y h nz. closed x y inside h nz)
                z)

    pub roots_weight :
        (n : ℕ) (m : Marks) (xs : List ℕ)
        → ((x : ℕ) → 0 < count x xs → 0 < count x objects)
        → (z : ℕ) → weight objects m z ≤ weight objects (over (sweep children k lowered n) m xs) z
    roots_weight n m [] all z = omega arith
    roots_weight n m (x ∷ xs) all z =
        chained (weight objects m z) (weight objects (sweep children k lowered n m x) z)
          (weight objects (over (sweep children k lowered n) (sweep children k lowered n m x) xs) z)
          (sweep_weight n m x (all x (count_here x x xs refl)) z)
          (roots_weight n (sweep children k lowered n m x) xs (λ v h. all v (count_later v x xs h))
            z)
      where
        chained : (a b c : ℕ) → a ≤ b → b ≤ c → a ≤ c
        chained a b c p q = omega arith
