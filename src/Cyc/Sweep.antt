-- ===== src/Cyc/Sweep.antt =====
-- What a walk that paints leaves: the painted stay painted, and what is painted anew has its children
-- painted too.
use mathlib.Core.Path.{subst}
use prismio.Base.{
  ℕ, zero, suc, ◌+◌, ◌<◌, ◌≤◌, ◌≡◌, ◌≢◌, ◌⊎◌, inl, inr, refl, sym, ap, ◌∙◌, Bool, true, false, List,
  [], ◌∷◌, arith, ◌==◌, ==_iff, if◌then◌else◌, Bool-cases,
}
use prismio.Base.Count.{count, count_split, count_here, count_later}
use prismio.Cyc.{Marks, put, paint, recount, over, unless_null, sweep}

-- A loop keeps what each of its rounds keeps.
pub over-keeps :
    {A : Type 0} (R : A → A → Type 0) (f : A → ℕ → A)
    → ((a : A) → R a a)
    → ((a b c : A) → R a b → R b c → R a c)
    → ((a : A) (y : ℕ) → R a (f a y))
    → (a : A) (ys : List ℕ) → R a (over f a ys)
over-keeps R f same chain each a [] = same a
over-keeps R f same chain each a (y ∷ ys) =
    chain a (f a y) (over f (f a y) ys) (each a y) (over-keeps R f same chain each (f a y) ys)

pub over-same :
    {A : Type 0} (f g : A → ℕ → A)
    → ((a : A) (y : ℕ) → f a y ≡ g a y)
    → (a : A) (ys : List ℕ) → over f a ys ≡ over g a ys
over-same f g each a [] = refl
over-same f g each a (y ∷ ys) = over-same f g each (f a y) ys ∙ ap (λ b. over g b ys) (each a y)

pub eqb_false : (a b : ℕ) → (a == b) ≡ false → a ≢ b
eqb_false a b h = ground arith

-- How many of the objects do not have a colour.
abbrev pub unpainted : ℕ → Marks → List ℕ → ℕ
unpainted k m [] = 0
unpainted k m (u ∷ us) = (if m.colour u == k then 0 else 1) + unpainted k m us

module _ (children : ℕ → List ℕ) (k : ℕ) (f : ℕ → ℕ) where
  abbrev round : ℕ → Marks → ℕ → Marks
  round n m y = unless_null y m (sweep children k f n (recount f m y) y)

  -- Colours change to the one painted only.
  abbrev pub Repaints : Marks → Marks → Type 0
  Repaints m t = (z : ℕ) → (t.colour z ≡ m.colour z) ⊎ (t.colour z ≡ k)

  Repaints-chain : (a b c : Marks) → Repaints a b → Repaints b c → Repaints a c
  Repaints-chain a b c p q z = elim (q z) [
    | inl e ↦ (elim (p z) [ inl d ↦ inl (e ∙ d) | inr d ↦ inr (e ∙ d) ])
    | inr e ↦ inr e
  ]

  pub paint-Repaints : (m : Marks) (x : ℕ) → Repaints m (paint k m x)
  paint-Repaints m x z = elim (Bool-cases (z == x)) [
    | inl e ↦ inr (rw e refl)
    | inr e ↦ inl (rw e refl)
  ]

  round-Repaints :
      (n : ℕ)
      → ((m : Marks) (x : ℕ) → Repaints m (sweep children k f n m x))
      → (m : Marks) (y : ℕ) → Repaints m (round n m y)
  round-Repaints n later m zero z = inl refl
  round-Repaints n later m (suc y) z = later (recount f m (suc y)) (suc y) z

  rounds-Repaints :
      (n : ℕ)
      → ((m : Marks) (x : ℕ) → Repaints m (sweep children k f n m x))
      → (m : Marks) (ys : List ℕ) → Repaints m (over (round n) m ys)
  rounds-Repaints n later m ys =
      over-keeps Repaints (round n) (λ a z. inl refl) Repaints-chain (round-Repaints n later) m ys

  pub sweep-Repaints : (n : ℕ) (m : Marks) (x : ℕ) → Repaints m (sweep children k f n m x)
  unfolding sweep
  sweep-Repaints zero m x = λ z. inl refl
  sweep-Repaints (suc n) m x = by_test (m.colour x == k) (sweep-Repaints n)
    where
      by_test :
          (b : Bool)
          → ((m : Marks) (x : ℕ) → Repaints m (sweep children k f n m x))
          → Repaints m (if b then m else over (round n) (paint k m x) (children x))
      by_test true later = λ z. inl refl
      by_test false later =
          Repaints-chain m (paint k m x) (over (round n) (paint k m x) (children x))
            (paint-Repaints m x) (rounds-Repaints n later (paint k m x) (children x))

  pub Repaints-keep : (m t : Marks) (z : ℕ) → Repaints m t → m.colour z ≡ k → t.colour z ≡ k
  Repaints-keep m t z r e = elim (r z) [ inl d ↦ d ∙ e | inr d ↦ d ]

  unpainted_mono : (m t : Marks) (us : List ℕ) → Repaints m t → unpainted k t us ≤ unpainted k m us
  unpainted_mono m t [] r = omega arith
  unpainted_mono m t (u ∷ us) r =
      omega (arith, unpainted_mono m t us r, tests (t.colour u) (m.colour u) (r u))
    where
      tests : (c d : ℕ) → (c ≡ d) ⊎ (c ≡ k) → (if c == k then 0 else 1) ≤ (if d == k then 0 else 1)
      tests c d h = ground arith

  pub put_other : (c : ℕ → ℕ) (x v u : ℕ) → (u == x) ≡ false → put c x v u ≡ c u
  put_other c x v u e = rw e refl

  pub painted_at : (m : Marks) (x u : ℕ) → u ≡ x → put m.colour x k u ≡ k
  painted_at m x u e = rw ((==_iff u x).1 e) refl

  unpainted_none :
      (m : Marks) (x : ℕ) (us : List ℕ) → unpainted k m us ≡ 0 → 0 < count x us → m.colour x ≡ k
  unpainted_none m x [] e h = absurd (omega arith)
  unpainted_none m x (u ∷ us) e h = elim (count_split x u us h) [
    | inl same ↦ ap m.colour (sym same) ∙ here (m.colour u) (unpainted k m us) e
    | inr other ↦ unpainted_none m x us (omega arith) other
  ]
    where
      here : (c n : ℕ) → (if c == k then 0 else 1) + n ≡ 0 → c ≡ k
      here c n h = ground arith

  unpainted-paint :
      (m : Marks) (x : ℕ) (us : List ℕ)
      → 0 < count x us
      → m.colour x ≢ k
      → unpainted k (paint k m x) us < unpainted k m us
  unpainted-paint m x [] h e = absurd (omega arith)
  unpainted-paint m x (u ∷ us) h e = elim (count_split x u us h) [
    | inl same ↦
        here (put m.colour x k u) (m.colour u) (unpainted k (paint k m x) us) (unpainted k m us)
          (painted_at m x u same) (λ q. e (ap m.colour (sym same) ∙ q))
          (unpainted_mono m (paint k m x) us (paint-Repaints m x))
    | inr other ↦
        later (put m.colour x k u) (m.colour u) (unpainted k (paint k m x) us) (unpainted k m us)
          (paint-Repaints m x u) (unpainted-paint m x us other e)
  ]
    where
      here :
          (c d n r : ℕ)
          → c ≡ k
          → d ≢ k
          → n ≤ r
          → (if c == k then 0 else 1) + n < (if d == k then 0 else 1) + r
      here c d n r hc hd h = ground arith

      later :
          (c d n r : ℕ)
          → (c ≡ d) ⊎ (c ≡ k)
          → n < r
          → (if c == k then 0 else 1) + n < (if d == k then 0 else 1) + r
      later c d n r hc h = ground arith

  abbrev pub KidsPainted : Marks → ℕ → Type 0
  KidsPainted t u = (y : ℕ) → 0 < count y (children u) → y ≢ 0 → t.colour y ≡ k

  -- What a walk has painted anew, it has painted the children of.
  abbrev pub Closes : Marks → Marks → Type 0
  Closes m t = (u : ℕ) → t.colour u ≡ k → (m.colour u ≡ k) ⊎ KidsPainted t u

  Closes-chain : (a b c : Marks) → Repaints b c → Closes a b → Closes b c → Closes a c
  Closes-chain a b c keep p q u e = elim (q u e) [
    | inl d ↦ (elim (p u d) [
      | inl g ↦ inl g
      | inr kids ↦ inr (λ y h nz. Repaints-keep b c y keep (kids y h nz))
    ])
    | inr kids ↦ inr kids
  ]

  module _ (objects : List ℕ)
      (closed : (u y : ℕ)
        → 0 < count u objects
        → 0 < count y (children u)
        → y ≢ 0
        → 0 < count y objects) where
    -- A walk with fuel for every object that is not painted.
    abbrev pub Walks : ℕ → Type 0
    Walks n =
        (m : Marks) (x : ℕ)
        → 0 < count x objects
        → unpainted k m objects ≤ n
        → ((sweep children k f n m x).colour x ≡ k) × Closes m (sweep children k f n m x)

    rounds-Closes :
        (n : ℕ)
        → Walks n
        → (m : Marks) (ys : List ℕ) → ((y : ℕ) → 0 < count y ys → y ≢ 0 → 0 < count y objects)
        → unpainted k m objects ≤ n
        → ((y : ℕ) → 0 < count y ys → y ≢ 0 → (over (round n) m ys).colour y ≡ k)
          × Closes m (over (round n) m ys)
    rounds-Closes n walks m [] inside fuel = (λ y h nz. absurd (omega arith), λ u e. inl e)
    rounds-Closes n walks m (zero ∷ ys) inside fuel =
        let rest = rounds-Closes n walks m ys (λ y h nz. inside y (count_later y 0 ys h) nz) fuel in
        (
          λ y h nz. elim (count_split y 0 ys h) [
            | inl z ↦ absurd (nz (sym z))
            | inr later ↦ rest.0 y later nz
          ],
          rest.1,
        )
    rounds-Closes n walks m (suc y ∷ ys) inside fuel =
        let x = suc y in
        let started = recount f m x in
        let now = sweep children k f n started x in
        let walked = walks started x (inside x (count_here x x ys refl) (omega arith)) fuel in
        let less = unpainted_mono started now objects (sweep-Repaints n started x) in
        let rest =
          rounds-Closes n walks now ys (λ z h nz. inside z (count_later z x ys h) nz)
            (omega (arith, less)) in
        let keep = rounds-Repaints n (sweep-Repaints n) now ys in
        (
          λ z h nz. elim (count_split z x ys h) [
            | inl here ↦
                Repaints-keep now (over (round n) now ys) z keep
                  (ap now.colour (sym here) ∙ walked.0)
            | inr later ↦ rest.0 z later nz
          ],
          Closes-chain m now (over (round n) now ys) keep walked.1 rest.1,
        )

    pub sweep-Walks : (n : ℕ) → Walks n
    unfolding sweep
    sweep-Walks zero m x inside fuel =
        (unpainted_none m x objects (omega arith) inside, λ u e. inl e)
    sweep-Walks (suc n) m x inside fuel = by_test (m.colour x == k) refl (sweep-Walks n)
      where
        before :
            (u : ℕ) (t : Marks)
            → (paint k m x).colour u ≡ k
            → ((y : ℕ) → 0 < count y (children x) → y ≢ 0 → t.colour y ≡ k)
            → (m.colour u ≡ k) ⊎ KidsPainted t u
        before u t g kids = elim (Bool-cases (u == x)) [
          | inl same ↦
              inr (λ y h nz.
                kids y (subst (λ v. 0 < count y (children v)) ((==_iff u x).0 same) h) nz)
          | inr other ↦ inl (sym (put_other m.colour x k u other) ∙ g)
        ]

        by_test :
            (b : Bool)
            → (m.colour x == k) ≡ b
            → Walks n
            → ((if b then m else over (round n) (paint k m x) (children x)).colour x ≡ k)
              × Closes m (if b then m else over (round n) (paint k m x) (children x))
        by_test true e walks = ((==_iff (m.colour x) k).0 e, λ u d. inl d)
        by_test false e walks =
            let painted = paint k m x in
            let t = over (round n) painted (children x) in
            let less = unpainted-paint m x objects inside (λ q. eqb_false (m.colour x) k e q) in
            let rest =
              rounds-Closes n walks painted (children x) (λ y h nz. closed x y inside h nz)
                (omega (arith, less)) in
            (
              Repaints-keep painted t x (rounds-Repaints n (sweep-Repaints n) painted (children x))
                  (painted_at m x x refl),
              λ u d. elim (rest.1 u d) [ inl g ↦ before u t g rest.0 | inr kids ↦ inr kids ],
            )

  -- What a walk paints has what its start has and what children inherit.
  module _ (Reached : ℕ → Type 0)
      (inherits : (u y : ℕ) → Reached u → 0 < count y (children u) → y ≢ 0 → Reached y) where
    abbrev pub Reaches : Marks → Marks → Type 0
    Reaches m t = (u : ℕ) → t.colour u ≡ k → (m.colour u ≡ k) ⊎ Reached u

    Reaches-chain : (a b c : Marks) → Reaches a b → Reaches b c → Reaches a c
    Reaches-chain a b c p q u e = elim (q u e) [ inl d ↦ p u d | inr r ↦ inr r ]

    rounds-Reaches :
        (n : ℕ)
        → ((m : Marks) (x : ℕ) → Reached x → Reaches m (sweep children k f n m x))
        → (m : Marks) (ys : List ℕ) → ((y : ℕ) → 0 < count y ys → y ≢ 0 → Reached y)
        → Reaches m (over (round n) m ys)
    rounds-Reaches n walks m [] all = λ u e. inl e
    rounds-Reaches n walks m (zero ∷ ys) all =
        rounds-Reaches n walks m ys (λ y h nz. all y (count_later y 0 ys h) nz)
    rounds-Reaches n walks m (suc y ∷ ys) all =
        let now = sweep children k f n (recount f m (suc y)) (suc y) in
        Reaches-chain m now (over (round n) now ys)
          (walks (recount f m (suc y)) (suc y)
            (all (suc y) (count_here (suc y) (suc y) ys refl) (omega arith)))
          (rounds-Reaches n walks now ys (λ z h nz. all z (count_later z (suc y) ys h) nz))

    pub sweep-Reaches :
        (n : ℕ) (m : Marks) (x : ℕ) → Reached x → Reaches m (sweep children k f n m x)
    unfolding sweep
    sweep-Reaches zero m x start = λ u e. inl e
    sweep-Reaches (suc n) m x start = by_test (m.colour x == k) (sweep-Reaches n)
      where
        painted : Reaches m (paint k m x)
        painted u e = elim (Bool-cases (u == x)) [
          | inl same ↦ inr (subst Reached (sym ((==_iff u x).0 same)) start)
          | inr other ↦ inl (sym (put_other m.colour x k u other) ∙ e)
        ]

        by_test :
            (b : Bool)
            → ((m : Marks) (x : ℕ) → Reached x → Reaches m (sweep children k f n m x))
            → Reaches m (if b then m else over (round n) (paint k m x) (children x))
        by_test true walks = λ u e. inl e
        by_test false walks =
            Reaches-chain m (paint k m x) (over (round n) (paint k m x) (children x)) painted (
              rounds-Reaches n walks (paint k m x) (children x) (λ y h nz. inherits x y start h nz))

    pub roots-Reaches :
        (n : ℕ) (m : Marks) (xs : List ℕ)
        → ((x : ℕ) → 0 < count x xs → Reached x)
        → Reaches m (over (sweep children k f n) m xs)
    roots-Reaches n m [] all = λ u e. inl e
    roots-Reaches n m (x ∷ xs) all =
        let now = sweep children k f n m x in
        Reaches-chain m now (over (sweep children k f n) now xs)
          (sweep-Reaches n m x (all x (count_here x x xs refl)))
          (roots-Reaches n now xs (λ z h. all z (count_later z x xs h)))

  pub roots-Repaints :
      (n : ℕ) (m : Marks) (xs : List ℕ) → Repaints m (over (sweep children k f n) m xs)
  roots-Repaints n m xs =
      over-keeps Repaints (sweep children k f n) (λ a z. inl refl) Repaints-chain (sweep-Repaints n)
        m xs

  -- After the walks from some roots, the roots are painted, and so are the children of what is
  -- painted anew.
  pub roots-Closes :
      (objects : List ℕ)
      → ((u y : ℕ) → 0 < count u objects → 0 < count y (children u) → y ≢ 0 → 0 < count y objects)
      → (n : ℕ) (m : Marks) (xs : List ℕ) → ((x : ℕ) → 0 < count x xs → 0 < count x objects)
      → unpainted k m objects ≤ n
      → ((x : ℕ) → 0 < count x xs → (over (sweep children k f n) m xs).colour x ≡ k)
        × Closes m (over (sweep children k f n) m xs)
  roots-Closes objects closed n m [] inside fuel = (λ x h. absurd (omega arith), λ u e. inl e)
  roots-Closes objects closed n m (x ∷ xs) inside fuel =
      let now = sweep children k f n m x in
      let t = over (sweep children k f n) now xs in
      let walked = sweep-Walks objects closed n m x (inside x (count_here x x xs refl)) fuel in
      let less = unpainted_mono m now objects (sweep-Repaints n m x) in
      let rest =
        roots-Closes objects closed n now xs (λ z h. inside z (count_later z x xs h))
          (omega (arith, less)) in
      let keep = roots-Repaints n now xs in
      (
        λ z h. elim (count_split z x xs h) [
          | inl here ↦ Repaints-keep now t z keep (ap now.colour (sym here) ∙ walked.0)
          | inr later ↦ rest.0 z later
        ],
        Closes-chain m now t keep walked.1 rest.1,
      )
