-- ===== src/Cyc/Seen.antt =====
-- The descent of cyc_scan over the children, with fuel for every grey object.
use mathlib.Core.Path.{subst}
use prismio.Base.{
  ℕ, zero, suc, ◌+◌, ◌<◌, ◌≤◌, ◌≡◌, ◌≢◌, ◌⊎◌, inl, inr, refl, sym, ap, ◌∙◌, Bool, true, false, not,
  List, [], ◌∷◌, arith, ◌==◌, ==_iff, ltb, if◌then◌else◌, Bool-cases, length,
}
use prismio.Base.Count.{count, count_split, count_here, count_later}
use prismio.Cyc.{
  Marks, put, paint, over, unless_null, sweep, raised, black, grey, white, scan_black, scan,
}
use prismio.Cyc.Sweep.{
  sweep-Repaints, eqb_false, put_other, painted_at, KidsPainted, sweep-Walks, unpainted,
}
use prismio.Cyc.Scan.{
  scan_black-sweep, Outcome, Scans, Scans-same, Scans-chain, Outcome-black, Outcome-grey,
  whiten-Scans, scan_black-Scans,
}

abbrev pub greys : Marks → List ℕ → ℕ
greys m [] = 0
greys m (u ∷ us) = (if m.colour u == grey then 1 else 0) + greys m us

module _ (children : ℕ → List ℕ) where
  greys_mono : (m t : Marks) (us : List ℕ) → Scans children m t → greys t us ≤ greys m us
  greys_mono m t [] s = omega arith
  greys_mono m t (u ∷ us) s =
      omega (arith, greys_mono m t us s, fewer (m.colour u) (t.colour u) (m.rc u) (s u).1)
    where
      fewer :
          (c d r : ℕ)
          → Outcome children c d r
          → (if d == grey then 1 else 0) ≤ (if c == grey then 1 else 0)
      fewer c d r o = ground arith

  greys_none :
      (m : Marks) (x : ℕ) (us : List ℕ) → greys m us ≡ 0 → 0 < count x us → m.colour x ≢ grey
  greys_none m x [] e h = absurd (omega arith)
  greys_none m x (u ∷ us) e h = elim (count_split x u us h) [
    | inl same ↦ λ q. here (m.colour u) (greys m us) e (ap m.colour same ∙ q)
    | inr later ↦ greys_none m x us (omega arith) later
  ]
    where
      here : (c n : ℕ) → (if c == grey then 1 else 0) + n ≡ 0 → c ≢ grey
      here c n h = ground arith

  greys_whiten :
      (m : Marks) (x : ℕ) (us : List ℕ)
      → 0 < count x us
      → m.colour x ≡ grey
      → m.rc x ≡ 0
      → greys (paint white m x) us < greys m us
  greys_whiten m x [] h g r = absurd (omega arith)
  greys_whiten m x (u ∷ us) h g r = elim (count_split x u us h) [
    | inl same ↦
        here (m.colour u) (put m.colour x white u) (greys m us) (greys (paint white m x) us)
          (ap m.colour same ∙ g) (painted_at children white raised m x u same)
          (greys_mono m (paint white m x) us (whiten-Scans children m x g r))
    | inr later ↦
        there (m.colour u) (put m.colour x white u) (m.rc u) (greys m us)
          (greys (paint white m x) us) (whiten-Scans children m x g r u).1
          (greys_whiten m x us later g r)
  ]
    where
      here :
          (c d n l : ℕ)
          → c ≡ grey
          → d ≡ white
          → l ≤ n
          → (if d == grey then 1 else 0) + l < (if c == grey then 1 else 0) + n
      here c d n l hc hd h = ground arith

      there :
          (c d r n l : ℕ)
          → Outcome children c d r
          → l < n
          → (if d == grey then 1 else 0) + l < (if c == grey then 1 else 0) + n
      there c d r n l o h = ground arith

  -- The children of an object are not grey.
  abbrev pub KidsSeen : Marks → ℕ → Type 0
  KidsSeen t u = (y : ℕ) → 0 < count y (children u) → y ≢ 0 → t.colour y ≢ grey

  -- What a scan keeps: colours and counts, black children of what it blackens, and children that are
  -- not grey of what is grey no more.
  pub record Scanned (m t : Marks) : Type 0 where
    pub changes : Scans children m t
    pub blackens :
        (u : ℕ) → t.colour u ≡ black → (m.colour u ≡ black) ⊎ KidsPainted children black raised t u
    pub sees : (u : ℕ) → m.colour u ≡ grey → t.colour u ≢ grey → KidsSeen t u

  Scanned-same : (m : Marks) → Scanned m m
  Scanned-same m = record {
    changes = Scans-same children m;
    blackens = λ u e. inl e;
    sees = λ u g n. absurd (n g);
  }

  seen_later : (m t : Marks) (z : ℕ) → Scans children m t → m.colour z ≢ grey → t.colour z ≢ grey
  seen_later m t z s n = Outcome-grey children (m.colour z) (t.colour z) (m.rc z) (s z).1 n

  Scanned-chain : (a b c : Marks) → Scanned a b → Scanned b c → Scanned a c
  Scanned-chain a b c p q = record {
    changes = Scans-chain children a b c p.changes q.changes;
    blackens = λ u e. elim (q.blackens u e) [
      | inl d ↦ (elim (p.blackens u d) [
        | inl g ↦ inl g
        | inr kids ↦ inr (λ y h nz.
            Outcome-black children (b.colour y) (c.colour y) (b.rc y) (q.changes y).1 (kids y h nz))
      ])
      | inr kids ↦ inr kids
    ];
    sees = λ u g n. elim (Bool-cases (b.colour u == grey)) [
      | inl e ↦ q.sees u ((==_iff (b.colour u) grey).0 e) n
      | inr e ↦
          λ y h nz. seen_later b c y q.changes (p.sees u g (eqb_false (b.colour u) grey e) y h nz)
    ];
  }

  unpainted_most : (m : Marks) (us : List ℕ) → unpainted black m us ≤ length us
  unpainted_most m [] = omega arith
  unpainted_most m (u ∷ us) = ground (arith, unpainted_most m us)

  clash : (c : ℕ) → c ≡ black → c ≢ grey
  clash c b g = omega arith

  black_seen : (c : ℕ) → c ≡ black → c ≢ grey
  black_seen c b g = omega arith

  white_seen : (c : ℕ) → c ≡ white → c ≢ grey
  white_seen c b g = omega arith

  white-black : (c : ℕ) → c ≡ white → c ≢ black
  white-black c w b = omega arith

  grey_seen : (c : ℕ) → c ≡ grey → c ≢ black
  grey_seen c b g = omega arith

  module _ (objects : List ℕ)
      (closed : (u y : ℕ)
        → 0 < count u objects
        → 0 < count y (children u)
        → y ≢ 0
        → 0 < count y objects)
      (fuel : ℕ) (enough : length objects ≤ fuel) where
    abbrev Descends : ℕ → Type 0
    Descends n =
        (m : Marks) (x : ℕ)
        → 0 < count x objects
        → greys m objects ≤ n
        → ((scan children fuel n m x).colour x ≢ grey) × Scanned m (scan children fuel n m x)

    abbrev round : ℕ → Marks → ℕ → Marks
    round n m y = unless_null y m (scan children fuel n m y)

    rounds-Scanned :
        (n : ℕ)
        → Descends n
        → (m : Marks) (ys : List ℕ) → ((y : ℕ) → 0 < count y ys → y ≢ 0 → 0 < count y objects)
        → greys m objects ≤ n
        → ((y : ℕ) → 0 < count y ys → y ≢ 0 → (over (round n) m ys).colour y ≢ grey)
          × Scanned m (over (round n) m ys)
    rounds-Scanned n walks m [] inside few = (λ y h nz. absurd (omega arith), Scanned-same m)
    rounds-Scanned n walks m (zero ∷ ys) inside few =
        let rest = rounds-Scanned n walks m ys (λ y h nz. inside y (count_later y 0 ys h) nz) few in
        (
          λ y h nz. elim (count_split y 0 ys h) [
            | inl z ↦ absurd (nz (sym z))
            | inr later ↦ rest.0 y later nz
          ],
          rest.1,
        )
    rounds-Scanned n walks m (suc y ∷ ys) inside few =
        let x = suc y in
        let now = scan children fuel n m x in
        let walked = walks m x (inside x (count_here x x ys refl) (omega arith)) few in
        let less = greys_mono m now objects walked.1.changes in
        let rest =
          rounds-Scanned n walks now ys (λ z h nz. inside z (count_later z x ys h) nz)
            (omega (arith, less)) in
        (
          λ z h nz. elim (count_split z x ys h) [
            | inl here ↦
                seen_later now (over (round n) now ys) z rest.1.changes
                  (λ q. walked.0 (ap now.colour here ∙ q))
            | inr later ↦ rest.0 z later nz
          ],
          Scanned-chain m now (over (round n) now ys) walked.1 rest.1,
        )

    scan_black-Scanned :
        (m : Marks) (x : ℕ)
        → 0 < count x objects
        → m.colour x ≡ grey
        → ((scan_black children fuel m x).colour x ≢ grey)
          × Scanned m (scan_black children fuel m x)
    scan_black-Scanned m x inside g =
        let t = sweep children black raised fuel m x in
        let walked =
          sweep-Walks children black raised objects closed fuel m x inside
            (omega (arith, unpainted_most m objects, enough)) in
        let seen : Scanned m t = record {
          changes = scan_black-Scans children fuel m x;
          blackens = walked.1;
          sees = λ u gu n. elim (sweep-Repaints children black raised fuel m x u) [
            | inl e ↦ absurd (n (e ∙ gu))
            | inr e ↦ (elim (walked.1 u e) [
              | inl b ↦ absurd (clash (m.colour u) b gu)
              | inr kids ↦ λ y h nz. black_seen (t.colour y) (kids y h nz)
            ])
          ];
        } in
        subst (λ t. (t.colour x ≢ grey) × Scanned m t)
          (sym (scan_black-sweep children fuel m x (grey_seen (m.colour x) g)))
          (black_seen (t.colour x) walked.0, seen)

    pub scan-Descends : (n : ℕ) → Descends n
    unfolding scan
    scan-Descends zero m x inside few =
        (greys_none m x objects (omega arith) inside, Scanned-same m)
    scan-Descends (suc n) m x inside few = by_colour (m.colour x == grey) refl (scan-Descends n)
      where
        whitened : Marks
        whitened = paint white m x

        by_white :
            Descends n
            → m.colour x ≡ grey
            → m.rc x ≡ 0
            → ((over (round n) whitened (children x)).colour x ≢ grey)
              × Scanned m (over (round n) whitened (children x))
        by_white walks g r =
            let t = over (round n) whitened (children x) in
            let rest =
              rounds-Scanned n walks whitened (children x) (λ y h nz. closed x y inside h nz)
                (omega (arith, greys_whiten m x objects inside g r)) in
            let now : whitened.colour x ≡ white = painted_at children white raised m x x refl in
            (
              seen_later whitened t x rest.1.changes (λ q. white_seen (whitened.colour x) now q),
              record {
                changes =
                    Scans-chain children m whitened t (whiten-Scans children m x g r)
                      rest.1.changes;
                blackens = λ u e. elim (rest.1.blackens u e) [
                  | inl b ↦ inl (black_before u b)
                  | inr kids ↦ inr kids
                ];
                sees = λ u gu n. elim (Bool-cases (u == x)) [
                  | inl e ↦ λ y h nz.
                      rest.0 y (subst (λ v. 0 < count y (children v)) ((==_iff u x).0 e) h) nz
                  | inr e ↦
                      rest.1.sees u (put_other children white raised m.colour x white u e ∙ gu) n
                ];
              },
            )
          where
            black_before : (u : ℕ) → whitened.colour u ≡ black → m.colour u ≡ black
            black_before u b = elim (Bool-cases (u == x)) [
              | inl e ↦ absurd (
                  white-black (whitened.colour u)
                    (painted_at children white raised m x u ((==_iff u x).0 e)) b)
              | inr e ↦ sym (put_other children white raised m.colour x white u e) ∙ b
            ]

        by_count :
            (b : Bool)
            → ltb 0 (m.rc x) ≡ b
            → Descends n
            → m.colour x ≡ grey
            → (let t =
                  if b
                  then scan_black children fuel m x
                  else over (round n) whitened (children x) in
                (t.colour x ≢ grey) × Scanned m t)
        by_count true e walks g = scan_black-Scanned m x inside g
        by_count false e walks g = by_white walks g (ground arith)

        by_colour :
            (b : Bool)
            → (m.colour x == grey) ≡ b
            → Descends n
            → (let t =
                  if not b
                  then m
                  else if ltb 0 (m.rc x)
                  then scan_black children fuel m x
                  else over (round n) whitened (children x) in
                (t.colour x ≢ grey) × Scanned m t)
        by_colour true e walks =
            by_count (ltb 0 (m.rc x)) refl walks ((==_iff (m.colour x) grey).0 e)
        by_colour false e walks = (eqb_false (m.colour x) grey e, Scanned-same m)

    -- After the scans from some roots, none of the roots is grey.
    pub roots-Scanned :
        (n : ℕ) (m : Marks) (xs : List ℕ)
        → ((x : ℕ) → 0 < count x xs → 0 < count x objects)
        → greys m objects ≤ n
        → ((x : ℕ) → 0 < count x xs → (over (scan children fuel n) m xs).colour x ≢ grey)
          × Scanned m (over (scan children fuel n) m xs)
    roots-Scanned n m [] inside few = (λ x h. absurd (omega arith), Scanned-same m)
    roots-Scanned n m (x ∷ xs) inside few =
        let now = scan children fuel n m x in
        let t = over (scan children fuel n) now xs in
        let walked = scan-Descends n m x (inside x (count_here x x xs refl)) few in
        let less = greys_mono m now objects walked.1.changes in
        let rest =
          roots-Scanned n now xs (λ z h. inside z (count_later z x xs h)) (omega (arith, less)) in
        (
          λ z h. elim (count_split z x xs h) [
            | inl here ↦ seen_later now t z rest.1.changes (λ q. walked.0 (ap now.colour here ∙ q))
            | inr later ↦ rest.0 z later
          ],
          Scanned-chain m now t walked.1 rest.1,
        )
