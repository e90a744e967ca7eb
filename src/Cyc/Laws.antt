-- ===== src/Cyc/Laws.antt =====
-- A collection frees no object that something outside still holds, directly or through others.
use prismio.Base.{
  ℕ, ◌+◌, ◌<◌, ◌≤◌, ◌≡◌, ◌≢◌, ◌⊎◌, inl, inr, sym, ◌∙◌, true, false, List, [], ◌∷◌, arith, ◌==◌,
  ==_iff, Bool-cases, length,
}
use prismio.Base.Count.{count}
use prismio.Cyc.{Marks, Cyc, over, sweep, lowered, black, grey, white, scan}
use prismio.Cyc.Sweep.{unpainted, eqb_false, roots-Repaints, roots-Closes, roots-Reaches}
use prismio.Cyc.Mark.{
  all_edges, edges_from, edges_from_others, edges_split, edge_counts, roots_weight,
}
use prismio.Cyc.Scan.{Outcome}
use prismio.Cyc.Seen.{greys, roots-Scanned, Scanned}

-- The objects that are held from outside, or by a field of one that is.
pub data Live (children : ℕ → List ℕ) (outside : ℕ → ℕ) (objects : List ℕ) : ℕ → Type 0 where
  held : (e : ℕ) → 0 < count e objects → 0 < outside e → Live children outside objects e
  field :
      (u y : ℕ)
      → Live children outside objects u
      → 0 < count y (children u)
      → y ≢ 0
      → Live children outside objects y

-- What the collector is entitled to: the fields of objects are objects, and so are the candidates;
-- each count is at least the references from outside and from fields; no walk is under way.
pub record IsGraph (s : Cyc) (outside : ℕ → ℕ) (objects : List ℕ) : Type 0 where
  pub closed :
      (u y : ℕ) → 0 < count u objects → 0 < count y (s.children u) → y ≢ 0 → 0 < count y objects
  pub waiting : (x : ℕ) → 0 < count x s.candidates → 0 < count x objects
  pub once : (x : ℕ) → count x s.candidates ≤ 1
  pub few : length objects ≤ s.allocated
  pub counted :
      (z : ℕ) → 0 < count z objects → outside z + all_edges s.children grey z objects ≤ s.marks.rc z
  pub no_grey : (z : ℕ) → s.marks.colour z ≢ grey
  pub no_white : (z : ℕ) → s.marks.colour z ≢ white

unpainted_most : (m : Marks) (us : List ℕ) → unpainted grey m us ≤ length us
unpainted_most m [] = omega arith
unpainted_most m (u ∷ us) = ground (arith, unpainted_most m us)

greys_most : (m : Marks) (us : List ℕ) → greys m us ≤ length us
greys_most m [] = omega arith
greys_most m (u ∷ us) = ground (arith, greys_most m us)

grey-white : (c : ℕ) → c ≡ grey → c ≢ white
grey-white c a b = omega arith

black-grey : (c : ℕ) → c ≡ black → c ≢ grey
black-grey c a b = omega arith

black-white : (c : ℕ) → c ≡ black → c ≢ white
black-white c a b = omega arith

module _ (s : Cyc) (outside : ℕ → ℕ) (objects : List ℕ) (g : IsGraph s outside objects)
    (roots : List ℕ) (from : (x : ℕ) → 0 < count x roots → 0 < count x objects) where
  abbrev pub marked : Marks
  marked = over (sweep s.children grey lowered s.allocated) s.marks roots

  abbrev pub scanned : Marks
  scanned = over (scan s.children s.allocated s.allocated) marked roots

  pub live_object : (z : ℕ) → Live s.children outside objects z → 0 < count z objects
  live_object z (held e o h) = o
  live_object z (field u y l h nz) = g.closed u y (live_object u l) h nz

  -- After the trial deletion a count still covers what is outside and the fields of objects that
  -- were not reached.
  count_after :
      (z : ℕ)
      → 0 < count z objects
      → outside z + edges_from_others s.children grey marked z objects ≤ marked.rc z
  count_after z o =
      covers (outside z) (all_edges s.children grey z objects) (s.marks.rc z)
        (edges_from s.children grey s.marks z objects) (marked.rc z)
        (edges_from s.children grey marked z objects)
        (edges_from_others s.children grey marked z objects) (g.counted z o)
        (roots_weight s.children grey objects g.closed s.allocated s.marks roots from z)
        (edges_split s.children grey marked z objects)
    where
      covers : (out all r e t f h : ℕ) → out + all ≤ r → r + e ≤ t + f → all ≡ f + h → out + h ≤ t
      covers out all r e t f h p q d = omega arith

  fuel_enough : unpainted grey s.marks objects ≤ s.allocated
  fuel_enough = omega (arith, unpainted_most s.marks objects, g.few)

  greys_enough : greys marked objects ≤ s.allocated
  greys_enough = omega (arith, greys_most marked objects, g.few)

  marks_closed :
      ((x : ℕ) → 0 < count x roots → marked.colour x ≡ grey)
      × ((u y : ℕ)
          → marked.colour u ≡ grey
          → 0 < count y (s.children u)
          → y ≢ 0
          → marked.colour y ≡ grey)
  marks_closed =
      let walked =
        roots-Closes s.children grey lowered objects g.closed s.allocated s.marks roots from
          fuel_enough in
      (
        walked.0,
        λ u y e h nz. elim (walked.1 u e) [
          | inl before ↦ absurd (g.no_grey u before)
          | inr kids ↦ kids y h nz
        ],
      )

  pub scans :
      ((x : ℕ) → 0 < count x roots → scanned.colour x ≢ grey) × Scanned s.children marked scanned
  scans =
      roots-Scanned s.children objects g.closed s.allocated g.few s.allocated marked roots from
        greys_enough

  -- Everything that was marked has been scanned.
  all_seen : (u : ℕ) → marked.colour u ≡ grey → scanned.colour u ≢ grey
  all_seen u e =
      elim (roots-Reaches s.children grey lowered
        (λ v. (marked.colour v ≡ grey) × (scanned.colour v ≢ grey))
        (λ v y r h nz. (marks_closed.1 v y r.0 h nz, scans.1.sees v r.0 r.1 y h nz)) s.allocated
        s.marks roots (λ x h. (marks_closed.0 x h, scans.0 x h)) u e) [
          | inl before ↦ absurd (g.no_grey u before)
          | inr r ↦ r.1
        ]

  pub marked_not_white : (z : ℕ) → marked.colour z ≢ white
  marked_not_white z w = elim (roots-Repaints s.children grey lowered s.allocated s.marks roots z) [
    | inl e ↦ g.no_white z (sym e ∙ w)
    | inr e ↦ grey-white (marked.colour z) e w
  ]

  no_count : (z : ℕ) → scanned.colour z ≡ white → marked.rc z ≡ 0
  no_count z w =
      whitened (marked.colour z) (scanned.colour z) (marked.rc z) (scans.1.changes z).1
        (marked_not_white z) w
    where
      whitened : (c d r : ℕ) → Outcome s.children c d r → c ≢ white → d ≡ white → r ≡ 0
      whitened c d r o nw w = ground arith

  blackened :
      (u : ℕ)
      → marked.colour u ≡ grey
      → scanned.colour u ≢ grey
      → scanned.colour u ≢ white
      → scanned.colour u ≡ black
  blackened u e ng nw =
      become (marked.colour u) (scanned.colour u) (marked.rc u) (scans.1.changes u).1 e ng nw
    where
      become : (c d r : ℕ) → Outcome s.children c d r → c ≡ grey → d ≢ grey → d ≢ white → d ≡ black
      become c d r o e ng nw = ground arith

  pub live_kept : (z : ℕ) → Live s.children outside objects z → scanned.colour z ≢ white
  live_kept z (held e o h) w =
      positive (outside e) (edges_from_others s.children grey marked e objects) (marked.rc e) h
        (count_after e o) (no_count e w)
    where
      positive : (a b c : ℕ) → 0 < a → a + b ≤ c → c ≢ 0
      positive a b c h le z = omega arith
  live_kept z (field u y l h nz) w = by_mark (live_kept u l) (Bool-cases (marked.colour u == grey))
    where
      positive : (a b c : ℕ) → 0 < b → a + b ≤ c → c ≢ 0
      positive a b c h le z = omega arith

      by_mark :
          scanned.colour u ≢ white
          → ((marked.colour u == grey) ≡ true) ⊎ ((marked.colour u == grey) ≡ false)
          → ⊥
      by_mark nw (inr e) =
          positive (outside y) (edges_from_others s.children grey marked y objects) (marked.rc y)
            (edge_counts s.children grey marked u y objects (live_object u l)
              (eqb_false (marked.colour u) grey e) h)
            (count_after y (live_object y (field u y l h nz))) (no_count y w)
      by_mark nw (inl e) =
          let was = (==_iff (marked.colour u) grey).0 e in
          elim (scans.1.blackens u (blackened u was (all_seen u was) nw)) [
            | inl b ↦ black-grey (marked.colour u) b was
            | inr kids ↦ black-white (scanned.colour y) (kids y h nz) w
          ]
