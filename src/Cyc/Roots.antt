-- ===== src/Cyc/Roots.antt =====
-- The loop of cyc_collect that frees the roots that died while they waited, and keeps the others.
use mathlib.Core.Path.{subst}
use prismio.Base.{
  ℕ, ◌+◌, ◌<◌, ◌≤◌, ◌≡◌, ◌≢◌, ◌⊎◌, inl, inr, refl, ap, ◌∙◌, Bool, true, false, List, [], ◌∷◌, arith,
  ◌==◌, ==_iff, if◌then◌else◌, Bool-cases,
}
use prismio.Base.Count.{count, count_split}
use prismio.Cyc.{Cyc, grey, white, free_object, free_dead, still_held}
use prismio.Cyc.Sweep.{eqb_false}
use prismio.Cyc.White.{Leaves}

-- The dead roots are freed, and nothing else changes.
pub record Dead (s : Cyc) (xs : List ℕ) (t : Cyc) : Type 0 where
  pub same_rc : t.marks.rc ≡ s.marks.rc
  pub no_new_grey : (z : ℕ) → t.marks.colour z ≡ grey → s.marks.colour z ≡ grey
  pub no_new_white : (z : ℕ) → t.marks.colour z ≡ white → s.marks.colour z ≡ white
  pub same_children : t.children ≡ s.children
  pub same_candidates : t.candidates ≡ s.candidates
  pub same_allocated : t.allocated ≡ s.allocated
  pub gone :
      (z : ℕ) → count z t.freed ≡ count z s.freed + (if s.marks.rc z == 0 then count z xs else 0)

-- The roots that have a count
abbrev pub counted : (ℕ → ℕ) → List ℕ → List ℕ
counted rc [] = []
counted rc (x ∷ xs) = let rest = counted rc xs in if rc x == 0 then rest else x ∷ rest

pub counted_among : (rc : ℕ → ℕ) (z : ℕ) (xs : List ℕ) → count z (counted rc xs) ≤ count z xs
counted_among rc z [] = omega arith
counted_among rc z (x ∷ xs) = ground (arith, counted_among rc z xs)

pub counted_held : (rc : ℕ → ℕ) (z : ℕ) (xs : List ℕ) → 0 < count z (counted rc xs) → 0 < rc z
counted_held rc z [] h = absurd (omega arith)
counted_held rc z (x ∷ xs) h = by_test (rc x == 0) refl (counted_held rc z xs) h
  where
    by_test :
        (b : Bool)
        → (rc x == 0) ≡ b
        → (0 < count z (counted rc xs) → 0 < rc z)
        → 0 < count z (if b then counted rc xs else x ∷ counted rc xs)
        → 0 < rc z
    by_test true e later h = later h
    by_test false e later h = elim (count_split z x (counted rc xs) h) [
      | inl same ↦ subst (λ v. 0 < rc v) same (ground arith)
      | inr other ↦ later other
    ]

module _ (reclaim : ℕ → Cyc → Cyc) (lv : Leaves reclaim) where
  pub free_dead-Dead : (xs : List ℕ) (s : Cyc) → Dead s xs (free_dead reclaim s xs)
  unfolding free_object
  free_dead-Dead [] s = record {
    same_rc = refl;
    no_new_grey = λ z h. h;
    no_new_white = λ z h. h;
    same_children = refl;
    same_candidates = refl;
    same_allocated = refl;
    gone = λ z. ground arith;
  }
  free_dead-Dead (x ∷ xs) s = by_test (s.marks.rc x == 0) refl (free_dead-Dead xs)
    where
      one_count : (x z : ℕ) → (x ≢ z) ⊎ (s.marks.rc x ≡ s.marks.rc z)
      one_count x z = elim (Bool-cases (x == z)) [
        | inl e ↦ inr (ap s.marks.rc ((==_iff x z).0 e))
        | inr e ↦ inl (eqb_false x z e)
      ]

      at_dead :
          (z c d n r t : ℕ)
          → (c == 0) ≡ true
          → (x ≢ z) ⊎ (c ≡ d)
          → t ≡ (if x == z then 1 else 0) + n + (if d == 0 then r else 0)
          → t ≡ n + (if d == 0 then (if x == z then 1 else 0) + r else 0)
      at_dead z c d n r t e h q = ground arith

      -- What the release of the object leaves, put for what it was given.
      freed_gone :
          (z : ℕ) {t a b n m : ℕ}
          → t ≡ a + (if n == 0 then count z xs else 0)
          → a ≡ b
          → n ≡ m
          → t ≡ b + (if m == 0 then count z xs else 0)
      freed_gone z {a = a} {b = b} {n = n} e ea en =
          e
          ∙ ap (λ v. v + (if n == 0 then count z xs else 0)) ea
          ∙ ap (λ v. b + (if v == 0 then count z xs else 0)) en

      at_held :
          (z c d n r t : ℕ)
          → (c == 0) ≡ false
          → (x ≢ z) ⊎ (c ≡ d)
          → t ≡ n + (if d == 0 then r else 0)
          → t ≡ n + (if d == 0 then (if x == z then 1 else 0) + r else 0)
      at_held z c d n r t e h q = ground arith

      by_test :
          (b : Bool)
          → (s.marks.rc x == 0) ≡ b
          → ((s : Cyc) → Dead s xs (free_dead reclaim s xs))
          → Dead s (x ∷ xs) (free_dead reclaim (if b then free_object reclaim s x else s) xs)
      by_test true e later =
          let base : Cyc = record s { collected = s.collected + 1; freed = x ∷ s.freed } in
          let k = later (free_object reclaim s x) in
          record {
            same_rc = k.same_rc ∙ lv.same_rc x base;
            no_new_grey = λ z h. lv.no_new_grey x z base (k.no_new_grey z h);
            no_new_white = λ z h. lv.no_new_white x z base (k.no_new_white z h);
            same_children = k.same_children ∙ lv.same_children x base;
            same_candidates = k.same_candidates ∙ lv.same_candidates x base;
            same_allocated = k.same_allocated ∙ lv.same_allocated x base;
            gone = λ z.
                at_dead z (s.marks.rc x) (s.marks.rc z) (count z s.freed) (count z xs)
                  (count z (free_dead reclaim (free_object reclaim s x) xs).freed) e (one_count x z)
                  (freed_gone z (k.gone z) (ap (count z) (lv.same_freed x base))
                    (ap (λ f. f z) (lv.same_rc x base)));
          }
      by_test false e later =
          let k = later s in
          record {
            same_rc = k.same_rc;
            no_new_grey = k.no_new_grey;
            no_new_white = k.no_new_white;
            same_children = k.same_children;
            same_candidates = k.same_candidates;
            same_allocated = k.same_allocated;
            gone = λ z.
                at_held z (s.marks.rc x) (s.marks.rc z) (count z s.freed) (count z xs)
                  (count z (free_dead reclaim s xs).freed) e (one_count x z) (k.gone z);
          }

  -- No count drops while the dead roots go, so the loop keeps the roots that had one before it.
  pub still_held-counted : (xs : List ℕ) (s : Cyc) → still_held reclaim s xs ≡ counted s.marks.rc xs
  unfolding free_object
  still_held-counted [] s = refl
  still_held-counted (x ∷ xs) s = by_test (s.marks.rc x == 0) (still_held-counted xs)
    where
      by_test :
          (b : Bool)
          → ((s : Cyc) → still_held reclaim s xs ≡ counted s.marks.rc xs)
          → (let rest = still_held reclaim (if b then free_object reclaim s x else s) xs in
              if b then rest else x ∷ rest)
            ≡ (let rest = counted s.marks.rc xs in if b then rest else x ∷ rest)
      by_test true later =
          later (free_object reclaim s x)
          ∙ ap (λ (rc : ℕ → ℕ). counted rc xs)
              (lv.same_rc x (record s { collected = s.collected + 1; freed = x ∷ s.freed }))
      by_test false later = ap (◌∷◌ x) (later s)
