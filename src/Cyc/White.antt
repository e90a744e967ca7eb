-- ===== src/Cyc/White.antt =====
-- cyc_collect_white frees white objects, each once.
use prismio.Base.{
  ℕ, zero, suc, ◌+◌, ◌≤◌, ◌≡◌, ◌≢◌, ◌⊎◌, ap, ◌∙◌, refl, Bool, true, false, not, ◌||◌, List, ◌∷◌,
  arith, ◌==◌, ==_iff, if◌then◌else◌, Bool-cases, inl, inr,
}
use prismio.Base.Count.{count}
use prismio.Cyc.{Cyc, paint, over, unless_null, black, grey, white, free_object, collect_white}
use prismio.Cyc.Sweep.{over-keeps, eqb_false}

abbrev pub is_white : Cyc → ℕ → ℕ
is_white s z = if s.marks.colour z == white then 1 else 0

-- What is freed was white, and is white no more; and nothing is forgotten.
abbrev pub Frees : Cyc → Cyc → Type 0
Frees s t =
    (z : ℕ)
    → (count z t.freed + is_white t z ≤ count z s.freed + is_white s z)
      × (count z s.freed ≤ count z t.freed)

Frees-same : (s : Cyc) → Frees s s
Frees-same s z = (omega arith, omega arith)

Frees-chain : (a b c : Cyc) → Frees a b → Frees b c → Frees a c
Frees-chain a b c p q z = (omega (arith, (p z).0, (q z).0), omega (arith, (p z).1, (q z).1))

-- The release function of an object, and the free of its memory, leave alone what the collector goes
-- by: no other object is freed, no count drops, no object becomes a candidate, and no header, the
-- freed one included, begins to show grey or white.
pub record Leaves (reclaim : ℕ → Cyc → Cyc) : Type 0 where
  pub same_freed : (x : ℕ) (s : Cyc) → (reclaim x s).freed ≡ s.freed
  pub same_rc : (x : ℕ) (s : Cyc) → (reclaim x s).marks.rc ≡ s.marks.rc
  pub same_children : (x : ℕ) (s : Cyc) → (reclaim x s).children ≡ s.children
  pub same_candidates : (x : ℕ) (s : Cyc) → (reclaim x s).candidates ≡ s.candidates
  pub same_allocated : (x : ℕ) (s : Cyc) → (reclaim x s).allocated ≡ s.allocated
  pub no_new_grey :
      (x z : ℕ) (s : Cyc) → (reclaim x s).marks.colour z ≡ grey → s.marks.colour z ≡ grey
  pub no_new_white :
      (x z : ℕ) (s : Cyc) → (reclaim x s).marks.colour z ≡ white → s.marks.colour z ≡ white

-- Where an implication of colours holds, so does the order of the tests.
white-order :
    (c d : ℕ)
    → (c ≡ white → d ≡ white)
    → (if c == white then 1 else 0) ≤ (if d == white then 1 else 0)
white-order c d h = ground (arith, h)

module _ (reclaim : ℕ → Cyc → Cyc) (lv : Leaves reclaim) where
  abbrev freed_one : Cyc → ℕ → Cyc
  freed_one s x = free_object reclaim (record s { marks = paint black s.marks x }) x

  freed_one-Frees : (s : Cyc) (x : ℕ) → s.marks.colour x ≡ white → Frees s (freed_one s x)
  unfolding free_object
  freed_one-Frees s x w z =
      let base : Cyc = record s {
        marks = paint black s.marks x;
        collected = s.collected + 1;
        freed = x ∷ s.freed;
      } in
      (
        omega (
          arith,
          ap (count z) (lv.same_freed x base),
          white-order ((reclaim x base).marks.colour z) (base.marks.colour z)
              (lv.no_new_white x z base),
          once (s.marks.colour z) (count z s.freed) (elim (Bool-cases (z == x)) [
            | inl e ↦ inr (ap s.marks.colour ((==_iff z x).0 e) ∙ w)
            | inr e ↦ inl (eqb_false z x e)
          ]),
        ),
        omega (arith, ap (count z) (lv.same_freed x base)),
      )
    where
      once :
          (c n : ℕ)
          → (z ≢ x) ⊎ (c ≡ white)
          → (if x == z then 1 else 0)
              + n
              + (if (if z == x then black else c) == white then 1 else 0)
            ≤ n + (if c == white then 1 else 0)
      once c n h = ground arith

  pub collect_white-Frees : (n : ℕ) (s : Cyc) (x : ℕ) → Frees s (collect_white reclaim n s x)
  unfolding collect_white
  collect_white-Frees zero s x = Frees-same s
  collect_white-Frees (suc n) s x =
      by_test (s.marks.colour x == white) refl (s.buffered x) (collect_white-Frees n)
    where
      round : Cyc → ℕ → Cyc
      round s y = unless_null y s (collect_white reclaim n s y)

      round-Frees :
          ((s : Cyc) (x : ℕ) → Frees s (collect_white reclaim n s x))
          → (s : Cyc) (y : ℕ) → Frees s (round s y)
      round-Frees later s zero = Frees-same s
      round-Frees later s (suc y) = later s (suc y)

      by_test :
          (b : Bool)
          → (s.marks.colour x == white) ≡ b
          → (c : Bool) → ((s : Cyc) (x : ℕ) → Frees s (collect_white reclaim n s x))
          → Frees s (if not b || c then s else over round (freed_one s x) (s.children x))
      by_test false e c later = Frees-same s
      by_test true e true later = Frees-same s
      by_test true e false later =
          Frees-chain s (freed_one s x) (over round (freed_one s x) (s.children x))
            (freed_one-Frees s x ((==_iff (s.marks.colour x) white).0 e))
            (over-keeps Frees round Frees-same Frees-chain (round-Frees later) (freed_one s x)
              (s.children x))

  pub roots-Frees : (n : ℕ) (s : Cyc) (xs : List ℕ) → Frees s (over (collect_white reclaim n) s xs)
  roots-Frees n s xs =
      over-keeps Frees (collect_white reclaim n) Frees-same Frees-chain (collect_white-Frees n) s xs
