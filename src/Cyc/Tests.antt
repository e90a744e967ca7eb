-- ===== src/Cyc/Tests.antt =====
-- The collector at two cycles, one of them held from outside.
use prismio.Base.{ℕ, ◌≡◌, refl, false, List, [], ◌∷◌, ◌==◌, if◌then◌else◌}
use prismio.Cyc.{Cyc, paint, alloc, set_type, retain, release, collect_now}

abbrev no_objects : Cyc
no_objects = record {
  marks = record { rc = λ x. 0; colour = λ x. 0 };
  buffered = λ x. false;
  children = λ x. [];
  candidates = [];
  allocated = 0;
  collected = 0;
  collections = 0;
  freed = [];
}

-- A freed header that shows neither grey nor white
abbrev reclaim : ℕ → Cyc → Cyc
reclaim x s = record s { marks = paint 7 s.marks x }

abbrev then_all : (Cyc → ℕ → Cyc) → Cyc → List ℕ → Cyc
then_all f s [] = s
then_all f s (x ∷ xs) = then_all f (f s x) xs

-- 1 and 2 hold each other, as do 3 and 4; 3 is held from outside as well.
abbrev linked : Cyc
linked =
    set_type
      (set_type
        (set_type (set_type (then_all alloc no_objects (1 ∷ 2 ∷ 3 ∷ 4 ∷ [])) 1 (2 ∷ [])) 2 (1 ∷ []))
        3 (4 ∷ []))
      4 (3 ∷ [])

abbrev cycles : Cyc
cycles =
    then_all (release reclaim) (then_all retain linked (1 ∷ 1 ∷ 2 ∷ 3 ∷ 3 ∷ 3 ∷ 4 ∷ []))
      (1 ∷ 3 ∷ [])

garbage_freed : (collect_now reclaim cycles).freed ≡ 2 ∷ 1 ∷ []
unfolding collect_now release retain alloc set_type
garbage_freed = refl

counts_restored : (collect_now reclaim cycles).marks.rc 3 ≡ 2
unfolding collect_now release retain alloc set_type
counts_restored = refl

abbrev outside : ℕ → ℕ
outside z = if z == 3 then 1 else 0

abbrev objects : List ℕ
objects = 1 ∷ 2 ∷ 3 ∷ 4 ∷ []
