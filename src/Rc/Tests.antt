-- ===== src/Rc/Tests.antt =====
-- A split object with two holders.
use prismio.Base.{ℕ, ◌≡◌, refl, List, [], ◌∷◌, arith}
use prismio.Rc.{Counts, alloc, attach_cold, retain, release}
use prismio.Rc.Laws.{Op, retains, releases, run, holders_after, IsScript, run-let_go}

abbrev nothing : Counts
nothing = record { count = λ p. 0; cold = λ p. 0; word = λ a. 0; freed = [] }

-- The payload is at 64, the cold block at 4096, and the link to it 8 bytes in.
abbrev split : Counts
split = attach_cold (alloc nothing 48).1 64 8 4096

abbrev nobody : ℕ → ℕ
nobody p = 0

abbrev two_holders : List Op
two_holders = retains 64 ∷ retains 64 ∷ releases 64 ∷ releases 64 ∷ []

cold_first : (run split two_holders).freed ≡ 48 ∷ 4096 ∷ []
unfolding alloc attach_cold retain release
cold_first = refl

unheld : (p : ℕ) → split.count p ≡ nobody p
unfolding alloc attach_cold
unheld p = ground arith

two_holders-IsScript : IsScript nobody two_holders
two_holders-IsScript = (
  omega arith,
  omega arith,
  (omega arith, omega arith, (omega arith, omega arith, (omega arith, omega arith, tt))),
)

run-let_go_example :
    ((p : ℕ) → (run split two_holders).count p ≡ holders_after nobody two_holders p)
    × ((run split two_holders).freed ≡ 48 ∷ 4096 ∷ [])
unfolding alloc attach_cold
run-let_go_example = run-let_go two_holders split nobody unheld two_holders-IsScript
