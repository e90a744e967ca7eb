-- ===== src/Base/Count.antt =====
-- How often a number, the address of an object or of a block, is in a list.
use Prim.Native.Nat.{ℕ, ◌+◌, ◌<◌}
use mathlib.Core.Logic.{◌⊎◌}
use mathlib.Core.Path.{◌≡◌, sym, ap, ◌∙◌}
use mathlib.Core.List.{List, [], ◌∷◌, ◌++◌}
use native.Mathlib.Omega.{arith}
use prismio.Base.Lists.{take, drop, take-append-drop}
use prismio.Base.Tests.{◌==◌, if◌then◌else◌}

-- 1 where the two are the same element.
abbrev pub one_if : ℕ → ℕ → ℕ
one_if x e = if x == e then 1 else 0

-- How often `e` is in a list.
abbrev pub count : ℕ → List ℕ → ℕ
count e [] = 0
count e (x ∷ xs) = one_if x e + count e xs

pub count-append : (e : ℕ) (xs ys : List ℕ) → count e (xs ++ ys) ≡ count e xs + count e ys
count-append e [] ys = omega arith
count-append e (x ∷ xs) ys = omega (arith, count-append e xs ys)

pub count_split : (e x : ℕ) (xs : List ℕ) → 0 < count e (x ∷ xs) → (x ≡ e) ⊎ (0 < count e xs)
count_split e x xs h = ground arith

pub count_here : (e x : ℕ) (xs : List ℕ) → x ≡ e → 0 < count e (x ∷ xs)
count_here e x xs h = ground arith

pub count_later : (e x : ℕ) (xs : List ℕ) → 0 < count e xs → 0 < count e (x ∷ xs)
count_later e x xs h = omega arith

pub count-take-drop :
    (a n : ℕ) (xs : List ℕ) → count a (take n xs) + count a (drop n xs) ≡ count a xs
count-take-drop a n xs =
    sym (count-append a (take n xs) (drop n xs)) ∙ ap (count a) (take-append-drop n xs)
