-- ===== src/Base/Find.antt =====
-- The search for a byte in a run of bytes, as memchr makes it.
use Prim.Native.Nat.{ℕ, zero, suc, ◌+◌, ◌<◌}
use mathlib.Core.Path.{◌≡◌, ap, ◌∙◌}
use mathlib.Core.Logic.{◌≢◌, inl, inr}
use mathlib.Core.Option.{Option, none, some}
use mathlib.Core.List.{List, [], ◌∷◌, ◌++◌}
use native.Mathlib.Omega.{arith}
use prismio.Base.Tests.{◌==◌, if◌then◌else◌, Bool-cases, Option-cases}
use prismio.Base.Lists.{length, get_or}

-- memchr: how far into the bytes the first such byte is.
unfoldable pub find : ℕ → List ℕ → Option ℕ
find byte [] = none
find byte (x ∷ xs) =
    let rest = find byte xs in
    if x == byte then some 0 else elim rest [ none ↦ none | some i ↦ some (suc i) ]

pub find-some :
    (b : ℕ) (xs : List ℕ) (i : ℕ)
    → find b xs ≡ some i
    → (i < length xs) × (get_or xs i 0 ≡ b) × ((j : ℕ) → j < i → get_or xs j 0 ≢ b)
unfolding find
find-some b [] i e = absurd (ground arith)
find-some b (x ∷ xs) i e = elim (Bool-cases (x == b)) [
  | inl h ↦
      let zero_i : i ≡ 0 = ground arith in
      let x_eq : x ≡ b = ground arith in
      (omega arith, ap (λ (k : ℕ). get_or (x ∷ xs) k 0) zero_i ∙ x_eq, λ j lt. absurd (omega arith))
  | inr h ↦ elim (Option-cases (find b xs)) [
    | inl none_left ↦ absurd (ground arith)
    | inr found ↦
        let k = found.0 in
        let rest = find-some b xs k found.1 in
        let e' : i ≡ suc k = ground arith in
        let ne : x ≢ b = ground arith in
        (
          omega (arith, e', rest.0),
          ap (λ (n : ℕ). get_or (x ∷ xs) n 0) e' ∙ rest.1,
          λ j lt. earlier k rest.2 ne j (omega (arith, e')),
        )
  ]
]
  where
    earlier :
        (k : ℕ)
        → ((j : ℕ) → j < k → get_or xs j 0 ≢ b)
        → x ≢ b
        → (j : ℕ) → j < suc k
        → get_or (x ∷ xs) j 0 ≢ b
    earlier k before ne zero lt = ne
    earlier k before ne (suc j) lt = before j (omega arith)

pub find-none :
    (b : ℕ) (xs : List ℕ) → find b xs ≡ none → (j : ℕ) → j < length xs → get_or xs j 0 ≢ b
unfolding find
find-none b [] e j lt = absurd (omega arith)
find-none b (x ∷ xs) e zero lt = ground arith
find-none b (x ∷ xs) e (suc j) lt = find-none b xs (ground arith) j (omega arith)

-- Where a run of bytes has none, the search goes on behind it.
pub find-append_none :
    (b : ℕ) (xs ys : List ℕ) → find b xs ≡ none → find b ys ≡ none → find b (xs ++ ys) ≡ none
unfolding find
find-append_none b [] ys e h = h
find-append_none b (x ∷ xs) ys e h = ground (arith, find-append_none b xs ys)

pub find-append_some :
    (b : ℕ) (xs ys : List ℕ) (i : ℕ)
    → find b xs ≡ none
    → find b ys ≡ some i
    → find b (xs ++ ys) ≡ some (length xs + i)
unfolding find
find-append_some b [] ys i e h = h ∙ ap some (omega arith)
find-append_some b (x ∷ xs) ys i e h = ground (arith, find-append_some b xs ys i)

-- What it finds in a run it finds whatever follows.
pub find-append_front :
    (b : ℕ) (xs ys : List ℕ) (i : ℕ) → find b xs ≡ some i → find b (xs ++ ys) ≡ some i
unfolding find
find-append_front b [] ys i e = absurd (ground arith)
find-append_front b (x ∷ xs) ys i e = elim (Bool-cases (x == b)) [
  | inl h ↦ rw h (rw h at e)
  | inr h ↦ elim (Option-cases (find b xs)) [
    | inl n ↦ absurd (ground arith)
    | inr (k, f) ↦ ground (arith, find-append_front b xs ys k f)
  ]
]
