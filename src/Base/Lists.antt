-- ===== src/Base/Lists.antt =====
-- Lists measured and indexed by native numbers, under the library's names: the blocks of memory of
-- the runtime.
use Prim.Native.Nat.{ℕ, zero, suc, ◌+◌, ◌-◌, ◌<◌, ◌≤◌, min}
use mathlib.Core.Path.{◌≡◌, refl, sym, ap, ◌∙◌}
use mathlib.Core.Logic.{◌≢◌}
use mathlib.Core.List.{List, [], ◌∷◌, ◌++◌}
use mathlib.Core.Option.{Option, none, some}
use native.Mathlib.Omega.{arith}

module _ {ℓ} {A : Type ℓ} where
  abbrev pub length : List A → ℕ
  length [] = 0
  length (x ∷ xs) = suc (length xs)

  abbrev pub get_elem? : List A → ℕ → Option A
  get_elem? [] i = none
  get_elem? (x ∷ xs) zero = some x
  get_elem? (x ∷ xs) (suc i) = get_elem? xs i

  -- A write out of bounds changes nothing.
  abbrev pub set : List A → ℕ → A → List A
  set [] i v = []
  set (x ∷ xs) zero v = v ∷ xs
  set (x ∷ xs) (suc i) v = x ∷ set xs i v

  abbrev pub get_or : List A → ℕ → A → A
  get_or [] i d = d
  get_or (x ∷ xs) zero d = x
  get_or (x ∷ xs) (suc i) d = get_or xs i d

  abbrev pub take : ℕ → List A → List A
  take zero xs = []
  take (suc n) [] = []
  take (suc n) (x ∷ xs) = x ∷ take n xs

  abbrev pub drop : ℕ → List A → List A
  drop zero xs = xs
  drop (suc n) [] = []
  drop (suc n) (x ∷ xs) = drop n xs

  abbrev pub replicate : ℕ → A → List A
  replicate zero a = []
  replicate (suc n) a = a ∷ replicate n a

  pub length-append : (xs ys : List A) → length (xs ++ ys) ≡ length xs + length ys
  length-append [] ys = omega arith
  length-append (x ∷ xs) ys = omega (arith, length-append xs ys)

  pub length-set : (xs : List A) (i : ℕ) (v : A) → length (set xs i v) ≡ length xs
  length-set [] i v = refl
  length-set (x ∷ xs) zero v = refl
  length-set (x ∷ xs) (suc i) v = ap suc (length-set xs i v)

  pub length-take : (n : ℕ) (xs : List A) → length (take n xs) ≡ min n (length xs)
  length-take zero xs = omega arith
  length-take (suc n) [] = omega arith
  length-take (suc n) (x ∷ xs) = omega (arith, length-take n xs)

  pub length-drop : (n : ℕ) (xs : List A) → length (drop n xs) ≡ length xs - n
  length-drop zero xs = omega arith
  length-drop (suc n) [] = omega arith
  length-drop (suc n) (x ∷ xs) = omega (arith, length-drop n xs)

  pub length-replicate : (n : ℕ) (a : A) → length (replicate n a) ≡ n
  length-replicate zero a = refl
  length-replicate (suc n) a = ap suc (length-replicate n a)

  pub get_or-set_self :
      (xs : List A) (i : ℕ) (v d : A) → i < length xs → get_or (set xs i v) i d ≡ v
  get_or-set_self [] i v d h = absurd (omega arith)
  get_or-set_self (x ∷ xs) zero v d h = refl
  get_or-set_self (x ∷ xs) (suc i) v d h = get_or-set_self xs i v d (omega arith)

  pub get_or-set_ne :
      (xs : List A) {i j : ℕ} (v d : A) → i ≢ j → get_or (set xs i v) j d ≡ get_or xs j d
  get_or-set_ne [] v d h = refl
  get_or-set_ne (x ∷ xs) {i = zero} {j = zero} v d h = absurd (h refl)
  get_or-set_ne (x ∷ xs) {i = zero} {j = suc j} v d h = refl
  get_or-set_ne (x ∷ xs) {i = suc i} {j = zero} v d h = refl
  get_or-set_ne (x ∷ xs) {i = suc i} {j = suc j} v d h = get_or-set_ne xs v d (λ e. h (ap suc e))

  pub take-append-drop : (n : ℕ) (xs : List A) → take n xs ++ drop n xs ≡ xs
  take-append-drop zero xs = refl
  take-append-drop (suc n) [] = refl
  take-append-drop (suc n) (x ∷ xs) = ap (◌∷◌ x) (take-append-drop n xs)

  -- Writing at the end of a prefix extends the prefix by what is written.
  pub take-set_end :
      (xs : List A) (n : ℕ) (v : A)
      → n < length xs
      → take (suc n) (set xs n v) ≡ take n xs ++ (v ∷ [])
  take-set_end [] n v h = absurd (omega arith)
  take-set_end (x ∷ xs) zero v h = refl
  take-set_end (x ∷ xs) (suc n) v h = ap (◌∷◌ x) (take-set_end xs n v (omega arith))

  pub take-set : (xs : List A) (n i : ℕ) (v : A) → take n (set xs i v) ≡ set (take n xs) i v
  take-set xs zero i v = refl
  take-set [] (suc n) i v = refl
  take-set (x ∷ xs) (suc n) zero v = refl
  take-set (x ∷ xs) (suc n) (suc i) v = ap (◌∷◌ x) (take-set xs n i v)

  pub take-append : (xs ys : List A) (n : ℕ) → n ≤ length xs → take n (xs ++ ys) ≡ take n xs
  take-append xs ys zero h = refl
  take-append [] ys (suc n) h = absurd (omega arith)
  take-append (x ∷ xs) ys (suc n) h = ap (◌∷◌ x) (take-append xs ys n (omega arith))

  pub take-length : (xs : List A) → take (length xs) xs ≡ xs
  take-length [] = refl
  take-length (x ∷ xs) = ap (◌∷◌ x) (take-length xs)

  pub take-take : (xs : List A) (m n : ℕ) → m ≤ n → take m (take n xs) ≡ take m xs
  take-take xs zero n h = refl
  take-take [] (suc m) zero h = refl
  take-take [] (suc m) (suc n) h = refl
  take-take (x ∷ xs) (suc m) zero h = absurd (omega arith)
  take-take (x ∷ xs) (suc m) (suc n) h = ap (◌∷◌ x) (take-take xs m n (omega arith))

  pub get_or-take : (xs : List A) (n i : ℕ) (d : A) → i < n → get_or (take n xs) i d ≡ get_or xs i d
  get_or-take xs zero i d h = absurd (omega arith)
  get_or-take [] (suc n) i d h = refl
  get_or-take (x ∷ xs) (suc n) zero d h = refl
  get_or-take (x ∷ xs) (suc n) (suc i) d h = get_or-take xs n i d (omega arith)

  pub take-nil : (n : ℕ) → take n [] ≡ []
  take-nil zero = refl
  take-nil (suc n) = refl

  pub take_zero : (xs : List A) (n : ℕ) → n ≡ 0 → take n xs ≡ []
  take_zero xs zero e = refl
  take_zero xs (suc n) e = absurd (omega arith)

  pub drop-take : (xs : List A) (k n : ℕ) → drop k (take n xs) ≡ take (n - k) (drop k xs)
  drop-take xs zero n = ap (λ m. take m xs) (omega arith)
  drop-take [] (suc k) zero = sym (take-nil (0 - suc k))
  drop-take [] (suc k) (suc n) = sym (take-nil (suc n - suc k))
  drop-take (x ∷ xs) (suc k) zero = sym (take_zero (drop k xs) (0 - suc k) (omega arith))
  drop-take (x ∷ xs) (suc k) (suc n) = drop-take xs k n ∙ ap (λ m. take m (drop k xs)) (omega arith)

  -- The front part of an append, by its length.
  pub take-append_front : (xs ys : List A) (n : ℕ) → n ≡ length xs → take n (xs ++ ys) ≡ xs
  take-append_front [] ys zero e = refl
  take-append_front [] ys (suc n) e = absurd (omega arith)
  take-append_front (x ∷ xs) ys zero e = absurd (omega arith)
  take-append_front (x ∷ xs) ys (suc n) e = ap (◌∷◌ x) (take-append_front xs ys n (omega arith))

  pub take_of_le : (xs : List A) (n : ℕ) → length xs ≤ n → take n xs ≡ xs
  take_of_le [] n h = take-nil n
  take_of_le (x ∷ xs) zero h = absurd (omega arith)
  take_of_le (x ∷ xs) (suc n) h = ap (◌∷◌ x) (take_of_le xs n (omega arith))

  pub get_or-drop : (xs : List A) (o i : ℕ) (d : A) → get_or (drop o xs) i d ≡ get_or xs (o + i) d
  get_or-drop xs zero i d = ap (λ k. get_or xs k d) (omega arith)
  get_or-drop [] (suc o) i d = refl
  get_or-drop (x ∷ xs) (suc o) i d =
      get_or-drop xs o i d ∙ ap (λ k. get_or (x ∷ xs) k d) (sym (shift o i))
    where
      shift : (a b : ℕ) → suc a + b ≡ suc (a + b)
      shift a b = omega arith

  pub get_or-append :
      (xs ys : List A) (i : ℕ) (d : A) → i < length xs → get_or (xs ++ ys) i d ≡ get_or xs i d
  get_or-append [] ys i d h = absurd (omega arith)
  get_or-append (x ∷ xs) ys zero d h = refl
  get_or-append (x ∷ xs) ys (suc i) d h = get_or-append xs ys i d (omega arith)

  pub drop-append : (xs ys : List A) (n : ℕ) → n ≤ length xs → drop n (xs ++ ys) ≡ drop n xs ++ ys
  drop-append xs ys zero h = refl
  drop-append [] ys (suc n) h = absurd (omega arith)
  drop-append (x ∷ xs) ys (suc n) h = drop-append xs ys n (omega arith)

  pub drop-nil : (n : ℕ) → drop n [] ≡ []
  drop-nil zero = refl
  drop-nil (suc n) = refl

  pub drop-drop : (xs : List A) (m n : ℕ) → drop m (drop n xs) ≡ drop (n + m) xs
  drop-drop xs m zero = ap (λ k. drop k xs) (omega arith)
  drop-drop [] m (suc n) = drop-nil m ∙ sym (drop-nil (suc n + m))
  drop-drop (x ∷ xs) m (suc n) = drop-drop xs m n ∙ ap (λ k. drop k (x ∷ xs)) (sym (shift n m))
    where
      shift : (a b : ℕ) → suc a + b ≡ suc (a + b)
      shift a b = omega arith

  pub drop_of_le : (xs : List A) (n : ℕ) → length xs ≤ n → drop n xs ≡ []
  drop_of_le [] zero h = refl
  drop_of_le [] (suc n) h = refl
  drop_of_le (x ∷ xs) zero h = absurd (omega arith)
  drop_of_le (x ∷ xs) (suc n) h = drop_of_le xs n (omega arith)

  pub drop-append_front : (xs ys : List A) (n : ℕ) → n ≡ length xs → drop n (xs ++ ys) ≡ ys
  drop-append_front xs ys n e =
      drop-append xs ys n (omega arith)
      ∙ ap (λ (zs : List A). zs ++ ys) (drop_of_le xs n (omega arith))
