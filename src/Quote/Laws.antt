-- ===== src/Quote/Laws.antt =====
-- What the program that reads a quoted argument makes of it.
use prismio.Base.{
  ℕ, zero, suc, ◌+◌, ◌*◌, ◌/◌, ◌%◌, ◌≡◌, ◌⊎◌, inl, inr, refl, sym, ap, ◌∙◌, Bool, true, false,
  Bool-cases, Option, none, some, List, [], ◌∷◌, ◌++◌, append_assoc, append-nil, arith, ◌==◌,
  if◌then◌else◌, replicate,
}
use prismio.Quote.{quote, backslash, is_special, quote_from, windows_quote_arg}

-- Puts a text in front of what has been read.
abbrev pub before : List ℕ → Option (List ℕ × List ℕ) → Option (List ℕ × List ℕ)
before xs none = none
before xs (some r) = some (xs ++ r.0, r.1)

-- POSIX: the rest of a word behind an opening double quote, up to the closing one, and what follows
-- it; the flag is whether a backslash was read. A backslash goes before the special characters,
-- stays before others, and goes with a newline. A `$` or a backquote that no backslash precedes
-- would expand, and is refused here.
unfoldable pub sh_read : Bool → List ℕ → Option (List ℕ × List ℕ)
sh_read escaped [] = none
sh_read true (c ∷ cs) =
    let rest = sh_read false cs in
    if is_special c
    then before (c ∷ []) rest
    else if c == 10
    then rest
    else before (backslash ∷ c ∷ []) rest
sh_read false (c ∷ cs) =
    let plain = sh_read false cs in
    let after = sh_read true cs in
    if c == quote
    then some ([], cs)
    else if c == backslash
    then after
    else if is_special c
    then none
    else before (c ∷ []) plain

-- Windows: the rest of an argument behind an opening quote, after a run of backslashes. Before a
-- quote two backslashes are one, and one left over makes the quote literal; elsewhere they are
-- themselves.
unfoldable pub argv_read : ℕ → List ℕ → Option (List ℕ × List ℕ)
argv_read slashes [] = none
argv_read slashes (c ∷ cs) =
    let longer = argv_read (suc slashes) cs in
    let fresh = argv_read 0 cs in
    if c == backslash
    then longer
    else if c == quote
    then (if slashes % 2 == 0
        then some (replicate (slashes / 2) backslash, cs)
        else before (replicate (slashes / 2) backslash ++ (quote ∷ [])) fresh)
    else before (replicate slashes backslash ++ (c ∷ [])) fresh

argv_read-slashes :
    (t k : ℕ) (xs : List ℕ) → argv_read t (replicate k backslash ++ xs) ≡ argv_read (t + k) xs
unfolding argv_read
argv_read-slashes t zero xs = ap (λ (n : ℕ). argv_read n xs) (omega arith)
argv_read-slashes t (suc k) xs =
    argv_read-slashes (suc t) k xs ∙ ap (λ (n : ℕ). argv_read n xs) (omega arith)

argv_read-run : (k : ℕ) (xs : List ℕ) → argv_read 0 (replicate k backslash ++ xs) ≡ argv_read k xs
argv_read-run k xs = argv_read-slashes 0 k xs ∙ ap (λ (n : ℕ). argv_read n xs) (omega arith)

pub replicate-suc : (n c : ℕ) (xs : List ℕ) → replicate (suc n) c ++ xs ≡ replicate n c ++ (c ∷ xs)
replicate-suc zero c xs = refl
replicate-suc (suc n) c xs = ap (◌∷◌ c) (replicate-suc n c xs)

quote_from-read :
    (s : ℕ) (arg rest : List ℕ)
    → argv_read 0 (quote_from s arg ++ (quote ∷ rest)) ≡ some (replicate s backslash ++ arg, rest)
unfolding quote_from argv_read
quote_from-read s [] rest =
    let even : ((s * 2) % 2 == 0) ≡ true = ground arith in
    let half : s * 2 / 2 ≡ s = omega arith in
    argv_read-run (s * 2) (quote ∷ rest)
    ∙ rw (even, half)
        (ap (λ (xs : List ℕ). some (xs, rest)) (sym (append-nil (replicate s backslash))))
quote_from-read s (c ∷ cs) rest =
    by_char (quote_from-read (suc s) cs rest) (quote_from-read 0 cs rest)
      (Bool-cases (c == backslash)) (Bool-cases (c == quote))
  where
    Read : Type 0
    Read =
        argv_read 0 (quote_from s (c ∷ cs) ++ (quote ∷ rest))
        ≡ some (replicate s backslash ++ (c ∷ cs), rest)

    by_char :
        argv_read 0 (quote_from (suc s) cs ++ (quote ∷ rest))
          ≡ some (replicate (suc s) backslash ++ cs, rest)
        → argv_read 0 (quote_from 0 cs ++ (quote ∷ rest)) ≡ some (cs, rest)
        → (c == backslash) ≡ true ⊎ (c == backslash) ≡ false
        → (c == quote) ≡ true ⊎ (c == quote) ≡ false
        → Read
    by_char longer fresh (inl b) q =
        let e : c ≡ backslash = ground arith in
        rw b (
          longer
          ∙ ap (λ (xs : List ℕ). some (xs, rest))
              (replicate-suc s backslash cs
                ∙ ap (λ (d : ℕ). replicate s backslash ++ (d ∷ cs)) (sym e)))
    by_char longer fresh (inr b) (inl q) =
        let e : c ≡ quote = ground arith in
        let odd : ((s * 2 + 1) % 2 == 0) ≡ false = ground arith in
        let half : (s * 2 + 1) / 2 ≡ s = omega arith in
        rw (b, q)
          (ap (argv_read 0)
              (append_assoc (replicate (s * 2 + 1) backslash) (c ∷ quote_from 0 cs) (quote ∷ rest))
            ∙ argv_read-run (s * 2 + 1) (c ∷ quote_from 0 cs ++ (quote ∷ rest))
            ∙ rw (b, q, odd, half)
                (ap (before (replicate s backslash ++ (quote ∷ []))) fresh
                  ∙ ap (λ (xs : List ℕ). some (xs, rest))
                      (append_assoc (replicate s backslash) (quote ∷ []) cs
                        ∙ ap (λ (d : ℕ). replicate s backslash ++ (d ∷ cs)) (sym e))))
    by_char longer fresh (inr b) (inr q) =
        rw (b, q)
          (ap (argv_read 0)
              (append_assoc (replicate s backslash) (c ∷ quote_from 0 cs) (quote ∷ rest))
            ∙ argv_read-run s (c ∷ quote_from 0 cs ++ (quote ∷ rest))
            ∙ rw (b, q)
                (ap (before (replicate s backslash ++ (c ∷ []))) fresh
                  ∙ ap (λ (xs : List ℕ). some (xs, rest))
                      (append_assoc (replicate s backslash) (c ∷ []) cs)))

-- Behind the opening quote of a quoted argument of Windows, the rule of CommandLineToArgvW reads the
-- argument, and goes on behind the closing quote.
pub windows_quote_arg-argv_read :
    (arg rest : List ℕ)
    → (word : List ℕ) × (windows_quote_arg arg ++ rest ≡ quote ∷ word)
      × (argv_read 0 word ≡ some (arg, rest))
unfolding windows_quote_arg
windows_quote_arg-argv_read arg rest = (
  quote_from 0 arg ++ (quote ∷ rest),
  ap (◌∷◌ quote) (append_assoc (quote_from 0 arg) (quote ∷ []) rest),
  quote_from-read 0 arg rest,
)
