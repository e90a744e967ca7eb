-- ===== src/Quote/Program.antt =====
-- The program's name on a command line of Windows: the first argument has a rule of its own.
use prismio.Base.{
  ℕ, suc, ◌≡◌, ◌⊎◌, inl, inr, refl, sym, ap, ◌∙◌, Bool, true, false, not, ◌&&◌, Bool-cases, List,
  [], ◌∷◌, ◌++◌, append_assoc, arith, ◌==◌, leb, if◌then◌else◌, replicate,
}
use prismio.Quote.{
  quote, backslash, quote_from, windows_quote_arg, needs_quotes, any_breaks, spawn_quote,
  command_tail, command_line,
}
use prismio.Quote.Laws.{replicate-suc}
use prismio.Quote.Line.{Ends, IsRead, command_tail-Ends, command_tail-IsRead}

-- Behind an opening quote the name goes up to the next quote, whatever backslashes it holds.
unfoldable pub to_quote : List ℕ → List ℕ × List ℕ
to_quote [] = ([], [])
to_quote (c ∷ cs) = let rest = to_quote cs in if c == quote then ([], cs) else (c ∷ rest.0, rest.1)

-- A name without an opening quote goes up to a blank or a control character.
unfoldable pub to_blank : List ℕ → List ℕ × List ℕ
to_blank [] = ([], [])
to_blank (c ∷ cs) =
    let rest = to_blank cs in if leb c 32 then ([], c ∷ cs) else (c ∷ rest.0, rest.1)

-- The first argument, as CommandLineToArgvW reads it.
unfoldable pub program_read : List ℕ → List ℕ × List ℕ
unfolding to_quote to_blank
program_read [] = ([], [])
program_read (c ∷ cs) = if c == quote then to_quote cs else to_blank (c ∷ cs)

-- No quote and no control character, as in every file name of Windows.
abbrev pub file_name : List ℕ → Bool
file_name [] = true
file_name (c ∷ cs) = not (c == quote) && leb 32 c && file_name cs

abbrev pub ends_backslash : List ℕ → Bool
ends_backslash [] = false
ends_backslash (c ∷ []) = c == backslash
ends_backslash (c ∷ d ∷ cs) = ends_backslash (d ∷ cs)

-- Such a name is quoted as it is, behind the backslashes that wait.
quote_from-name :
    (s c : ℕ) (cs : List ℕ)
    → file_name (c ∷ cs) ≡ true
    → ends_backslash (c ∷ cs) ≡ false
    → quote_from s (c ∷ cs) ≡ replicate s backslash ++ (c ∷ cs)
unfolding quote_from
quote_from-name s c [] f e =
    let plain : (c == backslash) ≡ false = e in
    let no_quote : (c == quote) ≡ false = ground arith in rw (plain, no_quote) refl
quote_from-name s c (d ∷ ds) f e =
    let no_quote : (c == quote) ≡ false = ground arith in
    let more : file_name (d ∷ ds) ≡ true = ground arith in
    by_char no_quote (quote_from-name (suc s) d ds more e) (quote_from-name 0 d ds more e)
      (Bool-cases (c == backslash))
  where
    by_char :
        (c == quote) ≡ false
        → quote_from (suc s) (d ∷ ds) ≡ replicate (suc s) backslash ++ (d ∷ ds)
        → quote_from 0 (d ∷ ds) ≡ d ∷ ds
        → (c == backslash) ≡ true ⊎ (c == backslash) ≡ false
        → quote_from s (c ∷ d ∷ ds) ≡ replicate s backslash ++ (c ∷ d ∷ ds)
    by_char q longer fresh (inl b) =
        let same : c ≡ backslash = ground arith in
        rw b (
          longer
          ∙ replicate-suc s backslash (d ∷ ds)
          ∙ ap (λ (x : ℕ). replicate s backslash ++ (x ∷ d ∷ ds)) (sym same))
    by_char q longer fresh (inr b) =
        rw (b, q) (ap (λ (xs : List ℕ). replicate s backslash ++ (c ∷ xs)) fresh)

quote_from-file_name :
    (program : List ℕ)
    → file_name program ≡ true
    → ends_backslash program ≡ false
    → quote_from 0 program ≡ program
unfolding quote_from
quote_from-file_name [] f e = refl
quote_from-file_name (c ∷ cs) f e = quote_from-name 0 c cs f e

to_quote-append :
    (name rest : List ℕ) → file_name name ≡ true → to_quote (name ++ (quote ∷ rest)) ≡ (name, rest)
unfolding to_quote
to_quote-append [] rest f = refl
to_quote-append (c ∷ cs) rest f =
    let no_quote : (c == quote) ≡ false = ground arith in
    let more : file_name cs ≡ true = ground arith in
    rw no_quote (ap (λ (r : List ℕ × List ℕ). (c ∷ r.0, r.1)) (to_quote-append cs rest more))

to_blank-append :
    (name rest : List ℕ)
    → file_name name ≡ true
    → any_breaks name ≡ false
    → Ends rest
    → to_blank (name ++ rest) ≡ (name, rest)
unfolding to_blank
to_blank-append [] [] f b e = refl
to_blank-append [] (c ∷ cs) f b e = let blank : leb c 32 ≡ true = ground arith in rw blank refl
to_blank-append (c ∷ cs) rest f b e =
    let visible : leb c 32 ≡ false = ground arith in
    let more : file_name cs ≡ true = ground arith in
    let unbroken : any_breaks cs ≡ false = ground arith in
    rw visible
      (ap (λ (r : List ℕ × List ℕ). (c ∷ r.0, r.1)) (to_blank-append cs rest more unbroken e))

-- However spawn_quote_into writes the name, bare or quoted, it is read back whole.
spawn_quote-program_read :
    (program rest : List ℕ)
    → file_name program ≡ true
    → ends_backslash program ≡ false
    → Ends rest
    → program_read (spawn_quote program ++ rest) ≡ (program, rest)
unfolding spawn_quote program_read windows_quote_arg
spawn_quote-program_read program rest f e end =
    by_need program f e (Bool-cases (needs_quotes program))
  where
    by_need :
        (name : List ℕ)
        → file_name name ≡ true
        → ends_backslash name ≡ false
        → needs_quotes name ≡ true ⊎ needs_quotes name ≡ false
        → program_read (spawn_quote name ++ rest) ≡ (name, rest)
    by_need name f e (inl h) =
        ap (λ (b : Bool). program_read ((if b then windows_quote_arg name else name) ++ rest)) h
        ∙ ap to_quote (append_assoc (quote_from 0 name) (quote ∷ []) rest)
        ∙ ap (λ (xs : List ℕ). to_quote (xs ++ (quote ∷ rest))) (quote_from-file_name name f e)
        ∙ to_quote-append name rest f
    by_need [] f e (inr h) = absurd (ground arith)
    by_need (c ∷ cs) f e (inr h) =
        let no_quote : (c == quote) ≡ false = ground arith in
        ap (λ (b : Bool). program_read ((if b then windows_quote_arg (c ∷ cs) else c ∷ cs) ++ rest))
          h
        ∙ ap (λ (b : Bool). if b then to_quote (cs ++ rest) else to_blank (c ∷ cs ++ rest)) no_quote
        ∙ to_blank-append (c ∷ cs) rest f h end

-- From the command line of a program and its arguments the rules of CommandLineToArgvW, that of the
-- first argument and that of the others, read the program and then exactly those arguments, in
-- order. The program's name holds no quote and no control character, and does not end in a
-- backslash.
pub command_line-IsRead :
    (program : List ℕ) (args : List (List ℕ))
    → file_name program ≡ true
    → ends_backslash program ≡ false
    → (rest : List ℕ) × (program_read (command_line program args) ≡ (program, rest))
      × IsRead rest args
unfolding command_line
command_line-IsRead program args f e = (
  command_tail args,
  spawn_quote-program_read program (command_tail args) f e (command_tail-Ends args),
  command_tail-IsRead args,
)
