-- ===== src/Quote/Line.antt =====
-- The arguments of a command line of Windows: how they are read back.
use prismio.Base.{
  ℕ, ◌≡◌, ◌⊎◌, inl, inr, refl, ap, ◌∙◌, Bool, true, false, ◌||◌, Bool-cases, Option, none, some,
  List, [], ◌∷◌, ◌++◌, arith, ◌==◌, if◌then◌else◌,
}
use prismio.Quote.{quote, windows_quote_arg, needs_quotes, any_breaks, spawn_quote, command_tail}
use prismio.Quote.Laws.{before, argv_read, windows_quote_arg-argv_read}

-- An argument that does not begin with a quote: up to a blank or the end. A quote inside is refused.
unfoldable pub bare_read : List ℕ → Option (List ℕ × List ℕ)
bare_read [] = some ([], [])
bare_read (c ∷ cs) =
    let rest = bare_read cs in
    if (c == 32) || (c == 9)
    then some ([], c ∷ cs)
    else if c == quote
    then none
    else before (c ∷ []) rest

-- One argument behind the first, as CommandLineToArgvW reads it.
unfoldable pub arg_read : List ℕ → Option (List ℕ × List ℕ)
unfolding bare_read
arg_read [] = none
arg_read (c ∷ cs) = if c == quote then argv_read 0 cs else bare_read (c ∷ cs)

-- What may follow an argument: nothing, or a blank and more.
abbrev pub Ends : List ℕ → Type 0
Ends [] = Unit {0}
Ends (c ∷ cs) = c ≡ 32

bare_read-append :
    (arg rest : List ℕ)
    → any_breaks arg ≡ false
    → Ends rest
    → bare_read (arg ++ rest) ≡ some (arg, rest)
unfolding bare_read
bare_read-append [] [] h e = refl
bare_read-append [] (c ∷ cs) h e = let blank : (c == 32) ≡ true = ground arith in rw blank refl
bare_read-append (c ∷ cs) rest h e =
    let no_blank : (c == 32) ≡ false = ground arith in
    let no_tab : (c == 9) ≡ false = ground arith in
    let no_quote : (c == quote) ≡ false = ground arith in
    let more : any_breaks cs ≡ false = ground arith in
    rw (no_blank, no_tab, no_quote) (ap (before (c ∷ [])) (bare_read-append cs rest more e))

-- However spawn_quote_into writes an argument, bare or quoted, it is read back whole, and what
-- follows it on the line is left.
pub spawn_quote-arg_read :
    (arg rest : List ℕ) → Ends rest → arg_read (spawn_quote arg ++ rest) ≡ some (arg, rest)
unfolding spawn_quote arg_read
spawn_quote-arg_read arg rest e = by_need arg (Bool-cases (needs_quotes arg))
  where
    by_need :
        (arg : List ℕ)
        → needs_quotes arg ≡ true ⊎ needs_quotes arg ≡ false
        → arg_read (spawn_quote arg ++ rest) ≡ some (arg, rest)
    by_need arg (inl h) =
        let w = windows_quote_arg-argv_read arg rest in
        ap (λ (b : Bool). arg_read ((if b then windows_quote_arg arg else arg) ++ rest)) h
        ∙ ap arg_read w.1
        ∙ w.2
    by_need [] (inr h) = absurd (ground arith)
    by_need (c ∷ cs) (inr h) =
        let no_quote : (c == quote) ≡ false = ground arith in
        ap (λ (b : Bool). arg_read ((if b then windows_quote_arg (c ∷ cs) else c ∷ cs) ++ rest)) h
        ∙ ap (λ (b : Bool). if b then argv_read 0 (cs ++ rest) else bare_read (c ∷ cs ++ rest))
            no_quote
        ∙ bare_read-append (c ∷ cs) rest h e

-- The arguments of a line, each read after a blank.
abbrev pub IsRead : List ℕ → List (List ℕ) → Type 0
IsRead line [] = line ≡ []
IsRead line (arg ∷ args) =
    (word : List ℕ) × (rest : List ℕ) × (line ≡ 32 ∷ word)
    × (arg_read word ≡ some (arg, rest))
    × IsRead rest args

pub command_tail-Ends : (args : List (List ℕ)) → Ends (command_tail args)
unfolding command_tail
command_tail-Ends [] = tt
command_tail-Ends (arg ∷ args) = refl

pub command_tail-IsRead : (args : List (List ℕ)) → IsRead (command_tail args) args
unfolding command_tail
command_tail-IsRead [] = refl
command_tail-IsRead (arg ∷ args) = (
  spawn_quote arg ++ command_tail args,
  command_tail args,
  refl,
  spawn_quote-arg_read arg (command_tail args) (command_tail-Ends args),
  command_tail-IsRead args,
)
