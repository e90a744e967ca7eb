-- ===== src/Quote/Tests.antt =====
-- Quoting at concrete arguments.
use prismio.Base.{ℕ, ◌≡◌, refl, List, [], ◌∷◌}
use prismio.Quote.{command_quote_arg, windows_quote_arg, command_line}
use prismio.Quote.Line.{IsRead}
use prismio.Quote.Program.{program_read, command_line-IsRead}

-- a"$\
abbrev text : List ℕ
text = 97 ∷ 34 ∷ 36 ∷ 92 ∷ []

posix : command_quote_arg text ≡ 34 ∷ 97 ∷ 92 ∷ 34 ∷ 92 ∷ 36 ∷ 92 ∷ 92 ∷ 34 ∷ []
unfolding command_quote_arg
posix = refl

windows : windows_quote_arg text ≡ 34 ∷ 97 ∷ 92 ∷ 34 ∷ 36 ∷ 92 ∷ 92 ∷ 34 ∷ []
unfolding windows_quote_arg
windows = refl

-- py "-3 x" "" is what a program, an argument with a blank and an empty one give.
line :
    command_line (112 ∷ 121 ∷ []) ((45 ∷ 51 ∷ 32 ∷ 120 ∷ []) ∷ [] ∷ [])
    ≡ 112 ∷ 121 ∷ 32 ∷ 34 ∷ 45 ∷ 51 ∷ 32 ∷ 120 ∷ 34 ∷ 32 ∷ 34 ∷ 34 ∷ []
unfolding command_line
line = refl

command_line-IsRead_example :
    (rest : List ℕ) × (program_read (command_line (97 ∷ 92 ∷ 32 ∷ 98 ∷ []) (text ∷ [] ∷ []))
      ≡ (97 ∷ 92 ∷ 32 ∷ 98 ∷ [], rest))
    × IsRead rest (text ∷ [] ∷ [])
command_line-IsRead_example =
    command_line-IsRead (97 ∷ 92 ∷ 32 ∷ 98 ∷ []) (text ∷ [] ∷ []) refl refl
