-- ===== src/Quote.antt =====
-- runtime/program_support.c: an argument quoted for a command line. A text is its bytes, none of
-- them zero. The buffers are as long as the bounds that the source computes for them, and there is
-- memory.
pub mod Laws
pub mod Line
pub mod Program
mod Tests
use prismio.Base.{
  ℕ, zero, suc, ◌+◌, ◌*◌, Bool, true, false, ◌||◌, List, [], ◌∷◌, ◌++◌, ◌==◌, if◌then◌else◌,
  replicate,
}

abbrev pub quote : ℕ
quote = 34

abbrev pub backslash : ℕ
backslash = 92

-- '"', '\\', '$' and '`'
abbrev pub is_special : ℕ → Bool
is_special c = (c == quote) || (c == backslash) || (c == 36) || (c == 96)

-- The loop of command_quote_arg where the shell is POSIX.
unfoldable pub escape : List ℕ → List ℕ
escape [] = []
escape (c ∷ cs) = let rest = escape cs in if is_special c then backslash ∷ c ∷ rest else c ∷ rest

-- command_quote_arg, POSIX
unfoldable pub command_quote_arg : List ℕ → List ℕ
unfolding escape
command_quote_arg arg = quote ∷ escape arg ++ (quote ∷ [])

-- The loop that Windows needs, in command_quote_arg and in spawn_quote_into, after a run of
-- `slashes` backslashes: they are doubled before a quote and at the end, and literal elsewhere.
unfoldable pub quote_from : ℕ → List ℕ → List ℕ
quote_from slashes [] = replicate (slashes * 2) backslash
quote_from slashes (c ∷ cs) =
    let longer = quote_from (suc slashes) cs in
    let fresh = quote_from 0 cs in
    if c == backslash
    then longer
    else if c == quote
    then replicate (slashes * 2 + 1) backslash ++ (c ∷ fresh)
    else replicate slashes backslash ++ (c ∷ fresh)

-- command_quote_arg, Windows
unfoldable pub windows_quote_arg : List ℕ → List ℕ
unfolding quote_from
windows_quote_arg arg = quote ∷ quote_from 0 arg ++ (quote ∷ [])

-- ' ', '\t', '\n', '\v' and '"'
abbrev pub breaks : ℕ → Bool
breaks c = (c == 32) || (c == 9) || (c == 10) || (c == 11) || (c == quote)

abbrev pub any_breaks : List ℕ → Bool
any_breaks [] = false
any_breaks (c ∷ cs) = breaks c || any_breaks cs

abbrev pub needs_quotes : List ℕ → Bool
needs_quotes [] = true
needs_quotes (c ∷ cs) = any_breaks (c ∷ cs)

-- spawn_quote_into: what it appends.
unfoldable pub spawn_quote : List ℕ → List ℕ
unfolding windows_quote_arg
spawn_quote arg = if needs_quotes arg then windows_quote_arg arg else arg

-- spawn_command_line
unfoldable pub command_tail : List (List ℕ) → List ℕ
unfolding spawn_quote
command_tail [] = []
command_tail (arg ∷ args) = 32 ∷ (spawn_quote arg ++ command_tail args)

unfoldable pub command_line : List ℕ → List (List ℕ) → List ℕ
unfolding spawn_quote command_tail
command_line program args = spawn_quote program ++ command_tail args
