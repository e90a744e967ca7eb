-- ===== src/LineReader/Tests.antt =====
-- The reader at concrete inputs.
use prismio.Base.{ℕ, ◌≡◌, refl, true, false, Option, none, some, List, [], ◌∷◌, arith}
use prismio.Base.Int.{pos}
use prismio.LineReader.{
  LineReader, interrupted, bytes, Source, empty_reader, take_line, take_bytes, read_all,
}
use prismio.LineReader.Fill.{ahead}
use prismio.LineReader.Laws.{
  next_line, IsReader, take_line-next_line, take_bytes-take, read_all-ahead,
}

-- "ab\r" and "\n\nc", with an interrupted read between them.
abbrev source : Source
source = bytes (97 ∷ 98 ∷ 13 ∷ []) ∷ interrupted ∷ bytes (10 ∷ 10 ∷ 99 ∷ []) ∷ []

abbrev lines3 :
    Option (List ℕ × LineReader × Source)
    → (LineReader → Source → Option (List ℕ × LineReader × Source))
    → Option (List ℕ × LineReader × Source)
lines3 o next = elim o [ none ↦ none | some (line, r, src) ↦ next r src ]

abbrev handed : Option (List ℕ × LineReader × Source) → List ℕ
handed o = elim o [ none ↦ 255 ∷ [] | some g ↦ g.0 ]

first_line : handed (take_line true empty_reader source) ≡ 97 ∷ 98 ∷ []
unfolding take_line
first_line = refl

empty_line : handed (lines3 (take_line true empty_reader source) (take_line true)) ≡ []
unfolding take_line
empty_line = refl

last_line :
    handed (lines3 (lines3 (take_line true empty_reader source) (take_line true)) (take_line true))
    ≡ 99 ∷ []
unfolding take_line
last_line = refl

no_memory : handed (take_line false empty_reader source) ≡ []
unfolding take_line
no_memory = refl

empty-IsReader : IsReader empty_reader source
empty-IsReader = record { start_in = omega arith; pending = λ h. absurd (ground arith) }

take_line-next_line_example :
    (line : List ℕ) × (r' : LineReader) × (src' : Source) × (take_line true empty_reader source
      ≡ some (line, r', src'))
    × ((line, ahead r' src') ≡ next_line (97 ∷ 98 ∷ 13 ∷ 10 ∷ 10 ∷ 99 ∷ []))
    × IsReader r' src'
take_line-next_line_example = take_line-next_line empty_reader source empty-IsReader

take_bytes-take_example :
    (r' : LineReader) × (src' : Source) × (take_bytes true empty_reader source (pos 4)
      ≡ some (97 ∷ 98 ∷ 13 ∷ 10 ∷ [], r', src'))
    × (ahead r' src' ≡ 10 ∷ 99 ∷ [])
    × IsReader r' src'
take_bytes-take_example = take_bytes-take empty_reader source (pos 4) empty-IsReader

read_all-ahead_example :
    (r' : LineReader) × (src' : Source) × (read_all true empty_reader source
      ≡ some (97 ∷ 98 ∷ 13 ∷ 10 ∷ 10 ∷ 99 ∷ [], r', src'))
    × (ahead r' src' ≡ [])
read_all-ahead_example = read_all-ahead empty_reader source empty-IsReader
