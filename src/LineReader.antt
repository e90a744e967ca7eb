-- ===== src/LineReader.antt =====
-- runtime/program_support.c: the buffered reader of standard input, line by line or by a count of bytes.
--
-- The buffer is the list of the bytes that it holds, the unread ones and those before them. What the
-- descriptor answers, one read after the other, is a `Source`: an interrupted call, or bytes, none of
-- them at the end of input and on an error. A read takes no more than the room there is, and the rest
-- stays for the next. `memory` is whether the buffer can grow.
pub mod Fill
pub mod Laws
mod Tests
use prismio.Base.{
  ℕ, zero, suc, ◌+◌, ◌-◌, ◌*◌, Bool, true, false, not, ◌&&◌, ◌||◌, Option, none, some, List, [],
  ◌∷◌, ◌++◌, ◌==◌, ltb, leb, if◌then◌else◌, length, get_or, take, drop,
}
use prismio.Base.Find.{find}
use prismio.Base.Int.{ℤ, pos, negsuc, pos_part}

pub record LineReader : Type 0 where
  pub buffer : List ℕ
  pub capacity : ℕ
  pub start : ℕ
  pub line_end : ℕ
  pub next : ℕ
  pub pending : Bool
  pub eof : Bool

pub data Reply : Type 0 where
  interrupted : Reply
  bytes : List ℕ → Reply

abbrev pub Source : Type 0
Source = List Reply

abbrev pub chunk : ℕ
chunk = 65536

abbrev pub newline : ℕ
newline = 10

abbrev pub carriage_return : ℕ
carriage_return = 13

abbrev pub empty_reader : LineReader
empty_reader = record {
  buffer = [];
  capacity = 0;
  start = 0;
  line_end = 0;
  next = 0;
  pending = false;
  eof = false;
}

abbrev pub unread : LineReader → List ℕ
unread r = drop r.start r.buffer

abbrev pub unconsumed : List ℕ → Source → Source
unconsumed [] s = s
unconsumed (x ∷ xs) s = bytes (x ∷ xs) ∷ s

-- read, called again while it is interrupted
unfoldable pub read_once : Source → ℕ → List ℕ × Source
read_once [] room = ([], [])
read_once (interrupted ∷ s) room = read_once s room
read_once (bytes xs ∷ s) room = (take room xs, unconsumed (drop room xs) s)

-- The loop that doubles until there is room for a chunk.
unfoldable pub doubled : ℕ → ℕ → ℕ → ℕ
doubled zero grown end = grown
doubled (suc n) grown end =
    let more = doubled n (grown * 2) end in if ltb (grown - end) chunk then more else grown

abbrev pub grown : ℕ → ℕ → ℕ
grown capacity end = doubled (end + chunk) (if capacity == 0 then chunk else capacity * 2) end

-- line_reader_fill, from the read on: the bytes read, and what is left.
abbrev pub filled : LineReader → List ℕ × Source → ℕ × LineReader × Source
filled r ([], src) = (0, record r { eof = true }, src)
filled r (x ∷ xs, src) = (length (x ∷ xs), record r { buffer = r.buffer ++ (x ∷ xs) }, src)

-- line_reader_fill
unfoldable pub fill : Bool → LineReader → Source → ℕ × LineReader × Source
unfolding read_once doubled
fill memory r src =
    let kept = unread r in
    let end = length kept in
    let moved = record r { buffer = kept; start = 0 } in
    if r.eof
    then (0, r, src)
    else if not (ltb (r.capacity - end) chunk)
    then filled moved (read_once src (r.capacity - end))
    else if memory
    then filled (record moved { capacity = grown r.capacity end })
        (read_once src (grown r.capacity end - end))
    else (0, record moved { eof = true }, src)

-- A line that ends with the newline at `at`: one carriage return before it goes too.
abbrev pub line_at : LineReader → ℕ → LineReader
line_at r at = record r {
  line_end =
      if ltb r.start at && (get_or r.buffer (at - 1) 0 == carriage_return) then at - 1 else at;
  next = at + 1;
  pending = true;
}

-- At the end of input: a line with no terminator, if anything is there.
abbrev pub last_line : LineReader → Bool × LineReader
last_line r =
    if length r.buffer == r.start
    then (false, r)
    else (true, record r { line_end = length r.buffer; next = length r.buffer; pending = true })

-- The loop of line_reader_has_line, behind `scanned` unread bytes that hold no newline.
unfoldable pub has_line_from :
    ℕ → Bool → ℕ → LineReader → Source → Option (Bool × LineReader × Source)
unfolding find fill
has_line_from zero memory scanned r src = none
has_line_from (suc n) memory scanned r src =
    let f = fill memory r src in
    let again = has_line_from n memory (length (unread r)) f.1 f.2 in
    elim (find newline (drop scanned (unread r))) [
      | some i ↦ some (true, line_at r (r.start + scanned + i), src)
      | none ↦ if f.0 == 0 then some ((last_line f.1).0, (last_line f.1).1, f.2) else again
    ]

-- More passes than the source can make the loop take.
abbrev pub weight : Source → ℕ
weight [] = 1
weight (interrupted ∷ s) = weight s
weight (bytes xs ∷ s) = suc (length xs) + weight s

-- line_reader_has_line
unfoldable pub has_line : Bool → LineReader → Source → Option (Bool × LineReader × Source)
unfolding has_line_from
has_line memory r src =
    if r.pending then some (true, r, src) else has_line_from (suc (weight src)) memory 0 r src

abbrev pub taken : Bool × LineReader × Source → List ℕ × LineReader × Source
taken (true, r, src) =
    (take (r.line_end - r.start) (unread r), record r { start = r.next; pending = false }, src)
taken (false, r, src) = ([], r, src)

-- line_reader_take_line, and io_stdin_take_line
unfoldable pub take_line : Bool → LineReader → Source → Option (List ℕ × LineReader × Source)
unfolding has_line
take_line memory r src = elim (has_line memory r src) [ none ↦ none | some f ↦ some (taken f) ]

-- Fills until `enough` bytes are unread, or input ends.
unfoldable pub fill_to : ℕ → Bool → (ℕ → Bool) → LineReader → Source → Option (LineReader × Source)
unfolding fill
fill_to zero memory enough r src = none
fill_to (suc n) memory enough r src =
    let f = fill memory r src in
    let again = fill_to n memory enough f.1 f.2 in
    if enough (length (unread r))
    then some (r, src)
    else if f.0 == 0
    then some (f.1, f.2)
    else again

-- io_stdin_take_bytes
unfoldable pub take_bytes : Bool → LineReader → Source → ℤ → Option (List ℕ × LineReader × Source)
unfolding fill_to
take_bytes memory r src count =
    let want = pos_part count in
    elim (fill_to (suc (weight src)) memory (leb want) (record r { pending = false }) src) [
      | none ↦ none
      | some (r', src') ↦
          let n = if ltb want (length (unread r')) then want else length (unread r') in
          some (take n (unread r'), record r' { start = r'.start + n }, src')
    ]

-- io_stdin_read_all
unfoldable pub read_all : Bool → LineReader → Source → Option (List ℕ × LineReader × Source)
unfolding fill_to
read_all memory r src =
    elim (fill_to (suc (weight src)) memory (λ n. false) (record r { pending = false }) src) [
      | none ↦ none
      | some (r', src') ↦ some (unread r', record r' { start = length r'.buffer }, src')
    ]
