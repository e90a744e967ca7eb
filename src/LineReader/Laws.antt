-- ===== src/LineReader/Laws.antt =====
-- What is handed out: the input cut into lines, or into runs of bytes, however the reads cut it.
use prismio.Base.{
  ℕ, zero, suc, ◌+◌, ◌-◌, ◌<◌, ◌≤◌, ◌≡◌, ◌⊎◌, inl, inr, refl, sym, ap, ap₂, ◌∙◌, Bool, true, false,
  ◌&&◌, Bool-cases, Option, none, some, Option-cases, List, [], ◌++◌, append-nil, arith, ◌==◌, ltb,
  leb, if◌then◌else◌, length, get_or, take, drop, length-append, length-take, length-drop,
  take-append-drop, take-append, drop-append, drop-drop, drop_of_le, take_of_le, get_or-drop,
  get_or-append,
}
use mathlib.Core.Path.{subst}
use prismio.Base.Find.{find, find-some, find-append_none, find-append_some, find-append_front}
use prismio.Base.Int.{ℤ, pos_part}
use prismio.LineReader.{
  LineReader, Source, newline, carriage_return, unread, fill, weight, line_at, last_line,
  has_line_from, has_line, taken, take_line, fill_to, take_bytes, read_all,
}
use prismio.LineReader.Fill.{tail, ahead, IsFilled, fill-IsFilled}

-- The first `k` bytes, less one carriage return at their end.
abbrev pub stripped : List ℕ → ℕ → List ℕ
stripped w k =
    if ltb 0 k && (get_or w (k - 1) 0 == carriage_return) then take (k - 1) w else take k w

-- The first line of an input, and what follows it. A last line needs no newline.
abbrev pub split_at : List ℕ → Option ℕ → List ℕ × List ℕ
split_at w none = (w, [])
split_at w (some k) = (stripped w k, drop (k + 1) w)

unfoldable pub next_line : List ℕ → List ℕ × List ℕ
unfolding find
next_line w = split_at w (find newline w)

-- The reader, after its pending line has been taken.
abbrev pub beyond : LineReader → LineReader
beyond r = record r { start = r.next; pending = false }

-- A pending line is the next line of the input `w`.
pub record IsPending (w : List ℕ) (r : LineReader) (src : Source) : Type 0 where
  pub pending_eq : r.pending ≡ true
  pub line : next_line w ≡ (take (r.line_end - r.start) (unread r), ahead (beyond r) src)
  pub next_in : r.next ≤ length r.buffer
  pub start_in : r.start ≤ length r.buffer

-- What has_line answers for an input: a line is pending, or there is nothing.
abbrev pub IsFound : List ℕ → Bool × LineReader × Source → Type 0
IsFound w (true, r, src) = IsPending w r src × (w ≡ ahead r src)
IsFound w (false, r, src) =
    (w ≡ []) × (ahead r src ≡ []) × (r.pending ≡ false) × (r.start ≤ length r.buffer)

line_at-IsPending :
    (r : LineReader) (src : Source) (k : ℕ)
    → r.start ≤ length r.buffer
    → find newline (unread r) ≡ some k
    → IsPending (ahead r src) (line_at r (r.start + k)) src
unfolding next_line
line_at-IsPending r src k inside found = record {
  pending_eq = refl;
  line =
      ap (split_at w) (find-append_front newline u t k found)
      ∙ ap₂ (λ (l rest : List ℕ). (l, rest)) (ap pick tests_eq ∙ same_line there) rest_eq;
  next_in = omega (arith, k_in, length-drop r.start r.buffer);
  start_in = inside;
}
  where
    u : List ℕ
    u = unread r

    t : List ℕ
    t = tail r.eof src

    w : List ℕ
    w = u ++ t

    at : ℕ
    at = r.start + k

    k_in : k < length u
    k_in = (find-some newline u k found).0

    here : Bool
    here = ltb 0 k && (get_or w (k - 1) 0 == carriage_return)

    there : Bool
    there = ltb r.start at && (get_or r.buffer (at - 1) 0 == carriage_return)

    pick : Bool → List ℕ
    pick b = if b then take (k - 1) w else take k w

    same_line : (b : Bool) → pick b ≡ take ((if b then at - 1 else at) - r.start) u
    same_line true =
        take-append u t (k - 1) (omega (arith, k_in)) ∙ ap (λ (n : ℕ). take n u) (omega arith)
    same_line false =
        take-append u t k (omega (arith, k_in)) ∙ ap (λ (n : ℕ). take n u) (omega arith)

    by_zero : ltb 0 k ≡ true ⊎ ltb 0 k ≡ false → here ≡ there
    by_zero (inl h) =
        let e : r.start + (k - 1) ≡ at - 1 = ground arith in
        let both : ltb 0 k ≡ ltb r.start at = ground arith in
        ap₂ (λ (a : Bool) (c : ℕ). a && (c == carriage_return)) both
          (get_or-append u t (k - 1) 0 (omega (arith, k_in))
            ∙ get_or-drop r.buffer r.start (k - 1) 0
            ∙ ap (λ (n : ℕ). get_or r.buffer n 0) e)
    by_zero (inr h) =
        let h' : ltb r.start at ≡ false = ground arith in
        ap (λ (a : Bool). a && (get_or w (k - 1) 0 == carriage_return)) h
        ∙ sym (ap (λ (a : Bool). a && (get_or r.buffer (at - 1) 0 == carriage_return)) h')

    tests_eq : here ≡ there
    tests_eq = by_zero (Bool-cases (ltb 0 k))

    rest_eq : drop (k + 1) w ≡ drop (at + 1) r.buffer ++ t
    rest_eq =
        drop-append u t (k + 1) (omega (arith, k_in))
        ∙ ap (λ (ys : List ℕ). ys ++ t)
            (drop-drop r.buffer (k + 1) r.start ∙ ap (λ (n : ℕ). drop n r.buffer) (omega arith))

last_line-IsFound :
    (r : LineReader) (src : Source)
    → r.start ≤ length r.buffer
    → r.eof ≡ true
    → r.pending ≡ false
    → find newline (unread r) ≡ none
    → IsFound (ahead r src) ((last_line r).0, (last_line r).1, src)
unfolding next_line
last_line-IsFound r src inside ended idle absent = by_end (Bool-cases (length r.buffer == r.start))
  where
    answer : Bool → Bool × LineReader
    answer b =
        if b
        then (false, r)
        else (true, record r { line_end = length r.buffer; next = length r.buffer; pending = true })

    all : ahead r src ≡ unread r
    all = ap (λ (b : Bool). unread r ++ tail b src) ended ∙ append-nil (unread r)

    by_end :
        (length r.buffer == r.start) ≡ true ⊎ (length r.buffer == r.start) ≡ false
        → IsFound (ahead r src) ((last_line r).0, (last_line r).1, src)
    by_end (inl e) =
        let nothing : unread r ≡ [] = drop_of_le r.buffer r.start (ground arith) in
        subst (λ (b : Bool). IsFound (ahead r src) ((answer b).0, (answer b).1, src)) (sym e)
          (all ∙ nothing, all ∙ nothing, idle, inside)
    by_end (inr e) =
        subst (λ (b : Bool). IsFound (ahead r src) ((answer b).0, (answer b).1, src)) (sym e)
          (
            record {
              pending_eq = refl;
              line =
                  ap next_line all
                  ∙ ap (split_at (unread r)) absent
                  ∙ ap₂ (λ (l rest : List ℕ). (l, rest))
                      (sym (
                        take_of_le (unread r) (length r.buffer - r.start)
                          (omega (arith, length-drop r.start r.buffer))))
                      (sym (
                        ap₂ (λ (x : List ℕ) (b : Bool). x ++ tail b src)
                          (drop_of_le r.buffer (length r.buffer) (omega arith)) ended));
              next_in = omega arith;
              start_in = inside;
            },
            refl,
          )

has_line_from-IsFound :
    (n scanned : ℕ) (r : LineReader) (src : Source)
    → weight src < n
    → r.start ≤ length r.buffer
    → r.pending ≡ false
    → scanned ≤ length (unread r)
    → find newline (take scanned (unread r)) ≡ none
    → (f : Bool × LineReader × Source) × (has_line_from n true scanned r src ≡ some f)
      × IsFound (ahead r src) f
unfolding has_line_from
has_line_from-IsFound zero scanned r src light inside idle seen absent = absurd (omega arith)
has_line_from-IsFound (suc n) scanned r src light inside idle seen absent =
    by_find (Option-cases (find newline (drop scanned u))) (λ more.
      has_line_from-IsFound n (length u) f.1 f.2 more.0 filled.start_in (filled.pending_eq ∙ idle)
        more.1 more.2)
  where
    u : List ℕ
    u = unread r

    f : ℕ × LineReader × Source
    f = fill true r src

    filled : IsFilled r src f
    filled = fill-IsFilled r src inside

    Answer : Option (Bool × LineReader × Source) → Type 0
    Answer o = (g : Bool × LineReader × Source) × (o ≡ some g) × IsFound (ahead r src) g

    again : Option (Bool × LineReader × Source)
    again = has_line_from n true (length u) f.1 f.2

    ended : Bool → Option (Bool × LineReader × Source)
    ended b = if b then some ((last_line f.1).0, (last_line f.1).1, f.2) else again

    step : Option ℕ → Option (Bool × LineReader × Source)
    step o = elim o [
      | some i ↦ some (true, line_at r (r.start + scanned + i), src)
      | none ↦ ended (f.0 == 0)
    ]

    More : Type 0
    More =
        (weight f.2 < n)
        × (length u ≤ length (unread f.1))
        × (find newline (take (length u) (unread f.1)) ≡ none)

    by_count :
        (f.0 == 0) ≡ true ⊎ (f.0 == 0) ≡ false
        → find newline u ≡ none
        → (More → (g : Bool × LineReader × Source) × (again ≡ some g) × IsFound (ahead f.1 f.2) g)
        → Answer (step none)
    by_count (inl e) clear ih =
        let zero_f : f.0 ≡ 0 = ground arith in
        let same : unread f.1 ≡ u =
          filled.unread_eq
          ∙ ap (λ (m : List ℕ). u ++ m)
              (sym (take_of_le filled.more 0 (omega (arith, zero_f, filled.count))))
          ∙ append-nil u in
        (
          ((last_line f.1).0, (last_line f.1).1, f.2),
          ap ended e,
          subst (λ (w : List ℕ). IsFound w ((last_line f.1).0, (last_line f.1).1, f.2))
              filled.ahead_eq
              (last_line-IsFound f.1 f.2 filled.start_in (filled.ends zero_f)
                (filled.pending_eq ∙ idle) (ap (find newline) same ∙ clear)),
        )
    by_count (inr e) clear ih =
        let longer : length (unread f.1) ≡ length u + length filled.more =
          ap length filled.unread_eq ∙ length-append u filled.more in
        let got = ih (
          omega (arith, filled.lighter (ground arith), light),
          omega (arith, longer),
          ap (λ (x : List ℕ). find newline (take (length u) x)) filled.unread_eq
              ∙ ap (find newline) (
                  take-append u filled.more (length u) (omega arith)
                  ∙ take_of_le u (length u) (omega arith))
              ∙ clear,
        ) in
        (got.0, ap ended e ∙ got.1, subst (λ (w : List ℕ). IsFound w got.0) filled.ahead_eq got.2)

    by_find :
        (find newline (drop scanned u) ≡ none)
          ⊎ ((i : ℕ) × (find newline (drop scanned u) ≡ some i))
        → (More → (g : Bool × LineReader × Source) × (again ≡ some g) × IsFound (ahead f.1 f.2) g)
        → Answer (step (find newline (drop scanned u)))
    by_find (inl e) ih =
        let clear : find newline u ≡ none =
          ap (find newline) (sym (take-append-drop scanned u))
          ∙ find-append_none newline (take scanned u) (drop scanned u) absent e in
        subst (λ (o : Option ℕ). Answer (step o)) (sym e)
          (by_count (Bool-cases (f.0 == 0)) clear ih)
    by_find (inr (i, e)) ih =
        let k : ℕ = scanned + i in
        let found : find newline u ≡ some k =
          ap (find newline) (sym (take-append-drop scanned u))
          ∙ find-append_some newline (take scanned u) (drop scanned u) i absent e
          ∙ ap some (omega (arith, length-take scanned u, seen)) in
        let place : r.start + k ≡ r.start + scanned + i = omega arith in
        (
          (true, line_at r (r.start + scanned + i), src),
          ap step e,
          subst (λ (n : ℕ). IsFound (ahead r src) (true, line_at r n, src)) place
              (line_at-IsPending r src k inside found, refl),
        )

-- A reader as every call leaves it, with all that is still to come.
pub record IsReader (r : LineReader) (src : Source) : Type 0 where
  pub start_in : r.start ≤ length r.buffer
  pub pending : r.pending ≡ true → IsPending (ahead r src) r src

has_line-IsFound :
    (r : LineReader) (src : Source)
    → IsReader r src
    → (f : Bool × LineReader × Source) × (has_line true r src ≡ some f) × IsFound (ahead r src) f
unfolding has_line
has_line-IsFound r src v = by_pending (Bool-cases r.pending)
  where
    scan : Option (Bool × LineReader × Source)
    scan = has_line_from (suc (weight src)) true 0 r src

    by_pending :
        r.pending ≡ true ⊎ r.pending ≡ false
        → (f : Bool × LineReader × Source) × (has_line true r src ≡ some f)
          × IsFound (ahead r src) f
    by_pending (inl e) = (
      (true, r, src),
      ap (λ (b : Bool). if b then some (true, r, src) else scan) e,
      (v.pending e, refl),
    )
    by_pending (inr e) =
        let got =
          has_line_from-IsFound (suc (weight src)) 0 r src (omega arith) v.start_in e (omega arith)
            refl in
        (got.0, ap (λ (b : Bool). if b then some (true, r, src) else scan) e ∙ got.1, got.2)

-- However the input is cut into reads, and with memory for the buffer, taking a line ends, hands out the
-- next line of all that is still to come, without its newline and one carriage return before that, or
-- nothing at the end of input, and leaves what follows the line to come.
pub take_line-next_line :
    (r : LineReader) (src : Source)
    → IsReader r src
    → (line : List ℕ) × (r' : LineReader) × (src' : Source) × (take_line true r src
        ≡ some (line, r', src'))
      × ((line, ahead r' src') ≡ next_line (ahead r src))
      × IsReader r' src'
unfolding take_line next_line find
take_line-next_line r src v = by_found (has_line-IsFound r src v)
  where
    result : Option (Bool × LineReader × Source) → Option (List ℕ × LineReader × Source)
    result o = elim o [ none ↦ none | some f ↦ some (taken f) ]

    by_found :
        (f : Bool × LineReader × Source) × (has_line true r src ≡ some f) × IsFound (ahead r src) f
        → (line : List ℕ) × (r' : LineReader) × (src' : Source) × (take_line true r src
            ≡ some (line, r', src'))
          × ((line, ahead r' src') ≡ next_line (ahead r src))
          × IsReader r' src'
    by_found ((true, r', src'), e, (found, same)) = (
      take (r'.line_end - r'.start) (unread r'),
      beyond r',
      src',
      ap result e,
      sym found.line,
      record { start_in = found.next_in; pending = λ h. absurd (ground arith) },
    )
    by_found ((false, r', src'), e, (nothing, rest, idle, inside)) = (
      [],
      r',
      src',
      ap result e,
      ap (λ (x : List ℕ). ([], x)) rest ∙ sym (ap next_line nothing),
      record {
        start_in = inside;
        pending = λ h. absurd (let h' : true ≡ false = sym h ∙ idle in ground arith);
      },
    )

fill_to-IsFull :
    (n : ℕ) (enough : ℕ → Bool) (r : LineReader) (src : Source)
    → weight src < n
    → r.start ≤ length r.buffer
    → r.pending ≡ false
    → (r' : LineReader) × (src' : Source) × (fill_to n true enough r src ≡ some (r', src'))
      × (ahead r' src' ≡ ahead r src)
      × ((enough (length (unread r')) ≡ true) ⊎ (tail r'.eof src' ≡ []))
      × (r'.start ≤ length r'.buffer)
      × (r'.pending ≡ false)
unfolding fill_to
fill_to-IsFull zero enough r src light inside idle = absurd (omega arith)
fill_to-IsFull (suc n) enough r src light inside idle =
    by_enough (Bool-cases (enough (length (unread r)))) (Bool-cases (f.0 == 0)) (λ lighter.
      fill_to-IsFull n enough f.1 f.2 lighter filled.start_in (filled.pending_eq ∙ idle))
  where
    f : ℕ × LineReader × Source
    f = fill true r src

    filled : IsFilled r src f
    filled = fill-IsFilled r src inside

    Full : Option (LineReader × Source) → List ℕ → Type 0
    Full o w =
        (r' : LineReader) × (src' : Source) × (o ≡ some (r', src'))
        × (ahead r' src' ≡ w)
        × ((enough (length (unread r')) ≡ true) ⊎ (tail r'.eof src' ≡ []))
        × (r'.start ≤ length r'.buffer)
        × (r'.pending ≡ false)

    again : Option (LineReader × Source)
    again = fill_to n true enough f.1 f.2

    answer : Bool → Bool → Option (LineReader × Source)
    answer stop ended = if stop then some (r, src) else if ended then some (f.1, f.2) else again

    by_enough :
        enough (length (unread r)) ≡ true ⊎ enough (length (unread r)) ≡ false
        → (f.0 == 0) ≡ true ⊎ (f.0 == 0) ≡ false
        → (weight f.2 < n → Full again (ahead f.1 f.2))
        → Full (answer (enough (length (unread r))) (f.0 == 0)) (ahead r src)
    by_enough (inl e) ended ih =
        (r, src, ap (λ (b : Bool). answer b (f.0 == 0)) e, refl, inl e, inside, idle)
    by_enough (inr e) (inl z) ih = (
      f.1,
      f.2,
      ap₂ answer e z,
      filled.ahead_eq,
      inr (ap (λ (b : Bool). tail b f.2) (filled.ends (ground arith))),
      filled.start_in,
      filled.pending_eq ∙ idle,
    )
    by_enough (inr e) (inr z) ih =
        let got = ih (omega (arith, filled.lighter (ground arith), light)) in
        (got.0, got.1, ap₂ answer e z ∙ got.2, got.3 ∙ filled.ahead_eq, got.4, got.5, got.6)

-- However the input is cut into reads, and with memory for the buffer, taking a count of bytes ends,
-- hands out that many of the bytes that are still to come, or all where there are fewer, and leaves the
-- others to come; a line that was found and not taken is part of them.
pub take_bytes-take :
    (r : LineReader) (src : Source) (count : ℤ)
    → IsReader r src
    → (r' : LineReader) × (src' : Source) × (take_bytes true r src count
        ≡ some (take (pos_part count) (ahead r src), r', src'))
      × (ahead r' src' ≡ drop (pos_part count) (ahead r src))
      × IsReader r' src'
unfolding take_bytes
take_bytes-take r src count v = by_full (
    fill_to-IsFull (suc (weight src)) (leb want) (record r { pending = false }) src (omega arith)
      v.start_in refl)
  where
    want : ℕ
    want = pos_part count

    handed : LineReader × Source → List ℕ × LineReader × Source
    handed (r', src') =
        let n = if ltb want (length (unread r')) then want else length (unread r') in
        (take n (unread r'), record r' { start = r'.start + n }, src')

    result : Option (LineReader × Source) → Option (List ℕ × LineReader × Source)
    result o = elim o [ none ↦ none | some f ↦ some (handed f) ]

    -- A run of `m` bytes in place of the wanted ones, where there are no more.
    cut :
        (u t : List ℕ) (m : ℕ)
        → m ≤ length u
        → ((m ≡ want) ⊎ ((t ≡ []) × (m ≡ length u) × (m ≤ want)))
        → (take m u ≡ take want (u ++ t)) × (drop m u ++ t ≡ drop want (u ++ t))
    cut u t m inside (inl e) = (
      sym (take-append u t m inside) ∙ ap (λ (n : ℕ). take n (u ++ t)) e,
      sym (drop-append u t m inside) ∙ ap (λ (n : ℕ). drop n (u ++ t)) e,
    )
    cut u t m inside (inr (nothing, all, le)) =
        let w : u ++ t ≡ u = ap (λ (x : List ℕ). u ++ x) nothing ∙ append-nil u in
        (
          take_of_le u m (omega (arith, all))
              ∙ sym (take_of_le u want (omega (arith, all)))
              ∙ ap (take want) (sym w),
          ap₂ (λ (x y : List ℕ). x ++ y) (drop_of_le u m (omega (arith, all))) nothing
              ∙ sym (drop_of_le u want (omega (arith, all)))
              ∙ ap (drop want) (sym w),
        )

    Done : Option (List ℕ × LineReader × Source) → Type 0
    Done o =
        (r' : LineReader) × (src' : Source) × (o ≡ some (take want (ahead r src), r', src'))
        × (ahead r' src' ≡ drop want (ahead r src))
        × IsReader r' src'

    by_full :
        (r' : LineReader) × (src' : Source) × (fill_to
              (suc (weight src))
              true
              (leb want)
              (record r { pending = false })
              src
            ≡ some (r', src'))
          × (ahead r' src' ≡ ahead r src)
          × ((leb want (length (unread r')) ≡ true) ⊎ (tail r'.eof src' ≡ []))
          × (r'.start ≤ length r'.buffer)
          × (r'.pending ≡ false)
        → Done (take_bytes true r src count)
    by_full (r', src', e, same, full, inside, idle) =
        let u = unread r' in
        let m : ℕ = if ltb want (length u) then want else length u in
        let le : m ≤ length u = ground arith in
        let parts = cut u (tail r'.eof src') m le (elim full [
          | inl h ↦ inl (ground arith)
          | inr h ↦ elim (Bool-cases (ltb want (length u))) [
            | inl small ↦ inl (rw small refl)
            | inr large ↦ inr (h, rw large refl, ground arith)
          ]
        ]) in
        (
          record r' { start = r'.start + m },
          src',
          ap result e
              ∙ ap (λ (x : List ℕ). some (x, record r' { start = r'.start + m }, src'))
                  (parts.0 ∙ ap (take want) same),
          ap (λ (x : List ℕ). x ++ tail r'.eof src') (sym (drop-drop r'.buffer m r'.start))
              ∙ parts.1
              ∙ ap (drop want) same,
          record {
            start_in = omega (arith, le, length-drop r'.start r'.buffer);
            pending = λ h. absurd (let h' : true ≡ false = sym h ∙ idle in ground arith);
          },
        )

-- With memory for the buffer, reading all ends and hands out all that is still to come, however the
-- input is cut into reads.
pub read_all-ahead :
    (r : LineReader) (src : Source)
    → IsReader r src
    → (r' : LineReader) × (src' : Source) × (read_all true r src ≡ some (ahead r src, r', src'))
      × (ahead r' src' ≡ [])
unfolding read_all
read_all-ahead r src v = by_full (
    fill_to-IsFull (suc (weight src)) (λ n. false) (record r { pending = false }) src (omega arith)
      v.start_in refl)
  where
    result : Option (LineReader × Source) → Option (List ℕ × LineReader × Source)
    result o = elim o [
      | none ↦ none
      | some (r', src') ↦ some (unread r', record r' { start = length r'.buffer }, src')
    ]

    by_full :
        (r' : LineReader) × (src' : Source) × (fill_to
              (suc (weight src))
              true
              (λ n. false)
              (record r { pending = false })
              src
            ≡ some (r', src'))
          × (ahead r' src' ≡ ahead r src)
          × ((false ≡ true) ⊎ (tail r'.eof src' ≡ []))
          × (r'.start ≤ length r'.buffer)
          × (r'.pending ≡ false)
        → (r' : LineReader) × (src' : Source) × (read_all true r src ≡ some (ahead r src, r', src'))
          × (ahead r' src' ≡ [])
    by_full (r', src', e, same, inl h, inside, idle) = absurd (ground arith)
    by_full (r', src', e, same, inr h, inside, idle) = (
      record r' { start = length r'.buffer },
      src',
      ap result e
          ∙ ap (λ (x : List ℕ). some (x, record r' { start = length r'.buffer }, src'))
              (sym (append-nil (unread r')) ∙ ap (λ (x : List ℕ). unread r' ++ x) (sym h) ∙ same),
      ap₂ (λ (x y : List ℕ). x ++ y) (drop_of_le r'.buffer (length r'.buffer) (omega arith)) h,
    )
