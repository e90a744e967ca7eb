-- ===== src/LineReader/Fill.antt =====
-- One read into the buffer: what is still to come is the same, however much the read brings.
use prismio.Base.{
  ℕ, zero, suc, ◌+◌, ◌-◌, ◌*◌, ◌<◌, ◌≤◌, ◌≡◌, ◌⊎◌, inl, inr, refl, sym, ap, ap₂, ◌∙◌, Bool, true,
  false, not, Bool-cases, List, [], ◌∷◌, ◌++◌, append-nil, append_assoc, arith, ◌==◌, ltb,
  if◌then◌else◌, length, take, drop, length-drop, take-append-drop,
}
use mathlib.Core.Path.{subst}
use prismio.LineReader.{
  LineReader, interrupted, bytes, Source, chunk, unread, unconsumed, read_once, doubled, grown,
  filled, fill, weight,
}

-- The bytes that a descriptor will still give: up to the first read that brings none.
abbrev pub content : Source → List ℕ
content [] = []
content (interrupted ∷ s) = content s
content (bytes [] ∷ s) = []
content (bytes (x ∷ xs) ∷ s) = x ∷ (xs ++ content s)

-- What a descriptor gives behind a read of these bytes.
abbrev pub behind : List ℕ → Source → List ℕ
behind [] s = []
behind (x ∷ xs) s = content s

-- Everything that the reader has not handed out.
abbrev pub tail : Bool → Source → List ℕ
tail true s = []
tail false s = content s

abbrev pub ahead : LineReader → Source → List ℕ
ahead r s = unread r ++ tail r.eof s

content-unconsumed : (ys : List ℕ) (s : Source) → content (unconsumed ys s) ≡ ys ++ content s
content-unconsumed [] s = refl
content-unconsumed (y ∷ ys) s = refl

weight-unconsumed :
    (ys : List ℕ) (s : Source) → weight (unconsumed ys s) ≤ suc (length ys) + weight s
weight-unconsumed [] s = omega arith
weight-unconsumed (y ∷ ys) s = omega arith

read_once-content :
    (s : Source) (room : ℕ)
    → 0 < room
    → (content s ≡ (read_once s room).0 ++ behind (read_once s room).0 (read_once s room).1)
      × ((0 < length (read_once s room).0) → weight (read_once s room).1 < weight s)
unfolding read_once
read_once-content [] room h = (refl, λ k. absurd (omega arith))
read_once-content (interrupted ∷ s) room h = read_once-content s room h
read_once-content (bytes [] ∷ s) zero h = absurd (omega arith)
read_once-content (bytes [] ∷ s) (suc room) h = (refl, λ k. absurd (omega arith))
read_once-content (bytes (x ∷ xs) ∷ s) zero h = absurd (omega arith)
read_once-content (bytes (x ∷ xs) ∷ s) (suc room) h = (
  ap (λ (ys : List ℕ). x ∷ ys)
      (sym (ap (λ (ys : List ℕ). ys ++ content s) (take-append-drop room xs))
        ∙ append_assoc (take room xs) (drop room xs) (content s)
        ∙ sym (ap (λ (ys : List ℕ). take room xs ++ ys) (content-unconsumed (drop room xs) s))),
  λ k. omega (arith, weight-unconsumed (drop room xs) s, length-drop room xs),
)

-- The loop makes room for a chunk.
doubled-room : (n g end : ℕ) → 0 < g → end + chunk ≤ g + n → chunk ≤ doubled n g end - end
unfolding doubled
doubled-room zero g end pos_g h = omega arith
doubled-room (suc n) g end pos_g h = elim (Bool-cases (ltb (g - end) chunk)) [
  | inl e ↦ rw e (doubled-room n (g * 2) end (omega arith) (omega arith))
  | inr e ↦ rw e (ground arith)
]

pub grown-room : (capacity end : ℕ) → chunk ≤ grown capacity end - end
grown-room capacity end =
    doubled-room (end + chunk) (if capacity == 0 then chunk else capacity * 2) end (ground arith)
      (omega arith)

-- What a fill does to the reader `r` at the source `src`.
pub record IsFilled (r : LineReader) (src : Source) (f : ℕ × LineReader × Source) : Type 0 where
  pub more : List ℕ
  pub count : f.0 ≡ length more
  pub unread_eq : unread f.1 ≡ unread r ++ more
  pub ahead_eq : ahead f.1 f.2 ≡ ahead r src
  pub ends : f.0 ≡ 0 → f.1.eof ≡ true
  pub lighter : 0 < f.0 → weight f.2 < weight src
  pub pending_eq : f.1.pending ≡ r.pending
  pub start_in : f.1.start ≤ length f.1.buffer

filled-IsFilled :
    (r : LineReader) (src : Source) (capacity room : ℕ)
    → r.eof ≡ false
    → 0 < room
    → IsFilled r src (
        filled
          (record r { buffer = unread r; start = 0; capacity = capacity })
          (read_once src room))
filled-IsFilled r src capacity room open_r h =
    by_read (read_once src room) (read_once-content src room h)
  where
    moved : LineReader
    moved = record r { buffer = unread r; start = 0; capacity = capacity }

    was : ahead r src ≡ unread r ++ content src
    was = ap (λ (b : Bool). unread r ++ tail b src) open_r

    by_read :
        (g : List ℕ × Source)
        → (content src ≡ g.0 ++ behind g.0 g.1) × ((0 < length g.0) → weight g.1 < weight src)
        → IsFilled r src (filled moved g)
    by_read ([], s) (e, lt) = record {
      more = [];
      count = refl;
      unread_eq = sym (append-nil (unread r));
      ahead_eq = ap (λ (ys : List ℕ). unread r ++ ys) (sym e) ∙ sym was;
      ends = λ _. refl;
      lighter = λ k. absurd (omega arith);
      pending_eq = refl;
      start_in = omega arith;
    }
    by_read (x ∷ xs, s) (e, lt) = record {
      more = x ∷ xs;
      count = refl;
      unread_eq = refl;
      ahead_eq =
          ap (λ (b : Bool). (unread r ++ (x ∷ xs)) ++ tail b s) open_r
          ∙ append_assoc (unread r) (x ∷ xs) (content s)
          ∙ ap (λ (ys : List ℕ). unread r ++ ys) (sym e)
          ∙ sym was;
      ends = λ k. absurd (omega arith);
      lighter = λ k. lt (omega arith);
      pending_eq = refl;
      start_in = omega arith;
    }

-- With memory for the buffer, a fill changes nothing that is still to come, and either brings bytes,
-- which the source then no longer has, or finds the end of input.
pub fill-IsFilled :
    (r : LineReader) (src : Source) → r.start ≤ length r.buffer → IsFilled r src (fill true r src)
unfolding fill
fill-IsFilled r src inside = by_eof (Bool-cases r.eof)
  where
    end : ℕ
    end = length (unread r)

    moved : ℕ → LineReader
    moved capacity = record r { buffer = unread r; start = 0; capacity = capacity }

    branches : Bool → Bool → ℕ × LineReader × Source
    branches eof small =
        if eof
        then (0, r, src)
        else if not small
        then filled (moved r.capacity) (read_once src (r.capacity - end))
        else filled (moved (grown r.capacity end)) (read_once src (grown r.capacity end - end))

    by_room :
        r.eof ≡ false
        → ltb (r.capacity - end) chunk ≡ true ⊎ ltb (r.capacity - end) chunk ≡ false
        → IsFilled r src (fill true r src)
    by_room e (inl small) = subst (IsFilled r src) (sym (ap₂ branches e small)) (
        filled-IsFilled r src (grown r.capacity end) (grown r.capacity end - end) e
          (omega (arith, grown-room r.capacity end)))
    by_room e (inr large) =
        subst (IsFilled r src) (sym (ap₂ branches e large))
          (filled-IsFilled r src r.capacity (r.capacity - end) e (ground arith))

    by_eof : r.eof ≡ true ⊎ r.eof ≡ false → IsFilled r src (fill true r src)
    by_eof (inl e) =
        subst (IsFilled r src)
          (sym (ap (λ (b : Bool). branches b (ltb (r.capacity - end) chunk)) e))
          (record {
            more = [];
            count = refl;
            unread_eq = sym (append-nil (unread r));
            ahead_eq = refl;
            ends = λ _. e;
            lighter = λ k. absurd (omega arith);
            pending_eq = refl;
            start_in = inside;
          })
    by_eof (inr e) = by_room e (Bool-cases (ltb (r.capacity - end) chunk))
