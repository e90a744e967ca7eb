-- ===== src/Cyc.antt =====
-- runtime/lang_runtime.c: the cycle collector, trial deletion over the cyclic edges of counted objects.
--
-- An object is its address, and 0 is NULL. `children` is what the children function of an object visits,
-- its cyclic fields in order, and nothing for an object without one; no field changes while the collector
-- runs, since the calls run under one lock. Objects that were freed are kept in `freed`; the collector
-- reads headers that it has freed, and what they show is up to a parameter. The walks
-- run on fuel, the number of objects ever allocated, which is enough, since a walk goes deeper only at
-- an object whose colour it changes. A window of children is a list, and there is memory for it and for
-- the buffers.
pub mod Sweep
pub mod Mark
pub mod Scan
pub mod Seen
pub mod White
pub mod Roots
pub mod Laws
pub mod Collect
mod Tests
use prismio.Base.{
  ℕ, zero, suc, ◌+◌, ◌-◌, Bool, true, false, not, ◌&&◌, ◌||◌, Option, none, some, List, [], ◌∷◌,
  ◌++◌, ◌==◌, ltb, leb, if◌then◌else◌, length, take, drop,
}

abbrev pub black : ℕ
black = 0

abbrev pub grey : ℕ
grey = 1

abbrev pub white : ℕ
white = 2

abbrev pub purple : ℕ
purple = 3

-- The counts and the colours of the headers
pub record Marks : Type 0 where
  pub rc : ℕ → ℕ
  pub colour : ℕ → ℕ

pub record Cyc : Type 0 where
  pub marks : Marks
  pub buffered : ℕ → Bool
  pub children : ℕ → List ℕ
  pub candidates : List ℕ
  pub allocated : ℕ
  pub collected : ℕ
  pub collections : ℕ
  pub freed : List ℕ

-- CYC_THETA_BUFFER and CYC_K_ROOTS
abbrev pub theta_buffer : ℕ
theta_buffer = 4096

abbrev pub k_roots : ℕ
k_roots = 256

abbrev pub put : {A : Type 0} → (ℕ → A) → ℕ → A → ℕ → A
put f x v a = if a == x then v else f a

abbrev pub paint : ℕ → Marks → ℕ → Marks
paint k m x = record m { colour = put m.colour x k }

abbrev pub recount : (ℕ → ℕ) → Marks → ℕ → Marks
recount f m x = record m { rc = put m.rc x (f (m.rc x)) }

-- A step that is skipped at NULL
abbrev pub unless_null : {A : Type 0} → ℕ → A → A → A
unless_null zero a b = a
unless_null (suc y) a b = b

-- A loop over the children that a window holds
abbrev pub over : {A : Type 0} → (A → ℕ → A) → A → List ℕ → A
over f a [] = a
over f a (y ∷ ys) = over f (f a y) ys

-- `if (yh->rc > 0) yh->rc--`
abbrev pub lowered : ℕ → ℕ
lowered n = n - 1

abbrev pub raised : ℕ → ℕ
raised n = n + 1

-- A walk that paints an object unless it has the colour, and then, child by child, changes the count
-- and goes on.
unfoldable pub sweep : (ℕ → List ℕ) → ℕ → (ℕ → ℕ) → ℕ → Marks → ℕ → Marks
sweep children k f zero m x = m
sweep children k f (suc n) m x =
    let rest = sweep children k f n in
    if m.colour x == k
    then m
    else over (λ m y. unless_null y m (rest (recount f m y) y)) (paint k m x) (children x)

-- cyc_mark_grey
unfoldable pub mark_grey : (ℕ → List ℕ) → ℕ → Marks → ℕ → Marks
unfolding sweep
mark_grey children n m x = sweep children grey lowered n m x

-- cyc_scan_black
unfoldable pub scan_black : (ℕ → List ℕ) → ℕ → Marks → ℕ → Marks
scan_black children zero m x = m
scan_black children (suc n) m x =
    let rest = scan_black children n in
    over
      (λ m y.
        let counted = recount raised m y in
        unless_null y m (if counted.colour y == black then counted else rest counted y))
      (paint black m x) (children x)

-- cyc_scan
unfoldable pub scan : (ℕ → List ℕ) → ℕ → ℕ → Marks → ℕ → Marks
unfolding scan_black
scan children fuel zero m x = m
scan children fuel (suc n) m x =
    let rest = scan children fuel n in
    if not (m.colour x == grey)
    then m
    else if ltb 0 (m.rc x)
    then scan_black children fuel m x
    else over (λ m y. unless_null y m (rest m y)) (paint white m x) (children x)

-- cyc_alloc, where rt_base_alloc answers the payload's address
unfoldable pub alloc : Cyc → ℕ → Cyc
alloc s zero = s
alloc s (suc a) = record s {
  marks = record { rc = put s.marks.rc (suc a) 0; colour = put s.marks.colour (suc a) black };
  buffered = put s.buffered (suc a) false;
  children = put s.children (suc a) [];
  allocated = s.allocated + 1;
}

-- cyc_set_type, where the children function visits `kids`
unfoldable pub set_type : Cyc → ℕ → List ℕ → Cyc
set_type s zero kids = s
set_type s (suc a) kids = record s { children = put s.children (suc a) kids }

-- cyc_retain
unfoldable pub retain : Cyc → ℕ → Cyc
retain s zero = s
retain s (suc a) = record s { marks = recount raised s.marks (suc a) }

-- The roots wait no longer.
abbrev pub unbuffer : (ℕ → Bool) → List ℕ → ℕ → Bool
unbuffer b [] = b
unbuffer b (x ∷ xs) = unbuffer (put b x false) xs

-- `reclaim` is what the release function that the compiler stamped on an object, or the free of an
-- object without one, makes of the collector's state: the counts it drops, the objects that it frees
-- with them, and what the header that was freed shows from then on.
module _ (reclaim : ℕ → Cyc → Cyc) where
  -- cyc_free_object
  unfoldable pub free_object : Cyc → ℕ → Cyc
  free_object s x = reclaim x (record s { collected = s.collected + 1; freed = x ∷ s.freed })

  -- cyc_collect_white
  unfoldable pub collect_white : ℕ → Cyc → ℕ → Cyc
  unfolding free_object
  collect_white zero s x = s
  collect_white (suc n) s x =
      let rest = collect_white n in
      if not (s.marks.colour x == white) || s.buffered x
      then s
      else over (λ s y. unless_null y s (rest s y))
          (free_object (record s { marks = paint black s.marks x }) x) (s.children x)

  -- The roots whose count reached zero while they waited are freed.
  abbrev pub free_dead : Cyc → List ℕ → Cyc
  free_dead s [] = s
  free_dead s (x ∷ xs) = free_dead (if s.marks.rc x == 0 then free_object s x else s) xs

  -- The roots that the same loop keeps
  abbrev pub still_held : Cyc → List ℕ → List ℕ
  still_held s [] = []
  still_held s (x ∷ xs) =
      let rest = still_held (if s.marks.rc x == 0 then free_object s x else s) xs in
      if s.marks.rc x == 0 then rest else x ∷ rest

  -- The three walks of cyc_collect, from roots that are held.
  abbrev pub trial : Cyc → List ℕ → Cyc
  trial s roots =
      let fuel = s.allocated in
      let marked = over (mark_grey s.children fuel) s.marks roots in
      let scanned = over (scan s.children fuel fuel) marked roots in
      over (collect_white fuel) (record s { marks = scanned }) roots

  abbrev pub collect_roots : Cyc → ℕ → Cyc
  collect_roots s n =
      let roots = take n s.candidates in
      let t = record s {
        collections = s.collections + 1;
        candidates = drop n s.candidates;
        buffered = unbuffer s.buffered roots;
      } in
      trial (free_dead t roots) (still_held t roots)

  -- cyc_collect
  unfoldable pub collect : Cyc → Bool → Cyc
  unfolding mark_grey scan collect_white free_object
  collect s all =
      let waiting = length s.candidates in
      let n = if all || ltb waiting k_roots then waiting else k_roots in
      if n == 0 then s else collect_roots s n

  -- The candidate that a count which dropped and did not reach zero makes of an object.
  abbrev pub suspect : Cyc → ℕ → Cyc
  suspect s x =
      let t = record s {
        marks = paint purple s.marks x;
        buffered = put s.buffered x true;
        candidates = s.candidates ++ (x ∷ []);
      } in
      if leb theta_buffer (length t.candidates) then collect t false else t

  -- cyc_release
  unfoldable pub release : Cyc → ℕ → Cyc
  unfolding collect free_object
  release s zero = s
  release s (suc a) =
      let x = suc a in
      let t = record s { marks = recount lowered s.marks x } in
      if s.marks.rc x == 0
      then s
      else if s.marks.rc x == 1
      then (if s.buffered x then record t { marks = paint black t.marks x } else free_object t x)
      else if s.buffered x
      then t
      else suspect t x

  -- cyc_collect_now
  unfoldable pub collect_now : Cyc → Cyc
  unfolding collect
  collect_now s = collect s true

  -- The loop of cyc_final
  unfoldable pub final : ℕ → Cyc → Cyc
  unfolding collect
  final zero s = s
  final (suc n) s =
      let rest = final n (collect s true) in if length s.candidates == 0 then s else rest
