-- ===== src/Rc/Laws.antt =====
-- Counted objects in a program whose holders each retain once and release once.
use prismio.Base.{
  ◌++◌, ℕ, zero, suc, ◌+◌, ◌-◌, ◌%◌, ◌^◌, ◌<◌, ◌≡◌, ◌≢◌, refl, sym, ap, ◌∙◌, Bool, true, false,
  List, [], ◌∷◌, arith, ◌==◌, if◌then◌else◌,
}
use prismio.Rc.{Counts, put, blocks, retain, release}

pub data Op : Type 0 where
  retains : ℕ → Op
  releases : ℕ → Op

abbrev pub step : Counts → Op → Counts
step c (retains p) = retain c p
step c (releases p) = release c p

abbrev pub run : Counts → List Op → Counts
run c [] = c
run c (o ∷ os) = run (step c o) os

-- The holders of each object after an operation
abbrev pub holders : (ℕ → ℕ) → Op → ℕ → ℕ
holders n (retains p) = put n p (n p + 1)
holders n (releases p) = put n p (n p - 1)

abbrev pub holders_after : (ℕ → ℕ) → List Op → ℕ → ℕ
holders_after n [] = n
holders_after n (o ∷ os) = holders_after (holders n o) os

-- The blocks of an object in the order in which they go: the cold one, if there is a link, whose address
-- stands in the object, and then the block that starts at the header.
abbrev pub blocks_of : (ℕ → ℕ) → (ℕ → ℕ) → ℕ → List ℕ
blocks_of cold word p = (if cold p == 0 then [] else word (p + cold p) ∷ []) ++ ((p - 16) ∷ [])

-- What has gone, newest first, after some blocks in their order.
abbrev pub newest_first : List ℕ → List ℕ → List ℕ
newest_first [] gone = gone
newest_first (b ∷ bs) gone = newest_first bs (b ∷ gone)

-- What is handed back along a script: the blocks of each object whose last holder lets go of it.
abbrev pub let_go : (ℕ → ℕ) → (ℕ → ℕ) → (ℕ → ℕ) → List Op → List ℕ → List ℕ
let_go cold word n [] freed = freed
let_go cold word n (retains p ∷ os) freed = let_go cold word (holders n (retains p)) os freed
let_go cold word n (releases p ∷ os) freed =
    let_go cold word (holders n (releases p)) os
      (if n p == 1 then newest_first (blocks_of cold word p) freed else freed)

-- A script of holders: a release is a holder's, and no count overflows.
abbrev pub IsScript : (ℕ → ℕ) → List Op → Type 0
IsScript n [] = Unit
IsScript n (retains p ∷ os) = (p ≢ 0) × (n p + 1 < 2 ^ 64) × IsScript (holders n (retains p)) os
IsScript n (releases p ∷ os) = (p ≢ 0) × (0 < n p) × IsScript (holders n (releases p)) os

blocks-newest_first :
    (cold word : ℕ → ℕ) (p : ℕ) (gone : List ℕ)
    → blocks cold word p gone ≡ newest_first (blocks_of cold word p) gone
blocks-newest_first cold word p gone = by_test (cold p == 0)
  where
    by_test :
        (b : Bool)
        → (if b then (p - 16) ∷ gone else (p - 16) ∷ word (p + cold p) ∷ gone)
          ≡ newest_first ((if b then [] else word (p + cold p) ∷ []) ++ ((p - 16) ∷ [])) gone
    by_test true = refl
    by_test false = refl

-- Over any script of holders, from counts that are the numbers of holders, the counts stay those
-- numbers, and what is handed back, in order, is the blocks of each object at the release of its last
-- holder, its cold block, if it has one, before its own.
pub run-let_go :
    (os : List Op) (c : Counts) (n : ℕ → ℕ)
    → ((p : ℕ) → c.count p ≡ n p)
    → IsScript n os
    → ((p : ℕ) → (run c os).count p ≡ holders_after n os p)
      × ((run c os).freed ≡ let_go c.cold c.word n os c.freed)
unfolding retain release
run-let_go [] c n same script = (same, refl)
run-let_go (retains zero ∷ os) c n same script = absurd (script.0 refl)
run-let_go (retains (suc p) ∷ os) c n same script =
    run-let_go os (retain c (suc p)) (put n (suc p) (n (suc p) + 1))
      (λ q.
        raised (c.count (suc p)) (n (suc p)) (c.count q) (n q) q (same (suc p)) (same q) script.1)
      script.2
  where
    raised :
        (a b d e q : ℕ)
        → a ≡ b
        → d ≡ e
        → b + 1 < 2 ^ 64
        → (if q == suc p then (a + 1) % 2 ^ 64 else d) ≡ (if q == suc p then b + 1 else e)
    raised a b d e q h k lt = ground arith
run-let_go (releases zero ∷ os) c n same script = absurd (script.0 refl)
run-let_go (releases (suc p) ∷ os) c n same script =
    let done =
      by_count (c.count (suc p) == 0) refl (c.count (suc p) == 1) refl
        (λ k. run-let_go os k (put n (suc p) (n (suc p) - 1))) in
    (
      done.0,
      done.1
          ∙ ap
              (λ b.
                let_go c.cold c.word (put n (suc p) (n (suc p) - 1)) os
                  (if n (suc p) == 1 then b else c.freed))
              (blocks-newest_first c.cold c.word (suc p) c.freed),
    )
  where
    left : Counts
    left = record c { count = put c.count (suc p) (c.count (suc p) - 1) }

    after : ℕ → ℕ
    after = put n (suc p) (n (suc p) - 1)

    lowered : (q : ℕ) → left.count q ≡ after q
    lowered q = fewer (c.count (suc p)) (n (suc p)) (c.count q) (n q) (same (suc p)) (same q)
      where
        fewer :
            (a b d e : ℕ)
            → a ≡ b
            → d ≡ e
            → (if q == suc p then a - 1 else d) ≡ (if q == suc p then b - 1 else e)
        fewer a b d e h k = ground arith

    by_count :
        (z : Bool)
        → (c.count (suc p) == 0) ≡ z
        → (o : Bool) → (c.count (suc p) == 1) ≡ o
        → ((k : Counts)
            → ((q : ℕ) → k.count q ≡ after q)
            → IsScript after os
            → ((q : ℕ) → (run k os).count q ≡ holders_after after os q)
              × ((run k os).freed ≡ let_go k.cold k.word after os k.freed))
        → (let k =
              if z
              then c
              else if o
              then record left { freed = blocks c.cold c.word (suc p) c.freed }
              else left in
            ((q : ℕ) → (run k os).count q ≡ holders_after after os q)
            × ((run k os).freed
                ≡ let_go c.cold c.word after os
                    (if n (suc p) == 1 then blocks c.cold c.word (suc p) c.freed else c.freed)))
    by_count true ez o eo later =
        absurd (held (c.count (suc p)) (n (suc p)) ez (same (suc p)) script.1)
      where
        held : (a b : ℕ) → (a == 0) ≡ true → a ≡ b → 0 < b → ⊥
        held a b e h lt = ground arith
    by_count false ez true eo later =
        let rest =
          later (record left { freed = blocks c.cold c.word (suc p) c.freed }) lowered script.2 in
        (
          rest.0,
          rest.1
              ∙ ap
                  (λ t.
                    let_go c.cold c.word after os
                      (if t then blocks c.cold c.word (suc p) c.freed else c.freed))
                  (sym (ap (λ v. v == 1) (sym (same (suc p))) ∙ eo)),
        )
    by_count false ez false eo later =
        let rest = later left lowered script.2 in
        (
          rest.0,
          rest.1
              ∙ ap
                  (λ t.
                    let_go c.cold c.word after os
                      (if t then blocks c.cold c.word (suc p) c.freed else c.freed))
                  (sym (ap (λ v. v == 1) (sym (same (suc p))) ∙ eo)),
        )
