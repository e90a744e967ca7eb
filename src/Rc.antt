-- ===== src/Rc.antt =====
-- runtime/lang_runtime.c: reference counts in front of a payload, and the cold block of a split object.
--
-- An object is its payload's address, and 0 is NULL. `count` and `cold` are the two words in front of it,
-- the count and the offset of the link to the cold block, and `word` is memory by address, where the link
-- stands. `freed` is what rt_free has been given, newest first. A call of rt_base_alloc answers an
-- address or 0. The atomic calls do the same to the count, each in one step.
pub mod Laws
mod Tests
use prismio.Base.{ℕ, zero, suc, ◌+◌, ◌-◌, ◌%◌, ◌^◌, Bool, List, [], ◌∷◌, ◌==◌, if◌then◌else◌}

pub record Counts : Type 0 where
  pub count : ℕ → ℕ
  pub cold : ℕ → ℕ
  pub word : ℕ → ℕ
  pub freed : List ℕ

-- RC_HDR
abbrev pub rc_hdr : ℕ
rc_hdr = 16

abbrev pub put : (ℕ → ℕ) → ℕ → ℕ → ℕ → ℕ
put f p v a = if a == p then v else f a

-- rc_alloc, where rt_base_alloc answers `base`
unfoldable pub alloc : Counts → ℕ → ℕ × Counts
alloc c zero = (0, c)
alloc c (suc b) =
    let payload = suc b + rc_hdr in
    (payload, record c { count = put c.count payload 0; cold = put c.cold payload 0 })

-- rc_attach_cold, where rt_base_alloc answers `block`
unfoldable pub attach_cold : Counts → ℕ → ℕ → ℕ → Counts
attach_cold c zero link_offset block = c
attach_cold c (suc p) link_offset block = if link_offset == 0 then c else record c {
  word = put c.word (suc p + link_offset) block;
  cold = put c.cold (suc p) link_offset;
}

-- rc_retain and rc_retain_atomic
unfoldable pub retain : Counts → ℕ → Counts
retain c zero = c
retain c (suc p) = record c { count = put c.count (suc p) ((c.count (suc p) + 1) % 2 ^ 64) }

-- What the last release of an object hands back: its cold block first, whose address lies in it.
abbrev pub blocks : (ℕ → ℕ) → (ℕ → ℕ) → ℕ → List ℕ → List ℕ
blocks cold word p freed =
    let base = p - rc_hdr in if cold p == 0 then base ∷ freed else base ∷ word (p + cold p) ∷ freed

-- rc_release and rc_release_atomic
unfoldable pub release : Counts → ℕ → Counts
release c zero = c
release c (suc p) =
    let left = record c { count = put c.count (suc p) (c.count (suc p) - 1) } in
    if c.count (suc p) == 0
    then c
    else if c.count (suc p) == 1
    then record left { freed = blocks c.cold c.word (suc p) c.freed }
    else left
