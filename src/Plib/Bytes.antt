-- ===== src/Plib/Bytes.antt =====
-- The bytes of numbers, and the parts of a file.
use prismio.Base.{
  ℕ, zero, suc, ◌*◌, ◌/◌, ◌<◌, ◌≡◌, refl, ap, ◌∙◌, Bool, true, List, [], ◌∷◌, ◌++◌, arith, length,
  take, drop, take-append_front, drop-append_front,
}
use prismio.Plib.{
  Load, PlibError, require, read_le, write_le, same_text, read_at, header_bytes, section_bytes,
  magic,
}

abbrev pub bound : ℕ → ℕ
bound zero = 1
bound (suc n) = 256 * bound n

pub length-write_le : (n v : ℕ) → length (write_le n v) ≡ n
unfolding write_le
length-write_le zero v = refl
length-write_le (suc n) v = ap suc (length-write_le n (v / 256))

-- A number that its bytes can hold is read back from them.
pub read_le-write_le : (n v : ℕ) → v < bound n → read_le (write_le n v) ≡ v
unfolding read_le write_le
read_le-write_le zero v h = omega arith
read_le-write_le (suc n) v h = omega (arith, read_le-write_le n (v / 256) (omega arith))

pub same_text_refl : (xs : List ℕ) → same_text xs xs ≡ true
same_text_refl [] = refl
same_text_refl (x ∷ xs) = ground (arith, same_text_refl xs)

pub require-true :
    {A : Type 0} (b : Bool) (e : PlibError) (rest : Load A) → b ≡ true → require b e rest ≡ rest
require-true b e rest h = rw h refl

-- The middle of a file, behind a part of known length.
pub read_at-append :
    (pre mid post : List ℕ) (o n : ℕ)
    → o ≡ length pre
    → n ≡ length mid
    → read_at (pre ++ (mid ++ post)) o n ≡ mid
read_at-append pre mid post o n eo en =
    ap (take n) (drop-append_front pre (mid ++ post) o eo) ∙ take-append_front mid post n en

-- The parts of a header.
pub header_bytes-parts :
    (m i : ℕ)
    → (length (header_bytes m i) ≡ 24)
      × (take 8 (header_bytes m i) ≡ magic)
      × (take 4 (drop 8 (header_bytes m i)) ≡ write_le 4 m)
      × (take 8 (drop 12 (header_bytes m i)) ≡ write_le 8 i)
      × (take 4 (drop 20 (header_bytes m i)) ≡ write_le 4 1)
unfolding header_bytes write_le
header_bytes-parts m i = (refl, refl, refl, refl, refl)

pub section_bytes-parts :
    (c v : ℕ)
    → (length (section_bytes c v) ≡ 20)
      × (take 4 (section_bytes c v) ≡ write_le 4 0)
      × (take 8 (drop 4 (section_bytes c v)) ≡ write_le 8 c)
      × (take 8 (drop 12 (section_bytes c v)) ≡ write_le 8 v)
unfolding section_bytes write_le
section_bytes-parts c v = (refl, refl, refl, refl)
