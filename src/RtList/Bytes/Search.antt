-- ===== src/RtList/Bytes/Search.antt =====
-- The search for a byte.
use prismio.Base.{
  ℕ, ◌+◌, ◌-◌, ◌<◌, ◌≤◌, ◌≡◌, ◌≢◌, ◌⊎◌, inl, inr, refl, sym, ap, ◌∙◌, Bool-cases, Option-cases, [],
  arith, leb, length,
}
use prismio.Base.Find.{find, find-some, find-none}
use prismio.Base.Int.{ℤ, pos, negsuc, pos_part}
use prismio.RtList.State.{RtList, ok}
use prismio.RtList.Bytes.{read, index_of, low_byte}
use prismio.RtList.Bytes.Laws.{IsBuffer, byte_at, at-inside, length-read, get_or-read}

-- In a valid buffer the index of a byte from a start, or of its place below 0, is that of the first
-- such byte at or behind the start, and -1 exactly where there is none.
pub index_of-first :
    (l : RtList) (byte : ℤ) (from : ℤ)
    → IsBuffer l
    → ((i : ℕ) × (index_of l byte from ≡ ok [] (pos i))
        × (pos_part from ≤ i)
        × (i < l.len)
        × (byte_at l i ≡ low_byte byte)
        × ((j : ℕ) → pos_part from ≤ j → j < i → byte_at l j ≢ low_byte byte))
      ⊎ ((index_of l byte from ≡ ok [] (negsuc 0))
          × ((j : ℕ) → pos_part from ≤ j → j < l.len → byte_at l j ≢ low_byte byte))
unfolding index_of
index_of-first l byte from b = elim (Bool-cases (leb l.len start)) [
  | inl e ↦
      inr (rw e refl, λ j low high. absurd (let h : l.len ≤ start = ground arith in omega arith))
  | inr e ↦
      let inside : start < l.len = ground arith in
      let n = l.len - start in
      let fits : start + n ≤ length l.slots = omega (arith, b.valid.block, b.valid.len_in) in
      let len : length (read l start n) ≡ n = length-read l start n fits in
      let here = at-inside l 0 l.len b (omega arith) in
      elim (Option-cases (find (low_byte byte) (read l start n))) [
        | inl absent ↦ inr (
          rw (e, here, absent) refl,
          λ j low high eq.
              find-none (low_byte byte) (read l start n) absent (j - start) (omega (arith, len)) (
                get_or-read l.slots start n (j - start) (omega arith)
                ∙ ap (byte_at l) (omega arith)
                ∙ eq),
        )
        | inr found ↦
            let k = found.0 in
            let r = find-some (low_byte byte) (read l start n) k found.1 in
            let small : k < n = omega (arith, r.0, len) in
            inl (
              start + k,
              rw (e, here, found.1) refl,
              omega arith,
              omega arith,
              sym (get_or-read l.slots start n k small) ∙ r.1,
              λ j low high eq. r.2 (j - start) (omega arith) (
                  get_or-read l.slots start n (j - start) (omega arith)
                  ∙ ap (byte_at l) (omega arith)
                  ∙ eq),
            )
      ]
]
  where
    start : ℕ
    start = pos_part from
