-- ===== src/Verify/Chain.antt =====
-- The chains of the ledger's buckets beside one list of the live blocks.
use prismio.Base.{
  ℕ, zero, suc, ◌+◌, ◌<◌, ◌≡◌, refl, sym, ap, ◌∙◌, Bool, true, false, Option, none, some, ◌≢◌, List,
  [], ◌∷◌, arith, ◌==◌, ==_iff, ltb, lt→ltb, Bool-cases, inl, inr, if◌then◌else◌, length,
}
use prismio.Verify.{Node, buckets, live_hash, unlink, size_in, at_bucket}

-- The chain that the live blocks of a list make in a bucket.
unfoldable pub on_bucket : ℕ → List Node → List Node
on_bucket b [] = []
on_bucket b (n ∷ ns) = let rest = on_bucket b ns in if live_hash n.p == b then n ∷ rest else rest

-- What taking a block out of the list is for the buckets.
abbrev pub Unlinked : ℕ → List Node → Option (Node × List Node) → Type 0
Unlinked p ns none = unlink p (on_bucket (live_hash p) ns) ≡ none
Unlinked p ns (some r) =
    (r.0.p ≡ p)
    × (unlink p (on_bucket (live_hash p) ns) ≡ some (r.0, on_bucket (live_hash p) r.1))
    × ((b : ℕ) → live_hash p ≢ b → on_bucket b ns ≡ on_bucket b r.1)

abbrev cons_if : Bool → Node → List Node → List Node
cons_if t n ns = if t then n ∷ ns else ns

unlink_hit :
    (p : ℕ) (n : Node) (ns : List Node) → (n.p == p) ≡ true → unlink p (n ∷ ns) ≡ some (n, ns)
unfolding unlink
unlink_hit p n ns e = rw e refl

unlink_miss :
    (p : ℕ) (n : Node) (ns : List Node)
    → (n.p == p) ≡ false
    → unlink p (n ∷ ns) ≡ (elim (unlink p ns) [ none ↦ none | some r ↦ some (r.0, n ∷ r.1) ])
unfolding unlink
unlink_miss p n ns e = rw e refl

unlink-cons_if-none :
    (p : ℕ) (t : Bool) (n : Node) (ns : List Node)
    → (n.p == p) ≡ false
    → unlink p ns ≡ none
    → unlink p (cons_if t n ns) ≡ none
unlink-cons_if-none p true n ns e u = unlink_miss p n ns e ∙ rw u refl
unlink-cons_if-none p false n ns e u = u

unlink-cons_if :
    (p : ℕ) (t : Bool) (n m : Node) (ns ms : List Node)
    → (n.p == p) ≡ false
    → unlink p ns ≡ some (m, ms)
    → unlink p (cons_if t n ns) ≡ some (m, cons_if t n ms)
unlink-cons_if p true n m ns ms e u = unlink_miss p n ns e ∙ rw u refl
unlink-cons_if p false n m ns ms e u = u

not_eqb : (a b : ℕ) → a ≢ b → (a == b) ≡ false
not_eqb a b h = ground arith

eqb_sym_false : (a b : ℕ) → (a == b) ≡ false → (b == a) ≡ false
eqb_sym_false a b h = ground arith

eqb_false : (a b : ℕ) → (a == b) ≡ false → a ≢ b
eqb_false a b h = ground arith

unlink_same : (p : ℕ) (n : Node) (ns : List Node) → n.p ≡ p → Unlinked p (n ∷ ns) (some (n, ns))
unfolding on_bucket
unlink_same p n ns e =
    let here : (live_hash n.p == live_hash p) ≡ true =
      (==_iff (live_hash n.p) (live_hash p)).1 (ap live_hash e) in
    (
      e,
      ap (λ t. unlink p (cons_if t n (on_bucket (live_hash p) ns))) here
          ∙ unlink_hit p n (on_bucket (live_hash p) ns) ((==_iff n.p p).1 e),
      λ b other.
          ap (λ t. cons_if t n (on_bucket b ns))
            (not_eqb (live_hash n.p) b (λ q. other (sym (ap live_hash e) ∙ q))),
    )

unlink_other :
    (p : ℕ) (n : Node) (ns : List Node) (o : Option (Node × List Node))
    → (n.p == p) ≡ false
    → Unlinked p ns o
    → Unlinked p (n ∷ ns) (elim o [ none ↦ none | some r ↦ some (r.0, n ∷ r.1) ])
unfolding on_bucket
unlink_other p n ns none e u =
    unlink-cons_if-none p (live_hash n.p == live_hash p) n (on_bucket (live_hash p) ns) e u
unlink_other p n ns (some r) e u = (
  u.0,
  unlink-cons_if p (live_hash n.p == live_hash p) n r.0 (on_bucket (live_hash p) ns)
      (on_bucket (live_hash p) r.1) e u.1,
  λ b other. ap (cons_if (live_hash n.p == b) n) (u.2 b other),
)

-- Taking a block out of the list takes it out of its bucket, and leaves the others.
pub unlink-on_bucket : (p : ℕ) (ns : List Node) → Unlinked p ns (unlink p ns)
unfolding unlink on_bucket
unlink-on_bucket p [] = refl
unlink-on_bucket p (n ∷ ns) = by_test (n.p == p) refl (unlink-on_bucket p ns)
  where
    by_test :
        (b : Bool)
        → (n.p == p) ≡ b
        → Unlinked p ns (unlink p ns)
        → Unlinked p (n ∷ ns) (
            if b
            then some (n, ns)
            else elim (unlink p ns) [ none ↦ none | some r ↦ some (r.0, n ∷ r.1) ])
    by_test true e u = unlink_same p n ns ((==_iff n.p p).0 e)
    by_test false e u = unlink_other p n ns (unlink p ns) e u

size_in-cons_if :
    (p : ℕ) (t : Bool) (n : Node) (ns : List Node)
    → (n.p == p) ≡ false
    → size_in p (cons_if t n ns) ≡ size_in p ns
size_in-cons_if p true n ns e = rw e refl
size_in-cons_if p false n ns e = refl

length-cons_if :
    (t : Bool) (n : Node) (ns : List Node)
    → length (cons_if t n ns) ≡ length ns + (if t then 1 else 0)
length-cons_if true n ns = omega arith
length-cons_if false n ns = omega arith

-- The size that the walk of a bucket finds is that of the list.
pub size_in-on_bucket :
    (p : ℕ) (ns : List Node) → size_in p (on_bucket (live_hash p) ns) ≡ size_in p ns
unfolding on_bucket
size_in-on_bucket p [] = refl
size_in-on_bucket p (n ∷ ns) = elim (Bool-cases (n.p == p)) [
  | inl e ↦
      ap (λ t. size_in p (cons_if t n (on_bucket (live_hash p) ns)))
        ((==_iff (live_hash n.p) (live_hash p)).1 (ap live_hash ((==_iff n.p p).0 e)))
      ∙ rw e refl
  | inr e ↦
      size_in-cons_if p (live_hash n.p == live_hash p) n (on_bucket (live_hash p) ns) e
      ∙ (size_in-on_bucket p ns ∙ rw e refl)
]

-- The sum of the buckets' lengths.
unfoldable pub in_buckets : ℕ → List Node → ℕ
in_buckets zero ns = 0
in_buckets (suc b) ns = in_buckets b ns + length (on_bucket b ns)

in_buckets-cons :
    (b : ℕ) (n : Node) (ns : List Node)
    → in_buckets b (n ∷ ns) ≡ in_buckets b ns + (if ltb (live_hash n.p) b then 1 else 0)
unfolding in_buckets on_bucket
in_buckets-cons zero n ns = ground arith
in_buckets-cons (suc b) n ns =
    split (live_hash n.p) (in_buckets b (n ∷ ns)) (in_buckets b ns)
      (length (cons_if (live_hash n.p == b) n (on_bucket b ns))) (length (on_bucket b ns))
      (in_buckets-cons b n ns) (length-cons_if (live_hash n.p == b) n (on_bucket b ns))
  where
    split :
        (h x y l k : ℕ)
        → x ≡ y + (if ltb h b then 1 else 0)
        → l ≡ k + (if h == b then 1 else 0)
        → x + l ≡ y + k + (if ltb h (suc b) then 1 else 0)
    split h x y l k ex el = ground arith

live_hash_bound : (p : ℕ) → live_hash p < buckets
unfolding live_hash
live_hash_bound p = omega arith

in_buckets-nil : (b : ℕ) → in_buckets b [] ≡ 0
unfolding in_buckets on_bucket
in_buckets-nil zero = refl
in_buckets-nil (suc b) = omega (arith, in_buckets-nil b)

-- Every live block is in one of the buckets.
pub in_buckets-length : (ns : List Node) → in_buckets buckets ns ≡ length ns
in_buckets-length [] = in_buckets-nil buckets
in_buckets-length (n ∷ ns) =
    in_buckets-cons buckets n ns
    ∙ (rw (lt→ltb (live_hash n.p) buckets (live_hash_bound n.p))
        (omega (arith, in_buckets-length ns)))

-- A node that is put in front of its bucket's chain is in front of the list.
pub at_bucket-cons :
    (live : ℕ → List Node) (ns : List Node) (n : Node)
    → ((b : ℕ) → live b ≡ on_bucket b ns)
    → (b : ℕ) → at_bucket live (live_hash n.p) (n ∷ live (live_hash n.p)) b ≡ on_bucket b (n ∷ ns)
unfolding on_bucket
at_bucket-cons live ns n chains b = elim (Bool-cases (live_hash n.p == b)) [
  | inl e ↦
      let same = (==_iff (live_hash n.p) b).0 e in
      ap (λ t. if t then n ∷ live (live_hash n.p) else live b)
        ((==_iff b (live_hash n.p)).1 (sym same))
      ∙ (ap (λ x. n ∷ live x) same ∙ (ap (n ∷◌) (chains b) ∙ rw e refl))
  | inr e ↦
      ap (λ t. if t then n ∷ live (live_hash n.p) else live b) (eqb_sym_false (live_hash n.p) b e)
      ∙ (chains b ∙ rw e refl)
]

-- A chain that has lost its block is the chain of the list without it.
pub at_bucket-unlinked :
    (live : ℕ → List Node) (ns rest : List Node) (p : ℕ)
    → ((b : ℕ) → live b ≡ on_bucket b ns)
    → ((b : ℕ) → live_hash p ≢ b → on_bucket b ns ≡ on_bucket b rest)
    → (b : ℕ) → at_bucket live (live_hash p) (on_bucket (live_hash p) rest) b ≡ on_bucket b rest
at_bucket-unlinked live ns rest p chains others b = elim (Bool-cases (b == live_hash p)) [
  | inl e ↦ rw e (ap (λ x. on_bucket x rest) (sym ((==_iff b (live_hash p)).0 e)))
  | inr e ↦ rw e (chains b ∙ others b (λ q. eqb_false b (live_hash p) e (sym q)))
]
