-- ===== src/RtList/Script/Ledger/Balance.antt =====
-- The ledger over whole scripts, and at the teardown of the list.
use mathlib.Core.Path.{subst}
use prismio.Base.{
  ℕ, zero, suc, ◌+◌, ◌<◌, ◌≡◌, refl, sym, ap, ◌∙◌, Bool, true, List, [], ◌∷◌, ◌++◌, arith, take,
}
use prismio.Base.Int.{unsigned}
use prismio.RtList.State.{
  Own, unowned, free_header, RtList, Env, Trace, Run, exits, ok, ◌>>=◌, ptr_at,
}
use prismio.RtList.Release.{
  release, release_elements, release_boxed, release_all, release_parked, release_element, free_data,
}
use prismio.RtList.Replace.{set_elem, set_now, swap}
use prismio.RtList.Remove.{remove_at, insert}
use prismio.RtList.Script.{
  Op, push_op, set_op, set_now_op, swap_op, remove_op, truncate_op, insert_op, reserve_op, exec,
  run,
}
use prismio.RtList.Script.Elems.{CanGrow}
use prismio.RtList.Script.Refine.{exec-IsValid}
use prismio.RtList.Script.Ledger.{
  one_if, releases, retains, tally, tally-append, is_release, is_retain, count, count_slots, held,
  IsOwning, count_slots-take-suc, release_element-once,
}
use prismio.RtList.Script.Ledger.Calls.{IsOwner, Balanced, is_counted, given_set, push-Balanced}
use prismio.RtList.Script.Ledger.Sets.{set_at-Balanced, set_now_at-Balanced, swap_at-Balanced}
use prismio.RtList.Script.Ledger.Removes.{
  truncate-Balanced, remove_in-Balanced, insert_in-Balanced, reserve-Balanced,
}

-- How often a call hands `e` to the list.
pub given : ℕ → RtList → Op → ℕ
given e l (push_op v) = one_if v e
given e l (set_op i v) = given_set l (unsigned i) v e
given e l (set_now_op i v) = given_set l (unsigned i) v e
given e l (insert_op i v) = one_if v e
given e l _ = 0

-- Each call that returns keeps the ledger.
exec-Balanced :
    (env : Env) (op : Op) (e : ℕ) {l l' : RtList} {t : Trace}
    → IsOwner l
    → CanGrow env l
    → 0 < e
    → exec env op l ≡ ok t l'
    → Balanced l.elem_own e l l' t (given e l op)
unfolding exec given set_elem set_now swap remove_at insert
exec-Balanced env (push_op x) e {l} o can h r = ground (arith, push-Balanced env x e o can h)
exec-Balanced env (set_op i x) e {l} o can h r =
    ground (arith, set_at-Balanced (unsigned i) x e o h)
exec-Balanced env (set_now_op i x) e {l} o can h r =
    ground (arith, set_now_at-Balanced (unsigned i) x e o h)
exec-Balanced env (swap_op i j) e {l} o can h r =
    ground (arith, swap_at-Balanced (unsigned i) (unsigned j) e o)
exec-Balanced env (remove_op i now) e {l} o can h r =
    ground (arith, remove_in-Balanced (unsigned i) e now o h)
exec-Balanced env (truncate_op n now) e {l} o can h r =
    ground (arith, truncate-Balanced n e now o h)
exec-Balanced env (insert_op i x) e {l} o can h r =
    ground (arith, insert_in-Balanced env (unsigned i) x e o can h)
exec-Balanced env (reserve_op n) e {l} o can h r = ground (arith, reserve-Balanced env n e o can)

pub exec-IsOwner :
    (env : Env) (op : Op) {l l' : RtList} {t : Trace}
    → IsOwner l
    → CanGrow env l
    → exec env op l ≡ ok t l'
    → IsOwner l' × (l'.elem_own ≡ l.elem_own)
exec-IsOwner env op {l} {l'} o can r =
    let (v, same) = exec-IsValid env op o.valid can r in
    (
      record {
        valid = v;
        boxed = same.elem_size ∙ o.boxed;
        on_heap = same.arena ∙ o.on_heap;
        owning =
            subst (λ own. IsOwning own l'.releaser) (sym same.own)
              (subst (λ f. IsOwning l.elem_own f) (sym same.releaser) o.owning);
      },
      same.own,
    )

-- How often a script hands `e` to the list, as far as it runs.
pub given_run : ℕ → List (Env × Op) → RtList → ℕ
unfolding given
given_run e [] l = 0
given_run e ((env, op) ∷ ops) l =
    given e l op + elim (exec env op l) [ exits f ↦ 0 | ok t l' ↦ given_run e ops l' ]

-- At each call of a script there is memory for a larger block, and twice the capacity is an int.
unfoldable pub CanGrowAlong : List (Env × Op) → RtList → Type 0
CanGrowAlong [] l = Unit {0}
CanGrowAlong ((env, op) ∷ ops) l =
    CanGrow env l × elim (exec env op l) [ exits f ↦ Unit {0} | ok t l' ↦ CanGrowAlong ops l' ]

-- What a bind that returns has run.
>>=-ok :
    {A B : Type 0} (m : Run A) (k : A → Run B) {t : Trace} {b : B}
    → (m >>= k) ≡ ok t b
    → (s : Trace) × (a : A) × (s' : Trace) × (m ≡ ok s a) × (k a ≡ ok s' b) × (t ≡ s ++ s')
>>=-ok (exits f) k r = cc
>>=-ok {A = A} {B = B} (ok s a) k {t} {b} r = rest (k a) refl r
  where
    rest :
        (m : Run B)
        → k a ≡ m
        → ◌≡◌ {A = Run B} (elim m [ exits f ↦ exits f | ok s' b' ↦ ok (s ++ s') b' ]) (ok t b)
        → (s₁ : Trace) × (a₁ : A) × (s' : Trace) × (ok s a ≡ ok s₁ a₁)
          × (k a₁ ≡ ok s' b)
          × (t ≡ s₁ ++ s')
    rest (exits f) e r = cc
    rest (ok s' b') e r = (s, a, s', refl, cc, cc)

pub run-Balanced :
    (ops : List (Env × Op)) (e : ℕ) {l l' : RtList} {t : Trace}
    → IsOwner l
    → CanGrowAlong ops l
    → 0 < e
    → run ops l ≡ ok t l'
    → Balanced l.elem_own e l l' t (given_run e ops l) × IsOwner l' × (l'.elem_own ≡ l.elem_own)
unfolding run given_run CanGrowAlong
run-Balanced [] e {l} {l'} {t} o can h r = ground arith
run-Balanced ((env, op) ∷ ops) e {l} {l'} {t} o can h r =
    let (s, m, s', first, rest, both) = >>=-ok (exec env op l) (run ops) r in
    let step = exec-Balanced env op e o can.0 h first in
    let next = exec-IsOwner env op o can.0 first in
    let later_can : CanGrowAlong ops m =
      subst (λ x. elim x [ exits f ↦ Unit {0} | ok t l' ↦ CanGrowAlong ops l' ]) first can.1 in
    let later =
      subst (λ own. Balanced own e m l' s' (given_run e ops m)) next.1
        (run-Balanced ops e next.0 later_can h rest).0 in
    (
      rw first (record {
        released = omega (
          arith,
          step.released,
          later.released,
          ap (releases l.elem_own e) both,
          tally-append (is_release l.elem_own e) s s',
        );
        retained = ground (
          arith,
          step.retained,
          later.retained,
          ap (retains l.elem_own e) both,
          tally-append (is_retain l.elem_own e) s s',
        );
      }),
      (run-Balanced ops e next.0 later_can h rest).1,
      (run-Balanced ops e next.0 later_can h rest).2 ∙ next.1,
    )

-- The loops of list_release let go of each element once.
release_boxed-once :
    (l : RtList) (n e : ℕ)
    → IsOwning l.elem_own l.releaser
    → 0 < e
    → releases l.elem_own e (release_boxed l n) ≡ count_slots e (take n l.slots)
unfolding release_boxed
release_boxed-once l zero e o h = refl
release_boxed-once l (suc n) e o h = ground (
  arith,
  tally-append (is_release l.elem_own e) (release_element l.elem_own l.releaser (ptr_at l n))
      (release_boxed l n),
  release_element-once l.elem_own l.releaser e (ptr_at l n) o,
  release_boxed-once l n e o h,
  count_slots-take-suc e l.slots n h,
)

release_all-once :
    (own : Own) (releaser : Bool) (es : List ℕ) (e : ℕ)
    → IsOwning own releaser
    → releases own e (release_all own releaser es) ≡ count e es
unfolding release_all
release_all-once own releaser [] e o = refl
release_all-once own releaser (x ∷ es) e o = omega (
  arith,
  tally-append (is_release own e) (release_all own releaser es) (release_element own releaser x),
  release_element-once own releaser e x o,
  release_all-once own releaser es e o,
)

tail-quiet :
    (l : RtList) (own : Own) (e : ℕ)
    → releases own e (free_data l ++ (free_header l.handle ∷ [])) ≡ 0
unfolding free_data
tail-quiet l unowned e = ground arith
tail-quiet l own e = ground arith

elements-boxed : {l : RtList} → IsOwner l → release_elements l ≡ release_boxed l l.len
unfolding release_elements
elements-boxed {l} o = by_mode l.elem_own refl
  where
    by_mode : (own : Own) → l.elem_own ≡ own → release_elements l ≡ release_boxed l l.len
    by_mode unowned m = ground arith
    by_mode own m = ground arith

release-heap :
    (l : RtList)
    → l.arena ≡ 0
    → release l
      ≡ release_elements l ++ ((release_parked l).0 ++ (free_data l ++ (free_header l.handle ∷ [])))
unfolding release
release-heap l h = ground arith

parked-all : (l : RtList) → (release_parked l).0 ≡ release_all l.elem_own l.releaser l.grave
unfolding release_parked
parked-all l = refl

-- list_release lets go of every element of the list, parked or not, as often as the list holds it.
pub release-held :
    {l : RtList} (e : ℕ) → IsOwner l → 0 < e → releases l.elem_own e (release l) ≡ held e l
release-held {l} e o h =
    let own = l.elem_own in
    let w = is_release own e in
    let parked = (release_parked l).0 in
    let last = free_data l ++ (free_header l.handle ∷ []) in
    omega (
      arith,
      ap (tally w) (release-heap l o.on_heap),
      tally-append w (release_elements l) (parked ++ last),
      ap (tally w) (elements-boxed o),
      release_boxed-once l l.len e o.owning h,
      ap (tally w) (parked-all l),
      release_all-once own l.releaser l.grave e o.owning,
      tally-append w parked last,
      tail-quiet l own e,
    )

-- Nothing leaks and nothing is released twice: over any script of calls that returns, on a valid
-- boxed heap list whose elements are its own under a mode other than the two of the cycle collector,
-- and the teardown after it, each element, which is not NULL, is released as often as the list held
-- it at the start and was handed it since. At each call there is memory for a larger block, and the
-- capacity is below 2^30.
pub run-release-once :
    (ops : List (Env × Op)) (e : ℕ) {l l' : RtList} {t : Trace}
    → IsOwner l
    → CanGrowAlong ops l
    → 0 < e
    → run ops l ≡ ok t l'
    → releases l.elem_own e (t ++ release l') ≡ held e l + given_run e ops l
run-release-once ops e {l} {l'} {t} o can h r =
    let (b, o', same) = run-Balanced ops e o can h r in
    omega (
      arith,
      b.released,
      tally-append (is_release l.elem_own e) t (release l'),
      subst (λ own. releases own e (release l') ≡ held e l') same (release-held e o' h),
    )

-- The references balance: over any script of calls that returns, on a valid boxed heap list that
-- owns its elements under one of the two reference-counted modes without the cycle collector, and
-- the teardown after it, an element that is not NULL is released as often as the list held it at the
-- start and as the script retained it. At each call there is memory for a larger block, and the
-- capacity is below 2^30.
pub run-release-retains :
    (ops : List (Env × Op)) (e : ℕ) {l l' : RtList} {t : Trace}
    → IsOwner l
    → CanGrowAlong ops l
    → 0 < e
    → is_counted l.elem_own ≡ true
    → run ops l ≡ ok t l'
    → releases l.elem_own e (t ++ release l') ≡ held e l + retains l.elem_own e t
run-release-retains ops e {l} {l'} {t} o can h c r =
    let (b, o', same) = run-Balanced ops e o can h r in
    run-release-once ops e o can h r ∙ ap (λ n. held e l + n) (sym (b.retained ∙ rw c))
