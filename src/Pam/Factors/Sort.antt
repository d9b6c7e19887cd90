-- ===== src/Pam/Factors/Sort.antt =====
-- The selection sort in `resolve_authctrl_factors` of misc/pam-module/auth/utils.c.
use mathlib.Core.Path.{subst}
use mathlib.Core.List.{Perm}
use mathlib.Core.List.Perm
use native.Mathlib.Nat.{add-zero}
use lingmo_authenticate.Common.{
  ℕ, zero, suc, ◌+◌, ◌-◌, ◌≤◌, ◌<◌, ◌≡◌, refl, ap, ◌∙◌, ◌==◌, if◌then◌else◌, ℤ, pos, some, List, [],
  ◌∷◌, arith, length, get_or, Bool, map,
}
use lingmo_authenticate.Pam.State.{AuthFactor, AuthSession}
use lingmo_authenticate.Pam.Factors.{Arrays, sort_step, sort_loop, range, resolve_authctrl_factors}
use lingmo_authenticate.Pam.Factors.Max.{◌≤ℤ◌, at, IsGreatest, find_max-IsGreatest}
use lingmo_authenticate.Pam.Factors.Swap.{
  swapped, swap-swapped, length-swapped, get_or-swapped, swapped-perm,
}

-- After `i` rounds: the indices are a permutation that `order` agrees with, and the first `i`
-- priorities are in order and not below any later one.
record Sorting (ps : List ℤ) (i : ℕ) (a : Arrays) : Type 0 where
  order_len : length a.order ≡ length ps
  index_len : length a.factor_order ≡ length ps
  perm : Perm a.factor_order (range 0 (length ps))
  bounded : (q : ℕ) → q < length ps → get_or a.factor_order q 0 < length ps
  agree : (q : ℕ) → q < length ps → at a.order q ≡ at ps (get_or a.factor_order q 0)
  sorted : (p q : ℕ) → p < i → p < q → q < length ps → at a.order q ≤ℤ at a.order p

abbrev exchanged : Arrays → ℕ → ℕ → Arrays
exchanged a i r = record {
  order = swapped a.order i r (pos 0);
  factor_order = swapped a.factor_order i r 0;
}

module _ (ps : List ℤ) (i r : ℕ) (a : Arrays) (s : Sorting ps i a) (hi : i < length ps)
    (m : IsGreatest a.order (length ps - (i + 1)) (i + 1) i r) where
  place_bounds : (i ≤ r) × (r < length ps)
  place_bounds = omega (arith, m.place)

  order_at :
      (q : ℕ)
      → at (swapped a.order i r (pos 0)) q
        ≡ (if r == q then at a.order i else if i == q then at a.order r else at a.order q)
  order_at q =
      get_or-swapped a.order i r q (pos 0) (omega (arith, s.order_len))
        (omega (arith, s.order_len, place_bounds))

  index_at :
      (q : ℕ)
      → get_or (swapped a.factor_order i r 0) q 0 ≡ (
          if r == q
          then get_or a.factor_order i 0
          else if i == q
          then get_or a.factor_order r 0
          else get_or a.factor_order q 0)
  index_at q =
      get_or-swapped a.factor_order i r q 0 (omega (arith, s.index_len))
        (omega (arith, s.index_len, place_bounds))

  exchange-sorted :
      (p q : ℕ)
      → p < i + 1
      → p < q
      → q < length ps
      → at (swapped a.order i r (pos 0)) q ≤ℤ at (swapped a.order i r (pos 0)) p
  exchange-sorted p q h k l = ground (
    arith,
    order_at p,
    order_at q,
    place_bounds,
    m.first,
    m.others q,
    s.sorted p q,
    s.sorted p i,
    s.sorted p r,
  )

  exchange-Sorting : Sorting ps (i + 1) (exchanged a i r)
  exchange-Sorting = record {
    order_len = length-swapped a.order i r (pos 0) ∙ s.order_len;
    index_len = length-swapped a.factor_order i r 0 ∙ s.index_len;
    perm =
        Perm.trans
          (swapped-perm a.factor_order i r 0 place_bounds.0
            (omega (arith, place_bounds, s.index_len)))
          s.perm;
    bounded =
        λ q h. ground (arith, index_at q, place_bounds, s.bounded q, s.bounded i, s.bounded r);
    agree = λ q h.
        ground (arith, order_at q, index_at q, place_bounds, s.agree q, s.agree i, s.agree r);
    sorted = exchange-sorted;
  }

sort_step-Sorting :
    (ps : List ℤ) (i : ℕ) (a : Arrays)
    → Sorting ps i a
    → i < length ps
    → (b : Arrays) × (sort_step (length ps) i a ≡ some b) × Sorting ps (i + 1) b
unfolding sort_step
sort_step-Sorting ps i a s h =
    let (r, m) =
      find_max-IsGreatest a.order (length ps - (i + 1)) (i + 1) i (omega (arith, s.order_len))
        (omega (arith, s.order_len)) in
    (
      exchanged a i r,
      ground (
        arith,
        m.found,
        swap-swapped a.order i r (pos 0) (omega (arith, s.order_len))
            (omega (arith, m.place, s.order_len)),
        swap-swapped a.factor_order i r 0 (omega (arith, s.index_len))
            (omega (arith, m.place, s.index_len)),
      ),
      exchange-Sorting ps i r a s h m,
    )

sort_loop-Sorting :
    (ps : List ℤ) (n i : ℕ) (a : Arrays)
    → Sorting ps i a
    → i + n < suc (length ps)
    → (b : Arrays) × (sort_loop (length ps) n i a ≡ some b) × Sorting ps (i + n) b
unfolding sort_loop
sort_loop-Sorting ps zero i a s h = (a, refl, rw add-zero s)
sort_loop-Sorting ps (suc n) i a s h =
    let (b, e, t) = sort_step-Sorting ps i a s (omega arith) in
    let (c, f, u) = sort_loop-Sorting ps n (i + 1) b t (omega arith) in
    let same : i + 1 + n ≡ i + suc n = omega arith in (c, ground (arith, e, f), rw (← same) u)

length-range : (n i : ℕ) → length (range i n) ≡ n
unfolding range
length-range zero i = refl
length-range (suc n) i = ap suc (length-range n (i + 1))

get_or-range : (n i q : ℕ) → q < n → get_or (range i n) q 0 ≡ i + q
unfolding range
get_or-range zero i q h = elim h [ ]
get_or-range (suc n) i zero h = omega arith
get_or-range (suc n) i (suc q) h = get_or-range n (i + 1) q (omega arith) ∙ omega arith

start-Sorting :
    (ps : List ℤ) → Sorting ps 0 (record { order = ps; factor_order = range 0 (length ps) })
start-Sorting ps = record {
  order_len = refl;
  index_len = length-range (length ps) 0;
  perm = Perm.refl _;
  bounded = λ q h. omega (arith, get_or-range (length ps) 0 q h);
  agree = λ q h. rw (get_or-range (length ps) 0 q h) (ap (λ k. at ps k) (omega arith));
  sorted = λ p q h k l. absurd (omega arith);
}

abbrev pub priorities : List AuthFactor → List ℤ
priorities factors = map (λ f. f.priority) factors

-- A session as `resolve_authctrl_factors` leaves it.
pub record IsOrdered (ctrl : AuthSession) : Type 0 where
  pub size : ctrl.factor_size ≡ length ctrl.factors
  pub index_len : length ctrl.factor_order ≡ ctrl.factor_size
  pub perm : Perm ctrl.factor_order (range 0 ctrl.factor_size)
  pub bounded : (q : ℕ) → q < ctrl.factor_size → get_or ctrl.factor_order q 0 < length ctrl.factors
  pub descending :
      (p q : ℕ)
      → p < q
      → q < ctrl.factor_size
      → at (priorities ctrl.factors) (get_or ctrl.factor_order q 0)
        ≤ℤ at (priorities ctrl.factors) (get_or ctrl.factor_order p 0)

length-priorities : (fs : List AuthFactor) → length (priorities fs) ≡ length fs
length-priorities [] = refl
length-priorities (f ∷ fs) = ap suc (length-priorities fs)

abbrev session : Bool → List AuthFactor → Arrays → AuthSession
session is_mfa factors b = record {
  is_mfa = is_mfa;
  factor_size = length factors;
  factor_order = b.factor_order;
  factors = factors;
}

abbrev Sorted : List ℤ → ℕ → Arrays → Type 0
Sorted ps n b =
    (sort_loop n (n - 1) 0 (record { order = ps; factor_order = range 0 n }) ≡ some b)
    × Perm b.factor_order (range 0 n)
    × Sorting ps (n - 1) b

sort_all : (ps : List ℤ) (n : ℕ) → length ps ≡ n → (b : Arrays) × Sorted ps n b
sort_all ps n e =
    subst (λ k. (b : Arrays) × Sorted ps k b) e
      (let (b, f, s) = sort_loop-Sorting ps (length ps - 1) 0 _ (start-Sorting ps) (omega arith) in
        let same : 0 + (length ps - 1) ≡ length ps - 1 = omega arith in
        (b, (f, s.perm, rw same at s)))

session-IsOrdered :
    (is_mfa : Bool) (factors : List AuthFactor) (b : Arrays)
    → Sorted (priorities factors) (length factors) b
    → IsOrdered (session is_mfa factors b)
session-IsOrdered is_mfa factors b w =
    let len = length-priorities factors in
    let s = w.2 in
    record {
      size = refl;
      index_len = s.index_len ∙ len;
      perm = w.1;
      bounded = λ q h. omega (arith, s.bounded q (omega arith));
      descending = λ p q h k. ground (arith, s.sorted p q, s.agree p, s.agree q, len);
    }

-- `resolve_authctrl_factors` reads and writes inside its arrays for every list of factors; it keeps
-- the factors, and orders their indices, each of which appears exactly once, by descending priority.
pub resolve_authctrl_factors-IsOrdered :
    (is_mfa : Bool) (factors : List AuthFactor)
    → (ctrl : AuthSession) × (resolve_authctrl_factors is_mfa factors ≡ some ctrl)
      × (ctrl.factors ≡ factors)
      × (ctrl.is_mfa ≡ is_mfa)
      × IsOrdered ctrl
unfolding resolve_authctrl_factors
resolve_authctrl_factors-IsOrdered is_mfa factors =
    let (b, w) = sort_all (priorities factors) (length factors) (length-priorities factors) in
    (
      session is_mfa factors b,
      ground (arith, w.0),
      refl,
      refl,
      session-IsOrdered is_mfa factors b w,
    )
