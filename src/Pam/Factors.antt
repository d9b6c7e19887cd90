-- ===== src/Pam/Factors.antt =====
-- `resolve_authctrl_factors` of misc/pam-module/auth/utils.c: the factors
-- of a session in the order of their priorities.
pub mod Swap
pub mod Max
pub mod Sort
use lingmo_authenticate.Common.{
  ℕ, zero, suc, ◌+◌, ◌-◌, ℤ, ltb_ℤ, Bool, Option, none, some, List, [], ◌∷◌, length, get_elem?, set,
  if◌then◌else◌, map,
}
use lingmo_authenticate.Pam.State.{AuthFactor, AuthSession}

-- `order` (the priorities) and `factorOrder` (the indices), which the sort permutes together.
pub record Arrays : Type 0 where
  pub order : List ℤ
  pub factor_order : List ℕ

-- The inner loop over `j`, with `n` rounds left. A read out of the array is undefined.
unfoldable pub find_max : List ℤ → ℕ → ℕ → ℕ → Option ℕ
find_max order zero j max_idx = some max_idx
find_max order (suc n) j max_idx = elim (get_elem? order max_idx) [
  | none ↦ none
  | some best ↦ elim (get_elem? order j) [
    | none ↦ none
    | some here ↦ find_max order n (j + 1) (if ltb_ℤ best here then j else max_idx)
  ]
]

-- `tmp = a[i]; a[i] = a[j]; a[j] = tmp`
unfoldable pub swap {ℓ} : {A : Type ℓ} → List A → ℕ → ℕ → Option (List A)
swap a i j = elim (get_elem? a i) [
  | none ↦ none
  | some tmp ↦ elim (get_elem? a j) [ none ↦ none | some v ↦ some (set (set a i v) j tmp) ]
]

-- The body of the outer loop.
unfoldable pub sort_step : ℕ → ℕ → Arrays → Option Arrays
sort_step size i a = elim (find_max a.order (size - (i + 1)) (i + 1) i) [
  | none ↦ none
  | some max_idx ↦ elim (swap a.factor_order i max_idx) [
    | none ↦ none
    | some factor_order ↦ elim (swap a.order i max_idx) [
      | none ↦ none
      | some order ↦ some (record { order = order; factor_order = factor_order })
    ]
  ]
]

-- The outer loop over `i`, with `n` rounds left.
unfoldable pub sort_loop : ℕ → ℕ → ℕ → Arrays → Option Arrays
sort_loop size zero i a = some a
sort_loop size (suc n) i a = elim (sort_step size i a) [
  | none ↦ none
  | some b ↦ sort_loop size n (i + 1) b
]

-- `i, i + 1, …`, the indices that the first loop writes.
unfoldable pub range : ℕ → ℕ → List ℕ
range i zero = []
range i (suc n) = i ∷ range (i + 1) n

-- The session from the factors that the D-Bus message holds; reading them is not modelled.
unfoldable pub resolve_authctrl_factors : Bool → List AuthFactor → Option AuthSession
resolve_authctrl_factors is_mfa factors =
    let n = length factors in
    elim (sort_loop n (n - 1) 0
      (record { order = map (λ f. f.priority) factors; factor_order = range 0 n })) [
        | none ↦ none
        | some a ↦ some (record {
          is_mfa = is_mfa;
          factor_size = n;
          factor_order = a.factor_order;
          factors = factors;
        })
      ]
