-- ===== src/Pam/Factors/Swap.antt =====
-- The exchange of two array elements, as a permutation and by its values.
use mathlib.Core.List.{Perm}
use mathlib.Core.List.Perm
use lingmo_authenticate.Common.{
  ℕ, zero, suc, ◌≤◌, ◌<◌, ◌≡◌, refl, ◌==◌, if◌then◌else◌, some, List, [], ◌∷◌, arith, length,
  get_or, set, length-set, get_elem?-eq-get_or, get_or-set,
}
use lingmo_authenticate.Pam.Factors.{swap}

module _ {A : Type 0} where
  unfoldable pub swapped : List A → ℕ → ℕ → A → List A
  swapped a i j d = set (set a i (get_or a j d)) j (get_or a i d)

  pub swap-swapped :
      (a : List A) (i j : ℕ) (d : A)
      → i < length a
      → j < length a
      → swap a i j ≡ some (swapped a i j d)
  unfolding swap swapped
  swap-swapped a i j d h k =
      ground (arith, get_elem?-eq-get_or a i d h, get_elem?-eq-get_or a j d k)

  pub length-swapped : (a : List A) (i j : ℕ) (d : A) → length (swapped a i j d) ≡ length a
  unfolding swapped
  length-swapped a i j d = rw (length-set, length-set) refl

  pub get_or-swapped :
      (a : List A) (i j q : ℕ) (d : A)
      → i < length a
      → j < length a
      → get_or (swapped a i j d) q d
        ≡ (if j == q then get_or a i d else if i == q then get_or a j d else get_or a q d)
  unfolding swapped
  get_or-swapped a i j q d h k = ground (
    arith,
    get_or-set (set a i (get_or a j d)) j q (get_or a i d) d,
    get_or-set a i q (get_or a j d) d,
    length-set a i (get_or a j d),
  )

  set-perm :
      (xs : List A) (j : ℕ) (x d : A) → j < length xs → Perm (get_or xs j d ∷ set xs j x) (x ∷ xs)
  set-perm [] j x d h = elim h [ ]
  set-perm (y ∷ ys) zero x d h = Perm.swap _ _ _
  set-perm (y ∷ ys) (suc j) x d h =
      Perm.trans (Perm.swap _ _ _)
        (Perm.trans (Perm.cons y (set-perm ys j x d (omega arith))) (Perm.swap _ _ _))

  pub swapped-perm :
      (a : List A) (i j : ℕ) (d : A) → i ≤ j → j < length a → Perm (swapped a i j d) a
  unfolding swapped
  swapped-perm [] i j d h k = elim k [ ]
  swapped-perm (x ∷ xs) zero zero d h k = Perm.refl _
  swapped-perm (x ∷ xs) zero (suc j) d h k = set-perm xs j x d (omega arith)
  swapped-perm (x ∷ xs) (suc i) zero d h k = absurd (omega arith)
  swapped-perm (x ∷ xs) (suc i) (suc j) d h k =
      Perm.cons x (swapped-perm xs i j d (omega arith) (omega arith))
