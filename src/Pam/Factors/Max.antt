-- ===== src/Pam/Factors/Max.antt =====
-- The inner loop of the sort in `resolve_authctrl_factors`.
use lingmo_authenticate.Common.{
  ℕ, zero, suc, ◌+◌, ◌≤◌, ◌<◌, ◌≡◌, ◌⊎◌, refl, inl, inr, ℤ, pos, ltb_ℤ, pos_part, neg_part, some,
  List, arith, length, get_or, Bool-cases, get_elem?-eq-get_or,
}
use lingmo_authenticate.Pam.Factors.{find_max}

infix 50 ◌≤ℤ◌
abbrev pub ◌≤ℤ◌ : ℤ → ℤ → Type 0
a ≤ℤ b = pos_part a + neg_part b ≤ pos_part b + neg_part a

abbrev pub at : List ℤ → ℕ → ℤ
at order i = get_or order i (pos 0)

-- What the inner loop finds: the place of a greatest priority among `m` and the `n` from `j` on.
pub record IsGreatest (order : List ℤ) (n j m r : ℕ) : Type 0 where
  pub found : find_max order n j m ≡ some r
  pub place : (r ≡ m) ⊎ ((j ≤ r) × (r < j + n))
  pub first : at order m ≤ℤ at order r
  pub others : (q : ℕ) → j ≤ q → q < j + n → at order q ≤ℤ at order r

pub find_max-IsGreatest :
    (order : List ℤ) (n j m : ℕ)
    → m < length order
    → j + n ≤ length order
    → (r : ℕ) × IsGreatest order n j m r
unfolding find_max
find_max-IsGreatest order zero j m h k = (
  m,
  record {
    found = refl;
    place = inl refl;
    first = omega arith;
    others = λ q a b. absurd (omega arith);
  },
)
find_max-IsGreatest order (suc n) j m h k = elim (Bool-cases (ltb_ℤ (at order m) (at order j))) [
  | inl less ↦
      let (r, s) = find_max-IsGreatest order n (j + 1) j (omega arith) (omega arith) in
      (
        r,
        record {
          found = ground (
            arith,
            get_elem?-eq-get_or order m (pos 0) h,
            get_elem?-eq-get_or order j (pos 0),
            s.found,
          );
          place = omega (arith, s.place);
          first = ground (arith, s.first);
          others = λ q a b. ground (arith, s.others q, s.first);
        },
      )
  | inr more ↦
      let (r, s) = find_max-IsGreatest order n (j + 1) m h (omega arith) in
      (
        r,
        record {
          found = ground (
            arith,
            get_elem?-eq-get_or order m (pos 0) h,
            get_elem?-eq-get_or order j (pos 0),
            s.found,
          );
          place = omega (arith, s.place);
          first = s.first;
          others = λ q a b. ground (arith, s.others q, s.first);
        },
      )
]
