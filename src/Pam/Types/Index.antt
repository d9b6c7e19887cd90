-- ===== src/Pam/Types/Index.antt =====
-- The loop of `type_to_index` in misc/pam-module/auth/type.c.
use lingmo_authenticate.Common.{
  ℕ, zero, suc, ◌+◌, ◌≤◌, ◌<◌, ◌≡◌, ◌⊎◌, ◌↔◌, ℤ, bit, true, false, none, some, arith, Bool-cases,
  Option-cases, inl, inr,
}
use lingmo_authenticate.Pam.Types.{first_bit, type_to_index}

abbrev pub IsLowestBit : ℤ → ℕ → Type 0
IsLowestBit a i = (i < 32) × (bit a i ≡ true) × ((j : ℕ) → j < i → bit a j ≡ false)

record Found (a : ℤ) (lo hi i : ℕ) : Type 0 where
  above : lo ≤ i
  below : i < hi
  is_set : bit a i ≡ true
  clear : (j : ℕ) → lo ≤ j → j < i → bit a j ≡ false

same_or_above : (lo j : ℕ) → lo ≤ j → (lo ≡ j) ⊎ (lo + 1 ≤ j)
same_or_above lo j h = ground arith

module _ (a : ℤ) where
  first_bit-Found : (n lo : ℕ) {i : ℕ} → first_bit n lo a ≡ some i → Found a lo (lo + n) i
  unfolding first_bit
  first_bit-Found zero lo h = cc
  first_bit-Found (suc n) lo {i} h = elim (Bool-cases (bit a lo)) [
    | inl e ↦
        let here : lo ≡ i = ground arith in
        rw (← here) (record {
          above = omega arith;
          below = omega arith;
          is_set = e;
          clear = λ j p q. absurd (omega arith);
        })
    | inr e ↦
        let rest = first_bit-Found n (lo + 1) {i = i} (ground arith) in
        record {
          above = omega (arith, rest.above);
          below = omega (arith, rest.below);
          is_set = rest.is_set;
          clear = λ j p q. elim (same_or_above lo j p) [
            | inl same ↦ rw (← same) e
            | inr above ↦ rest.clear j above q
          ];
        }
  ]

  first_bit-none :
      (n lo : ℕ) → first_bit n lo a ≡ none → (j : ℕ) → lo ≤ j → j < lo + n → bit a j ≡ false
  unfolding first_bit
  first_bit-none zero lo h j p q = absurd (omega arith)
  first_bit-none (suc n) lo h j p q = elim (same_or_above lo j p) [
    | inl same ↦ rw (← same) (ground arith)
    | inr above ↦ first_bit-none n (lo + 1) (ground arith) j above (omega arith)
  ]

module _ (a : ℤ) where
  lt_refuted : (i k : ℕ) → IsLowestBit a i → IsLowestBit a k → ¬ (i < k)
  lt_refuted i k hi hk p = ground (arith, hk.2 i p, hi.1)

  lowest_unique : (i k : ℕ) → IsLowestBit a i → IsLowestBit a k → i ≡ k
  lowest_unique i k hi hk = omega (arith, lt_refuted i k hi hk, lt_refuted k i hk hi)

  first_bit-lowest : {i : ℕ} → first_bit 32 0 a ≡ some i → IsLowestBit a i
  first_bit-lowest e =
      let f = first_bit-Found a 32 0 e in (f.below, f.is_set, λ j p. f.clear j (omega arith) p)

  -- `type_to_index` returns an index exactly when it is that of the lowest bit that is set among
  -- the 32 bits of the argument.
  pub type_to_index-lowest : (i : ℕ) → (type_to_index a ≡ some i) ↔ IsLowestBit a i
  unfolding type_to_index
  type_to_index-lowest i = (
    first_bit-lowest,
    λ h. elim (Option-cases (first_bit 32 0 a)) [
      | inl e ↦
          let clear = first_bit-none a 32 0 e i (omega arith) (omega (arith, h.0)) in
          ground (arith, h.1)
      | inr (k, e) ↦ let same = lowest_unique k i (first_bit-lowest e) h in rw e (cc)
    ],
  )

  -- The loop of `type_to_index` has no defined end, since it shifts past the width of int, exactly
  -- when none of the 32 bits is set.
  pub type_to_index-none : (type_to_index a ≡ none) ↔ ((j : ℕ) → j < 32 → bit a j ≡ false)
  unfolding type_to_index
  type_to_index-none = (
    λ e j p. first_bit-none a 32 0 e j (omega arith) p,
    λ clear. elim (Option-cases (first_bit 32 0 a)) [
      | inl e ↦ e
      | inr (k, e) ↦ let f = first_bit-lowest e in let off = clear k f.0 in ground (arith, f.1)
    ],
  )
