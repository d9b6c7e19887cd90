-- ===== src/Common/Monad.antt =====
-- C code that changes a state and may run into undefined behaviour, which is `none`: a read or a
-- write out of an array, a copy past a buffer, an overflow of int, a null pointer.
use mathlib.Core.Path.{◌≡◌}
use mathlib.Core.Logic.{inl, inr}
use native.Mathlib.Omega.{arith}
use lingmo_authenticate.Common.Tests.{Option-cases}
use mathlib.Core.Option.{Option, none, some}

abbrev pub M : Type 0 → Type 0 → Type 0
M S A = S → Option (A × S)

module _ {S : Type 0} where
  abbrev pub pure : {A : Type 0} → A → M S A
  pure a s = some (a, s)

  infixl 5 ◌>>=◌ ◌>>◌
  abbrev pub ◌>>=◌ : {A B : Type 0} → M S A → (A → M S B) → M S B
  ◌>>=◌ m f s = elim (m s) [ none ↦ none | some (a, t) ↦ f a t ]

  abbrev pub ◌>>◌ : {B : Type 0} → M S (Unit {0}) → M S B → M S B
  m >> k = m >>= λ _. k

  -- A value that may not be there: the access faults on `none`.
  abbrev pub access : {A : Type 0} → Option A → M S A
  access o s = elim o [ none ↦ none | some a ↦ some (a, s) ]

  abbrev pub get_state : M S S
  get_state s = some (s, s)

  abbrev pub put_state : S → M S (Unit {0})
  put_state t s = some (tt, t)

-- What ran before the last step.
pub bind_some :
    {S A B : Type 0} (m : M S A) (f : A → M S B) (b : B) (s t : S)
    → (m >>= f) s ≡ some (b, t)
    → (a : A) × (u : S) × (m s ≡ some (a, u)) × (f a u ≡ some (b, t))
bind_some m f b s t h = elim (Option-cases (m s)) [
  | inl e ↦ absurd (ground (arith, e, h))
  | inr ((a, u), e) ↦ (a, u, e, ground (arith, h, e))
]
