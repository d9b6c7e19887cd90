-- ===== src/Common/CStrings.antt =====
-- C strings as lists of byte values without the terminating NUL.
use Prim.Native.Nat.{ℕ, suc, ◌≤◌}
use Prim.Native.Char.{code}
use Prim.Native.String.{String}
use mathlib.Core.Path.{◌≡◌, refl, ap}
use mathlib.Core.Bool.{Bool, true, false, ◌&&◌}
use mathlib.Core.List.{List, [], ◌∷◌}
use mathlib.Core.Option.{Option, none, some}
use native.Mathlib.Omega.{arith}
use lingmo_authenticate.Common.Lists.{length, take}
use lingmo_authenticate.Common.Tests.{◌==◌}

abbrev pub Bytes : Type 0
Bytes = List ℕ

-- The bytes of an ASCII literal.
abbrev pub codes : String → Bytes
codes String.[] = []
codes (String.◌∷◌ c s) = code c ∷ codes s

-- `strcmp (a, b) == 0`
unfoldable pub bytes_eq : Bytes → Bytes → Bool
bytes_eq [] [] = true
bytes_eq [] (y ∷ ys) = false
bytes_eq (x ∷ xs) [] = false
bytes_eq (x ∷ xs) (y ∷ ys) = x == y && bytes_eq xs ys

pub bytes_eq_sound : (a b : Bytes) → bytes_eq a b ≡ true → a ≡ b
unfolding bytes_eq
bytes_eq_sound [] [] h = refl
bytes_eq_sound [] (y ∷ ys) h = ground arith
bytes_eq_sound (x ∷ xs) [] h = ground arith
bytes_eq_sound (x ∷ xs) (y ∷ ys) h = ground (arith, bytes_eq_sound xs ys)

pub bytes_eq_refl : (a : Bytes) → bytes_eq a a ≡ true
unfolding bytes_eq
bytes_eq_refl [] = refl
bytes_eq_refl (x ∷ xs) = ground (arith, bytes_eq_refl xs)

-- `memcpy` to the start of an array; past its end it is undefined.
unfoldable pub memcpy : Bytes → Bytes → Option Bytes
memcpy [] dst = some dst
memcpy (x ∷ src) [] = none
memcpy (x ∷ src) (y ∷ dst) = elim (memcpy src dst) [ none ↦ none | some out ↦ some (x ∷ out) ]

-- It writes the source and keeps what follows.
pub memcpy_lem :
    (src dst : Bytes)
    → length src ≤ length dst
    → (out : Bytes) × (memcpy src dst ≡ some out)
      × (length out ≡ length dst)
      × (take (length src) out ≡ src)
unfolding memcpy
memcpy_lem [] dst h = (dst, refl, refl, refl)
memcpy_lem (x ∷ src) [] h = absurd (omega arith)
memcpy_lem (x ∷ src) (y ∷ dst) h =
    let (out, e, n, t) = memcpy_lem src dst (omega arith) in
    (x ∷ out, ground (arith, e), ap suc n, ap (λ l. x ∷ l) t)
