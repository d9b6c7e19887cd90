-- ===== src/Pam/Data.antt =====
-- misc/pam-module/common/common.c and debug.c, and `pam_sm_setcred` of auth/pam.c.
use lingmo_authenticate.Common.{
  ℕ, zero, suc, ◌+◌, ◌≡◌, ◌≢◌, refl, ◌++◌, ◌==◌, Bool, true, false, Option, none, some, [], ◌∷◌,
  Bytes, M, pure, arith, length, replicate, if◌then◌else◌,
}
use lingmo_authenticate.Pam.Codes.{Ret}
use lingmo_authenticate.Pam.State.{Pam}

-- `dalloc`: the bytes of the new object; `none` is the end of the program.
unfoldable pub dalloc : Bool → ℕ → Option Bytes
dalloc has_memory size = if has_memory then some (replicate size 0) else none

-- `strlen`: an array without a 0 is read past its end.
unfoldable pub strlen : Bytes → Option ℕ
strlen [] = none
strlen (c ∷ cs) =
    if c == 0 then some 0 else elim (strlen cs) [ none ↦ none | some n ↦ some (n + 1) ]

-- `memset (d, 0, n)`
unfoldable pub memset_zero : ℕ → Bytes → Option Bytes
memset_zero zero d = some d
memset_zero (suc n) [] = none
memset_zero (suc n) (c ∷ cs) = elim (memset_zero n cs) [ none ↦ none | some out ↦ some (0 ∷ out) ]

-- `cleanup_data`: what stands in the memory when it is freed, if the pointer is not null.
unfoldable pub cleanup_data : Option Bytes → Option (Option Bytes)
cleanup_data none = some none
cleanup_data (some d) = elim (strlen d) [
  | none ↦ none
  | some n ↦ elim (memset_zero n d) [ none ↦ none | some out ↦ some (some out) ]
]

-- `get_pwd`, over what PAM says of the user and what the system says of a name.
unfoldable pub get_pwd : {A : Type 0} → Option Bytes → (Bytes → Option A) → Option A
get_pwd none getpwnam = none
get_pwd (some username) getpwnam = getpwnam username

unfoldable pub set_debug_flag : Bool → M Bool (Unit {0})
set_debug_flag enable debug = some (tt, enable)

unfoldable pub get_debug_flag : M Bool Bool
get_debug_flag debug = some (if debug then true else false, debug)

unfoldable pub pam_sm_setcred : Pam Ret
pam_sm_setcred = pure Ret.success

-- No byte of the text is 0.
abbrev pub IsText : Bytes → Type 0
IsText [] = Unit
IsText (c ∷ cs) = (c ≢ 0) × IsText cs

strlen-text : (text rest : Bytes) → IsText text → strlen (text ++ (0 ∷ rest)) ≡ some (length text)
unfolding strlen
strlen-text [] rest h = refl
strlen-text (c ∷ cs) rest (ne, h) = ground (arith, strlen-text cs rest h, ne)

memset_zero-text :
    (text rest : Bytes)
    → memset_zero (length text) (text ++ rest) ≡ some (replicate (length text) 0 ++ rest)
unfolding memset_zero
memset_zero-text [] rest = refl
memset_zero-text (c ∷ cs) rest = ground (arith, memset_zero-text cs rest)

-- `cleanup_data` overwrites a text with zeros before it is freed, up to its end, and nothing else.
pub cleanup_data_lem :
    (text rest : Bytes)
    → IsText text
    → cleanup_data (some (text ++ (0 ∷ rest)))
      ≡ some (some (replicate (length text) 0 ++ (0 ∷ rest)))
unfolding cleanup_data
cleanup_data_lem text rest h =
    ground (arith, strlen-text text rest h, memset_zero-text text (0 ∷ rest))
