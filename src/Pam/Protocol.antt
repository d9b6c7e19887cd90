-- ===== src/Pam/Protocol.antt =====
-- What the two modes of the PAM module (misc/pam-module/auth/mfa.c and sfa.c) promise over the
-- events of the bus, written without their state: the abstract sessions.
pub mod Handlers
pub mod Mfa
pub mod Run
pub mod Order
pub mod Total
pub mod Exact
pub mod Failed
pub mod Sfa
pub mod Returns
pub mod SfaTotal
pub mod MfaTotal
pub mod SfaExact
pub mod MfaExact
use lingmo_authenticate.Common.{
  ℕ, zero, suc, ◌+◌, ◌&&◌, ◌++◌, ℤ, minus_one, ◌==ℤ◌, Option, none, some, List, [], ◌∷◌, ltb,
  if◌then◌else◌,
}
use lingmo_authenticate.Pam.Codes.{Ret, AuthStutaCode, code_of_int}
use lingmo_authenticate.Pam.State.{AuthSession}
use lingmo_authenticate.Pam.Mfa.{ordered_type}
use lingmo_authenticate.Pam.Loop.{BusEvent, process_error, status, wait_error, is_pending}

module _ {S : Type 0} (verdict : S → Option AuthStutaCode → ℤ → S × Ret) where
  -- What one event of the bus does to a session, given what a signal does.
  unfoldable pub event : S → BusEvent → S × Ret
  event x process_error = (x, Ret.abort)
  event x wait_error = (x, Ret.abort)
  event x (status signal) =
      if signal.readable
      then verdict x (code_of_int signal.code) signal.auth_type
      else (x, Ret.pending)
  event x _ = (x, Ret.pending)

  -- The session over the events, up to its first result.
  unfoldable pub session : S → List BusEvent → S × Ret
  session x [] = (x, Ret.pending)
  session x (e ∷ es) =
      let (y, r) = event x e in let rest = session y es in if is_pending r then rest else (y, r)

-- A method of the order; past it, -1.
unfoldable pub method : AuthSession → ℕ → ℤ
method ctrl k = elim (ordered_type ctrl k) [ none ↦ minus_one | some a ↦ a ]

-- The methods up to a position, the latest first.
unfoldable pub started : AuthSession → ℕ → List ℤ
started ctrl zero = method ctrl 0 ∷ []
started ctrl (suc k) = method ctrl (suc k) ∷ started ctrl k

-- A multi-factor session is at a position of its order. A Status signal, by its code and its type,
-- moves it on or gives its result.
unfoldable pub mfa_verdict : AuthSession → ℕ → Option AuthStutaCode → ℤ → ℕ × Ret
mfa_verdict ctrl k (some AuthStutaCode.success) a =
    if a ==ℤ minus_one
    then (k, Ret.success)
    else if a ==ℤ method ctrl k && ltb (k + 1) ctrl.factor_size
    then (k + 1, Ret.pending)
    else (k, Ret.pending)
mfa_verdict ctrl k (some AuthStutaCode.failure) a =
    if a ==ℤ minus_one then (k, Ret.pending) else (k, Ret.auth_err)
mfa_verdict ctrl k _ a = (k, Ret.pending)

-- A single-factor session has a list of the methods that failed, the first first. A Status signal, by
-- its code and its type, adds one or gives the result.
unfoldable pub sfa_verdict : List ℤ → Option AuthStutaCode → ℤ → List ℤ × Ret
sfa_verdict failed (some AuthStutaCode.success) a =
    if a ==ℤ minus_one then (failed, Ret.success) else (failed, Ret.pending)
sfa_verdict failed (some AuthStutaCode.failure) a =
    if a ==ℤ minus_one then (failed, Ret.auth_err) else (failed ++ (a ∷ []), Ret.pending)
sfa_verdict failed _ a = (failed, Ret.pending)
