-- ===== src/Pam/Success.antt =====
-- What makes the signal handlers of sfa.c and mfa.c report success.
use lingmo_authenticate.Common.{
  ◌≡◌, ◌≢◌, ◌↔◌, refl, inl, inr, ℤ, pos, negsuc, minus_one, ◌==ℤ◌, ==ℤ-eq, Option, ◌∷◌, some, Bytes,
  arith, Bool-cases,
}
use lingmo_authenticate.Pam.Codes.{Ret, AuthStutaCode, code_of_int, Style, tr}
use lingmo_authenticate.Pam.State.{Env, Call, UserData}
use lingmo_authenticate.Pam.Sfa.{
  report_failure, sfa_report, sfa_verify, sfa_prompt, sfa_deal, sfa_signal_deal,
}
use lingmo_authenticate.Pam.Mfa.{mfa_next, mfa_verify, mfa_prompt, mfa_deal, mfa_signal_deal}
use lingmo_authenticate.Pam.Token.{create_thread}

code_of_int-success : (c : ℤ) → (code_of_int c ≡ some AuthStutaCode.success) ↔ (c ≡ pos 0)
unfolding code_of_int
code_of_int-success (pos n) = (λ e. ground arith, λ e. ground arith)
code_of_int-success (negsuc n) = (λ e. ground arith, λ e. ground arith)

mfa_next-ret : (env : Env) (s t : UserData) (a : ℤ) → mfa_next env a s ≢ some (Ret.success, t)
unfolding mfa_next
mfa_next-ret env s t a h = ground arith

module _ (env : Env) (s t : UserData) where
  sfa_report-ret : {r : Ret} → sfa_report env s ≡ some (r, t) → r ≡ Ret.auth_err
  unfolding sfa_report report_failure
  sfa_report-ret h = ground arith

  sfa_verify-ret : {r : Ret} (m : Bytes) → sfa_verify env m s ≡ some (r, t) → r ≡ Ret.pending
  unfolding sfa_verify
  sfa_verify-ret m h = ground arith

  sfa_prompt-ret : {r : Ret} (m : Bytes) → sfa_prompt env m s ≡ some (r, t) → r ≢ Ret.success
  unfolding sfa_prompt create_thread
  sfa_prompt-ret m h = ground arith

  mfa_verify-ret : {r : Ret} (m : Bytes) → mfa_verify env m s ≡ some (r, t) → r ≡ Ret.pending
  unfolding mfa_verify
  mfa_verify-ret m h = ground arith

  mfa_prompt-ret :
      {r : Ret} (a : ℤ) (m : Bytes) → mfa_prompt env a m s ≡ some (r, t) → r ≢ Ret.success
  unfolding mfa_prompt create_thread
  mfa_prompt-ret a m h = ground arith

  sfa_deal-success :
      (o : Option AuthStutaCode) (a : ℤ) (m : Bytes)
      → sfa_deal env o a m s ≡ some (Ret.success, t)
      → (o ≡ some AuthStutaCode.success) × (a ≡ minus_one)
  unfolding sfa_deal
  sfa_deal-success (some AuthStutaCode.success) a m h = ground (arith, ==ℤ-eq a minus_one)
  sfa_deal-success (some AuthStutaCode.failure) a m h = elim (Bool-cases (a ==ℤ minus_one)) [
    | inl e ↦ let r : Ret.success ≡ Ret.auth_err = sfa_report-ret (ground arith) in cc
    | inr e ↦ ground arith
  ]
  sfa_deal-success (some AuthStutaCode.verify) a m h =
      let r : Ret.success ≡ Ret.pending = sfa_verify-ret m h in cc
  sfa_deal-success (some AuthStutaCode.prompt) a m h = elim (Bool-cases (a ==ℤ minus_one)) [
    | inl e ↦ absurd (sfa_prompt-ret {r = Ret.success} m (ground arith) refl)
    | inr e ↦ ground arith
  ]
  sfa_deal-success _ a m h = ground arith

  mfa_deal-success :
      (o : Option AuthStutaCode) (a : ℤ) (m : Bytes)
      → mfa_deal env o a m s ≡ some (Ret.success, t)
      → (o ≡ some AuthStutaCode.success) × (a ≡ minus_one)
  unfolding mfa_deal
  mfa_deal-success (some AuthStutaCode.success) a m h = elim (Bool-cases (a ==ℤ minus_one)) [
    | inl e ↦ (refl, ==ℤ-eq a minus_one e)
    | inr e ↦ elim (Bool-cases (a ==ℤ s.cur_type)) [
      | inl same ↦
          let after : UserData = record s {
            calls = Call.send_msg (tr "Verification successful") Style.text_info ∷ s.calls;
          } in
          absurd (mfa_next-ret env after t a (ground arith))
      | inr other ↦ ground arith
    ]
  ]
  mfa_deal-success (some AuthStutaCode.verify) a m h =
      let r : Ret.success ≡ Ret.pending = mfa_verify-ret m h in cc
  mfa_deal-success (some AuthStutaCode.prompt) a m h =
      absurd (mfa_prompt-ret {r = Ret.success} a m h refl)
  mfa_deal-success _ a m h = ground arith

-- A signal makes the single-factor handler report success exactly when it is Success for all
-- methods together, of type -1.
pub sfa_signal_deal-success :
    (env : Env) (s : UserData) (c a : ℤ) (m : Bytes)
    → ((t : UserData) × (sfa_signal_deal env c a m s ≡ some (Ret.success, t)))
      ↔ ((c ≡ pos 0) × (a ≡ minus_one))
unfolding sfa_signal_deal
sfa_signal_deal-success env s c a m = (
  λ w.
      let (p, q) = sfa_deal-success env s w.0 (code_of_int c) a m w.1 in
      ((code_of_int-success c).0 p, q),
  λ w. rw (w.0, w.1) (_, refl),
)

-- A signal makes the multi-factor handler report success exactly when it is Success for the whole
-- session, of type -1: the success of one method never suffices.
pub mfa_signal_deal-success :
    (env : Env) (s : UserData) (c a : ℤ) (m : Bytes)
    → ((t : UserData) × (mfa_signal_deal env c a m s ≡ some (Ret.success, t)))
      ↔ ((c ≡ pos 0) × (a ≡ minus_one))
unfolding mfa_signal_deal
mfa_signal_deal-success env s c a m = (
  λ w.
      let (p, q) = mfa_deal-success env s w.0 (code_of_int c) a m w.1 in
      ((code_of_int-success c).0 p, q),
  λ w. rw (w.0, w.1) (_, refl),
)
