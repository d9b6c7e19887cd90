-- ===== src/Pam/Protocol/SfaExact.antt =====
-- The single-factor mode of misc/pam-module/auth/sfa.c where nothing makes it give up.
use lingmo_authenticate.Common.{
  ◌≡◌, sym, ◌∙◌, ℤ, minus_one, ◌==ℤ◌, false, Option, some, List, Bytes, arith, Bool-cases, inl, inr,
}
use lingmo_authenticate.Pam.Codes.{Ret, AuthStutaCode, code_of_int}
use lingmo_authenticate.Pam.State.{Env, AuthSession, UserData}
use lingmo_authenticate.Pam.Sfa.{record_failure, sfa_success, sfa_record, sfa_stop, sfa_deal}
use lingmo_authenticate.Pam.Limits.Sound.{WellFormed, IsSound}
use lingmo_authenticate.Pam.Loop.{BusEvent, bus_loop}
use lingmo_authenticate.Pam.Protocol.{sfa_verdict, session}
use lingmo_authenticate.Pam.Protocol.Handlers.{sfa_verify-Keeps}
use lingmo_authenticate.Pam.Protocol.Failed.{HasFailed, sfa_report-IsReport}
use lingmo_authenticate.Pam.Protocol.Sfa.{sfa_mode}
use lingmo_authenticate.Pam.Protocol.Total.{HasKey, AllTame}
use lingmo_authenticate.Pam.Protocol.Exact.{Grants, sfa_prompt-pending, bus_loop-exact}
use lingmo_authenticate.Pam.Protocol.SfaTotal.{SfaTame, sfa_total, deal_sfa}

module _ (env : Env) where
  sfa_deal-exact :
      (ctrl : AuthSession) (failed : List ℤ) (s t : UserData) (r : Ret)
      (code : Option AuthStutaCode) (a : ℤ) (m : Bytes)
      → Grants env
      → HasFailed ctrl failed s
      → sfa_deal env code a m s ≡ some (r, t)
      → r ≡ (sfa_verdict failed code a).1
  unfolding sfa_deal sfa_verdict sfa_success sfa_record sfa_stop record_failure
  sfa_deal-exact ctrl failed s t r (some AuthStutaCode.success) a m grants h e = ground (arith, e)
  sfa_deal-exact ctrl failed s t r (some AuthStutaCode.failure) a m grants h e =
      elim (Bool-cases (a ==ℤ minus_one)) [
        | inl c ↦ rw c (sfa_report-IsReport env ctrl failed s t r h (ground (arith, e, c))).0
        | inr c ↦ ground (arith, e, c)
      ]
  sfa_deal-exact ctrl failed s t r (some AuthStutaCode.verify) a m grants h e =
      (sfa_verify-Keeps env s t r m e).1
  sfa_deal-exact ctrl failed s t r (some AuthStutaCode.prompt) a m grants h e =
      elim (Bool-cases (a ==ℤ minus_one)) [
        | inl c ↦ sfa_prompt-pending env grants r m s t (ground (arith, e, c))
        | inr c ↦ ground (arith, e, c)
      ]
  sfa_deal-exact ctrl failed s t r _ a m grants h e = ground (arith, e)

  -- In surroundings that take every call, where each thread can be created and has ended when the next is
  -- asked for, and with a service whose replies of GetLimits are arrays of objects as `WellFormed` says, the single-factor mode is its abstract session: on any events
  -- that are tame when they come the loop returns, with exactly the failures and the result of that session.
  -- At the start the limits are sound, up to seven failures are recorded, and the public key is not null.
  -- The loop is taken alone, with the callback of EncryptKey: a token thread, which a Prompt signal
  -- creates and which may set the result too, does nothing beside it here.
  pub sfa_loop-exact :
      (grants : Grants env) (w : WellFormed env) (ctrl : AuthSession) (h : ctrl.is_mfa ≡ false)
      (es : List BusEvent) (failed : List ℤ) (s : UserData)
      → HasFailed ctrl failed s
      → IsSound s.limits
      → HasKey s
      → s.res ≡ Ret.pending
      → AllTame sfa_verdict
          (λ f signal. SfaTame env f (code_of_int signal.code) signal.auth_type signal.msg)
          failed
          es
      → (t : UserData) × (bus_loop env es s ≡ some (tt, t))
        × (HasFailed ctrl (session sfa_verdict failed es).0 t
            × (t.res ≡ (session sfa_verdict failed es).1))
  sfa_loop-exact grants w ctrl h =
      bus_loop-exact (sfa_mode env ctrl h) (sfa_total env w ctrl h) (λ failed signal s t r at e.
        sfa_deal-exact ctrl failed s t r (code_of_int signal.code) signal.auth_type signal.msg
          grants at (sym (deal_sfa env ctrl signal s h) ∙ e))
