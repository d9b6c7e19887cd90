-- ===== src/Pam/Protocol/Sfa.antt =====
-- The single-factor mode of misc/pam-module/auth/sfa.c through the D-Bus loop of pam.c, against its
-- abstract session.
use lingmo_authenticate.Common.{
  ◌≡◌, inl, inr, ℤ, minus_one, ◌==ℤ◌, false, Option, some, List, arith, Bytes, Bool-cases,
  Option-cases,
}
use lingmo_authenticate.Pam.Codes.{Ret, AuthStutaCode, code_of_int}
use lingmo_authenticate.Pam.State.{Env, AuthSession, UserData}
use lingmo_authenticate.Pam.Sfa.{record_failure, sfa_deal, sfa_signal_deal}
use lingmo_authenticate.Pam.Protocol.{sfa_verdict}
use lingmo_authenticate.Pam.Protocol.Run.{IsResult, Mode, Reaches, bus_loop-Reaches}
use lingmo_authenticate.Pam.Loop.{Signal, BusEvent, deal, bus_loop}
use lingmo_authenticate.Pam.Protocol.Handlers.{sfa_verify-Keeps, sfa_prompt-Keeps}
use lingmo_authenticate.Pam.Protocol.Failed.{
  HasFailed, Keeps-HasFailed, record_failure-HasFailed, reported-HasFailed, sfa_report-IsReport,
}

module _ (env : Env) where
  pub sfa_deal-Follows :
      (ctrl : AuthSession) (failed : List ℤ) (s t : UserData) (r : Ret)
      (code : Option AuthStutaCode) (a : ℤ) (m : Bytes)
      → HasFailed ctrl failed s
      → sfa_deal env code a m s ≡ some (r, t)
      → let v = sfa_verdict failed code a in HasFailed ctrl v.0 t × IsResult v.1 r
  unfolding sfa_deal sfa_verdict
  sfa_deal-Follows ctrl failed s t r (some AuthStutaCode.success) a m h e =
      elim (Bool-cases (a ==ℤ minus_one)) [
        | inl c ↦
            rw c
              (Keeps-HasFailed ctrl failed s t h (ground (arith, e, c)), inl (ground (arith, e, c)))
        | inr c ↦
            rw c
              (Keeps-HasFailed ctrl failed s t h (ground (arith, e, c)), inl (ground (arith, e, c)))
      ]
  sfa_deal-Follows ctrl failed s t r (some AuthStutaCode.failure) a m h e =
      elim (Bool-cases (a ==ℤ minus_one)) [
        | inl c ↦
            let (p, (u, _, at, report)) =
              sfa_report-IsReport env ctrl failed s t r h (ground (arith, e, c)) in
            rw c (reported-HasFailed env ctrl failed u t at report, inl p)
        | inr c ↦ elim (Option-cases (record_failure a s)) [
          | inl f ↦ absurd (ground (arith, e, c, f))
          | inr ((_, u), f) ↦
              let same : t ≡ u = ground (arith, e, c, f) in
              rw (c, same)
                (record_failure-HasFailed ctrl failed a s u h f, inl (ground (arith, e, c, f)))
        ]
      ]
  sfa_deal-Follows ctrl failed s t r (some AuthStutaCode.verify) a m h e =
      let (kept, p) = sfa_verify-Keeps env s t r m e in
      (Keeps-HasFailed ctrl failed s t h kept, inl p)
  sfa_deal-Follows ctrl failed s t r (some AuthStutaCode.prompt) a m h e =
      elim (Bool-cases (a ==ℤ minus_one)) [
        | inl c ↦
            let (kept, p) = sfa_prompt-Keeps env r m s t (ground (arith, e, c)) in
            (Keeps-HasFailed ctrl failed s t h kept, ground (arith, p))
        | inr c ↦
            (Keeps-HasFailed ctrl failed s t h (ground (arith, e, c)), inl (ground (arith, e, c)))
      ]
  sfa_deal-Follows ctrl failed s t r _ a m h e =
      (Keeps-HasFailed ctrl failed s t h (ground (arith, e)), inl (ground (arith, e)))

  pub sfa_deals :
      (ctrl : AuthSession) (signal : Signal) (s t : UserData) (r : Ret)
      → ctrl.is_mfa ≡ false
      → deal env ctrl signal s ≡ some (r, t)
      → sfa_deal env (code_of_int signal.code) signal.auth_type signal.msg s ≡ some (r, t)
  unfolding deal sfa_signal_deal
  sfa_deals ctrl signal s t r h e = ground (arith, h, e)

  abbrev pub sfa_mode : (ctrl : AuthSession) → ctrl.is_mfa ≡ false → Mode env ctrl (List ℤ)
  sfa_mode ctrl h = record {
    verdict = sfa_verdict;
    IsAt = HasFailed ctrl;
    is_open = λ failed s at. at.open_session;
    keeps = Keeps-HasFailed ctrl;
    deals = λ failed signal s t r at e.
        sfa_deal-Follows ctrl failed s t r (code_of_int signal.code) signal.auth_type signal.msg at
          (sfa_deals ctrl signal s t r h e);
  }

  -- Whatever the bus delivers to a single-factor session, the loop ends where the abstract session over
  -- the same events has come to: with its failures recorded in their order, and its result; or it gives
  -- up with PAM_ABORT where that session, over the first of these events, would still go on. At the start
  -- up to seven failures are recorded, in the array of seven.
  -- The loop is taken alone, with the callback of EncryptKey: a token thread, which a Prompt signal
  -- creates and which may set the result too, does nothing beside it here.
  pub sfa_loop-Reaches :
      (ctrl : AuthSession) (h : ctrl.is_mfa ≡ false) (es : List BusEvent) (failed : List ℤ)
      (s t : UserData)
      → HasFailed ctrl failed s
      → s.res ≡ Ret.pending
      → bus_loop env es s ≡ some (tt, t)
      → Reaches sfa_verdict (HasFailed ctrl) failed es t
  sfa_loop-Reaches ctrl h = bus_loop-Reaches (sfa_mode ctrl h)
