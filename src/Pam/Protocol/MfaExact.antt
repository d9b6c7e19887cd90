-- ===== src/Pam/Protocol/MfaExact.antt =====
-- The multi-factor mode of misc/pam-module/auth/mfa.c where nothing makes it give up.
use native.Mathlib.Decide.{dec_lt}
use lingmo_authenticate.Common.{
  ℕ, ◌+◌, ◌≡◌, ◌∙◌, refl, sym, ap, ◌≢◌, ℤ, minus_one, ==ℤ-eq, ◌==ℤ◌, true, Option, some, List, ◌∷◌,
  Bytes, arith, Bool-cases, inl, inr,
}
use lingmo_authenticate.Pam.Codes.{Ret, AuthStutaCode, code_of_int, Style, tr}
use lingmo_authenticate.Pam.State.{Env, Call, AuthSession, UserData, send, emit, set_need_cancel}
use lingmo_authenticate.Pam.Mfa.{mfa_next, mfa_success, mfa_stop, mfa_deal}
use lingmo_authenticate.Pam.Factors.Sort.{IsOrdered}
use lingmo_authenticate.Pam.MfaOrder.{
  ordered_type-some, find_current_at, mfa_next-last, mfa_next-next,
}
use lingmo_authenticate.Pam.Loop.{BusEvent, bus_loop}
use lingmo_authenticate.Pam.Protocol.{mfa_verdict, session}
use lingmo_authenticate.Pam.Protocol.Handlers.{mfa_failure-Keeps, mfa_verify-Keeps}
use lingmo_authenticate.Pam.Protocol.Mfa.{IsDistinct, IsAt, Keeps-IsAt, mfa_deal-Follows, mfa_mode}
use lingmo_authenticate.Pam.Protocol.Total.{HasKey, AllTame}
use lingmo_authenticate.Pam.Protocol.Exact.{Grants, mfa_prompt-pending, bus_loop-exact}
use lingmo_authenticate.Pam.Protocol.MfaTotal.{MfaTame, mfa_total, deal_mfa}

module _ (env : Env) (ctrl : AuthSession) (o : IsOrdered ctrl) (distinct : IsDistinct ctrl) where
  mfa_next-pending :
      (k : ℕ) (s t : UserData) (r : Ret)
      → Grants env
      → IsAt ctrl k s
      → mfa_next env s.cur_type s ≡ some (r, t)
      → r ≡ Ret.pending
  mfa_next-pending k s t r grants h e =
      let found = find_current_at ctrl o distinct s.cur_type k h.less h.here in
      elim (dec_lt (k + 1) ctrl.factor_size) [
        | yes more ↦
            let (b, g) = ordered_type-some ctrl (k + 1) o more in
            let cs = Call.start s.path b minus_one ∷ Call.end s.path s.cur_type ∷ s.calls in
            let next = mfa_next-next env s ctrl h.open_session s.cur_type b k found more g in
            ground (arith, e, next, grants.takes cs, grants.replies cs)
        | no last ↦
            let stay =
              mfa_next-last env s ctrl h.open_session s.cur_type k found
                (omega (arith, last, h.less)) in
            ground (arith, e, stay)
      ]

  mfa_success-ne-abort :
      (k : ℕ) (s t : UserData) (a : ℤ)
      → Grants env
      → IsAt ctrl k s
      → mfa_success env a s ≢ some (Ret.abort, t)
  unfolding mfa_success send emit set_need_cancel
  mfa_success-ne-abort k s t a grants h e =
      let told : UserData = record s {
        calls = Call.send_msg (tr "Verification successful") Style.text_info ∷ s.calls;
      } in
      elim (Bool-cases (a ==ℤ minus_one)) [
        | inl c ↦ ground (arith, e, c)
        | inr c ↦ elim (Bool-cases (a ==ℤ s.cur_type)) [
          | inr d ↦ ground (arith, e, c, d)
          | inl d ↦
              let same = ==ℤ-eq a s.cur_type d in
              let p : Ret.abort ≡ Ret.pending =
                mfa_next-pending k told t Ret.abort grants (Keeps-IsAt ctrl k s told h (refl, refl))
                  (ground (arith, e, c, d, same)) in
              cc
        ]
      ]

  mfa_deal-exact :
      (k : ℕ) (s t : UserData) (r : Ret) (code : Option AuthStutaCode) (a : ℤ) (m : Bytes)
      → Grants env
      → IsAt ctrl k s
      → mfa_deal env code a m s ≡ some (r, t)
      → r ≡ (mfa_verdict ctrl k code a).1
  unfolding mfa_deal mfa_verdict mfa_stop
  mfa_deal-exact k s t r (some AuthStutaCode.success) a m grants h e =
      let (_, out) =
        mfa_deal-Follows env ctrl o distinct k s t r (some AuthStutaCode.success) a m h e in
      elim out [
        | inl same ↦ same
        | inr (_, gave_up) ↦
            absurd (mfa_success-ne-abort k s t a grants h (e ∙ ap (λ x. some (x, t)) gave_up))
      ]
  mfa_deal-exact k s t r (some AuthStutaCode.failure) a m grants h e =
      let (_, p) = mfa_failure-Keeps env s t r a e in ground (arith, p)
  mfa_deal-exact k s t r (some AuthStutaCode.verify) a m grants h e =
      (mfa_verify-Keeps env s t r m e).1
  mfa_deal-exact k s t r (some AuthStutaCode.prompt) a m grants h e =
      mfa_prompt-pending env grants r a m s t e
  mfa_deal-exact k s t r _ a m grants h e = ground (arith, e)

  -- In surroundings that take every call, where each thread can be created and has ended when the next is
  -- asked for, the multi-factor
  -- mode is its abstract session: on any events that are tame when they come the loop returns, exactly
  -- at the position and with the result of that session. The session is as `resolve_authctrl_factors`
  -- leaves it, its methods differ, and the public key is not null.
  -- The loop is taken alone, with the callback of EncryptKey: a token thread, which a Prompt signal
  -- creates and which may set the result too, does nothing beside it here.
  pub mfa_loop-exact :
      (grants : Grants env) (h : ctrl.is_mfa ≡ true) (es : List BusEvent) (k : ℕ) (s : UserData)
      → IsAt ctrl k s
      → HasKey s
      → s.res ≡ Ret.pending
      → AllTame
          (mfa_verdict ctrl)
          (λ j signal. MfaTame env ctrl j (code_of_int signal.code) signal.auth_type signal.msg)
          k
          es
      → (t : UserData) × (bus_loop env es s ≡ some (tt, t))
        × (IsAt ctrl (session (mfa_verdict ctrl) k es).0 t
            × (t.res ≡ (session (mfa_verdict ctrl) k es).1))
  mfa_loop-exact grants h es k s at =
      bus_loop-exact (mfa_mode env ctrl o distinct h) (mfa_total env ctrl o distinct h)
        (λ j signal u t r here e.
          mfa_deal-exact j u t r (code_of_int signal.code) signal.auth_type signal.msg grants here
            (sym (deal_mfa env ctrl o distinct signal u h) ∙ e))
        es k s at tt
