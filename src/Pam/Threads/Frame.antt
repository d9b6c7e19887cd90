-- ===== src/Pam/Threads/Frame.antt =====
-- What the signal handlers of misc/pam-module/auth leave to the token thread.
use lingmo_authenticate.Common.{
  ◌≡◌, refl, inl, inr, ap, ◌∙◌, ℤ, minus_one, ◌==ℤ◌, Option, some, ◌∷◌, Bytes, arith, Bool-cases,
  Option-cases, ◌||◌, not,
}
use lingmo_authenticate.Pam.Codes.{Ret, AuthStutaCode, code_of_int, Style, tr}
use lingmo_authenticate.Pam.State.{
  Env, Call, AuthSession, UserData, copy_into, copy_into-some, max_buf_size,
}
use lingmo_authenticate.Pam.Sfa.{sfa_deal, sfa_signal_deal}
use lingmo_authenticate.Pam.Mfa.{mfa_deal, mfa_signal_deal}
use lingmo_authenticate.Pam.Loop.{
  Signal, BusEvent, status, key_reply, deal, give_token, handle_signal, bus_signal_cb, on_event,
  set_res,
}
use lingmo_authenticate.Pam.Keys.{call_encrypt_key_cb}
use lingmo_authenticate.Pam.Keys.Frame.{call_encrypt_key_cb-frame}
use lingmo_authenticate.Pam.Threads.Parts.{
  KeepsWait, sfa_report-wait, record_failure-wait, sfa_verify-wait, sfa_prompt-wait, mfa_next-wait,
  mfa_verify-wait, mfa_prompt-wait,
}

-- What the token thread waits for.
pub record KeepsAnswer (s t : UserData) : Type 0 where
  pub flag : t.waiting_result ≡ s.waiting_result
  pub value : t.get_result_val ≡ s.get_result_val

module _ (env : Env) (s t : UserData) where
  sfa_deal-wait :
      {r : Ret} (o : Option AuthStutaCode) (a : ℤ) (m : Bytes)
      → sfa_deal env o a m s ≡ some (r, t)
      → KeepsWait s t
  unfolding sfa_deal
  sfa_deal-wait {r} (some AuthStutaCode.failure) a m h = elim (Bool-cases (a ==ℤ minus_one)) [
    | inl e ↦ sfa_report-wait env s t {r = r} (ground (arith, h, e))
    | inr e ↦ record_failure-wait env s t a (ground (arith, h, e))
  ]
  sfa_deal-wait (some AuthStutaCode.verify) a m h = sfa_verify-wait env s t m h
  sfa_deal-wait {r} (some AuthStutaCode.prompt) a m h = elim (Bool-cases (a ==ℤ minus_one)) [
    | inl e ↦ sfa_prompt-wait env s t {r = r} m (ground (arith, h, e))
    | inr e ↦ record {
      flag = ground (arith, h, e);
      value = ground (arith, h, e);
      key = ground (arith, h, e);
    }
  ]
  sfa_deal-wait _ a m h = record {
    flag = ground (arith, h);
    value = ground (arith, h);
    key = ground (arith, h);
  }

  mfa_deal-wait :
      {r : Ret} (o : Option AuthStutaCode) (a : ℤ) (m : Bytes)
      → mfa_deal env o a m s ≡ some (r, t)
      → KeepsWait s t
  unfolding mfa_deal
  mfa_deal-wait {r} (some AuthStutaCode.success) a m h =
      let after : UserData = record s {
        calls = Call.send_msg (tr "Verification successful") Style.text_info ∷ s.calls;
      } in
      elim (Bool-cases (a ==ℤ minus_one || not (a ==ℤ s.cur_type))) [
        | inl e ↦ record {
          flag = ground (arith, h, e);
          value = ground (arith, h, e);
          key = ground (arith, h, e);
        }
        | inr e ↦
            let k = mfa_next-wait env after t {r = r} a (ground (arith, h, e)) in
            record { flag = k.flag; value = k.value; key = k.key }
      ]
  mfa_deal-wait (some AuthStutaCode.verify) a m h = mfa_verify-wait env s t m h
  mfa_deal-wait (some AuthStutaCode.prompt) a m h = mfa_prompt-wait env s t a m h
  mfa_deal-wait _ a m h = record {
    flag = ground (arith, h);
    value = ground (arith, h);
    key = ground (arith, h);
  }

  deal-wait :
      {r : Ret} (ctrl : AuthSession) (signal : Signal)
      → deal env ctrl signal s ≡ some (r, t)
      → KeepsWait s t
  unfolding deal sfa_signal_deal mfa_signal_deal
  deal-wait {r} ctrl signal h = elim (Bool-cases ctrl.is_mfa) [
    | inl e ↦
        mfa_deal-wait {r = r} (code_of_int signal.code) signal.auth_type signal.msg
          (ground (arith, h, e))
    | inr e ↦
        sfa_deal-wait {r = r} (code_of_int signal.code) signal.auth_type signal.msg
          (ground (arith, h, e))
  ]

  give_token-wait : give_token s ≡ some (tt, t) → KeepsWait s t
  unfolding give_token
  give_token-wait h = record {
    flag = ground (arith, h);
    value = ground (arith, h);
    key = ground (arith, h);
  }

module _ (env : Env) where
  pub handle_signal-wait :
      (signal : Signal) (s t : UserData) → handle_signal env signal s ≡ some (tt, t) → KeepsWait s t
  unfolding handle_signal set_res
  handle_signal-wait signal s t h = elim (Bool-cases signal.readable) [
    | inr no_args ↦
        let same : s ≡ t = ground (arith, h, no_args) in
        rw (← same) (record { flag = refl; value = refl; key = refl })
    | inl readable ↦ elim (Option-cases s.auth_ctrl) [
      | inl null ↦ absurd (ground (arith, h, readable, null))
      | inr (ctrl, c) ↦ elim (Option-cases (deal env ctrl signal s)) [
        | inl fault ↦ absurd (ground (arith, h, readable, c, fault))
        | inr ((r, u), d) ↦
            let k = deal-wait env s u {r = r} ctrl signal d in
            let g =
              give_token-wait env (record u { res = r }) t (ground (arith, h, readable, c, d)) in
            record { flag = g.flag ∙ k.flag; value = g.value ∙ k.value; key = g.key ∙ k.key }
      ]
    ]
  ]

  pub bus_signal_cb-wait :
      (signal : Signal) (s t : UserData) → bus_signal_cb env signal s ≡ some (tt, t) → KeepsWait s t
  unfolding bus_signal_cb
  bus_signal_cb-wait signal s t h = elim (Option-cases (copy_into max_buf_size signal.sender s)) [
    | inl long ↦ absurd (ground (arith, h, long))
    | inr ((path, s'), c) ↦
        let (_, same) = copy_into-some max_buf_size signal.sender path s s' c in
        handle_signal-wait signal s t (ground (arith, h, c, same))
  ]

  -- No event of the loop writes what the token thread waits for.
  pub on_event-wait :
      (e : BusEvent) (s t : UserData) → on_event env e s ≡ some (tt, t) → KeepsAnswer s t
  unfolding on_event set_res
  on_event-wait (status signal) s t h =
      let k = bus_signal_cb-wait signal s t h in record { flag = k.flag; value = k.value }
  on_event-wait (key_reply reply) s t h = elim (Option-cases (call_encrypt_key_cb env reply s)) [
    | inl c ↦ absurd (ground (arith, h, c))
    | inr ((b, u), c) ↦
        let same : u ≡ t = ground (arith, h, c) in
        let kept = call_encrypt_key_cb-frame env reply b s t (c ∙ ap (λ x. some (b, x)) same) in
        record {
          flag = ap (λ (x : UserData). x.waiting_result) kept;
          value = ap (λ (x : UserData). x.get_result_val) kept;
        }
  ]
  on_event-wait _ s t h = record { flag = ground (arith, h); value = ground (arith, h) }
