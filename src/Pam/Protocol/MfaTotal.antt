-- ===== src/Pam/Protocol/MfaTotal.antt =====
-- When a session in the multi-factor mode of misc/pam-module/auth/mfa.c returns.
use native.Mathlib.Decide.{dec_lt}
use lingmo_authenticate.Common.{
  ℕ, ◌+◌, ◌-◌, ◌≤◌, ◌<◌, ◌≡◌, ◌∙◌, refl, ℤ, minus_one, ==ℤ-eq, ◌==ℤ◌, true, false, not, Bool,
  Option, some, List, ◌∷◌, ◌++◌, ◌||◌, ◌&&◌, Bytes, codes, length, length-append, arith, Bool-cases,
  inl, inr, get_elem?-some_of_lt, if◌then◌else◌, ◌==◌,
}
use lingmo_authenticate.Pam.Codes.{
  Ret, AuthStutaCode, code_of_int, Style, tr, tr_text, raw, at_password,
}
use lingmo_authenticate.Pam.Types.{type_to_tr, is_input_type}
use lingmo_authenticate.Pam.State.{Env, Call, AuthSession, UserData, send, emit, set_need_cancel}
use lingmo_authenticate.Pam.Sfa.{own_line}
use lingmo_authenticate.Pam.Mfa.{
  ends_in_colon, mfa_prompt_text, mfa_next, mfa_success, mfa_failure, mfa_stop, mfa_prompt,
  mfa_deal, mfa_signal_deal,
}
use lingmo_authenticate.Pam.Factors.Sort.{IsOrdered}
use lingmo_authenticate.Pam.MfaOrder.{
  ordered_type-some, find_current_at, mfa_next-last, mfa_next-next,
}
use lingmo_authenticate.Pam.Loop.{Signal, BusEvent, deal, bus_loop}
use lingmo_authenticate.Pam.Protocol.{method, mfa_verdict}
use lingmo_authenticate.Pam.Protocol.Run.{Reaches}
use lingmo_authenticate.Pam.Protocol.Mfa.{IsDistinct, IsAt, Keeps-IsAt, mfa_mode}
use lingmo_authenticate.Pam.Protocol.Total.{HasKey, AllTame, Total, bus_loop-total}
use lingmo_authenticate.Pam.Protocol.Returns.{
  IsMessage, mfa_verify-returns, thread_busy-returns, create_thread-returns,
}

-- A prompt for the current method has two bytes, and fits its buffer with a colon; the JSON text of a
-- Verify signal has its message.
abbrev pub MfaTame : Env → AuthSession → ℕ → Option AuthStutaCode → ℤ → Bytes → Type 0
MfaTame env ctrl k (some AuthStutaCode.verify) a m = IsMessage env m
MfaTame env ctrl k (some AuthStutaCode.prompt) a m =
    a ≡ method ctrl k → (2 ≤ length m) × (length m + 1 < 256)
MfaTame env ctrl k _ a m = Unit

mfa_prompt_text-returns :
    (term : Bool) (a : ℤ) (m : Bytes)
    → 2 ≤ length m
    → length m + 1 < 256
    → (text : Bytes) × (mfa_prompt_text term a m ≡ some text) × (length text < 256)
unfolding mfa_prompt_text ends_in_colon
mfa_prompt_text-returns term a m two short =
    let (before, p) = get_elem?-some_of_lt m (length m - 2) (omega arith) in
    let (last, q) = get_elem?-some_of_lt m (length m - 1) (omega arith) in
    let colon = (before == b':' && last == b' ') || last == b':' || last == 154 in
    elim (Bool-cases (term && is_input_type a)) [
      | inr e ↦ (m, ground (arith, e), omega arith)
      | inl e ↦ elim (Bool-cases colon) [
        | inl c ↦ (m, ground (arith, e, p, q, c, two), omega arith)
        | inr c ↦ (
          m ++ codes ":",
          ground (arith, e, p, q, c, two),
          omega (arith, length-append m (codes ":"), short),
        )
      ]
    ]

module _ (env : Env) (ctrl : AuthSession) (o : IsOrdered ctrl) (distinct : IsDistinct ctrl)
    (k : ℕ) where
  mfa_next-returns :
      (s : UserData)
      → IsAt ctrl k s
      → (r : Ret) × (t : UserData) × (mfa_next env s.cur_type s ≡ some (r, t))
  mfa_next-returns s h =
      let found = find_current_at ctrl o distinct s.cur_type k h.less h.here in
      elim (dec_lt (k + 1) ctrl.factor_size) [
        | yes more ↦
            let (b, g) = ordered_type-some ctrl (k + 1) o more in
            let cs = Call.start s.path b minus_one ∷ Call.end s.path s.cur_type ∷ s.calls in
            (
              if env.fails cs || env.unreadable cs then Ret.abort else Ret.pending,
              record s { cur_type = b; calls = cs },
              mfa_next-next env s ctrl h.open_session s.cur_type b k found more g,
            )
        | no last ↦ (
          Ret.pending,
          s,
          mfa_next-last env s ctrl h.open_session s.cur_type k found (omega (arith, last, h.less)),
        )
      ]

  mfa_success-returns :
      (a : ℤ) (s : UserData)
      → IsAt ctrl k s
      → (r : Ret) × (t : UserData) × (mfa_success env a s ≡ some (r, t))
  unfolding mfa_success send emit set_need_cancel
  mfa_success-returns a s h =
      let told : UserData = record s {
        calls = Call.send_msg (tr "Verification successful") Style.text_info ∷ s.calls;
      } in
      elim (Bool-cases (a ==ℤ minus_one)) [
        | inl c ↦ (Ret.success, record s { need_cancel = false }, ground (arith, c))
        | inr c ↦ elim (Bool-cases (a ==ℤ s.cur_type)) [
          | inr d ↦ (Ret.pending, told, ground (arith, c, d))
          | inl d ↦
              let same = ==ℤ-eq a s.cur_type d in
              let (r, t, e) = mfa_next-returns told (Keeps-IsAt ctrl k s told h (refl, refl)) in
              (r, t, ground (arith, c, d, e, same))
        ]
      ]

  mfa_failure-returns :
      (a : ℤ) (s : UserData) → (r : Ret) × (t : UserData) × (mfa_failure env a s ≡ some (r, t))
  unfolding mfa_failure send emit set_need_cancel
  mfa_failure-returns a s = elim (Bool-cases (a ==ℤ minus_one)) [
    | inl c ↦ (Ret.pending, s, ground (arith, c))
    | inr c ↦
        let text =
          if a ==ℤ at_password
          then tr "Password verification failed"
          else own_line s.term a (tr_text "%s verification failed" (type_to_tr a)) in
        (
          Ret.auth_err,
          record s { need_cancel = false; calls = Call.send_msg text Style.error_msg ∷ s.calls },
          ground (arith, c),
        )
  ]

  mfa_prompt-returns :
      (a : ℤ) (m : Bytes) (s : UserData)
      → IsAt ctrl k s
      → MfaTame env ctrl k (some AuthStutaCode.prompt) a m
      → (r : Ret) × (t : UserData) × (mfa_prompt env a m s ≡ some (r, t))
  unfolding mfa_prompt send emit method
  mfa_prompt-returns a m s h tame = elim (Bool-cases (a ==ℤ s.cur_type && not (a ==ℤ minus_one))) [
    | inl c ↦
        let here = h.here in
        let same : a ≡ method ctrl k = ground (arith, c, here, ==ℤ-eq a s.cur_type) in
        let (two, short) = tame same in
        let (text, f, fits) = mfa_prompt_text-returns s.term a m two short in
        let (b, u, e) = thread_busy-returns env s in
        elim (Bool-cases b) [
          | inl busy ↦ (Ret.abort, u, ground (arith, c, e, busy))
          | inr free ↦
              let (r, t, g) = create_thread-returns env u text fits in
              (r, t, ground (arith, c, e, free, f, g))
        ]
    | inr c ↦ elim (Bool-cases (a ==ℤ minus_one)) [
      | inl d ↦ (
        Ret.pending,
        record s { calls = Call.send_msg (raw m) Style.text_info ∷ s.calls },
        ground (arith, c, d),
      )
      | inr d ↦ (Ret.pending, s, ground (arith, c, d))
    ]
  ]

  pub mfa_deal-returns :
      (code : Option AuthStutaCode) (a : ℤ) (m : Bytes) (s : UserData)
      → IsAt ctrl k s
      → MfaTame env ctrl k code a m
      → (r : Ret) × (t : UserData) × (mfa_deal env code a m s ≡ some (r, t))
  unfolding mfa_deal mfa_stop set_need_cancel
  mfa_deal-returns (some AuthStutaCode.success) a m s h tame = mfa_success-returns a s h
  mfa_deal-returns (some AuthStutaCode.failure) a m s h tame = mfa_failure-returns a s
  mfa_deal-returns (some AuthStutaCode.verify) a m s h tame = mfa_verify-returns env s m tame
  mfa_deal-returns (some AuthStutaCode.prompt) a m s h tame = mfa_prompt-returns a m s h tame
  mfa_deal-returns (some AuthStutaCode.cancel) a m s h tame =
      (Ret.pending, record s { need_cancel = false }, refl)
  mfa_deal-returns (some AuthStutaCode.timeout) a m s h tame =
      (Ret.pending, record s { need_cancel = false }, refl)
  mfa_deal-returns (some AuthStutaCode.error) a m s h tame =
      (Ret.pending, record s { need_cancel = false }, refl)
  mfa_deal-returns _ a m s h tame = (Ret.pending, s, refl)

module _ (env : Env) (ctrl : AuthSession) (o : IsOrdered ctrl) (distinct : IsDistinct ctrl) where
  pub deal_mfa :
      (signal : Signal) (s : UserData)
      → ctrl.is_mfa ≡ true
      → deal env ctrl signal s
        ≡ mfa_deal env (code_of_int signal.code) signal.auth_type signal.msg s
  unfolding deal mfa_signal_deal
  deal_mfa signal s h = ground (arith, h)

  abbrev pub mfa_total : (h : ctrl.is_mfa ≡ true) → Total (mfa_mode env ctrl o distinct h)
  mfa_total h = record {
    IsReady = λ u. Unit;
    IsTame = λ j signal. MfaTame env ctrl j (code_of_int signal.code) signal.auth_type signal.msg;
    stays = λ u v ready kept. tt;
    returns = λ j signal u here ready tame.
        let (r, t, e) =
          mfa_deal-returns env ctrl o distinct j (code_of_int signal.code) signal.auth_type
            signal.msg u here tame in
        (r, t, deal_mfa signal u h ∙ e, tt);
  }

  -- The loop of a session in the multi-factor mode runs without undefined behaviour of its own: while
  -- every signal is tame when
  -- it comes, the loop returns, and it ends at the position of the order that the abstract session over
  -- the same events has come to, with its result, unless it gave up with PAM_ABORT before. The session
  -- is as `resolve_authctrl_factors` leaves it, its methods differ, and the public key is not null.
  -- The loop is taken alone, with the callback of EncryptKey: a token thread, which a Prompt signal
  -- creates and which may set the result too, does nothing beside it here.
  pub mfa_loop-total :
      (h : ctrl.is_mfa ≡ true) (es : List BusEvent) (k : ℕ) (s : UserData)
      → IsAt ctrl k s
      → HasKey s
      → s.res ≡ Ret.pending
      → AllTame
          (mfa_verdict ctrl)
          (λ j signal. MfaTame env ctrl j (code_of_int signal.code) signal.auth_type signal.msg)
          k
          es
      → (t : UserData) × (bus_loop env es s ≡ some (tt, t))
        × Reaches (mfa_verdict ctrl) (IsAt ctrl) k es t
  mfa_loop-total h es k s at =
      bus_loop-total (mfa_mode env ctrl o distinct h) (mfa_total h) es k s at tt
