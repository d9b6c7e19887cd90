-- ===== src/Pam/Protocol/Mfa.antt =====
-- A signal to the multi-factor mode of misc/pam-module/auth/mfa.c, against its abstract session.
use lingmo_authenticate.Common.{
  ℕ, ◌+◌, ◌<◌, ◌≡◌, ◌≢◌, inl, inr, refl, ap, ◌∙◌, sym, ℤ, minus_one, ==ℤ-eq, ◌==ℤ◌, true, false,
  Option, some, List, ◌∷◌, arith, Bytes, Bool-cases, ◌&&◌, ltb, if◌then◌else◌,
}
use lingmo_authenticate.Pam.Codes.{Ret, AuthStutaCode, code_of_int, Style, tr}
use lingmo_authenticate.Pam.State.{Env, Call, AuthSession, UserData, send, emit, set_need_cancel}
use lingmo_authenticate.Pam.Mfa.{ordered_type, mfa_deal, mfa_signal_deal, mfa_next, mfa_success}
use lingmo_authenticate.Pam.Loop.{Signal, BusEvent, deal, bus_loop}
use lingmo_authenticate.Pam.Factors.Sort.{IsOrdered}
use lingmo_authenticate.Pam.MfaOrder.{
  ordered_type-some, find_current_at, mfa_next-last, mfa_next-next,
}
use lingmo_authenticate.Pam.MfaRun.{starts}
use lingmo_authenticate.Pam.Protocol.{method, started, mfa_verdict}
use lingmo_authenticate.Pam.Protocol.Run.{IsResult, Mode, Reaches, bus_loop-Reaches}
use lingmo_authenticate.Pam.Protocol.Handlers.{
  Keeps, mfa_verify-Keeps, mfa_failure-Keeps, mfa_prompt-Keeps,
}

-- The methods of a session differ.
abbrev pub IsDistinct : AuthSession → Type 0
IsDistinct ctrl =
    (p q : ℕ) (x : ℤ)
    → p < q
    → q < ctrl.factor_size
    → ordered_type ctrl p ≡ some x
    → ordered_type ctrl q ≢ some x

-- The data is at position `k` of the order: its method is the current one, and exactly the methods
-- up to it have been started.
pub record IsAt (ctrl : AuthSession) (k : ℕ) (s : UserData) : Type 0 where
  pub open_session : s.auth_ctrl ≡ some ctrl
  pub less : k < ctrl.factor_size
  pub here : ordered_type ctrl k ≡ some s.cur_type
  pub calls : starts s.calls ≡ started ctrl k

abbrev pub Follows : AuthSession → ℕ × Ret → UserData → Ret → Type 0
Follows ctrl v t r = IsAt ctrl v.0 t × IsResult v.1 r

pub Keeps-IsAt :
    (ctrl : AuthSession) (k : ℕ) (s t : UserData) → IsAt ctrl k s → Keeps s t → IsAt ctrl k t
Keeps-IsAt ctrl k s t h (e, st) = record {
  open_session = ap (λ (u : UserData). u.auth_ctrl) e ∙ h.open_session;
  less = h.less;
  here = h.here ∙ ap (λ (u : UserData). some u.cur_type) (sym e);
  calls = st ∙ h.calls;
}

-- The cases of a Success signal.
success_verdict :
    (ctrl : AuthSession) (k : ℕ) (a cur : ℤ)
    → ordered_type ctrl k ≡ some cur
    → (a ==ℤ minus_one ≡ true
        → mfa_verdict ctrl k (some AuthStutaCode.success) a ≡ (k, Ret.success))
      × (a ==ℤ minus_one ≡ false
          → (a ==ℤ cur && ltb (k + 1) ctrl.factor_size) ≡ false
          → mfa_verdict ctrl k (some AuthStutaCode.success) a ≡ (k, Ret.pending))
      × (a ==ℤ minus_one ≡ false
          → (a ==ℤ cur && ltb (k + 1) ctrl.factor_size) ≡ true
          → mfa_verdict ctrl k (some AuthStutaCode.success) a ≡ (k + 1, Ret.pending))
unfolding mfa_verdict method
success_verdict ctrl k a cur here =
    (λ c. ground (arith, c), λ c d. ground (arith, c, d, here), λ c d. ground (arith, c, d, here))

failure_verdict :
    (ctrl : AuthSession) (k : ℕ) (a : ℤ)
    → mfa_verdict ctrl k (some AuthStutaCode.failure) a
      ≡ (k, if a ==ℤ minus_one then Ret.pending else Ret.auth_err)
unfolding mfa_verdict
failure_verdict ctrl k a = ground arith

module _ (env : Env) (ctrl : AuthSession) (o : IsOrdered ctrl) (distinct : IsDistinct ctrl)
    (k : ℕ) where
  mfa_next-more :
      (s t : UserData) (r : Ret)
      → IsAt ctrl k s
      → k + 1 < ctrl.factor_size
      → mfa_next env s.cur_type s ≡ some (r, t)
      → Follows ctrl (k + 1, Ret.pending) t r
  unfolding started method
  mfa_next-more s t r h more e =
      let found = find_current_at ctrl o distinct s.cur_type k h.less h.here in
      let (b, g) = ordered_type-some ctrl (k + 1) o more in
      let next = mfa_next-next env s ctrl h.open_session s.cur_type b k found more g in
      let c = h.open_session in
      let st = h.calls in
      (
        record {
          open_session = ground (arith, e, next, c);
          less = more;
          here = ground (arith, e, next, g);
          calls = ground (arith, e, next, st, g);
        },
        ground (arith, e, next),
      )

  mfa_next-end :
      (s t : UserData) (r : Ret)
      → IsAt ctrl k s
      → k + 1 ≡ ctrl.factor_size
      → mfa_next env s.cur_type s ≡ some (r, t)
      → (t ≡ s) × (r ≡ Ret.pending)
  mfa_next-end s t r h last e =
      let found = find_current_at ctrl o distinct s.cur_type k h.less h.here in
      let stay = mfa_next-last env s ctrl h.open_session s.cur_type k found last in
      ground (arith, e, stay)

  -- A Success signal.
  mfa_success-Follows :
      (s t : UserData) (r : Ret) (a : ℤ)
      → IsAt ctrl k s
      → mfa_success env a s ≡ some (r, t)
      → Follows ctrl (mfa_verdict ctrl k (some AuthStutaCode.success) a) t r
  unfolding mfa_success send emit set_need_cancel
  mfa_success-Follows s t r a h e =
      let told : UserData = record s {
        calls = Call.send_msg (tr "Verification successful") Style.text_info ∷ s.calls;
      } in
      let at : IsAt ctrl k told = Keeps-IsAt ctrl k s told h (refl, refl) in
      elim (Bool-cases (a ==ℤ minus_one)) [
        | inl c ↦
            let kept : Keeps s t = ground (arith, e, c) in
            let v = (success_verdict ctrl k a s.cur_type h.here).0 c in
            rw v (Keeps-IsAt ctrl k s t h kept, inl (ground (arith, e, c)))
        | inr c ↦ elim (Bool-cases (a ==ℤ s.cur_type)) [
          | inr d ↦
              let kept : Keeps s t = ground (arith, e, c, d) in
              let v = (success_verdict ctrl k a s.cur_type h.here).1 c (ground (arith, d)) in
              rw v (Keeps-IsAt ctrl k s t h kept, inl (ground (arith, e, c, d)))
          | inl d ↦
              let same : a ≡ s.cur_type = ==ℤ-eq a s.cur_type d in
              let next : mfa_next env told.cur_type told ≡ some (r, t) =
                ground (arith, e, c, d, same) in
              elim (Bool-cases (ltb (k + 1) ctrl.factor_size)) [
                | inl more ↦
                    let v =
                      (success_verdict ctrl k a s.cur_type h.here).2 c (ground (arith, d, more)) in
                    rw v (mfa_next-more told t r at (ground (arith, more)) next)
                | inr last ↦
                    let v =
                      (success_verdict ctrl k a s.cur_type h.here).1 c (ground (arith, d, last)) in
                    let less = h.less in
                    let (stay, p) = mfa_next-end told t r at (ground (arith, last, less)) next in
                    rw (v, stay) (at, inl p)
              ]
        ]
      ]

  pub mfa_deal-Follows :
      (s t : UserData) (r : Ret) (code : Option AuthStutaCode) (a : ℤ) (m : Bytes)
      → IsAt ctrl k s
      → mfa_deal env code a m s ≡ some (r, t)
      → Follows ctrl (mfa_verdict ctrl k code a) t r
  unfolding mfa_deal mfa_verdict
  mfa_deal-Follows s t r (some AuthStutaCode.success) a m h e = mfa_success-Follows s t r a h e
  mfa_deal-Follows s t r (some AuthStutaCode.failure) a m h e =
      let (kept, p) = mfa_failure-Keeps env s t r a e in
      let v = failure_verdict ctrl k a in rw v (Keeps-IsAt ctrl k s t h kept, inl p)
  mfa_deal-Follows s t r (some AuthStutaCode.verify) a m h e =
      let (kept, p) = mfa_verify-Keeps env s t r m e in (Keeps-IsAt ctrl k s t h kept, inl p)
  mfa_deal-Follows s t r (some AuthStutaCode.prompt) a m h e =
      let (kept, p) = mfa_prompt-Keeps env r a m s t e in
      (Keeps-IsAt ctrl k s t h kept, ground (arith, p))
  mfa_deal-Follows s t r _ a m h e =
      let kept : Keeps s t = ground (arith, e) in
      (Keeps-IsAt ctrl k s t h kept, inl (ground (arith, e)))

  pub mfa_deals :
      (signal : Signal) (s t : UserData) (r : Ret)
      → ctrl.is_mfa ≡ true
      → deal env ctrl signal s ≡ some (r, t)
      → mfa_deal env (code_of_int signal.code) signal.auth_type signal.msg s ≡ some (r, t)
  unfolding deal mfa_signal_deal
  mfa_deals signal s t r h e = ground (arith, h, e)

module _ (env : Env) (ctrl : AuthSession) (o : IsOrdered ctrl) (distinct : IsDistinct ctrl) where
  abbrev pub mfa_mode : ctrl.is_mfa ≡ true → Mode env ctrl ℕ
  mfa_mode h = record {
    verdict = mfa_verdict ctrl;
    IsAt = IsAt ctrl;
    is_open = λ k s at. at.open_session;
    keeps = Keeps-IsAt ctrl;
    deals = λ k signal s t r at e.
        mfa_deal-Follows env ctrl o distinct k s t r (code_of_int signal.code) signal.auth_type
          signal.msg at (mfa_deals env ctrl o distinct k signal s t r h e);
  }

  -- Whatever the bus delivers to a multi-factor session, the loop ends at the position of the order
  -- that the abstract session over the same events has come to, and with its result; or it gives up
  -- with PAM_ABORT where that session, over the first of these events, would still go on. The session is
  -- as `resolve_authctrl_factors` leaves it, and its methods differ.
  -- The loop is taken alone, with the callback of EncryptKey: a token thread, which a Prompt signal
  -- creates and which may set the result too, does nothing beside it here.
  pub mfa_loop-Reaches :
      (h : ctrl.is_mfa ≡ true) (es : List BusEvent) (k : ℕ) (s t : UserData)
      → IsAt ctrl k s
      → s.res ≡ Ret.pending
      → bus_loop env es s ≡ some (tt, t)
      → Reaches (mfa_verdict ctrl) (IsAt ctrl) k es t
  mfa_loop-Reaches h = bus_loop-Reaches (mfa_mode h)
