-- ===== src/Pam/MfaRun.antt =====
-- A whole run of the multi-factor mode through the D-Bus loop.
use lingmo_authenticate.Common.{
  ℕ, suc, ◌+◌, ◌<◌, ◌≡◌, ◌≢◌, refl, ap, ◌∙◌, ℤ, pos, minus_one, ==ℤ-refl, ==ℤ-eq, true, false, some,
  List, [], ◌∷◌, ◌++◌, arith, Option-cases, inl, inr, Bytes, length, get_elem?,
}
use mathlib.Core.List.{reverse, reverse-cons, append_assoc}
use lingmo_authenticate.Pam.Codes.{Ret, Style, tr}
use lingmo_authenticate.Pam.State.{Env, Call, AuthSession, UserData, copy_into-fits}
use lingmo_authenticate.Pam.Mfa.{ordered_type, find_current, mfa_signal_deal}
use lingmo_authenticate.Pam.Factors.Sort.{IsOrdered}
use lingmo_authenticate.Pam.Loop.{
  BusEvent, status, deal, give_token, handle_signal, bus_signal_cb, on_event, bus_loop,
}
use lingmo_authenticate.Pam.MfaOrder.{find_current_at, mfa_next-last, mfa_next-step}

-- The types of the methods started so far, the latest first.
abbrev pub starts : List Call → List ℤ
starts [] = []
starts (Call.start path auth_type timeout ∷ cs) = auth_type ∷ starts cs
starts (_ ∷ cs) = starts cs

module _ (sender msg : Bytes) where
  abbrev pub success_of : ℤ → BusEvent
  success_of a =
      status (record { sender = sender; readable = true; auth_type = a; code = pos 0; msg = msg })

  -- The success of each method, then that of the session.
  abbrev pub successes : List ℤ → List BusEvent
  successes [] = success_of minus_one ∷ []
  successes (a ∷ as') = success_of a ∷ successes as'

module _ (env : Env) (ctrl : AuthSession) (sender msg : Bytes) (short : length sender < 256)
    (mfa : ctrl.is_mfa ≡ true)
    (up : (cs : List Call) → (env.fails cs ≡ false) × (env.unreadable cs ≡ false)) where
  on_event_deal :
      (s u : UserData) (a : ℤ)
      → s.auth_ctrl ≡ some ctrl
      → mfa_signal_deal env (pos 0) a msg s ≡ some (Ret.pending, u)
      → on_event env (success_of sender msg a) s ≡ some (tt, record u { res = Ret.pending })
  unfolding on_event bus_signal_cb handle_signal deal give_token
  on_event_deal s u a c h = ground (arith, copy_into-fits 256 sender s short)

  step_last :
      (s : UserData) (a : ℤ) (k : ℕ)
      → s.auth_ctrl ≡ some ctrl
      → s.cur_type ≡ a
      → a ≢ minus_one
      → find_current ctrl a ctrl.factor_size 0 ≡ some k
      → k + 1 ≡ ctrl.factor_size
      → mfa_signal_deal env (pos 0) a msg s
        ≡ some (
          Ret.pending,
          record s {
            calls = Call.send_msg (tr "Verification successful") Style.text_info ∷ s.calls;
          },
        )
  unfolding mfa_signal_deal
  step_last s a k c e ne f h =
      let after : UserData = record s {
        calls = Call.send_msg (tr "Verification successful") Style.text_info ∷ s.calls;
      } in
      ground (arith, ==ℤ-eq a minus_one, ==ℤ-refl a, mfa_next-last env after ctrl c a k (rw e f) h)

  step_next :
      (s : UserData) (a b : ℤ) (k : ℕ)
      → s.auth_ctrl ≡ some ctrl
      → s.cur_type ≡ a
      → a ≢ minus_one
      → find_current ctrl a ctrl.factor_size 0 ≡ some k
      → k + 1 < ctrl.factor_size
      → ordered_type ctrl (k + 1) ≡ some b
      → mfa_signal_deal env (pos 0) a msg s
        ≡ some (
          Ret.pending,
          record s {
            cur_type = b;
            calls =
                Call.start s.path b minus_one
                ∷ Call.end s.path a
                ∷ Call.send_msg (tr "Verification successful") Style.text_info
                ∷ s.calls;
          },
        )
  unfolding mfa_signal_deal
  step_next s a b k c e ne f h g =
      let after : UserData = record s {
        calls = Call.send_msg (tr "Verification successful") Style.text_info ∷ s.calls;
      } in
      ground (
        arith,
        ==ℤ-eq a minus_one,
        ==ℤ-refl a,
        mfa_next-step env after ctrl c a b k (rw e f) h g up,
      )

  step_end :
      (s : UserData)
      → s.auth_ctrl ≡ some ctrl
      → s.res ≡ Ret.pending
      → (t : UserData) × (bus_loop env (success_of sender msg minus_one ∷ []) s ≡ some (tt, t))
        × (t.res ≡ Ret.success)
        × (starts t.calls ≡ starts s.calls)
  unfolding bus_loop on_event bus_signal_cb handle_signal deal give_token mfa_signal_deal
  step_end s c p = elim (Option-cases s.auth_tok) [
    | inl no_token ↦ (
      record s { need_cancel = false; res = Ret.success },
      ground (arith, copy_into-fits 256 sender s short),
      refl,
      refl,
    )
    | inr (tok, token) ↦ (
      record s { need_cancel = false; res = Ret.success; calls = Call.set_authtok tok ∷ s.calls },
      ground (arith, copy_into-fits 256 sender s short),
      refl,
      refl,
    )
  ]

  loop_step :
      (e : BusEvent) (es : List BusEvent) (s u : UserData)
      → s.res ≡ Ret.pending
      → on_event env e s ≡ some (tt, u)
      → bus_loop env (e ∷ es) s ≡ bus_loop env es u
  unfolding bus_loop
  loop_step e es s u p h = ground arith

  module _ (o : IsOrdered ctrl) (proper : (q : ℕ) → ordered_type ctrl q ≢ some minus_one)
      (distinct : (p q : ℕ) (x : ℤ)
        → p < q
        → q < ctrl.factor_size
        → ordered_type ctrl p ≡ some x
        → ordered_type ctrl q ≢ some x) where
    reverse-cons-append : (b : ℤ) (r m : List ℤ) → reverse r ++ (b ∷ m) ≡ reverse (b ∷ r) ++ m
    reverse-cons-append b r m = rw (reverse-cons, append_assoc) refl

    run_from :
        (rest : List ℤ) (a : ℤ) (k : ℕ) (s : UserData)
        → ((j : ℕ) → ordered_type ctrl (k + j) ≡ get_elem? (a ∷ rest) j)
        → k + length (a ∷ rest) ≡ ctrl.factor_size
        → s.auth_ctrl ≡ some ctrl
        → s.cur_type ≡ a
        → s.res ≡ Ret.pending
        → (t : UserData) × (bus_loop env (successes sender msg (a ∷ rest)) s ≡ some (tt, t))
          × (t.res ≡ Ret.success)
          × (starts t.calls ≡ reverse rest ++ starts s.calls)
    run_from [] a k s types size c e p =
        let here : ordered_type ctrl k ≡ some a =
          ap (λ i. ordered_type ctrl i) (omega arith) ∙ types 0 in
        let f = find_current_at ctrl o distinct a k (omega arith) here in
        let ne : a ≢ minus_one = λ q. proper k (here ∙ ap some q) in
        let u : UserData = record s {
          calls = Call.send_msg (tr "Verification successful") Style.text_info ∷ s.calls;
        } in
        let first = on_event_deal s u a c (step_last s a k c e ne f (omega arith)) in
        let (t, g, r, q) = step_end (record u { res = Ret.pending }) c refl in
        (t, loop_step _ _ s (record u { res = Ret.pending }) p first ∙ g, r, q)
    run_from (b ∷ rest) a k s types size c e p =
        let here : ordered_type ctrl k ≡ some a =
          ap (λ i. ordered_type ctrl i) (omega arith) ∙ types 0 in
        let f = find_current_at ctrl o distinct a k (omega arith) here in
        let ne : a ≢ minus_one = λ q. proper k (here ∙ ap some q) in
        let u : UserData = record s {
          cur_type = b;
          res = Ret.pending;
          calls =
              Call.start s.path b minus_one
              ∷ Call.end s.path a
              ∷ Call.send_msg (tr "Verification successful") Style.text_info
              ∷ s.calls;
        } in
        let first = on_event_deal s _ a c (step_next s a b k c e ne f (omega arith) (types 1)) in
        let (t, g, r, q) =
          run_from rest b (k + 1) u
            (λ j. ap (λ i. ordered_type ctrl i) (omega arith) ∙ types (suc j)) (omega arith) c refl
            refl in
        (t, loop_step _ _ s u p first ∙ g, r, q ∙ reverse-cons-append b rest (starts s.calls))

-- From the start of the first method on, while the service takes every call: if each method of a
-- multi-factor session succeeds in turn and then the session does, the loop ends with PAM_SUCCESS,
-- and has started exactly the methods of the session, each once, in the order of `factor_order`.
-- The session is as `resolve_authctrl_factors` leaves it, and its methods differ and are not -1.
pub mfa_run :
    (env : Env) (ctrl : AuthSession) (sender msg : Bytes) (a : ℤ) (rest : List ℤ) (s : UserData)
    → length sender < 256
    → ctrl.is_mfa ≡ true
    → ((cs : List Call) → (env.fails cs ≡ false) × (env.unreadable cs ≡ false))
    → IsOrdered ctrl
    → ((q : ℕ) → ordered_type ctrl q ≢ some minus_one)
    → ((p q : ℕ) (x : ℤ)
        → p < q
        → q < ctrl.factor_size
        → ordered_type ctrl p ≡ some x
        → ordered_type ctrl q ≢ some x)
    → ((j : ℕ) → ordered_type ctrl j ≡ get_elem? (a ∷ rest) j)
    → length (a ∷ rest) ≡ ctrl.factor_size
    → s.auth_ctrl ≡ some ctrl
    → s.cur_type ≡ a
    → s.res ≡ Ret.pending
    → starts s.calls ≡ a ∷ []
    → (t : UserData) × (bus_loop env (successes sender msg (a ∷ rest)) s ≡ some (tt, t))
      × (t.res ≡ Ret.success)
      × (starts t.calls ≡ reverse (a ∷ rest))
mfa_run env ctrl sender msg a rest s short mfa up o proper distinct types size c e p started =
    let (t, g, r, q) =
      run_from env ctrl sender msg short mfa up o proper distinct rest a 0 s
        (λ j. ap (λ i. ordered_type ctrl i) (omega arith) ∙ types j) (omega arith) c e p in
    (t, g, r, q ∙ rw (started, reverse-cons) refl)
