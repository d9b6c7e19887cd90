-- ===== src/Pam/Loop/Safety.antt =====
-- When the D-Bus loop of misc/pam-module/auth/pam.c ends in success.
use lingmo_authenticate.Common.{
  ◌≡◌, ◌⊎◌, inl, inr, pos, minus_one, true, false, some, List, [], ◌∷◌, ap, arith, Bool-cases,
  Option-cases,
}
use lingmo_authenticate.Pam.Codes.{Ret}
use lingmo_authenticate.Pam.State.{
  Env, AuthSession, UserData, copy_into, copy_into-some, max_buf_size,
}
use lingmo_authenticate.Pam.Keys.{call_encrypt_key_cb}
use lingmo_authenticate.Pam.Keys.Frame.{call_encrypt_key_cb-frame}
use lingmo_authenticate.Pam.Success.{sfa_signal_deal-success, mfa_signal_deal-success}
use lingmo_authenticate.Pam.Loop.{
  Signal, BusEvent, status, key_reply, is_pending, give_token, bus_signal_cb, handle_signal, deal,
  on_event, bus_loop,
}

-- The event is a Success signal for the whole session.
abbrev pub IsSuccess : BusEvent → Type 0
IsSuccess (status signal) = (signal.code ≡ pos 0) × (signal.auth_type ≡ minus_one)
IsSuccess _ = ⊥

abbrev pub HasSuccess : List BusEvent → Type 0
HasSuccess [] = ⊥
HasSuccess (e ∷ es) = IsSuccess e ⊎ HasSuccess es

pub pending_of : (r : Ret) → is_pending r ≡ true → r ≡ Ret.pending
unfolding is_pending
pending_of r h = ground (arith, h)

give_token-res : (s t : UserData) → give_token s ≡ some (tt, t) → t.res ≡ s.res
unfolding give_token
give_token-res s t h = ground arith

pub bus_loop-done :
    (env : Env) (es : List BusEvent) (s t : UserData)
    → is_pending s.res ≡ false
    → bus_loop env es s ≡ some (tt, t)
    → t ≡ s
unfolding bus_loop
bus_loop-done env [] s t p h = ground arith
bus_loop-done env (e ∷ es) s t p h = ground arith

module _ (env : Env) where
  abbrev Succeeds : Signal → Type 0
  Succeeds signal = (signal.code ≡ pos 0) × (signal.auth_type ≡ minus_one)

  deal-success :
      (ctrl : AuthSession) (signal : Signal) (s t : UserData)
      → deal env ctrl signal s ≡ some (Ret.success, t)
      → Succeeds signal
  unfolding deal
  deal-success ctrl signal s t h = elim (Bool-cases ctrl.is_mfa) [
    | inl e ↦
        (mfa_signal_deal-success env s signal.code signal.auth_type signal.msg).0 (t, ground arith)
    | inr e ↦
        (sfa_signal_deal-success env s signal.code signal.auth_type signal.msg).0 (t, ground arith)
  ]

  -- The part of `bus_signal_cb` after the copy of the path.
  handled :
      (signal : Signal) (s t : UserData)
      → handle_signal env signal s ≡ some (tt, t)
      → s.res ≡ Ret.pending
      → t.res ≡ Ret.success
      → Succeeds signal
  unfolding handle_signal
  handled signal s t h p q = elim (Bool-cases signal.readable) [
    | inr no_args ↦ absurd (ground arith)
    | inl readable ↦ elim (Option-cases s.auth_ctrl) [
      | inl null ↦ absurd (ground arith)
      | inr (ctrl, c) ↦ elim (Option-cases (deal env ctrl signal s)) [
        | inl fault ↦ absurd (ground arith)
        | inr ((r, u), d) ↦
            let given : give_token (record u { res = r }) ≡ some (tt, t) = ground arith in
            let same = give_token-res (record u { res = r }) t given in
            let success : r ≡ Ret.success = ground arith in
            deal-success ctrl signal s u (rw success at d)
      ]
    ]
  ]

  bus_signal_cb-success :
      (signal : Signal) (s t : UserData)
      → bus_signal_cb env signal s ≡ some (tt, t)
      → s.res ≡ Ret.pending
      → t.res ≡ Ret.success
      → Succeeds signal
  unfolding bus_signal_cb
  bus_signal_cb-success signal s t h p q =
      elim (Option-cases (copy_into max_buf_size signal.sender s)) [
        | inl long ↦ absurd (ground arith)
        | inr ((path, s'), c) ↦
            let same = copy_into-some max_buf_size signal.sender path s s' c in
            handled signal s t (ground arith) p q
      ]

  pub on_event-success :
      (e : BusEvent) (s t : UserData)
      → on_event env e s ≡ some (tt, t)
      → s.res ≡ Ret.pending
      → t.res ≡ Ret.success
      → IsSuccess e
  unfolding on_event
  on_event-success (status signal) s t h p q = bus_signal_cb-success signal s t h p q
  on_event-success (key_reply reply) s t h p q =
      elim (Option-cases (call_encrypt_key_cb env reply s)) [
        | inl c ↦ absurd (ground (arith, h, c))
        | inr ((b, u), c) ↦
            let kept = ap (λ (x : UserData). x.res) (call_encrypt_key_cb-frame env reply b s u c) in
            absurd (ground (arith, h, c, kept, p, q))
      ]
  on_event-success _ s t h p q = ground arith

  -- The loop, begun with no result, ends with PAM_SUCCESS only if the bus delivered a Success signal
  -- of type -1. (The token thread, which may set the result too, is not part of the loop.)
  pub bus_loop-success :
      (es : List BusEvent) (s t : UserData)
      → s.res ≡ Ret.pending
      → bus_loop env es s ≡ some (tt, t)
      → t.res ≡ Ret.success
      → HasSuccess es
  unfolding bus_loop
  bus_loop-success [] s t p h q = ground arith
  bus_loop-success (e ∷ es) s t p h q = elim (Option-cases (on_event env e s)) [
    | inl fault ↦ absurd (ground arith)
    | inr ((_, u), f) ↦
        let rest : bus_loop env es u ≡ some (tt, t) = ground arith in
        elim (Bool-cases (is_pending u.res)) [
          | inl more ↦ inr (bus_loop-success es u t (ground arith) rest q)
          | inr done ↦
              inl (on_event-success e s u f p (rw (← bus_loop-done env es u t done rest) q))
        ]
  ]
