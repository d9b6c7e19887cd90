-- ===== src/Pam/Entry/Success.antt =====
-- When `pam_sm_authenticate` returns PAM_SUCCESS.
use lingmo_authenticate.Common.{
  ◌≡◌, ◌≢◌, refl, ◌∙◌, ap, ℤ, pos, bit, get_elem?, true, false, Option, none, some, List, [], ◌∷◌,
  Bytes, arith, sym, Option-cases, Bool-cases, inl, inr,
}
use lingmo_authenticate.Pam.Codes.{Ret, Text}
use lingmo_authenticate.Pam.Types.{AppVal, type_to_index, first_bit}
use lingmo_authenticate.Pam.State.{Env, Call, AuthSession, UserData, Pam}
use lingmo_authenticate.Pam.State.{send, emit, set_need_cancel}
use lingmo_authenticate.Pam.Limit.{get_limit_prompt}
use lingmo_authenticate.Pam.Limits.{get_limits_info}
use lingmo_authenticate.Pam.Limits.Store.{get_limits_info-KeepsRest}
use lingmo_authenticate.Pam.Loop.{BusEvent, bus_loop, is_success, set_res}
use lingmo_authenticate.Pam.Loop.Safety.{HasSuccess, bus_loop-success}
use lingmo_authenticate.Pam.Dbus.{listen_dbus_signal}
use lingmo_authenticate.Pam.Keys.{dbus_method_encrypt_key}
use lingmo_authenticate.Pam.Entry.{
  Host, new_user_data, gate, identify, start_verify, start_loop, begin_session, refuse, check_lock,
  run_session, need_token, finish, with_bus, admitted, pam_sm_authenticate,
}
use lingmo_authenticate.Pam.Open.{open_session, get_authctl_property}
use lingmo_authenticate.Pam.Entry.Keeps.{
  identify-res, open_session-res, get_authctl_property-res, encrypt_key-res, listen-res,
  start_verify-res,
}
use lingmo_authenticate.Pam.Clean.Twice.{clean_auth_data-IsClean}
use lingmo_authenticate.Pam.Args.{Args, no_args, parse_args}

password_index : type_to_index (pos 1) ≡ some 0
unfolding type_to_index first_bit bit
password_index = refl

not_success : (r : Ret) → is_success r ≡ false → r ≢ Ret.success
unfolding is_success
not_success r h e = ground arith

refuse-res :
    (env : Env) (r : Ret) (text : Option Text) (s t : UserData)
    → refuse env r text s ≡ some (tt, t)
    → (t.res ≡ r) × (t.limits ≡ s.limits)
unfolding refuse set_res send emit
refuse-res env r text s t h = ground (arith, h)

gate-res :
    (host : Host) (a : Args) (s t : UserData) (r : Option Bytes)
    → gate host a s ≡ some (r, t)
    → t.res ≡ s.res
unfolding gate
gate-res host a s t r h = ground (arith, h)

module _ (env : Env) (loop : Pam (Unit {0})) where
  -- The loop was entered without a result, and has ended in success.
  abbrev Through : Type 0
  Through =
      (u : UserData) × (v : UserData) × (u.res ≡ Ret.pending)
      × (loop u ≡ some (tt, v))
      × (v.res ≡ Ret.success)

  start_loop-through :
      (ctrl : AuthSession) (timeout : ℤ) (s t : UserData)
      → s.res ≡ Ret.pending
      → start_loop env ctrl timeout loop s ≡ some (tt, t)
      → t.res ≡ Ret.success
      → Through
  unfolding start_loop
  start_loop-through ctrl timeout s t p h q = elim (Option-cases (listen_dbus_signal env s)) [
    | inl e ↦ absurd (ground (arith, h, e))
    | inr ((true, u), e) ↦ absurd (ground (arith, h, e, q))
    | inr ((false, u), e) ↦ elim (Option-cases (start_verify env ctrl timeout u)) [
      | inl f ↦ absurd (ground (arith, h, e, f))
      | inr ((true, v), f) ↦ absurd (ground (arith, h, e, f, q))
      | inr ((false, v), f) ↦ (
        v,
        t,
        start_verify-res env ctrl timeout u v false f ∙ listen-res env s u false e ∙ p,
        ground (arith, h, e, f),
        q,
      )
    ]
  ]

  begin_session-through :
      (timeout : ℤ) (s t : UserData)
      → s.res ≡ Ret.pending
      → begin_session env timeout loop s ≡ some (tt, t)
      → t.res ≡ Ret.success
      → Through
  unfolding begin_session
  begin_session-through timeout s t p h q = elim (Option-cases s.auth_ctrl) [
    | inl c ↦ absurd (ground (arith, h, c))
    | inr (ctrl, c) ↦
        let w = record s {
          key = some (record { alg_type = pos 0; flags = none; pubkey = none; rsa = none });
        } in
        elim (Bool-cases (need_token ctrl.factors)) [
          | inr n ↦ start_loop-through ctrl timeout w t p (ground (arith, h, c, n)) q
          | inl n ↦ elim (Option-cases (dbus_method_encrypt_key env s.path (pos 0) w)) [
            | inl e ↦ absurd (ground (arith, h, c, n, e))
            | inr ((b, u), e) ↦
                start_loop-through ctrl timeout u t (encrypt_key-res env s.path w u b e ∙ p)
                  (ground (arith, h, c, n, e)) q
          ]
        ]
  ]

  check_lock-through :
      (timeout : ℤ) (s t : UserData)
      → s.res ≡ Ret.pending
      → check_lock env timeout loop s ≡ some (tt, t)
      → t.res ≡ Ret.success
      → Through
  unfolding check_lock
  check_lock-through timeout s t p h q = elim (Option-cases (get_elem? s.limits 0)) [
    | inl e ↦ absurd (ground (arith, h, e, password_index))
    | inr (limit, e) ↦ elim (Bool-cases (is_success (get_limit_prompt env s.calls limit).0)) [
      | inl f ↦ begin_session-through timeout s t p (ground (arith, h, e, f, password_index)) q
      | inr f ↦
          let refused : refuse env (get_limit_prompt env s.calls limit).0
                (get_limit_prompt env s.calls limit).1 s
              ≡ some (tt, t) =
            ground (arith, h, e, f, password_index) in
          let (r, _) =
            refuse-res env (get_limit_prompt env s.calls limit).0
              (get_limit_prompt env s.calls limit).1 s t refused in
          absurd (not_success (get_limit_prompt env s.calls limit).0 f (sym r ∙ q))
    ]
  ]

  run_session-through :
      (timeout : ℤ) (s t : UserData)
      → s.res ≡ Ret.pending
      → run_session env timeout loop s ≡ some (tt, t)
      → t.res ≡ Ret.success
      → Through
  unfolding run_session set_need_cancel
  run_session-through timeout s t p h q =
      let w = record s { need_cancel = true } in
      elim (Option-cases (get_limits_info env w)) [
        | inl e ↦ absurd (ground (arith, h, e))
        | inr ((_, u), e) ↦
            let kept = get_limits_info-KeepsRest env w u e in
            check_lock-through timeout u t (ap (λ (x : UserData). x.res) kept.rest ∙ p)
              (ground (arith, h, e)) q
      ]

  -- `finish` returns the result it finds.
  finish-res : (s t : UserData) (r : Ret) → finish env s ≡ some (r, t) → r ≡ s.res
  unfolding finish emit
  finish-res s t r h =
      let (v, e, _, _, _) =
        clean_auth_data-IsClean env
          (record s { calls = Call.set_result (is_success s.res) ∷ s.calls }) in
      ground (arith, h, e)

  with_bus-through :
      (name : Bytes) (app : AppVal) (app_path : Bytes) (timeout : ℤ) (s t : UserData)
      → s.res ≡ Ret.pending
      → with_bus env name app app_path timeout loop s ≡ some (Ret.success, t)
      → Through
  unfolding with_bus set_res
  with_bus-through name app app_path timeout s t p h =
      elim (Option-cases (open_session env name app app_path s)) [
        | inl e ↦ absurd (ground (arith, h, e))
        | inr ((none, u), e) ↦
            let r =
              finish-res (record u { res = Ret.abort }) t Ret.success (ground (arith, h, e)) in
            absurd (ground (arith, r))
        | inr ((some path, u), e) ↦
            let w = record u { path = path } in
            let at : w.res ≡ Ret.pending =
              open_session-res env name app app_path s u (some path) e ∙ p in
            elim (Option-cases (get_authctl_property env path w)) [
              | inl f ↦ absurd (ground (arith, h, e, f))
              | inr ((true, v), f) ↦ absurd (ground (arith, h, e, f))
              | inr ((false, v), f) ↦ elim (Option-cases (run_session env timeout loop v)) [
                | inl g ↦ absurd (ground (arith, h, e, f, g))
                | inr ((_, x), g) ↦
                    let r = finish-res x t Ret.success (ground (arith, h, e, f, g)) in
                    run_session-through timeout v x
                      (get_authctl_property-res env path w v false f ∙ at) g (sym r)
              ]
            ]
      ]

  admitted-through :
      (host : Host) (a : Args) (app_path : Bytes) (s t : UserData)
      → s.res ≡ Ret.pending
      → admitted env host a loop app_path s ≡ some (Ret.success, t)
      → Through
  unfolding admitted emit
  admitted-through host a app_path s t p h = elim (Option-cases (identify env host app_path a s)) [
    | inl e ↦ absurd (ground (arith, h, e))
    | inr ((who, u), e) ↦
        let (kept, _) = identify-res env host app_path a s u who e in
        let w = record u { calls = Call.open_system ∷ u.calls } in
        elim (Bool-cases (env.fails (Call.open_system ∷ u.calls))) [
          | inl f ↦
              let r = finish-res w t Ret.success (ground (arith, h, e, f)) in
              absurd (ground (arith, r, kept, p))
          | inr f ↦
              with_bus-through who.0 who.1 app_path a.timeout (record w { bus = true }) t (kept ∙ p)
                (ground (arith, h, e, f))
        ]
  ]

  -- PAM_SUCCESS comes from the loop: it was entered, and has ended with it.
  pub pam_sm_authenticate-through :
      (host : Host) (argv : List Bytes) (t : UserData)
      → pam_sm_authenticate env host argv loop new_user_data ≡ some (Ret.success, t)
      → Through
  unfolding pam_sm_authenticate emit
  pam_sm_authenticate-through host argv t h =
      let s : UserData = record new_user_data { calls = Call.set_data ∷ [] } in
      elim (Option-cases (parse_args argv no_args)) [
        | inl e ↦ absurd (ground (arith, h, e))
        | inr (a, e) ↦ elim (Option-cases (gate host a s)) [
          | inl f ↦ absurd (ground (arith, h, e, f))
          | inr ((none, u), f) ↦ absurd (ground (arith, h, e, f))
          | inr ((some app_path, u), f) ↦
              admitted-through host a app_path u t (gate-res host a s u (some app_path) f)
                (ground (arith, h, e, f))
        ]
      ]

-- Without the token thread, `pam_sm_authenticate` returns PAM_SUCCESS only if the bus delivered a
-- Success signal of type -1 to its loop.
pub pam_sm_authenticate-success :
    (env : Env) (host : Host) (argv : List Bytes) (es : List BusEvent) (t : UserData)
    → pam_sm_authenticate env host argv (bus_loop env es) new_user_data ≡ some (Ret.success, t)
    → HasSuccess es
pam_sm_authenticate-success env host argv es t h =
    let (u, v, p, e, q) = pam_sm_authenticate-through env (bus_loop env es) host argv t h in
    bus_loop-success env es u v p e q
