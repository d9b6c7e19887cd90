-- ===== src/Pam/Entry/Keeps.antt =====
-- What the parts of `pam_sm_authenticate` before and after the loop leave of the result.
use lingmo_authenticate.Common.{
  ℕ, ◌≡◌, ◌∙◌, ℤ, pos, none, some, [], ◌∷◌, Bytes, String, codes, arith, bind_some, Option-cases,
  Bool-cases, inl, inr, ◌>>=◌,
}
use lingmo_authenticate.Pam.Codes.{auth_flag_using}
use lingmo_authenticate.Pam.Types.{AppVal, login, lock, authorization, other}
use lingmo_authenticate.Pam.State.{Env, AuthSession, UserData, Pam, emit, copy_into, send}
use lingmo_authenticate.Pam.Dbus.{
  dbus_method_authenticate, dbus_method_pre_one_key_login, dbus_get_prop_int, dbus_method_start,
  dbus_get_user_passwd_expired_info, listen_dbus_signal,
}
use lingmo_authenticate.Pam.Keys.{dbus_method_encrypt_key}
use lingmo_authenticate.Pam.Sfa.{sfa_start_verify}
use lingmo_authenticate.Pam.Mfa.{mfa_start_verify}
use lingmo_authenticate.Pam.Args.{Args, c_str}
use lingmo_authenticate.Pam.Files.{load_app_type, load_user_locale}
use lingmo_authenticate.Pam.Entry.{Host, identify, start_verify}
use lingmo_authenticate.Pam.Open.{
  expiry_notice, new_session, open_session, property_fails, get_authctl_property, app_value,
}

pub identify-res :
    (env : Env) (host : Host) (app_path : Bytes) (a : Args) (s t : UserData) (who : Bytes × AppVal)
    → identify env host app_path a s ≡ some (who, t)
    → (t.res ≡ s.res) × (t.calls ≡ s.calls)
unfolding identify copy_into
identify-res env host app_path a s t who h = elim (Option-cases host.user) [
  | inl e ↦ ground (arith, h, e)
  | inr (name, e) ↦ elim (Option-cases (c_str a.user_locale)) [
    | inl c ↦ ground (arith, h, e, c)
    | inr ([], c) ↦ elim (Option-cases (load_app_type env host.app_types app_path)) [
      | inl l ↦ ground (arith, h, e, c, l)
      | inr (_, l) ↦ ground (arith, h, e, c, l)
    ]
    | inr (x ∷ xs, c) ↦
        elim (Option-cases (load_user_locale host.home (x ∷ xs) host.locale_lines)) [
          | inl m ↦ ground (arith, h, e, c, m)
          | inr (_, m) ↦ elim (Option-cases (load_app_type env host.app_types app_path)) [
            | inl l ↦ ground (arith, h, e, c, l, m)
            | inr (_, l) ↦ ground (arith, h, e, c, l, m)
          ]
        ]
  ]
]

abbrev KeepsRes : {A : Type 0} → Pam A → Type 0
KeepsRes {A = A} m = (s t : UserData) (a : A) → m s ≡ some (a, t) → t.res ≡ s.res

KeepsRes-bind :
    {A B : Type 0} (m : Pam A) (f : A → Pam B)
    → KeepsRes m
    → ((a : A) → KeepsRes (f a))
    → KeepsRes (m >>= f)
KeepsRes-bind m f h g s t b e =
    let (a, u, first, then) = bind_some m f b s t e in g a u t b then ∙ h s u a first

module _ (env : Env) where
  expired_info-res :
      (name : Bytes) → KeepsRes (dbus_get_user_passwd_expired_info env name (pos 0) (pos 0))
  unfolding dbus_get_user_passwd_expired_info emit copy_into
  expired_info-res name s t a h = ground (arith, h)

  expiry_notice-res : (name : Bytes) (app : AppVal) → KeepsRes (expiry_notice env name app)
  unfolding expiry_notice send emit
  expiry_notice-res name login s t a h =
      elim (Option-cases (dbus_get_user_passwd_expired_info env name (pos 0) (pos 0) s)) [
        | inl e ↦ absurd (ground (arith, h, e))
        | inr ((info, u), e) ↦
            let kept = expired_info-res name s u info e in ground (arith, h, e, kept)
      ]
  expiry_notice-res name lock s t a h = ground (arith, h)
  expiry_notice-res name authorization s t a h = ground (arith, h)
  expiry_notice-res name other s t a h = ground (arith, h)

  pre_one_key_login-res : KeepsRes (dbus_method_pre_one_key_login env)
  unfolding dbus_method_pre_one_key_login emit copy_into
  pre_one_key_login-res s t a h = ground (arith, h)

  get_prop_int-res : (path : Bytes) (name : String) → KeepsRes (dbus_get_prop_int env path name)
  unfolding dbus_get_prop_int emit
  get_prop_int-res path name s t a h = ground (arith, h)

  authenticate-res :
      (name : Bytes) (flags app : ℤ) → KeepsRes (dbus_method_authenticate env name flags app)
  unfolding dbus_method_authenticate emit copy_into
  authenticate-res name flags app s t a h = ground (arith, h)

  pub get_authctl_property-res : (path : Bytes) → KeepsRes (get_authctl_property env path)
  unfolding get_authctl_property property_fails emit
  get_authctl_property-res path s t a h = ground (arith, h)

  pub encrypt_key-res : (path : Bytes) → KeepsRes (dbus_method_encrypt_key env path (pos 0))
  unfolding dbus_method_encrypt_key emit
  encrypt_key-res path s t a h = ground (arith, h)

  pub listen-res : KeepsRes (listen_dbus_signal env)
  unfolding listen_dbus_signal emit
  listen-res s t a h = ground (arith, h)

  pub sfa_start_verify-res : (timeout : ℤ) → KeepsRes (sfa_start_verify env timeout)
  unfolding sfa_start_verify dbus_method_start emit
  sfa_start_verify-res timeout s t a h = ground (arith, h)

  pub mfa_start_verify-res :
      (index : ℕ) (timeout : ℤ) → KeepsRes (mfa_start_verify env index timeout)
  unfolding mfa_start_verify dbus_method_start emit
  mfa_start_verify-res index timeout s t a h = ground (arith, h)

  pub start_verify-res :
      (ctrl : AuthSession) (timeout : ℤ) → KeepsRes (start_verify env ctrl timeout)
  unfolding start_verify
  start_verify-res ctrl timeout s t a h = elim (Bool-cases ctrl.is_mfa) [
    | inl m ↦ elim (Option-cases (mfa_start_verify env 0 timeout s)) [
      | inl e ↦ absurd (ground (arith, h, m, e))
      | inr ((r, u), e) ↦
          let kept = mfa_start_verify-res 0 timeout s u r e in ground (arith, h, m, e, kept)
    ]
    | inr m ↦ elim (Option-cases (sfa_start_verify env timeout s)) [
      | inl e ↦ absurd (ground (arith, h, m, e))
      | inr ((r, u), e) ↦
          let kept = sfa_start_verify-res timeout s u r e in ground (arith, h, m, e, kept)
    ]
  ]

  new_session-res : (name : Bytes) (app : AppVal) → KeepsRes (new_session env name app)
  unfolding new_session
  new_session-res name app =
      KeepsRes-bind (expiry_notice env name app)
        (λ _.
          dbus_get_prop_int env (codes "/com/deepin/daemon/Authenticate") "SupportedFlags"
          >>= λ supported.
              dbus_method_authenticate env name
                (elim supported [ none ↦ auth_flag_using | some flags ↦ flags ]) (app_value app))
        (expiry_notice-res name app)
        (λ _.
          KeepsRes-bind
            (dbus_get_prop_int env (codes "/com/deepin/daemon/Authenticate") "SupportedFlags")
            (λ supported.
              dbus_method_authenticate env name
                (elim supported [ none ↦ auth_flag_using | some flags ↦ flags ]) (app_value app))
            (get_prop_int-res (codes "/com/deepin/daemon/Authenticate") "SupportedFlags")
            (λ supported.
              authenticate-res name (elim supported [ none ↦ auth_flag_using | some flags ↦ flags ])
                (app_value app)))

  pub open_session-res :
      (name : Bytes) (app : AppVal) (app_path : Bytes)
      → KeepsRes (open_session env name app app_path)
  unfolding open_session
  open_session-res name app app_path s t a h =
      elim (Option-cases (dbus_method_pre_one_key_login env s)) [
        | inl e ↦ absurd (ground (arith, h, e))
        | inr ((id, u), e) ↦
            let first = pre_one_key_login-res s u id e in
            let rest = new_session-res name app u t a in ground (arith, h, e, first, rest)
      ]
