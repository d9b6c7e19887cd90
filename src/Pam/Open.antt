-- ===== src/Pam/Open.antt =====
-- How `pam_sm_authenticate` of misc/pam-module/auth/pam.c opens a session, and `get_authctl_property`
-- of utils.c.
use lingmo_authenticate.Common.{
  ◌++◌, ◌&&◌, ℤ, pos, ◌==ℤ◌, int_of, Bool, true, false, not, Option, none, some, List, [], ◌∷◌,
  String, Bytes, codes, ◌>>=◌, ◌>>◌, pure, access, get_state, put_state, if◌then◌else◌,
}
use lingmo_authenticate.Pam.Codes.{Style, tr_int, auth_flag_using}
use lingmo_authenticate.Pam.Types.{AppVal, login, lock, authorization, other}
use lingmo_authenticate.Pam.State.{Env, Call, AuthFactor, Pam, emit, send}
use lingmo_authenticate.Pam.Dbus.{
  dbus_method_authenticate, dbus_method_pre_one_key_login, dbus_get_prop_int,
  dbus_get_user_passwd_expired_info,
}
use lingmo_authenticate.Pam.Factors.{resolve_authctrl_factors}

unfoldable pub app_value : AppVal → ℤ
app_value login = pos 1
app_value lock = pos 2
app_value authorization = pos 3
app_value other = pos 4

-- The loop that reads the factors of the message; `acc` are those read so far.
unfoldable pub read_factors : List AuthFactor → List AuthFactor → List AuthFactor
read_factors [] acc = acc
read_factors (f ∷ factors) acc = read_factors factors (acc ++ (f ∷ []))

module _ (env : Env) where
  -- The notice of a password that expires soon (status 1), for a login.
  unfoldable pub expiry_notice : Bytes → AppVal → Pam (Unit {0})
  expiry_notice username login = do
    info ← dbus_get_user_passwd_expired_info env username (pos 0) (pos 0)
    (if not info.failed && info.status ==ℤ pos 1
        then send
            (tr_int "Your password will expire in %d days, please change it timely"
              (int_of info.left_days))
            Style.text_info
        else pure tt)
  expiry_notice username lock = pure tt
  expiry_notice username authorization = pure tt
  expiry_notice username other = pure tt

  -- The session that Authenticate opens: its path, or `none` if the service has refused.
  unfoldable pub new_session : Bytes → AppVal → Pam (Option Bytes)
  new_session username app = do
    expiry_notice username app
    supported ← dbus_get_prop_int env (codes "/com/deepin/daemon/Authenticate") "SupportedFlags"
    dbus_method_authenticate env username
        (elim supported [ none ↦ auth_flag_using | some flags ↦ flags ]) (app_value app)

  -- The path of the session: `buff`, which holds the path of the program before.
  unfoldable pub open_session : Bytes → AppVal → Bytes → Pam (Option Bytes)
  open_session username app app_path = do
    id ← dbus_method_pre_one_key_login env
    elim (elim id as (λ x. Bytes) [ none ↦ app_path | some i ↦ i ]) [
      | [] ↦ new_session username app
      | c ∷ cs ↦ pure (some (c ∷ cs))
    ]

  -- A property of the session; whether it cannot be read.
  unfoldable pub property_fails : Bytes → String → Pam Bool
  unfolding emit
  property_fails path name = do calls ← emit (Call.get_property path name); pure (env.fails calls)

  -- `get_authctl_property`: whether the return value is not 0. The session is stored when all is read.
  unfoldable pub get_authctl_property : Bytes → Pam Bool
  unfolding emit
  get_authctl_property path = do
    asked ← emit (Call.get_property path "IsMFA")
    if env.fails asked then pure true else do
      calls ← emit (Call.get_property path "FactorsInfo")
      if env.fails calls then pure true else do
        no_prompt ← property_fails path "Prompt"
        if no_prompt then pure true else do
          no_name ← property_fails path "Username"
          if no_name then pure true else elim (env.reply_factors calls) [
            | none ↦ pure true
            | some factors ↦ (do
              ctrl ← access (
                  resolve_authctrl_factors (not (env.reply_int asked ==ℤ pos 0))
                    (read_factors factors []))
              s ← get_state
              put_state (record s { auth_ctrl = some ctrl })
              pure false)
          ]
