-- ===== src/Pam/Entry.antt =====
-- `pam_sm_authenticate` of misc/pam-module/auth/pam.c.
pub mod Keeps
pub mod Gate
pub mod Login
pub mod Success
use lingmo_authenticate.Common.{
  ℕ, ◌++◌, ◌&&◌, ◌||◌, ℤ, pos, negsuc, minus_one, ◌==ℤ◌, int_of, Bool, true, false, not, Option,
  none, some, List, [], ◌∷◌, String, Bytes, codes, ◌>>=◌, ◌>>◌, pure, access, get_state, put_state,
  get_elem?, replicate, leb, if◌then◌else◌,
}
use lingmo_authenticate.Pam.Codes.{
  Ret, Style, Text, tr_int, at_password, auth_flag_using, it_keyboard, support_at_type,
}
use lingmo_authenticate.Pam.Types.{
  AppVal, login, lock, authorization, other, type_to_index, get_app_type,
}
use lingmo_authenticate.Pam.State.{
  Env, Call, AuthFactor, AuthSession, UserData, Pubkey, Pam, emit, copy_into, max_buf_size,
  no_limit, send, set_need_cancel,
}
use lingmo_authenticate.Pam.Dbus.{
  dbus_method_authenticate, dbus_method_pre_one_key_login, dbus_get_prop_int,
  dbus_get_user_passwd_expired_info, listen_dbus_signal,
}
use lingmo_authenticate.Pam.Keys.{dbus_method_encrypt_key}
use lingmo_authenticate.Pam.Limit.{get_limit_prompt}
use lingmo_authenticate.Pam.Limits.{get_limits_info}
use lingmo_authenticate.Pam.Factors.{resolve_authctrl_factors}
use lingmo_authenticate.Pam.Sfa.{sfa_start_verify}
use lingmo_authenticate.Pam.Mfa.{mfa_start_verify}
use lingmo_authenticate.Pam.Args.{Args, no_args, parse_args, c_str, readlink, in_allow_list}
use lingmo_authenticate.Pam.Files.{load_app_type, load_user_locale}
use lingmo_authenticate.Pam.Clean.{clean_auth_data}
use lingmo_authenticate.Pam.Loop.{set_res, is_success}
use lingmo_authenticate.Pam.Open.{open_session, get_authctl_property}

-- What the system answers: the program's link, the lines of the allow list, whether the input is a
-- terminal and its attributes can be read, the user's name, the text of the file of application
-- types, and the user's directory and locale file.
pub record Host : Type 0 where
  pub exe : Option Bytes
  pub allow_list : Option (List Bytes)
  pub tty : Bool
  pub has_attributes : Bool
  pub user : Option Bytes
  pub app_types : Option Bytes
  pub home : Option Bytes
  pub locale_lines : Bytes → Option (List Bytes)

-- `memset (ud, 0, …)` and the assignments after it.
abbrev pub new_user_data : UserData
new_user_data = record {
  bus = false;
  term = false;
  path = [];
  username = [];
  prompt = [];
  auth_tok = none;
  pid = 0;
  cur_type = pos 0;
  need_cancel = false;
  limits = replicate 7 no_limit;
  failed_indexs = replicate 7 (pos 0);
  failed_num = 0;
  auth_ctrl = none;
  res = Ret.pending;
  waiting_result = false;
  get_result_val = pos 0;
  key = none;
  symmetric_key = none;
  calls = [];
}

-- The loop that looks for a factor with a keyboard.
unfoldable pub need_token : List AuthFactor → Bool
need_token [] = false
need_token (f ∷ factors) =
    let rest = need_token factors in if f.input_type ==ℤ it_keyboard then true else rest

module _ (host : Host) where
  -- The path of the program, if it may use the module; without one the result is PAM_IGNORE.
  unfoldable pub gate : Args → Pam (Option Bytes)
  gate a = elim host.exe [
    | none ↦ pure none
    | some exe ↦ (do
      buff ← access (c_str (readlink exe a.buff))
      elim host.allow_list [
        | none ↦ pure none
        | some lines ↦ pure (if in_allow_list lines buff then some buff else none)
      ])
  ]

module _ (env : Env) where
  -- The start of the first method, or of all; whether it fails.
  unfoldable pub start_verify : AuthSession → ℤ → Pam Bool
  start_verify ctrl timeout = do
    r ← (if ctrl.is_mfa then mfa_start_verify env 0 timeout else sfa_start_verify env timeout)
    pure (not (is_success r))

  -- The signals and the first method, then the loop.
  unfoldable pub start_loop : AuthSession → ℤ → Pam (Unit {0}) → Pam (Unit {0})
  unfolding set_res
  start_loop ctrl timeout loop = do
    deaf ← listen_dbus_signal env
    if deaf
        then set_res Ret.abort
        else do failed ← start_verify ctrl timeout; if failed then set_res Ret.abort else loop

  -- The password is not locked: the key first.
  unfoldable pub begin_session : ℤ → Pam (Unit {0}) → Pam (Unit {0})
  begin_session timeout loop = do
    s ← get_state
    ctrl ← access s.auth_ctrl
    put_state (record s {
      key = some (record { alg_type = pos 0; flags = none; pubkey = none; rsa = none });
    })
    _ ← (if need_token ctrl.factors then dbus_method_encrypt_key env s.path (pos 0) else pure false)
    start_loop ctrl timeout loop

  -- The password is locked: the prompt, and the result.
  unfoldable pub refuse : Ret → Option Text → Pam (Unit {0})
  unfolding set_res send
  refuse r text = do elim text [ none ↦ pure tt | some t ↦ send t Style.error_msg ]; set_res r

  -- The check of the lock, once the limits are read.
  unfoldable pub check_lock : ℤ → Pam (Unit {0}) → Pam (Unit {0})
  unfolding set_res
  check_lock timeout loop = do
    s ← get_state
    type_index ← access (type_to_index at_password)
    if leb support_at_type type_index then set_res Ret.abort else do
      limit ← access (get_elem? s.limits type_index)
      let found = get_limit_prompt env s.calls limit
      if is_success found.0 then begin_session timeout loop else refuse found.0 found.1

  -- From the limits on; `loop` is the D-Bus loop, with all that runs beside it.
  unfoldable pub run_session : ℤ → Pam (Unit {0}) → Pam (Unit {0})
  unfolding set_need_cancel
  run_session timeout loop = do set_need_cancel true; get_limits_info env; check_lock timeout loop

  -- After the loop.
  unfoldable pub finish : Pam Ret
  unfolding emit
  finish = do
    s ← get_state
    _ ← emit (Call.set_result (is_success s.res))
    clean_auth_data env
    pure s.res

  -- With a connection to the bus; a session without its properties returns before `finish`.
  unfoldable pub with_bus : Bytes → AppVal → Bytes → ℤ → Pam (Unit {0}) → Pam Ret
  unfolding set_res
  with_bus username app app_path timeout loop = do
    buff ← open_session env username app app_path
    elim buff [
      | none ↦ set_res Ret.abort >> finish
      | some path ↦ (do
        s ← get_state
        put_state (record s { path = path })
        failed ← get_authctl_property env path
        if failed then pure Ret.abort else run_session timeout loop >> finish)
    ]

module _ (env : Env) (host : Host) where
  -- The terminal, the user and the locale, and the user's name with the type of the program.
  unfoldable pub identify : Bytes → Args → Pam (Bytes × AppVal)
  identify app_path a = do
    s ← get_state
    name ← access host.user
    username ← copy_into max_buf_size name
    put_state (record s { term = host.tty && host.has_attributes; username = username })
    locale ← access (c_str a.user_locale)
    _ ← elim locale [
      | [] ↦ pure []
      | c ∷ cs ↦ access (load_user_locale host.home (c ∷ cs) host.locale_lines)
    ]
    app_type ← access (load_app_type env host.app_types app_path)
    pure (name, get_app_type app_type)

  -- The program in the allow list, which is `app_path`.
  unfoldable pub admitted : Args → Pam (Unit {0}) → Bytes → Pam Ret
  unfolding emit
  admitted a loop app_path = do
    who ← identify app_path a
    calls ← emit Call.open_system
    if env.fails calls then finish env else do
      s ← get_state
      put_state (record s { bus = true })
      with_bus env who.0 who.1 app_path a.timeout loop

  -- The debug flag, by which only the logging goes, is left out.
  unfoldable pub pam_sm_authenticate : List Bytes → Pam (Unit {0}) → Pam Ret
  unfolding emit
  pam_sm_authenticate argv loop = do
    a ← access (parse_args argv no_args)
    _ ← emit Call.set_data
    program ← gate host a
    elim program [ none ↦ pure Ret.ignore | some app_path ↦ admitted a loop app_path ]
