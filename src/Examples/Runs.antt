-- ===== src/Examples/Runs.antt =====
-- Whole runs of `pam_sm_authenticate` (misc/pam-module/auth/pam.c).
use lingmo_authenticate.Common.{
  ◌≡◌, refl, minus_one, false, none, some, List, [], ◌∷◌, ◌++◌, codes, bit,
}
use lingmo_authenticate.Pam.Codes.{Ret}
use lingmo_authenticate.Pam.State.{UserData, emit, copy_into, send, set_need_cancel}
use lingmo_authenticate.Pam.Types.{type_to_index, first_bit, get_app_type}
use lingmo_authenticate.Pam.Limit.{get_limit_prompt, limit_prompt}
use lingmo_authenticate.Pam.Limits.{
  get_limits_info, store_limits, store_limit, limit_of_json, set_limit, dbus_method_get_limits,
}
use lingmo_authenticate.Pam.Factors.{
  resolve_authctrl_factors, sort_loop, sort_step, find_max, swap, range,
}
use lingmo_authenticate.Pam.Dbus.{
  dbus_method_pre_one_key_login, dbus_method_start, dbus_method_end, listen_dbus_signal,
}
use lingmo_authenticate.Pam.Keys.{dbus_method_encrypt_key}
use lingmo_authenticate.Pam.Mfa.{
  mfa_start_verify, ordered_type, mfa_signal_deal, mfa_deal, mfa_success,
}
use lingmo_authenticate.Pam.Loop.{
  BusEvent, bus_loop, on_event, bus_signal_cb, handle_signal, deal, give_token, is_pending,
  is_success, set_res,
}
use lingmo_authenticate.Pam.Loop.Safety.{HasSuccess}
use lingmo_authenticate.Pam.MfaRun.{successes}
use lingmo_authenticate.Pam.Clean.{clean_auth_data, clean_bus, clean_thread, clean_term}
use lingmo_authenticate.Pam.Args.{
  parse_args, parse_arg, check_debug, c_str, strchr, strncpy, readlink, chomp, in_allow_list,
}
use lingmo_authenticate.Pam.Files.{load_app_type}
use lingmo_authenticate.Pam.Entry.{
  Host, new_user_data, gate, identify, need_token, start_verify, start_loop, begin_session,
  check_lock, run_session, finish, with_bus, admitted, pam_sm_authenticate,
}
use lingmo_authenticate.Pam.Open.{open_session, property_fails, get_authctl_property, read_factors}
use lingmo_authenticate.Pam.Entry.Success.{pam_sm_authenticate-success}
use lingmo_authenticate.Examples.Session.{quiet_env}

abbrev pub greeter : Host
greeter = record {
  exe = some (codes "/bin/g");
  allow_list = some (codes "/bin/x" ∷ (codes "/bin/g" ++ (10 ∷ [])) ∷ []);
  tty = false;
  has_attributes = false;
  user = some (codes "uos");
  app_types = none;
  home = some (codes "/home/uos");
  locale_lines = λ path. none;
}

abbrev one_success : List BusEvent
one_success = successes (codes "/s") [] (minus_one ∷ [])

greeted :
    (t : UserData) × (pam_sm_authenticate quiet_env greeter
        (codes "debug" ∷ [])
        (bus_loop quiet_env one_success)
        new_user_data
      ≡ some (Ret.success, t))
unfolding pam_sm_authenticate gate identify open_session property_fails get_authctl_property
    read_factors need_token start_verify start_loop begin_session check_lock run_session finish
    with_bus admitted emit copy_into send set_need_cancel type_to_index first_bit bit get_app_type
    get_limit_prompt limit_prompt get_limits_info store_limits store_limit limit_of_json set_limit
    dbus_method_get_limits resolve_authctrl_factors sort_loop sort_step find_max swap range
    dbus_method_pre_one_key_login dbus_method_start dbus_method_end listen_dbus_signal
    dbus_method_encrypt_key mfa_start_verify ordered_type mfa_signal_deal mfa_deal mfa_success
    bus_loop on_event bus_signal_cb handle_signal deal give_token is_pending is_success set_res
    clean_auth_data clean_bus clean_thread clean_term parse_args parse_arg check_debug c_str strchr
    strncpy readlink chomp in_allow_list load_app_type
greeted = (_, refl)

pam_sm_authenticate-success_example : HasSuccess one_success
pam_sm_authenticate-success_example =
    pam_sm_authenticate-success quiet_env greeter (codes "debug" ∷ []) one_success greeted.0
      greeted.1
