-- ===== src/Examples/Races.antt =====
-- Races of the D-Bus loop and the token thread at concrete events.
use lingmo_authenticate.Common.{
  memcpy, ◌≡◌, ◌⊎◌, refl, pos, minus_one, true, none, some, List, [], ◌∷◌, codes, bit,
}
use lingmo_authenticate.Pam.Codes.{Ret, code_of_int}
use lingmo_authenticate.Pam.State.{UserData, emit, copy_into, send, set_need_cancel}
use lingmo_authenticate.Pam.Loop.{
  BusEvent, status, on_event, bus_signal_cb, handle_signal, deal, give_token, is_pending,
  is_success, set_res,
}
use lingmo_authenticate.Pam.Mfa.{
  mfa_signal_deal, mfa_deal, mfa_prompt, mfa_prompt_text, mfa_start_verify, ordered_type,
  mfa_success,
}
use lingmo_authenticate.Pam.Types.{is_input_type, type_to_index, first_bit, get_app_type}
use lingmo_authenticate.Pam.Token.{thread_busy, create_thread}
use lingmo_authenticate.Pam.Request.{
  answered, unavailable, hand_over, dbus_method_set_token, split_data, ask, send_get_result,
  set_waiting, after_wait, call_get_result_cb,
}
use lingmo_authenticate.Pam.Keys.{
  call_encrypt_key_cb, encrypt_symmetric_key, rsa_encrypt_data, gen_symmetric_key, gen_rsa_pubkey,
  aes_cbc_encrypt, dbus_method_encrypt_key,
}
use lingmo_authenticate.Encrypt.Rsa.{has_header, rand_num}
use lingmo_authenticate.Common.Decimal.{decimal, digits}
use lingmo_authenticate.Pam.Dbus.{
  dbus_method_set_symmetric_key, dbus_method_pre_one_key_login, dbus_method_start, dbus_method_end,
  listen_dbus_signal,
}
use lingmo_authenticate.Pam.Threads.{
  Pc, idle, sent, waiting, System, creates, is_create, Steps, here, later, wait,
}
use lingmo_authenticate.Pam.Threads.Schedule.{
  Turn, round, replied, thread, events_of, loop_turn, reply_turn, thread_turn, turn, run_turns,
  run_turns-Steps, race, pam_sm_authenticate-granted,
}
use lingmo_authenticate.Pam.Threads.Race.{HasGrant, race-success}
use lingmo_authenticate.Pam.Threads.Lost.{lost_reply}
use lingmo_authenticate.Pam.Limit.{get_limit_prompt, limit_prompt}
use lingmo_authenticate.Pam.Limits.{
  get_limits_info, store_limits, store_limit, limit_of_json, set_limit, dbus_method_get_limits,
}
use lingmo_authenticate.Pam.Factors.{
  resolve_authctrl_factors, sort_loop, sort_step, find_max, swap, range,
}
use lingmo_authenticate.Pam.Clean.{clean_auth_data, clean_bus, clean_thread, clean_term}
use lingmo_authenticate.Pam.Args.{
  parse_args, parse_arg, check_debug, c_str, strchr, strncpy, readlink, chomp, in_allow_list,
}
use lingmo_authenticate.Pam.Files.{load_app_type}
use lingmo_authenticate.Pam.Entry.{
  new_user_data, gate, identify, need_token, start_verify, start_loop, begin_session, check_lock,
  run_session, finish, with_bus, admitted, pam_sm_authenticate,
}
use lingmo_authenticate.Pam.Open.{open_session, property_fails, get_authctl_property, read_factors}
use lingmo_authenticate.Encrypt.Aes.{padded}
use lingmo_authenticate.Pam.MfaRun.{success_of}
use lingmo_authenticate.Examples.Runs.{greeter}
use lingmo_authenticate.Examples.Session.{quiet_env, user}
use lingmo_authenticate.Examples.Protocols.{keyed, key_given}

abbrev at : UserData → Pc → System
at s p = record { ud = s; pc = p; replies = 0 }

abbrev pub prompt : BusEvent
prompt = status (record {
  sender = codes "/s";
  readable = true;
  auth_type = pos 2;
  code = pos 7;
  msg = codes "Token";
})

-- The public key comes, the prompt creates the thread, the application answers with a path and a
-- token, and GetResult is called and succeeds.
abbrev token_turns : List Turn
token_turns =
    round key_given
    ∷ round prompt
    ∷ thread (answered (codes "/s;pw"))
    ∷ thread unavailable
    ∷ thread unavailable
    ∷ replied (some (pos 0))
    ∷ thread unavailable
    ∷ []

raced :
    (y : System) × (run_turns quiet_env token_turns (at (keyed user) idle) ≡ some y)
    × (y.ud.res ≡ Ret.success)
unfolding run_turns turn loop_turn reply_turn thread_turn on_event bus_signal_cb handle_signal deal
    give_token is_pending is_success set_res mfa_signal_deal mfa_deal mfa_prompt mfa_prompt_text
    is_input_type thread_busy create_thread split_data ask send_get_result set_waiting after_wait
    call_get_result_cb creates is_create emit copy_into code_of_int call_encrypt_key_cb
    encrypt_symmetric_key rsa_encrypt_data gen_symmetric_key gen_rsa_pubkey has_header
    dbus_method_set_symmetric_key decimal digits rand_num
raced = (_, refl, refl)

race-success_example : HasGrant (events_of token_turns)
race-success_example =
    race-success quiet_env (keyed user) (events_of token_turns) raced.0 refl
      (run_turns-Steps quiet_env (at (keyed user) idle) token_turns [] (at (keyed user) idle)
        raced.0 here raced.1)
      raced.2

abbrev stuck : UserData
stuck = record user { waiting_result = true }

one_wait :
    Steps quiet_env
      (at user (sent (codes "/s;pw") none))
      []
      (at stuck (waiting (codes "/s;pw") none))
unfolding set_waiting
one_wait = later here (wait stuck (codes "/s;pw") none refl refl refl refl)

lost_reply_example :
    (waiting (codes "/s;pw") none ≡ sent (codes "/s;pw") none)
    ⊎ ((waiting (codes "/s;pw") none ≡ waiting (codes "/s;pw") none) × (true ≡ true))
lost_reply_example =
    lost_reply quiet_env (codes "/s;pw") none user [] (at stuck (waiting (codes "/s;pw") none))
      one_wait

-- A whole run from new data: the public key comes, the prompt creates the thread, the answer is
-- encrypted under the new key and handed over, and the service reports the success.
abbrev password_turns : List Turn
password_turns =
    round key_given
    ∷ round prompt
    ∷ thread (answered (codes "pw"))
    ∷ thread unavailable
    ∷ round (success_of (codes "/s") [] minus_one)
    ∷ []

password_run :
    (t : UserData) × (pam_sm_authenticate quiet_env greeter
        (codes "debug" ∷ [])
        (race quiet_env password_turns)
        new_user_data
      ≡ some (Ret.success, t))
unfolding pam_sm_authenticate gate identify open_session property_fails get_authctl_property
    read_factors need_token start_verify start_loop begin_session check_lock run_session finish
    with_bus admitted emit copy_into send set_need_cancel type_to_index first_bit bit get_app_type
    get_limit_prompt limit_prompt get_limits_info store_limits store_limit limit_of_json set_limit
    dbus_method_get_limits resolve_authctrl_factors sort_loop sort_step find_max swap range
    dbus_method_pre_one_key_login dbus_method_start dbus_method_end listen_dbus_signal
    dbus_method_encrypt_key mfa_start_verify ordered_type mfa_signal_deal mfa_deal mfa_success
    on_event bus_signal_cb handle_signal deal give_token is_pending is_success set_res
    clean_auth_data clean_bus clean_thread clean_term parse_args parse_arg check_debug c_str strchr
    strncpy readlink chomp in_allow_list load_app_type run_turns turn loop_turn reply_turn
    thread_turn race mfa_prompt mfa_prompt_text is_input_type thread_busy create_thread split_data
    ask hand_over dbus_method_set_token creates is_create code_of_int call_encrypt_key_cb
    encrypt_symmetric_key rsa_encrypt_data gen_symmetric_key gen_rsa_pubkey has_header
    dbus_method_set_symmetric_key decimal digits rand_num aes_cbc_encrypt padded memcpy
password_run = (_, refl)

pam_sm_authenticate-granted_example : HasGrant (events_of password_turns)
pam_sm_authenticate-granted_example =
    pam_sm_authenticate-granted quiet_env greeter (codes "debug" ∷ []) password_turns password_run.0
      password_run.1
