-- ===== src/Examples/Calls.antt =====
-- The session calls and the signals of lib/src/auth/auth.c at a concrete service.
use lingmo_authenticate.Common.{
  ◌≡◌, refl, pos, minus_one, true, false, none, some, [], ◌∷◌, Bytes, codes, arith,
}
use lingmo_authenticate.Encrypt.Aes.{done, aes_cbc_decrypt}
use lingmo_authenticate.Auth.Limits.{da_get_limits, filled, failed}
use lingmo_authenticate.Auth.Calls.{
  DaFactorInfo, Service, Client, Outcome, has_valid_authenticate_proxy, has_valid_session_proxy,
  da_pre_one_key_login, da_session_start, da_session_end, da_session_get_result,
  da_session_privileges_disable, da_session_set_quit_flag, da_session_set_token, set_token,
}
use lingmo_authenticate.Auth.Properties.{da_dbus_prop_get_gvariant}
use lingmo_authenticate.Auth.Calls.Contract.{IsContract, session_calls-IsContract}
use lingmo_authenticate.Auth.Calls.Token.{da_session_set_token_lem}
use lingmo_authenticate.Auth.Signals.{
  Callbacks, signal_limit_updated_handler, signal_limit_updated_handler-da_get_limits,
}
use lingmo_authenticate.Examples.Library.{plain, plain-IsCbc, secret, key16, service, proxy, limit}

abbrev password : DaFactorInfo
password = record { auth_type = pos 1; priority = pos 1; input_type = pos 1; required = true }

abbrev session_service : Service
session_service = record {
  fails = λ r. none;
  number = λ r. pos 3;
  truth = λ r. true;
  text = λ r. none;
  string = λ r. codes "text";
  factors = λ r. password ∷ [];
}

abbrev client : Client
client = record {
  authenticate_proxy = true;
  session_proxy = true;
  symmetric_key = some key16;
  username = some (codes "uos");
  sig_limit_update_cb = false;
}

session_calls-IsContract_example :
    IsContract true true
      (da_pre_one_key_login session_service (some client) (pos 1) true (pos 64) true)
    × IsContract true true
        (da_session_start session_service (some client) (pos 1) minus_one true true)
    × IsContract true true (da_session_end session_service (some client) (pos 1) true true)
    × IsContract true true (da_session_get_result session_service (some client) true true)
    × IsContract true true (da_session_privileges_disable session_service (some client) true)
    × IsContract true true (da_session_set_quit_flag session_service (some client) (pos 1) true)
unfolding has_valid_authenticate_proxy has_valid_session_proxy
session_calls-IsContract_example =
    session_calls-IsContract session_service (some client) true (pos 1) (pos 1) minus_one (pos 64)
      true

da_session_set_token_lem_example :
    (encrypted : Bytes) × (o : Outcome (Unit {0})) × (da_session_set_token session_service
        (some client)
        plain
        (pos 1)
        (some secret)
        true
      ≡ some o)
    × (o.sent ≡ set_token (pos 1) encrypted ∷ [])
    × (aes_cbc_decrypt plain encrypted key16 ≡ some (done secret))
da_session_set_token_lem_example =
    da_session_set_token_lem session_service client plain (pos 1) secret key16 true plain-IsCbc refl
      refl refl (omega arith)

valid_client : has_valid_session_proxy (some client) ≡ true
unfolding has_valid_session_proxy
valid_client = refl

told :
    da_dbus_prop_get_gvariant session_service "com.deepin.daemon.Authenticate.Session" "FactorsInfo"
    ≡ some (password ∷ [])
unfolding da_dbus_prop_get_gvariant
told = refl

abbrev connected : Callbacks
connected = record {
  log_callback = none;
  sig_limit_update_cb = some 7;
  limit_cb_userdata = some 8;
  sig_status_cb = none;
  signal_cb_userdata = none;
}

signal_limit_updated_handler-da_get_limits_example :
    (da_get_limits (service true false) proxy (some (codes "uos")) 0
        ≡ some (filled false (some (limit true) ∷ []), 1)
      → signal_limit_updated_handler
          (service true false)
          true
          connected
          (some (codes "uos"))
          (some (codes "uos"))
          0
        ≡ some
            ((pos 1, some (record { cb = 7; userdata = some 8; dli = some (limit true) ∷ [] })), 1))
    × (da_get_limits (service true false) proxy (some (codes "uos")) 0 ≡ some (failed, 1)
        → signal_limit_updated_handler
            (service true false)
            true
            connected
            (some (codes "uos"))
            (some (codes "uos"))
            0
          ≡ some ((minus_one, none), 1))
signal_limit_updated_handler-da_get_limits_example =
    signal_limit_updated_handler-da_get_limits (service true false) connected proxy (codes "uos") 7
      0 1 false (some (limit true) ∷ []) refl refl
