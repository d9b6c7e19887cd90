-- ===== src/Examples/Protocols.antt =====
-- Sessions of the two modes of the PAM module (misc/pam-module/auth/mfa.c and sfa.c).
use lingmo_authenticate.Common.{
  ◌≡◌, refl, pos, minus_one, true, false, none, some, List, [], ◌∷◌, codes, bit, int_sub, arith,
  ◌⊎◌, ℤ,
}
use lingmo_authenticate.Pam.Codes.{Ret, code_of_int}
use lingmo_authenticate.Pam.State.{
  AuthSession, Pubkey, UserData, emit, copy_into, send, set_need_cancel,
}
use lingmo_authenticate.Pam.Types.{type_to_index, first_bit}
use lingmo_authenticate.Pam.Limits.{
  get_limits_info, store_limits, store_limit, limit_of_json, set_limit, dbus_method_get_limits,
}
use lingmo_authenticate.Pam.Dbus.{dbus_method_start, dbus_method_end, listen_dbus_signal}
use lingmo_authenticate.Pam.Sfa.{
  sfa_signal_deal, sfa_deal, sfa_record, record_failure, sfa_report, report_failure, fail_type,
  any_password, failure_text, chances_text,
}
use lingmo_authenticate.Pam.Mfa.{
  mfa_start_verify, ordered_type, mfa_signal_deal, mfa_deal, mfa_success, mfa_next, find_current,
}
use lingmo_authenticate.Pam.Loop.{
  BusEvent, status, key_reply, bus_loop, on_event, bus_signal_cb, handle_signal, deal, give_token,
  is_pending, is_success, set_res,
}
use lingmo_authenticate.Pam.MfaRun.{starts}
use lingmo_authenticate.Pam.Entry.{start_verify, start_loop}
use lingmo_authenticate.Pam.Protocol.{event, session, method, started, mfa_verdict, sfa_verdict}
use lingmo_authenticate.Pam.Protocol.Run.{Reaches}
use lingmo_authenticate.Pam.Protocol.Mfa.{IsAt, mfa_loop-Reaches}
use lingmo_authenticate.Pam.Protocol.Order.{InOrder, start_loop-InOrder}
use lingmo_authenticate.Pam.Protocol.Failed.{HasFailed, IsReport, sfa_report-IsReport}
use lingmo_authenticate.Pam.Limits.Sound.{WellFormed, no_limits-IsSound}
use lingmo_authenticate.Pam.Protocol.Total.{AllTame}
use lingmo_authenticate.Pam.Protocol.Exact.{Grants}
use lingmo_authenticate.Pam.Protocol.SfaExact.{sfa_loop-exact}
use lingmo_authenticate.Pam.Protocol.MfaExact.{mfa_loop-exact}
use lingmo_authenticate.Pam.Protocol.SfaTotal.{SfaTame, sfa_loop-total}
use lingmo_authenticate.Pam.Protocol.MfaTotal.{MfaTame, mfa_loop-total}
use lingmo_authenticate.Pam.Protocol.Sfa.{sfa_loop-Reaches}
use lingmo_authenticate.Examples.Session.{
  quiet_env, user, two_factors, two_factors-IsOrdered, distinct, two_run, two_successes,
  password_factor,
}

user-IsAt : IsAt two_factors 0 user
unfolding started method ordered_type
user-IsAt = record { open_session = refl; less = omega arith; here = refl; calls = refl }

mfa_loop-Reaches_example :
    Reaches (mfa_verdict two_factors) (IsAt two_factors) 0 two_successes two_run.0
mfa_loop-Reaches_example =
    mfa_loop-Reaches quiet_env two_factors two_factors-IsOrdered distinct refl two_successes 0 user
      two_run.0 user-IsAt refl two_run.1

-- Before a method is started.
abbrev unstarted : UserData
unstarted = record user { calls = [] }

started_run :
    (t : UserData) × (start_loop quiet_env two_factors minus_one
        (bus_loop quiet_env two_successes)
        unstarted
      ≡ some (tt, t))
unfolding start_loop start_verify listen_dbus_signal mfa_start_verify ordered_type is_success
    dbus_method_start dbus_method_end emit bus_loop on_event bus_signal_cb handle_signal deal
    give_token is_pending set_res copy_into send set_need_cancel mfa_signal_deal mfa_deal
    mfa_success mfa_next find_current
started_run = (_, refl)

start_loop-InOrder_example :
    (starts started_run.0.calls ≡ []) ⊎ InOrder two_factors two_successes started_run.0
start_loop-InOrder_example =
    start_loop-InOrder quiet_env two_factors refl two_factors-IsOrdered distinct two_successes
      minus_one unstarted started_run.0 refl refl refl started_run.1

-- The key is there, and its exchange has not begun.
abbrev pub no_key : Pubkey
no_key = record { alg_type = pos 0; flags = none; pubkey = none; rsa = none }

abbrev pub keyed : UserData → UserData
keyed s = record s { key = some no_key }

keyed-IsAt : IsAt two_factors 0 (keyed user)
unfolding started method ordered_type
keyed-IsAt = record { open_session = refl; less = omega arith; here = refl; calls = refl }

-- The service gives its public key.
abbrev pub key_given : BusEvent
key_given = key_reply (record {
  error = false;
  is_return = true;
  alg_type = some (pos 0);
  flags = some (pos 0 ∷ []);
  pubkey = some (codes "-----BEGIN PUBLIC KEY-----");
})

abbrev one_of_all : AuthSession
one_of_all = record {
  is_mfa = false;
  factor_size = 1;
  factor_order = 0 ∷ [];
  factors = password_factor ∷ [];
}

abbrev single : UserData
single = record user { auth_ctrl = some one_of_all }

single-HasFailed : HasFailed one_of_all [] single
single-HasFailed = record {
  open_session = refl;
  room = refl;
  count = refl;
  few = omega arith;
  these = refl;
}

keyed-HasFailed : HasFailed one_of_all [] (keyed single)
keyed-HasFailed = record {
  open_session = refl;
  room = refl;
  count = refl;
  few = omega arith;
  these = refl;
}

abbrev failure_of : ℤ → BusEvent
failure_of a =
    status (record { sender = codes "/s"; readable = true; auth_type = a; code = pos 1; msg = [] })

-- The fingerprint fails, and then all.
abbrev failures : List BusEvent
failures = failure_of (pos 2) ∷ failure_of minus_one ∷ []

failed_run : (t : UserData) × (bus_loop quiet_env failures single ≡ some (tt, t))
unfolding bus_loop on_event bus_signal_cb handle_signal deal give_token is_pending set_res
    is_success copy_into emit send set_need_cancel type_to_index first_bit bit get_limits_info
    store_limits store_limit limit_of_json set_limit dbus_method_get_limits sfa_signal_deal sfa_deal
    sfa_record record_failure sfa_report report_failure fail_type any_password failure_text
    chances_text int_sub
failed_run = (_, refl)

sfa_loop-Reaches_example : Reaches sfa_verdict (HasFailed one_of_all) [] failures failed_run.0
sfa_loop-Reaches_example =
    sfa_loop-Reaches quiet_env one_of_all refl failures [] single failed_run.0 single-HasFailed refl
      failed_run.1

report_run : (t : UserData) × (sfa_report quiet_env single ≡ some (Ret.auth_err, t))
unfolding copy_into emit send set_need_cancel type_to_index first_bit bit get_limits_info
    store_limits store_limit limit_of_json set_limit dbus_method_get_limits sfa_report
    report_failure fail_type any_password failure_text chances_text int_sub
report_run = (_, refl)

sfa_report-IsReport_example :
    (Ret.auth_err ≡ Ret.auth_err)
    × ((u : UserData) × (get_limits_info quiet_env (record single { need_cancel = false })
          ≡ some (tt, u))
        × HasFailed one_of_all [] u
        × IsReport quiet_env [] u report_run.0)
sfa_report-IsReport_example =
    sfa_report-IsReport quiet_env one_of_all [] single report_run.0 Ret.auth_err single-HasFailed
      report_run.1

quiet_env-WellFormed : WellFormed quiet_env
unfolding type_to_index first_bit bit
quiet_env-WellFormed = record {
  fits = λ name cs. omega arith;
  flag = λ parsed k e q. (1, ground (arith, (e.2)));
  time = λ parsed k e q. (codes "2024-01-01T00:00:00Z", refl, omega arith);
  counts = λ parsed k e q.
      ((2, ground (arith, (e.2)), omega arith), (2, ground (arith, (e.2)), omega arith));
}

failures-AllTame :
    AllTame sfa_verdict
      (λ f signal. SfaTame quiet_env f (code_of_int signal.code) signal.auth_type signal.msg)
      []
      (key_given ∷ failures)
unfolding event sfa_verdict code_of_int type_to_index first_bit bit
failures-AllTame = (
  tt,
  (
    (omega arith, λ r. (λ ne. omega arith, λ e. absurd (ground (arith, e)))),
    ((omega arith, λ r. (λ ne. omega arith, λ e. (1, refl))), tt),
  ),
)

sfa_loop-total_example :
    (t : UserData) × (bus_loop quiet_env (key_given ∷ failures) (keyed single) ≡ some (tt, t))
    × Reaches sfa_verdict (HasFailed one_of_all) [] (key_given ∷ failures) t
sfa_loop-total_example =
    sfa_loop-total quiet_env quiet_env-WellFormed one_of_all refl (key_given ∷ failures) []
      (keyed single) keyed-HasFailed no_limits-IsSound (no_key, refl) refl failures-AllTame

two_successes-AllTame :
    AllTame
      (mfa_verdict two_factors)
      (λ j signal.
        MfaTame quiet_env two_factors j (code_of_int signal.code) signal.auth_type signal.msg)
      0
      (key_given ∷ two_successes)
unfolding event mfa_verdict code_of_int method ordered_type
two_successes-AllTame =
    (tt, ((omega arith, λ r. tt), ((omega arith, λ r. tt), ((omega arith, λ r. tt), tt))))

mfa_loop-total_example :
    (t : UserData) × (bus_loop quiet_env (key_given ∷ two_successes) (keyed user) ≡ some (tt, t))
    × Reaches (mfa_verdict two_factors) (IsAt two_factors) 0 (key_given ∷ two_successes) t
mfa_loop-total_example =
    mfa_loop-total quiet_env two_factors two_factors-IsOrdered distinct refl
      (key_given ∷ two_successes) 0 (keyed user) keyed-IsAt (no_key, refl) refl
      two_successes-AllTame

quiet_env-Grants : Grants quiet_env
quiet_env-Grants = record { takes = λ cs. refl; replies = λ cs. refl; ended = λ cs. refl }

sfa_loop-exact_example :
    (t : UserData) × (bus_loop quiet_env (key_given ∷ failures) (keyed single) ≡ some (tt, t))
    × (HasFailed one_of_all (session sfa_verdict [] (key_given ∷ failures)).0 t
        × (t.res ≡ (session sfa_verdict [] (key_given ∷ failures)).1))
sfa_loop-exact_example =
    sfa_loop-exact quiet_env quiet_env-Grants quiet_env-WellFormed one_of_all refl
      (key_given ∷ failures) [] (keyed single) keyed-HasFailed no_limits-IsSound (no_key, refl) refl
      failures-AllTame

mfa_loop-exact_example :
    (t : UserData) × (bus_loop quiet_env (key_given ∷ two_successes) (keyed user) ≡ some (tt, t))
    × (IsAt two_factors (session (mfa_verdict two_factors) 0 (key_given ∷ two_successes)).0 t
        × (t.res ≡ (session (mfa_verdict two_factors) 0 (key_given ∷ two_successes)).1))
mfa_loop-exact_example =
    mfa_loop-exact quiet_env two_factors two_factors-IsOrdered distinct quiet_env-Grants refl
      (key_given ∷ two_successes) 0 (keyed user) keyed-IsAt (no_key, refl) refl
      two_successes-AllTame
