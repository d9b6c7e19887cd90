-- ===== src/Examples/Tokens.antt =====
-- The token thread of misc/pam-module/auth/pam.c at concrete answers.
use lingmo_authenticate.Common.{◌≡◌, refl, some, ◌∷◌, [], pos, codes, arith}
use lingmo_authenticate.Pam.Codes.{Ret, Style, raw}
use lingmo_authenticate.Pam.State.{Call, UserData, emit}
use lingmo_authenticate.Pam.Loop.{set_res}
use lingmo_authenticate.Pam.Request.{
  answered, split_data, ask, send_get_result, set_waiting, dbus_method_get_result,
  call_get_result_cb, after_wait, run_request_pw,
}
use lingmo_authenticate.Pam.Request.Result.{run_request_pw-success, IsGranted}
use lingmo_authenticate.Examples.Session.{quiet_env, user}

abbrev pub granted : UserData
granted = record user {
  res = Ret.success;
  auth_tok = some (codes "pw");
  get_result_val = pos 0;
  calls =
      Call.set_authtok (codes "pw")
      ∷ Call.get_result (codes "/s")
      ∷ Call.send_msg (raw []) Style.prompt_echo_off
      ∷ user.calls;
}

pub grants :
    run_request_pw quiet_env (answered (codes "/s;pw")) (some (pos 0)) user ≡ some (tt, granted)
unfolding run_request_pw ask emit split_data dbus_method_get_result send_get_result set_waiting
    call_get_result_cb after_wait set_res
grants = refl

run_request_pw-success_example :
    IsGranted quiet_env (answered (codes "/s;pw")) (some (pos 0)) user granted
run_request_pw-success_example =
    run_request_pw-success quiet_env (answered (codes "/s;pw")) (some (pos 0)) user granted grants
      refl (λ e. ground arith) refl
