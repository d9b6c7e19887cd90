-- ===== src/Pam/Entry/Login.antt =====
-- The ways through `pam_sm_authenticate` for a program of the allow list.
use lingmo_authenticate.Common.{
  ℕ, ◌≡◌, refl, ℤ, pos, true, some, ◌∷◌, Bytes, get_elem?, bit, arith, Option-cases, inl, inr,
}
use lingmo_authenticate.Pam.Codes.{Ret, Style, Text}
use lingmo_authenticate.Pam.Types.{AppVal, type_to_index, first_bit}
use lingmo_authenticate.Pam.State.{Env, Call, Limit, UserData, Pam, emit, send, set_need_cancel}
use lingmo_authenticate.Pam.Dbus.{dbus_method_pre_one_key_login}
use lingmo_authenticate.Pam.Limit.{get_limit_prompt, limit_prompt}
use lingmo_authenticate.Pam.Limits.{get_limits_info}
use lingmo_authenticate.Pam.Loop.{is_success, set_res}
use lingmo_authenticate.Pam.Clean.Twice.{clean_auth_data-IsClean}
use lingmo_authenticate.Pam.Args.{Args}
use lingmo_authenticate.Pam.Entry.Keeps.{identify-res}
use lingmo_authenticate.Pam.Entry.{
  Host, identify, refuse, check_lock, run_session, finish, admitted,
}
use lingmo_authenticate.Pam.Open.{open_session}

finish-some : (env : Env) (s : UserData) → (t : UserData) × (finish env s ≡ some (s.res, t))
unfolding finish emit
finish-some env s =
    let (t, e, _, _, _) =
      clean_auth_data-IsClean env
        (record s { calls = Call.set_result (is_success s.res) ∷ s.calls }) in
    (t, ground (arith, e))

-- When the call of PreOneKeyLogin fails, no session is opened by Authenticate, as the comment of the
-- code has it: the buffer still holds the path of the program, which is taken for the session's.
pub open_session-failed_key :
    (env : Env) (username : Bytes) (app : AppVal) (c : ℕ) (cs : Bytes) (s : UserData)
    → env.fails (Call.pre_one_key_login (pos 3) ∷ s.calls) ≡ true
    → open_session env username app (c ∷ cs) s
      ≡ some (some (c ∷ cs), record s { calls = Call.pre_one_key_login (pos 3) ∷ s.calls })
unfolding open_session dbus_method_pre_one_key_login emit
open_session-failed_key env username app c cs s h = ground (arith, h)

-- When the connection to the bus cannot be opened, the result is -1, no code of PAM.
pub admitted-no_bus :
    (env : Env) (host : Host) (a : Args) (loop : Pam (Unit {0})) (app_path : Bytes) (s u : UserData)
    (who : Bytes × AppVal)
    → identify env host app_path a s ≡ some (who, u)
    → s.res ≡ Ret.pending
    → env.fails (Call.open_system ∷ u.calls) ≡ true
    → (t : UserData) × (admitted env host a loop app_path s ≡ some (Ret.pending, t))
unfolding admitted emit
admitted-no_bus env host a loop app_path s u who h p f =
    let (t, e) = finish-some env (record u { calls = Call.open_system ∷ u.calls }) in
    let (kept, _) = identify-res env host app_path a s u who h in
    (t, ground (arith, h, f, e, kept, p))

password_index : type_to_index (pos 1) ≡ some 0
unfolding type_to_index first_bit bit
password_index = refl

locked_prompt :
    (env : Env) (u : UserData) (limit : Limit)
    → limit.locked ≡ true
    → (text : Text) × (get_limit_prompt env u.calls limit ≡ (Ret.maxtries, some text))
unfolding get_limit_prompt limit_prompt
locked_prompt env u limit h =
    elim (Option-cases (limit_prompt (env.seconds_until limit.unlock_time u.calls) limit).1) [
      | inl e ↦ absurd (ground (arith, h, e))
      | inr (text, e) ↦ (text, ground (arith, h, e))
    ]

check_lock-locked :
    (env : Env) (timeout : ℤ) (loop : Pam (Unit {0})) (u : UserData) (limit : Limit)
    → get_elem? u.limits 0 ≡ some limit
    → limit.locked ≡ true
    → (text : Text) × (check_lock env timeout loop u
        ≡ some (
          tt,
          record u { res = Ret.maxtries; calls = Call.send_msg text Style.error_msg ∷ u.calls },
        ))
unfolding check_lock refuse send set_res emit is_success
check_lock-locked env timeout loop u limit e locked =
    let (out, r) = locked_prompt env u limit locked in (out, ground (arith, e, password_index, r))

-- A password that the service has locked ends the run with PAM_MAXTRIES in both modes: nothing is
-- started and the loop is not entered.
pub run_session-locked :
    (env : Env) (timeout : ℤ) (loop : Pam (Unit {0})) (s u : UserData) (limit : Limit)
    → get_limits_info env (record s { need_cancel = true }) ≡ some (tt, u)
    → get_elem? u.limits 0 ≡ some limit
    → limit.locked ≡ true
    → (text : Text) × (run_session env timeout loop s
        ≡ some (
          tt,
          record u { res = Ret.maxtries; calls = Call.send_msg text Style.error_msg ∷ u.calls },
        ))
unfolding run_session set_need_cancel
run_session-locked env timeout loop s u limit h e locked =
    let (out, r) = check_lock-locked env timeout loop u limit e locked in
    (out, ground (arith, h, r))
