-- ===== src/Pam/Sfa.antt =====
-- misc/pam-module/auth/sfa.c: the single-factor mode, where all methods run at once.
use lingmo_authenticate.Common.{
  ℕ, zero, suc, ◌+◌, ◌++◌, ◌&&◌, not, ℤ, pos, minus_one, ◌==ℤ◌, ltb_ℤ, int_sub, Bool, true, false,
  Option, none, some, List, Bytes, codes, ◌>>=◌, ◌>>◌, pure, access, get_state, put_state, length,
  ltb, leb, get_elem?, set, if◌then◌else◌,
}
use lingmo_authenticate.Pam.Codes.{
  Ret, AuthStutaCode, code_of_int, at_password, support_at_type, Style, Text, tr, tr_int, tr_text,
  tr_text_int, line,
}
use lingmo_authenticate.Pam.Types.{type_to_index, type_to_tr, is_input_type}
use lingmo_authenticate.Pam.State.{Env, Limit, Pam, set_need_cancel, send}
use lingmo_authenticate.Pam.Limit.{get_limit_prompt}
use lingmo_authenticate.Pam.Limits.{get_limits_info}
use lingmo_authenticate.Pam.Verify.{resolve_verify_msg}
use lingmo_authenticate.Pam.Dbus.{dbus_method_start}
use lingmo_authenticate.Pam.Token.{thread_busy, create_thread}

-- `failed_indexs[failed_num] = authType; failed_num++`, where a write past the array is undefined.
unfoldable pub record_failure : ℤ → Pam (Unit {0})
record_failure auth_type s =
    if ltb s.failed_num (length s.failed_indexs)
    then some (
      tt,
      record s {
        failed_indexs = set s.failed_indexs s.failed_num auth_type;
        failed_num = s.failed_num + 1;
      },
    )
    else none

-- The loop that looks for the password among the failures, with `n` rounds left.
unfoldable pub any_password : ℕ → ℕ → List ℤ → Option Bool
any_password zero i failed = some false
any_password (suc n) i failed = elim (get_elem? failed i) [
  | none ↦ none
  | some auth_type ↦
      let rest = any_password n (i + 1) failed in
      if auth_type ==ℤ at_password then some true else rest
]

-- `failType`: the password if it is among the failures, else the first of them, else the password.
unfoldable pub fail_type : ℕ → List ℤ → Option ℤ
unfolding any_password
fail_type failed_num failed =
    elim (if ltb 0 failed_num then get_elem? failed 0 else some at_password) [
      | none ↦ none
      | some first ↦ elim (any_password failed_num 0 failed) [
        | none ↦ none
        | some found ↦ some (if found then at_password else first)
      ]
    ]

-- On a terminal, a method without input begins a new line.
unfoldable pub own_line : Bool → ℤ → Text → Text
unfolding is_input_type
own_line term auth_type text = if not (is_input_type auth_type) && term then line text else text

unfoldable pub locked_text : Bool → ℤ → Option Text → Text
unfolding own_line
locked_text term auth_type buff =
    if not (auth_type ==ℤ at_password)
    then own_line term auth_type (tr_text "%s locked, use password please" (type_to_tr auth_type))
    else elim buff [
      | none ↦ tr "Password locked, %s"
      | some prompt ↦ tr_text "Password locked, %s" prompt
    ]

unfoldable pub chances_text : Bool → ℤ → ℤ → Text
unfolding own_line
chances_text term auth_type times =
    if ltb_ℤ (pos 1) times
    then (if auth_type ==ℤ at_password
        then tr_int "Password verification failed, %d chances left" times
        else own_line term auth_type
            (tr_text_int "%s verification failed, %d chances left" (type_to_tr auth_type) times))
    else (if auth_type ==ℤ at_password
        then tr "Password verification failed, only one chance left"
        else own_line term auth_type
            (tr_text "%s verification failed, only one chance left" (type_to_tr auth_type)))

module _ (env : Env) where
  unfoldable pub sfa_start_verify : ℤ → Pam Ret
  sfa_start_verify timeout = do
    s ← get_state
    put_state (record s { cur_type = minus_one })
    failed ← dbus_method_start env s.path minus_one timeout
    pure (if failed then Ret.abort else Ret.success)

  -- The message on a failure, given the method that failed and its limit.
  unfoldable pub failure_text : ℤ → Limit → Pam Text
  unfolding locked_text chances_text
  failure_text auth_type limit = do
    s ← get_state
    if limit.locked
        then pure (locked_text s.term auth_type (get_limit_prompt env s.calls limit).1)
        else do
          times ← access (int_sub limit.max_tries limit.num_failures)
          pure (chances_text s.term auth_type times)

  -- The message on the failure of all methods, once the limits are read.
  unfoldable pub report_failure : Pam Ret
  unfolding send
  report_failure = do
    s ← get_state
    failed ← access (fail_type s.failed_num s.failed_indexs)
    type_index ← access (type_to_index failed)
    if leb support_at_type type_index then pure Ret.auth_err else do
      limit ← access (get_elem? s.limits type_index)
      text ← failure_text failed limit
      send text Style.error_msg
      pure Ret.auth_err

  -- The failure of the whole authentication.
  unfoldable pub sfa_report : Pam Ret
  unfolding set_need_cancel
  sfa_report = do set_need_cancel false; get_limits_info env; report_failure

  unfoldable pub sfa_verify : Bytes → Pam Ret
  unfolding send
  sfa_verify signal_msg = do
    message ← resolve_verify_msg env signal_msg
    elim message [
      | none ↦ pure Ret.pending
      | some (style, text) ↦ do send text style; pure Ret.pending
    ]

  unfoldable pub sfa_prompt : Bytes → Pam Ret
  sfa_prompt signal_msg = do
    busy ← thread_busy env
    if busy then pure Ret.abort else do
      s ← get_state
      create_thread env (if s.term then signal_msg ++ codes ":" else signal_msg)

  unfoldable pub sfa_success : Pam Ret
  unfolding send set_need_cancel
  sfa_success = do
    set_need_cancel false
    send (tr "Verification successful") Style.text_info
    pure Ret.success

  unfoldable pub sfa_stop : Pam Ret
  unfolding set_need_cancel
  sfa_stop = do set_need_cancel false; pure Ret.pending

  unfoldable pub sfa_record : ℤ → Pam Ret
  unfolding record_failure
  sfa_record auth_type = do record_failure auth_type; pure Ret.pending

  unfoldable pub sfa_deal : Option AuthStutaCode → ℤ → Bytes → Pam Ret
  unfolding sfa_success sfa_stop sfa_record
  sfa_deal (some AuthStutaCode.success) auth_type signal_msg =
      if auth_type ==ℤ minus_one then sfa_success else pure Ret.pending
  sfa_deal (some AuthStutaCode.failure) auth_type signal_msg =
      if not (auth_type ==ℤ minus_one) then sfa_record auth_type else sfa_report
  sfa_deal (some AuthStutaCode.cancel) auth_type signal_msg = sfa_stop
  sfa_deal (some AuthStutaCode.timeout) auth_type signal_msg = sfa_stop
  sfa_deal (some AuthStutaCode.error) auth_type signal_msg = sfa_stop
  sfa_deal (some AuthStutaCode.verify) auth_type signal_msg = sfa_verify signal_msg
  sfa_deal (some AuthStutaCode.prompt) auth_type signal_msg =
      if auth_type ==ℤ minus_one then sfa_prompt signal_msg else pure Ret.pending
  sfa_deal _ auth_type signal_msg = pure Ret.pending

  unfoldable pub sfa_signal_deal : ℤ → ℤ → Bytes → Pam Ret
  unfolding sfa_deal code_of_int
  sfa_signal_deal signal_code auth_type signal_msg =
      sfa_deal (code_of_int signal_code) auth_type signal_msg
