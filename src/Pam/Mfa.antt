-- ===== src/Pam/Mfa.antt =====
-- misc/pam-module/auth/mfa.c: the multi-factor mode, where the methods run one after the other.
use lingmo_authenticate.Common.{
  ℕ, zero, suc, ◌+◌, ◌-◌, ◌++◌, ◌||◌, ◌&&◌, not, ℤ, minus_one, ◌==ℤ◌, Bool, false, Option, none,
  some, Bytes, codes, ◌>>=◌, ◌>>◌, pure, access, get_state, put_state, length, ltb, ◌==◌, get_elem?,
  if◌then◌else◌,
}
use lingmo_authenticate.Pam.Codes.{
  Ret, AuthStutaCode, code_of_int, at_password, Style, tr, tr_text, raw,
}
use lingmo_authenticate.Pam.Types.{type_to_tr, is_input_type}
use lingmo_authenticate.Pam.State.{Env, AuthSession, Pam, set_need_cancel, send}
use lingmo_authenticate.Pam.Sfa.{own_line}
use lingmo_authenticate.Pam.Verify.{resolve_verify_msg}
use lingmo_authenticate.Pam.Dbus.{dbus_method_start, dbus_method_end}
use lingmo_authenticate.Pam.Token.{thread_busy, create_thread}

-- `factors[factorOrder[index]].authType`
unfoldable pub ordered_type : AuthSession → ℕ → Option ℤ
ordered_type ctrl index = elim (get_elem? ctrl.factor_order index) [
  | none ↦ none
  | some idx ↦ elim (get_elem? ctrl.factors idx) [
    | none ↦ none
    | some factor ↦ some factor.auth_type
  ]
]

-- The loop that looks for the current method, with `n` rounds left: the index where it stops.
unfoldable pub find_current : AuthSession → ℤ → ℕ → ℕ → Option ℕ
find_current ctrl cur_type zero idx = some idx
find_current ctrl cur_type (suc n) idx = elim (ordered_type ctrl idx) [
  | none ↦ none
  | some auth_type ↦
      let rest = find_current ctrl cur_type n (idx + 1) in
      if auth_type ==ℤ cur_type then some idx else rest
]

-- Whether a prompt ends in a colon: in ": ", in ":" or in the byte -102, the last of the wide
-- colon in UTF-8. A read before the start of the text is undefined.
unfoldable pub ends_in_colon : Bytes → Option Bool
ends_in_colon signal_msg =
    let n = length signal_msg in
    if ltb n 2 then none else elim (get_elem? signal_msg (n - 2)) [
      | none ↦ none
      | some before ↦ elim (get_elem? signal_msg (n - 1)) [
        | none ↦ none
        | some last ↦ some ((before == b':' && last == b' ') || last == b':' || last == 154)
      ]
    ]

-- The prompt that is written to `ud->prompt`.
unfoldable pub mfa_prompt_text : Bool → ℤ → Bytes → Option Bytes
unfolding is_input_type ends_in_colon
mfa_prompt_text term auth_type signal_msg =
    if term && is_input_type auth_type
    then elim (ends_in_colon signal_msg) [
      | none ↦ none
      | some colon ↦ some (if colon then signal_msg else signal_msg ++ codes ":")
    ]
    else some signal_msg

module _ (env : Env) where
  unfoldable pub mfa_start_verify : ℕ → ℤ → Pam Ret
  mfa_start_verify index timeout = do
    s ← get_state
    ctrl ← access s.auth_ctrl
    if ltb 0 ctrl.factor_size && ltb index ctrl.factor_size
        then (do
          auth_type ← access (ordered_type ctrl index)
          put_state (record s { cur_type = auth_type })
          failed ← dbus_method_start env s.path auth_type timeout
          pure (if failed then Ret.abort else Ret.success))
        else pure Ret.abort

  -- After the success of the current method: the next one of the order, if there is one.
  unfoldable pub mfa_next : ℤ → Pam Ret
  mfa_next auth_type = do
    s ← get_state
    ctrl ← access s.auth_ctrl
    idx ← access (find_current ctrl s.cur_type ctrl.factor_size 0)
    if idx == ctrl.factor_size
        then pure Ret.abort
        else if idx + 1 == ctrl.factor_size
        then pure Ret.pending
        else do
          _ ← dbus_method_end env s.path auth_type
          r ← mfa_start_verify (idx + 1) minus_one
          pure (elim r [ Ret.success ↦ Ret.pending | other ↦ other ])

  unfoldable pub mfa_success : ℤ → Pam Ret
  unfolding send set_need_cancel
  mfa_success auth_type =
      if not (auth_type ==ℤ minus_one)
      then (do
        send (tr "Verification successful") Style.text_info
        s ← get_state
        if auth_type ==ℤ s.cur_type then mfa_next auth_type else pure Ret.pending)
      else (do set_need_cancel false; pure Ret.success)

  unfoldable pub mfa_failure : ℤ → Pam Ret
  unfolding send set_need_cancel own_line
  mfa_failure auth_type =
      if not (auth_type ==ℤ minus_one)
      then (do
        set_need_cancel false
        s ← get_state
        send
            (if auth_type ==ℤ at_password
              then tr "Password verification failed"
              else own_line s.term auth_type
                  (tr_text "%s verification failed" (type_to_tr auth_type)))
            Style.error_msg
        pure Ret.auth_err)
      else pure Ret.pending

  unfoldable pub mfa_stop : Pam Ret
  unfolding set_need_cancel
  mfa_stop = do set_need_cancel false; pure Ret.pending

  unfoldable pub mfa_verify : Bytes → Pam Ret
  unfolding send
  mfa_verify signal_msg = do
    message ← resolve_verify_msg env signal_msg
    elim message [
      | none ↦ pure Ret.pending
      | some (style, text) ↦ do send text style; pure Ret.pending
    ]

  -- A failure to start the thread leaves the `switch`, so the text is not sent then; but that
  -- needs an authentication type other than -1, and the text -1.
  unfoldable pub mfa_prompt : ℤ → Bytes → Pam Ret
  unfolding send
  mfa_prompt auth_type signal_msg = do
    s ← get_state
    if auth_type ==ℤ s.cur_type && not (auth_type ==ℤ minus_one)
        then (do
          busy ← thread_busy env
          if busy then pure Ret.abort else do
            prompt ← access (mfa_prompt_text s.term auth_type signal_msg)
            create_thread env prompt)
        else if auth_type ==ℤ minus_one
        then (do send (raw signal_msg) Style.text_info; pure Ret.pending)
        else pure Ret.pending

  unfoldable pub mfa_deal : Option AuthStutaCode → ℤ → Bytes → Pam Ret
  unfolding mfa_success mfa_failure mfa_stop
  mfa_deal (some AuthStutaCode.success) auth_type signal_msg = mfa_success auth_type
  mfa_deal (some AuthStutaCode.failure) auth_type signal_msg = mfa_failure auth_type
  mfa_deal (some AuthStutaCode.cancel) auth_type signal_msg = mfa_stop
  mfa_deal (some AuthStutaCode.timeout) auth_type signal_msg = mfa_stop
  mfa_deal (some AuthStutaCode.error) auth_type signal_msg = mfa_stop
  mfa_deal (some AuthStutaCode.verify) auth_type signal_msg = mfa_verify signal_msg
  mfa_deal (some AuthStutaCode.prompt) auth_type signal_msg = mfa_prompt auth_type signal_msg
  mfa_deal _ auth_type signal_msg = pure Ret.pending

  unfoldable pub mfa_signal_deal : ℤ → ℤ → Bytes → Pam Ret
  unfolding mfa_deal code_of_int
  mfa_signal_deal signal_code auth_type signal_msg =
      mfa_deal (code_of_int signal_code) auth_type signal_msg
