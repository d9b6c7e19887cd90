-- ===== src/Pam/Request.antt =====
-- The token thread of misc/pam-module/auth/pam.c, `run_request_pw`, with `dbus_method_getResult` and
-- `dbus_method_setToken` of dbus.c. It is cut where it waits for the loop's thread.
pub mod Split
pub mod Result
pub mod Exchange
use lingmo_authenticate.Common.{
  ℕ, ℤ, pos, ◌==ℤ◌, Bool, true, false, not, Option, none, some, List, [], ◌∷◌, Bytes, ◌==◌, ◌>>=◌,
  ◌>>◌, pure, access, get_state, put_state, if◌then◌else◌,
}
use lingmo_authenticate.Encrypt.Aes.{refused, done}
use lingmo_authenticate.Pam.Keys.{aes_cbc_encrypt}
use lingmo_authenticate.Pam.Codes.{Ret, Style, raw}
use lingmo_authenticate.Pam.State.{Env, Call, UserData, Pam, emit}
use lingmo_authenticate.Pam.Loop.{is_pending, set_res}

-- `GET_RESULT_SUCCESS` and `GET_RESULT_UNAVAILABLE`
abbrev pub get_result_success : ℤ
get_result_success = pos 0

abbrev pub get_result_unavailable : ℤ
get_result_unavailable = pos 2

-- `split_data`: the path before the first semicolon, and the token after it if there is one; `none`
-- is the return value -1.
unfoldable pub split_data : Bytes → Option (Bytes × Option Bytes)
split_data [] = none
split_data (c ∷ resp) =
    let rest = split_data resp in
    if c == b';'
    then some ([], elim resp [ [] ↦ none | x ∷ xs ↦ some (x ∷ xs) ])
    else elim rest [ none ↦ none | some (path, tok) ↦ some (c ∷ path, tok) ]

-- How the conversation ends in `send_msg`: there is none, it fails, or it answers.
pub data Conv : Type 0 where
  unavailable : Conv
  failed : Conv
  answered : Bytes → Conv

unfoldable pub set_waiting : Pam (Unit {0})
set_waiting s = some (tt, record s { waiting_result = true })

module _ (env : Env) where
  -- `send_msg (ud, ud->prompt, PAM_PROMPT_ECHO_OFF)`, up to its answer.
  unfoldable pub ask : Conv → Pam (Option Bytes)
  unfolding emit set_res
  ask conv = do
    s ← get_state
    _ ← emit (Call.send_msg (raw s.prompt) Style.prompt_echo_off)
    elim conv [
      | unavailable ↦ pure none
      | failed ↦ (do
        t ← get_state
        (if is_pending t.res then set_res Ret.abort else pure tt)
        pure none)
      | answered resp ↦ pure (some resp)
    ]

  -- `dbus_method_getResult` is cut between the call and the assignment that follows it. First the
  -- call: whether it fails.
  unfoldable pub send_get_result : Bytes → Pam Bool
  unfolding emit
  send_get_result path = do
    calls ← emit (Call.get_result path)
    s ← get_state
    (if env.fails calls
        then put_state (record s { get_result_val = get_result_unavailable })
        else pure tt)
    pure (env.fails calls)

  unfoldable pub dbus_method_get_result : Bytes → Pam (Unit {0})
  unfolding set_waiting
  dbus_method_get_result path = do
    lost ← send_get_result path
    if lost then pure tt else set_waiting

  -- Whether the return value is 1. The key may not be null.
  unfoldable pub dbus_method_set_token : Bytes → ℤ → Bytes → Pam Bool
  unfolding emit
  dbus_method_set_token path auth_type password = do
    s ← get_state
    key ← access s.symmetric_key
    encrypted ← access (aes_cbc_encrypt env.aes password key)
    elim encrypted [
      | refused ↦ pure false
      | done cipher ↦ (do
        calls ← emit (Call.set_token path auth_type cipher)
        pure (not (env.fails calls)))
    ]

  -- The end of the thread that hands the answer to the service.
  unfoldable pub hand_over : Bytes → Pam (Unit {0})
  unfolding set_res
  hand_over resp = do
    s ← get_state
    sent ← dbus_method_set_token s.path s.cur_type resp
    (if not sent then set_res Ret.abort else pure tt)
    t ← get_state
    put_state (record t { auth_tok = some resp })

  -- After the wait: the result decides.
  unfoldable pub after_wait : Bytes → Option Bytes → Pam (Unit {0})
  unfolding emit set_res
  after_wait resp tok = do
    s ← get_state
    if s.get_result_val ==ℤ get_result_success
        then (do
          elim tok [
            | none ↦ pure tt
            | some t ↦ (do
              put_state (record s { auth_tok = some t })
              _ ← emit (Call.set_authtok t)
              pure tt)
          ]
          set_res Ret.success)
        else hand_over resp

-- `call_getResult_cb`, which the loop's thread runs: the value of the reply, if it can be read.
unfoldable pub call_get_result_cb : Option ℤ → Pam (Unit {0})
call_get_result_cb none s =
    some (tt, record s { get_result_val = get_result_unavailable; waiting_result = false })
call_get_result_cb (some res) s =
    some (tt, record s { get_result_val = res; waiting_result = false })

-- The whole thread, where the callback runs once, after the assignment to `waiting_result` and
-- while the thread waits, if it waits.
unfoldable pub run_request_pw : Env → Conv → Option ℤ → Pam (Unit {0})
run_request_pw env conv reply = do
  answer ← ask env conv
  elim answer [
    | none ↦ pure tt
    | some resp ↦ elim (split_data resp) [
      | none ↦ hand_over env resp
      | some (path, tok) ↦ (do
        dbus_method_get_result env path
        s ← get_state
        (if s.waiting_result then call_get_result_cb reply else pure tt)
        after_wait env resp tok)
    ]
  ]
