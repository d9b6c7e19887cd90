-- ===== src/Pam/Loop.antt =====
-- The D-Bus loop of misc/pam-module/auth/pam.c: `bus_signal_cb`, and the `while` loop of
-- `pam_sm_authenticate` over what the bus delivers.
pub mod Safety
use lingmo_authenticate.Common.{
  ℤ, Bool, true, false, not, Option, none, some, List, [], ◌∷◌, Bytes, ◌>>=◌, ◌>>◌, pure, access,
  get_state, put_state, if◌then◌else◌,
}
use lingmo_authenticate.Pam.Codes.{Ret}
use lingmo_authenticate.Pam.State.{
  Env, Call, AuthSession, UserData, Pam, emit, copy_into, max_buf_size,
}
use lingmo_authenticate.Pam.Sfa.{sfa_signal_deal}
use lingmo_authenticate.Pam.Mfa.{mfa_signal_deal}
use lingmo_authenticate.Pam.Keys.{KeyReply, call_encrypt_key_cb}

-- A Status signal: the path of its sender, whether its arguments can be read, and these.
pub record Signal : Type 0 where
  pub sender : Bytes
  pub readable : Bool
  pub auth_type : ℤ
  pub code : ℤ
  pub msg : Bytes

-- What one round of the loop meets: an error of `sd_bus_process`, a message that it has handled (a
-- Status signal, the reply of EncryptKey, or one for which the loop runs no callback that writes the
-- data), no message but a successful wait, and an error of `sd_bus_wait`. The callback of GetResult is
-- an event of its own in Pam/Threads, since only the token thread asks for it.
pub data BusEvent : Type 0 where
  process_error : BusEvent
  status : Signal → BusEvent
  key_reply : KeyReply → BusEvent
  other : BusEvent
  waited : BusEvent
  wait_error : BusEvent

unfoldable pub is_pending : Ret → Bool
is_pending Ret.pending = true
is_pending _ = false

unfoldable pub is_success : Ret → Bool
is_success Ret.success = true
is_success _ = false

unfoldable pub set_res : Ret → Pam (Unit {0})
set_res r s = some (tt, record s { res = r })

-- `if (ud->res == PAM_SUCCESS && ud->auth_tok != NULL) pam_set_item (…)`
unfoldable pub give_token : Pam (Unit {0})
unfolding emit is_success
give_token s =
    if is_success s.res
    then elim s.auth_tok [
      | none ↦ some (tt, s)
      | some tok ↦ some (tt, record s { calls = Call.set_authtok tok ∷ s.calls })
    ]
    else some (tt, s)

module _ (env : Env) where
  -- The handler of the session's mode.
  unfoldable pub deal : AuthSession → Signal → Pam Ret
  deal ctrl signal =
      if ctrl.is_mfa
      then mfa_signal_deal env signal.code signal.auth_type signal.msg
      else sfa_signal_deal env signal.code signal.auth_type signal.msg

  -- `bus_signal_cb` after the copy of the sender's path.
  unfoldable pub handle_signal : Signal → Pam (Unit {0})
  unfolding set_res
  handle_signal signal = if not signal.readable then pure tt else (do
    s ← get_state
    ctrl ← access s.auth_ctrl
    r ← deal ctrl signal
    set_res r
    give_token)

  unfoldable pub bus_signal_cb : Signal → Pam (Unit {0})
  bus_signal_cb signal = do _ ← copy_into max_buf_size signal.sender; handle_signal signal

  unfoldable pub on_event : BusEvent → Pam (Unit {0})
  unfolding set_res
  on_event process_error = set_res Ret.abort
  on_event (status signal) = bus_signal_cb signal
  on_event (key_reply reply) = do _ ← call_encrypt_key_cb env reply; pure tt
  on_event other = pure tt
  on_event waited = pure tt
  on_event wait_error = set_res Ret.abort

  -- The rounds of the loop over the events so far: it ends once `res` is set. These are the rounds
  -- alone: what a token thread does beside them is in Pam/Threads.
  unfoldable pub bus_loop : List BusEvent → Pam (Unit {0})
  unfolding is_pending
  bus_loop [] s = some (tt, s)
  bus_loop (e ∷ es) s =
      let rest = on_event e >> bus_loop es in if is_pending s.res then rest s else some (tt, s)
