-- ===== src/Pam/Token.antt =====
-- The part of the Prompt case that `sfa_signal_deal` and `mfa_signal_deal` share: the thread that
-- asks for the token (misc/pam-module/auth/sfa.c and mfa.c).
use lingmo_authenticate.Common.{
  Bool, false, not, Bytes, ◌>>=◌, ◌>>◌, pure, get_state, put_state, ◌==◌, if◌then◌else◌,
}
use lingmo_authenticate.Pam.Codes.{Ret}
use lingmo_authenticate.Pam.State.{Env, Call, Pam, emit, copy_into, max_buf_size}

module _ (env : Env) where
  -- `ud->pid` names a thread that has not ended.
  unfoldable pub thread_busy : Pam Bool
  unfolding emit
  thread_busy = do
    s ← get_state
    if s.pid == 0
        then pure false
        else do calls ← emit (Call.thread_kill s.pid); pure (not (env.no_thread calls))

  -- `sprintf (ud->prompt, …)` and `pthread_create`.
  unfoldable pub create_thread : Bytes → Pam Ret
  unfolding emit
  create_thread text = do
    prompt ← copy_into max_buf_size text
    s ← get_state
    put_state (record s { prompt = prompt })
    calls ← emit Call.thread_create
    t ← get_state
    put_state (record t { pid = env.new_thread calls })
    pure (if env.fails calls then Ret.abort else Ret.pending)
