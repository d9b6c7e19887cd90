-- ===== src/Pam/Clean.antt =====
-- `clean_auth_data` and `pam_clean_func` of misc/pam-module/auth/pam.c.
pub mod Twice
use lingmo_authenticate.Common.{
  ℕ, ◌==◌, Bool, true, false, not, Option, none, some, List, [], ◌∷◌, minus_one, ◌>>=◌, ◌>>◌, pure,
  get_state, put_state, if◌then◌else◌,
}
use lingmo_authenticate.Pam.State.{Env, Call, UserData, Pam, emit}
use lingmo_authenticate.Pam.Dbus.{dbus_method_end}

module _ (env : Env) where
  -- The bus: the session is ended if it has a path.
  unfoldable pub clean_bus : Pam (Unit {0})
  unfolding emit
  clean_bus = do
    s ← get_state
    if s.bus
        then (do
          _ ← elim s.path [ [] ↦ pure false | c ∷ cs ↦ dbus_method_end env (c ∷ cs) minus_one ]
          _ ← emit Call.close_bus
          t ← get_state
          put_state (record t { bus = false }))
        else pure tt

  -- The token thread: joined if it could be cancelled.
  unfoldable pub clean_thread : Pam (Unit {0})
  unfolding emit
  clean_thread = do
    s ← get_state
    if s.pid == 0 then pure tt else (do
      calls ← emit (Call.thread_cancel s.pid)
      (if env.no_thread calls
          then pure tt
          else if env.fails calls
          then pure tt
          else (do _ ← emit (Call.thread_join s.pid); pure tt))
      t ← get_state
      put_state (record t { pid = 0 }))

  unfoldable pub clean_term : Pam (Unit {0})
  unfolding emit
  clean_term = do
    s ← get_state
    if s.term
        then (do _ ← emit Call.restore_term; t ← get_state; put_state (record t { term = false }))
        else pure tt

  unfoldable pub clean_auth_data : Pam (Unit {0})
  clean_auth_data = do
    clean_bus
    clean_thread
    s ← get_state
    put_state (record s { auth_ctrl = none })
    clean_term
    t ← get_state
    put_state (record t { symmetric_key = none })

  -- `pam_clean_func`, and `thread_cleanup`, which only calls it; the release of `ud` itself is left out.
  unfoldable pub pam_clean_func : Pam (Unit {0})
  pam_clean_func = do clean_auth_data; s ← get_state; put_state (record s { auth_tok = none })
