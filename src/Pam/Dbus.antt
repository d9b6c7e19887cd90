-- ===== src/Pam/Dbus.antt =====
-- The synchronous calls of misc/pam-module/auth/dbus.c; GetLimits stands in Pam.Limits.
use lingmo_authenticate.Common.{
  ℤ, pos, Bool, true, false, Option, none, some, String, Bytes, ◌>>=◌, pure, ◌||◌, get_state,
  if◌then◌else◌,
}
use lingmo_authenticate.Pam.Codes.{auth_flag_using}
use lingmo_authenticate.Pam.State.{Env, Call, Pam, emit, copy_into, max_buf_size}

-- `expired_status`, `left_days`, and whether the return value is negative.
pub record Expired : Type 0 where
  pub failed : Bool
  pub status : ℤ
  pub left_days : ℤ

module _ (env : Env) where
  -- Whether the return value is 1.
  unfoldable pub dbus_method_start : Bytes → ℤ → ℤ → Pam Bool
  unfolding emit
  dbus_method_start path flags timeout = do
    calls ← emit (Call.start path flags timeout)
    pure (env.fails calls || env.unreadable calls)

  unfoldable pub dbus_method_end : Bytes → ℤ → Pam Bool
  unfolding emit
  dbus_method_end path flag = do calls ← emit (Call.end path flag); pure (env.fails calls)

  -- What is written to `path`; `none` is the return value 1, which leaves it alone.
  unfoldable pub dbus_method_authenticate : Bytes → ℤ → ℤ → Pam (Option Bytes)
  unfolding emit
  dbus_method_authenticate username flags app_type = do
    calls ← emit (Call.authenticate username flags app_type)
    if env.fails calls || env.unreadable calls
        then pure none
        else do path ← copy_into max_buf_size (env.reply calls); pure (some path)

  -- What is written to `id`.
  unfoldable pub dbus_method_pre_one_key_login : Pam (Option Bytes)
  unfolding emit
  dbus_method_pre_one_key_login = do
    calls ← emit (Call.pre_one_key_login auth_flag_using)
    if env.fails calls || env.unreadable calls
        then pure none
        else do id ← copy_into max_buf_size (env.reply calls); pure (some id)

  -- What is written to `prop_val`.
  unfoldable pub dbus_get_prop_int : Bytes → String → Pam (Option ℤ)
  unfolding emit
  dbus_get_prop_int path prop_name = do
    calls ← emit (Call.get_property path prop_name)
    pure (if env.fails calls || env.unreadable calls then none else some (env.reply_int calls))

  -- The status is written before the days are read.
  unfoldable pub dbus_get_user_passwd_expired_info : Bytes → ℤ → ℤ → Pam Expired
  unfolding emit
  dbus_get_user_passwd_expired_info username status left_days = do
    calls ← emit (Call.find_user_by_name username)
    if env.fails calls || env.unreadable calls
        then pure (record { failed = true; status = status; left_days = left_days })
        else do
          userpath ← copy_into max_buf_size (env.reply calls)
          asked ← emit (Call.password_expired_info userpath)
          if env.fails asked || env.unreadable asked
              then pure (record { failed = true; status = status; left_days = left_days })
              else pure (elim (env.reply_more asked) [
                | none ↦ record {
                  failed = true;
                  status = env.reply_int asked;
                  left_days = left_days;
                }
                | some days ↦ record {
                  failed = false;
                  status = env.reply_int asked;
                  left_days = days;
                }
              ])

  -- Whether the return value is negative.
  unfoldable pub listen_dbus_signal : Pam Bool
  unfolding emit
  listen_dbus_signal = do
    s ← get_state
    calls ← emit (Call.match_signal s.path)
    pure (env.fails calls)

  -- The return value, 1 or 0.
  unfoldable pub dbus_method_set_symmetric_key : Bytes → Bytes → Pam ℤ
  unfolding emit
  dbus_method_set_symmetric_key path symmetric_key = do
    calls ← emit (Call.set_symmetric_key path symmetric_key)
    pure (if env.fails calls then pos 1 else pos 0)
