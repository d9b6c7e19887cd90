-- ===== src/Pam/Limits.antt =====
-- `get_limits_info` of misc/pam-module/auth/utils.c, and `dbus_method_get_limits` of dbus.c: the
-- limits of the user's authentication methods, read from the JSON text of the service.
pub mod Store
pub mod Sound
use lingmo_authenticate.Common.{
  ℕ, zero, suc, ◌+◌, ℤ, Bool, true, false, Option, none, some, List, Bytes, ◌>>=◌, ◌>>◌, pure,
  access, get_state, length, ltb, leb, ◌||◌, set, if◌then◌else◌,
}
use lingmo_authenticate.Pam.Codes.{support_at_type}
use lingmo_authenticate.Pam.Types.{type_to_index}
use lingmo_authenticate.Pam.State.{
  Env, Limit, Call, Pam, emit, copy_into, max_buf_size, limits_buf_size,
}

-- A write out of `limits` is undefined.
unfoldable pub set_limit : ℕ → Limit → Pam (Unit {0})
set_limit i limit s =
    if ltb i (length s.limits) then some (tt, record s { limits = set s.limits i limit }) else none

module _ (env : Env) where
  -- `none` is the return value 1.
  unfoldable pub dbus_method_get_limits : Bytes → Pam (Option Bytes)
  unfolding emit copy_into
  dbus_method_get_limits username = do
    calls ← emit (Call.get_limits username)
    if env.fails calls || env.unreadable calls
        then pure none
        else do limits ← copy_into limits_buf_size (env.reply calls); pure (some limits)

  -- The fields of one object as a limit; `strcpy` from a null pointer or past the array is
  -- undefined.
  unfoldable pub limit_of_json : env.Json → Pam Limit
  unfolding copy_into
  limit_of_json jobj = do
    text ← access (env.get_string (env.get_ex jobj "unlockTime").1)
    unlock_time ← copy_into max_buf_size text
    pure (record {
      max_tries = env.get_int (env.get_ex jobj "maxTries").1;
      num_failures = env.get_int (env.get_ex jobj "numFailures").1;
      locked = env.get_boolean (env.get_ex jobj "locked").1;
      unlock_time = unlock_time;
    })

  -- The body of the loop over the array.
  unfoldable pub store_limit : env.Json → Pam (Unit {0})
  store_limit jobj = do
    type_index ← access (type_to_index (env.get_int (env.get_ex jobj "flag").1))
    if leb support_at_type type_index
        then pure tt
        else do limit ← limit_of_json jobj; set_limit type_index limit

  -- The loop, with `n` rounds left.
  unfoldable pub store_limits : env.Json → ℕ → ℕ → Pam (Unit {0})
  store_limits parsed zero i = pure tt
  store_limits parsed (suc n) i =
      store_limit (env.get_idx parsed i) >> store_limits parsed n (i + 1)

  unfoldable pub get_limits_info : Pam (Unit {0})
  get_limits_info = do
    s ← get_state
    limits ← dbus_method_get_limits s.username
    elim limits [
      | none ↦ pure tt
      | some buff ↦ elim (env.parse buff) [
        | none ↦ pure tt
        | some parsed ↦ store_limits parsed (env.array_length parsed) 0
      ]
    ]
