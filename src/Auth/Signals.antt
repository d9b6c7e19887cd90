-- ===== src/Auth/Signals.antt =====
-- The handlers of the signals in lib/src/auth/auth.c, and what connects callbacks to them.
use lingmo_authenticate.Common.{
  ℕ, suc, ◌≡◌, ℤ, pos, minus_one, Bool, true, false, not, Option, none, some, List, Bytes, bytes_eq,
  bytes_eq_refl, M, if◌then◌else◌, arith,
}
use lingmo_authenticate.Auth.Limits.{
  Env, DaProxy, DaLimitInfo, failed, filled, call_error, no_text, with_text, limit_json_deal,
  da_get_limits,
}

-- The members of `da_proxy` that hold callbacks and their arguments; pointers are numbers.
pub record Callbacks : Type 0 where
  pub log_callback : Option ℕ
  pub sig_limit_update_cb : Option ℕ
  pub limit_cb_userdata : Option ℕ
  pub sig_status_cb : Option ℕ
  pub signal_cb_userdata : Option ℕ

-- The three functions return -1, for a null pointer, or change the proxy.
unfoldable pub da_set_log_callback : Option Callbacks → Option ℕ → Option Callbacks
da_set_log_callback none cb = none
da_set_log_callback (some proxy) none = none
da_set_log_callback (some proxy) (some cb) = some (record proxy { log_callback = some cb })

unfoldable pub da_signal_connect_limit_updated :
    Option Callbacks → Option ℕ → Option ℕ → Option Callbacks
da_signal_connect_limit_updated none cb userdata = none
da_signal_connect_limit_updated (some proxy) none userdata = none
da_signal_connect_limit_updated (some proxy) (some cb) userdata =
    some (record proxy { sig_limit_update_cb = some cb; limit_cb_userdata = userdata })

unfoldable pub da_session_signal_connect_status :
    Option Callbacks → Option ℕ → Option ℕ → Option Callbacks
da_session_signal_connect_status none cb userdata = none
da_session_signal_connect_status (some proxy) none userdata = none
da_session_signal_connect_status (some proxy) (some cb) userdata =
    some (record proxy { sig_status_cb = some cb; signal_cb_userdata = userdata })

-- The call of `sig_status_cb`: the callback, its argument, and those of the signal.
pub record StatusCall : Type 0 where
  pub cb : ℕ
  pub userdata : Option ℕ
  pub flag : ℤ
  pub status : ℤ
  pub msg : Bytes

-- What it returns, and what it calls.
unfoldable pub signal_status_handler : Bool → Callbacks → ℤ → ℤ → Bytes → Bool × Option StatusCall
signal_status_handler is_session proxy flag status msg =
    if not is_session then (false, none) else elim proxy.sig_status_cb [
      | none ↦ (true, none)
      | some cb ↦ (
        true,
        some (record {
          cb = cb;
          userdata = proxy.signal_cb_userdata;
          flag = flag;
          status = status;
          msg = msg;
        }),
      )
    ]

-- The call of `sig_limit_update_cb`: the callback, its argument, and the array.
pub record LimitCall : Type 0 where
  pub cb : ℕ
  pub userdata : Option ℕ
  pub dli : List (Option DaLimitInfo)

-- `g_strcmp0 (a, b) == 0`
unfoldable pub strcmp0_eq : Option Bytes → Option Bytes → Bool
strcmp0_eq none none = true
strcmp0_eq none (some b) = false
strcmp0_eq (some a) none = false
strcmp0_eq (some a) (some b) = bytes_eq a b

-- What it returns, -1 for an error of the call, and what it calls. The call for no user is undefined.
unfoldable pub signal_limit_updated_handler :
    (env : Env) → Bool → Callbacks → Option Bytes → Option Bytes → M ℕ (ℤ × Option LimitCall)
signal_limit_updated_handler env is_authenticate proxy username value k =
    if not is_authenticate
    then some ((pos 0, none), k)
    else if not (strcmp0_eq value username)
    then some ((pos 0, none), k)
    else elim proxy.sig_limit_update_cb [
      | none ↦ some ((pos 1, none), k)
      | some cb ↦ elim value [
        | none ↦ none
        | some name ↦ elim (env.get_limits k name) [
          | call_error ↦ some ((minus_one, none), suc k)
          | no_text ↦ some ((minus_one, none), suc k)
          | with_text text ↦ elim (limit_json_deal env text) [
            | none ↦ none
            | some (error, dli) ↦ some (
              (pos 1, some (record { cb = cb; userdata = proxy.limit_cb_userdata; dli = dli })),
              suc k,
            )
          ]
        ]
      ]
    ]

-- For the user of the proxy and a connected callback, the handler calls it with the array that
-- `da_get_limits` would give at that moment, complete or not, and it calls nothing and returns -1
-- where `da_get_limits` fails.
pub signal_limit_updated_handler-da_get_limits :
    (env : Env) (callbacks : Callbacks) (proxy : DaProxy) (name : Bytes) (cb k k' : ℕ)
    (error : Bool) (dli : List (Option DaLimitInfo))
    → callbacks.sig_limit_update_cb ≡ some cb
    → proxy.has_authenticate_proxy ≡ true
    → (da_get_limits env proxy (some name) k ≡ some (filled error dli, k')
        → signal_limit_updated_handler env true callbacks (some name) (some name) k
          ≡ some (
            (pos 1, some (record { cb = cb; userdata = callbacks.limit_cb_userdata; dli = dli })),
            k',
          ))
      × (da_get_limits env proxy (some name) k ≡ some (failed, k')
          → signal_limit_updated_handler env true callbacks (some name) (some name) k
            ≡ some ((minus_one, none), k'))
unfolding signal_limit_updated_handler da_get_limits strcmp0_eq
signal_limit_updated_handler-da_get_limits env callbacks proxy name cb k k' error dli c p =
    let same = bytes_eq_refl name in
    (λ h. ground (arith, h, c, p, same), λ h. ground (arith, h, c, p, same))
