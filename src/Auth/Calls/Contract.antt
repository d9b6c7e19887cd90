-- ===== src/Auth/Calls/Contract.antt =====
-- What the session calls of lib/src/auth/auth.c promise about their return value and `*err`.
use lingmo_authenticate.Common.{
  ◌≤◌, ◌≡◌, ◌≢◌, refl, ℤ, pos, minus_one, ltb_ℤ, Bool, true, false, not, ◌||◌, Option, none, [],
  length, if◌then◌else◌, arith, Bool-cases, Option-cases, inl, inr,
}
use lingmo_authenticate.Auth.Calls.{
  Request, Service, Client, Outcome, has_valid_authenticate_proxy, has_valid_session_proxy,
  error_dup, error_new, rejected, parameter_error, call_sync, da_pre_one_key_login,
  pre_one_key_login, start, end, get_result, privileges_disable, set_quit_flag, da_session_end,
  da_session_get_result, da_session_privileges_disable, da_session_set_quit_flag, da_session_start,
}

-- 0 comes with a result and without an error; all else is -1, without a result and, if the proxy is
-- valid and `err` is not null, with an error. At most one request is sent, and none for a proxy that
-- is not valid.
pub record IsContract {A : Type 0} (valid err : Bool) (o : Outcome A) : Type 0 where
  pub success : o.ret ≡ pos 0 → (o.err ≡ none) × (o.result ≢ none)
  pub failure :
      o.ret ≢ pos 0
      → (o.ret ≡ minus_one) × (o.result ≡ none) × (valid ≡ true → err ≡ true → o.err ≢ none)
  pub silent : err ≡ false → o.err ≡ none
  pub once : length o.sent ≤ 1
  pub unsent : valid ≡ false → o.sent ≡ []

module _ {A : Type 0} (err : Bool) where
  rejected-IsContract : (valid : Bool) → valid ≡ false → IsContract {A = A} valid err rejected
  rejected-IsContract valid h = record {
    success = λ e. ground (arith, e);
    failure = λ e. (refl, refl, λ v w. ground (arith, h, v));
    silent = λ e. refl;
    once = omega arith;
    unsent = λ e. refl;
  }

  parameter_error-IsContract : (valid : Bool) → IsContract {A = A} valid err (parameter_error err)
  unfolding error_new
  parameter_error-IsContract valid = record {
    success = λ e. ground (arith, e);
    failure = λ e. (refl, refl, λ v w n. ground (arith, w, n));
    silent = λ e. ground (arith, e);
    once = omega arith;
    unsent = λ e. refl;
  }

  call_sync-IsContract :
      (service : Service) (r : Request) (read : Request → A) (valid : Bool)
      → valid ≡ true
      → IsContract valid err (call_sync service err r read)
  unfolding call_sync error_dup
  call_sync-IsContract service r read valid h = elim (Option-cases (service.fails r)) [
    | inl e ↦
        rw (e, call_sync)
          (record {
            success = λ z. (refl, λ n. ground (arith, n));
            failure = λ z. absurd (z refl);
            silent = λ z. refl;
            once = omega arith;
            unsent = λ z. ground (arith, h, z);
          })
    | inr (x, e) ↦
        rw (e, call_sync)
          (record {
            success = λ z. ground (arith, z);
            failure = λ z. (refl, refl, λ v w n. ground (arith, w, n));
            silent = λ z. ground (arith, z);
            once = omega arith;
            unsent = λ z. ground (arith, h, z);
          })
  ]

guarded-IsContract :
    {A : Type 0} (err valid pointers : Bool) (o : Outcome A)
    → (valid ≡ true → IsContract valid err o)
    → IsContract valid err
        (if not valid then rejected else if not pointers then parameter_error err else o)
guarded-IsContract err valid pointers o h = elim (Bool-cases valid) [
  | inr v ↦ rw v (rejected-IsContract err false refl)
  | inl v ↦ elim (Bool-cases pointers) [
    | inr p ↦ rw (v, p) (parameter_error-IsContract err true)
    | inl p ↦ let k = h v in rw (v, p) (rw v at k)
  ]
]

valid_only-IsContract :
    {A : Type 0} (err valid : Bool) (o : Outcome A)
    → (valid ≡ true → IsContract valid err o)
    → IsContract valid err (if not valid then rejected else o)
valid_only-IsContract err valid o h = elim (Bool-cases valid) [
  | inr v ↦ rw v (rejected-IsContract err false refl)
  | inl v ↦ let k = h v in rw v (rw v at k)
]

module _ (service : Service) (proxy : Option Client) (err : Bool) where
  pre_one_key_login-IsContract :
      (flag : ℤ) (result : Bool) (result_len : ℤ)
      → IsContract
          (has_valid_authenticate_proxy proxy)
          err
          (da_pre_one_key_login service proxy flag result result_len err)
  unfolding da_pre_one_key_login error_dup error_new
  pre_one_key_login-IsContract flag result result_len =
      let valid = has_valid_authenticate_proxy proxy in
      let r = pre_one_key_login flag in
      let o = da_pre_one_key_login service proxy flag result result_len err in
      elim (Bool-cases valid) [
        | inr v ↦ record {
          success = λ z. ground (arith, v, z);
          failure =
              λ z. (ground (arith, v, z), ground (arith, v, z), λ q w n. ground (arith, v, q));
          silent = λ z. ground (arith, v);
          once = ground (arith, v);
          unsent = λ z. ground (arith, v);
        }
        | inl v ↦ elim (Bool-cases (not result || not (ltb_ℤ (pos 0) result_len))) [
          | inl p ↦ record {
            success = λ z. ground (arith, v, p, z);
            failure = λ z. (
              ground (arith, v, p, z),
              ground (arith, v, p, z),
              λ q w n. ground (arith, v, p, w, n),
            );
            silent = λ z. ground (arith, v, p, z);
            once = ground (arith, v, p);
            unsent = λ z. ground (arith, v, p);
          }
          | inr p ↦ elim (Option-cases (service.fails r)) [
            | inr (e, f) ↦ record {
              success = λ z. ground (arith, v, p, f, z);
              failure = λ z. (
                ground (arith, v, p, f, z),
                ground (arith, v, p, f, z),
                λ q w n. ground (arith, v, p, f, w, n),
              );
              silent = λ z. ground (arith, v, p, f, z);
              once = ground (arith, v, p, f);
              unsent = λ z. ground (arith, v, z);
            }
            | inl f ↦ elim (Option-cases (service.text r)) [
              | inl t ↦ record {
                success = λ z. ground (arith, v, p, f, t, z);
                failure = λ z. (
                  ground (arith, v, p, f, t, z),
                  ground (arith, v, p, f, t, z),
                  λ q w n. ground (arith, v, p, f, t, w, n),
                );
                silent = λ z. ground (arith, v, p, f, t, z);
                once = ground (arith, v, p, f, t);
                unsent = λ z. ground (arith, v, z);
              }
              | inr (x, t) ↦ record {
                success = λ z. (ground (arith, v, p, f, t), λ n. ground (arith, v, p, f, t, n));
                failure = λ z. absurd (z (ground (arith, v, p, f, t)));
                silent = λ z. ground (arith, v, p, f, t, z);
                once = ground (arith, v, p, f, t);
                unsent = λ z. ground (arith, v, z);
              }
            ]
          ]
        ]
      ]

  -- Six calls keep one contract: `da_pre_one_key_login`, `da_session_start`, `da_session_end`,
  -- `da_session_get_result`, `da_session_privileges_disable` and `da_session_set_quit_flag`. Each returns 0
  -- with a result and no error, or -1 without a result and, for a valid proxy and where `err` is not null,
  -- with an error in `*err`; it sends one request at most, and none for a proxy that is not valid. (Of the
  -- other functions with an `err` nothing is said: `da_get_limits` returns -1 without one.)
  pub session_calls-IsContract :
      (flag method timeout result_len : ℤ) (out : Bool)
      → IsContract
          (has_valid_authenticate_proxy proxy)
          err
          (da_pre_one_key_login service proxy flag out result_len err)
        × IsContract
            (has_valid_session_proxy proxy)
            err
            (da_session_start service proxy flag timeout out err)
        × IsContract (has_valid_session_proxy proxy) err (da_session_end service proxy flag out err)
        × IsContract
            (has_valid_session_proxy proxy)
            err
            (da_session_get_result service proxy out err)
        × IsContract
            (has_valid_session_proxy proxy)
            err
            (da_session_privileges_disable service proxy err)
        × IsContract
            (has_valid_session_proxy proxy)
            err
            (da_session_set_quit_flag service proxy method err)
  unfolding da_session_start da_session_end da_session_get_result da_session_privileges_disable
      da_session_set_quit_flag
  session_calls-IsContract flag method timeout result_len out =
      let valid = has_valid_session_proxy proxy in
      (
        pre_one_key_login-IsContract flag out result_len,
        guarded-IsContract err valid out _
            (call_sync-IsContract err service (start flag timeout) service.number valid),
        guarded-IsContract err valid out _
            (call_sync-IsContract err service (end flag) service.number valid),
        guarded-IsContract err valid out _
            (call_sync-IsContract err service get_result service.number valid),
        valid_only-IsContract err valid _
            (call_sync-IsContract err service privileges_disable (λ r. tt) valid),
        valid_only-IsContract err valid _
            (call_sync-IsContract err service (set_quit_flag method) (λ r. tt) valid),
      )
