-- ===== src/Auth/Calls.antt =====
-- The calls of a session in lib/src/auth/auth.c.
pub mod Contract
pub mod Token
use lingmo_authenticate.Common.{
  ℕ, zero, suc, ◌+◌, ◌-◌, ◌||◌, ◌&&◌, ℤ, pos, minus_one, Bool, true, false, not, Option, none, some,
  List, [], ◌∷◌, String, Bytes, bytes_eq, take, length, set, replicate, ltb, ltb_ℤ, negsuc,
  if◌then◌else◌,
}
use lingmo_authenticate.Encrypt.Aes.{Aes, refused, done, aes_cbc_encrypt}
use lingmo_authenticate.Auth.Limits.{
  DaLimitInfo, Reply, call_error, no_text, with_text, limit_json_deal,
}

-- `da_error`
pub record DaError : Type 0 where
  pub code : ℤ
  pub msg : String

-- `da_factor_info`
pub record DaFactorInfo : Type 0 where
  pub auth_type : ℤ
  pub priority : ℤ
  pub input_type : ℤ
  pub required : Bool

-- What is sent to the service.
pub data Request : Type 0 where
  pre_one_key_login : ℤ → Request
  get_property : String → String → Request
  set_token : ℤ → Bytes → Request
  end : ℤ → Request
  get_result : Request
  privileges_disable : Request
  privileges_enable : Bytes → Request
  set_quit_flag : ℤ → Request
  start : ℤ → ℤ → Request

-- What the service answers: an error, or a number, a truth value, a text, which a call may leave null
-- and a property not, or the factors.
pub record Service : Type 0 where
  pub fails : Request → Option DaError
  pub number : Request → ℤ
  pub truth : Request → Bool
  pub text : Request → Option Bytes
  pub string : Request → Bytes
  pub factors : Request → List DaFactorInfo

-- The members of `da_proxy` that the calls read: whether each of the two proxies is one, the key, and
-- the callback on limits with its argument.
pub record Client : Type 0 where
  pub authenticate_proxy : Bool
  pub session_proxy : Bool
  pub symmetric_key : Option Bytes
  pub username : Option Bytes
  pub sig_limit_update_cb : Bool

-- How a call ends: its return value, what was written to `*err` and to the result, and what was sent.
pub record Outcome (A : Type 0) : Type 0 where
  pub ret : ℤ
  pub err : Option DaError
  pub result : Option A
  pub sent : List Request

unfoldable pub has_valid_authenticate_proxy : Option Client → Bool
has_valid_authenticate_proxy none = false
has_valid_authenticate_proxy (some proxy) = proxy.authenticate_proxy

unfoldable pub has_valid_session_proxy : Option Client → Bool
has_valid_session_proxy none = false
has_valid_session_proxy (some proxy) = proxy.session_proxy

-- What is stored in `*err`; `err` may be null.
unfoldable pub error_dup : Bool → DaError → Option DaError
error_dup err e = if err then some e else none

unfoldable pub error_new : Bool → String → Option DaError
error_new err msg = if err then some (record { code = minus_one; msg = msg }) else none

abbrev pub rejected : {A : Type 0} → Outcome A
rejected = record { ret = minus_one; err = none; result = none; sent = [] }

abbrev pub parameter_error : {A : Type 0} → Bool → Outcome A
parameter_error err = record {
  ret = minus_one;
  err = error_new err "parameter error.";
  result = none;
  sent = [];
}

-- `g_strlcpy` into `len` bytes, of which there is at least one.
unfoldable pub strlcpy : ℤ → Bytes → Bytes
strlcpy (pos len) text = take (len - 1) text
strlcpy (negsuc n) text = []

module _ (service : Service) where
  -- A synchronous call, with the test of its error.
  unfoldable pub call_sync : {A : Type 0} → Bool → Request → (Request → A) → Outcome A
  call_sync err r read = elim (service.fails r) [
    | some e ↦ record { ret = minus_one; err = error_dup err e; result = none; sent = r ∷ [] }
    | none ↦ record { ret = pos 0; err = none; result = some (read r); sent = r ∷ [] }
  ]

  -- `result` says whether the array is not null.
  unfoldable pub da_pre_one_key_login : Option Client → ℤ → Bool → ℤ → Bool → Outcome Bytes
  da_pre_one_key_login proxy flag result result_len err =
      let r = pre_one_key_login flag in
      if not (has_valid_authenticate_proxy proxy)
      then rejected
      else if not result || not (ltb_ℤ (pos 0) result_len)
      then parameter_error err
      else elim (service.fails r) [
        | some e ↦ record { ret = minus_one; err = error_dup err e; result = none; sent = r ∷ [] }
        | none ↦ elim (service.text r) [
          | none ↦ record {
            ret = minus_one;
            err = error_new err "call pre_one_key_login failed.";
            result = none;
            sent = r ∷ [];
          }
          | some out_result ↦ record {
            ret = pos 0;
            err = none;
            result = some (strlcpy result_len out_result);
            sent = r ∷ [];
          }
        ]
      ]

  -- The key may not be null, and a cipher text that was not made may not be sent.
  unfoldable pub da_session_set_token :
      Option Client → Aes → ℤ → Option Bytes → Bool → Option (Outcome (Unit {0}))
  da_session_set_token none aes auth_type password err = some rejected
  da_session_set_token (some proxy) aes auth_type password err =
      if not proxy.session_proxy then some rejected else elim password [
        | none ↦ some (parameter_error err)
        | some text ↦ elim proxy.symmetric_key [
          | none ↦ none
          | some key ↦ elim (aes_cbc_encrypt aes text key) [
            | none ↦ none
            | some refused ↦ none
            | some (done encrypted) ↦ some (call_sync err (set_token auth_type encrypted) (λ r. tt))
          ]
        ]
      ]

  unfoldable pub da_session_end : Option Client → ℤ → Bool → Bool → Outcome ℤ
  da_session_end proxy flag out_fail_num err =
      if not (has_valid_session_proxy proxy)
      then rejected
      else if not out_fail_num
      then parameter_error err
      else call_sync err (end flag) service.number

  unfoldable pub da_session_get_result : Option Client → Bool → Bool → Outcome ℤ
  da_session_get_result proxy result err =
      if not (has_valid_session_proxy proxy)
      then rejected
      else if not result
      then parameter_error err
      else call_sync err get_result service.number

  unfoldable pub da_session_privileges_disable : Option Client → Bool → Outcome (Unit {0})
  da_session_privileges_disable proxy err =
      if not (has_valid_session_proxy proxy)
      then rejected
      else call_sync err privileges_disable (λ r. tt)

  -- The value is stored as a gboolean of four bytes, where a bool of one is.
  unfoldable pub da_session_privileges_enable :
      Option Client → Option Bytes → Bool → Bool → Option (Outcome Bool)
  da_session_privileges_enable proxy master_path enabled err =
      if not (has_valid_session_proxy proxy) then some rejected else elim master_path [
        | none ↦ some (parameter_error err)
        | some path ↦
            if not enabled
            then some (parameter_error err)
            else elim (service.fails (privileges_enable path)) [
              | some e ↦ some (call_sync err (privileges_enable path) service.truth)
              | none ↦ none
            ]
      ]

  unfoldable pub da_session_set_quit_flag : Option Client → ℤ → Bool → Outcome (Unit {0})
  da_session_set_quit_flag proxy method err =
      if not (has_valid_session_proxy proxy)
      then rejected
      else call_sync err (set_quit_flag method) (λ r. tt)

  unfoldable pub da_session_start : Option Client → ℤ → ℤ → Bool → Bool → Outcome ℤ
  da_session_start proxy flag timeout fail_num err =
      if not (has_valid_session_proxy proxy)
      then rejected
      else if not fail_num
      then parameter_error err
      else call_sync err (start flag timeout) service.number
