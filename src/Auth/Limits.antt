-- ===== src/Auth/Limits.antt =====
-- The limits of lib/src/auth/auth.c: `da_get_limits` and what reads the array that it fills.
use lingmo_authenticate.Common.{
  ℕ, zero, suc, ◌+◌, ◌||◌, ℤ, pos, minus_one, ◌==ℤ◌, Bool, true, false, not, Option, none, some,
  List, [], ◌∷◌, String, Bytes, take, replicate, if◌then◌else◌, M,
}

-- `da_limit_info`; a text is `none` where nothing was copied into its array.
pub record DaLimitInfo : Type 0 where
  pub type : Option Bytes
  pub locked : Bool
  pub max_tries : ℤ
  pub fail_num : ℤ
  pub unlock_time : Option Bytes
  pub flag : ℤ
  pub unlock_secs : ℤ

-- `DA_AUTH_FLAG`
abbrev pub auth_flag_password : ℤ
auth_flag_password = pos 0x01

abbrev pub auth_flag_fingerprint : ℤ
auth_flag_fingerprint = pos 0x02

abbrev pub auth_flag_face : ℤ
auth_flag_face = pos 0x04

abbrev pub auth_flag_ad : ℤ
auth_flag_ad = pos 0x08

abbrev pub auth_flag_ukey : ℤ
auth_flag_ukey = pos 0x10

abbrev pub auth_flag_fingervein : ℤ
auth_flag_fingervein = pos 0x20

abbrev pub auth_flag_iris : ℤ
auth_flag_iris = pos 0x40

abbrev pub auth_flag_all : ℤ
auth_flag_all = minus_one

-- How the call of GetLimits ends: in an error, without a text, or with one.
pub data Reply : Type 0 where
  call_error : Reply
  no_text : Reply
  with_text : Bytes → Reply

-- The surroundings. The service and the clock may answer each call differently: the first argument
-- is the number of calls of GetLimits so far. `Json` are the pointers to objects of json-c;
-- `array_length` of what is no array is undefined.
pub record Env : Type 1 where
  pub get_limits : ℕ → Bytes → Reply
  pub seconds_until : ℕ → Bytes → Option ℕ
  pub tty : Bool
  pub Json : Type 0
  pub parse : Bytes → Json
  pub is_null : Json → Bool
  pub array_length : Json → Option ℕ
  pub get_idx : Json → ℕ → Json
  pub get_ex : Json → String → Bool × Json
  pub get_int : Json → ℤ
  pub get_boolean : Json → Bool
  pub get_string : Json → Option Bytes

-- The members of `da_proxy` that these operations read: whether it has a proxy of the service, and
-- its user.
pub record DaProxy : Type 0 where
  pub has_authenticate_proxy : Bool
  pub username : Option Bytes

-- `da_get_limits`: no call, an error in `err`, or the return value of `limit_json_deal`, true for
-- -1, with the array.
pub data Limits : Type 0 where
  not_called : Limits
  failed : Limits
  filled : Bool → List (Option DaLimitInfo) → Limits

unfoldable pub is_valid_auth_flag : ℤ → Bool
is_valid_auth_flag auth_flag =
    if auth_flag ==ℤ auth_flag_password
      || auth_flag ==ℤ auth_flag_fingerprint
      || auth_flag ==ℤ auth_flag_ad
      || auth_flag ==ℤ auth_flag_face
      || auth_flag ==ℤ auth_flag_fingervein
      || auth_flag ==ℤ auth_flag_iris
      || auth_flag ==ℤ auth_flag_ukey
    then true
    else false

-- The loop: to read an element that nothing was written to is undefined.
unfoldable pub find_flag : List (Option DaLimitInfo) → ℤ → Option (Option DaLimitInfo)
find_flag [] auth_flag = some none
find_flag (none ∷ dli) auth_flag = none
find_flag (some l ∷ dli) auth_flag =
    let rest = find_flag dli auth_flag in if l.flag ==ℤ auth_flag then some (some l) else rest

unfoldable pub da_get_auth_limit_info :
    Option (List (Option DaLimitInfo)) → ℤ → Option (Option DaLimitInfo)
da_get_auth_limit_info none auth_flag = some none
da_get_auth_limit_info (some dli) auth_flag =
    if not (is_valid_auth_flag auth_flag) || auth_flag ==ℤ auth_flag_all
    then some none
    else find_flag dli auth_flag

module _ (env : Env) where
  -- `g_strlcpy` into 64 bytes of the text of an object; nothing is copied from the null pointer.
  abbrev text_of : env.Json → Option Bytes
  text_of j = elim (env.get_string j) [ none ↦ none | some t ↦ some (take 63 t) ]

  abbrev field : env.Json → String → Option env.Json
  field ele name = let (found, j) = env.get_ex ele name in if found then some j else none

  -- One element as a limit; `none` if a key is missing.
  unfoldable pub limit_of : env.Json → Option DaLimitInfo
  limit_of ele = elim (field ele "type") [
    | none ↦ none
    | some json_type ↦ elim (field ele "flag") [
      | none ↦ none
      | some json_flag ↦ elim (field ele "unlockSecs") [
        | none ↦ none
        | some json_unlock_secs ↦ elim (field ele "maxTries") [
          | none ↦ none
          | some json_max_tries ↦ elim (field ele "numFailures") [
            | none ↦ none
            | some json_num_failures ↦ elim (field ele "locked") [
              | none ↦ none
              | some json_locked ↦ elim (field ele "unlockTime") [
                | none ↦ none
                | some json_unlock_time ↦ some (record {
                  type = text_of json_type;
                  locked = env.get_boolean json_locked;
                  max_tries = env.get_int json_max_tries;
                  fail_num = env.get_int json_num_failures;
                  unlock_time = text_of json_unlock_time;
                  flag = env.get_int json_flag;
                  unlock_secs = env.get_int json_unlock_secs;
                })
              ]
            ]
          ]
        ]
      ]
    ]
  ]

  -- The loop, with `n` rounds left: a missing key ends it and leaves the rest of the array alone.
  unfoldable pub deal_from : env.Json → ℕ → ℕ → Bool × List (Option DaLimitInfo)
  deal_from pobj zero i = (false, [])
  deal_from pobj (suc n) i =
      let ele = env.get_idx pobj i in
      let (error, rest) = deal_from pobj n (i + 1) in
      if env.is_null ele then (error, none ∷ rest) else elim (limit_of ele) [
        | none ↦ (true, replicate (suc n) none)
        | some l ↦ (error, some l ∷ rest)
      ]

  unfoldable pub limit_json_deal : Bytes → Option (Bool × List (Option DaLimitInfo))
  limit_json_deal text =
      let pobj = env.parse text in
      elim (env.array_length pobj) [ none ↦ none | some ele_num ↦ some (deal_from pobj ele_num 0) ]

  -- The call for no user is undefined.
  unfoldable pub da_get_limits : DaProxy → Option Bytes → M ℕ Limits
  da_get_limits proxy username k =
      if not proxy.has_authenticate_proxy then some (not_called, k) else elim username [
        | none ↦ none
        | some name ↦ elim (env.get_limits k name) [
          | call_error ↦ some (failed, suc k)
          | no_text ↦ some (failed, suc k)
          | with_text t ↦ elim (limit_json_deal t) [
            | none ↦ none
            | some (error, limits) ↦ some (filled error limits, suc k)
          ]
        ]
      ]

  -- The return value of `da_get_limits` is not looked at, only the error.
  unfoldable pub get_limit_info_priv : DaProxy → Option Bytes → ℤ → M ℕ (Option DaLimitInfo)
  get_limit_info_priv proxy username auth_flag k = elim (da_get_limits proxy username k) [
    | none ↦ none
    | some (not_called, k') ↦ some (none, k')
    | some (failed, k') ↦ some (none, k')
    | some (filled error dli, k') ↦ elim (da_get_auth_limit_info (some dli) auth_flag) [
      | none ↦ none
      | some found ↦ some (found, k')
    ]
  ]
