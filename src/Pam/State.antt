-- ===== src/Pam/State.antt =====
-- `struct UserData` of misc/pam-module/common/common.h, the calls that the module makes of its
-- surroundings, and what these answer.
use lingmo_authenticate.Common.{
  ℕ, ◌<◌, ◌≡◌, arith, ℤ, pos, Bool, false, Option, none, some, List, [], ◌∷◌, String, Bytes, M,
  ◌>>=◌, pure, length, ltb, if◌then◌else◌,
}
use lingmo_authenticate.Encrypt.Aes.{Aes}
use lingmo_authenticate.Pam.Codes.{Ret, Style, Text}

-- `struct AuthFactor`
pub record AuthFactor : Type 0 where
  pub auth_type : ℤ
  pub priority : ℤ
  pub input_type : ℤ
  pub required : ℤ

-- `struct AuthSession`; `flags` and `msg` are never used.
pub record AuthSession : Type 0 where
  pub is_mfa : Bool
  pub factor_size : ℕ
  pub factor_order : List ℕ
  pub factors : List AuthFactor

-- `struct Limit`
pub record Limit : Type 0 where
  pub max_tries : ℤ
  pub num_failures : ℤ
  pub locked : Bool
  pub unlock_time : Bytes

-- What the module asks of the D-Bus service, of PAM and of the threads library.
pub data Call : Type 0 where
  authenticate : Bytes → ℤ → ℤ → Call
  get_limits : Bytes → Call
  pre_one_key_login : ℤ → Call
  start : Bytes → ℤ → ℤ → Call
  end : Bytes → ℤ → Call
  send_msg : Text → Style → Call
  set_authtok : Bytes → Call
  thread_kill : ℕ → Call
  thread_create : Call
  get_result : Bytes → Call
  set_token : Bytes → ℤ → Bytes → Call
  open_system : Call
  close_bus : Call
  find_user_by_name : Bytes → Call
  password_expired_info : Bytes → Call
  get_property : Bytes → String → Call
  match_signal : Bytes → Call
  encrypt_key : Bytes → ℤ → Call
  set_symmetric_key : Bytes → Bytes → Call
  thread_cancel : ℕ → Call
  thread_join : ℕ → Call
  restore_term : Call
  set_result : Bool → Call
  set_data : Call

-- `Pubkey`: `rsa` is the text of the key that libcrypto has read, if it has read one.
pub record Pubkey : Type 0 where
  pub alg_type : ℤ
  pub flags : Option (List ℤ)
  pub pubkey : Option Bytes
  pub rsa : Option Bytes

-- `struct UserData`: `bus` says whether the connection is open, `term` whether the terminal's
-- attributes were read, `pid` is 0 without a thread, and `calls` are the calls made so far, the latest first.
pub record UserData : Type 0 where
  pub bus : Bool
  pub term : Bool
  pub path : Bytes
  pub username : Bytes
  pub prompt : Bytes
  pub auth_tok : Option Bytes
  pub pid : ℕ
  pub cur_type : ℤ
  pub need_cancel : Bool
  pub limits : List Limit
  pub failed_indexs : List ℤ
  pub failed_num : ℕ
  pub auth_ctrl : Option AuthSession
  pub res : Ret
  pub waiting_result : Bool
  pub get_result_val : ℤ
  pub key : Option Pubkey
  pub symmetric_key : Option Bytes
  pub calls : List Call

abbrev pub Pam : Type 0 → Type 0
Pam A = M UserData A

-- The surroundings: what they answer may depend on all calls made so far, the last of them first.
-- `Json` are the pointers to objects of json-c, the null pointer among them.
pub record Env : Type 1 where
  -- the return value of the last call is negative (or, for threads, not 0)
  pub fails : List Call → Bool
  -- reading the reply of the last call fails
  pub unreadable : List Call → Bool
  -- the text in the reply of the last call
  pub reply : List Call → Bytes
  -- `pthread_kill (pid, 0) == ESRCH`
  pub no_thread : List Call → Bool
  -- the identifier that `pthread_create` stores
  pub new_thread : List Call → ℕ
  -- `difftime` from now to the time of the text, where it is not negative
  pub seconds_until : Bytes → List Call → Option ℕ
  -- the number in the reply of the last call, the second one and whether that can be read
  pub reply_int : List Call → ℤ
  pub reply_more : List Call → Option ℤ
  -- the factors in the reply of the last call, up to the first that cannot be read; `none` if the
  -- array cannot be entered
  pub reply_factors : List Call → Option (List AuthFactor)
  -- libcrypto: AES, whether the text of a public key can be read, and the encryption under it
  pub aes : Aes
  pub reads_key : Bytes → Bool
  pub rsa_encrypt : Bytes → Bytes → Option Bytes
  -- `rand ()` after the generator was seeded by the time
  pub rand : List Call → ℕ
  pub Json : Type 0
  pub parse : Bytes → Option Json
  pub get_ex : Json → String → Bool × Json
  pub get_int : Json → ℤ
  pub get_boolean : Json → Bool
  pub get_string : Json → Option Bytes
  pub array_length : Json → ℕ
  pub get_idx : Json → ℕ → Json

-- A call, after which `calls` names it.
unfoldable pub emit : Call → Pam (List Call)
emit c s = let after = c ∷ s.calls in some (after, record s { calls = after })

-- `sprintf` or `strcpy` into an array of `size` bytes.
unfoldable pub copy_into : ℕ → Bytes → Pam Bytes
copy_into size text s = if ltb (length text) size then some (text, s) else none

pub copy_into-some :
    (size : ℕ) (text out : Bytes) (s t : UserData)
    → copy_into size text s ≡ some (out, t)
    → (out ≡ text) × (t ≡ s)
unfolding copy_into
copy_into-some size text out s t h = ground arith

pub copy_into-fits :
    (size : ℕ) (text : Bytes) (s : UserData)
    → length text < size
    → copy_into size text s ≡ some (text, s)
unfolding copy_into
copy_into-fits size text s h = ground arith

-- `MAX_BUF_SIZE` and `LIMITS_BUF_SIZE`
abbrev pub max_buf_size : ℕ
max_buf_size = 256

abbrev pub limits_buf_size : ℕ
limits_buf_size = 1024

abbrev pub no_limit : Limit
no_limit = record { max_tries = pos 0; num_failures = pos 0; locked = false; unlock_time = [] }

-- The assignments that the handlers share.
unfoldable pub set_need_cancel : Bool → Pam (Unit {0})
set_need_cancel b s = some (tt, record s { need_cancel = b })

unfoldable pub send : Text → Style → Pam (Unit {0})
unfolding emit
send text style = do _ ← emit (Call.send_msg text style); pure tt
