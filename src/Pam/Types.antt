-- ===== src/Pam/Types.antt =====
-- misc/pam-module/auth/type.c: authentication types as bits.
pub mod Index
use lingmo_authenticate.Common.{
  ℕ, zero, suc, ◌+◌, ◌||◌, ℤ, ◌==ℤ◌, bit, Bool, true, false, Option, none, some, String,
  if◌then◌else◌, Bytes, codes, bytes_eq,
}
use lingmo_authenticate.Pam.Codes.{
  at_password, at_fingerprint, at_face, at_active_directory, at_ukey, at_iris, Text, tr,
}

-- The loop, with `n` rounds left and `index` reached. An int has 32 bits, and a shift by 32 is
-- undefined.
unfoldable pub first_bit : ℕ → ℕ → ℤ → Option ℕ
first_bit zero index auth_type = none
first_bit (suc n) index auth_type =
    let rest = first_bit n (index + 1) auth_type in if bit auth_type index then some index else rest

unfoldable pub type_to_index : ℤ → Option ℕ
type_to_index auth_type = first_bit 32 0 auth_type

unfoldable pub type_to_tr : ℤ → Text
type_to_tr auth_type =
    if auth_type ==ℤ at_fingerprint
    then tr "Fingerprint"
    else if auth_type ==ℤ at_face
    then tr "Face recognition"
    else if auth_type ==ℤ at_active_directory
    then tr "ActiveDirectory"
    else if auth_type ==ℤ at_ukey
    then tr "PIN"
    else if auth_type ==ℤ at_iris
    then tr "Iris"
    else tr "Unknown"

unfoldable pub is_input_type : ℤ → Bool
is_input_type auth_type =
    if auth_type ==ℤ at_password || auth_type ==ℤ at_ukey || auth_type ==ℤ at_active_directory
    then true
    else false

-- `APP_VAL_LOGIN` (1), `APP_VAL_LOCK` (2), `APP_VAL_AUTHORIZATION` (3) and `APP_VAL_OTHER` (4)
pub data AppVal : Type 0 where
  login lock authorization other : AppVal

unfoldable pub get_app_type : Option Bytes → AppVal
unfolding bytes_eq
get_app_type none = other
get_app_type (some app_type) =
    if bytes_eq app_type (codes "login")
    then login
    else if bytes_eq app_type (codes "lock")
    then lock
    else if bytes_eq app_type (codes "authorization")
    then authorization
    else other
