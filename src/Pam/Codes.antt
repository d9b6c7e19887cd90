-- ===== src/Pam/Codes.antt =====
-- The enumerations of misc/pam-module/common/common.h and the PAM results that the module returns.
use lingmo_authenticate.Common.{
  ℕ, ℤ, pos, negsuc, ◌==◌, if◌then◌else◌, Option, none, some, String, List,
}

-- `ud->res` and what the handlers return: -1 is `pending`, the others are the PAM_ constants.
pub data Ret : Type 0 where
  pending success auth_err maxtries abort ignore : Ret

-- `enum AuthStutaCode`
pub data AuthStutaCode : Type 0 where
  success failure cancel timeout error verify expect prompt started ended : AuthStutaCode

-- The `switch (signalCode)` of the handlers: a value that no `case` names does nothing.
unfoldable pub code_of_int : ℤ → Option AuthStutaCode
code_of_int (pos n) =
    if n == 0
    then some AuthStutaCode.success
    else if n == 1
    then some AuthStutaCode.failure
    else if n == 2
    then some AuthStutaCode.cancel
    else if n == 3
    then some AuthStutaCode.timeout
    else if n == 4
    then some AuthStutaCode.error
    else if n == 5
    then some AuthStutaCode.verify
    else if n == 6
    then some AuthStutaCode.expect
    else if n == 7
    then some AuthStutaCode.prompt
    else if n == 8
    then some AuthStutaCode.started
    else if n == 9
    then some AuthStutaCode.ended
    else none
code_of_int (negsuc n) = none

-- `enum AuthenticateType`
abbrev pub at_password : ℤ
at_password = pos 0x0001

abbrev pub at_fingerprint : ℤ
at_fingerprint = pos 0x0002

abbrev pub at_face : ℤ
at_face = pos 0x0004

abbrev pub at_active_directory : ℤ
at_active_directory = pos 0x0008

abbrev pub at_ukey : ℤ
at_ukey = pos 0x0010

abbrev pub at_finger_vein : ℤ
at_finger_vein = pos 0x0020

abbrev pub at_iris : ℤ
at_iris = pos 0x0040

-- `SUPPORT_AT_TYPE`
abbrev pub support_at_type : ℕ
support_at_type = 7

-- `enum InputType`
abbrev pub it_keyboard : ℤ
it_keyboard = pos 1

-- `AT_Password | AT_Fingerprint`
abbrev pub auth_flag_using : ℤ
auth_flag_using = pos 3

-- The message styles of the PAM conversation.
pub data Style : Type 0 where
  error_msg text_info prompt_echo_off : Style

-- A text handed to the user: what is given to gettext and printf, which are not modelled.
pub data Text : Type 0 where
  raw : List ℕ → Text
  tr : String → Text
  tr_int : String → ℤ → Text
  tr_text : String → Text → Text
  tr_text_int : String → Text → ℤ → Text
  -- `memcpy (msg, "\n", 1)` before the text
  line : Text → Text
