-- ===== src/Auth/Prompt.antt =====
-- The prompts of lib/src/auth/text.c.
use lingmo_authenticate.Common.{
  ℕ, ◌||◌, ◌&&◌, ℤ, pos, int_sub, ltb_ℤ, ◌==ℤ◌, Bool, true, false, not, Option, none, some, [], ◌∷◌,
  Bytes, ◌==◌, if◌then◌else◌, M, ◌>>=◌, pure, access,
}
use lingmo_authenticate.Pam.Codes.{Text, tr, tr_int, tr_text, tr_text_int, line}
use lingmo_authenticate.Pam.Limit.{minutes_of}
use lingmo_authenticate.Auth.Limits.{
  Env, DaProxy, DaLimitInfo, get_limit_info_priv, is_valid_auth_flag, auth_flag_password,
  auth_flag_fingerprint, auth_flag_face, auth_flag_ad, auth_flag_ukey,
}

unfoldable pub type_to_tr : ℤ → Text
type_to_tr auth_flag =
    if auth_flag ==ℤ auth_flag_fingerprint
    then tr "Fingerprint"
    else if auth_flag ==ℤ auth_flag_face
    then tr "Face recognition"
    else if auth_flag ==ℤ auth_flag_ad
    then tr "ActiveDirectory"
    else if auth_flag ==ℤ auth_flag_ukey
    then tr "PIN"
    else tr "Unknown"

unfoldable pub is_input_type : ℤ → Bool
is_input_type auth_type =
    if auth_type ==ℤ auth_flag_password
      || auth_type ==ℤ auth_flag_ukey
      || auth_type ==ℤ auth_flag_ad
    then true
    else false

-- `str_trim` of a string that is not null: the characters other than `c`.
unfoldable pub str_trim : Bytes → ℕ → Bytes
str_trim [] c = []
str_trim (x ∷ str) c = let s = str_trim str c in if x == c then s else x ∷ s

-- The texts of `da_get_fail_prompt` and those of a password.
unfoldable pub failed_text : ℤ → Text
failed_text auth_flag =
    if auth_flag ==ℤ auth_flag_password
    then tr "Password verification failed"
    else tr_text "%s verification failed" (type_to_tr auth_flag)

unfoldable pub retry_text : ℤ → ℤ → Text
retry_text auth_flag retry_cnt =
    if ltb_ℤ (pos 1) retry_cnt
    then (if auth_flag ==ℤ auth_flag_password
        then tr_int "Password verification failed, %d chances left" retry_cnt
        else tr_text_int "%s verification failed, %d chances left" (type_to_tr auth_flag) retry_cnt)
    else (if auth_flag ==ℤ auth_flag_password
        then tr "Password verification failed, only one chance left"
        else tr_text "%s verification failed, only one chance left" (type_to_tr auth_flag))

-- The newline before the text.
abbrev escaped : Bool → Text → Text
escaped append_escape t = if append_escape then line t else t

module _ (env : Env) where
  -- To read a text that was never copied is undefined.
  unfoldable pub resolve_limit_time : DaLimitInfo → M ℕ ℤ
  resolve_limit_time limit k = elim limit.unlock_time [
    | none ↦ none
    | some t ↦ some (minutes_of (env.seconds_until k t), k)
  ]

  unfoldable pub get_limit_prompt : DaLimitInfo → M ℕ (Option Text)
  get_limit_prompt limit =
      if limit.locked
      then (do
        minutes ← resolve_limit_time limit
        pure (
            some (
              if ltb_ℤ (pos 1) minutes
              then tr_int "Please try again %d minutes later" minutes
              else tr_int "Please try again %d minute later" minutes)))
      else pure none

  -- `none` is the return value -1.
  unfoldable pub da_get_lock_info : DaProxy → Option Bytes → ℤ → M ℕ (Option Text)
  da_get_lock_info proxy username auth_type = do
    spec_limit ← get_limit_info_priv env proxy username auth_type
    elim spec_limit [ none ↦ pure none | some l ↦ get_limit_prompt l ]

  unfoldable pub locked_text : DaProxy → Option Bytes → ℤ → M ℕ (Option Text)
  locked_text proxy username auth_flag =
      if auth_flag ==ℤ auth_flag_password
      then (do
        limit_buff ← da_get_lock_info proxy username auth_flag
        pure (elim limit_buff [ none ↦ none | some b ↦ some (tr_text "Password locked, %s" b) ]))
      else pure (some (tr_text "%s locked, use password please" (type_to_tr auth_flag)))

  -- The prompt of a limit; an overflow of the subtraction is undefined.
  unfoldable pub fail_text : DaProxy → Option Bytes → ℤ → DaLimitInfo → M ℕ (Option Text)
  fail_text proxy username auth_flag l = do
    retry_cnt ← access (int_sub l.max_tries l.fail_num)
    if l.max_tries ==ℤ pos 0
        then pure (some (failed_text auth_flag))
        else if l.locked
        then locked_text proxy username auth_flag
        else pure (some (retry_text auth_flag retry_cnt))

  unfoldable pub retry_info : DaProxy → ℤ → M ℕ (Option Text)
  retry_info proxy auth_flag = do
    spec_limit ← get_limit_info_priv env proxy proxy.username auth_flag
    elim spec_limit [ none ↦ pure none | some l ↦ fail_text proxy proxy.username auth_flag l ]

  unfoldable pub da_get_fail_prompt : Option DaProxy → ℤ → Bool → M ℕ (Option Text)
  da_get_fail_prompt none auth_flag with_retry_info = pure none
  da_get_fail_prompt (some proxy) auth_flag with_retry_info =
      let append_escape = env.tty && is_input_type auth_flag in
      if not (is_valid_auth_flag auth_flag)
      then pure none
      else (if not with_retry_info
          then pure (some (escaped append_escape (failed_text auth_flag)))
          else (do
            out ← retry_info proxy auth_flag
            pure (elim out [ none ↦ none | some t ↦ some (escaped append_escape t) ])))
