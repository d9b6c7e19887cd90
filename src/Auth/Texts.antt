-- ===== src/Auth/Texts.antt =====
-- The prompts of lib/src/auth/text.c beside those of misc/pam-module/auth/sfa.c, and their races.
use lingmo_authenticate.Common.{
  ℕ, ◌≡◌, ◌↔◌, refl, ℤ, pos, int_sub, ◌==ℤ◌, true, false, inl, inr, ◌&&◌, Bool-cases, Option-cases,
  ltb_ℤ, if◌then◌else◌, Option, none, some, Bytes, arith,
}
use lingmo_authenticate.Pam.Codes.{Text, line, tr_int, tr_text, at_iris}
use lingmo_authenticate.Pam.Limit.{minutes_of}
use lingmo_authenticate.Pam.Types.{type_to_tr}
use lingmo_authenticate.Pam.Sfa.{chances_text, own_line}
use lingmo_authenticate.Auth.Limits.{
  Env, DaProxy, DaLimitInfo, get_limit_info_priv, is_valid_auth_flag, auth_flag_password,
}
use lingmo_authenticate.Auth.Prompt.{
  retry_text, da_get_lock_info, get_limit_prompt, resolve_limit_time, da_get_fail_prompt,
  retry_info, fail_text, locked_text,
}
use lingmo_authenticate.Auth.Prompt

-- Of the two modules' names for a method only that of the iris differs.
names_agree : (a : ℤ) → (a ==ℤ at_iris) ≡ false → Prompt.type_to_tr a ≡ type_to_tr a
unfolding Prompt.type_to_tr type_to_tr
names_agree a h = ground (arith, h)

-- For every method but the iris, the text of the library for the chances that are left is that of
-- the PAM module without a terminal.
pub retry_text-chances_text :
    (auth_flag retry_cnt : ℤ)
    → (auth_flag ==ℤ at_iris) ≡ false
    → retry_text auth_flag retry_cnt ≡ chances_text false auth_flag retry_cnt
unfolding retry_text chances_text own_line
retry_text-chances_text auth_flag retry_cnt h =
    let same = names_agree auth_flag h in ground (arith, same)

-- A limit whose time can be read gives a prompt exactly if it is locked.
limit_prompt_lem :
    (env : Env) (l : DaLimitInfo) (t : Bytes) (n : ℕ)
    → l.unlock_time ≡ some t
    → (out : Option Text) × (get_limit_prompt env l n ≡ some (out, n))
      × ((out ≡ none) ↔ (l.locked ≡ false))
unfolding get_limit_prompt resolve_limit_time
limit_prompt_lem env l t n time =
    let minutes = minutes_of (env.seconds_until n t) in
    let words =
      if ltb_ℤ (pos 1) minutes
      then tr_int "Please try again %d minutes later" minutes
      else tr_int "Please try again %d minute later" minutes in
    elim (Bool-cases l.locked) [
      | inl shut ↦ (some words, ground (arith, time, shut), ground (arith, shut))
      | inr free ↦ (none, ground (arith, free), ground (arith, free))
    ]

lock_info_lem :
    (env : Env) (proxy : DaProxy) (name : Option Bytes) (l : DaLimitInfo) (t : Bytes) (a : ℤ)
    (k n : ℕ)
    → get_limit_info_priv env proxy name a k ≡ some (some l, n)
    → l.unlock_time ≡ some t
    → (out : Option Text) × (da_get_lock_info env proxy name a k ≡ some (out, n))
      × ((out ≡ none) ↔ (l.locked ≡ false))
unfolding da_get_lock_info
lock_info_lem env proxy name l t a k n h time =
    let (out, e, iff) = limit_prompt_lem env l t n time in (out, ground (arith, h, e), iff)

-- The locked text of a password is that of the answer to a second call.
locked_text_lem :
    (env : Env) (proxy : DaProxy) (name : Option Bytes) (l : DaLimitInfo) (t : Bytes) (k n : ℕ)
    → get_limit_info_priv env proxy name auth_flag_password k ≡ some (some l, n)
    → l.unlock_time ≡ some t
    → (out : Option Text) × (locked_text env proxy name auth_flag_password k ≡ some (out, n))
      × ((out ≡ none) ↔ (l.locked ≡ false))
unfolding locked_text
locked_text_lem env proxy name l t k n h time =
    let (b, e, iff) = lock_info_lem env proxy name l t auth_flag_password k n h time in
    elim (Option-cases b) [
      | inl z ↦ (none, ground (arith, e, z), (λ q. iff.0 z, λ q. refl))
      | inr (p, z) ↦
          (some (tr_text "Password locked, %s" p), ground (arith, e, z), ground (arith, iff, z))
    ]

-- The prompt is there exactly if there is information on the retries.
fail_prompt_lem :
    (env : Env) (proxy : DaProxy) (b : Option Text) (k n : ℕ)
    → retry_info env proxy auth_flag_password k ≡ some (b, n)
    → (out : Option Text) × (da_get_fail_prompt env (some proxy) auth_flag_password true k
        ≡ some (out, n))
      × ((out ≡ none) ↔ (b ≡ none))
unfolding da_get_fail_prompt is_valid_auth_flag
fail_prompt_lem env proxy none k n h = (none, ground (arith, h), (λ q. q, λ q. q))
fail_prompt_lem env proxy (some t) k n h = (
  some (if env.tty && Prompt.is_input_type auth_flag_password then line t else t),
  ground (arith, h),
  ground arith,
)

-- When the service answers first that the password is locked and its tries are counted,
-- `da_get_fail_prompt` asks the service again. With an answer that has a readable unlock time, it
-- returns -1 without a prompt exactly if the password is not locked in that second answer.
pub da_get_fail_prompt-locked_password :
    (env : Env) (proxy : DaProxy) (first second : DaLimitInfo) (t : Bytes) (left : ℤ) (k m n : ℕ)
    → get_limit_info_priv env proxy proxy.username auth_flag_password k ≡ some (some first, m)
    → first.locked ≡ true
    → (first.max_tries ==ℤ pos 0) ≡ false
    → int_sub first.max_tries first.fail_num ≡ some left
    → get_limit_info_priv env proxy proxy.username auth_flag_password m ≡ some (some second, n)
    → second.unlock_time ≡ some t
    → (out : Option Text) × (da_get_fail_prompt env (some proxy) auth_flag_password true k
        ≡ some (out, n))
      × ((out ≡ none) ↔ (second.locked ≡ false))
unfolding retry_info fail_text
da_get_fail_prompt-locked_password env proxy first second t left k m n h locked counted sub h2
      time =
    let (b, e, iff) = locked_text_lem env proxy proxy.username second t m n h2 time in
    let r : retry_info env proxy auth_flag_password k ≡ some (b, n) =
      ground (arith, h, locked, counted, sub, e) in
    let (out, f, g) = fail_prompt_lem env proxy b k n r in
    (out, f, (λ q. iff.0 (g.0 q), λ q. g.1 (iff.1 q)))
