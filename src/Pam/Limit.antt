-- ===== src/Pam/Limit.antt =====
-- misc/pam-module/auth/limit.c: the lock of an authentication method as a prompt.
use lingmo_authenticate.Common.{
  ℕ, ◌+◌, ◌-◌, ◌*◌, ◌/◌, ◌^◌, ◌≤◌, ◌<◌, ◌≡◌, ◌↔◌, ap, ℤ, pos, to_int, ltb_ℤ, true, false, Option,
  none, some, List, if◌then◌else◌, arith,
}
use lingmo_authenticate.Pam.Codes.{Ret, Text, tr_int}
use lingmo_authenticate.Pam.State.{Env, Limit, Call}

-- `wait` is the difference as a long long; the quotient is then converted to int.
unfoldable pub minutes_of : Option ℕ → ℤ
unfolding to_int
minutes_of none = pos 0
minutes_of (some wait) = to_int ((wait + 59) / 60)

-- The prompt that is written to `buff`, if one is.
unfoldable pub limit_prompt : Option ℕ → Limit → Ret × Option Text
unfolding minutes_of
limit_prompt wait limit =
    let minutes = minutes_of wait in
    if limit.locked
    then (
      Ret.maxtries,
      some (
          if ltb_ℤ (pos 1) minutes
          then tr_int "Please try again %d minutes later" minutes
          else tr_int "Please try again %d minute later" minutes),
    )
    else (Ret.success, none)

unfoldable pub get_limit_prompt : Env → List Call → Limit → Ret × Option Text
unfolding limit_prompt
get_limit_prompt env calls limit = limit_prompt (env.seconds_until limit.unlock_time calls) limit

to_int_small : (n : ℕ) → n < 2 ^ 31 → to_int n ≡ pos n
unfolding to_int
to_int_small n h = ground arith

pos_inj : (m n : ℕ) → pos m ≡ pos n → m ≡ n
pos_inj m n h = ground arith

-- The minutes are the least number that covers the wait, unless their number passes INT_MAX.
pub minutes_of-least :
    (wait n : ℕ)
    → wait ≤ 60 * (2 ^ 31 - 1)
    → (minutes_of (some wait) ≡ pos n) ↔ ((wait ≤ 60 * n) × ((k : ℕ) → wait ≤ 60 * k → n ≤ k))
unfolding minutes_of
minutes_of-least wait n h =
    let m = (wait + 59) / 60 in
    let e : to_int m ≡ pos m = to_int_small m (omega arith) in
    rw e (
      λ q. let same = pos_inj m n q in (omega arith, λ k g. omega arith),
      λ c. let least = c.1 m (omega arith) in ap pos (omega (arith, c.0)),
    )

-- A method that is not locked returns PAM_SUCCESS, and a locked one PAM_MAXTRIES.
pub limit_prompt_lem :
    (wait : Option ℕ) (limit : Limit)
    → let (ret, prompt) = limit_prompt wait limit in
      ((ret ≡ Ret.success) ↔ (limit.locked ≡ false))
      × ((ret ≡ Ret.maxtries) ↔ (limit.locked ≡ true))
unfolding limit_prompt
limit_prompt_lem wait limit = ground arith
