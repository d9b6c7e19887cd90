-- ===== src/Examples/Session.antt =====
-- Sessions of misc/pam-module/auth at concrete users and surroundings.
use mathlib.Core.Path.{subst}
use lingmo_authenticate.Common.{
  ℕ, zero, suc, ◌<◌, ◌≤◌, ◌≡◌, ◌≢◌, refl, ap, ℤ, pos, minus_one, true, false, none, some, List, [],
  ◌∷◌, codes, replicate, arith, get_elem?, sym, ◌∙◌,
}
use lingmo_authenticate.Pam.Codes.{Ret}
use lingmo_authenticate.Pam.State.{Env, Call, AuthFactor, AuthSession, UserData, no_limit}
use lingmo_authenticate.Pam.Factors.{
  resolve_authctrl_factors, sort_loop, sort_step, find_max, swap, range,
}
use lingmo_authenticate.Pam.Factors.Sort.{IsOrdered, resolve_authctrl_factors-IsOrdered}
use lingmo_authenticate.Pam.Mfa.{ordered_type}
use lingmo_authenticate.Pam.SfaFail.{deal_failures, deal_failures_lem, recorded}
use lingmo_authenticate.Pam.Sfa.{fail_type}
use lingmo_authenticate.Pam.Loop.{BusEvent, bus_loop}
use lingmo_authenticate.Pam.MfaRun.{mfa_run, successes, starts}

abbrev pub password_factor : AuthFactor
password_factor = record {
  auth_type = pos 1;
  priority = pos 1;
  input_type = pos 1;
  required = pos 1;
}

abbrev pub finger_factor : AuthFactor
finger_factor = record { auth_type = pos 2; priority = pos 5; input_type = pos 0; required = pos 1 }

abbrev pub quiet_env : Env
quiet_env = record {
  fails = λ cs. false;
  unreadable = λ cs. false;
  reply = λ cs. codes "[]";
  no_thread = λ cs. true;
  new_thread = λ cs. 1;
  seconds_until = λ t cs. some 90;
  reply_int = λ cs. pos 3;
  reply_more = λ cs. some (pos 5);
  reply_factors = λ cs. some (password_factor ∷ finger_factor ∷ []);
  aes = record {
    accepts = λ key. true;
    cbc_encrypt = λ key iv blocks. blocks;
    cbc_decrypt = λ key iv blocks. blocks;
  };
  reads_key = λ text. true;
  rsa_encrypt = λ key text. some text;
  rand = λ cs. 42;
  Json = ℕ;
  parse = λ t. some 2;
  get_ex = λ j name. (true, j);
  get_int = λ j. pos j;
  get_boolean = λ j. false;
  get_string = λ j. some (codes "2024-01-01T00:00:00Z");
  array_length = λ j. 1;
  get_idx = λ j i. j;
}

abbrev pub two_factors : AuthSession
two_factors = record {
  is_mfa = true;
  factor_size = 2;
  factor_order = 1 ∷ 0 ∷ [];
  factors = password_factor ∷ finger_factor ∷ [];
}

abbrev pub user : UserData
user = record {
  bus = true;
  term = false;
  path = codes "/s";
  username = codes "uos";
  prompt = [];
  auth_tok = none;
  pid = 0;
  cur_type = pos 2;
  need_cancel = false;
  limits = replicate 7 no_limit;
  failed_indexs = replicate 7 (pos 0);
  failed_num = 0;
  auth_ctrl = some two_factors;
  res = Ret.pending;
  waiting_result = false;
  get_result_val = minus_one;
  key = none;
  symmetric_key = none;
  calls = Call.start (codes "/s") (pos 2) minus_one ∷ [];
}

-- The fingerprint has the greater priority.
sorted : resolve_authctrl_factors true (password_factor ∷ finger_factor ∷ []) ≡ some two_factors
unfolding resolve_authctrl_factors sort_loop sort_step find_max swap range
sorted = refl

some_inj : (x y : AuthSession) → some x ≡ some y → x ≡ y
some_inj x y h = ground arith

pub two_factors-IsOrdered : IsOrdered two_factors
two_factors-IsOrdered =
    let (ctrl, e, _, _, o) =
      resolve_authctrl_factors-IsOrdered true (password_factor ∷ finger_factor ∷ []) in
    subst IsOrdered (some_inj ctrl two_factors (sym e ∙ sorted)) o

types_of : (j : ℕ) → ordered_type two_factors j ≡ get_elem? (pos 2 ∷ pos 1 ∷ []) j
unfolding ordered_type
types_of zero = refl
types_of (suc zero) = refl
types_of (suc (suc j)) = refl

no_session_type : (q : ℕ) → ordered_type two_factors q ≢ some minus_one
unfolding ordered_type
no_session_type zero h = ground arith
no_session_type (suc zero) h = ground arith
no_session_type (suc (suc q)) h = ground arith

pub distinct :
    (p q : ℕ) (x : ℤ)
    → p < q
    → q < 2
    → ordered_type two_factors p ≡ some x
    → ordered_type two_factors q ≢ some x
distinct p q x less below e f =
    let first : p ≡ 0 = omega arith in
    let second : q ≡ 1 = omega arith in
    let e' = sym (types_of 0) ∙ ap (λ k. ordered_type two_factors k) (sym first) ∙ e in
    let f' = sym (types_of 1) ∙ ap (λ k. ordered_type two_factors k) (sym second) ∙ f in
    ground (arith, e', f')

abbrev pub two_successes : List BusEvent
two_successes = successes (codes "/s") [] (pos 2 ∷ pos 1 ∷ [])

pub two_run :
    (t : UserData) × (bus_loop quiet_env two_successes user ≡ some (tt, t))
    × (t.res ≡ Ret.success)
    × (starts t.calls ≡ pos 1 ∷ pos 2 ∷ [])
two_run =
    mfa_run quiet_env two_factors (codes "/s") [] (pos 2) (pos 1 ∷ []) user (omega arith) refl
      (λ cs. (refl, refl)) two_factors-IsOrdered no_session_type distinct types_of refl refl refl
      refl refl

mfa_run_example :
    (t : UserData) × (bus_loop quiet_env two_successes user ≡ some (tt, t))
    × (t.res ≡ Ret.success)
    × (starts t.calls ≡ pos 1 ∷ pos 2 ∷ [])
mfa_run_example =
    mfa_run quiet_env two_factors (codes "/s") [] (pos 2) (pos 1 ∷ []) user (omega arith) refl
      (λ cs. (refl, refl)) two_factors-IsOrdered no_session_type distinct types_of refl refl refl
      refl refl

resolve_authctrl_factors-IsOrdered_example :
    (ctrl : AuthSession) × (resolve_authctrl_factors true (password_factor ∷ finger_factor ∷ [])
      ≡ some ctrl)
    × (ctrl.factors ≡ password_factor ∷ finger_factor ∷ [])
    × (ctrl.is_mfa ≡ true)
    × IsOrdered ctrl
resolve_authctrl_factors-IsOrdered_example =
    resolve_authctrl_factors-IsOrdered true (password_factor ∷ finger_factor ∷ [])

abbrev two_failures : List ℤ
two_failures = pos 2 ∷ pos 1 ∷ []

deal_failures_lem_example :
    (2 ≤ 7
      → (t : UserData) × (deal_failures quiet_env [] two_failures user ≡ some (tt, t))
        × (recorded t ≡ two_failures)
        × (fail_type t.failed_num t.failed_indexs ≡ some (pos 1)))
    × (7 < 2 → deal_failures quiet_env [] two_failures user ≡ none)
deal_failures_lem_example =
    deal_failures_lem quiet_env [] two_failures user (λ e. ground arith, (λ e. ground arith, tt))
      refl refl
