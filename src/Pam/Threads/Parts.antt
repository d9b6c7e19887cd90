-- ===== src/Pam/Threads/Parts.antt =====
-- What the parts of the signal handlers of misc/pam-module/auth leave to the token thread.
use lingmo_authenticate.Common.{
  ℕ, ◌≡◌, refl, inl, inr, ap, ◌∙◌, ℤ, minus_one, ◌==ℤ◌, Bool, true, false, Option, some, Bytes,
  arith, Bool-cases, Option-cases, ◌++◌, ◌+◌, ◌==◌, ◌&&◌, ◌||◌, not, codes, if◌then◌else◌,
  get_elem?, leb,
}
use lingmo_authenticate.Pam.Codes.{Ret, support_at_type, Style, Text}
use lingmo_authenticate.Pam.Types.{type_to_index}
use lingmo_authenticate.Pam.State.{
  Env, Limit, UserData, emit, send, copy_into, copy_into-some, max_buf_size, set_need_cancel,
}
use lingmo_authenticate.Pam.Limits.{get_limits_info}
use lingmo_authenticate.Pam.Limits.Store.{get_limits_info-KeepsRest}
use lingmo_authenticate.Pam.Verify.{resolve_verify_msg}
use lingmo_authenticate.Pam.Dbus.{dbus_method_start, dbus_method_end}
use lingmo_authenticate.Pam.Sfa.{
  record_failure, fail_type, failure_text, report_failure, sfa_report, sfa_verify, sfa_prompt,
}
use lingmo_authenticate.Pam.Mfa.{
  mfa_start_verify, find_current, mfa_prompt_text, mfa_next, mfa_verify, mfa_prompt,
}
use lingmo_authenticate.Pam.Token.{thread_busy, create_thread}

-- What the token thread waits for, and the public key.
pub record KeepsWait (s t : UserData) : Type 0 where
  pub flag : t.waiting_result ≡ s.waiting_result
  pub value : t.get_result_val ≡ s.get_result_val
  pub key : t.key ≡ s.key

pub KeepsWait-trans : {s t u : UserData} → KeepsWait s t → KeepsWait t u → KeepsWait s u
KeepsWait-trans h k = record {
  flag = k.flag ∙ h.flag;
  value = k.value ∙ h.value;
  key = k.key ∙ h.key;
}

module _ (env : Env) (s t : UserData) where
  pub get_limits_info-wait : get_limits_info env s ≡ some (tt, t) → KeepsWait s t
  get_limits_info-wait h =
      let kept = get_limits_info-KeepsRest env s t h in
      record {
        flag = ap (λ (x : UserData). x.waiting_result) kept.rest;
        value = ap (λ (x : UserData). x.get_result_val) kept.rest;
        key = ap (λ (x : UserData). x.key) kept.rest;
      }

  pub verify_msg-wait :
      (m : Bytes) (o : Option (Style × Text))
      → resolve_verify_msg env m s ≡ some (o, t)
      → KeepsWait s t
  unfolding resolve_verify_msg
  verify_msg-wait m o h = record {
    flag = ground (arith, h);
    value = ground (arith, h);
    key = ground (arith, h);
  }

  pub mfa_start_verify-wait :
      {r : Ret} (i : ℕ) (a : ℤ) → mfa_start_verify env i a s ≡ some (r, t) → KeepsWait s t
  unfolding mfa_start_verify dbus_method_start emit
  mfa_start_verify-wait i a h = record {
    flag = ground (arith, h);
    value = ground (arith, h);
    key = ground (arith, h);
  }

  pub create_thread-wait :
      {r : Ret} (m : Bytes) → create_thread env m s ≡ some (r, t) → KeepsWait s t
  unfolding create_thread emit
  create_thread-wait m h = elim (Option-cases (copy_into max_buf_size m s)) [
    | inl e ↦ absurd (ground (arith, h, e))
    | inr ((out, u), e) ↦
        let (_, same) = copy_into-some max_buf_size m out s u e in
        record {
          flag = ground (arith, h, e, same);
          value = ground (arith, h, e, same);
          key = ground (arith, h, e, same);
        }
  ]

  pub thread_busy-wait : (b : Bool) → thread_busy env s ≡ some (b, t) → KeepsWait s t
  unfolding thread_busy emit
  thread_busy-wait b h = record {
    flag = ground (arith, h);
    value = ground (arith, h);
    key = ground (arith, h);
  }

  pub failure_text-wait :
      (a : ℤ) (limit : Limit) (text : Text)
      → failure_text env a limit s ≡ some (text, t)
      → KeepsWait s t
  unfolding failure_text
  failure_text-wait a limit text h = record {
    flag = ground (arith, h);
    value = ground (arith, h);
    key = ground (arith, h);
  }

module _ (env : Env) (s t : UserData) where
  pub record_failure-wait : (a : ℤ) → record_failure a s ≡ some (tt, t) → KeepsWait s t
  unfolding record_failure
  record_failure-wait a h = record {
    flag = ground (arith, h);
    value = ground (arith, h);
    key = ground (arith, h);
  }

  pub sfa_prompt-wait : {r : Ret} (m : Bytes) → sfa_prompt env m s ≡ some (r, t) → KeepsWait s t
  unfolding sfa_prompt
  sfa_prompt-wait {r} m h = elim (Option-cases (thread_busy env s)) [
    | inl e ↦ absurd (ground (arith, h, e))
    | inr ((true, u), e) ↦
        let same : u ≡ t = ground (arith, h, e) in rw (← same) (thread_busy-wait env s u true e)
    | inr ((false, u), e) ↦ KeepsWait-trans (thread_busy-wait env s u false e) (
        create_thread-wait env u t {r = r} (if u.term then m ++ codes ":" else m)
          (ground (arith, h, e)))
  ]

  pub sfa_verify-wait : {r : Ret} (m : Bytes) → sfa_verify env m s ≡ some (r, t) → KeepsWait s t
  unfolding sfa_verify send emit
  sfa_verify-wait m h = elim (Option-cases (resolve_verify_msg env m s)) [
    | inl e ↦ absurd (ground (arith, h, e))
    | inr ((o, u), e) ↦
        let k = verify_msg-wait env s u m o e in
        record {
          flag = ground (arith, h, e, k.flag);
          value = ground (arith, h, e, k.value);
          key = ground (arith, h, e, k.key);
        }
  ]

  pub mfa_verify-wait : {r : Ret} (m : Bytes) → mfa_verify env m s ≡ some (r, t) → KeepsWait s t
  unfolding mfa_verify send emit
  mfa_verify-wait m h = elim (Option-cases (resolve_verify_msg env m s)) [
    | inl e ↦ absurd (ground (arith, h, e))
    | inr ((o, u), e) ↦
        let k = verify_msg-wait env s u m o e in
        record {
          flag = ground (arith, h, e, k.flag);
          value = ground (arith, h, e, k.value);
          key = ground (arith, h, e, k.key);
        }
  ]

  pub mfa_end-wait :
      {b : Bool} (path : Bytes) (a : ℤ) → dbus_method_end env path a s ≡ some (b, t) → KeepsWait s t
  unfolding dbus_method_end emit
  mfa_end-wait path a h = record {
    flag = ground (arith, h);
    value = ground (arith, h);
    key = ground (arith, h);
  }

module _ (env : Env) (s t : UserData) where
  -- After the limits are read.
  pub sfa_report-wait : {r : Ret} → sfa_report env s ≡ some (r, t) → KeepsWait s t
  unfolding sfa_report report_failure send emit set_need_cancel
  sfa_report-wait h =
      let w = record s { need_cancel = false } in
      elim (Option-cases (get_limits_info env w)) [
        | inl e ↦ absurd (ground (arith, h, e))
        | inr ((_, u), e) ↦
            let k = get_limits_info-wait env w u e in
            elim (Option-cases (fail_type u.failed_num u.failed_indexs)) [
              | inl f ↦ absurd (ground (arith, h, e, f))
              | inr (a, f) ↦ elim (Option-cases (type_to_index a)) [
                | inl g ↦ absurd (ground (arith, h, e, f, g))
                | inr (i, g) ↦ elim (Bool-cases (leb support_at_type i)) [
                  | inl b ↦
                      let same : u ≡ t = ground (arith, h, e, f, g, b) in
                      record {
                        flag = ground (arith, k.flag, same);
                        value = ground (arith, k.value, same);
                        key = ground (arith, k.key, same);
                      }
                  | inr b ↦ elim (Option-cases (get_elem? u.limits i)) [
                    | inl l ↦ absurd (ground (arith, h, e, f, g, b, l))
                    | inr (limit, l) ↦ elim (Option-cases (failure_text env a limit u)) [
                      | inl x ↦ absurd (ground (arith, h, e, f, g, b, l, x))
                      | inr ((text, v), x) ↦
                          let n = failure_text-wait env u v a limit text x in
                          record {
                            flag = ground (arith, h, e, f, g, b, l, x, k.flag, n.flag);
                            value = ground (arith, h, e, f, g, b, l, x, k.value, n.value);
                            key = ground (arith, h, e, f, g, b, l, x, k.key, n.key);
                          }
                    ]
                  ]
                ]
              ]
            ]
      ]

  pub mfa_prompt-wait :
      {r : Ret} (a : ℤ) (m : Bytes) → mfa_prompt env a m s ≡ some (r, t) → KeepsWait s t
  unfolding mfa_prompt send emit
  mfa_prompt-wait {r} a m h = elim (Bool-cases (a ==ℤ s.cur_type && not (a ==ℤ minus_one))) [
    | inr c ↦ record {
      flag = ground (arith, h, c);
      value = ground (arith, h, c);
      key = ground (arith, h, c);
    }
    | inl c ↦ elim (Option-cases (thread_busy env s)) [
      | inl e ↦ absurd (ground (arith, h, c, e))
      | inr ((true, u), e) ↦
          let same : u ≡ t = ground (arith, h, c, e) in
          rw (← same) (thread_busy-wait env s u true e)
      | inr ((false, u), e) ↦ elim (Option-cases (mfa_prompt_text s.term a m)) [
        | inl f ↦ absurd (ground (arith, h, c, e, f))
        | inr (text, f) ↦
            KeepsWait-trans (thread_busy-wait env s u false e)
              (create_thread-wait env u t {r = r} text (ground (arith, h, c, e, f)))
      ]
    ]
  ]

module _ (env : Env) (s t : UserData) where
  pub mfa_next-wait : {r : Ret} (a : ℤ) → mfa_next env a s ≡ some (r, t) → KeepsWait s t
  unfolding mfa_next
  mfa_next-wait a h = elim (Option-cases s.auth_ctrl) [
    | inl c ↦ absurd (ground (arith, h, c))
    | inr (ctrl, c) ↦ elim (Option-cases (find_current ctrl s.cur_type ctrl.factor_size 0)) [
      | inl f ↦ absurd (ground (arith, h, c, f))
      | inr (i, f) ↦ elim (Bool-cases (i == ctrl.factor_size || i + 1 == ctrl.factor_size)) [
        | inl b ↦
            let same : s ≡ t = ground (arith, h, c, f, b) in
            rw (← same) (record { flag = refl; value = refl; key = refl })
        | inr b ↦ elim (Option-cases (dbus_method_end env s.path a s)) [
          | inl e ↦ absurd (ground (arith, h, c, f, b, e))
          | inr ((_, u), e) ↦ elim (Option-cases (mfa_start_verify env (i + 1) minus_one u)) [
            | inl g ↦ absurd (ground (arith, h, c, f, b, e, g))
            | inr ((r', v), g) ↦
                let same : v ≡ t = ground (arith, h, c, f, b, e, g) in
                rw (← same) (
                  KeepsWait-trans (mfa_end-wait env s u s.path a e)
                    (mfa_start_verify-wait env u v (i + 1) minus_one g))
          ]
        ]
      ]
    ]
  ]
