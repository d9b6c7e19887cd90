-- ===== src/Pam/Protocol/Failed.antt =====
-- The failures that the single-factor mode of misc/pam-module/auth/sfa.c holds, and their report.
use native.Mathlib.Numerals.{add-one}
use lingmo_authenticate.Common.{
  ℕ, ◌+◌, ◌≤◌, ◌<◌, ◌≡◌, ◌⊎◌, inl, inr, refl, ap, ◌∙◌, ℤ, false, some, List, [], ◌∷◌, ◌++◌, arith,
  Bool-cases, Option-cases, leb, get_elem?, length, set, length-set, length-append,
}
use lingmo_authenticate.Pam.Codes.{Ret, Style, Text}
use lingmo_authenticate.Pam.State.{
  Env, Call, Limit, AuthSession, UserData, send, emit, set_need_cancel,
}
use lingmo_authenticate.Pam.Sfa.{
  record_failure, fail_type, report_failure, sfa_report, failure_text,
}
use lingmo_authenticate.Pam.Types.{type_to_index}
use lingmo_authenticate.Pam.SfaFail.{recorded, reported, take-set, fail_type-reported}
use lingmo_authenticate.Pam.Limits.{get_limits_info}
use lingmo_authenticate.Pam.Limits.Store.{KeepsRest, get_limits_info-KeepsRest}
use lingmo_authenticate.Pam.Protocol.Handlers.{Keeps}

-- The data holds these failures, in their order.
pub record HasFailed (ctrl : AuthSession) (failed : List ℤ) (s : UserData) : Type 0 where
  pub open_session : s.auth_ctrl ≡ some ctrl
  pub room : length s.failed_indexs ≡ 7
  pub count : s.failed_num ≡ length failed
  pub few : length failed ≤ 7
  pub these : recorded s ≡ failed

pub Keeps-HasFailed :
    (ctrl : AuthSession) (failed : List ℤ) (s t : UserData)
    → HasFailed ctrl failed s
    → Keeps s t
    → HasFailed ctrl failed t
Keeps-HasFailed ctrl failed s t h (e, _) = record {
  open_session = ap (λ (u : UserData). u.auth_ctrl) e ∙ h.open_session;
  room = ap (λ (u : UserData). length u.failed_indexs) e ∙ h.room;
  count = ap (λ (u : UserData). u.failed_num) e ∙ h.count;
  few = h.few;
  these = ap recorded e ∙ h.these;
}

-- Reading the limits keeps the failures.
pub limits_read-HasFailed :
    (ctrl : AuthSession) (failed : List ℤ) (s t : UserData)
    → HasFailed ctrl failed s
    → KeepsRest s t
    → HasFailed ctrl failed t
limits_read-HasFailed ctrl failed s t h kept = record {
  open_session = ap (λ (v : UserData). v.auth_ctrl) kept.rest ∙ h.open_session;
  room = ap (λ (v : UserData). length v.failed_indexs) kept.rest ∙ h.room;
  count = ap (λ (v : UserData). v.failed_num) kept.rest ∙ h.count;
  few = h.few;
  these = ap recorded kept.rest ∙ h.these;
}

-- A failure is recorded only where there is room for it.
pub record_failure-HasFailed :
    (ctrl : AuthSession) (failed : List ℤ) (a : ℤ) (s t : UserData)
    → HasFailed ctrl failed s
    → record_failure a s ≡ some (tt, t)
    → HasFailed ctrl (failed ++ (a ∷ [])) t
unfolding record_failure
record_failure-HasFailed ctrl failed a s t h e =
    let c = h.open_session in
    let room = h.room in
    let n = h.count in
    let less : s.failed_num < 7 = ground (arith, e, room) in
    let same : t ≡ record s {
      failed_indexs = set s.failed_indexs s.failed_num a;
      failed_num = s.failed_num + 1;
    } =
      ground (arith, e) in
    let len = length-append failed (a ∷ []) in
    rw same (record {
      open_session = c;
      room = length-set s.failed_indexs s.failed_num a ∙ room;
      count = omega (arith, n, len);
      few = omega (arith, n, len, less);
      these =
          rw add-one (take-set s.failed_indexs s.failed_num a (omega (arith, less, room)))
          ∙ ap (λ l. l ++ (a ∷ [])) h.these;
    })

module _ (env : Env) where
  failure_text-state :
      (a : ℤ) (limit : Limit) (s t : UserData) (text : Text)
      → failure_text env a limit s ≡ some (text, t)
      → t ≡ s
  unfolding failure_text
  failure_text-state a limit s t text h = ground (arith, h)

  -- What the module reports on the failure of all methods: the message for the limit of the method to
  -- report, after the limits were read, if that method has one.
  abbrev pub IsReport : List ℤ → UserData → UserData → Type 0
  IsReport failed u t =
      (i : ℕ) × (type_to_index (reported failed) ≡ some i)
      × (((7 ≤ i) × (t ≡ u))
          ⊎ ((limit : Limit) × (text : Text) × (get_elem? u.limits i ≡ some limit)
              × (failure_text env (reported failed) limit u ≡ some (text, u))
              × (t ≡ record u { calls = Call.send_msg text Style.error_msg ∷ u.calls })))

  pub reported-HasFailed :
      (ctrl : AuthSession) (failed : List ℤ) (u t : UserData)
      → HasFailed ctrl failed u
      → IsReport failed u t
      → HasFailed ctrl failed t
  reported-HasFailed ctrl failed u t h (i, g, inl (out, same)) = rw same h
  reported-HasFailed ctrl failed u t h (i, g, inr (limit, text, l, q, same)) = rw same (
      Keeps-HasFailed ctrl failed u
        (record u { calls = Call.send_msg text Style.error_msg ∷ u.calls }) h (refl, refl))

  report_failure-IsReport :
      (failed : List ℤ) (u t : UserData) (r : Ret)
      → fail_type u.failed_num u.failed_indexs ≡ some (reported failed)
      → report_failure env u ≡ some (r, t)
      → (r ≡ Ret.auth_err) × IsReport failed u t
  unfolding report_failure send emit
  report_failure-IsReport failed u t r found e =
      elim (Option-cases (type_to_index (reported failed))) [
        | inl g ↦ absurd (ground (arith, e, found, g))
        | inr (i, g) ↦ elim (Bool-cases (leb 7 i)) [
          | inl out ↦ (
            ground (arith, e, found, g, out),
            (i, g, inl (ground (arith, out), ground (arith, e, found, g, out))),
          )
          | inr within ↦ elim (Option-cases (get_elem? u.limits i)) [
            | inl l ↦ absurd (ground (arith, e, found, g, within, l))
            | inr (limit, l) ↦ elim (Option-cases (failure_text env (reported failed) limit u)) [
              | inl q ↦ absurd (ground (arith, e, found, g, within, l, q))
              | inr ((text, v), q) ↦
                  let same = failure_text-state (reported failed) limit u v text q in
                  let told = q ∙ ap (λ w. some (text, w)) same in
                  (
                    ground (arith, e, found, g, within, l, told),
                    (
                      i,
                      g,
                      inr (limit, text, l, told, ground (arith, e, found, g, within, l, told)),
                    ),
                  )
            ]
          ]
        ]
      ]

  -- On the failure of all methods the single-factor mode reads the limits again, and then tells the user
  -- the limit of one method, if that method has one: of the password if it failed too, else of the first
  -- that failed. The result is PAM_AUTH_ERR, and the failures stay as they were recorded.
  pub sfa_report-IsReport :
      (ctrl : AuthSession) (failed : List ℤ) (s t : UserData) (r : Ret)
      → HasFailed ctrl failed s
      → sfa_report env s ≡ some (r, t)
      → (r ≡ Ret.auth_err)
        × ((u : UserData) × (get_limits_info env (record s { need_cancel = false }) ≡ some (tt, u))
            × HasFailed ctrl failed u
            × IsReport failed u t)
  unfolding sfa_report set_need_cancel
  sfa_report-IsReport ctrl failed s t r h e =
      let free : UserData = record s { need_cancel = false } in
      elim (Option-cases (get_limits_info env free)) [
        | inl f ↦ absurd (ground (arith, e, f))
        | inr ((_, u), f) ↦
            let before = Keeps-HasFailed ctrl failed s free h (refl, refl) in
            let at =
              limits_read-HasFailed ctrl failed free u before
                (get_limits_info-KeepsRest env free u f) in
            let found =
              fail_type-reported u.failed_num u.failed_indexs
                (omega (arith, at.count, at.few, at.room))
              ∙ ap (λ l. some (reported l)) at.these in
            let (p, told) = report_failure-IsReport failed u t r found (ground (arith, e, f)) in
            (p, (u, f, at, told))
      ]
