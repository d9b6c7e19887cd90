-- ===== src/Pam/MfaOrder.antt =====
-- The steps from one factor to the next in misc/pam-module/auth/mfa.c.
use native.Mathlib.Decide.{dec_lt}
use lingmo_authenticate.Common.{
  ℕ, zero, suc, ◌+◌, ◌≤◌, ◌<◌, ◌≡◌, ◌≢◌, ap, ◌∙◌, ℤ, minus_one, ==ℤ-refl, ==ℤ-eq, false, some, List,
  ◌∷◌, arith, ◌||◌, if◌then◌else◌, get_or, get_elem?-some_of_lt, get_elem?-eq-get_or,
}
use lingmo_authenticate.Pam.Codes.{Ret}
use lingmo_authenticate.Pam.State.{Env, Call, AuthSession, UserData}
use lingmo_authenticate.Pam.Dbus.{dbus_method_start, dbus_method_end}
use lingmo_authenticate.Pam.Mfa.{ordered_type, find_current, mfa_start_verify, mfa_next}
use lingmo_authenticate.Pam.Factors.Sort.{IsOrdered}

-- In a session as `resolve_authctrl_factors` leaves it, each position of the order names a factor.
pub ordered_type-some :
    (ctrl : AuthSession) (k : ℕ)
    → IsOrdered ctrl
    → k < ctrl.factor_size
    → (a : ℤ) × (ordered_type ctrl k ≡ some a)
unfolding ordered_type
ordered_type-some ctrl k o h =
    let idx = get_elem?-eq-get_or ctrl.factor_order k 0 (omega (arith, o.index_len)) in
    let (f, e) = get_elem?-some_of_lt ctrl.factors (get_or ctrl.factor_order k 0) (o.bounded k h) in
    (f.auth_type, ground (arith, idx, e))

-- The search stops at the first position that has the current type.
pub find_current-first :
    (ctrl : AuthSession) (cur : ℤ) (n j p : ℕ)
    → ((q : ℕ) → q < p → (a : ℤ) × (ordered_type ctrl q ≡ some a) × (a ≢ cur))
    → ordered_type ctrl p ≡ some cur
    → j ≤ p
    → p < j + n
    → find_current ctrl cur n j ≡ some p
unfolding find_current
find_current-first ctrl cur zero j p before e h k = absurd (omega arith)
find_current-first ctrl cur (suc n) j p before e h k = elim (dec_lt j p) [
  | yes less ↦
      let (a, f, ne) = before j less in
      ground (
        arith,
        ==ℤ-eq a cur,
        find_current-first ctrl cur n (j + 1) p before e (omega arith) (omega arith),
      )
  | no same ↦ let here : j ≡ p = omega arith in rw here (ground (arith, ==ℤ-refl cur))
]

-- Where the methods of the session differ, the search finds the position of each of them.
pub find_current_at :
    (ctrl : AuthSession)
    → IsOrdered ctrl
    → ((p q : ℕ) (x : ℤ)
        → p < q
        → q < ctrl.factor_size
        → ordered_type ctrl p ≡ some x
        → ordered_type ctrl q ≢ some x)
    → (a : ℤ) (k : ℕ) → k < ctrl.factor_size
    → ordered_type ctrl k ≡ some a
    → find_current ctrl a ctrl.factor_size 0 ≡ some k
find_current_at ctrl o distinct a k h e =
    find_current-first ctrl a ctrl.factor_size 0 k
      (λ q less.
        let (b, f) = ordered_type-some ctrl q o (omega arith) in
        (b, f, λ same. distinct q k a less h (f ∙ ap some same) e))
      e (omega arith) (omega arith)

module _ (env : Env) (s : UserData) (ctrl : AuthSession)
    (open_session : s.auth_ctrl ≡ some ctrl) where
  -- `mfa_start_verify` starts the factor at a position of the order and nothing else, and reports
  -- whether the service took the call; past the order it aborts and calls nothing.
  pub mfa_start_verify_lem :
      (index : ℕ) (timeout : ℤ)
      → IsOrdered ctrl
      → (ctrl.factor_size ≤ index → mfa_start_verify env index timeout s ≡ some (Ret.abort, s))
        × (index < ctrl.factor_size
            → (a : ℤ) × (ordered_type ctrl index ≡ some a)
              × (let calls = Call.start s.path a timeout ∷ s.calls in
                  mfa_start_verify env index timeout s
                  ≡ some (
                    if env.fails calls || env.unreadable calls then Ret.abort else Ret.success,
                    record s { cur_type = a; calls = calls },
                  )))
  unfolding mfa_start_verify dbus_method_start
  mfa_start_verify_lem index timeout o = (
    λ h. ground arith,
    λ h. let (a, e) = ordered_type-some ctrl index o h in (a, e, ground arith),
  )

  pub mfa_next-last :
      (a : ℤ) (k : ℕ)
      → find_current ctrl s.cur_type ctrl.factor_size 0 ≡ some k
      → k + 1 ≡ ctrl.factor_size
      → mfa_next env a s ≡ some (Ret.pending, s)
  unfolding mfa_next
  mfa_next-last a k e h = ground arith

  -- The next factor is started, whether or not the service takes the call.
  pub mfa_next-next :
      (a b : ℤ) (k : ℕ)
      → find_current ctrl s.cur_type ctrl.factor_size 0 ≡ some k
      → k + 1 < ctrl.factor_size
      → ordered_type ctrl (k + 1) ≡ some b
      → let calls = Call.start s.path b minus_one ∷ Call.end s.path a ∷ s.calls in
        mfa_next env a s
        ≡ some (
          if env.fails calls || env.unreadable calls then Ret.abort else Ret.pending,
          record s { cur_type = b; calls = calls },
        )
  unfolding mfa_next mfa_start_verify dbus_method_start dbus_method_end
  mfa_next-next a b k e h f = ground (arith, e, f)

  pub mfa_next-step :
      (a b : ℤ) (k : ℕ)
      → find_current ctrl s.cur_type ctrl.factor_size 0 ≡ some k
      → k + 1 < ctrl.factor_size
      → ordered_type ctrl (k + 1) ≡ some b
      → ((cs : List Call) → (env.fails cs ≡ false) × (env.unreadable cs ≡ false))
      → mfa_next env a s
        ≡ some (
          Ret.pending,
          record s {
            cur_type = b;
            calls = Call.start s.path b minus_one ∷ Call.end s.path a ∷ s.calls;
          },
        )
  mfa_next-step a b k e h f up =
      let taken = up (Call.start s.path b minus_one ∷ Call.end s.path a ∷ s.calls) in
      ground (arith, taken, mfa_next-next a b k e h f)
