-- ===== src/Pam/Protocol/Order.antt =====
-- The order in which the multi-factor mode of misc/pam-module/auth/mfa.c starts its methods.
use mathlib.Core.Path.{subst}
use native.Mathlib.Decide.{dec_lt}
use lingmo_authenticate.Common.{
  ℕ, zero, suc, ◌+◌, ◌<◌, ◌≡◌, ◌⊎◌, inl, inr, refl, sym, ap, ◌∙◌, ℤ, ==ℤ-eq, true, Option, some,
  List, [], ◌∷◌, arith, Bool-cases, Option-cases, take,
}
use lingmo_authenticate.Pam.Codes.{Ret, AuthStutaCode, code_of_int}
use lingmo_authenticate.Pam.State.{Env, Call, AuthSession, UserData, emit}
use lingmo_authenticate.Pam.Factors.Sort.{IsOrdered}
use lingmo_authenticate.Pam.Loop.Safety.{pending_of}
use lingmo_authenticate.Pam.Loop.{BusEvent, status, is_pending, is_success, set_res, bus_loop}
use lingmo_authenticate.Pam.Mfa.{mfa_start_verify}
use lingmo_authenticate.Pam.MfaOrder.{mfa_start_verify_lem}
use lingmo_authenticate.Pam.Dbus.{listen_dbus_signal}
use lingmo_authenticate.Pam.Entry.{start_verify, start_loop}
use lingmo_authenticate.Pam.Entry.Keeps.{mfa_start_verify-res}
use lingmo_authenticate.Pam.MfaRun.{starts}
use lingmo_authenticate.Pam.Protocol.{method, started, mfa_verdict, event, session}
use lingmo_authenticate.Pam.Protocol.Mfa.{IsDistinct, IsAt, mfa_loop-Reaches}
use lingmo_authenticate.Pam.Protocol.Run.{session-more, session-done}

-- The event is the readable Success signal of a method.
abbrev pub IsSuccessOf : ℤ → BusEvent → Type 0
IsSuccessOf a (status x) =
    (x.readable ≡ true) × (code_of_int x.code ≡ some AuthStutaCode.success) × (x.auth_type ≡ a)
IsSuccessOf a _ = ⊥

-- The Success signals of these methods, in this order and among others.
abbrev pub SucceedIn : List ℤ → List BusEvent → Type 0
SucceedIn [] es = Unit
SucceedIn (a ∷ as') [] = ⊥
SucceedIn (a ∷ as') (e ∷ es) = (IsSuccessOf a e × SucceedIn as' es) ⊎ SucceedIn (a ∷ as') es

-- The methods at `n` positions of the order, from `k` on.
abbrev pub methods : AuthSession → ℕ → ℕ → List ℤ
methods ctrl k zero = []
methods ctrl k (suc n) = method ctrl k ∷ methods ctrl (k + 1) n

SucceedIn-take :
    (as' : List ℤ) (n : ℕ) (es : List BusEvent) → SucceedIn as' (take n es) → SucceedIn as' es
SucceedIn-take [] n es h = tt
SucceedIn-take (a ∷ as') zero es h = absurd h
SucceedIn-take (a ∷ as') (suc n) [] h = absurd h
SucceedIn-take (a ∷ as') (suc n) (e ∷ es) (inl (x, h)) = inl (x, SucceedIn-take as' n es h)
SucceedIn-take (a ∷ as') (suc n) (e ∷ es) (inr h) = inr (SucceedIn-take (a ∷ as') n es h)

SucceedIn-later :
    (as' : List ℤ) (e : BusEvent) (es : List BusEvent) → SucceedIn as' es → SucceedIn as' (e ∷ es)
SucceedIn-later [] e es h = tt
SucceedIn-later (a ∷ as') e es h = inr h

-- An event moves the session on by one position at most, and only if it is the success of its method.
Moved : AuthSession → ℕ → BusEvent → Type 0
Moved ctrl k e =
    ((event (mfa_verdict ctrl) k e).0 ≡ k)
    ⊎ (((event (mfa_verdict ctrl) k e).0 ≡ k + 1) × IsSuccessOf (method ctrl k) e)

mfa_verdict_moves :
    (ctrl : AuthSession) (k : ℕ) (c : Option AuthStutaCode) (a : ℤ)
    → ((mfa_verdict ctrl k c a).0 ≡ k)
      ⊎ (((mfa_verdict ctrl k c a).0 ≡ k + 1)
          × (c ≡ some AuthStutaCode.success)
          × (a ≡ method ctrl k))
unfolding mfa_verdict
mfa_verdict_moves ctrl k (some AuthStutaCode.success) a = ground (arith, ==ℤ-eq a (method ctrl k))
mfa_verdict_moves ctrl k (some AuthStutaCode.failure) a = ground arith
mfa_verdict_moves ctrl k _ a = inl refl

event-Moved : (ctrl : AuthSession) (k : ℕ) (e : BusEvent) → Moved ctrl k e
unfolding Moved event
event-Moved ctrl k (status x) = elim (Bool-cases x.readable) [
  | inl f ↦ rw f (elim (mfa_verdict_moves ctrl k (code_of_int x.code) x.auth_type) [
    | inl stay ↦ inl stay
    | inr (on, c, a) ↦ inr (on, (refl, c, a))
  ])
  | inr f ↦ inl (ground (arith, f))
]
event-Moved ctrl k _ = inl refl

-- A session that comes from `k` to the position of `v`, with the successes of the methods between.
abbrev Comes : AuthSession → ℕ → List BusEvent → ℕ × Ret → Type 0
Comes ctrl k es v = (n : ℕ) × (v.0 ≡ k + n) × SucceedIn (methods ctrl k n) es

module _ (ctrl : AuthSession) (e : BusEvent) (es : List BusEvent) where
  Comes-stay : (k : ℕ) (v : ℕ × Ret) → Comes ctrl k es v → Comes ctrl k (e ∷ es) v
  Comes-stay k v (n, p, h) = (n, p, SucceedIn-later (methods ctrl k n) e es h)

  Comes-on :
      (k : ℕ) (v : ℕ × Ret)
      → IsSuccessOf (method ctrl k) e
      → Comes ctrl (k + 1) es v
      → Comes ctrl k (e ∷ es) v
  Comes-on k v won (n, p, h) = (suc n, omega (arith, p), inl (won, h))

-- Where the abstract session comes to position `k + n`, the methods before it have succeeded.
session-Comes :
    (ctrl : AuthSession) (es : List BusEvent) (k : ℕ)
    → Comes ctrl k es (session (mfa_verdict ctrl) k es)
unfolding session Moved
session-Comes ctrl [] k = (0, omega arith, tt)
session-Comes ctrl (e ∷ es) k = elim (Bool-cases (is_pending (event (mfa_verdict ctrl) k e).1)) [
  | inl more ↦
      let rest = session-Comes ctrl es (event (mfa_verdict ctrl) k e).0 in
      let go =
        session-more (mfa_verdict ctrl) k e es (pending_of (event (mfa_verdict ctrl) k e).1 more) in
      elim (event-Moved ctrl k e) [
        | inl stay ↦ rw (go ∙ ap (λ j. session (mfa_verdict ctrl) j es) stay) (
            Comes-stay ctrl e es k (session (mfa_verdict ctrl) k es)
              (subst (λ j. Comes ctrl j es (session (mfa_verdict ctrl) j es)) stay rest))
        | inr (on, won) ↦ rw (go ∙ ap (λ j. session (mfa_verdict ctrl) j es) on) (
            Comes-on ctrl e es k (session (mfa_verdict ctrl) (k + 1) es) won
              (subst (λ j. Comes ctrl j es (session (mfa_verdict ctrl) j es)) on rest))
      ]
  | inr over ↦
      let halt = session-done (mfa_verdict ctrl) k e es over in
      elim (event-Moved ctrl k e) [
        | inl stay ↦ (0, rw (halt, stay) (omega arith), tt)
        | inr (on, won) ↦ (1, rw (halt, on) refl, inl (won, tt))
      ]
]

-- The methods that a run has started: those that stand first in the order, each once, and each after
-- the first upon the success of the one before it; and these successes came in this order.
abbrev pub InOrder : AuthSession → List BusEvent → UserData → Type 0
InOrder ctrl es t =
    (j : ℕ) × (j < ctrl.factor_size)
    × (starts t.calls ≡ started ctrl j)
    × SucceedIn (methods ctrl 0 j) es

module _ (env : Env) (ctrl : AuthSession) (mfa : ctrl.is_mfa ≡ true) (o : IsOrdered ctrl)
    (distinct : IsDistinct ctrl) (es : List BusEvent) where
  bus_loop-InOrder :
      (s t : UserData)
      → IsAt ctrl 0 s
      → s.res ≡ Ret.pending
      → bus_loop env es s ≡ some (tt, t)
      → InOrder ctrl es t
  bus_loop-InOrder s t h p f = elim (mfa_loop-Reaches env ctrl o distinct mfa es 0 s t h p f) [
    | inl (at, _) ↦
        let (n, q, won) = session-Comes ctrl es 0 in
        let here : IsAt ctrl n t = subst (λ k. IsAt ctrl k t) (omega (arith, q)) at in
        (n, here.less, here.calls, won)
    | inr (m, j, q, at, _) ↦
        let (n, w, won) = session-Comes ctrl (take m es) 0 in
        let same : j ≡ n = ground (arith, q, w) in
        (j, at.less, at.calls, SucceedIn-take (methods ctrl 0 j) m es (rw (sym same) at won))
  ]

  -- The start of the first method.
  first_start :
      (s t : UserData) (r : Ret) (timeout : ℤ)
      → s.auth_ctrl ≡ some ctrl
      → starts s.calls ≡ []
      → mfa_start_verify env 0 timeout s ≡ some (r, t)
      → ((starts t.calls ≡ []) × (r ≡ Ret.abort)) ⊎ IsAt ctrl 0 t
  unfolding started method
  first_start s t r timeout c none_yet h =
      let (past, within) = mfa_start_verify_lem env s ctrl c 0 timeout o in
      elim (dec_lt 0 ctrl.factor_size) [
        | no empty ↦ let e = past (omega (arith, empty)) in inl (ground (arith, e, h, none_yet))
        | yes some_method ↦
            let (a, f, e) = within some_method in
            inr (record {
              open_session = ground (arith, c, e, h);
              less = some_method;
              here = ground (arith, f, e, h);
              calls = ground (arith, f, e, h, none_yet);
            })
      ]

  -- Whatever the bus delivers to a multi-factor session, from the match of its signals to the end of
  -- the loop: either no method is started, or those are that stand first in the order, each once, and
  -- each after the first upon a Success signal of the one before it; and these signals came in this
  -- order. The session is as `resolve_authctrl_factors` leaves it, and its methods differ; none was started before.
  pub start_loop-InOrder :
      (timeout : ℤ) (s t : UserData)
      → s.auth_ctrl ≡ some ctrl
      → s.res ≡ Ret.pending
      → starts s.calls ≡ []
      → start_loop env ctrl timeout (bus_loop env es) s ≡ some (tt, t)
      → (starts t.calls ≡ []) ⊎ InOrder ctrl es t
  unfolding start_loop start_verify listen_dbus_signal emit set_res is_success
  start_loop-InOrder timeout s t c p none_yet h =
      let u : UserData = record s { calls = Call.match_signal s.path ∷ s.calls } in
      elim (Bool-cases (env.fails u.calls)) [
        | inl deaf ↦ inl (ground (arith, h, deaf, none_yet))
        | inr heard ↦ elim (Option-cases (mfa_start_verify env 0 timeout u)) [
          | inl e ↦ absurd (ground (arith, h, heard, e, mfa))
          | inr ((r, v), e) ↦
              let kept = mfa_start_verify-res env 0 timeout u v r e in
              elim (first_start u v r timeout c none_yet e) [
                | inl (nothing, a) ↦ inl (ground (arith, h, heard, e, mfa, nothing, a))
                | inr at ↦ elim (Bool-cases (is_success r)) [
                  | inl ok ↦
                      inr
                        (bus_loop-InOrder v t at (kept ∙ p) (ground (arith, h, heard, e, mfa, ok)))
                  | inr bad ↦
                      let same : t ≡ record v { res = Ret.abort } =
                        ground (arith, h, heard, e, mfa, bad) in
                      inr (0, at.less, rw same at.calls, tt)
                ]
              ]
        ]
      ]
