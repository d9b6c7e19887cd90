-- ===== src/Pam/Request/Result.antt =====
-- The result that `run_request_pw` of misc/pam-module/auth/pam.c sets.
use lingmo_authenticate.Common.{
  false, List, ◌∷◌, sym, ap, ◌≡◌, ◌≢◌, ℤ, pos, Option, none, some, Bytes, ◌==ℤ◌, ==ℤ-eq,
  if◌then◌else◌, pure, ◌>>=◌, get_state, ◌∙◌, Option-cases, bind_some, Bool-cases, inl, inr, arith,
}
use lingmo_authenticate.Pam.Codes.{Ret, Style, raw}
use lingmo_authenticate.Pam.State.{Env, Call, UserData, emit}
use lingmo_authenticate.Pam.Request.{
  Conv, unavailable, failed, answered, split_data, ask, send_get_result, set_waiting,
  dbus_method_get_result, dbus_method_set_token, hand_over, after_wait, call_get_result_cb,
  run_request_pw, get_result_success,
}

-- The token is handed to PAM if the answer has one.
abbrev pub with_token : Option Bytes → List Call → List Call
with_token none cs = cs
with_token (some t) cs = Call.set_authtok t ∷ cs

-- What must be so for success: the application answered, with a semicolon; GetResult was called for
-- the path before it, without a failure; the reply was read and is GET_RESULT_SUCCESS; and nothing
-- else was called but to hand the token to PAM.
pub record IsGranted (env : Env) (conv : Conv) (reply : Option ℤ) (s t : UserData) : Type 0 where
  pub resp : Bytes
  pub path : Bytes
  pub tok : Option Bytes
  pub answer : conv ≡ answered resp
  pub parts : split_data resp ≡ some (path, tok)
  pub called :
      env.fails
        (Call.get_result path ∷ Call.send_msg (raw s.prompt) Style.prompt_echo_off ∷ s.calls)
      ≡ false
  pub calls :
      t.calls
      ≡ with_token tok
          (Call.get_result path ∷ Call.send_msg (raw s.prompt) Style.prompt_echo_off ∷ s.calls)
  pub granted : reply ≡ some (pos 0)

module _ (env : Env) (s t : UserData) where
  pub hand_over-res :
      (resp : Bytes)
      → hand_over env resp s ≡ some (tt, t)
      → s.res ≢ Ret.success
      → t.res ≢ Ret.success
  unfolding hand_over dbus_method_set_token
  hand_over-res resp h p q = ground arith

  ask-res :
      (conv : Conv) (o : Option Bytes)
      → ask env conv s ≡ some (o, t)
      → s.res ≢ Ret.success
      → (t.res ≢ Ret.success)
        × (t.waiting_result ≡ s.waiting_result)
        × (t.calls ≡ Call.send_msg (raw s.prompt) Style.prompt_echo_off ∷ s.calls)
        × ((resp : Bytes) → o ≡ some resp → conv ≡ answered resp)
  unfolding ask emit
  ask-res unavailable o h p = (λ q. ground arith, ground arith, ground arith, λ r e. ground arith)
  ask-res failed o h p = (λ q. ground arith, ground arith, ground arith, λ r e. ground arith)
  ask-res (answered resp) o h p =
      (λ q. ground arith, ground arith, ground arith, λ r e. ground arith)

  get_result-res :
      (path : Bytes)
      → dbus_method_get_result env path s ≡ some (tt, t)
      → (t.res ≡ s.res) × (t.calls ≡ Call.get_result path ∷ s.calls)
  unfolding dbus_method_get_result send_get_result set_waiting emit
  get_result-res path h = (ground arith, ground arith)

  waited-res :
      (reply : Option ℤ)
      → (if s.waiting_result then call_get_result_cb reply else pure tt) s ≡ some (tt, t)
      → (t.res ≡ s.res) × (t.calls ≡ s.calls)
  unfolding call_get_result_cb
  waited-res none h = (ground arith, ground arith)
  waited-res (some v) h = (ground arith, ground arith)

  waited-granted :
      (path : Bytes) (reply : Option ℤ) (u : UserData)
      → dbus_method_get_result env path s ≡ some (tt, u)
      → (if u.waiting_result then call_get_result_cb reply else pure tt) u ≡ some (tt, t)
      → s.waiting_result ≡ false
      → t.get_result_val ≡ pos 0
      → (reply ≡ some (pos 0)) × (env.fails (Call.get_result path ∷ s.calls) ≡ false)
  unfolding dbus_method_get_result send_get_result set_waiting call_get_result_cb emit
  waited-granted path none u h g w e = (ground arith, ground arith)
  waited-granted path (some v) u h g w e = (ground arith, ground arith)

module _ (env : Env) (s t : UserData) where
  pub after_wait-granted :
      (resp : Bytes) (tok : Option Bytes)
      → after_wait env resp tok s ≡ some (tt, t)
      → s.res ≢ Ret.success
      → t.res ≡ Ret.success
      → s.get_result_val ≡ pos 0
  unfolding after_wait
  after_wait-granted resp tok h p q = elim (Bool-cases (s.get_result_val ==ℤ get_result_success)) [
    | inl e ↦ ==ℤ-eq s.get_result_val get_result_success e
    | inr e ↦ absurd (hand_over-res env s t resp (ground (arith, h, e)) p q)
  ]

after_wait-calls :
    (env : Env) (s t : UserData) (resp : Bytes) (tok : Option Bytes)
    → after_wait env resp tok s ≡ some (tt, t)
    → s.get_result_val ≡ pos 0
    → t.calls ≡ with_token tok s.calls
unfolding after_wait emit
after_wait-calls env s t resp none h q = ground (arith, h, q)
after_wait-calls env s t resp (some x) h q = ground (arith, h, q)

-- The rest of the thread once the answer was taken apart.
granted_lem :
    (env : Env) (resp path : Bytes) (tok : Option Bytes) (reply : Option ℤ) (s t : UserData)
    → (dbus_method_get_result env path >>= λ _. get_state >>= λ u.
          (if u.waiting_result then call_get_result_cb reply else pure tt) >>= λ _.
          after_wait env resp tok)
        s
      ≡ some (tt, t)
    → s.waiting_result ≡ false
    → s.res ≢ Ret.success
    → t.res ≡ Ret.success
    → ((reply ≡ some (pos 0)) × (env.fails (Call.get_result path ∷ s.calls) ≡ false))
      × (t.calls ≡ with_token tok (Call.get_result path ∷ s.calls))
granted_lem env resp path tok reply s t h w p q =
    let (_, u, asked, h1) = bind_some (dbus_method_get_result env path) _ tt s t h in
    let (_, v, waited, h2) =
      bind_some (if u.waiting_result then call_get_result_cb reply else pure tt)
        (λ _. after_wait env resp tok) tt u t h1 in
    let (r1, c1) = get_result-res env s u path asked in
    let (r2, c2) = waited-res env u v reply waited in
    let value = after_wait-granted env v t resp tok h2 (rw (r2 ∙ r1) p) q in
    (
      waited-granted env s v path reply u asked waited w value,
      after_wait-calls env v t resp tok h2 value ∙ ap (λ cs. with_token tok cs) (c2 ∙ c1),
    )

-- The token thread, begun when nothing is waited for, sets the result to PAM_SUCCESS only if the
-- application answered with a path and a semicolon, GetResult was then called for that path without a
-- failure, and its reply was read and is GET_RESULT_SUCCESS. After the question and GetResult it has
-- called nothing but PAM for the token, if the answer has one.
pub run_request_pw-success :
    (env : Env) (conv : Conv) (reply : Option ℤ) (s t : UserData)
    → run_request_pw env conv reply s ≡ some (tt, t)
    → s.waiting_result ≡ false
    → s.res ≢ Ret.success
    → t.res ≡ Ret.success
    → IsGranted env conv reply s t
unfolding run_request_pw
run_request_pw-success env conv reply s t h w p q =
    let (o, u, e, g) = bind_some (ask env conv) _ tt s t h in
    let (kept, same_wait, asked, from) = ask-res env s u conv o e p in
    elim (Option-cases o) [
      | inl z ↦ absurd (kept (ground (arith, z, g, q)))
      | inr (resp, z) ↦ elim (Option-cases (split_data resp)) [
        | inl y ↦ absurd (hand_over-res env u t resp (ground (arith, z, y, g)) kept q)
        | inr ((path, tok), y) ↦
            let ((r, f), calls) =
              granted_lem env resp path tok reply u t (ground (arith, z, y, g)) (same_wait ∙ w) kept
                q in
            record {
              resp = resp;
              path = path;
              tok = tok;
              answer = from resp z;
              parts = y;
              called = rw (sym asked) f;
              calls = calls ∙ ap (λ cs. with_token tok (Call.get_result path ∷ cs)) asked;
              granted = r;
            }
      ]
    ]
