-- ===== src/Pam/Threads/Race.antt =====
-- When a race of the token thread and the D-Bus loop ends in success.
use lingmo_authenticate.Common.{
  ◌≡◌, ◌≢◌, refl, sym, ◌∙◌, ◌⊎◌, inl, inr, ℤ, pos, Bool, true, false, Option, none, some, List, [],
  ◌∷◌, ◌++◌, Bytes, arith, Bool-cases,
}
use mathlib.Core.Path.{subst}
use lingmo_authenticate.Pam.Codes.{Ret}
use lingmo_authenticate.Pam.State.{Env, UserData}
use lingmo_authenticate.Pam.Loop.{is_success}
use lingmo_authenticate.Pam.Loop.Safety.{IsSuccess, pending_of, on_event-success}
use lingmo_authenticate.Pam.Request.{
  Conv, unavailable, failed, answered, ask, send_get_result, set_waiting, call_get_result_cb,
}
use lingmo_authenticate.Pam.Request.Result.{hand_over-res, after_wait-granted}
use lingmo_authenticate.Pam.Threads.{
  Pc, idle, waiting, System, Event, bus, reply, Step, loop_step, loop_creates, loop_replied,
  no_answer, answer_with_path, answer_only, call_sent, call_failed, wait, wake, give, Steps, here,
  later,
}
use lingmo_authenticate.Pam.Threads.Frame.{on_event-wait}

-- The event is a Success signal for the whole session, or a reply GET_RESULT_SUCCESS.
abbrev pub IsGrant : Event → Type 0
IsGrant (bus e) = IsSuccess e
IsGrant (reply r) = r ≡ some (pos 0)

abbrev pub HasGrant : List Event → Type 0
HasGrant [] = ⊥
HasGrant (e ∷ es) = IsGrant e ⊎ HasGrant es

HasGrant-left : (es fs : List Event) → HasGrant es → HasGrant (es ++ fs)
HasGrant-left [] fs h = absurd h
HasGrant-left (e ∷ es) fs (inl h) = inl h
HasGrant-left (e ∷ es) fs (inr h) = inr (HasGrant-left es fs h)

HasGrant-right : (es fs : List Event) → HasGrant fs → HasGrant (es ++ fs)
HasGrant-right [] fs h = h
HasGrant-right (e ∷ es) fs h = inr (HasGrant-right es fs h)

abbrev IsWaiting : Pc → Type 0
IsWaiting (waiting resp tok) = Unit
IsWaiting _ = ⊥

-- A success is granted, and so is the value that a thread is about to read.
record IsGranted (es : List Event) (x : System) : Type 0 where
  result : x.ud.res ≡ Ret.success → HasGrant es
  value : IsWaiting x.pc → x.ud.waiting_result ≡ false → x.ud.get_result_val ≡ pos 0 → HasGrant es

success_or : (r : Ret) → (r ≡ Ret.success) ⊎ (r ≢ Ret.success)
unfolding is_success
success_or r = elim (Bool-cases (is_success r)) [
  | inl e ↦ inl (ground (arith, e))
  | inr e ↦ inr (λ h. ground (arith, e, h))
]

module _ (env : Env) (s t : UserData) where
  ask-success :
      (conv : Conv) (o : Option Bytes)
      → ask env conv s ≡ some (o, t)
      → t.res ≡ Ret.success
      → s.res ≡ Ret.success
  unfolding ask
  ask-success unavailable o h q = ground (arith, h, q)
  ask-success failed o h q = ground (arith, h, q)
  ask-success (answered resp) o h q = ground (arith, h, q)

  send-res :
      (path : Bytes) (b : Bool)
      → send_get_result env path s ≡ some (b, t)
      → (t.res ≡ s.res) × (b ≡ true → t.get_result_val ≢ pos 0)
  unfolding send_get_result
  send-res path b h = (ground (arith, h), λ e v. ground (arith, h, e, v))

  replied-res :
      (r : Option ℤ)
      → call_get_result_cb r s ≡ some (tt, t)
      → (t.res ≡ s.res) × (t.get_result_val ≡ pos 0 → r ≡ some (pos 0))
  unfolding call_get_result_cb
  replied-res none h = (ground (arith, h), λ v. ground (arith, h, v))
  replied-res (some r) h = (ground (arith, h), λ v. ground (arith, h, v))

  waiting-res : set_waiting s ≡ some (tt, t) → (t.res ≡ s.res) × (t.waiting_result ≢ false)
  unfolding set_waiting
  waiting-res h = (ground (arith, h), λ f. ground (arith, h, f))

Step-IsGranted :
    (env : Env) (es fs : List Event) (x y : System)
    → IsGranted es x
    → Step env x fs y
    → IsGranted (es ++ fs) y
Step-IsGranted env es fs x y inv (loop_step e t p h c f g) =
    let k = on_event-wait env e x.ud t h in
    rw (f, g)
      (record {
        result = λ q.
            HasGrant-right es (bus e ∷ [])
              (inl (on_event-success env e x.ud t h (pending_of x.ud.res p) q));
        value =
            λ w a b. HasGrant-left es (bus e ∷ []) (inv.value w (sym k.flag ∙ a) (sym k.value ∙ b));
      })
Step-IsGranted env es fs x y inv (loop_creates e t p h c i f g) =
    rw (f, g)
      (record {
        result = λ q.
            HasGrant-right es (bus e ∷ [])
              (inl (on_event-success env e x.ud t h (pending_of x.ud.res p) q));
        value = λ w a b. absurd w;
      })
Step-IsGranted env es fs x y inv (loop_replied r n t p m h f g) =
    let (kept, from) = replied-res env x.ud t r h in
    rw (f, g)
      (record {
        result = λ q. HasGrant-left es (reply r ∷ []) (inv.result (sym kept ∙ q));
        value = λ w a b. HasGrant-right es (reply r ∷ []) (inl (from b));
      })
Step-IsGranted env es fs x y inv (no_answer conv t i h f g) =
    rw (f, g)
      (record {
        result = λ q. HasGrant-left es [] (inv.result (ask-success env x.ud t conv none h q));
        value = λ w a b. absurd w;
      })
Step-IsGranted env es fs x y inv (answer_with_path conv t resp path tok i h d f g) =
    rw (f, g)
      (record {
        result =
            λ q. HasGrant-left es [] (inv.result (ask-success env x.ud t conv (some resp) h q));
        value = λ w a b. absurd w;
      })
Step-IsGranted env es fs x y inv (answer_only conv t resp i h d f g) =
    rw (f, g)
      (record {
        result =
            λ q. HasGrant-left es [] (inv.result (ask-success env x.ud t conv (some resp) h q));
        value = λ w a b. absurd w;
      })
Step-IsGranted env es fs x y inv (call_sent t resp path tok i h f g) =
    let (kept, _) = send-res env x.ud t path false h in
    rw (f, g)
      (record {
        result = λ q. HasGrant-left es [] (inv.result (sym kept ∙ q));
        value = λ w a b. absurd w;
      })
Step-IsGranted env es fs x y inv (call_failed t resp path tok i h f g) =
    let (kept, not_zero) = send-res env x.ud t path true h in
    rw (f, g)
      (record {
        result = λ q. HasGrant-left es [] (inv.result (sym kept ∙ q));
        value = λ w a b. absurd (not_zero refl b);
      })
Step-IsGranted env es fs x y inv (wait t resp tok i h f g) =
    let (kept, set) = waiting-res env x.ud t h in
    rw (f, g)
      (record {
        result = λ q. HasGrant-left es [] (inv.result (sym kept ∙ q));
        value = λ w a b. absurd (set a);
      })
Step-IsGranted env es fs x y inv (wake t resp tok i a h f g) =
    rw (f, g)
      (record {
        result = λ q. HasGrant-left es [] (elim (success_or x.ud.res) [
          | inl s ↦ inv.result s
          | inr s ↦
              inv.value (subst IsWaiting (sym i) tt) a
                (after_wait-granted env x.ud t resp tok h s q)
        ]);
        value = λ w a' b. absurd w;
      })
Step-IsGranted env es fs x y inv (give t resp i h f g) =
    rw (f, g)
      (record {
        result = λ q. HasGrant-left es [] (elim (success_or x.ud.res) [
          | inl s ↦ inv.result s
          | inr s ↦ absurd (hand_over-res env x.ud t resp h s q)
        ]);
        value = λ w a b. absurd w;
      })

Steps-IsGranted :
    (env : Env) (x : System) {es : List Event} {y : System}
    → IsGranted [] x
    → Steps env x es y
    → IsGranted es y
Steps-IsGranted env x h here = h
Steps-IsGranted env x h (later {es} {fs} {y} {z} r st) =
    Step-IsGranted env es fs y z (Steps-IsGranted env x h r) st

-- However the loop, with its callbacks of EncryptKey and GetResult, and the token thread run side by
-- side, from a state without a result and without a thread: PAM_SUCCESS is the result only if the bus delivered a Success signal of type -1, or the
-- callback of GetResult read GET_RESULT_SUCCESS.
pub race-success :
    (env : Env) (s : UserData) (es : List Event) (y : System)
    → s.res ≡ Ret.pending
    → Steps env (record { ud = s; pc = idle; replies = 0 }) es y
    → y.ud.res ≡ Ret.success
    → HasGrant es
race-success env s es y p r q =
    (Steps-IsGranted env (record { ud = s; pc = idle; replies = 0 })
        (record { result = λ z. absurd (ground (arith, p, z)); value = λ w a b. absurd w })
        r).result
      q
