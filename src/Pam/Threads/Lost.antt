-- ===== src/Pam/Threads/Lost.antt =====
-- A reply of GetResult that comes before `waiting_result` is set (misc/pam-module/auth/dbus.c).
use lingmo_authenticate.Common.{◌≡◌, refl, ◌∙◌, ◌⊎◌, inl, inr, true, Option, List, Bytes, arith}
use lingmo_authenticate.Pam.State.{Env, UserData}
use lingmo_authenticate.Pam.Request.{set_waiting}
use lingmo_authenticate.Pam.Threads.{
  sent, waiting, System, Event, Step, loop_step, loop_creates, loop_replied, no_answer,
  answer_with_path, answer_only, call_sent, call_failed, wait, wake, give, Steps, here, later,
}
use lingmo_authenticate.Pam.Threads.Frame.{on_event-wait}

module _ (resp : Bytes) (tok : Option Bytes) where
  -- The thread is about to wait or waits, and no callback is left to wake it.
  abbrev pub IsLost : System → Type 0
  IsLost x =
      (x.replies ≡ 0)
      × ((x.pc ≡ sent resp tok) ⊎ ((x.pc ≡ waiting resp tok) × (x.ud.waiting_result ≡ true)))

  module _ (env : Env) (es : List Event) (x y : System) where
    Step-IsLost : IsLost x → Step env x es y → IsLost y
    unfolding set_waiting
    Step-IsLost (no_reply, at) (loop_step e t p h c f g) =
        let k = on_event-wait env e x.ud t h in
        rw g (no_reply, elim at [ inl s ↦ inl s | inr (w, set) ↦ inr (w, k.flag ∙ set) ])
    Step-IsLost (no_reply, at) (loop_creates e t p h c i f g) = absurd (ground (arith, at, i))
    Step-IsLost (no_reply, at) (loop_replied r n t p m h f g) = absurd (ground (arith, m, no_reply))
    Step-IsLost (no_reply, at) (no_answer conv t i h f g) = absurd (ground (arith, at, i))
    Step-IsLost (no_reply, at) (answer_with_path conv t r p k i h d f g) =
        absurd (ground (arith, at, i))
    Step-IsLost (no_reply, at) (answer_only conv t r i h d f g) = absurd (ground (arith, at, i))
    Step-IsLost (no_reply, at) (call_sent t r p k i h f g) = absurd (ground (arith, at, i))
    Step-IsLost (no_reply, at) (call_failed t r p k i h f g) = absurd (ground (arith, at, i))
    Step-IsLost (no_reply, at) (wait t r k i h f g) =
        rw g (no_reply, inr (ground (arith, at, i), ground (arith, h)))
    Step-IsLost (no_reply, at) (wake t r k i a h f g) = absurd (ground (arith, at, i, a))
    Step-IsLost (no_reply, at) (give t r i h f g) = absurd (ground (arith, at, i))

  Steps-IsLost :
      (env : Env) (x : System) {es : List Event} {y : System}
      → IsLost x
      → Steps env x es y
      → IsLost y
  Steps-IsLost env x h here = h
  Steps-IsLost env x h (later {es} {fs} {y} {z} r st) =
      Step-IsLost env fs y z (Steps-IsLost env x h r) st

-- A thread that has called GetResult, and whose callback the loop has run before the thread could
-- set `waiting_result`, never gets past its wait, whatever the bus delivers.
pub lost_reply :
    (env : Env) (resp : Bytes) (tok : Option Bytes) (s : UserData) (es : List Event) (y : System)
    → Steps env (record { ud = s; pc = sent resp tok; replies = 0 }) es y
    → (y.pc ≡ sent resp tok) ⊎ ((y.pc ≡ waiting resp tok) × (y.ud.waiting_result ≡ true))
lost_reply env resp tok s es y r =
    (Steps-IsLost resp tok env (record { ud = s; pc = sent resp tok; replies = 0 }) (refl, inl refl)
      r).1
