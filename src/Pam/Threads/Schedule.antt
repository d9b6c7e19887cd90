-- ===== src/Pam/Threads/Schedule.antt =====
-- The D-Bus loop and the token thread of misc/pam-module/auth/pam.c in the order of a schedule, and
-- `pam_sm_authenticate` with both.
use lingmo_authenticate.Common.{
  zero, suc, ◌≡◌, refl, ap, ◌∙◌, ℤ, true, false, Option, none, some, List, [], ◌∷◌, ◌++◌, ◌-◌,
  Bytes, arith, Bool-cases, Option-cases, inl, inr, if◌then◌else◌,
}
use mathlib.Core.Path.{subst}
use mathlib.Core.List.{append_assoc, append-nil}
use lingmo_authenticate.Pam.Codes.{Ret}
use lingmo_authenticate.Pam.State.{Env, UserData, Pam}
use lingmo_authenticate.Pam.Loop.{BusEvent, is_pending, on_event}
use lingmo_authenticate.Pam.Request.{
  Conv, split_data, ask, send_get_result, set_waiting, after_wait, hand_over, call_get_result_cb,
}
use lingmo_authenticate.Pam.Entry.{Host, new_user_data, pam_sm_authenticate}
use lingmo_authenticate.Pam.Entry.Success.{pam_sm_authenticate-through}
use lingmo_authenticate.Pam.Threads.{
  Pc, idle, started, calling, sent, waiting, giving, System, Event, bus, reply, creates, loop_step,
  loop_creates, loop_replied, no_answer, answer_with_path, answer_only, call_sent, call_failed,
  wait, wake, give, Steps, here, later,
}
use lingmo_authenticate.Pam.Threads.Race.{HasGrant, race-success}

-- Who goes on: the loop with an event or with the reply of GetResult, or the thread, with the answer
-- of the application if it asks for one.
pub data Turn : Type 0 where
  round : BusEvent → Turn
  replied : Option ℤ → Turn
  thread : Conv → Turn

unfoldable pub events_of : List Turn → List Event
events_of [] = []
events_of (round e ∷ turns) = bus e ∷ events_of turns
events_of (replied r ∷ turns) = reply r ∷ events_of turns
events_of (thread conv ∷ turns) = events_of turns

abbrev pub event_of : Turn → List Event
event_of (round e) = bus e ∷ []
event_of (replied r) = reply r ∷ []
event_of (thread conv) = []

module _ (env : Env) where
  -- A round of the loop; a thread is created only where the one before has ended.
  unfoldable pub loop_turn : BusEvent → System → Option System
  loop_turn e x = elim (on_event env e x.ud) [
    | none ↦ none
    | some (_, t) ↦
        if creates env x.ud t
        then elim x.pc [ idle ↦ some (record x { ud = t; pc = started }) | _ ↦ none ]
        else some (record x { ud = t })
  ]

  unfoldable pub reply_turn : Option ℤ → System → Option System
  reply_turn r x = elim x.replies [
    | zero ↦ none
    | suc n ↦ elim (call_get_result_cb r x.ud) [
      | none ↦ none
      | some (_, t) ↦ some (record x { ud = t; replies = n })
    ]
  ]

  -- The thread, from where it stands up to where it would wait or take turns again.
  unfoldable pub thread_turn : Conv → System → Option System
  thread_turn conv x = elim x.pc [
    | idle ↦ none
    | started ↦ elim (ask env conv x.ud) [
      | none ↦ none
      | some (none, t) ↦ some (record x { ud = t; pc = idle })
      | some (some resp, t) ↦ elim (split_data resp) [
        | none ↦ some (record x { ud = t; pc = giving resp })
        | some (path, tok) ↦ some (record x { ud = t; pc = calling resp path tok })
      ]
    ]
    | calling resp path tok ↦ elim (send_get_result env path x.ud) [
      | none ↦ none
      | some (lost, t) ↦
          if lost
          then some (record x { ud = t; pc = waiting resp tok })
          else some (record { ud = t; pc = sent resp tok; replies = suc x.replies })
    ]
    | sent resp tok ↦ elim (set_waiting x.ud) [
      | none ↦ none
      | some (_, t) ↦ some (record x { ud = t; pc = waiting resp tok })
    ]
    | waiting resp tok ↦
        if x.ud.waiting_result then some x else elim (after_wait env resp tok x.ud) [
          | none ↦ none
          | some (_, t) ↦ some (record x { ud = t; pc = idle })
        ]
    | giving resp ↦ elim (hand_over env resp x.ud) [
      | none ↦ none
      | some (_, t) ↦ some (record x { ud = t; pc = idle })
    ]
  ]

  -- The loop takes no turn once there is a result.
  unfoldable pub turn : Turn → System → Option System
  turn (round e) x = if is_pending x.ud.res then loop_turn e x else none
  turn (replied r) x = if is_pending x.ud.res then reply_turn r x else none
  turn (thread conv) x = thread_turn conv x

  unfoldable pub run_turns : List Turn → System → Option System
  run_turns [] x = some x
  run_turns (a ∷ turns) x = elim (turn a x) [ none ↦ none | some y ↦ run_turns turns y ]

  -- The loop with its thread, up to where the cleaning begins. `none` is undefined behaviour, or a
  -- schedule that gives a turn to one that has none.
  unfoldable pub race : List Turn → Pam (Unit {0})
  race turns s = elim (run_turns turns (record { ud = s; pc = idle; replies = 0 })) [
    | none ↦ none
    | some y ↦ some (tt, y.ud)
  ]

module _ (env : Env) (x : System) (es : List Event) (y z : System) where
  loop_turn-Steps :
      (e : BusEvent)
      → Steps env x es y
      → is_pending y.ud.res ≡ true
      → loop_turn env e y ≡ some z
      → Steps env x (es ++ (bus e ∷ [])) z
  unfolding loop_turn
  loop_turn-Steps e r p h = elim (Option-cases (on_event env e y.ud)) [
    | inl f ↦ absurd (ground (arith, h, f))
    | inr ((_, t), f) ↦ elim (Bool-cases (creates env y.ud t)) [
      | inr c ↦
          let same : z ≡ record y { ud = t } = ground (arith, h, f, c) in
          later r (loop_step e t p f c refl same)
      | inl c ↦
          let (free, same) : (y.pc ≡ idle) × (z ≡ record y { ud = t; pc = started }) =
            created y.pc t refl (ground (arith, h, f, c)) in
          later r (loop_creates e t p f c free refl same)
    ]
  ]
    where
      created :
          (pc : Pc) (t : UserData)
          → y.pc ≡ pc
          → elim y.pc [ idle ↦ some (record y { ud = t; pc = started }) | _ ↦ none ] ≡ some z
          → (y.pc ≡ idle) × (z ≡ record y { ud = t; pc = started })
      created idle t i h = (i, ground (arith, i, h))
      created started t i h = absurd (ground (arith, i, h))
      created (calling a b c) t i h = absurd (ground (arith, i, h))
      created (sent a b) t i h = absurd (ground (arith, i, h))
      created (waiting a b) t i h = absurd (ground (arith, i, h))
      created (giving a) t i h = absurd (ground (arith, i, h))

  reply_turn-Steps :
      (o : Option ℤ)
      → Steps env x es y
      → is_pending y.ud.res ≡ true
      → reply_turn env o y ≡ some z
      → Steps env x (es ++ (reply o ∷ [])) z
  unfolding reply_turn
  reply_turn-Steps o r p h = elim (Option-cases (call_get_result_cb o y.ud)) [
    | inl f ↦ absurd (ground (arith, h, f))
    | inr ((_, t), f) ↦
        let n = y.replies - 1 in
        let m : y.replies ≡ suc n = ground (arith, h, f) in
        let same : z ≡ record y { ud = t; replies = n } = ground (arith, h, f, m) in
        later r (loop_replied o n t p m f refl same)
  ]

  asked-Steps :
      (conv : Conv)
      → Steps env x es y
      → y.pc ≡ started
      → thread_turn env conv y ≡ some z
      → Steps env x (es ++ []) z
  unfolding thread_turn
  asked-Steps conv r i h = elim (Option-cases (ask env conv y.ud)) [
    | inl f ↦ absurd (ground (arith, h, i, f))
    | inr ((none, t), f) ↦ later r (no_answer conv t i f refl (ground (arith, h, i, f)))
    | inr ((some resp, t), f) ↦ elim (Option-cases (split_data resp)) [
      | inl d ↦ later r (answer_only conv t resp i f d refl (ground (arith, h, i, f, d)))
      | inr ((path, tok), d) ↦
          later r (answer_with_path conv t resp path tok i f d refl (ground (arith, h, i, f, d)))
    ]
  ]

  called-Steps :
      (conv : Conv) (resp path : Bytes) (tok : Option Bytes)
      → Steps env x es y
      → y.pc ≡ calling resp path tok
      → thread_turn env conv y ≡ some z
      → Steps env x (es ++ []) z
  unfolding thread_turn
  called-Steps conv resp path tok r i h = elim (Option-cases (send_get_result env path y.ud)) [
    | inl f ↦ absurd (ground (arith, h, i, f))
    | inr ((true, t), f) ↦ later r (call_failed t resp path tok i f refl (ground (arith, h, i, f)))
    | inr ((false, t), f) ↦ later r (call_sent t resp path tok i f refl (ground (arith, h, i, f)))
  ]

  woken-Steps :
      (conv : Conv) (resp : Bytes) (tok : Option Bytes)
      → Steps env x es y
      → y.pc ≡ waiting resp tok
      → thread_turn env conv y ≡ some z
      → Steps env x (es ++ []) z
  unfolding thread_turn
  woken-Steps conv resp tok r i h = elim (Bool-cases y.ud.waiting_result) [
    | inl w ↦
        let same : y ≡ z = ground (arith, h, i, w) in
        rw (append-nil es) (subst (Steps env x es) same r)
    | inr w ↦ elim (Option-cases (after_wait env resp tok y.ud)) [
      | inl f ↦ absurd (ground (arith, h, i, w, f))
      | inr ((_, t), f) ↦ later r (wake t resp tok i w f refl (ground (arith, h, i, w, f)))
    ]
  ]

  -- The other two places of the thread.
  ended-Steps :
      (conv : Conv) (pc : Pc)
      → Steps env x es y
      → y.pc ≡ pc
      → thread_turn env conv y ≡ some z
      → Steps env x (es ++ []) z
  unfolding thread_turn
  ended-Steps conv idle r i h = absurd (ground (arith, h, i))
  ended-Steps conv started r i h = asked-Steps conv r i h
  ended-Steps conv (calling resp path tok) r i h = called-Steps conv resp path tok r i h
  ended-Steps conv (waiting resp tok) r i h = woken-Steps conv resp tok r i h
  ended-Steps conv (sent resp tok) r i h = elim (Option-cases (set_waiting y.ud)) [
    | inl f ↦ absurd (ground (arith, h, i, f))
    | inr ((_, t), f) ↦ later r (wait t resp tok i f refl (ground (arith, h, i, f)))
  ]
  ended-Steps conv (giving resp) r i h = elim (Option-cases (hand_over env resp y.ud)) [
    | inl f ↦ absurd (ground (arith, h, i, f))
    | inr ((_, t), f) ↦ later r (give t resp i f refl (ground (arith, h, i, f)))
  ]

  turn-Steps :
      (a : Turn) → Steps env x es y → turn env a y ≡ some z → Steps env x (es ++ event_of a) z
  unfolding turn
  turn-Steps (round e) r h = elim (Bool-cases (is_pending y.ud.res)) [
    | inl p ↦ loop_turn-Steps e r p (ground (arith, h, p))
    | inr p ↦ absurd (ground (arith, h, p))
  ]
  turn-Steps (replied o) r h = elim (Bool-cases (is_pending y.ud.res)) [
    | inl p ↦ reply_turn-Steps o r p (ground (arith, h, p))
    | inr p ↦ absurd (ground (arith, h, p))
  ]
  turn-Steps (thread conv) r h = ended-Steps conv y.pc r refl h

events_of-more :
    (a : Turn) (turns : List Turn) → event_of a ++ events_of turns ≡ events_of (a ∷ turns)
unfolding events_of
events_of-more (round e) turns = refl
events_of-more (replied o) turns = refl
events_of-more (thread conv) turns = refl

-- What a schedule does is a run of the two side by side, with the events of the schedule.
pub run_turns-Steps :
    (env : Env) (x : System) (turns : List Turn) (es : List Event) (y z : System)
    → Steps env x es y
    → run_turns env turns y ≡ some z
    → Steps env x (es ++ events_of turns) z
unfolding run_turns events_of
run_turns-Steps env x [] es y z r h =
    let same : y ≡ z = ground (arith, h) in rw (append-nil es) (subst (Steps env x es) same r)
run_turns-Steps env x (a ∷ turns) es y z r h = elim (Option-cases (turn env a y)) [
  | inl f ↦ absurd (ground (arith, h, f))
  | inr (u, f) ↦
      subst (λ fs. Steps env x fs z)
        (append_assoc es (event_of a) (events_of turns)
          ∙ ap (λ l. es ++ l) (events_of-more a turns))
        (run_turns-Steps env x turns (es ++ event_of a) u z (turn-Steps env x es y u a r f)
          (ground (arith, h, f)))
]

-- When `pam_sm_authenticate`, with its loop and the token thread going on in the order of any
-- schedule, returns PAM_SUCCESS, the schedule has an event by which the bus delivered a Success signal
-- of type -1, or by which the callback of GetResult read GET_RESULT_SUCCESS.
pub pam_sm_authenticate-granted :
    (env : Env) (host : Host) (argv : List Bytes) (turns : List Turn) (t : UserData)
    → pam_sm_authenticate env host argv (race env turns) new_user_data ≡ some (Ret.success, t)
    → HasGrant (events_of turns)
unfolding race
pam_sm_authenticate-granted env host argv turns t h =
    let (u, v, p, e, q) = pam_sm_authenticate-through env (race env turns) host argv t h in
    let x : System = record { ud = u; pc = idle; replies = 0 } in
    elim (Option-cases (run_turns env turns x)) [
      | inl f ↦ absurd (ground (arith, e, f))
      | inr (y, f) ↦
          let same : y.ud ≡ v = ground (arith, e, f) in
          race-success env u (events_of turns) y p (run_turns-Steps env x turns [] x y here f)
            (ap (λ (s : UserData). s.res) same ∙ q)
    ]
