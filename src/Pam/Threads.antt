-- ===== src/Pam/Threads.antt =====
-- The D-Bus loop and the token thread of misc/pam-module/auth/pam.c side by side: an event of the
-- loop, and what the thread does between two waits, are taken as one step each.
pub mod Parts
pub mod Frame
pub mod Race
pub mod Lost
pub mod Schedule
use lingmo_authenticate.Common.{
  ℕ, zero, suc, ◌≡◌, ◌&&◌, ltb, length, ℤ, pos, Bool, true, false, not, Option, none, some, List,
  [], ◌∷◌, ◌++◌, Bytes,
}
use lingmo_authenticate.Pam.State.{Env, Call, UserData}
use lingmo_authenticate.Pam.Loop.{BusEvent, is_pending, on_event}
use lingmo_authenticate.Pam.Request.{
  Conv, split_data, ask, send_get_result, set_waiting, after_wait, hand_over, call_get_result_cb,
}

-- Where the token thread stands: there is none or it has ended; it has begun; it has taken the
-- answer apart; GetResult was called; it waits; the answer has no path.
pub data Pc : Type 0 where
  idle : Pc
  started : Pc
  calling : Bytes → Bytes → Option Bytes → Pc
  sent : Bytes → Option Bytes → Pc
  waiting : Bytes → Option Bytes → Pc
  giving : Bytes → Pc

-- `replies` counts the calls of GetResult whose callback has not run yet.
pub record System : Type 0 where
  pub ud : UserData
  pub pc : Pc
  pub replies : ℕ

-- What comes from outside: an event of the bus, which may be the reply of EncryptKey for its callback,
-- or the reply of GetResult for its callback.
pub data Event : Type 0 where
  bus : BusEvent → Event
  reply : Option ℤ → Event

unfoldable pub is_create : Call → Bool
is_create Call.thread_create = true
is_create _ = false

-- Whether the last call since `s` has created a thread.
unfoldable pub creates : Env → UserData → UserData → Bool
creates env s t = elim t.calls [
  | [] ↦ false
  | c ∷ cs ↦ ltb (length s.calls) (length (c ∷ cs)) && is_create c && not (env.fails (c ∷ cs))
]

-- One step, with the events that it takes. The loop goes on while there is no result; the callback
-- runs in it.
pub data Step (env : Env) (x : System) (es : List Event) (y : System) : Type 0 where
  loop_step :
      (e : BusEvent) (t : UserData)
      → is_pending x.ud.res ≡ true
      → on_event env e x.ud ≡ some (tt, t)
      → creates env x.ud t ≡ false
      → es ≡ bus e ∷ []
      → y ≡ record x { ud = t }
      → Step env x es y
  loop_creates :
      (e : BusEvent) (t : UserData)
      → is_pending x.ud.res ≡ true
      → on_event env e x.ud ≡ some (tt, t)
      → creates env x.ud t ≡ true
      → x.pc ≡ idle
      → es ≡ bus e ∷ []
      → y ≡ record x { ud = t; pc = started }
      → Step env x es y
  loop_replied :
      (r : Option ℤ) (n : ℕ) (t : UserData)
      → is_pending x.ud.res ≡ true
      → x.replies ≡ suc n
      → call_get_result_cb r x.ud ≡ some (tt, t)
      → es ≡ reply r ∷ []
      → y ≡ record x { ud = t; replies = n }
      → Step env x es y
  no_answer :
      (conv : Conv) (t : UserData)
      → x.pc ≡ started
      → ask env conv x.ud ≡ some (none, t)
      → es ≡ []
      → y ≡ record x { ud = t; pc = idle }
      → Step env x es y
  answer_with_path :
      (conv : Conv) (t : UserData) (resp path : Bytes) (tok : Option Bytes)
      → x.pc ≡ started
      → ask env conv x.ud ≡ some (some resp, t)
      → split_data resp ≡ some (path, tok)
      → es ≡ []
      → y ≡ record x { ud = t; pc = calling resp path tok }
      → Step env x es y
  answer_only :
      (conv : Conv) (t : UserData) (resp : Bytes)
      → x.pc ≡ started
      → ask env conv x.ud ≡ some (some resp, t)
      → split_data resp ≡ none
      → es ≡ []
      → y ≡ record x { ud = t; pc = giving resp }
      → Step env x es y
  call_sent :
      (t : UserData) (resp path : Bytes) (tok : Option Bytes)
      → x.pc ≡ calling resp path tok
      → send_get_result env path x.ud ≡ some (false, t)
      → es ≡ []
      → y ≡ record { ud = t; pc = sent resp tok; replies = suc x.replies }
      → Step env x es y
  call_failed :
      (t : UserData) (resp path : Bytes) (tok : Option Bytes)
      → x.pc ≡ calling resp path tok
      → send_get_result env path x.ud ≡ some (true, t)
      → es ≡ []
      → y ≡ record x { ud = t; pc = waiting resp tok }
      → Step env x es y
  wait :
      (t : UserData) (resp : Bytes) (tok : Option Bytes)
      → x.pc ≡ sent resp tok
      → set_waiting x.ud ≡ some (tt, t)
      → es ≡ []
      → y ≡ record x { ud = t; pc = waiting resp tok }
      → Step env x es y
  wake :
      (t : UserData) (resp : Bytes) (tok : Option Bytes)
      → x.pc ≡ waiting resp tok
      → x.ud.waiting_result ≡ false
      → after_wait env resp tok x.ud ≡ some (tt, t)
      → es ≡ []
      → y ≡ record x { ud = t; pc = idle }
      → Step env x es y
  give :
      (t : UserData) (resp : Bytes)
      → x.pc ≡ giving resp
      → hand_over env resp x.ud ≡ some (tt, t)
      → es ≡ []
      → y ≡ record x { ud = t; pc = idle }
      → Step env x es y

-- Any number of steps, with their events in order.
pub data Steps (env : Env) (x : System) : List Event → System → Type 0 where
  here : Steps env x [] x
  later :
      {es fs : List Event} {y z : System}
      → Steps env x es y
      → Step env y fs z
      → Steps env x (es ++ fs) z
