-- ===== src/Pam/Protocol/Run.antt =====
-- The D-Bus loop of misc/pam-module/auth/pam.c in a mode that keeps to an abstract session.
use lingmo_authenticate.Common.{
  ℕ, suc, ◌≡◌, ◌⊎◌, inl, inr, refl, ◌∙◌, ℤ, false, Option, some, List, [], ◌∷◌, arith, Bool-cases,
  Option-cases, take,
}
use lingmo_authenticate.Pam.Codes.{Ret, AuthStutaCode, code_of_int}
use lingmo_authenticate.Pam.State.{Env, AuthSession, UserData, copy_into, copy_into-some}
use lingmo_authenticate.Pam.Loop.{
  Signal, BusEvent, process_error, status, key_reply, other, waited, wait_error, deal, give_token,
  handle_signal, bus_signal_cb, on_event, bus_loop, set_res, is_pending,
}
use lingmo_authenticate.Pam.Keys.{call_encrypt_key_cb}
use lingmo_authenticate.Pam.Loop.Safety.{pending_of, bus_loop-done}
use lingmo_authenticate.Pam.Protocol.{event, session}
use lingmo_authenticate.Pam.Protocol.Handlers.{Keeps, give_token-Keeps, key_reply-Keeps}

-- The result is the expected one, or the module gives up where it would go on.
abbrev pub IsResult : Ret → Ret → Type 0
IsResult expected r = (r ≡ expected) ⊎ ((expected ≡ Ret.pending) × (r ≡ Ret.abort))

-- A mode of the module: what a signal does to its session, when the data is where a session is, and
-- that its handler does so.
pub record Mode (env : Env) (ctrl : AuthSession) (S : Type 0) : Type 1 where
  pub verdict : S → Option AuthStutaCode → ℤ → S × Ret
  pub IsAt : S → UserData → Type 0
  pub is_open : (x : S) (s : UserData) → IsAt x s → s.auth_ctrl ≡ some ctrl
  pub keeps : (x : S) (s t : UserData) → IsAt x s → Keeps s t → IsAt x t
  pub deals :
      (x : S) (signal : Signal) (s t : UserData) (r : Ret)
      → IsAt x s
      → deal env ctrl signal s ≡ some (r, t)
      → let v = verdict x (code_of_int signal.code) signal.auth_type in IsAt v.0 t × IsResult v.1 r

module _ {S : Type 0} (verdict : S → Option AuthStutaCode → ℤ → S × Ret) where
  pub session-more :
      (x : S) (e : BusEvent) (es : List BusEvent)
      → (event verdict x e).1 ≡ Ret.pending
      → session verdict x (e ∷ es) ≡ session verdict (event verdict x e).0 es
  unfolding session is_pending
  session-more x e es h = ground (arith, h)

  pub session-done :
      (x : S) (e : BusEvent) (es : List BusEvent)
      → is_pending (event verdict x e).1 ≡ false
      → session verdict x (e ∷ es) ≡ event verdict x e
  unfolding session
  session-done x e es h = ground (arith, h)

module _ {S : Type 0} (verdict : S → Option AuthStutaCode → ℤ → S × Ret)
    (IsAt : S → UserData → Type 0) where
  abbrev pub Follows : S × Ret → UserData → Type 0
  Follows v t = IsAt v.0 t × IsResult v.1 t.res

  -- The data is where the session has come to, with its result, unless the module gave up before.
  abbrev pub Reaches : S → List BusEvent → UserData → Type 0
  Reaches x es t =
      (IsAt (session verdict x es).0 t × (t.res ≡ (session verdict x es).1))
      ⊎ ((n : ℕ) × (y : S) × (session verdict x (take n es) ≡ (y, Ret.pending))
          × IsAt y t
          × (t.res ≡ Ret.abort))

  Reaches-more :
      (x : S) (e : BusEvent) (es : List BusEvent) (t : UserData)
      → (event verdict x e).1 ≡ Ret.pending
      → Reaches (event verdict x e).0 es t
      → Reaches x (e ∷ es) t
  Reaches-more x e es t h (inl w) = inl (rw (session-more verdict x e es h) w)
  Reaches-more x e es t h (inr (n, y, q, at, a)) =
      inr (suc n, y, session-more verdict x e (take n es) h ∙ q, at, a)

  Reaches-done :
      (x : S) (e : BusEvent) (es : List BusEvent) (t : UserData)
      → is_pending t.res ≡ false
      → Follows (event verdict x e) t
      → Reaches x (e ∷ es) t
  unfolding session
  Reaches-done x e es t h (at, inl q) =
      let done = session-done verdict x e es (rw q at h) in inl (rw done (at, q))
  Reaches-done x e es t h (at, inr (q, a)) =
      inr (1, (event verdict x e).0, session-more verdict x e [] q, at, a)

module _ {env : Env} {ctrl : AuthSession} {S : Type 0} (mode : Mode env ctrl S) where
  open mode use {verdict, IsAt, is_open, keeps, deals}

  handle_signal-Follows :
      (x : S) (signal : Signal) (s t : UserData)
      → IsAt x s
      → s.res ≡ Ret.pending
      → handle_signal env signal s ≡ some (tt, t)
      → Follows verdict IsAt (event verdict x (status signal)) t
  unfolding handle_signal set_res event
  handle_signal-Follows x signal s t h p e =
      let c = is_open x s h in
      elim (Bool-cases signal.readable) [
        | inr f ↦ let same : t ≡ s = ground (arith, e, f) in rw (f, same) (h, inl p)
        | inl f ↦ elim (Option-cases (deal env ctrl signal s)) [
          | inl g ↦ absurd (ground (arith, e, f, c, g))
          | inr ((r, u), g) ↦
              let set : UserData = record u { res = r } in
              let given : give_token set ≡ some (tt, t) = ground (arith, e, f, c, g) in
              let (kept, q) = give_token-Keeps env set t given in
              let (at, out) = deals x signal s u r h g in
              let here = keeps _ u set at (refl, refl) in rw f (keeps _ set t here kept, rw q out)
        ]
      ]

  aborted :
      (x : S) (s t : UserData)
      → IsAt x s
      → t ≡ record s { res = Ret.abort }
      → Follows verdict IsAt (x, Ret.abort) t
  aborted x s t h same = rw same (keeps x s (record s { res = Ret.abort }) h (refl, refl), inl refl)

  pub on_event-Follows :
      (x : S) (e : BusEvent) (s t : UserData)
      → IsAt x s
      → s.res ≡ Ret.pending
      → on_event env e s ≡ some (tt, t)
      → Follows verdict IsAt (event verdict x e) t
  unfolding on_event event bus_signal_cb set_res
  on_event-Follows x (status signal) s t h p e =
      elim (Option-cases (copy_into 256 signal.sender s)) [
        | inl f ↦ absurd (ground (arith, e, f))
        | inr ((path, u), f) ↦
            let (_, same) = copy_into-some 256 signal.sender path s u f in
            handle_signal-Follows x signal s t h p (ground (arith, e, f, same))
      ]
  on_event-Follows x (key_reply reply) s t h p f =
      elim (Option-cases (call_encrypt_key_cb env reply s)) [
        | inl g ↦ absurd (ground (arith, f, g))
        | inr ((b, u), g) ↦
            let (kept, q) = key_reply-Keeps env reply b s u g in
            let same : t ≡ u = ground (arith, f, g) in rw same (keeps x s u h kept, inl (q ∙ p))
      ]
  on_event-Follows x process_error s t h p f = aborted x s t h (ground (arith, f))
  on_event-Follows x wait_error s t h p f = aborted x s t h (ground (arith, f))
  on_event-Follows x other s t h p f = let same : t ≡ s = ground (arith, f) in rw same (h, inl p)
  on_event-Follows x waited s t h p f = let same : t ≡ s = ground (arith, f) in rw same (h, inl p)

  -- In a mode whose handler keeps to its session, the loop does too: whatever the bus delivers, it
  -- ends where the session over the same events has come to, with its result; or it gives up with
  -- PAM_ABORT where the session, over the first of these events, would still go on.
  pub bus_loop-Reaches :
      (es : List BusEvent) (x : S) (s t : UserData)
      → IsAt x s
      → s.res ≡ Ret.pending
      → bus_loop env es s ≡ some (tt, t)
      → Reaches verdict IsAt x es t
  unfolding bus_loop session
  bus_loop-Reaches [] x s t h p f = let same : t ≡ s = ground (arith, f) in rw same (inl (h, p))
  bus_loop-Reaches (e ∷ es) x s t h p f = elim (Option-cases (on_event env e s)) [
    | inl g ↦ absurd (ground (arith, p, f, g))
    | inr ((_, u), g) ↦
        let rest : bus_loop env es u ≡ some (tt, t) = ground (arith, p, f, g) in
        let (at, out) = on_event-Follows x e s u h p g in
        elim (Bool-cases (is_pending u.res)) [
          | inl more ↦
              let q = pending_of u.res more in
              let expected : (event verdict x e).1 ≡ Ret.pending = ground (arith, out, q) in
              Reaches-more verdict IsAt x e es t expected (bus_loop-Reaches es _ u t at q rest)
          | inr done ↦
              let same : t ≡ u = bus_loop-done env es u t done rest in
              rw same (Reaches-done verdict IsAt x e es u done (at, out))
        ]
  ]
