-- ===== src/Pam/Protocol/Total.antt =====
-- When the D-Bus loop of misc/pam-module/auth/pam.c returns: no event leads into undefined behaviour.
use lingmo_authenticate.Common.{
  ◌<◌, ◌≡◌, ◌∙◌, inl, inr, refl, ℤ, true, false, Option, some, List, [], ◌∷◌, arith, Bool-cases,
  Option-cases, length,
}
use lingmo_authenticate.Pam.Codes.{Ret, AuthStutaCode}
use lingmo_authenticate.Pam.State.{Env, Call, AuthSession, Pubkey, UserData, copy_into-fits}
use lingmo_authenticate.Pam.Loop.{
  Signal, BusEvent, process_error, status, key_reply, other, waited, wait_error, deal, give_token,
  handle_signal, bus_signal_cb, on_event, bus_loop, set_res, is_pending, is_success,
}
use lingmo_authenticate.Pam.Keys.Frame.{call_encrypt_key_cb-returns}
use lingmo_authenticate.Pam.Threads.Frame.{bus_signal_cb-wait}
use lingmo_authenticate.Pam.Loop.Safety.{pending_of}
use lingmo_authenticate.Pam.Protocol.{event}
use lingmo_authenticate.Pam.Protocol.Handlers.{Keeps, give_token-Keeps, key_reply-Keeps}
use lingmo_authenticate.Pam.Protocol.Run.{Mode, Reaches, bus_loop-Reaches, on_event-Follows}

-- A mode whose handler returns: from data that is ready for it, on signals that are tame where the
-- session is.
pub record Total {env : Env} {ctrl : AuthSession} {S : Type 0} (mode : Mode env ctrl S)
    : Type 1 where
  pub IsReady : UserData → Type 0
  pub IsTame : S → Signal → Type 0
  pub stays : (s t : UserData) → IsReady s → Keeps s t → IsReady t
  pub returns :
      (x : S) (signal : Signal) (s : UserData)
      → mode.IsAt x s
      → IsReady s
      → IsTame x signal
      → (r : Ret) × (t : UserData) × (deal env ctrl signal s ≡ some (r, t)) × IsReady t

-- The public key is not null: `pam_sm_authenticate` allocates it before the loop.
abbrev pub HasKey : UserData → Type 0
HasKey s = (key : Pubkey) × (s.key ≡ some key)

-- The sender's path fits its buffer, and the signal, if it can be read, is tame.
abbrev pub TameEvent : {S : Type 0} → (S → Signal → Type 0) → S → BusEvent → Type 0
TameEvent IsTame x (status signal) =
    (length signal.sender < 256) × (signal.readable ≡ true → IsTame x signal)
TameEvent IsTame x _ = Unit

-- Each event is tame where the session is when it comes.
abbrev pub AllTame :
    {S : Type 0}
    → (S → Option AuthStutaCode → ℤ → S × Ret)
    → (S → Signal → Type 0)
    → S
    → List BusEvent
    → Type 0
AllTame verdict IsTame x [] = Unit
AllTame verdict IsTame x (e ∷ es) =
    TameEvent IsTame x e × AllTame verdict IsTame (event verdict x e).0 es

module _ {env : Env} {ctrl : AuthSession} {S : Type 0} (mode : Mode env ctrl S)
    (total : Total mode) where
  open mode use {verdict, IsAt, is_open}
  open total use {IsReady, IsTame, stays, returns}

  pub bus_loop-stops :
      (es : List BusEvent) (s : UserData)
      → is_pending s.res ≡ false
      → bus_loop env es s ≡ some (tt, s)
  unfolding bus_loop
  bus_loop-stops [] s h = refl
  bus_loop-stops (e ∷ es) s h = ground (arith, h)

  give_token-returns : (s : UserData) → (t : UserData) × (give_token s ≡ some (tt, t))
  unfolding give_token
  give_token-returns s = elim (Bool-cases (is_success s.res)) [
    | inr e ↦ (s, ground (arith, e))
    | inl e ↦ elim (Option-cases s.auth_tok) [
      | inl f ↦ (s, ground (arith, e, f))
      | inr (tok, f) ↦ (record s { calls = Call.set_authtok tok ∷ s.calls }, ground (arith, e, f))
    ]
  ]

  handle_signal-returns :
      (x : S) (signal : Signal) (s : UserData)
      → IsAt x s
      → IsReady s
      → (signal.readable ≡ true → IsTame x signal)
      → (t : UserData) × (handle_signal env signal s ≡ some (tt, t)) × IsReady t
  unfolding handle_signal set_res
  handle_signal-returns x signal s h ready tame = elim (Bool-cases signal.readable) [
    | inr f ↦ (s, ground (arith, f), ready)
    | inl f ↦
        let c = is_open x s h in
        let (r, u, g, after) = returns x signal s h ready (tame f) in
        let set : UserData = record u { res = r } in
        let (t, k) = give_token-returns set in
        let (kept, _) = give_token-Keeps env set t k in
        (t, ground (arith, f, c, g, k), stays set t (stays u set after (refl, refl)) kept)
  ]

  pub on_event-returns :
      (x : S) (e : BusEvent) (s : UserData)
      → IsAt x s
      → IsReady s
      → HasKey s
      → TameEvent IsTame x e
      → (t : UserData) × (on_event env e s ≡ some (tt, t)) × IsReady t × HasKey t
  unfolding on_event bus_signal_cb set_res
  on_event-returns x (status signal) s h ready (key, has) (short, tame) =
      let (t, e, after) = handle_signal-returns x signal s h ready tame in
      let run : bus_signal_cb env signal s ≡ some (tt, t) =
        ground (arith, e, copy_into-fits 256 signal.sender s short) in
      let kept = (bus_signal_cb-wait env signal s t run).key in (t, run, after, (key, kept ∙ has))
  on_event-returns x (key_reply reply) s h ready (key, has) tame =
      let (b, t, e, there) = call_encrypt_key_cb-returns env reply key s has in
      let (kept, _) = key_reply-Keeps env reply b s t e in
      (t, ground (arith, e), stays s t ready kept, there)
  on_event-returns x process_error s h ready there tame = (
    record s { res = Ret.abort },
    refl,
    stays s (record s { res = Ret.abort }) ready (refl, refl),
    there,
  )
  on_event-returns x wait_error s h ready there tame = (
    record s { res = Ret.abort },
    refl,
    stays s (record s { res = Ret.abort }) ready (refl, refl),
    there,
  )
  on_event-returns x other s h ready there tame = (s, refl, ready, there)
  on_event-returns x waited s h ready there tame = (s, refl, ready, there)

  loop-returns :
      (es : List BusEvent) (x : S) (s : UserData)
      → IsAt x s
      → IsReady s
      → HasKey s
      → s.res ≡ Ret.pending
      → AllTame verdict IsTame x es
      → (t : UserData) × (bus_loop env es s ≡ some (tt, t))
  unfolding bus_loop
  loop-returns [] x s h ready there p tame = (s, refl)
  loop-returns (e ∷ es) x s h ready there p (now, later) =
      let (u, g, after, has) = on_event-returns x e s h ready there now in
      let (at, _) = on_event-Follows mode x e s u h p g in
      elim (Bool-cases (is_pending u.res)) [
        | inl more ↦
            let (t, f) = loop-returns es _ u at after has (pending_of u.res more) later in
            (t, ground (arith, p, g, f))
        | inr done ↦ (u, ground (arith, p, g, bus_loop-stops es u done))
      ]

  -- In such a mode the loop returns on tame events, and ends as the session does.
  pub bus_loop-total :
      (es : List BusEvent) (x : S) (s : UserData)
      → IsAt x s
      → IsReady s
      → HasKey s
      → s.res ≡ Ret.pending
      → AllTame verdict IsTame x es
      → (t : UserData) × (bus_loop env es s ≡ some (tt, t)) × Reaches verdict IsAt x es t
  bus_loop-total es x s h ready there p tame =
      let (t, f) = loop-returns es x s h ready there p tame in
      (t, f, bus_loop-Reaches mode es x s t h p f)
