-- ===== src/Pam/Protocol/Exact.antt =====
-- The D-Bus loop of misc/pam-module/auth/pam.c where nothing makes the module give up.
use lingmo_authenticate.Common.{
  ◌≡◌, refl, sym, ◌∙◌, ℤ, minus_one, ◌==ℤ◌, ◌&&◌, ◌++◌, not, codes, if◌then◌else◌, Bool, Bytes,
  true, false, some, List, [], ◌∷◌, arith, Bool-cases, Option-cases, inl, inr,
}
use lingmo_authenticate.Pam.Codes.{Ret, code_of_int}
use lingmo_authenticate.Pam.State.{
  Env, Call, AuthSession, UserData, send, emit, copy_into, copy_into-some,
}
use lingmo_authenticate.Pam.Token.{thread_busy, create_thread}
use lingmo_authenticate.Pam.Sfa.{sfa_prompt}
use lingmo_authenticate.Pam.Mfa.{mfa_prompt, mfa_prompt_text}
use lingmo_authenticate.Pam.Loop.{
  Signal, BusEvent, process_error, status, key_reply, other, waited, wait_error, deal, give_token,
  handle_signal, bus_signal_cb, on_event, bus_loop, set_res, is_pending,
}
use lingmo_authenticate.Pam.Keys.{call_encrypt_key_cb}
use lingmo_authenticate.Pam.Loop.Safety.{pending_of}
use lingmo_authenticate.Pam.Protocol.{event, session}
use lingmo_authenticate.Pam.Protocol.Handlers.{give_token-Keeps, key_reply-Keeps}
use lingmo_authenticate.Pam.Protocol.Run.{Mode, on_event-Follows, session-more, session-done}
use lingmo_authenticate.Pam.Protocol.Total.{
  Total, HasKey, AllTame, on_event-returns, bus_loop-stops,
}

-- What the surroundings grant: each call of the service succeeds with a reply that can be read, each
-- thread is created, and none is left when the next one is asked for.
pub record Grants (env : Env) : Type 0 where
  pub takes : (cs : List Call) → env.fails cs ≡ false
  pub replies : (cs : List Call) → env.unreadable cs ≡ false
  pub ended : (cs : List Call) → env.no_thread cs ≡ true

-- The threads of a prompt.
module _ (env : Env) (grants : Grants env) (s t : UserData) where
  thread_busy-ended : (b : Bool) → thread_busy env s ≡ some (b, t) → b ≡ false
  unfolding thread_busy emit
  thread_busy-ended b h = ground (arith, h, grants.ended (Call.thread_kill s.pid ∷ s.calls))

  create_thread-created :
      (r : Ret) (text : Bytes) → create_thread env text s ≡ some (r, t) → r ≡ Ret.pending
  unfolding create_thread emit
  create_thread-created r text h = elim (Option-cases (copy_into 256 text s)) [
    | inl e ↦ absurd (ground (arith, h, e))
    | inr ((prompt, u), e) ↦
        let (_, same) = copy_into-some 256 text prompt s u e in
        ground (arith, h, e, same, grants.takes (Call.thread_create ∷ s.calls))
  ]

module _ (env : Env) (grants : Grants env) where
  pub sfa_prompt-pending :
      (r : Ret) (m : Bytes) (s t : UserData) → sfa_prompt env m s ≡ some (r, t) → r ≡ Ret.pending
  unfolding sfa_prompt
  sfa_prompt-pending r m s t h = elim (Option-cases (thread_busy env s)) [
    | inl e ↦ absurd (ground (arith, h, e))
    | inr ((b, u), e) ↦
        let free = thread_busy-ended env grants s u b e in
        let text = if u.term then m ++ codes ":" else m in
        create_thread-created env grants u t r text (ground (arith, h, e, free))
  ]

  pub mfa_prompt-pending :
      (r : Ret) (a : ℤ) (m : Bytes) (s t : UserData)
      → mfa_prompt env a m s ≡ some (r, t)
      → r ≡ Ret.pending
  unfolding mfa_prompt send emit
  mfa_prompt-pending r a m s t h = elim (Bool-cases (a ==ℤ s.cur_type && not (a ==ℤ minus_one))) [
    | inr c ↦ ground (arith, h, c)
    | inl c ↦ elim (Option-cases (thread_busy env s)) [
      | inl e ↦ absurd (ground (arith, h, c, e))
      | inr ((b, u), e) ↦
          let free = thread_busy-ended env grants s u b e in
          elim (Option-cases (mfa_prompt_text s.term a m)) [
            | inl f ↦ absurd (ground (arith, h, c, e, free, f))
            | inr (text, f) ↦
                create_thread-created env grants u t r text (ground (arith, h, c, e, free, f))
          ]
    ]
  ]

module _ {env : Env} {ctrl : AuthSession} {S : Type 0} (mode : Mode env ctrl S)
    (total : Total mode) where
  open mode use {verdict, IsAt, is_open}
  open total use {IsReady, IsTame}

  -- The handler gives the result of the session.
  abbrev pub IsExact : Type 0
  IsExact =
      (x : S) (signal : Signal) (s t : UserData) (r : Ret)
      → IsAt x s
      → deal env ctrl signal s ≡ some (r, t)
      → r ≡ (verdict x (code_of_int signal.code) signal.auth_type).1

  module _ (exact : IsExact) where
    handle_signal-exact :
        (x : S) (signal : Signal) (s t : UserData)
        → IsAt x s
        → s.res ≡ Ret.pending
        → handle_signal env signal s ≡ some (tt, t)
        → t.res ≡ (event verdict x (status signal)).1
    unfolding handle_signal set_res event
    handle_signal-exact x signal s t h p e =
        let c = is_open x s h in
        elim (Bool-cases signal.readable) [
          | inr f ↦ let same : t ≡ s = ground (arith, e, f) in rw (f, same) p
          | inl f ↦ elim (Option-cases (deal env ctrl signal s)) [
            | inl g ↦ absurd (ground (arith, e, f, c, g))
            | inr ((r, u), g) ↦
                let set : UserData = record u { res = r } in
                let given : give_token set ≡ some (tt, t) = ground (arith, e, f, c, g) in
                let (_, q) = give_token-Keeps env set t given in rw f (q ∙ exact x signal s u r h g)
          ]
        ]

    on_event-exact :
        (x : S) (e : BusEvent) (s t : UserData)
        → IsAt x s
        → s.res ≡ Ret.pending
        → on_event env e s ≡ some (tt, t)
        → t.res ≡ (event verdict x e).1
    unfolding on_event event bus_signal_cb set_res
    on_event-exact x (status signal) s t h p e =
        elim (Option-cases (copy_into 256 signal.sender s)) [
          | inl f ↦ absurd (ground (arith, e, f))
          | inr ((path, u), f) ↦
              let (_, same) = copy_into-some 256 signal.sender path s u f in
              handle_signal-exact x signal s t h p (ground (arith, e, f, same))
        ]
    on_event-exact x (key_reply reply) s t h p e =
        elim (Option-cases (call_encrypt_key_cb env reply s)) [
          | inl g ↦ absurd (ground (arith, e, g))
          | inr ((b, u), g) ↦
              let (_, q) = key_reply-Keeps env reply b s u g in
              let same : t ≡ u = ground (arith, e, g) in rw same (q ∙ p)
        ]
    on_event-exact x process_error s t h p e = ground (arith, e)
    on_event-exact x wait_error s t h p e = ground (arith, e)
    on_event-exact x other s t h p e = ground (arith, e, p)
    on_event-exact x waited s t h p e = ground (arith, e, p)

    -- On tame events the loop returns, exactly where and with what result the session ends.
    pub bus_loop-exact :
        (es : List BusEvent) (x : S) (s : UserData)
        → IsAt x s
        → IsReady s
        → HasKey s
        → s.res ≡ Ret.pending
        → AllTame verdict IsTame x es
        → (t : UserData) × (bus_loop env es s ≡ some (tt, t))
          × (IsAt (session verdict x es).0 t × (t.res ≡ (session verdict x es).1))
    unfolding bus_loop session
    bus_loop-exact [] x s h ready there p tame = (s, refl, (h, p))
    bus_loop-exact (e ∷ es) x s h ready there p (now, later) =
        let (u, g, after, has) = on_event-returns mode total x e s h ready there now in
        let (at, _) = on_event-Follows mode x e s u h p g in
        let same = on_event-exact x e s u h p g in
        elim (Bool-cases (is_pending u.res)) [
          | inl more ↦
              let q = pending_of u.res more in
              let (t, f, ended) = bus_loop-exact es _ u at after has q later in
              (t, ground (arith, p, g, f), rw (session-more verdict x e es (sym same ∙ q)) ended)
          | inr done ↦ (
            u,
            ground (arith, p, g, bus_loop-stops mode total es u done),
            rw (session-done verdict x e es (rw same at done)) (at, same),
          )
        ]
