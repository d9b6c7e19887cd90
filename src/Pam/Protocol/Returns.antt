-- ===== src/Pam/Protocol/Returns.antt =====
-- When the cases that the handlers of misc/pam-module/auth/mfa.c and sfa.c share return.
use lingmo_authenticate.Common.{
  ◌<◌, ◌≡◌, false, not, Bool, Option, none, some, ◌∷◌, Bytes, length, arith, Bool-cases,
  Option-cases, inl, inr, ◌==◌, ◌==ℤ◌, if◌then◌else◌,
}
use lingmo_authenticate.Pam.Codes.{Ret, Style, Text, at_fingerprint}
use lingmo_authenticate.Pam.State.{Env, UserData, Call, emit, send, copy_into-fits}
use lingmo_authenticate.Pam.Verify.{resolve_verify_msg, fingerprint_message}
use lingmo_authenticate.Pam.Token.{thread_busy, create_thread}
use lingmo_authenticate.Pam.Mfa.{mfa_verify}
use lingmo_authenticate.Pam.Sfa.{sfa_verify}

-- The text in the JSON text of a Verify signal is there, and fits its buffer.
abbrev pub IsMessage : Env → Bytes → Type 0
IsMessage env m =
    (json : env.Json)
    → env.parse m ≡ some json
    → (text : Bytes) × (env.get_string (env.get_ex json "msg").1 ≡ some text) × (length text < 256)

module _ (env : Env) (s : UserData) where
  resolve_verify_msg-returns :
      (m : Bytes)
      → IsMessage env m
      → (o : Option (Style × Text)) × (resolve_verify_msg env m s ≡ some (o, s))
  unfolding resolve_verify_msg
  resolve_verify_msg-returns m h = elim (Option-cases (env.parse m)) [
    | inl e ↦ (none, ground (arith, e))
    | inr (json, e) ↦
        let (text, f, short) = h json e in
        (
          if env.get_int (env.get_ex json "flag").1 ==ℤ at_fingerprint
              then fingerprint_message env (env.get_int (env.get_ex json "code").1) text
              else none,
          ground (arith, e, f, copy_into-fits 256 text s short),
        )
  ]

  pub mfa_verify-returns :
      (m : Bytes)
      → IsMessage env m
      → (r : Ret) × (t : UserData) × (mfa_verify env m s ≡ some (r, t))
  unfolding mfa_verify send emit
  mfa_verify-returns m h =
      let (o, e) = resolve_verify_msg-returns m h in
      elim (Option-cases o) [
        | inl f ↦ (Ret.pending, s, ground (arith, e, f))
        | inr ((style, text), f) ↦ (
          Ret.pending,
          record s { calls = Call.send_msg text style ∷ s.calls },
          ground (arith, e, f),
        )
      ]

  pub sfa_verify-returns :
      (m : Bytes)
      → IsMessage env m
      → (r : Ret) × (t : UserData) × (sfa_verify env m s ≡ some (r, t))
  unfolding sfa_verify send emit
  sfa_verify-returns m h =
      let (o, e) = resolve_verify_msg-returns m h in
      elim (Option-cases o) [
        | inl f ↦ (Ret.pending, s, ground (arith, e, f))
        | inr ((style, text), f) ↦ (
          Ret.pending,
          record s { calls = Call.send_msg text style ∷ s.calls },
          ground (arith, e, f),
        )
      ]

  pub thread_busy-returns : (b : Bool) × (t : UserData) × (thread_busy env s ≡ some (b, t))
  unfolding thread_busy emit
  thread_busy-returns = elim (Bool-cases (s.pid == 0)) [
    | inl e ↦ (false, s, ground (arith, e))
    | inr e ↦
        let u : UserData = record s { calls = Call.thread_kill s.pid ∷ s.calls } in
        (not (env.no_thread u.calls), u, ground (arith, e))
  ]

  pub create_thread-returns :
      (text : Bytes)
      → length text < 256
      → (r : Ret) × (t : UserData) × (create_thread env text s ≡ some (r, t))
  unfolding create_thread emit
  create_thread-returns text short =
      let cs = Call.thread_create ∷ s.calls in
      (
        if env.fails cs then Ret.abort else Ret.pending,
        record s { prompt = text; pid = env.new_thread cs; calls = cs },
        ground (arith, copy_into-fits 256 text s short),
      )
