-- ===== src/Pam/Protocol/Handlers.antt =====
-- What the handlers of misc/pam-module/auth/mfa.c and sfa.c keep of the session.
use lingmo_authenticate.Common.{
  ◌≡◌, ◌⊎◌, inl, inr, ℤ, minus_one, ◌==ℤ◌, Bool, true, false, Option, none, some, arith, Bytes,
  Bool-cases, codes, ◌++◌, Option-cases, ◌&&◌, not, if◌then◌else◌,
}
use lingmo_authenticate.Pam.Codes.{Ret, Style, Text}
use lingmo_authenticate.Pam.State.{Env, UserData, send, emit, copy_into, copy_into-some}
use lingmo_authenticate.Pam.Mfa.{mfa_verify, mfa_prompt, mfa_failure, mfa_prompt_text}
use lingmo_authenticate.Pam.Sfa.{sfa_verify, sfa_prompt}
use lingmo_authenticate.Pam.Verify.{resolve_verify_msg}
use lingmo_authenticate.Pam.Token.{thread_busy, create_thread}
use lingmo_authenticate.Pam.Loop.{give_token}
use lingmo_authenticate.Pam.Keys.{
  KeyReply, call_encrypt_key_cb, encrypt_symmetric_key, rsa_encrypt_data,
}
use lingmo_authenticate.Pam.Dbus.{dbus_method_set_symmetric_key}
use lingmo_authenticate.Pam.MfaRun.{starts}

-- The data differs in the prompt, the thread, the result, the keys and the calls alone, and no method
-- is started.
abbrev pub Keeps : UserData → UserData → Type 0
Keeps s t =
    (t ≡ record s {
      prompt = t.prompt;
      pid = t.pid;
      need_cancel = t.need_cancel;
      res = t.res;
      key = t.key;
      symmetric_key = t.symmetric_key;
      calls = t.calls;
    })
    × (starts t.calls ≡ starts s.calls)

-- The message of a Verify signal is read without a change of the state.
pub resolve_verify_msg-state :
    (env : Env) (m : Bytes) (s t : UserData) (o : Option (Style × Text))
    → resolve_verify_msg env m s ≡ some (o, t)
    → t ≡ s
unfolding resolve_verify_msg
resolve_verify_msg-state env m s t o h = elim (Option-cases (env.parse m)) [
  | inl e ↦ ground (arith, h, e)
  | inr (json, e) ↦ elim (Option-cases (env.get_string (env.get_ex json "msg").1)) [
    | inl f ↦ absurd (ground (arith, h, e, f))
    | inr (text, f) ↦ elim (Option-cases (copy_into 256 text s)) [
      | inl c ↦ absurd (ground (arith, h, e, f, c))
      | inr ((sub, u), c) ↦
          let (_, same) = copy_into-some 256 text sub s u c in ground (arith, h, e, f, c, same)
    ]
  ]
]

module _ (env : Env) (s t : UserData) where
  pub mfa_verify-Keeps :
      (r : Ret) (m : Bytes) → mfa_verify env m s ≡ some (r, t) → Keeps s t × (r ≡ Ret.pending)
  unfolding mfa_verify send emit
  mfa_verify-Keeps r m h = elim (Option-cases (resolve_verify_msg env m s)) [
    | inl e ↦ absurd (ground (arith, h, e))
    | inr ((none, u), e) ↦
        let same = resolve_verify_msg-state env m s u none e in ground (arith, h, e, same)
    | inr ((some (style, text), u), e) ↦
        let same = resolve_verify_msg-state env m s u (some (style, text)) e in
        ground (arith, h, e, same)
  ]

  pub sfa_verify-Keeps :
      (r : Ret) (m : Bytes) → sfa_verify env m s ≡ some (r, t) → Keeps s t × (r ≡ Ret.pending)
  unfolding sfa_verify send emit
  sfa_verify-Keeps r m h = elim (Option-cases (resolve_verify_msg env m s)) [
    | inl e ↦ absurd (ground (arith, h, e))
    | inr ((none, u), e) ↦
        let same = resolve_verify_msg-state env m s u none e in ground (arith, h, e, same)
    | inr ((some (style, text), u), e) ↦
        let same = resolve_verify_msg-state env m s u (some (style, text)) e in
        ground (arith, h, e, same)
  ]

  thread_busy-Keeps : (b : Bool) → thread_busy env s ≡ some (b, t) → Keeps s t
  unfolding thread_busy emit
  thread_busy-Keeps b h = ground (arith, h)

  create_thread-Keeps :
      (r : Ret) (text : Bytes)
      → create_thread env text s ≡ some (r, t)
      → Keeps s t × ((r ≡ Ret.pending) ⊎ (r ≡ Ret.abort))
  unfolding create_thread emit
  create_thread-Keeps r text h = elim (Option-cases (copy_into 256 text s)) [
    | inl e ↦ absurd (ground (arith, h, e))
    | inr ((prompt, u), e) ↦
        let (_, same) = copy_into-some 256 text prompt s u e in ground (arith, h, e, same)
  ]

  pub mfa_failure-Keeps :
      (r : Ret) (a : ℤ)
      → mfa_failure env a s ≡ some (r, t)
      → Keeps s t × (r ≡ (if a ==ℤ minus_one then Ret.pending else Ret.auth_err))
  unfolding mfa_failure send emit
  mfa_failure-Keeps r a h = ground (arith, h)

  pub give_token-Keeps : give_token s ≡ some (tt, t) → Keeps s t × (t.res ≡ s.res)
  unfolding give_token
  give_token-Keeps h = ground (arith, h)

module _ (env : Env) where
  pub mfa_prompt-Keeps :
      (r : Ret) (a : ℤ) (m : Bytes) (s t : UserData)
      → mfa_prompt env a m s ≡ some (r, t)
      → Keeps s t × ((r ≡ Ret.pending) ⊎ (r ≡ Ret.abort))
  unfolding mfa_prompt send emit
  mfa_prompt-Keeps r a m s t h = elim (Bool-cases (a ==ℤ s.cur_type && not (a ==ℤ minus_one))) [
    | inr c ↦ ground (arith, h, c)
    | inl c ↦ elim (Option-cases (thread_busy env s)) [
      | inl e ↦ absurd (ground (arith, h, c, e))
      | inr ((true, u), e) ↦ let k = thread_busy-Keeps env s u true e in ground (arith, h, c, e, k)
      | inr ((false, u), e) ↦
          let k = thread_busy-Keeps env s u false e in
          elim (Option-cases (mfa_prompt_text s.term a m)) [
            | inl f ↦ absurd (ground (arith, h, c, e, f))
            | inr (text, f) ↦
                let q = create_thread-Keeps env u t r text (ground (arith, h, c, e, f)) in
                ground (arith, k, q)
          ]
    ]
  ]

  pub sfa_prompt-Keeps :
      (r : Ret) (m : Bytes) (s t : UserData)
      → sfa_prompt env m s ≡ some (r, t)
      → Keeps s t × ((r ≡ Ret.pending) ⊎ (r ≡ Ret.abort))
  unfolding sfa_prompt
  sfa_prompt-Keeps r m s t h = elim (Option-cases (thread_busy env s)) [
    | inl e ↦ absurd (ground (arith, h, e))
    | inr ((true, u), e) ↦ let k = thread_busy-Keeps env s u true e in ground (arith, h, e, k)
    | inr ((false, u), e) ↦
        let k = thread_busy-Keeps env s u false e in
        let text = if u.term then m ++ codes ":" else m in
        let q = create_thread-Keeps env u t r text (ground (arith, h, e)) in ground (arith, k, q)
  ]

  -- The callback of EncryptKey.
  pub key_reply-Keeps :
      (reply : KeyReply) (b : Bool) (s t : UserData)
      → call_encrypt_key_cb env reply s ≡ some (b, t)
      → Keeps s t × (t.res ≡ s.res)
  unfolding call_encrypt_key_cb encrypt_symmetric_key rsa_encrypt_data dbus_method_set_symmetric_key
      emit
  key_reply-Keeps reply b s t h = ground (arith, h)
