-- ===== src/Pam/Keys/Frame.antt =====
-- What the callback of EncryptKey in misc/pam-module/auth/dbus.c writes, and when it returns.
use lingmo_authenticate.Common.{
  ◌≡◌, refl, ◌∷◌, Bool, true, ◌||◌, not, some, arith, Bool-cases, Option-cases, inl, inr, ltb_ℤ,
  pos, if◌then◌else◌,
}
use lingmo_authenticate.Pam.State.{Env, Call, Pubkey, UserData, emit}
use lingmo_authenticate.Pam.Dbus.{dbus_method_set_symmetric_key}
use lingmo_authenticate.Pam.Keys.{
  KeyReply, gen_rsa_pubkey, rsa_encrypt_data, encrypt_symmetric_key, call_encrypt_key_cb,
}
use lingmo_authenticate.Pam.Keys.Exchange.{gen_symmetric_key-some}

module _ (env : Env) (reply : KeyReply) where
  pub call_encrypt_key_cb-frame :
      (b : Bool) (s t : UserData)
      → call_encrypt_key_cb env reply s ≡ some (b, t)
      → t ≡ record s { key = t.key; symmetric_key = t.symmetric_key; calls = t.calls }
  unfolding call_encrypt_key_cb encrypt_symmetric_key rsa_encrypt_data dbus_method_set_symmetric_key
      emit
  call_encrypt_key_cb-frame b s t h = ground (arith, h)

  -- With a key the callback returns, and the key is there afterwards.
  pub call_encrypt_key_cb-returns :
      (key : Pubkey) (s : UserData)
      → s.key ≡ some key
      → (b : Bool) × (t : UserData) × (call_encrypt_key_cb env reply s ≡ some (b, t))
        × ((k : Pubkey) × (t.key ≡ some k))
  unfolding call_encrypt_key_cb encrypt_symmetric_key rsa_encrypt_data dbus_method_set_symmetric_key
      emit
  call_encrypt_key_cb-returns key s has = elim (Bool-cases (reply.error || not reply.is_return)) [
    | inl e ↦ (true, s, ground (arith, has, e), (key, has))
    | inr e ↦ elim (Option-cases reply.alg_type) [
      | inl f ↦ (true, s, ground (arith, has, e, f), (key, has))
      | inr (alg_type, f) ↦ elim (Option-cases reply.flags) [
        | inl g ↦
            let k : Pubkey = record key { alg_type = alg_type } in
            (true, record s { key = some k }, ground (arith, has, e, f, g), (k, refl))
        | inr (flags, g) ↦ elim (Option-cases reply.pubkey) [
          | inl p ↦
              let k : Pubkey = record key { alg_type = alg_type; flags = some flags } in
              (true, record s { key = some k }, ground (arith, has, e, f, g, p), (k, refl))
          | inr (text, p) ↦
              let rsa = gen_rsa_pubkey env key.rsa text in
              let k : Pubkey = record {
                alg_type = alg_type;
                flags = some flags;
                pubkey = some text;
                rsa = rsa;
              } in
              let (sym_key, made, _) = gen_symmetric_key-some (env.rand s.calls) in
              let u : UserData = record s { key = some k; symmetric_key = some sym_key } in
              elim (Option-cases rsa) [
                | inl q ↦ (true, u, ground (arith, has, e, f, g, p, made, q), (k, refl))
                | inr (r, q) ↦ elim (Option-cases (env.rsa_encrypt r sym_key)) [
                  | inl c ↦ (true, u, ground (arith, has, e, f, g, p, made, q, c), (k, refl))
                  | inr (cipher, c) ↦
                      let after : UserData = record u {
                        calls = Call.set_symmetric_key s.path cipher ∷ s.calls;
                      } in
                      (
                        ltb_ℤ (if env.fails after.calls then pos 1 else pos 0) (pos 0),
                        after,
                        ground (arith, has, e, f, g, p, made, q, c),
                        (k, refl),
                      )
                ]
              ]
        ]
      ]
    ]
  ]
