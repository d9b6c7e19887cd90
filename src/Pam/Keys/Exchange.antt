-- ===== src/Pam/Keys/Exchange.antt =====
-- What the callback of EncryptKey leaves behind.
use lingmo_authenticate.Common.{
  ℕ, ◌≡◌, refl, ℤ, true, false, some, List, Bytes, ◌∷◌, length, length-append, ◌++◌, ◌∙◌, arith,
}
use lingmo_authenticate.Encrypt.Rsa.{create_symmetric_key, create_symmetric_key_lem}
use lingmo_authenticate.Pam.State.{Env, Call, Pubkey, UserData, emit}
use lingmo_authenticate.Pam.Dbus.{dbus_method_set_symmetric_key}
use lingmo_authenticate.Pam.Keys.{
  KeyReply, gen_symmetric_key, gen_rsa_pubkey, rsa_encrypt_data, encrypt_symmetric_key,
  call_encrypt_key_cb,
}

-- The module's copy of the routine is that of the library.
gen-create : (rand : ℕ) → gen_symmetric_key rand ≡ create_symmetric_key rand
unfolding gen_symmetric_key create_symmetric_key
gen-create rand = refl

pub gen_symmetric_key-some :
    (rand : ℕ) → (key : Bytes) × (gen_symmetric_key rand ≡ some key) × (length key ≡ 16)
gen_symmetric_key-some rand =
    let (half, e, len, _) = create_symmetric_key_lem rand in
    (half ++ half, gen-create rand ∙ e, omega (arith, length-append half half, len))

-- When the reply of EncryptKey is complete, its public key is read and encrypts each text of 16 bytes,
-- the callback returns 0 and leaves a symmetric key of 16 bytes, whether or not the service took that
-- key: the failure of SetSymmetricKey, the return value 1, is tested for as a negative value.
pub call_encrypt_key_cb_lem :
    (env : Env) (reply : KeyReply) (s : UserData) (key : Pubkey) (alg_type : ℤ) (flags : List ℤ)
    (text rsa : Bytes)
    → s.key ≡ some key
    → reply.error ≡ false
    → reply.is_return ≡ true
    → reply.alg_type ≡ some alg_type
    → reply.flags ≡ some flags
    → reply.pubkey ≡ some text
    → gen_rsa_pubkey env key.rsa text ≡ some rsa
    → ((plain : Bytes) → length plain ≡ 16 → (c : Bytes) × (env.rsa_encrypt rsa plain ≡ some c))
    → (t : UserData) × (symmetric_key cipher : Bytes) × (call_encrypt_key_cb env reply s
        ≡ some (false, t))
      × (t.symmetric_key ≡ some symmetric_key)
      × (length symmetric_key ≡ 16)
      × (env.rsa_encrypt rsa symmetric_key ≡ some cipher)
      × (t.calls ≡ Call.set_symmetric_key s.path cipher ∷ s.calls)
unfolding call_encrypt_key_cb encrypt_symmetric_key rsa_encrypt_data dbus_method_set_symmetric_key
    emit
call_encrypt_key_cb_lem env reply s key alg_type flags text rsa k err ret a f p g enc =
    let (sym, made, len) = gen_symmetric_key-some (env.rand s.calls) in
    let (c, e) = enc sym len in
    (
      record s {
        key = some (record {
          alg_type = alg_type;
          flags = some flags;
          pubkey = some text;
          rsa = some rsa;
        });
        symmetric_key = some sym;
        calls = Call.set_symmetric_key s.path c ∷ s.calls;
      },
      sym,
      c,
      ground (arith, k, err, ret, a, f, p, g, made, e),
      refl,
      len,
      e,
      refl,
    )
