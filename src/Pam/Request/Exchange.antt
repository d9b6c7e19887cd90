-- ===== src/Pam/Request/Exchange.antt =====
-- The exchange of keys in misc/pam-module/auth/dbus.c, and the token that is then sent.
use lingmo_authenticate.Common.{
  ◌+◌, ◌<◌, ◌^◌, ◌≡◌, refl, ℤ, Bool, true, false, not, some, List, Bytes, ◌∷◌, length, ◌∙◌, arith,
}
use lingmo_authenticate.Encrypt.Aes
use lingmo_authenticate.Encrypt.Aes.{Aes, IsCbc, done, aes_cbc_decrypt, aes_cbc_round_trip}
use lingmo_authenticate.Pam.State.{Env, Call, Pubkey, UserData, emit}
use lingmo_authenticate.Pam.Keys.{KeyReply, gen_rsa_pubkey, call_encrypt_key_cb, aes_cbc_encrypt}
use lingmo_authenticate.Pam.Keys.Exchange.{call_encrypt_key_cb_lem}
use lingmo_authenticate.Pam.Request.{dbus_method_set_token}

-- The module's copy of the routine is that of the library.
aes-copy :
    (aes : Aes) (src key : Bytes)
    → aes_cbc_encrypt aes src key ≡ lingmo_authenticate.Encrypt.Aes.aes_cbc_encrypt aes src key
unfolding aes_cbc_encrypt lingmo_authenticate.Encrypt.Aes.aes_cbc_encrypt
aes-copy aes src key = refl

sends :
    (env : Env) (path password key cipher : Bytes) (auth_type : ℤ) (t : UserData)
    → t.symmetric_key ≡ some key
    → aes_cbc_encrypt env.aes password key ≡ some (done cipher)
    → (sent : Bool) × (u : UserData) × (dbus_method_set_token env path auth_type password t
        ≡ some (sent, u))
      × (u.calls ≡ Call.set_token path auth_type cipher ∷ t.calls)
unfolding dbus_method_set_token emit
sends env path password key cipher auth_type t k e = (
  not (env.fails (Call.set_token path auth_type cipher ∷ t.calls)),
  record t { calls = Call.set_token path auth_type cipher ∷ t.calls },
  ground (arith, k, e),
  refl,
)

-- When the reply of EncryptKey is complete, its public key is read and encrypts each text of 16 bytes,
-- what SetToken sends afterwards is turned back into the password by `aes_cbc_decrypt` under a key of 16
-- bytes, and what SetSymmetricKey has sent before is that key, encrypted under the public key. (The
-- ciphers accept keys of 16 bytes, and the password has less than 2^31 - 16 bytes.)
pub token_exchange_lem :
    (env : Env) (reply : KeyReply) (s : UserData) (key : Pubkey) (alg_type auth_type : ℤ)
    (flags : List ℤ) (text rsa path password : Bytes)
    → s.key ≡ some key
    → reply.error ≡ false
    → reply.is_return ≡ true
    → reply.alg_type ≡ some alg_type
    → reply.flags ≡ some flags
    → reply.pubkey ≡ some text
    → gen_rsa_pubkey env key.rsa text ≡ some rsa
    → ((plain : Bytes) → length plain ≡ 16 → (c : Bytes) × (env.rsa_encrypt rsa plain ≡ some c))
    → IsCbc env.aes
    → ((k : Bytes) → length k ≡ 16 → env.aes.accepts k ≡ true)
    → length password + 16 < 2 ^ 31
    → (t u : UserData) × (k wrapped cipher : Bytes) × (sent : Bool) × (call_encrypt_key_cb env reply
          s
        ≡ some (false, t))
      × (dbus_method_set_token env path auth_type password t ≡ some (sent, u))
      × (u.calls
          ≡ Call.set_token path auth_type cipher ∷ Call.set_symmetric_key s.path wrapped ∷ s.calls)
      × (env.rsa_encrypt rsa k ≡ some wrapped)
      × (length k ≡ 16)
      × (aes_cbc_decrypt env.aes cipher k ≡ some (done password))
token_exchange_lem env reply s key alg_type auth_type flags text rsa path password a b c d e f g enc
      cbc takes short =
    let (t, k, wrapped, run, has, len, wrap, calls) =
      call_encrypt_key_cb_lem env reply s key alg_type flags text rsa a b c d e f g enc in
    let (cipher, encrypted, decrypted) =
      aes_cbc_round_trip env.aes password k cbc short (takes k len) in
    let (sent, u, set, after) =
      sends env path password k cipher auth_type t has (aes-copy env.aes password k ∙ encrypted) in
    (t, u, k, wrapped, cipher, sent, run, set, rw (after, calls) refl, wrap, len, decrypted)
