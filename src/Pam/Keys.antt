-- ===== src/Pam/Keys.antt =====
-- The exchange of keys in the PAM module: the routines of misc/pam-module/auth/utils.c, and the call
-- of EncryptKey with its callback in dbus.c.
pub mod Exchange
pub mod Frame
use lingmo_authenticate.Common.{
  ℕ, ◌++◌, ◌||◌, ℤ, pos, minus_one, ltb_ℤ, Bool, true, false, not, Option, none, some, List, Bytes,
  codes, ◌>>=◌, ◌>>◌, pure, access, get_state, put_state, length, ltb, if◌then◌else◌,
}
use lingmo_authenticate.Common.Decimal.{decimal}
use lingmo_authenticate.Encrypt.Rsa.{rand_num, has_header}
use lingmo_authenticate.Encrypt.Aes.{Aes, AesResult, padded, refused, done, zero_iv}
use lingmo_authenticate.Pam.State.{Env, Call, Pubkey, UserData, Pam, emit}
use lingmo_authenticate.Pam.Dbus.{dbus_method_set_symmetric_key}

-- `gen_symmetric_key`, from what `rand ()` returned.
unfoldable pub gen_symmetric_key : ℕ → Option Bytes
gen_symmetric_key rand =
    let key = decimal (rand_num rand) ++ decimal (rand_num rand) in
    if ltb (length key) 20 then some key else none

-- The reply of EncryptKey as the callback reads it: an error, or the parts up to the first that
-- cannot be read. `flags` is `none` also for an empty array.
pub record KeyReply : Type 0 where
  pub error : Bool
  pub is_return : Bool
  pub alg_type : Option ℤ
  pub flags : Option (List ℤ)
  pub pubkey : Option Bytes

module _ (env : Env) where
  -- The key that is left in `*rsa`: that of the text if libcrypto reads it, else the one before.
  unfoldable pub gen_rsa_pubkey : Option Bytes → Bytes → Option Bytes
  unfolding has_header
  gen_rsa_pubkey rsa key =
      if has_header (codes "-----BEGIN PUBLIC KEY-----") key
        || has_header (codes "-----BEGIN RSA PUBLIC KEY-----") key
      then (if env.reads_key key then some key else rsa)
      else rsa

  -- The cipher text; `none` is the return value -1.
  unfoldable pub rsa_encrypt_data : Bytes → Pam (Option Bytes)
  rsa_encrypt_data origin_data = do
    s ← get_state
    elim s.key [
      | none ↦ pure none
      | some key ↦ elim key.rsa [
        | none ↦ pure none
        | some rsa ↦ pure (env.rsa_encrypt rsa origin_data)
      ]
    ]

  unfoldable pub encrypt_symmetric_key : Pam (Option Bytes)
  encrypt_symmetric_key = do
    s ← get_state
    key ← access (gen_symmetric_key (env.rand s.calls))
    put_state (record s { symmetric_key = some key })
    rsa_encrypt_data key

  -- `call_encryptKey_cb`; true is the return value -1. The key may not be null.
  unfoldable pub call_encrypt_key_cb : KeyReply → Pam Bool
  call_encrypt_key_cb reply = do
    s ← get_state
    key ← access s.key
    if reply.error || not reply.is_return then pure true else elim reply.alg_type [
      | none ↦ pure true
      | some alg_type ↦ elim reply.flags [
        | none ↦ (do
          put_state (record s { key = some (record key { alg_type = alg_type }) })
          pure true)
        | some flags ↦ elim reply.pubkey [
          | none ↦ (do
            put_state
                (record s { key = some (record key { alg_type = alg_type; flags = some flags }) })
            pure true)
          | some text ↦ (do
            put_state (record s {
              key = some (record {
                alg_type = alg_type;
                flags = some flags;
                pubkey = some text;
                rsa = gen_rsa_pubkey key.rsa text;
              });
            })
            cipher ← encrypt_symmetric_key
            elim cipher [
              | none ↦ pure true
              | some cipher_text ↦ (do
                ret ← dbus_method_set_symmetric_key env s.path cipher_text
                pure (ltb_ℤ ret (pos 0)))
            ])
        ]
      ]
    ]

  -- Whether the return value is not 0: -1 without a key, 1 if the call fails.
  unfoldable pub dbus_method_encrypt_key : Bytes → ℤ → Pam Bool
  unfolding emit
  dbus_method_encrypt_key path alg_type = do
    s ← get_state
    elim s.key [
      | none ↦ pure true
      | some _ ↦ (do calls ← emit (Call.encrypt_key path alg_type); pure (env.fails calls))
    ]

-- The copy of `aes_cbc_encrypt` in utils.c.
unfoldable pub aes_cbc_encrypt : Aes → Bytes → Bytes → Option AesResult
aes_cbc_encrypt aes src key = elim (padded src) [
  | none ↦ none
  | some blocks ↦
      some (if aes.accepts key then done (aes.cbc_encrypt key zero_iv blocks) else refused)
]
