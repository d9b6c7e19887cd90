-- ===== src/Auth/Life/Release.antt =====
-- The members of a `da_proxy` in lib/src/auth/auth.c at the end of its life.
use lingmo_authenticate.Common.{
  ℕ, ◌<◌, ◌≡◌, ◌↔◌, refl, Bool, true, false, not, ◌&&◌, Option, none, some, [], arith, ◌>>=◌, pure,
  M, if◌then◌else◌,
}
use lingmo_authenticate.Auth.Life.{
  Proxy, Answer, Given, not_encrypted, not_taken, given, call_error, null, object, elem, alloc,
  release, exchange_keys, da_create_authenticate, da_dbus_proxy_free, da_dbus_proxy_new,
}

-- Before the proxy is made.
abbrev pub no_proxy : Proxy
no_proxy = record {
  self = none;
  con = none;
  username = none;
  authenticate_proxy = none;
  session_proxy = none;
  session_path = none;
  pubkey = none;
  enc_method = none;
  symmetric_key = none;
  key = none;
  next = 0;
  freed = [];
}

-- What `da_dbus_proxy_new` returns: the connection, the proxy of the service, and null pointers.
abbrev pub new_proxy : Proxy
new_proxy = record {
  self = some 0;
  con = some 1;
  username = none;
  authenticate_proxy = some 2;
  session_proxy = none;
  session_path = none;
  pubkey = none;
  enc_method = none;
  symmetric_key = none;
  key = none;
  next = 3;
  freed = [];
}

-- The service has taken the symmetric key.
abbrev pub is_given : Given → Bool
is_given given = true
is_given _ = false

-- The session was made, but the exchange of the keys failed.
abbrev pub fails_late : Answer → Answer → Bool → Bool → Given → Bool
fails_late object object encrypt_key gen_rsa set_symmetric_key =
    not (encrypt_key && (gen_rsa && is_given set_symmetric_key))
fails_late _ _ encrypt_key gen_rsa set_symmetric_key = false

-- `da_create_authenticate`, and then `da_dbus_proxy_free`.
abbrev pub create_free : Answer → Answer → Bool → Bool → Given → M Proxy (Unit {0})
create_free authenticate session encrypt_key gen_rsa set_symmetric_key =
    da_create_authenticate authenticate session encrypt_key gen_rsa set_symmetric_key >>= λ r.
    da_dbus_proxy_free

-- On a new proxy, `da_create_authenticate` and then `da_dbus_proxy_free` run into undefined behaviour
-- exactly when the session was made but the exchange of the keys failed: the failure of EncryptKey, of
-- `gen_rsa_pubkey` or of SetSymmetricKey, after which a pointer is released twice, and the failure of
-- `rsa_encrypt_data`, after which the length -1 is taken for a size.
pub create_free_lem :
    (authenticate session : Answer) (encrypt_key gen_rsa : Bool) (set_symmetric_key : Given)
    → (create_free authenticate session encrypt_key gen_rsa set_symmetric_key new_proxy ≡ none)
      ↔ (fails_late authenticate session encrypt_key gen_rsa set_symmetric_key ≡ true)
unfolding da_create_authenticate da_dbus_proxy_free alloc release exchange_keys
create_free_lem call_error s e g k = ground arith
create_free_lem null s e g k = ground arith
create_free_lem object call_error e g k = ground arith
create_free_lem object null e g k = ground arith
create_free_lem object object false g k = (λ h. refl, λ h. refl)
create_free_lem object object true false k = (λ h. refl, λ h. refl)
create_free_lem object object true true not_encrypted = (λ h. refl, λ h. refl)
create_free_lem object object true true not_taken = (λ h. refl, λ h. refl)
create_free_lem object object true true given = ground arith

some_state :
    (x y : Proxy) (o : Option (Unit {0} × Proxy)) → o ≡ some (tt, x) → o ≡ some (tt, y) → x ≡ y
some_state x y o g h = ground arith

-- `da_dbus_proxy_new`, and then `create_free` if it returned a proxy.
abbrev pub life : Bool → Answer → Answer → Answer → Bool → Bool → Given → M Proxy (Unit {0})
life connects manager authenticate session encrypt_key gen_rsa set_symmetric_key =
    da_dbus_proxy_new connects manager >>= λ made.
    if made then create_free authenticate session encrypt_key gen_rsa set_symmetric_key else pure tt

-- The proxy itself without a connection to the bus, else the connection.
abbrev pub leaked : Bool → ℕ
leaked connects = if connects then 1 else 0

-- Exactly this pointer of those that were allocated is not released.
abbrev pub Leaks : ℕ → Proxy → Type 0
Leaks k t = (p : ℕ) → p < t.next → (elem p t.freed ≡ false) ↔ (p ≡ k)

-- When `da_dbus_proxy_new`, `da_create_authenticate` and `da_dbus_proxy_free` in turn end without
-- undefined behaviour, exactly one of the pointers that were allocated is never released: the proxy
-- itself where the bus could not be reached, and the connection to the bus otherwise.
pub life-Leaks :
    (connects : Bool) (manager authenticate session : Answer) (encrypt_key gen_rsa : Bool)
    (set_symmetric_key : Given) (t : Proxy)
    → life connects manager authenticate session encrypt_key gen_rsa set_symmetric_key no_proxy
      ≡ some (tt, t)
    → Leaks (leaked connects) t
unfolding da_dbus_proxy_new da_create_authenticate da_dbus_proxy_free alloc release exchange_keys
life-Leaks false m a s e g k t h =
    rw (← some_state _ t _ refl h) (λ p q. (λ x. ground arith, λ x. ground arith))
life-Leaks true call_error a s e g k t h =
    rw (← some_state _ t _ refl h) (λ p q. (λ x. ground arith, λ x. ground arith))
life-Leaks true null a s e g k t h =
    rw (← some_state _ t _ refl h) (λ p q. (λ x. ground arith, λ x. ground arith))
life-Leaks true object call_error s e g k t h =
    rw (← some_state _ t _ refl h) (λ p q. (λ x. ground arith, λ x. ground arith))
life-Leaks true object null s e g k t h =
    rw (← some_state _ t _ refl h) (λ p q. (λ x. ground arith, λ x. ground arith))
life-Leaks true object object call_error e g k t h =
    rw (← some_state _ t _ refl h) (λ p q. (λ x. ground arith, λ x. ground arith))
life-Leaks true object object null e g k t h =
    rw (← some_state _ t _ refl h) (λ p q. (λ x. ground arith, λ x. ground arith))
life-Leaks true object object object false g k t h = absurd (ground arith)
life-Leaks true object object object true false k t h = absurd (ground arith)
life-Leaks true object object object true true not_encrypted t h = absurd (ground arith)
life-Leaks true object object object true true not_taken t h = absurd (ground arith)
life-Leaks true object object object true true given t h =
    rw (← some_state _ t _ refl h) (λ p q. (λ x. ground arith, λ x. ground arith))
