-- ===== src/Auth/Life.antt =====
-- The life of a `da_proxy` in lib/src/auth/auth.c: who owns the members, and who releases them.
pub mod Release
pub mod Live
pub mod Sequence
pub mod Errors
use lingmo_authenticate.Common.{
  ℕ, ◌+◌, Bool, true, false, not, ◌||◌, Option, none, some, List, [], ◌∷◌, String, ◌==◌,
  if◌then◌else◌, M, ◌>>=◌, ◌>>◌, pure, get_state, put_state,
}

-- The proxy and the members of `struct _auth_proxy` that are pointers to what it owns, and the heap:
-- pointers from `next` on are not allocated yet, and those of `freed` were released.
pub record Proxy : Type 0 where
  pub self : Option ℕ
  pub con : Option ℕ
  pub username : Option ℕ
  pub authenticate_proxy : Option ℕ
  pub session_proxy : Option ℕ
  pub session_path : Option ℕ
  pub pubkey : Option ℕ
  pub enc_method : Option ℕ
  pub symmetric_key : Option ℕ
  pub key : Option ℕ
  pub next : ℕ
  pub freed : List ℕ

-- How a call of the service ends: in an error, with a null pointer, or with an object.
pub data Answer : Type 0 where
  call_error : Answer
  null : Answer
  object : Answer

-- The return value -1 of a guard, -1 with the error of a call, -1 with a message, and 0.
pub data Ended : Type 0 where
  rejected : Ended
  from_call : Ended
  message : String → Ended
  ok : Ended

-- How the symmetric key is given to the service: the return value -1 of `rsa_encrypt_data`, which is
-- not looked at, an error of SetSymmetricKey, or a success.
pub data Given : Type 0 where
  not_encrypted : Given
  not_taken : Given
  given : Given

abbrev pub elem : ℕ → List ℕ → Bool
elem p [] = false
elem p (q ∷ qs) = p == q || elem p qs

unfoldable pub alloc : M Proxy ℕ
alloc s = some (s.next, record s { next = s.next + 1 })

-- `g_free`, `g_object_unref` and the like: nothing for a null pointer; a second time is undefined.
unfoldable pub release : Option ℕ → M Proxy (Unit {0})
release none s = some (tt, s)
release (some p) s = if elem p s.freed then none else some (tt, record s { freed = p ∷ s.freed })

-- `da_dbus_proxy_new`: whether it returns a proxy. `connects` says whether the bus can be reached, and
-- `authenticate` how the proxy of the service is made.
unfoldable pub da_dbus_proxy_new : Bool → Answer → M Proxy Bool
unfolding alloc release
da_dbus_proxy_new connects authenticate = do
  self ← alloc
  s ← get_state
  put_state (record s {
    self = some self;
    con = none;
    username = none;
    authenticate_proxy = none;
    session_proxy = none;
    session_path = none;
    pubkey = none;
    enc_method = none;
    symmetric_key = none;
    key = none;
  })
  if not connects then pure false else do
    con ← alloc
    t ← get_state
    put_state (record t { con = some con })
    elim authenticate [
      | call_error ↦ (do release (some self); pure false)
      | null ↦ (do release (some self); pure false)
      | object ↦ (do
        authenticate_proxy ← alloc
        u ← get_state
        put_state (record u { authenticate_proxy = some authenticate_proxy })
        pure true)
    ]

-- `has_valid_session_proxy`: to look at a released object is undefined.
unfoldable pub has_valid_session_proxy : M Proxy Bool
has_valid_session_proxy s = elim s.session_proxy [
  | none ↦ some (false, s)
  | some p ↦ if elem p s.freed then none else some (true, s)
]

-- From the call of EncryptKey on: whether it succeeds, whether `gen_rsa_pubkey` returns 0, which it also
-- does for a text that is no key, and how the symmetric key is given. Without a cipher text its length,
-- -1, is taken for the size of an array, which is undefined.
unfoldable pub exchange_keys : ℕ → Bool → Bool → Given → M Proxy Ended
exchange_keys out_path encrypt_key gen_rsa set_symmetric_key =
    if not encrypt_key then (do release (some out_path); pure from_call) else (do
      pubkey ← alloc
      enc_method ← alloc
      key ← alloc
      s ← get_state
      put_state (record s { pubkey = some pubkey; enc_method = some enc_method; key = some key })
      if not gen_rsa then (do release (some out_path); pure (message "gen rsa error")) else (do
        symmetric_key ← alloc
        t ← get_state
        put_state (record t { symmetric_key = some symmetric_key })
        elim set_symmetric_key [
          | not_encrypted ↦ (λ u. none)
          | not_taken ↦ (do release (some out_path); pure from_call)
          | given ↦ pure ok
        ]))

unfoldable pub da_create_authenticate : Answer → Answer → Bool → Bool → Given → M Proxy Ended
da_create_authenticate authenticate session encrypt_key gen_rsa set_symmetric_key s =
    elim s.authenticate_proxy [
      | none ↦ some (rejected, s)
      | some _ ↦ elim authenticate [
        | call_error ↦ some (from_call, s)
        | null ↦ some (message "call dbus-authenticate failed.", s)
        | object ↦
            (do
              out_path ← alloc
              t ← get_state
              elim session [
                | call_error ↦ (do
                  put_state (record t { session_proxy = none })
                  release (some out_path)
                  pure from_call)
                | null ↦ (do
                  put_state (record t { session_proxy = none })
                  release (some out_path)
                  pure (message "create session failed."))
                | object ↦ (do
                  session_proxy ← alloc
                  username ← alloc
                  u ← get_state
                  put_state (record u {
                    session_proxy = some session_proxy;
                    session_path = some out_path;
                    username = some username;
                  })
                  exchange_keys out_path encrypt_key gen_rsa set_symmetric_key)
              ])
              s
      ]
    ]

-- `end_ok` says whether the call of End succeeds.
unfoldable pub da_quit_authenticate : Bool → M Proxy Ended
da_quit_authenticate end_ok = do
  valid ← has_valid_session_proxy
  if not valid
      then pure rejected
      else (if not end_ok
          then pure from_call
          else (do s ← get_state; release s.session_proxy; release s.session_path; pure ok))

-- `da_dbus_proxy_free`; the connection is not released.
unfoldable pub da_dbus_proxy_free : M Proxy (Unit {0})
da_dbus_proxy_free = do
  s ← get_state
  release s.username
  release s.authenticate_proxy
  release s.session_proxy
  release s.session_path
  release s.pubkey
  release s.enc_method
  release s.symmetric_key
  release s.key
  release s.self
