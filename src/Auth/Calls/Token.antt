-- ===== src/Auth/Calls/Token.antt =====
-- What `da_session_set_token` and `da_prop_get_factors_info` of lib/src/auth/auth.c hand over.
use lingmo_authenticate.Common.{
  ◌+◌, ◌<◌, ◌^◌, ◌≡◌, ◌≢◌, refl, ap, ◌∙◌, ℤ, Bool, true, Option, none, some, List, [], ◌∷◌, ◌++◌,
  map, Bytes, length, length-append, replicate, set, ltb, arith, Option-cases, inl, inr,
}
use lingmo_authenticate.Encrypt.Aes.{Aes, IsCbc, done, aes_cbc_decrypt, aes_cbc_round_trip}
use lingmo_authenticate.Auth.Calls.{
  DaFactorInfo, Service, Client, Outcome, has_valid_session_proxy, call_sync, set_token,
  da_session_set_token,
}
use lingmo_authenticate.Auth.Properties.{
  fill_factors, da_prop_get_factors_info, da_dbus_prop_get_gvariant, session_interface,
}

call_sync-sent :
    (service : Service) (err : Bool) (a : ℤ) (encrypted : Bytes)
    → (call_sync service err (set_token a encrypted) (λ r. tt)).sent ≡ set_token a encrypted ∷ []
unfolding call_sync
call_sync-sent service err a encrypted =
    elim (Option-cases (service.fails (set_token a encrypted))) [
      | inl e ↦ ground (arith, e)
      | inr (x, e) ↦ ground (arith, e)
    ]

-- For a valid session, a key that is accepted and a password of less than 2^31 - 16 bytes, one request
-- is made of the service, whose bytes `aes_cbc_decrypt` turns back into the password under that key.
pub da_session_set_token_lem :
    (service : Service) (proxy : Client) (aes : Aes) (auth_type : ℤ) (password key : Bytes)
    (err : Bool)
    → IsCbc aes
    → proxy.session_proxy ≡ true
    → proxy.symmetric_key ≡ some key
    → aes.accepts key ≡ true
    → length password + 16 < 2 ^ 31
    → (encrypted : Bytes) × (o : Outcome (Unit {0})) × (da_session_set_token service
          (some proxy)
          aes
          auth_type
          (some password)
          err
        ≡ some o)
      × (o.sent ≡ set_token auth_type encrypted ∷ [])
      × (aes_cbc_decrypt aes encrypted key ≡ some (done password))
unfolding da_session_set_token
da_session_set_token_lem service proxy aes auth_type password key err cbc valid k accepted short =
    let (encrypted, e, d) = aes_cbc_round_trip aes password key cbc short accepted in
    let o = call_sync service err (set_token auth_type encrypted) (λ r. tt) in
    (encrypted, o, ground (arith, valid, k, e), call_sync-sent service err auth_type encrypted, d)

set_middle :
    {A : Type 0} (xs ys : List A) (x y : A) → set (xs ++ (x ∷ ys)) (length xs) y ≡ xs ++ (y ∷ ys)
set_middle [] ys x y = refl
set_middle (z ∷ xs) ys x y = ap (λ l. z ∷ l) (set_middle xs ys x y)

append_assoc : {A : Type 0} (xs ys : List A) (x : A) → (xs ++ (x ∷ [])) ++ ys ≡ xs ++ (x ∷ ys)
append_assoc [] ys x = refl
append_assoc (z ∷ xs) ys x = ap (λ l. z ∷ l) (append_assoc xs ys x)

fill_from :
    (iter : List DaFactorInfo) (before : List (Option DaFactorInfo))
    → fill_factors iter (length before) (before ++ replicate (length iter) none)
      ≡ some (before ++ map (λ f. some f) iter)
unfolding fill_factors
fill_from [] before = refl
fill_from (f ∷ iter) before =
    let rest = replicate (length iter) none in
    let inside : ltb (length before) (length (before ++ (none ∷ rest))) ≡ true =
      ground (arith, length-append before (none ∷ rest)) in
    let placed = set_middle before rest none (some f) in
    let ih = fill_from iter (before ++ (some f ∷ [])) in
    let size : length (before ++ (some f ∷ [])) ≡ length before + 1 =
      omega (arith, length-append before (some f ∷ [])) in
    rw (inside, placed, ← size, ← append_assoc before rest (some f))
      (ih ∙ ap some (append_assoc before (map (λ g. some g) iter) (some f)))

-- For a valid session whose factors the service tells, `da_prop_get_factors_info` returns 0 with an
-- array of their number that holds them in order, and -1 if there are none.
pub da_prop_get_factors_info_lem :
    (service : Service) (proxy : Option Client) (iter : List DaFactorInfo)
    → has_valid_session_proxy proxy ≡ true
    → da_dbus_prop_get_gvariant service session_interface "FactorsInfo" ≡ some iter
    → (iter ≡ [] → da_prop_get_factors_info service proxy true true ≡ some none)
      × (iter ≢ []
          → da_prop_get_factors_info service proxy true true ≡ some (some (map (λ f. some f) iter)))
unfolding da_prop_get_factors_info
da_prop_get_factors_info_lem service proxy [] valid h =
    (λ e. ground (arith, valid, h), λ e. absurd (e refl))
da_prop_get_factors_info_lem service proxy (f ∷ iter) valid h =
    let filled = fill_from (f ∷ iter) [] in
    (λ e. ground (arith, e), λ e. ground (arith, valid, h, filled))
