-- ===== src/Pam/Limits/Store.antt =====
-- What `get_limits_info` of misc/pam-module/auth/utils.c leaves in `limits`.
use lingmo_authenticate.Common.{
  ℕ, zero, suc, ◌+◌, ◌≤◌, ◌<◌, ◌≡◌, ◌≢◌, refl, ap, ◌∙◌, ◌∷◌, false, Option, none, some, Bytes,
  length, get_elem?, set, arith, leb, length-set, get_elem?-set_self, get_elem?-set_ne,
  Option-cases, Bool-cases, inl, inr, bit,
}
use lingmo_authenticate.Pam.Types.{type_to_index}
use lingmo_authenticate.Pam.Types.Index.{type_to_index-none}
use lingmo_authenticate.Pam.State.{Env, Limit, UserData, Call}
use lingmo_authenticate.Pam.Limits.{
  set_limit, limit_of_json, store_limit, store_limits, get_limits_info, dbus_method_get_limits,
}

-- `t` differs from `s` in the limits and the calls alone, and has as many limits.
pub record KeepsRest (s t : UserData) : Type 0 where
  pub count : length t.limits ≡ length s.limits
  pub rest : t ≡ record s { limits = t.limits; calls = t.calls }

KeepsRest-refl : (s : UserData) → KeepsRest s s
KeepsRest-refl s = record { count = refl; rest = refl }

module _ (env : Env) where
  open env use {Json, get_ex, get_int, get_idx}

  -- One object of the array whose flag has no bit set stops the program in undefined behaviour.
  pub store_limit-flag_zero :
      (jobj : Json) (s : UserData)
      → ((j : ℕ) → j < 32 → bit (get_int (get_ex jobj "flag").1) j ≡ false)
      → store_limit env jobj s ≡ none
  unfolding store_limit
  store_limit-flag_zero jobj s clear =
      let e = (type_to_index-none (get_int (get_ex jobj "flag").1)).1 clear in ground arith

  limit_of_json-state :
      (jobj : Json) (s t : UserData) (l : Limit) → limit_of_json env jobj s ≡ some (l, t) → t ≡ s
  unfolding limit_of_json
  limit_of_json-state jobj s t l h = ground arith

  set_limit-some :
      (i : ℕ) (l : Limit) (s t : UserData)
      → set_limit i l s ≡ some (tt, t)
      → (i < length s.limits) × (t ≡ record s { limits = set s.limits i l })
  unfolding set_limit
  set_limit-some i l s t h = ground arith

  stored :
      (jobj : Json) (s t : UserData) (i : ℕ)
      → type_to_index (get_int (get_ex jobj "flag").1) ≡ some i
      → store_limit env jobj s ≡ some (tt, t)
      → i < 7
      → (l : Limit) × (limit_of_json env jobj s ≡ some (l, s))
        × (i < length s.limits)
        × (t ≡ record s { limits = set s.limits i l })
  unfolding store_limit
  stored jobj s t i e h p = elim (Option-cases (limit_of_json env jobj s)) [
    | inl f ↦ absurd (ground arith)
    | inr ((l, s'), f) ↦
        let same = limit_of_json-state jobj s s' l f in
        let (q, r) = set_limit-some i l s t (ground arith) in (l, ground arith, q, r)
  ]

  -- An object is stored at the index of its flag, and everywhere else the limits stay; one whose
  -- index is not supported is skipped.
  pub store_limit_lem :
      (jobj : Json) (s t : UserData) (i : ℕ)
      → type_to_index (get_int (get_ex jobj "flag").1) ≡ some i
      → store_limit env jobj s ≡ some (tt, t)
      → (7 ≤ i → t ≡ s)
        × (i < 7
            → (l : Limit) × (limit_of_json env jobj s ≡ some (l, s))
              × (get_elem? t.limits i ≡ some l)
              × ((j : ℕ) → i ≢ j → get_elem? t.limits j ≡ get_elem? s.limits j))
  unfolding store_limit
  store_limit_lem jobj s t i e h = (
    λ p. ground arith,
    λ p.
        let (l, f, q, r) = stored jobj s t i e h p in
        (
          l,
          f,
          rw r (get_elem?-set_self s.limits i l q),
          λ j ne. rw r (get_elem?-set_ne s.limits l ne),
        ),
  )

  store_limit-KeepsRest :
      (jobj : Json) (s t : UserData) → store_limit env jobj s ≡ some (tt, t) → KeepsRest s t
  unfolding store_limit
  store_limit-KeepsRest jobj s t h =
      elim (Option-cases (type_to_index (get_int (get_ex jobj "flag").1))) [
        | inl e ↦ absurd (ground arith)
        | inr (i, e) ↦ elim (Bool-cases (leb 7 i)) [
          | inl p ↦ rw ((store_limit_lem jobj s t i e h).0 (ground arith)) (KeepsRest-refl s)
          | inr p ↦
              let (l, f, q, r) = stored jobj s t i e h (ground arith) in
              rw r (record { count = length-set s.limits i l; rest = refl })
        ]
      ]

  KeepsRest-trans : (s t u : UserData) → KeepsRest s t → KeepsRest t u → KeepsRest s u
  KeepsRest-trans s t u h k = record {
    count = k.count ∙ h.count;
    rest = k.rest ∙ ap (λ (x : UserData). record x { limits = u.limits; calls = u.calls }) h.rest;
  }

  store_limits-KeepsRest :
      (parsed : Json) (n i : ℕ) (s t : UserData)
      → store_limits env parsed n i s ≡ some (tt, t)
      → KeepsRest s t
  unfolding store_limits
  store_limits-KeepsRest parsed zero i s t h =
      let e : s ≡ t = ground arith in rw (← e) (KeepsRest-refl s)
  store_limits-KeepsRest parsed (suc n) i s t h =
      elim (Option-cases (store_limit env (get_idx parsed i) s)) [
        | inl e ↦ absurd (ground arith)
        | inr ((_, s'), e) ↦
            KeepsRest-trans s s' t (store_limit-KeepsRest (get_idx parsed i) s s' e)
              (store_limits-KeepsRest parsed n (i + 1) s' t (ground arith))
      ]

  dbus_method_get_limits-state :
      (name : Bytes) (s t : UserData) (o : Option Bytes)
      → dbus_method_get_limits env name s ≡ some (o, t)
      → t ≡ record s { calls = Call.get_limits name ∷ s.calls }
  unfolding dbus_method_get_limits
  dbus_method_get_limits-state name s t o h = ground arith

  get_limits-KeepsRest :
      (s t : UserData) (o : Option Bytes)
      → dbus_method_get_limits env s.username s ≡ some (o, t)
      → KeepsRest s t
  get_limits-KeepsRest s t o h =
      rw (dbus_method_get_limits-state s.username s t o h) (record { count = refl; rest = refl })

  -- Reading the limits changes nothing else, and keeps the number of limits.
  pub get_limits_info-KeepsRest :
      (s t : UserData) → get_limits_info env s ≡ some (tt, t) → KeepsRest s t
  unfolding get_limits_info
  get_limits_info-KeepsRest s t h = elim (Option-cases (dbus_method_get_limits env s.username s)) [
    | inl e ↦ absurd (ground arith)
    | inr ((none, s'), e) ↦
        let same : s' ≡ t = ground arith in rw (← same) (get_limits-KeepsRest s s' none e)
    | inr ((some buff, s'), e) ↦
        let before = get_limits-KeepsRest s s' (some buff) e in
        elim (Option-cases (env.parse buff)) [
          | inl p ↦ let same : s' ≡ t = ground arith in rw (← same) before
          | inr (parsed, p) ↦
              KeepsRest-trans s s' t before
                (store_limits-KeepsRest parsed (env.array_length parsed) 0 s' t (ground arith))
        ]
  ]
