-- ===== src/Pam/Limits/Sound.antt =====
-- When `get_limits_info` of misc/pam-module/auth/utils.c reads the limits without undefined behaviour.
use mathlib.Core.Path.{subst}
use lingmo_authenticate.Common.{
  ℕ, zero, suc, ◌+◌, ◌<◌, ◌≤◌, ◌^◌, ◌≡◌, ◌≢◌, refl, sym, ap, ◌∙◌, ◌==◌, ℤ, pos, negsuc, ◌-◌, true,
  false, none, some, List, Bytes, length, get_elem?, set, arith, leb, int_sub, replicate, ◌||◌, ◌∷◌,
  Option-cases, Bool-cases, inl, inr, get_elem?-set_self, get_elem?-set_ne, length-set,
}
use lingmo_authenticate.Pam.Types.{type_to_index}
use lingmo_authenticate.Pam.State.{Env, Limit, no_limit, UserData, Call, emit, copy_into-fits}
use lingmo_authenticate.Pam.Limits.{
  set_limit, limit_of_json, store_limit, store_limits, get_limits_info, dbus_method_get_limits,
}

-- A number of tries: not negative, and an int.
abbrev pub IsCount : ℤ → Type 0
IsCount z = (n : ℕ) × (z ≡ pos n) × (n < 2 ^ 31)

-- A reply of GetLimits is read as this array.
abbrev pub IsReply : (env : Env) → env.Json → Type 0
IsReply env parsed =
    (name : Bytes) × (cs : List Call) × (env.parse (env.reply (Call.get_limits name ∷ cs))
      ≡ some parsed)

-- What the service promises of its replies of GetLimits: the text fits its buffer, and each of the
-- objects that its array has is one with the flag of a method, a time that fits its buffer, and
-- numbers of tries.
pub record WellFormed (env : Env) : Type 0 where
  pub fits : (name : Bytes) (cs : List Call) → length (env.reply (Call.get_limits name ∷ cs)) < 1024
  pub flag :
      (parsed : env.Json) (k : ℕ)
      → IsReply env parsed
      → k < env.array_length parsed
      → (i : ℕ) × (type_to_index (env.get_int (env.get_ex (env.get_idx parsed k) "flag").1)
          ≡ some i)
  pub time :
      (parsed : env.Json) (k : ℕ)
      → IsReply env parsed
      → k < env.array_length parsed
      → (t : Bytes) × (env.get_string (env.get_ex (env.get_idx parsed k) "unlockTime").1 ≡ some t)
        × (length t < 256)
  pub counts :
      (parsed : env.Json) (k : ℕ)
      → IsReply env parsed
      → k < env.array_length parsed
      → IsCount (env.get_int (env.get_ex (env.get_idx parsed k) "maxTries").1)
        × IsCount (env.get_int (env.get_ex (env.get_idx parsed k) "numFailures").1)

-- There are seven limits, with numbers of tries.
pub record IsSound (limits : List Limit) : Type 0 where
  pub count : length limits ≡ 7
  pub tries :
      (j : ℕ) (l : Limit)
      → get_elem? limits j ≡ some l
      → IsCount l.max_tries × IsCount l.num_failures

some_limit : (x y : Limit) → some x ≡ some y → x ≡ y
some_limit x y h = ground (arith, h)

set-IsSound :
    (limits : List Limit) (i : ℕ) (l : Limit)
    → IsSound limits
    → i < 7
    → IsCount l.max_tries × IsCount l.num_failures
    → IsSound (set limits i l)
set-IsSound limits i l h less c = record {
  count = length-set limits i l ∙ h.count;
  tries = λ j m e. elim (Bool-cases (i == j)) [
    | inl same ↦
        let here : i ≡ j = ground (arith, same) in
        let put = get_elem?-set_self limits i l (omega (arith, less, h.count)) in
        let stored : l ≡ m =
          some_limit l m (sym put ∙ ap (λ k. get_elem? (set limits i l) k) here ∙ e) in
        subst (λ (x : Limit). IsCount x.max_tries × IsCount x.num_failures) stored c
    | inr other ↦
        let ne : i ≢ j = λ q. ground (arith, other, q) in
        h.tries j m (sym (get_elem?-set_ne limits l ne) ∙ e)
  ];
}

get_elem?-replicate : (n j : ℕ) (a l : Limit) → get_elem? (replicate n a) j ≡ some l → a ≡ l
get_elem?-replicate zero j a l e = absurd (ground (arith, e))
get_elem?-replicate (suc n) zero a l e = some_limit a l e
get_elem?-replicate (suc n) (suc j) a l e = get_elem?-replicate n j a l e

-- The limits of new data are sound.
pub no_limits-IsSound : IsSound (replicate 7 no_limit)
no_limits-IsSound = record {
  count = refl;
  tries = λ j l e.
      subst (λ (x : Limit). IsCount x.max_tries × IsCount x.num_failures)
        (get_elem?-replicate 7 j no_limit l e) ((0, refl, omega arith), (0, refl, omega arith));
}

-- The subtraction of two numbers of tries does not overflow.
pub int_sub-counts : (a b : ℤ) → IsCount a → IsCount b → (d : ℤ) × (int_sub a b ≡ some d)
unfolding int_sub
int_sub-counts a b (m, e, p) (n, f, q) =
    rw (e, f)
      (elim (Bool-cases (leb n m)) [
        | inl le ↦ (pos (m - n), ground (arith, le, p, q))
        | inr gt ↦ (negsuc (n - m - 1), ground (arith, gt, p, q))
      ])

module _ (env : Env) (w : WellFormed env) where
  limit_of_json-returns :
      (parsed : env.Json) (k : ℕ) (s : UserData)
      → IsReply env parsed
      → k < env.array_length parsed
      → (l : Limit) × (limit_of_json env (env.get_idx parsed k) s ≡ some (l, s))
        × IsCount l.max_tries
        × IsCount l.num_failures
  unfolding limit_of_json
  limit_of_json-returns parsed k s p q =
      let (t, e, short) = w.time parsed k p q in
      let (a, b) = w.counts parsed k p q in
      let jobj = env.get_idx parsed k in
      (
        record {
          max_tries = env.get_int (env.get_ex jobj "maxTries").1;
          num_failures = env.get_int (env.get_ex jobj "numFailures").1;
          locked = env.get_boolean (env.get_ex jobj "locked").1;
          unlock_time = t;
        },
        ground (arith, e, copy_into-fits 256 t s short),
        a,
        b,
      )

  store_limit-returns :
      (parsed : env.Json) (k : ℕ) (s : UserData)
      → IsReply env parsed
      → k < env.array_length parsed
      → IsSound s.limits
      → (t : UserData) × (store_limit env (env.get_idx parsed k) s ≡ some (tt, t))
        × IsSound t.limits
  unfolding store_limit set_limit
  store_limit-returns parsed k s p q h =
      let (i, e) = w.flag parsed k p q in
      let (l, f, a, b) = limit_of_json-returns parsed k s p q in
      let len = h.count in
      elim (Bool-cases (leb 7 i)) [
        | inl out ↦ (s, ground (arith, e, out), h)
        | inr within ↦ (
          record s { limits = set s.limits i l },
          ground (arith, e, within, f, len),
          set-IsSound s.limits i l h (ground (arith, within)) (a, b),
        )
      ]

  store_limits-returns :
      (parsed : env.Json) (n k : ℕ) (s : UserData)
      → IsReply env parsed
      → k + n ≤ env.array_length parsed
      → IsSound s.limits
      → (t : UserData) × (store_limits env parsed n k s ≡ some (tt, t)) × IsSound t.limits
  unfolding store_limits
  store_limits-returns parsed zero k s p q h = (s, refl, h)
  store_limits-returns parsed (suc n) k s p q h =
      let (u, e, g) = store_limit-returns parsed k s p (omega (arith, q)) h in
      let (t, f, after) = store_limits-returns parsed n (k + 1) u p (omega (arith, q)) g in
      (t, ground (arith, e, f), after)

  get_limits-fails :
      (s : UserData)
      → (let cs = Call.get_limits s.username ∷ s.calls in env.fails cs || env.unreadable cs) ≡ true
      → dbus_method_get_limits env s.username s
        ≡ some (none, record s { calls = Call.get_limits s.username ∷ s.calls })
  unfolding dbus_method_get_limits emit
  get_limits-fails s e = ground (arith, e)

  get_limits-reads :
      (s : UserData)
      → (let cs = Call.get_limits s.username ∷ s.calls in env.fails cs || env.unreadable cs) ≡ false
      → let cs = Call.get_limits s.username ∷ s.calls in
        dbus_method_get_limits env s.username s
        ≡ some (some (env.reply cs), record s { calls = cs })
  unfolding dbus_method_get_limits emit
  get_limits-reads s e =
      let cs = Call.get_limits s.username ∷ s.calls in
      let u : UserData = record s { calls = cs } in
      let copied = copy_into-fits 1024 (env.reply cs) u (w.fits s.username s.calls) in
      ground (arith, e, copied)

  -- The limits are read without undefined behaviour, and are sound after it as they were before.
  pub get_limits_info-returns :
      (s : UserData)
      → IsSound s.limits
      → (t : UserData) × (get_limits_info env s ≡ some (tt, t)) × IsSound t.limits
  unfolding get_limits_info
  get_limits_info-returns s h =
      let u : UserData = record s { calls = Call.get_limits s.username ∷ s.calls } in
      elim (Bool-cases (env.fails u.calls || env.unreadable u.calls)) [
        | inl e ↦ let asked = get_limits-fails s e in (u, ground (arith, asked), h)
        | inr e ↦
            let text = env.reply u.calls in
            let asked = get_limits-reads s e in
            elim (Option-cases (env.parse text)) [
              | inl f ↦ (u, ground (arith, asked, f), h)
              | inr (parsed, f) ↦
                  let (t, g, q) =
                    store_limits-returns parsed (env.array_length parsed) 0 u
                      (s.username, s.calls, f) (omega arith) h in
                  (t, ground (arith, asked, f, g), q)
            ]
      ]
