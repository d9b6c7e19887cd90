-- ===== src/Pam/Clean/Twice.antt =====
-- What `clean_auth_data` leaves, and its second call from `pam_clean_func`.
use lingmo_authenticate.Common.{
  ◌≡◌, ◌≢◌, refl, ◌∙◌, false, none, some, arith, Option-cases, inl, inr,
}
use lingmo_authenticate.Pam.State.{Env, UserData, emit}
use lingmo_authenticate.Pam.Clean.{clean_bus, clean_thread, clean_term, clean_auth_data}
use lingmo_authenticate.Pam.Dbus.{dbus_method_end}

-- What `clean_auth_data` looks at is closed, cancelled and freed.
pub record IsClean (s : UserData) : Type 0 where
  pub no_bus : s.bus ≡ false
  pub no_thread : s.pid ≡ 0
  pub no_session : s.auth_ctrl ≡ none
  pub no_term : s.term ≡ false
  pub no_key : s.symmetric_key ≡ none

module _ (env : Env) (s t : UserData) where
  clean_bus-total : clean_bus env s ≢ none
  unfolding clean_bus dbus_method_end emit
  clean_bus-total h = ground arith

  clean_bus-some :
      clean_bus env s ≡ some (tt, t) → (t.bus ≡ false) × (t.res ≡ s.res) × (t.key ≡ s.key)
  unfolding clean_bus dbus_method_end emit
  clean_bus-some h = ground arith

  clean_thread-total : clean_thread env s ≢ none
  unfolding clean_thread emit
  clean_thread-total h = ground arith

  clean_thread-some :
      clean_thread env s ≡ some (tt, t)
      → (t.pid ≡ 0) × (t.bus ≡ s.bus) × (t.res ≡ s.res) × (t.key ≡ s.key)
  unfolding clean_thread emit
  clean_thread-some h = ground arith

  clean_term-total : clean_term env s ≢ none
  unfolding clean_term emit
  clean_term-total h = ground arith

  clean_term-some :
      clean_term env s ≡ some (tt, t)
      → (t.term ≡ false)
        × (t.pid ≡ s.pid)
        × (t.bus ≡ s.bus)
        × (t.auth_ctrl ≡ s.auth_ctrl)
        × (t.res ≡ s.res)
        × (t.key ≡ s.key)
  unfolding clean_term emit
  clean_term-some h = ground arith

-- `clean_auth_data` always ends; what it looks at is closed, cancelled and freed, and the
-- result and the public key stay.
pub clean_auth_data-IsClean :
    (env : Env) (s : UserData)
    → (t : UserData) × (clean_auth_data env s ≡ some (tt, t))
      × IsClean t
      × (t.res ≡ s.res)
      × (t.key ≡ s.key)
unfolding clean_auth_data
clean_auth_data-IsClean env s = elim (Option-cases (clean_bus env s)) [
  | inl e ↦ absurd (clean_bus-total env s s e)
  | inr ((_, u), e) ↦ elim (Option-cases (clean_thread env u)) [
    | inl g ↦ absurd (clean_thread-total env u u g)
    | inr ((_, v), g) ↦
        let w = record v { auth_ctrl = none } in
        elim (Option-cases (clean_term env w)) [
          | inl k ↦ absurd (clean_term-total env w w k)
          | inr ((_, x), k) ↦
              let (a, b, k1) = clean_bus-some env s u e in
              let (c, d, f, k2) = clean_thread-some env u v g in
              let (m, n, o, p, q, k3) = clean_term-some env w x k in
              (
                record x { symmetric_key = none },
                ground (arith, e, g, k),
                record {
                  no_bus = o ∙ d ∙ a;
                  no_thread = n ∙ c;
                  no_session = p;
                  no_term = m;
                  no_key = refl;
                },
                q ∙ f ∙ b,
                k3 ∙ k2 ∙ k1,
              )
        ]
  ]
]

-- On clean data it changes nothing and calls nothing: the second call, of `pam_clean_func`, does no
-- harm.
pub clean_auth_data_twice :
    (env : Env) (s : UserData) → IsClean s → clean_auth_data env s ≡ some (tt, s)
unfolding clean_auth_data clean_bus clean_thread clean_term
clean_auth_data_twice env s c =
    ground (arith, c.no_bus, c.no_thread, c.no_session, c.no_term, c.no_key)
