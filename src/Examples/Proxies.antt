-- ===== src/Examples/Proxies.antt =====
-- The proxy of lib/src/auth/auth.c at concrete answers of the service.
use lingmo_authenticate.Common.{◌≡◌, ◌↔◌, refl, true, false, none, some, ◌∷◌, [], List}
use lingmo_authenticate.Auth.Life.{
  given, Proxy, object, alloc, release, exchange_keys, da_create_authenticate, da_dbus_proxy_free,
  da_dbus_proxy_new,
}
use lingmo_authenticate.Auth.Life.Release.{
  no_proxy, new_proxy, fails_late, Leaks, life, create_free, create_free_lem, life-Leaks,
}
use lingmo_authenticate.Auth.Life.Sequence.{Op, create, quit, run_ops, run_ops-safe}

create_free_lem_example :
    (create_free object object false true given new_proxy ≡ none)
    ↔ (fails_late object object false true given ≡ true)
create_free_lem_example = create_free_lem object object false true given

lived : (t : Proxy) × (life true object object object true true given no_proxy ≡ some (tt, t))
unfolding da_dbus_proxy_new da_create_authenticate da_dbus_proxy_free alloc release exchange_keys
lived = (_, refl)

life-Leaks_example : Leaks 1 lived.0
life-Leaks_example = life-Leaks true object object object true true given lived.0 lived.1

-- A session, whose End fails, and another one.
abbrev two_sessions : List Op
two_sessions =
    create object object true true given ∷ quit false ∷ create object object true true given ∷ []

run_ops-safe_example : (t : Proxy) × (run_ops two_sessions new_proxy ≡ some (tt, t))
run_ops-safe_example = run_ops-safe two_sessions (refl, (refl, (refl, tt)))
