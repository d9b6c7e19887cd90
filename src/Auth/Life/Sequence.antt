-- ===== src/Auth/Life/Sequence.antt =====
-- Any sequence of calls on a `da_proxy` of lib/src/auth/auth.c.
use mathlib.Core.Path.{subst}
use lingmo_authenticate.Common.{
  ℕ, ◌+◌, ◌<◌, ◌≡◌, refl, Bool, true, false, Option, none, some, List, [], ◌∷◌, ◌++◌, sym, arith,
  ◌>>=◌, M, Bool-cases, Option-cases, inl, inr,
}
use lingmo_authenticate.Auth.Life.{
  rejected, from_call, message, Proxy, Answer, Given, given, call_error, null, object, elem, alloc,
  release, exchange_keys, Ended, has_valid_session_proxy, da_create_authenticate,
  da_quit_authenticate, da_dbus_proxy_free,
}
use lingmo_authenticate.Auth.Life.Release.{new_proxy, fails_late}
use lingmo_authenticate.Auth.Life.Live.{
  Live, release_all, release-some, release_all-some, Live-mono, Live-tail, Live-last, Live-without,
  Live-passed,
}

-- A call on the proxy, with what the service answers.
pub data Op : Type 0 where
  create : Answer → Answer → Bool → Bool → Given → Op
  quit : Bool → Op

unfoldable pub run_op : Op → M Proxy Ended
run_op (create a s e g k) = da_create_authenticate a s e g k
run_op (quit end_ok) = da_quit_authenticate end_ok

unfoldable pub run_ops : List Op → M Proxy (Unit {0})
run_ops [] = da_dbus_proxy_free
run_ops (op ∷ ops) = run_op op >>= λ r. run_ops ops

-- The exchange of the keys, the encryption of the symmetric key included, does not fail after a session
-- was made, and the call of End fails.
abbrev pub IsSafe : Op → Type 0
IsSafe (create a s e g k) = fails_late a s e g k ≡ false
IsSafe (quit end_ok) = end_ok ≡ false

abbrev pub AllSafe : List Op → Type 0
AllSafe [] = Unit
AllSafe (op ∷ ops) = IsSafe op × AllSafe ops

abbrev members : Proxy → List (Option ℕ)
members s =
    s.username ∷ s.authenticate_proxy ∷ s.session_proxy ∷ s.session_path ∷ s.pubkey ∷ s.enc_method
    ∷ s.symmetric_key ∷ s.key ∷ s.self ∷ []

record IsOwned (s : Proxy) : Type 0 where
  live : Live (members s) s.freed s.next
  below : (p : ℕ) → elem p s.freed ≡ true → p < s.next

free-some : (s : Proxy) → IsOwned s → (t : Proxy) × (da_dbus_proxy_free s ≡ some (tt, t))
unfolding da_dbus_proxy_free release_all
free-some s h = release_all-some s.username _ s h.live

module _ (s : Proxy) (h : IsOwned s) where
  fresh : (i : ℕ) → elem (s.next + i) s.freed ≡ false
  fresh i = elim (Bool-cases (elem (s.next + i) s.freed)) [
    | inl e ↦ absurd (omega (arith, h.below (s.next + i) e))
    | inr e ↦ e
  ]

  -- What a new session keeps of the members.
  kept : (a : ℕ) → s.authenticate_proxy ≡ some a → Live (some a ∷ s.self ∷ []) s.freed s.next
  kept a e =
      let session =
        s.session_proxy ∷ s.session_path ∷ s.pubkey ∷ s.enc_method ∷ s.symmetric_key ∷ s.key ∷ [] in
      let later = session ++ (s.self ∷ []) in
      let (less, live, rest) =
        subst (λ o. Live (o ∷ later) s.freed s.next) e
          (Live-tail s.username (s.authenticate_proxy ∷ later) s.freed s.next h.live) in
      (less, live, Live-last session s.self (a ∷ s.freed) s.next rest)

  -- The members after a session was made, by their distances from the first new pointer.
  abbrev made : Proxy
  made = record s {
    session_path = some s.next;
    session_proxy = some (s.next + 1);
    username = some (s.next + 2);
    pubkey = some (s.next + 3);
    enc_method = some (s.next + 4);
    key = some (s.next + 5);
    symmetric_key = some (s.next + 6);
    next = s.next + 7;
  }

  made-some :
      (a : ℕ)
      → s.authenticate_proxy ≡ some a
      → da_create_authenticate object object true true given s ≡ some (Ended.ok, made)
  unfolding da_create_authenticate exchange_keys alloc
  made-some a e = ground (arith, e)

  made-IsOwned : (a : ℕ) → s.authenticate_proxy ≡ some a → IsOwned made
  made-IsOwned a e =
      let (less, live, self) = kept a e in
      let n = s.next in
      let f0 = fresh 0 in
      let f1 = fresh 1 in
      let f2 = fresh 2 in
      let f3 = fresh 3 in
      let f4 = fresh 4 in
      let f5 = fresh 5 in
      let f6 = fresh 6 in
      let session : List (Option ℕ) =
        some (n + 1)
        ∷ some n
        ∷ some (n + 3)
        ∷ some (n + 4)
        ∷ some (n + 6)
        ∷ some (n + 5)
        ∷ s.self
        ∷ [] in
      let rest : Live (some a ∷ session) ((n + 2) ∷ s.freed) (n + 7) = (
        omega (arith, less),
        ground (arith, live, less),
        (
          omega arith,
          ground (arith, f1, less),
          (
            omega arith,
            ground (arith, f0, less),
            (
              omega arith,
              ground (arith, f3, less),
              (
                omega arith,
                ground (arith, f4, less),
                (
                  omega arith,
                  ground (arith, f6, less),
                  (
                    omega arith,
                    ground (arith, f5, less),
                    Live-mono (s.self ∷ []) (a ∷ s.freed)
                        ((n + 5)
                          ∷ (n + 6)
                          ∷ (n + 4)
                          ∷ (n + 3)
                          ∷ n
                          ∷ (n + 1)
                          ∷ a
                          ∷ (n + 2)
                          ∷ s.freed)
                        n (n + 7) (omega arith) (λ q k x. ground (arith, k, x)) self,
                  ),
                ),
              ),
            ),
          ),
        ),
      ) in
      record {
        live = (
          omega arith,
          f2,
          subst (λ o. Live (o ∷ session) ((n + 2) ∷ s.freed) (n + 7)) (sym e) rest,
        );
        below = λ p x. omega (arith, h.below p x);
      }

  -- The session could not be made: only the path was allocated, and is released.
  abbrev passed : Proxy
  passed = record s { session_proxy = none; next = s.next + 1; freed = s.next ∷ s.freed }

  passed-IsOwned : IsOwned passed
  passed-IsOwned =
      let path : List (Option ℕ) =
        s.session_path ∷ s.pubkey ∷ s.enc_method ∷ s.symmetric_key ∷ s.key ∷ s.self ∷ [] in
      record {
        live = Live-passed (s.username ∷ s.authenticate_proxy ∷ none ∷ path) s.freed s.next (
            Live-without (s.username ∷ s.authenticate_proxy ∷ []) s.session_proxy path s.freed
              s.next h.live);
        below = λ p x. ground (arith, x, h.below p);
      }

  session_live : (p : ℕ) → s.session_proxy ≡ some p → elem p s.freed ≡ false
  session_live p e =
      let path : List (Option ℕ) =
        s.session_path ∷ s.pubkey ∷ s.enc_method ∷ s.symmetric_key ∷ s.key ∷ s.self ∷ [] in
      let l = Live-tail s.authenticate_proxy (s.session_proxy ∷ path) s.freed s.next (
        Live-tail s.username (s.authenticate_proxy ∷ s.session_proxy ∷ path) s.freed s.next
          h.live) in
      let (_, live, _) = subst (λ o. Live (o ∷ path) s.freed s.next) e l in live

  release-path :
      release (some s.next) (record s { session_proxy = none; next = s.next + 1 })
      ≡ some (tt, passed)
  release-path =
      release-some s.next (record s { session_proxy = none; next = s.next + 1 })
        (elim (Bool-cases (elem s.next s.freed)) [
          | inl e ↦ absurd (omega (arith, h.below s.next e))
          | inr e ↦ e
        ])

  create-IsOwned :
      (x y : Answer) (b c : Bool) (d : Given) (a : ℕ)
      → fails_late x y b c d ≡ false
      → s.authenticate_proxy ≡ some a
      → (r : Ended) × (t : Proxy) × (da_create_authenticate x y b c d s ≡ some (r, t)) × IsOwned t
  unfolding da_create_authenticate alloc
  create-IsOwned call_error y b c d a safe e = (from_call, s, ground (arith, e), h)
  create-IsOwned null y b c d a safe e =
      (message "call dbus-authenticate failed.", s, ground (arith, e), h)
  create-IsOwned object call_error b c d a safe e =
      (from_call, passed, ground (arith, e, release-path), passed-IsOwned)
  create-IsOwned object null b c d a safe e =
      (message "create session failed.", passed, ground (arith, e, release-path), passed-IsOwned)
  create-IsOwned object object true true given a safe e =
      (Ended.ok, made, made-some a e, made-IsOwned a e)
  create-IsOwned object object b c d a safe e = absurd (ground (arith, safe))

  run_op-IsOwned :
      (op : Op) → IsSafe op → (r : Ended) × (t : Proxy) × (run_op op s ≡ some (r, t)) × IsOwned t
  unfolding run_op da_create_authenticate da_quit_authenticate has_valid_session_proxy
  run_op-IsOwned (quit true) safe = absurd (ground (arith, safe))
  run_op-IsOwned (quit false) safe = elim (Option-cases s.session_proxy) [
    | inl e ↦ (rejected, s, ground (arith, e), h)
    | inr (p, e) ↦ (from_call, s, ground (arith, e, session_live p e), h)
  ]
  run_op-IsOwned (create x y b c d) safe = elim (Option-cases s.authenticate_proxy) [
    | inl e ↦ (rejected, s, ground (arith, e), h)
    | inr (a, e) ↦ create-IsOwned x y b c d a safe e
  ]

run_ops-some :
    (ops : List Op) (s : Proxy)
    → IsOwned s
    → AllSafe ops
    → (t : Proxy) × (run_ops ops s ≡ some (tt, t))
unfolding run_ops
run_ops-some [] s h safe = free-some s h
run_ops-some (op ∷ ops) s h (safe, later) =
    let (r, u, e, g) = run_op-IsOwned s h op safe in
    let (t, f) = run_ops-some ops u g later in (t, ground (arith, e, f))

new_proxy-IsOwned : IsOwned new_proxy
new_proxy-IsOwned = record {
  live = (omega arith, refl, (omega arith, refl, tt));
  below = λ p x. absurd (ground (arith, x));
}

-- On a new proxy, any sequence of calls of `da_create_authenticate` and `da_quit_authenticate`, and
-- `da_dbus_proxy_free` at its end, releases no pointer twice and looks at none that was released,
-- provided that the exchange of the keys never fails after a session was made and that End always
-- fails.
pub run_ops-safe :
    (ops : List Op) → AllSafe ops → (t : Proxy) × (run_ops ops new_proxy ≡ some (tt, t))
run_ops-safe ops safe = run_ops-some ops new_proxy new_proxy-IsOwned safe
