-- ===== src/Auth/Life/Errors.antt =====
-- The errors that lib/src/auth/auth.c hands out, and `da_error_free`.
use lingmo_authenticate.Common.{
  ℕ, ◌+◌, ◌<◌, ◌≡◌, ◌≢◌, refl, Bool, true, false, Option, none, some, ◌∷◌, arith, M, ◌>>=◌, ◌>>◌,
  pure, Bool-cases, inl, inr,
}
use lingmo_authenticate.Auth.Life.{Proxy, elem, alloc, release}
use lingmo_authenticate.Auth.Life.Live.{release-some}

-- `struct _da_error` by its pointers.
pub record ErrorPointers : Type 0 where
  pub self : ℕ
  pub msg : Option ℕ

-- What `error_dup` and `error_new` allocate; `wanted` says whether the caller's pointer is not null.
unfoldable pub alloc_error : Bool → M Proxy (Option ErrorPointers)
alloc_error false = pure none
alloc_error true = do
  self ← alloc
  msg ← alloc
  pure (some (record { self = self; msg = some msg }))

unfoldable pub da_error_free : Option ErrorPointers → M Proxy (Unit {0})
da_error_free none = pure tt
da_error_free (some err) = release err.msg >> release (some err.self)

not_freed : (p : ℕ) (s : Proxy) → (elem p s.freed ≢ true) → elem p s.freed ≡ false
not_freed p s h = elim (Bool-cases (elem p s.freed)) [ inl e ↦ absurd (h e) | inr e ↦ e ]

-- An error that was handed out is released by `da_error_free` with its message, once each.
pub error_free_lem :
    (wanted : Bool) (s : Proxy)
    → ((p : ℕ) → elem p s.freed ≡ true → p < s.next)
    → (t : Proxy) × ((alloc_error wanted >>= λ e. da_error_free e) s ≡ some (tt, t))
      × ((q : ℕ) → q < t.next → elem q t.freed ≡ false → (q < s.next) × (elem q s.freed ≡ false))
unfolding alloc_error da_error_free alloc
error_free_lem false s h = (s, refl, λ q less live. (less, live))
error_free_lem true s h =
    let n = s.next in
    let msg_live : elem (n + 1) s.freed ≡ false =
      not_freed (n + 1) s (λ e. omega (arith, h (n + 1) e)) in
    let self_live : elem n s.freed ≡ false = not_freed n s (λ e. omega (arith, h n e)) in
    let made : Proxy = record s { next = n + 1 + 1 } in
    let first = release-some (n + 1) made msg_live in
    let second =
      release-some n (record made { freed = (n + 1) ∷ s.freed }) (ground (arith, self_live)) in
    (
      record made { freed = n ∷ (n + 1) ∷ s.freed },
      ground (arith, first, second),
      λ q less live. ground (arith, less, live),
    )
