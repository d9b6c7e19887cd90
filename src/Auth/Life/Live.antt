-- ===== src/Auth/Life/Live.antt =====
-- Pointers of a `da_proxy` (lib/src/auth/auth.c) that can be released one after the other.
use lingmo_authenticate.Common.{
  ℕ, ◌+◌, ◌<◌, ◌≤◌, ◌≡◌, refl, false, Option, none, some, List, [], ◌∷◌, ◌++◌, arith, ◌>>◌, M,
}
use lingmo_authenticate.Auth.Life.{Proxy, elem, release}

-- These pointers can be released one after the other.
abbrev pub Live : List (Option ℕ) → List ℕ → ℕ → Type 0
Live [] freed next = Unit
Live (none ∷ ps) freed next = Live ps freed next
Live (some p ∷ ps) freed next = (p < next) × (elem p freed ≡ false) × Live ps (p ∷ freed) next

-- The release of live pointers, of which there is one at least.
unfoldable pub release_all : Option ℕ → List (Option ℕ) → M Proxy (Unit {0})
release_all p [] = release p
release_all p (q ∷ qs) = release p >> release_all q qs

pub release-some :
    (p : ℕ) (s : Proxy)
    → elem p s.freed ≡ false
    → release (some p) s ≡ some (tt, record s { freed = p ∷ s.freed })
unfolding release
release-some p s h = ground (arith, h)

release-none : (s : Proxy) → release none s ≡ some (tt, s)
unfolding release
release-none s = refl

pub release_all-some :
    (p : Option ℕ) (ps : List (Option ℕ)) (s : Proxy)
    → Live (p ∷ ps) s.freed s.next
    → (t : Proxy) × (release_all p ps s ≡ some (tt, t))
unfolding release_all
release_all-some none [] s h = (s, release-none s)
release_all-some (some p) [] s (less, live, rest) = (_, release-some p s live)
release_all-some none (q ∷ qs) s h =
    let (t, e) = release_all-some q qs s h in (t, ground (arith, release-none s, e))
release_all-some (some p) (q ∷ qs) s (less, live, rest) =
    let (t, e) = release_all-some q qs (record s { freed = p ∷ s.freed }) rest in
    (t, ground (arith, release-some p s live, e))

-- Live pointers stay live while other pointers are released and allocated.
pub Live-mono :
    (ps : List (Option ℕ)) (f f' : List ℕ) (n n' : ℕ)
    → n ≤ n'
    → ((q : ℕ) → q < n → elem q f ≡ false → elem q f' ≡ false)
    → Live ps f n
    → Live ps f' n'
Live-mono [] f f' n n' le sub h = tt
Live-mono (none ∷ ps) f f' n n' le sub h = Live-mono ps f f' n n' le sub h
Live-mono (some p ∷ ps) f f' n n' le sub (less, live, rest) = (
  omega (arith, less, le),
  sub p less live,
  Live-mono ps (p ∷ f) (p ∷ f') n n' le (λ q k e. ground (arith, e, sub q k)) rest,
)

pub Live-tail :
    (p : Option ℕ) (ps : List (Option ℕ)) (f : List ℕ) (n : ℕ) → Live (p ∷ ps) f n → Live ps f n
Live-tail none ps f n h = h
Live-tail (some p) ps f n (less, live, rest) =
    Live-mono ps (p ∷ f) f n n (omega arith) (λ q k e. ground (arith, e)) rest

pub Live-last :
    (ps : List (Option ℕ)) (p : Option ℕ) (f : List ℕ) (n : ℕ)
    → Live (ps ++ (p ∷ [])) f n
    → Live (p ∷ []) f n
Live-last [] p f n h = h
Live-last (q ∷ ps) p f n h = Live-last ps p f n (Live-tail q (ps ++ (p ∷ [])) f n h)

pub Live-without :
    (ps : List (Option ℕ)) (p : Option ℕ) (qs : List (Option ℕ)) (f : List ℕ) (n : ℕ)
    → Live (ps ++ (p ∷ qs)) f n
    → Live (ps ++ (none ∷ qs)) f n
Live-without [] p qs f n h = Live-tail p qs f n h
Live-without (none ∷ ps) p qs f n h = Live-without ps p qs f n h
Live-without (some q ∷ ps) p qs f n (less, live, rest) =
    (less, live, Live-without ps p qs (q ∷ f) n rest)

-- A pointer that is allocated and released at once.
pub Live-passed :
    (ps : List (Option ℕ)) (f : List ℕ) (n : ℕ) → Live ps f n → Live ps (n ∷ f) (n + 1)
Live-passed ps f n h =
    Live-mono ps f (n ∷ f) n (n + 1) (omega arith) (λ q k e. ground (arith, e, k)) h
