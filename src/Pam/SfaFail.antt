-- ===== src/Pam/SfaFail.antt =====
-- The failures of single methods in misc/pam-module/auth/sfa.c.
use mathlib.Core.List.{append_assoc, append-nil}
use native.Mathlib.Numerals.{add-one}
use native.Mathlib.Decide.{dec_lt}
use lingmo_authenticate.Common.{
  ℕ, zero, suc, ◌+◌, ◌≤◌, ◌<◌, ◌≡◌, ◌≢◌, refl, ap, ◌∙◌, ℤ, pos, minus_one, ==ℤ-eq, ◌==ℤ◌, Bool,
  false, none, some, List, [], ◌∷◌, ◌++◌, arith, Bytes, length, get_elem?, set, take, length-set,
  if◌then◌else◌, ◌>>=◌, pure, ◌||◌,
}
use lingmo_authenticate.Pam.Codes.{Ret, at_password}
use lingmo_authenticate.Pam.State.{Env, UserData, Pam}
use lingmo_authenticate.Pam.Sfa.{any_password, fail_type, sfa_signal_deal}

abbrev pub has_password : List ℤ → Bool
has_password [] = false
has_password (a ∷ as') = a ==ℤ at_password || has_password as'

-- The method to report: the password if it failed too, else the first to fail.
abbrev pub reported : List ℤ → ℤ
reported [] = at_password
reported (a ∷ as') = if has_password (a ∷ as') then at_password else a

-- The failures recorded so far, the first first.
abbrev pub recorded : UserData → List ℤ
recorded s = take s.failed_num s.failed_indexs

abbrev drop : ℕ → List ℤ → List ℤ
drop zero xs = xs
drop (suc n) [] = []
drop (suc n) (x ∷ xs) = drop n xs

drop-cons :
    (xs : List ℤ) (i : ℕ)
    → i < length xs
    → (v : ℤ) × (get_elem? xs i ≡ some v) × (drop i xs ≡ v ∷ drop (i + 1) xs)
drop-cons [] i h = elim h [ ]
drop-cons (x ∷ xs) zero h = (x, refl, refl)
drop-cons (x ∷ xs) (suc i) h =
    let (v, e, d) = drop-cons xs i (omega arith) in
    (v, e, d ∙ ap (λ (k : ℕ). v ∷ drop k (x ∷ xs)) {x = suc (i + 1)} {y = suc i + 1} (omega arith))

any_password_lem :
    (n i : ℕ) (xs : List ℤ)
    → i + n ≤ length xs
    → any_password n i xs ≡ some (has_password (take n (drop i xs)))
unfolding any_password
any_password_lem zero i xs h = refl
any_password_lem (suc n) i xs h =
    let (v, e, d) = drop-cons xs i (omega arith) in
    ground (arith, e, d, any_password_lem n (i + 1) xs (omega arith))

pub fail_type-reported :
    (n : ℕ) (xs : List ℤ) → n ≤ length xs → fail_type n xs ≡ some (reported (take n xs))
unfolding fail_type
fail_type-reported zero xs h = ground arith
fail_type-reported (suc n) [] h = absurd (omega arith)
fail_type-reported (suc n) (x ∷ xs) h =
    ground (arith, any_password_lem (suc n) 0 (x ∷ xs) (omega arith))

pub take-set :
    (xs : List ℤ) (k : ℕ) (v : ℤ)
    → k < length xs
    → take (suc k) (set xs k v) ≡ take k xs ++ (v ∷ [])
take-set [] k v h = elim h [ ]
take-set (x ∷ xs) zero v h = refl
take-set (x ∷ xs) (suc k) v h = ap (λ l. x ∷ l) (take-set xs k v (omega arith))

-- Types of single methods.
abbrev pub AllMethods : List ℤ → Type 0
AllMethods [] = Unit
AllMethods (a ∷ as') = (a ≢ minus_one) × AllMethods as'

module _ (env : Env) (msg : Bytes) where
  -- The failure signals of these methods, one after the other.
  unfoldable pub deal_failures : List ℤ → Pam (Unit {0})
  deal_failures [] = pure tt
  deal_failures (a ∷ as') = do _ ← sfa_signal_deal env (pos 1) a msg; deal_failures as'

  deal_failure :
      (a : ℤ) (s : UserData)
      → a ≢ minus_one
      → s.failed_num < length s.failed_indexs
      → (t : UserData) × (sfa_signal_deal env (pos 1) a msg s ≡ some (Ret.pending, t))
        × (length t.failed_indexs ≡ length s.failed_indexs)
        × (t.failed_num ≡ s.failed_num + 1)
        × (recorded t ≡ recorded s ++ (a ∷ []))
  unfolding sfa_signal_deal
  deal_failure a s ne h = (
    record s { failed_indexs = set s.failed_indexs s.failed_num a; failed_num = s.failed_num + 1 },
    ground (arith, ==ℤ-eq a minus_one),
    length-set s.failed_indexs s.failed_num a,
    refl,
    rw add-one (take-set s.failed_indexs s.failed_num a h),
  )

  deal_failure-full :
      (a : ℤ) (s : UserData)
      → a ≢ minus_one
      → length s.failed_indexs ≤ s.failed_num
      → sfa_signal_deal env (pos 1) a msg s ≡ none
  unfolding sfa_signal_deal
  deal_failure-full a s ne h = ground (arith, ==ℤ-eq a minus_one)

  deal_failures-recorded :
      (as' : List ℤ) (s : UserData)
      → AllMethods as'
      → s.failed_num + length as' ≤ length s.failed_indexs
      → (t : UserData) × (deal_failures as' s ≡ some (tt, t))
        × (recorded t ≡ recorded s ++ as')
        × (fail_type t.failed_num t.failed_indexs ≡ some (reported (recorded s ++ as')))
  unfolding deal_failures
  deal_failures-recorded [] s m h = (
    s,
    refl,
    rw append-nil refl,
    rw append-nil (fail_type-reported s.failed_num s.failed_indexs (omega arith)),
  )
  deal_failures-recorded (a ∷ as') s m h =
      let (t, d, len, num, rec') = deal_failure a s m.0 (omega arith) in
      let (u, f, r, q) = deal_failures-recorded as' t m.1 (omega arith) in
      let assoc = append_assoc (recorded s) (a ∷ []) as' in
      (
        u,
        ground (arith, d, f),
        r ∙ ap (λ l. l ++ as') rec' ∙ assoc,
        q ∙ ap (λ l. some (reported (l ++ as'))) rec' ∙ ap (λ l. some (reported l)) assoc,
      )

  deal_failures-full :
      (as' : List ℤ) (s : UserData)
      → AllMethods as'
      → length s.failed_indexs < s.failed_num + length as'
      → s.failed_num ≤ length s.failed_indexs
      → deal_failures as' s ≡ none
  unfolding deal_failures
  deal_failures-full [] s m h k = absurd (omega arith)
  deal_failures-full (a ∷ as') s m h k = elim (dec_lt s.failed_num (length s.failed_indexs)) [
    | yes room ↦
        let (t, d, len, num, _) = deal_failure a s m.0 room in
        ground (arith, d, deal_failures-full as' t m.1 (omega arith) (omega arith))
    | no full ↦ ground (arith, deal_failure-full a s m.0 (omega arith))
  ]

-- From data without a failure, up to seven failures of single methods (of types other than -1) are
-- recorded in their order, and the method to report is then the password if it is among them, else
-- the first. An eighth is undefined behaviour, since it is written past `failed_indexs`.
pub deal_failures_lem :
    (env : Env) (msg : Bytes) (as' : List ℤ) (s : UserData)
    → AllMethods as'
    → s.failed_num ≡ 0
    → length s.failed_indexs ≡ 7
    → (length as' ≤ 7
        → (t : UserData) × (deal_failures env msg as' s ≡ some (tt, t))
          × (recorded t ≡ as')
          × (fail_type t.failed_num t.failed_indexs ≡ some (reported as')))
      × (7 < length as' → deal_failures env msg as' s ≡ none)
deal_failures_lem env msg as' s m z len = (
  λ h.
      let (t, d, r, q) = deal_failures-recorded env msg as' s m (omega arith) in
      let empty : recorded s ≡ [] = ap (λ n. take n s.failed_indexs) z in
      (t, d, r ∙ ap (λ l. l ++ as') empty, q ∙ ap (λ l. some (reported (l ++ as'))) empty),
  λ h. deal_failures-full env msg as' s m (omega arith) (omega arith),
)
