-- ===== src/Auth/Deal.antt =====
-- What the JSON text of the service becomes in lib/src/auth/auth.c, and who reads it.
use lingmo_authenticate.Common.{
  ℕ, zero, suc, ◌+◌, ◌<◌, ◌≤◌, ◌≡◌, refl, ap, ℤ, pos, negsuc, ◌==ℤ◌, true, false, Option, none,
  some, List, [], ◌∷◌, String, Bool, take, Bytes, length, ltb, Bool-cases, inl, inr, ◌⊎◌, get_elem?,
  arith,
}
use mathlib.Core.List.{map}
use mathlib.Core.Path.{subst}
use lingmo_authenticate.Auth.Limits.{
  Env, DaProxy, DaLimitInfo, with_text, limit_of, deal_from, limit_json_deal, find_flag,
  da_get_auth_limit_info, da_get_limits, filled, get_limit_info_priv, is_valid_auth_flag,
  auth_flag_all,
}

lt_or_eq : (i m : ℕ) → i ≤ m → (i < m) ⊎ (i ≡ m)
lt_or_eq i m h = elim (Bool-cases (ltb i m)) [
  | inl less ↦ inl (ground arith)
  | inr more ↦ inr (ground arith)
]

module _ (env : Env) (obj : env.Json) where
  -- The object has the key, with this number, this flag, or this text, of which 63 bytes are kept.
  abbrev pub HasInt : env.Json → String → ℤ → Type 0
  HasInt ele name v = (x : env.Json) × (env.get_ex ele name ≡ (true, x)) × (env.get_int x ≡ v)

  abbrev pub HasFlag : env.Json → String → Bool → Type 0
  HasFlag ele name v = (x : env.Json) × (env.get_ex ele name ≡ (true, x)) × (env.get_boolean x ≡ v)

  abbrev pub HasText : env.Json → String → Option Bytes → Type 0
  HasText ele name v =
      (x : env.Json) × (text : Bytes) × (env.get_ex ele name ≡ (true, x))
      × (env.get_string x ≡ some text)
      × (v ≡ some (take 63 text))

  -- The element is an object that describes this limit, under the keys of the service's documents.
  pub record Describes (ele : env.Json) (l : DaLimitInfo) : Type 0 where
    pub solid : env.is_null ele ≡ false
    pub type : HasText ele "type" l.type
    pub flag : HasInt ele "flag" l.flag
    pub unlock_secs : HasInt ele "unlockSecs" l.unlock_secs
    pub max_tries : HasInt ele "maxTries" l.max_tries
    pub num_failures : HasInt ele "numFailures" l.fail_num
    pub locked : HasFlag ele "locked" l.locked
    pub unlock_time : HasText ele "unlockTime" l.unlock_time

  Describes-limit_of :
      (ele : env.Json) (l : DaLimitInfo) → Describes ele l → limit_of env ele ≡ some l
  unfolding limit_of
  Describes-limit_of ele l d =
      let (a, t, e1, f1, g1) = d.type in
      let (b, e2, f2) = d.flag in
      let (c, e3, f3) = d.unlock_secs in
      let (m, e4, f4) = d.max_tries in
      let (n, e5, f5) = d.num_failures in
      let (o, e6, f6) = d.locked in
      let (p, u, e7, f7, g7) = d.unlock_time in
      ground (arith, e1, f1, g1, e2, f2, e3, f3, e4, f4, e5, f5, e6, f6, e7, f7, g7)

  described_from :
      (ls : List DaLimitInfo) (i : ℕ)
      → ((j : ℕ) (l : DaLimitInfo)
          → get_elem? ls j ≡ some l
          → Describes (env.get_idx obj (i + j)) l)
      → deal_from env obj (length ls) i ≡ (false, map some ls)
  unfolding deal_from
  described_from [] i h = refl
  described_from (l ∷ ls) i h =
      let here : Describes (env.get_idx obj i) l =
        subst (λ k. Describes (env.get_idx obj k) l) (omega arith) (h 0 l refl) in
      let rest =
        described_from ls (i + 1)
          (λ j k e. subst (λ n. Describes (env.get_idx obj n) k) (omega arith) (h (suc j) k e)) in
      let solid = here.solid in
      ground (arith, solid, Describes-limit_of (env.get_idx obj i) l here, rest)

  -- Elements from `i` to `k` that are complete and have another flag, then one that lacks a key.
  unfoldable pub StopsAt : ℕ → ℕ → ℤ → Type 0
  StopsAt n i auth_flag =
      (m : ℕ) × (i ≤ m)
      × (m < i + n)
      × ((j : ℕ)
          → i ≤ j
          → j < m
          → (env.is_null (env.get_idx obj j) ≡ false)
            × (l : DaLimitInfo) × (limit_of env (env.get_idx obj j) ≡ some l)
            × ((l.flag ==ℤ auth_flag) ≡ false))
      × (env.is_null (env.get_idx obj m) ≡ false)
      × (limit_of env (env.get_idx obj m) ≡ none)

  stopped_from :
      (n i : ℕ) (auth_flag : ℤ)
      → StopsAt n i auth_flag
      → let (error, dli) = deal_from env obj n i in
        (error ≡ true) × (find_flag dli auth_flag ≡ none)
  unfolding deal_from find_flag StopsAt
  stopped_from zero i auth_flag (m, p, q, _, _, _) = absurd (omega arith)
  stopped_from (suc n) i auth_flag (m, p, q, before, solid, e) = elim (lt_or_eq i m p) [
    | inl less ↦
        let (solid_i, l, e_i, other) = before i (omega arith) less in
        let (err, stuck) =
          stopped_from n (i + 1) auth_flag
            (m, omega arith, omega arith, λ j a b. before j (omega arith) b, solid, e) in
        (ground (arith, solid_i, e_i, err), ground (arith, solid_i, e_i, other, stuck))
    | inr same ↦
        let at : env.get_idx obj m ≡ env.get_idx obj i =
          ap (λ k. env.get_idx obj k) (omega arith) in
        (ground (arith, at, solid, e), ground (arith, at, solid, e))
  ]

-- When the text of the service is an array that describes these limits, each with the type, the flag,
-- the time in seconds, the most tries, the failures, the lock and the time of its object, under their
-- keys, `limit_json_deal` returns 0 and exactly these limits in their order. (Of a text 63 bytes are
-- kept.)
pub limit_json_deal_complete :
    (env : Env) (buff : Bytes) (ls : List DaLimitInfo)
    → env.array_length (env.parse buff) ≡ some (length ls)
    → ((j : ℕ) (l : DaLimitInfo)
        → get_elem? ls j ≡ some l
        → Describes env (env.parse buff) (env.get_idx (env.parse buff) j) l)
    → limit_json_deal env buff ≡ some (false, map some ls)
unfolding limit_json_deal
limit_json_deal_complete env buff ls size h =
    let all = described_from env (env.parse buff) ls 0 (λ j l e.
      subst (λ k. Describes env (env.parse buff) (env.get_idx (env.parse buff) k) l) (omega arith)
        (h j l e)) in
    ground (arith, size, all)

valid_not_all : (a : ℤ) → is_valid_auth_flag a ≡ true → (a ==ℤ auth_flag_all) ≡ false
unfolding is_valid_auth_flag
valid_not_all (pos m) h = ground arith
valid_not_all (negsuc m) h = ground arith

lookup_stuck :
    (dli : List (Option DaLimitInfo)) (a : ℤ)
    → is_valid_auth_flag a ≡ true
    → find_flag dli a ≡ none
    → da_get_auth_limit_info (some dli) a ≡ none
unfolding da_get_auth_limit_info
lookup_stuck dli a valid h = let other = valid_not_all a valid in ground (arith, valid, other, h)

get_stuck :
    (env : Env) (proxy : DaProxy) (name : Bytes) (a : ℤ) (k : ℕ) (dli : List (Option DaLimitInfo))
    → da_get_limits env proxy (some name) k ≡ some (filled true dli, suc k)
    → da_get_auth_limit_info (some dli) a ≡ none
    → get_limit_info_priv env proxy (some name) a k ≡ none
unfolding get_limit_info_priv
get_stuck env proxy name a k dli h g = ground (arith, h, g)

-- When one object of the array lacks a key, those before it have every key and another flag, and
-- the flag asked for is valid, `da_get_limits` returns -1 without an error, and
-- `get_limit_info_priv`, which looks at the error only, reads an element that was never written.
pub get_limit_info_priv-undefined :
    (env : Env) (proxy : DaProxy) (name buff : Bytes) (auth_flag : ℤ) (n k : ℕ)
    → proxy.has_authenticate_proxy ≡ true
    → env.get_limits k name ≡ with_text buff
    → env.array_length (env.parse buff) ≡ some n
    → StopsAt env (env.parse buff) n 0 auth_flag
    → is_valid_auth_flag auth_flag ≡ true
    → (dli : List (Option DaLimitInfo)) × (da_get_limits env proxy (some name) k
        ≡ some (filled true dli, suc k))
      × (get_limit_info_priv env proxy (some name) auth_flag k ≡ none)
unfolding limit_json_deal da_get_limits
get_limit_info_priv-undefined env proxy name buff auth_flag n k has replied size stops valid =
    let (err, stuck) = stopped_from env (env.parse buff) n 0 auth_flag stops in
    let dli = (deal_from env (env.parse buff) n 0).1 in
    let got = lookup_stuck dli auth_flag valid stuck in
    let lim : da_get_limits env proxy (some name) k ≡ some (filled true dli, suc k) =
      ground (arith, has, replied, size, err) in
    (dli, lim, get_stuck env proxy name auth_flag k dli lim got)
