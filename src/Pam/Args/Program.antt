-- ===== src/Pam/Args/Program.antt =====
-- Whether `pam_sm_authenticate` reads the path of the program.
use lingmo_authenticate.Common.{
  ℕ, zero, suc, ◌-◌, ◌<◌, ◌≤◌, ◌≡◌, ◌≢◌, ◌↔◌, refl, ap, ◌∙◌, ◌++◌, some, List, [], ◌∷◌, Bytes,
  length, get_elem?, take, set, replicate, get_elem?-set_ne, arith, inl, inr, ◌⊎◌, Option-cases,
}
use lingmo_authenticate.Pam.Args.{
  Args, c_str, drop, strncpy, strchr, check_debug, no_args, parse_arg, parse_args, readlink,
}

-- No byte is 0.
abbrev pub IsText : Bytes → Type 0
IsText [] = Unit
IsText (c ∷ cs) = (c ≢ 0) × IsText cs

take_longer : (n : ℕ) (xs : Bytes) → length xs ≤ n → take n xs ≡ xs
take_longer zero [] h = refl
take_longer (suc n) [] h = refl
take_longer zero (x ∷ xs) h = absurd (omega arith)
take_longer (suc n) (x ∷ xs) h = ap (λ l. x ∷ l) (take_longer n xs (omega arith))

-- The text of an array that begins with `exe` is `exe` exactly if a 0 follows.
c_str-prefix :
    (exe rest : Bytes) → IsText exe → (c_str (exe ++ rest) ≡ some exe) ↔ (get_elem? rest 0 ≡ some 0)
unfolding c_str
c_str-prefix [] [] h = ground arith
c_str-prefix [] (x ∷ xs) h = ground arith
c_str-prefix (c ∷ exe) rest h = let ih = c_str-prefix exe rest h.1 in ground (arith, ih, h.0)

get_elem?-drop : (n : ℕ) (xs : Bytes) → get_elem? (drop n xs) 0 ≡ get_elem? xs n
get_elem?-drop zero xs = refl
get_elem?-drop (suc n) [] = refl
get_elem?-drop (suc n) (x ∷ xs) = get_elem?-drop n xs

-- The path of the program, of at most 256 bytes, is read as it is exactly if the byte of the buffer
-- at its length was 0, since `readlink` writes no end: what the arguments left there decides.
pub readlink-c_str :
    (exe buff : Bytes)
    → IsText exe
    → length exe ≤ 256
    → (c_str (readlink exe buff) ≡ some exe) ↔ (get_elem? buff (length exe) ≡ some 0)
unfolding readlink
readlink-c_str exe buff text short =
    rw (take_longer 256 exe short, ← get_elem?-drop (length exe) buff)
      (c_str-prefix exe (drop (length exe) buff) text)

get_elem?-append_right :
    (xs ys : Bytes) (i : ℕ) → length xs ≤ i → get_elem? (xs ++ ys) i ≡ get_elem? ys (i - length xs)
get_elem?-append_right [] ys i h = ap (λ k. get_elem? ys k) (omega arith)
get_elem?-append_right (x ∷ xs) ys zero h = absurd (omega arith)
get_elem?-append_right (x ∷ xs) ys (suc i) h =
    get_elem?-append_right xs ys i (omega arith) ∙ ap (λ k. get_elem? ys k) (omega arith)

get_elem?-replicate_append :
    (n i : ℕ) (ys : Bytes) → i < n → get_elem? (replicate n 0 ++ ys) i ≡ some 0
get_elem?-replicate_append zero i ys h = absurd (omega arith)
get_elem?-replicate_append (suc n) zero ys h = refl
get_elem?-replicate_append (suc n) (suc i) ys h = get_elem?-replicate_append n i ys (omega arith)

-- `strncpy` fills up with 0.
strncpy-pads :
    (n : ℕ) (src dst : Bytes) (i : ℕ)
    → length src ≤ i
    → i < n
    → get_elem? (strncpy n src dst) i ≡ some 0
unfolding strncpy
strncpy-pads n src dst i h k =
    rw (take_longer n src (omega arith), get_elem?-append_right src _ i h)
      (get_elem?-replicate_append (n - length src) (i - length src) (drop n dst) (omega arith))

strchr-lt : (s : Bytes) (c i : ℕ) → strchr s c ≡ some i → i < length s
unfolding strchr
strchr-lt [] c i h = ground arith
strchr-lt (x ∷ s) c i h = elim (Option-cases (strchr s c)) [
  | inl e ↦ ground (arith, e)
  | inr (j, e) ↦ let ih = strchr-lt s c j e in ground (arith, e, ih)
]

check_debug-buff : (a b : Args) → check_debug a ≡ some b → b.buff ≡ a.buff
unfolding check_debug
check_debug-buff a b h = ground arith

parse_arg-buff :
    (arg : Bytes) (a b : Args)
    → parse_arg arg a ≡ some b
    → (b.buff ≡ strncpy 255 arg a.buff)
      ⊎ ((j : ℕ) × (j < length arg) × (b.buff ≡ set (strncpy 255 arg a.buff) j 0))
unfolding parse_arg
parse_arg-buff arg a b h = elim (Option-cases (strchr arg b'=')) [
  | inl e ↦
      inl (check_debug-buff (record a { buff = strncpy 255 arg a.buff }) b (ground (arith, h, e)))
  | inr (j, e) ↦ inr (
    j,
    strchr-lt arg b'=' j e,
    ground (arith, h, e, check_debug-buff (record a { buff = set (strncpy 255 arg a.buff) j 0 }) b),
  )
]

-- The bytes of the buffer behind an argument are 0, up to the last.
parse_arg-pads :
    (arg : Bytes) (a b : Args) (i : ℕ)
    → parse_arg arg a ≡ some b
    → length arg ≤ i
    → i < 255
    → get_elem? b.buff i ≡ some 0
parse_arg-pads arg a b i h p q = elim (parse_arg-buff arg a b h) [
  | inl e ↦ rw e (strncpy-pads 255 arg a.buff i p q)
  | inr (j, less, e) ↦
      let apart : j ≢ i = λ z. omega arith in
      rw (e, get_elem?-set_ne (strncpy 255 arg a.buff) 0 apart) (strncpy-pads 255 arg a.buff i p q)
]

parse_args-last :
    (argv : List Bytes) (arg : Bytes) (a b : Args)
    → parse_args (argv ++ (arg ∷ [])) a ≡ some b
    → (c : Args) × (parse_arg arg c ≡ some b)
unfolding parse_args
parse_args-last [] arg a b h = (a, ground (arith, h))
parse_args-last (x ∷ argv) arg a b h = elim (Option-cases (parse_arg x a)) [
  | inl e ↦ absurd (ground (arith, h, e))
  | inr (c, e) ↦ parse_args-last argv arg c b (ground (arith, h, e))
]

-- After arguments that are parsed without undefined behaviour, the path of the program is read as it
-- is, if the last argument is not longer than that path and the path has fewer than 255 bytes.
pub parse_args-readlink :
    (argv : List Bytes) (arg exe : Bytes) (b : Args)
    → parse_args (argv ++ (arg ∷ [])) no_args ≡ some b
    → IsText exe
    → length arg ≤ length exe
    → length exe < 255
    → c_str (readlink exe b.buff) ≡ some exe
parse_args-readlink argv arg exe b h text p q =
    let (c, e) = parse_args-last argv arg no_args b h in
    (readlink-c_str exe b.buff text (omega arith)).1 (parse_arg-pads arg c b (length exe) e p q)
