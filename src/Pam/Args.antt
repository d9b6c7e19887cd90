-- ===== src/Pam/Args.antt =====
-- The steps of `pam_sm_authenticate` (misc/pam-module/auth/pam.c) on its arguments, the path of the
-- program and the allow list. An array of characters is the list of all its bytes.
pub mod Program
use lingmo_authenticate.Common.{
  ℕ, zero, suc, ◌+◌, ◌-◌, ◌++◌, ◌||◌, ℤ, pos, fits_int, Bool, true, false, Option, none, some, List,
  [], ◌∷◌, Bytes, codes, bytes_eq, length, set, take, replicate, ltb, ◌==◌, if◌then◌else◌,
}
use lingmo_authenticate.Common.Decimal.{atoi}
use lingmo_authenticate.Pam.State.{max_buf_size}

-- The characters of an array up to the first 0; without one the reads leave the array.
unfoldable pub c_str : Bytes → Option Bytes
c_str [] = none
c_str (c ∷ cs) =
    let rest = c_str cs in
    if c == 0 then some [] else elim rest [ none ↦ none | some s ↦ some (c ∷ s) ]

abbrev pub drop : ℕ → Bytes → Bytes
drop zero xs = xs
drop (suc n) [] = []
drop (suc n) (x ∷ xs) = drop n xs

-- `strncpy (dst, src, n)` where `dst` has `n` bytes or more.
unfoldable pub strncpy : ℕ → Bytes → Bytes → Bytes
strncpy n src dst = take n src ++ (replicate (n - length src) 0 ++ drop n dst)

-- `strchr (s, c) - s`
unfoldable pub strchr : Bytes → ℕ → Option ℕ
strchr [] c = none
strchr (x ∷ s) c =
    let rest = strchr s c in
    if x == c then some 0 else elim rest [ none ↦ none | some i ↦ some (suc i) ]

-- The locals that the loop over the arguments sets.
pub record Args : Type 0 where
  pub buff : Bytes
  pub timeout : ℤ
  pub user_locale : Bytes
  pub debug : Bool

abbrev pub no_args : Args
no_args = record {
  buff = replicate max_buf_size 0;
  timeout = pos 60000;
  user_locale = replicate max_buf_size 0;
  debug = false;
}

-- After the value: whether the flag is `debug`.
unfoldable pub check_debug : Args → Option Args
check_debug a = elim (c_str a.buff) [
  | none ↦ none
  | some flag ↦ some (if bytes_eq flag (codes "debug") then record a { debug = true } else a)
]

-- The body of the loop. A write past `buff`, and a number that is no int, are undefined.
unfoldable pub parse_arg : Bytes → Args → Option Args
parse_arg arg a =
    let b = record a { buff = strncpy (max_buf_size - 1) arg a.buff } in
    elim (strchr arg b'=') [
      | none ↦ check_debug b
      | some splitch ↦
          if ltb splitch max_buf_size
          then (let c = record b { buff = set b.buff splitch 0 } in
              let value = drop (suc splitch) arg in
              elim (c_str c.buff) [
                | none ↦ none
                | some flag ↦
                    if bytes_eq flag (codes "timeout")
                    then (if fits_int (atoi value)
                        then some (record c { timeout = atoi value })
                        else none)
                    else if bytes_eq flag (codes "user_locale")
                    then some
                        (record c { user_locale = strncpy (max_buf_size - 1) value c.user_locale })
                    else check_debug c
              ])
          else none
    ]

unfoldable pub parse_args : List Bytes → Args → Option Args
parse_args [] a = some a
parse_args (arg ∷ argv) a = elim (parse_arg arg a) [ none ↦ none | some b ↦ parse_args argv b ]

-- `readlink ("/proc/self/exe", buff, MAX_BUF_SIZE)` of a link to `exe`: it writes no 0.
unfoldable pub readlink : Bytes → Bytes → Bytes
readlink exe buff = take max_buf_size exe ++ drop (length exe) buff

-- A line of the allow list without its newline.
unfoldable pub chomp : Bytes → Bytes
chomp [] = []
chomp (c ∷ []) = if c == 10 then [] else c ∷ []
chomp (c ∷ d ∷ cs) = c ∷ chomp (d ∷ cs)

unfoldable pub in_allow_list : List Bytes → Bytes → Bool
in_allow_list [] buff = false
in_allow_list (line ∷ lines) buff =
    let rest = in_allow_list lines buff in if bytes_eq (chomp line) buff then true else rest
