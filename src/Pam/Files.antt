-- ===== src/Pam/Files.antt =====
-- The files that misc/pam-module/auth/utils.c and lib/src/auth/text.c read: the types of the programs,
-- and the locale of the user.
pub mod Overflow
use lingmo_authenticate.Common.{
  ℕ, zero, suc, ◌+◌, ◌++◌, ◌&&◌, Bool, true, false, not, Option, none, some, List, [], ◌∷◌, Bytes,
  codes, bytes_eq, length, take, ltb, leb, ◌==◌, if◌then◌else◌,
}
use lingmo_authenticate.Pam.State.{Env}
use lingmo_authenticate.Auth.Prompt.{str_trim}

module _ (env : Env) where
  open env use {Json, get_ex, get_string, array_length, get_idx}

  -- The loop over the array, with `n` rounds left: the type of the program, `none` without one. To
  -- compare or copy the null pointer is undefined.
  unfoldable pub find_app : Json → Bytes → ℕ → ℕ → Option (Option Bytes)
  find_app json_app_list app_path zero i = some none
  find_app json_app_list app_path (suc n) i =
      let rest = find_app json_app_list app_path n (i + 1) in
      let target = get_idx json_app_list i in
      let (has_app, json_app) = get_ex target "app" in
      let (has_type, json_type) = get_ex target "type" in
      if has_app && has_type
      then elim (get_string json_app) [
        | none ↦ none
        | some json_app_path ↦
            if bytes_eq json_app_path app_path
            then elim (get_string json_type) [ none ↦ none | some app_type ↦ some (some app_type) ]
            else rest
      ]
      else rest

  -- `data` is what `read_file_data` returns.
  unfoldable pub load_app_type : Option Bytes → Bytes → Option (Option Bytes)
  load_app_type none app_path = some none
  load_app_type (some text) app_path = elim (env.parse text) [
    | none ↦ some none
    | some parsed_json ↦
        let (found, json_app_list) = get_ex parsed_json "app-type" in
        if not found
        then some none
        else find_app json_app_list app_path (array_length json_app_list) 0
  ]

-- `strchr` and the bytes before and after the character.
unfoldable pub split_at : ℕ → Bytes → Option (Bytes × Bytes)
split_at c [] = none
split_at c (x ∷ xs) =
    let rest = split_at c xs in
    if x == c
    then some ([], xs)
    else elim rest [ none ↦ none | some (before, after) ↦ some (x ∷ before, after) ]

-- What `setenv` is called with for one text of the file.
unfoldable pub without_newline : Bytes → Bytes
without_newline buff = elim (split_at 10 buff) [ none ↦ buff | some (before, after) ↦ before ]

unfoldable pub assignment : Bytes → Option (Bytes × Bytes)
assignment buff = elim (split_at b'=' (without_newline buff)) [
  | none ↦ none
  | some ([], value) ↦ none
  | some (c ∷ name, value) ↦ some (c ∷ name, value)
]

-- The loop over what `fgets` reads, each of fewer bytes than its size argument, into `capacity`
-- bytes with an end. A write past these is undefined.
unfoldable pub assignments : ℕ → List Bytes → Option (List (Bytes × Bytes))
assignments capacity [] = some []
assignments capacity (text ∷ texts) =
    let rest = assignments capacity texts in
    if leb capacity (length text) then none else elim rest [
      | none ↦ none
      | some pairs ↦ elim (assignment text) [ none ↦ some pairs | some pair ↦ some (pair ∷ pairs) ]
    ]

-- `PATH_MAX`
abbrev pub path_max : ℕ
path_max = 4096

-- `load_user_locale` of utils.c: `home` is the user's directory, if there is a user, and `lines` what
-- `fgets` reads of the file, if it is a regular file that can be opened. The buffer has the size of
-- the path.
unfoldable pub load_user_locale :
    Option Bytes → Bytes → (Bytes → Option (List Bytes)) → Option (List (Bytes × Bytes))
load_user_locale none locale_path lines = some []
load_user_locale (some home) locale_path lines =
    let path_len = length home + length locale_path + 2 in
    if ltb path_max path_len then some [] else elim (lines (home ++ (b'/' ∷ locale_path))) [
      | none ↦ some []
      | some texts ↦ assignments path_len texts
    ]

-- `MAX_BUFF_SIZE` of lib/src/auth
abbrev pub max_buff_size : ℕ
max_buff_size = 512

-- `da_load_user_locale` of text.c: the buffer has 512 bytes, which also the path must fit.
unfoldable pub da_load_user_locale :
    Option Bytes → (Bytes → Option (List Bytes)) → Option (List (Bytes × Bytes))
da_load_user_locale none lines = some []
da_load_user_locale (some home) lines =
    let locale_path = codes ".config/locale.conf" in
    let path_len = length home + length locale_path + 2 in
    if ltb path_max path_len
    then some []
    else if ltb max_buff_size path_len
    then none
    else elim (lines (home ++ (b'/' ∷ locale_path))) [
      | none ↦ some []
      | some texts ↦ assignments max_buff_size texts
    ]

-- What `da_get_user_lang` returns: -1, 0 with a language, or -2.
pub data Lang : Type 0 where
  unreadable : Lang
  lang : Bytes → Lang
  missing : Lang

-- Its loop over what `fgets` reads.
unfoldable pub find_lang : List Bytes → Lang
find_lang [] = missing
find_lang (text ∷ texts) =
    let rest = find_lang texts in
    elim (split_at b'=' (str_trim (without_newline text) b' ')) [
      | none ↦ rest
      | some ([], value) ↦ rest
      | some (c ∷ name, value) ↦ if bytes_eq (c ∷ name) (codes "LANG") then lang value else rest
    ]

-- `da_get_user_lang` of text.c; the path is cut to 511 bytes.
unfoldable pub da_get_user_lang : Option Bytes → (Bytes → Option (List Bytes)) → Lang
da_get_user_lang none lines = unreadable
da_get_user_lang (some home) lines =
    elim (lines (take 511 (home ++ codes "/.config/locale.conf"))) [
      | none ↦ unreadable
      | some texts ↦ find_lang texts
    ]
