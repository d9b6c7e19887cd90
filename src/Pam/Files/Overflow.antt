-- ===== src/Pam/Files/Overflow.antt =====
-- The buffers for the lines of the locale, and the language in them.
use lingmo_authenticate.Common.{
  ℕ, ◌+◌, ◌<◌, ◌≤◌, ◌≡◌, ◌≢◌, ◌↔◌, ◌⊎◌, inl, inr, refl, ap, ◌∙◌, ◌++◌, Option, none, some, List, [],
  ◌∷◌, Bytes, codes, bytes_eq, length, leb, ◌==◌, arith, Option-cases, Bool-cases, if◌then◌else◌,
}
use mathlib.Core.Path.{subst}
use lingmo_authenticate.Auth.Prompt.{str_trim}
use lingmo_authenticate.Pam.Files.{
  split_at, without_newline, assignment, assignments, load_user_locale, da_load_user_locale, Lang,
  lang, missing, find_lang,
}

-- Some text has `capacity` bytes or more.
abbrev pub HasLong : ℕ → List Bytes → Type 0
HasLong capacity [] = ⊥
HasLong capacity (text ∷ texts) = (capacity ≤ length text) ⊎ HasLong capacity texts

assignments-none :
    (capacity : ℕ) (texts : List Bytes)
    → (assignments capacity texts ≡ none) ↔ HasLong capacity texts
unfolding assignments
assignments-none capacity [] = (λ h. ground arith, λ h. elim h [ ])
assignments-none capacity (text ∷ texts) =
    let ih = assignments-none capacity texts in
    elim (Bool-cases (leb capacity (length text))) [
      | inl long ↦ (λ h. inl (ground (arith, long)), λ h. ground (arith, long))
      | inr fits ↦ (
        λ h. inr (ih.0 (ground (arith, h, fits))),
        λ h. elim h [
          | inl long ↦ absurd (ground (arith, fits, long))
          | inr later ↦ let e = ih.1 later in ground (arith, fits, e)
        ],
      )
    ]

-- `load_user_locale` writes past its buffer exactly when a text that `fgets` reads has as many bytes
-- as the path of the file with its end or more, since the buffer is as long as that path.
pub load_user_locale-none :
    (home locale_path : Bytes) (lines : Bytes → Option (List Bytes)) (texts : List Bytes)
    → length home + length locale_path + 2 ≤ 4096
    → lines (home ++ (b'/' ∷ locale_path)) ≡ some texts
    → (load_user_locale (some home) locale_path lines ≡ none)
      ↔ HasLong (length home + length locale_path + 2) texts
unfolding load_user_locale
load_user_locale-none home locale_path lines texts h e =
    let iff = assignments-none (length home + length locale_path + 2) texts in
    ground (arith, e, iff, h)

-- `da_load_user_locale`, whose texts `fgets` cuts to 511 bytes, writes past its buffer exactly when
-- the path of the file and its end have more than 512 bytes, but not more than PATH_MAX.
pub da_load_user_locale-none :
    (home : Bytes) (lines : Bytes → Option (List Bytes))
    → ((path : Bytes) (texts : List Bytes) → lines path ≡ some texts → ¬ HasLong 512 texts)
    → (da_load_user_locale (some home) lines ≡ none)
      ↔ ((512 < length home + 21) × (length home + 21 ≤ 4096))
unfolding da_load_user_locale
da_load_user_locale-none home lines short =
    elim (Option-cases (lines (home ++ (b'/' ∷ codes ".config/locale.conf")))) [
      | inl e ↦ (λ h. ground (arith, e, h), λ h. ground (arith, e, h))
      | inr (texts, e) ↦
          let iff = assignments-none 512 texts in
          let no = short _ texts e in
          (λ h. ground (arith, e, h, iff, no), λ h. ground (arith, e, h))
    ]

-- No byte is a space.
abbrev pub NoSpace : Bytes → Type 0
NoSpace [] = Unit
NoSpace (c ∷ cs) = (c ≢ b' ') × NoSpace cs

abbrev pub NoSpaces : List Bytes → Type 0
NoSpaces [] = Unit
NoSpaces (text ∷ texts) = NoSpace text × NoSpaces texts

-- The first value of LANG among the assignments.
abbrev pub lookup_lang : List (Bytes × Bytes) → Lang
lookup_lang [] = missing
lookup_lang ((name, value) ∷ pairs) =
    let rest = lookup_lang pairs in if bytes_eq name (codes "LANG") then lang value else rest

trim-id : (s : Bytes) → NoSpace s → str_trim s b' ' ≡ s
unfolding str_trim
trim-id [] h = refl
trim-id (c ∷ s) h = let ih = trim-id s h.1 in ground (arith, ih, h.0)

split-NoSpace : (c : ℕ) (s b a : Bytes) → NoSpace s → split_at c s ≡ some (b, a) → NoSpace b
unfolding split_at
split-NoSpace c [] b a h e = ground arith
split-NoSpace c (x ∷ s) b a h e = elim (Bool-cases (x == c)) [
  | inl here ↦ let empty : [] ≡ b = ground (arith, e, here) in subst NoSpace empty tt
  | inr on ↦ elim (Option-cases (split_at c s)) [
    | inl z ↦ absurd (ground (arith, e, on, z))
    | inr ((b', a'), z) ↦
        let longer : x ∷ b' ≡ b = ground (arith, e, on, z) in
        subst NoSpace longer (h.0, split-NoSpace c s b' a' h.1 z)
  ]
]

newline-NoSpace : (s : Bytes) → NoSpace s → NoSpace (without_newline s)
unfolding without_newline
newline-NoSpace s h = elim (Option-cases (split_at 10 s)) [
  | inl e ↦ let same : s ≡ without_newline s = ground (arith, e) in subst NoSpace same h
  | inr ((b, a), e) ↦
      let same : b ≡ without_newline s = ground (arith, e) in
      subst NoSpace same (split-NoSpace 10 s b a h e)
]

find_lang-cons :
    (text : Bytes) (texts : List Bytes)
    → NoSpace text
    → (assignment text ≡ none → find_lang (text ∷ texts) ≡ find_lang texts)
      × ((name value : Bytes)
          → assignment text ≡ some (name, value)
          → find_lang (text ∷ texts)
            ≡ (if bytes_eq name (codes "LANG") then lang value else find_lang texts))
unfolding find_lang assignment
find_lang-cons text texts h =
    let same = trim-id (without_newline text) (newline-NoSpace text h) in
    (λ e. ground (arith, same, e), λ name value e. ground (arith, same, e))

find_lang_nil : find_lang [] ≡ missing
unfolding find_lang
find_lang_nil = refl

-- Of texts without spaces that fit, `da_get_user_lang` finds the language that the assignments of
-- `da_load_user_locale` name first.
pub find_lang-assignments :
    (capacity : ℕ) (texts : List Bytes) (pairs : List (Bytes × Bytes))
    → NoSpaces texts
    → assignments capacity texts ≡ some pairs
    → find_lang texts ≡ lookup_lang pairs
unfolding assignments
find_lang-assignments capacity [] pairs n h =
    let same : [] ≡ pairs = ground (arith, h) in find_lang_nil ∙ ap lookup_lang same
find_lang-assignments capacity (text ∷ texts) pairs n h =
    let (skip, take_it) = find_lang-cons text texts n.0 in
    elim (Option-cases (assignments capacity texts)) [
      | inl e ↦ absurd (ground (arith, h, e))
      | inr (rest, e) ↦
          let ih = find_lang-assignments capacity texts rest n.1 e in
          elim (Option-cases (assignment text)) [
            | inl z ↦
                let same : rest ≡ pairs = ground (arith, h, e, z) in
                skip z ∙ ih ∙ ap lookup_lang same
            | inr ((name, value), z) ↦
                let same : (name, value) ∷ rest ≡ pairs = ground (arith, h, e, z) in
                take_it name value z
                ∙ ap (λ r. if bytes_eq name (codes "LANG") then lang value else r) ih
                ∙ ap lookup_lang same
          ]
    ]
