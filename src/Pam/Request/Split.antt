-- ===== src/Pam/Request/Split.antt =====
-- `split_data` of misc/pam-module/auth/pam.c.
use lingmo_authenticate.Common.{◌≡◌, ◌≢◌, refl, Option, none, some, [], ◌∷◌, ◌++◌, Bytes, arith}
use lingmo_authenticate.Pam.Request.{split_data}

-- No byte is a semicolon.
abbrev pub IsPath : Bytes → Type 0
IsPath [] = Unit
IsPath (c ∷ cs) = (c ≢ b';') × IsPath cs

-- The token that is left after the semicolon: none for an empty text.
abbrev pub token : Bytes → Option Bytes
token [] = none
token (x ∷ xs) = some (x ∷ xs)

-- A path without a semicolon, then a semicolon and any text are taken apart into that path and that
-- text, which may hold more semicolons and is no token if it is empty.
pub split_data_lem :
    (path tok : Bytes) → IsPath path → split_data (path ++ (b';' ∷ tok)) ≡ some (path, token tok)
unfolding split_data
split_data_lem [] [] h = refl
split_data_lem [] (x ∷ xs) h = refl
split_data_lem (c ∷ path) tok h =
    let rest = split_data_lem path tok h.1 in ground (arith, rest, h.0)
