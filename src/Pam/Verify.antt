-- ===== src/Pam/Verify.antt =====
-- `resolve_verify_msg` of misc/pam-module/auth/utils.c: the JSON text of a Verify signal as a
-- message for the user.
use lingmo_authenticate.Common.{
  ℕ, ◌≡◌, ◌≢◌, ◌⊎◌, ◌↔◌, ◌<◌, refl, ap, ◌∙◌, ℤ, pos, negsuc, ==ℤ-eq, Bool-cases, minus_one, ◌==ℤ◌,
  Option, none, some, String, Bytes, ◌>>=◌, pure, access, if◌then◌else◌, arith, Option-cases, inl,
  inr,
}
use lingmo_authenticate.Pam.Codes.{at_fingerprint, Style, Text, tr}
use lingmo_authenticate.Pam.State.{Env, Pam, copy_into, max_buf_size}

abbrev Message : Type 0
Message = Option (Style × Text)

abbrev error : String → Message
error text = some (Style.error_msg, tr text)

-- `switch (subcode)` under `case 2`
unfoldable pub error_message : ℤ → Message
error_message subcode =
    if subcode ==ℤ pos 1
    then error "Verification error"
    else if subcode ==ℤ pos 2
    then error "Fingerprint verification unavailable, please input password"
    else none

-- `switch (subcode)` under `case 3`
unfoldable pub retry_message : ℤ → Message
retry_message subcode =
    if subcode ==ℤ pos 1
    then error "Clean your finger and try again"
    else if subcode ==ℤ pos 2
    then error "Finger not centered"
    else if subcode ==ℤ pos 3
    then error "Clean your finger and try again"
    else if subcode ==ℤ pos 4
    then error "Unclear fingerprint, please clean your finger and try again"
    else if subcode ==ℤ pos 5
    then error "Finger moved too fast, please do not lift until prompted"
    else none

retry_message-ne-none : (n : ℕ) → (retry_message (pos n) ≢ none) → (0 < n) × (n < 6)
unfolding retry_message
retry_message-ne-none n h = ground arith

retry_message_lem : (n : ℕ) → 0 < n → n < 6 → retry_message (pos n) ≢ none
unfolding retry_message
retry_message_lem n p q h = ground arith

retry_message-negsuc : (n : ℕ) → retry_message (negsuc n) ≡ none
unfolding retry_message
retry_message-negsuc n = refl

-- The texts of a retry are those of the subcodes from 1 to 5.
retry_message-IsSome :
    (c : ℤ) → (retry_message c ≢ none) ↔ ((n : ℕ) × (c ≡ pos n) × (0 < n) × (n < 6))
retry_message-IsSome (pos n) = (
  λ h. let (p, q) = retry_message-ne-none n h in (n, refl, p, q),
  λ w. rw w.1 (retry_message_lem w.0 w.2 w.3),
)
retry_message-IsSome (negsuc n) =
    (λ h. absurd (h (retry_message-negsuc n)), λ w. absurd (ground arith))

module _ (env : Env) where
  -- `subcode` of a retry, where the text parses.
  unfoldable pub retry_subcode : Bytes → Option ℤ
  retry_subcode subdata = elim (env.parse subdata) [
    | none ↦ none
    | some json ↦ some (env.get_int (env.get_ex json "subcode").1)
  ]

  -- `switch (code)`: under `case 2`, `subcode` still is the -1 that it was set to.
  unfoldable pub fingerprint_message : ℤ → Bytes → Message
  unfolding error_message
  fingerprint_message code subdata =
      if code ==ℤ pos 2
      then error_message minus_one
      else if code ==ℤ pos 3
      then elim (retry_subcode subdata) [ none ↦ none | some subcode ↦ retry_message subcode ]
      else if code ==ℤ pos 5
      then some (Style.text_info, tr "Password")
      else none

  -- The message, if the return value is not 0. A null text is undefined, as is one past the array.
  unfoldable pub resolve_verify_msg : Bytes → Pam (Option (Style × Text))
  unfolding fingerprint_message copy_into
  resolve_verify_msg verify_msg = elim (env.parse verify_msg) [
    | none ↦ pure none
    | some json ↦ do
      let flag = env.get_int (env.get_ex json "flag").1
      let code = env.get_int (env.get_ex json "code").1
      text ← access (env.get_string (env.get_ex json "msg").1)
      subdata ← copy_into max_buf_size text
      pure (if flag ==ℤ at_fingerprint then fingerprint_message code subdata else none)
  ]

  abbrev pub IsRetry : Bytes → Type 0
  IsRetry subdata = (n : ℕ) × (retry_subcode subdata ≡ some (pos n)) × (0 < n) × (n < 6)

  subcode_case : (subdata : Bytes) → (fingerprint_message (pos 3) subdata ≢ none) ↔ IsRetry subdata
  unfolding fingerprint_message
  subcode_case subdata = elim (Option-cases (retry_subcode subdata)) [
    | inl e ↦ (λ h. absurd (h (rw e)), λ w. absurd (ground arith))
    | inr (c, e) ↦ (
      λ h. let w = (retry_message-IsSome c).0 (λ g. h (rw e g)) in (w.0, e ∙ ap some w.1, w.2, w.3),
      λ w g. (retry_message-IsSome c).1 (w.0, ground arith, w.2, w.3) (rw e at g),
    )
  ]

  -- A message is shown exactly for a retry (code 3) with a subcode from 1 to 5 and for a device
  -- that others took (code 5); for an error (code 2) there is none, whatever its subcode.
  pub fingerprint_message-IsSome :
      (code : ℤ) (subdata : Bytes)
      → (fingerprint_message code subdata ≢ none)
        ↔ ((code ≡ pos 5) ⊎ ((code ≡ pos 3) × IsRetry subdata))
  unfolding fingerprint_message
  fingerprint_message-IsSome code subdata = elim (Bool-cases (code ==ℤ pos 3)) [
    | inl e ↦
        let three = ==ℤ-eq code (pos 3) e in
        rw three (
          λ h. inr (refl, (subcode_case subdata).0 h),
          λ w. elim w [
            | inl five ↦ absurd (ground arith)
            | inr (_, r) ↦ (subcode_case subdata).1 r
          ],
        )
    | inr e ↦ (
      λ h. inl (ground arith),
      λ w. elim w [ inl five ↦ λ g. ground arith | inr (three, _) ↦ absurd (ground arith) ],
    )
  ]
