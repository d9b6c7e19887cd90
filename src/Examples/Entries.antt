-- ===== src/Examples/Entries.antt =====
-- The parts of `pam_sm_authenticate` (misc/pam-module/auth/pam.c) at concrete inputs.
use lingmo_authenticate.Common.{
  Bool, ◌≡◌, ◌↔◌, refl, pos, true, false, none, some, List, [], ◌∷◌, ◌++◌, Bytes, codes, replicate,
  arith, get_elem?, length, bit,
}
use lingmo_authenticate.Pam.State.{Env, Call, UserData, emit, copy_into}
use lingmo_authenticate.Pam.Types.{type_to_index, first_bit}
use lingmo_authenticate.Pam.Limits.{
  get_limits_info, store_limits, store_limit, limit_of_json, set_limit, dbus_method_get_limits,
}
use lingmo_authenticate.Pam.Args.{Args, no_args}
use lingmo_authenticate.Pam.Entry.{Host}
use lingmo_authenticate.Encrypt.Rsa.{has_header}
use lingmo_authenticate.Pam.Keys.{KeyReply, gen_rsa_pubkey, call_encrypt_key_cb}
use lingmo_authenticate.Pam.Keys.Exchange.{call_encrypt_key_cb_lem}
use lingmo_authenticate.Pam.Files.{
  load_user_locale, assignments, assignment, without_newline, split_at, find_lang,
}
use lingmo_authenticate.Pam.Files.Overflow.{
  HasLong, load_user_locale-none, NoSpaces, find_lang-assignments, lookup_lang,
}
use lingmo_authenticate.Examples.Session.{quiet_env, user}
use lingmo_authenticate.Encrypt.Aes.{done, aes_cbc_decrypt}
use lingmo_authenticate.Pam.Request.{dbus_method_set_token}
use lingmo_authenticate.Pam.Request.Exchange.{token_exchange_lem}
use lingmo_authenticate.Examples.Library.{plain-IsCbc, secret}
use lingmo_authenticate.Examples.Runs.{greeter}

-- Another program is allowed, this one is not.
abbrev stranger : Host
stranger = record greeter { allow_list = some (codes "/bin/x" ∷ []) }

abbrev debugging : Args
debugging = record no_args { buff = codes "debug" ++ replicate 251 0; debug = true }

abbrev locked_env : Env
locked_env = record quiet_env { get_int = λ j. pos 1; get_boolean = λ j. true }

locked_limits :
    (u : UserData) × (get_limits_info locked_env (record user { need_cancel = true })
      ≡ some (tt, u))
    × (get_elem? u.limits 0
        ≡ some (record {
          max_tries = pos 1;
          num_failures = pos 1;
          locked = true;
          unlock_time = codes "2024-01-01T00:00:00Z";
        }))
unfolding get_limits_info store_limits store_limit limit_of_json set_limit dbus_method_get_limits
    type_to_index first_bit bit emit copy_into
locked_limits = (_, refl, refl)

abbrev dead_env : Env
dead_env = record quiet_env { fails = λ cs. true }

abbrev keyed : UserData
keyed = record user {
  key = some (record { alg_type = pos 0; flags = none; pubkey = none; rsa = none });
}

abbrev public_key : Bytes
public_key = codes "-----BEGIN PUBLIC KEY-----"

abbrev key_reply : KeyReply
key_reply = record {
  error = false;
  is_return = true;
  alg_type = some (pos 0);
  flags = some (pos 1 ∷ []);
  pubkey = some public_key;
}

read_key : gen_rsa_pubkey dead_env none public_key ≡ some public_key
unfolding gen_rsa_pubkey has_header
read_key = refl

call_encrypt_key_cb_lem_example :
    (t : UserData) × (symmetric_key cipher : Bytes) × (call_encrypt_key_cb dead_env key_reply keyed
      ≡ some (false, t))
    × (t.symmetric_key ≡ some symmetric_key)
    × (length symmetric_key ≡ 16)
    × (dead_env.rsa_encrypt public_key symmetric_key ≡ some cipher)
    × (t.calls ≡ Call.set_symmetric_key keyed.path cipher ∷ keyed.calls)
call_encrypt_key_cb_lem_example =
    call_encrypt_key_cb_lem dead_env key_reply keyed _ (pos 0) (pos 1 ∷ []) public_key public_key
      refl refl refl refl refl refl read_key (λ plain e. (plain, refl))

abbrev locale_texts : List Bytes
locale_texts = (codes "A=b" ++ (10 ∷ [])) ∷ codes "LANG=c" ∷ []

load_user_locale-none_example :
    (load_user_locale (some (codes "/h")) (codes "l") (λ path. some locale_texts) ≡ none)
    ↔ HasLong 5 locale_texts
load_user_locale-none_example =
    load_user_locale-none (codes "/h") (codes "l") (λ path. some locale_texts) locale_texts
      (omega arith) refl

assigned :
    assignments 256 locale_texts ≡ some ((codes "A", codes "b") ∷ (codes "LANG", codes "c") ∷ [])
unfolding assignments assignment without_newline split_at
assigned = refl

locale_texts-NoSpaces : NoSpaces locale_texts
locale_texts-NoSpaces = (
  (λ e. omega arith, (λ e. omega arith, (λ e. omega arith, (λ e. omega arith, tt)))),
  (
    (
      λ e. omega arith,
      (
        λ e. omega arith,
        (λ e. omega arith, (λ e. omega arith, (λ e. omega arith, (λ e. omega arith, tt)))),
      ),
    ),
    tt,
  ),
)

find_lang-assignments_example :
    find_lang locale_texts ≡ lookup_lang ((codes "A", codes "b") ∷ (codes "LANG", codes "c") ∷ [])
find_lang-assignments_example =
    find_lang-assignments 256 locale_texts _ locale_texts-NoSpaces assigned

token_exchange_lem_example :
    (t u : UserData) × (k wrapped cipher : Bytes) × (sent : Bool) × (call_encrypt_key_cb dead_env
        key_reply keyed
      ≡ some (false, t))
    × (dbus_method_set_token dead_env (codes "/s") (pos 1) secret t ≡ some (sent, u))
    × (u.calls
        ≡ Call.set_token (codes "/s") (pos 1) cipher
          ∷ Call.set_symmetric_key keyed.path wrapped
          ∷ keyed.calls)
    × (dead_env.rsa_encrypt public_key k ≡ some wrapped)
    × (length k ≡ 16)
    × (aes_cbc_decrypt dead_env.aes cipher k ≡ some (done secret))
token_exchange_lem_example =
    token_exchange_lem dead_env key_reply keyed _ (pos 0) (pos 1) (pos 1 ∷ []) public_key public_key
      (codes "/s") secret refl refl refl refl refl refl read_key (λ plain e. (plain, refl))
      plain-IsCbc (λ k e. refl) (omega arith)
