-- ===== src/Examples/Library.antt =====
-- The library under lib/src at concrete inputs.
use lingmo_authenticate.Common.{
  ℕ, zero, suc, ◌+◌, ◌*◌, ltb, ◌<◌, ◌≤◌, ◌≡◌, ◌≢◌, ◌↔◌, refl, pos, Bool, true, false, Option, none,
  some, List, [], ◌∷◌, Bytes, codes, get_elem?, int_sub, take, replicate, arith, ◌==◌,
  if◌then◌else◌,
}
use mathlib.Core.List.{map}
use mathlib.Core.Path.{subst}
use lingmo_authenticate.Pam.Codes.{Text}
use lingmo_authenticate.Encrypt.Aes.{
  Aes, IsCbc, done, aes_cbc_encrypt, aes_cbc_decrypt, aes_cbc_round_trip,
}
use lingmo_authenticate.Shm.{Shmn, World, no_err, writer, reader, shmn_write, recv_once, update_of}
use lingmo_authenticate.Shm.Server.Session.{connect_all, channel_session}
use lingmo_authenticate.Shm.Server.{shmn_create, listen_client, received}
use lingmo_authenticate.Shm.Server.Reply.{reader_write-listen_client}
use lingmo_authenticate.Auth.Limits.{
  Env, DaProxy, DaLimitInfo, with_text, limit_of, find_flag, is_valid_auth_flag, limit_json_deal,
  deal_from, da_get_limits, filled, get_limit_info_priv, da_get_auth_limit_info,
}
use lingmo_authenticate.Auth.Prompt.{da_get_fail_prompt}
use lingmo_authenticate.Auth.Deal.{
  Describes, StopsAt, limit_json_deal_complete, get_limit_info_priv-undefined,
}
use lingmo_authenticate.Auth.Texts.{da_get_fail_prompt-locked_password}

abbrev pub plain : Aes
plain = record {
  accepts = λ key. true;
  cbc_encrypt = λ key iv blocks. blocks;
  cbc_decrypt = λ key iv blocks. blocks;
}

pub plain-IsCbc : IsCbc plain
plain-IsCbc = record { keeps_length = λ key iv blocks n e. e; inverts = λ key iv blocks n e. refl }

abbrev pub secret : Bytes
secret = codes "secret"

abbrev pub key16 : Bytes
key16 = codes "1234567812345678"

aes_cbc_round_trip_example :
    (cipher : Bytes) × (aes_cbc_encrypt plain secret key16 ≡ some (done cipher))
    × (aes_cbc_decrypt plain cipher key16 ≡ some (done secret))
aes_cbc_round_trip_example = aes_cbc_round_trip plain secret key16 plain-IsCbc (omega arith) refl

abbrev channel : Shmn
channel = record {
  role = writer;
  enable_ex = false;
  self_fd = 3;
  cli_fd_list = 4 ∷ 5 ∷ [];
  send_data = some 0;
  rcvd_data = none;
  sender_size = pos 8;
  rcvder_size = pos 0;
  has_epoll_tev = false;
  listening = true;
  receiving = false;
}

abbrev fresh : World
fresh = record { bytes = λ m. replicate 8 0; writes = [] }

-- Objects of json-c as numbers: the arrays of the texts "1" and "2" hold one object, which has
-- every key in the first and none in the second.
abbrev pub service : Bool → Bool → Env
service whole still_locked = record {
  get_limits = λ k name. if k == 0 then with_text (codes "1") else with_text (codes "2");
  seconds_until = λ k t. some 90;
  tty = false;
  Json = Bool;
  parse = λ t. elim t [ [] ↦ false | c ∷ _ ↦ c == b'1' ];
  is_null = λ j. false;
  array_length = λ j. some 1;
  get_idx = λ j i. j;
  get_ex = λ j name. (whole, j);
  get_int = λ j. pos 1;
  get_boolean = λ j. if j then true else still_locked;
  get_string = λ j. some (codes "2024-01-01T00:00:00Z");
}

abbrev pub proxy : DaProxy
proxy = record { has_authenticate_proxy = true; username = some (codes "uos") }

abbrev pub limit : Bool → DaLimitInfo
limit locked = record {
  type = some (codes "2024-01-01T00:00:00Z");
  locked = locked;
  max_tries = pos 1;
  fail_num = pos 1;
  unlock_time = some (codes "2024-01-01T00:00:00Z");
  flag = pos 1;
  unlock_secs = pos 1;
}

-- An array of two objects: a node has the number of its object and the first letter of its key.
abbrev documents : Env
documents = record {
  get_limits = λ k name. with_text (codes "1");
  seconds_until = λ k t. some 90;
  tty = false;
  Json = ℕ;
  parse = λ t. 0;
  is_null = λ j. false;
  array_length = λ j. some 2;
  get_idx = λ j i. 1000 * (i + 1);
  get_ex = λ j name. (true, elim (codes name) [ [] ↦ j | c ∷ _ ↦ j + c ]);
  get_int = λ j. pos j;
  get_boolean = λ j. ltb 2000 j;
  get_string = λ j. some (j ∷ []);
}

-- The letters are those of type, locked, maxTries, numFailures, unlockTime, flag and unlockSecs.
abbrev described : ℕ → Bool → DaLimitInfo
described k locked = record {
  type = some ((k + b't') ∷ []);
  locked = locked;
  max_tries = pos (k + b'm');
  fail_num = pos (k + b'n');
  unlock_time = some ((k + b'u') ∷ []);
  flag = pos (k + b'f');
  unlock_secs = pos (k + b'u');
}

described_limits :
    (j : ℕ) (l : DaLimitInfo)
    → get_elem? (described 1000 false ∷ described 2000 true ∷ []) j ≡ some l
    → Describes documents 0 (1000 * (j + 1)) l
described_limits zero l e =
    subst (λ (x : DaLimitInfo). Describes documents 0 1000 x) (ground (arith, e))
      (record {
        solid = refl;
        type = (1000 + b't', (1000 + b't') ∷ [], refl, refl, refl);
        flag = (1000 + b'f', refl, refl);
        unlock_secs = (1000 + b'u', refl, refl);
        max_tries = (1000 + b'm', refl, refl);
        num_failures = (1000 + b'n', refl, refl);
        locked = (1000 + b'l', refl, refl);
        unlock_time = (1000 + b'u', (1000 + b'u') ∷ [], refl, refl, refl);
      })
described_limits (suc zero) l e =
    subst (λ (x : DaLimitInfo). Describes documents 0 2000 x) (ground (arith, e))
      (record {
        solid = refl;
        type = (2000 + b't', (2000 + b't') ∷ [], refl, refl, refl);
        flag = (2000 + b'f', refl, refl);
        unlock_secs = (2000 + b'u', refl, refl);
        max_tries = (2000 + b'm', refl, refl);
        num_failures = (2000 + b'n', refl, refl);
        locked = (2000 + b'l', refl, refl);
        unlock_time = (2000 + b'u', (2000 + b'u') ∷ [], refl, refl, refl);
      })
described_limits (suc (suc j)) l e = absurd (ground (arith, e))

limit_json_deal_complete_example :
    limit_json_deal documents (codes "1")
    ≡ some (false, map some (described 1000 false ∷ described 2000 true ∷ []))
limit_json_deal_complete_example =
    limit_json_deal_complete documents (codes "1") (described 1000 false ∷ described 2000 true ∷ [])
      refl described_limits

stops_one : StopsAt (service false false) true 1 0 (pos 1)
unfolding StopsAt limit_of
stops_one = (0, omega arith, omega arith, λ j p q. absurd (omega arith), refl, refl)

password_is_valid : is_valid_auth_flag (pos 1) ≡ true
unfolding is_valid_auth_flag
password_is_valid = refl

get_limit_info_priv-undefined_example :
    (dli : List (Option DaLimitInfo)) × (da_get_limits
        (service false false)
        proxy
        (some (codes "uos"))
        0
      ≡ some (filled true dli, 1))
    × (get_limit_info_priv (service false false) proxy (some (codes "uos")) (pos 1) 0 ≡ none)
get_limit_info_priv-undefined_example =
    get_limit_info_priv-undefined (service false false) proxy (codes "uos") (codes "1") (pos 1) 1 0
      refl refl refl stops_one password_is_valid

one_less_one : int_sub (pos 1) (pos 1) ≡ some (pos 0)
unfolding int_sub
one_less_one = refl

answers :
    (get_limit_info_priv (service true false) proxy proxy.username (pos 1) 0
      ≡ some (some (limit true), 1))
    × (get_limit_info_priv (service true false) proxy proxy.username (pos 1) 1
        ≡ some (some (limit false), 2))
unfolding get_limit_info_priv da_get_limits limit_json_deal deal_from limit_of
    da_get_auth_limit_info is_valid_auth_flag find_flag
answers = (refl, refl)

da_get_fail_prompt-locked_password_example :
    (out : Option Text) × (da_get_fail_prompt (service true false) (some proxy) (pos 1) true 0
      ≡ some (out, 2))
    × ((out ≡ none) ↔ (false ≡ false))
da_get_fail_prompt-locked_password_example =
    da_get_fail_prompt-locked_password (service true false) proxy (limit true) (limit false)
      (codes "2024-01-01T00:00:00Z") (pos 0) 0 1 2 answers.0 refl refl one_less_one answers.1 refl

abbrev back : Shmn
back = record channel {
  role = reader;
  enable_ex = true;
  cli_fd_list = [];
  rcvd_data = some 0;
  send_data = some 1;
  listening = false;
}

abbrev enabled : Shmn
enabled = record channel { enable_ex = true; rcvd_data = some 1 }

reader_write-listen_client_example :
    (w' : World) × (str : Bytes) × (shmn_write [] (some back) secret (pos 6) none fresh
      ≡ some (no_err, w'))
    × (take 6 (w'.bytes 1) ≡ secret)
    × (w'.writes ≡ (3, str) ∷ [])
    × (6 < 1000
        → listen_client (replicate 4 0) (received (take 4 str)) enabled
          ≡ some (enabled, some (update_of (some 1) (pos 6))))
    × (1000 ≤ 6 → listen_client (replicate 4 0) (received (take 4 str)) enabled ≡ none)
reader_write-listen_client_example =
    reader_write-listen_client [] (replicate 4 0) secret back enabled fresh 1 6 refl refl refl refl
      refl (omega arith) (omega arith) refl refl

channel_session_example :
    (s t : Shmn) × (w' : World) × (str : Bytes) × (shmn_create writer
        (some 0)
        (pos 8)
        (record { socket = some 3; connects = true; creates_thread = true })
      ≡ (some s, []))
    × (connect_all (replicate 4 0) (4 ∷ 5 ∷ []) s ≡ some t)
    × (shmn_write [] (some t) secret (pos 6) none fresh ≡ some (no_err, w'))
    × (take 6 (w'.bytes 0) ≡ secret)
    × ((q : ℕ) → q ≢ 0 → w'.bytes q ≡ fresh.bytes q)
    × (w'.writes ≡ (5, str) ∷ (4, str) ∷ [])
    × ((r : Shmn) (k : ℕ) → recv_once r (pos (suc k)) str ≡ update_of r.rcvd_data (pos 6))
channel_session_example =
    channel_session [] (replicate 4 0) secret fresh 0 8 6 3
      (record { socket = some 3; connects = true; creates_thread = true }) (4 ∷ 5 ∷ []) refl refl
      refl (omega arith) (omega arith) (omega arith)
