-- ===== src/Shm/Server.antt =====
-- The creation of a channel in lib/src/shm-comm/shm_notifier.c, and the loops that its two ends run.
pub mod Reply
pub mod Session
use lingmo_authenticate.Common.{
  ℕ, zero, suc, ◌+◌, ℤ, pos, ◌++◌, ◌==◌, ◌&&◌, ◌||◌, leb, Bytes, Bool, true, false, not, Option,
  none, some, List, [], ◌∷◌, length, if◌then◌else◌,
}
use lingmo_authenticate.Common.Decimal.{atoi}
use lingmo_authenticate.Shm.{
  Role, writer, reader, Shmn, ShmnErr, no_err, undefined, Delivery, update_of, shmn_free,
}

-- What the system answers: the socket, whether the connection succeeds, and whether the thread is
-- created.
pub record Sockets : Type 0 where
  pub socket : Option ℕ
  pub connects : Bool
  pub creates_thread : Bool

-- Whether the return value is 0, and the object.
unfoldable pub create_tcp_server : Sockets → Shmn → Bool × Shmn
create_tcp_server sys s = elim sys.socket [
  | none ↦ (false, s)
  | some listenfd ↦ (
    sys.creates_thread,
    record s { has_epoll_tev = true; self_fd = listenfd; listening = sys.creates_thread },
  )
]

unfoldable pub connect_to_tcp_server : Sockets → Shmn → Bool × Shmn
connect_to_tcp_server sys s = elim sys.socket [
  | none ↦ (false, s)
  | some cli_fd ↦ if sys.connects then (true, record s { self_fd = cli_fd }) else (false, s)
]

-- `memset (s, 0, …)` and the role.
abbrev new_shmn : Role → Shmn
new_shmn role = record {
  role = role;
  enable_ex = false;
  self_fd = 0;
  cli_fd_list = [];
  send_data = none;
  rcvd_data = none;
  sender_size = pos 0;
  rcvder_size = pos 0;
  has_epoll_tev = false;
  listening = false;
  receiving = false;
}

-- The object, and what was unmapped; `mapped` is what `create_shm_data` returns, behind the lock.
unfoldable pub shmn_create : Role → Option ℕ → ℤ → Sockets → Option Shmn × List (ℕ × ℤ)
shmn_create role none size sys = (none, [])
shmn_create role (some mapping) size sys =
    let made : Bool × Shmn = elim role [
      | writer ↦
          create_tcp_server sys
            (record (new_shmn writer) { send_data = some mapping; sender_size = size })
      | reader ↦
          connect_to_tcp_server sys
            (record (new_shmn reader) { rcvd_data = some mapping; rcvder_size = size })
    ] in
    if made.0 then (some made.1, []) else (none, shmn_free (some made.1))

-- `shmn_read_loop`; the return value of the writer's is never set.
unfoldable pub shmn_read_loop : Bool → Shmn → Option (ShmnErr × Shmn)
shmn_read_loop creates_thread s = elim s.role [
  | writer ↦ none
  | reader ↦ some (
    if creates_thread then no_err else undefined,
    if creates_thread then record s { receiving = true } else s,
  )
]

-- What `epoll_wait` reports to the server: a new client, or a client's socket with what `read` then
-- returns: the end, an error, or up to four bytes.
pub data ServerEvent : Type 0 where
  connected : ℕ → ServerEvent
  closed : ℕ → ServerEvent
  read_error : ServerEvent
  received : Bytes → ServerEvent

-- `g_list_remove`
unfoldable pub list_remove : ℕ → List ℕ → List ℕ
list_remove fd [] = []
list_remove fd (x ∷ xs) = let rest = list_remove fd xs in if x == fd then xs else x ∷ rest

unfoldable pub all_digits : Bytes → Bool
all_digits [] = true
all_digits (c ∷ cs) = let rest = all_digits cs in leb b'0' c && leb c b'9' && rest

-- `atoi` of an array whose end need not be marked: digits up to its last byte, also after a sign,
-- lead past the array, which is undefined.
unfoldable pub atoi_of_array : Bytes → Option ℤ
atoi_of_array [] = none
atoi_of_array (c ∷ cs) =
    if (c == b'-' || c == b'+' || (leb b'0' c && leb c b'9')) && all_digits cs
    then none
    else some (atoi (c ∷ cs))

abbrev pub drop : ℕ → Bytes → Bytes
drop zero xs = xs
drop (suc n) [] = []
drop (suc n) (x ∷ xs) = drop n xs

-- The round of `listen_client` for one event; `stale` are the four bytes of `read_buffer` before.
unfoldable pub listen_client : Bytes → ServerEvent → Shmn → Option (Shmn × Option Delivery)
listen_client stale (connected connfd) s =
    some (record s { cli_fd_list = s.cli_fd_list ++ (connfd ∷ []) }, none)
listen_client stale (closed fd) s =
    some (record s { cli_fd_list = list_remove fd s.cli_fd_list }, none)
listen_client stale read_error s =
    if not s.enable_ex then some (s, none) else elim (atoi_of_array stale) [
      | none ↦ none
      | some len ↦ some (s, some (update_of s.rcvd_data len))
    ]
listen_client stale (received bytes) s =
    if not s.enable_ex
    then some (s, none)
    else elim (atoi_of_array (bytes ++ drop (length bytes) stale)) [
      | none ↦ none
      | some len ↦ some (s, some (update_of s.rcvd_data len))
    ]
