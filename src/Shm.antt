-- ===== src/Shm.antt =====
-- lib/src/shm-comm: a channel over shared memory, with sockets that announce each write.
pub mod Deliver
pub mod Image
pub mod Lock
pub mod Server
use lingmo_authenticate.Common.{
  ℕ, zero, suc, ◌+◌, ◌≤◌, ◌<◌, ◌≡◌, ℤ, pos, negsuc, ltb_ℤ, ◌++◌, Bytes, Bool, true, false, Option,
  none, some, List, [], ◌∷◌, ltb, leb, ◌==◌, ◌&&◌, if◌then◌else◌, length, memcpy, take,
}
use lingmo_authenticate.Common.Decimal.{decimal, atoi}

-- `SHMN_ROLE`
pub data Role : Type 0 where
  writer reader : Role

-- `SHMN_ERR`
pub data ShmnErr : Type 0 where
  no_err empty_object role_err data_size undefined data_exist : ShmnErr

-- `struct _shmn`; `send_data` and `rcvd_data` name mappings. The members that no modelled operation
-- reads are left out: the socket's path, `efd`, the mutex, the callback and the offset.
pub record Shmn : Type 0 where
  pub role : Role
  pub enable_ex : Bool
  pub self_fd : ℕ
  pub cli_fd_list : List ℕ
  pub send_data : Option ℕ
  pub rcvd_data : Option ℕ
  pub sender_size : ℤ
  pub rcvder_size : ℤ
  pub has_epoll_tev : Bool
  pub listening : Bool
  pub receiving : Bool

-- The bytes of each mapping, and what was written to sockets, the latest first.
pub record World : Type 0 where
  pub bytes : ℕ → Bytes
  pub writes : List (ℕ × Bytes)

abbrev is_some {ℓ} : {A : Type ℓ} → Option A → Bool
is_some none = false
is_some (some _) = true

-- `shmn_enable_role_ex`; `mapped` is what `create_shm_data` returns.
unfoldable pub shmn_enable_role_ex : Option ℕ → ℤ → Option Shmn → ShmnErr × Option Shmn
shmn_enable_role_ex mapped size none = (empty_object, none)
shmn_enable_role_ex mapped size (some s) = elim s.role [
  | writer ↦ if is_some s.rcvd_data then (data_exist, some s) else elim mapped [
    | none ↦ (empty_object, some s)
    | some m ↦
        (no_err, some (record s { rcvd_data = some m; rcvder_size = size; enable_ex = true }))
  ]
  | reader ↦ if is_some s.send_data then (data_exist, some s) else elim mapped [
    | none ↦ (empty_object, some s)
    | some m ↦
        (no_err, some (record s { send_data = some m; sender_size = size; enable_ex = true }))
  ]
]

-- `INT_TO_STRING_MAX_LEN`
abbrev pub int_to_string_max_len : ℕ
int_to_string_max_len = 10

-- `sprintf (len_str, "%d", len)`, and the bytes of the array: after the text and its end stand
-- those that were on the stack. A text that does not fit is undefined.
unfoldable pub len_str : ℕ → Bytes → Option Bytes
len_str len stack =
    if ltb (length (decimal len)) int_to_string_max_len
    then some (take int_to_string_max_len (decimal len ++ (0 ∷ stack)))
    else none

-- `g_list_foreach (…, server_send_data_foreach, …)`
unfoldable pub send_all : List ℕ → Bytes → List (ℕ × Bytes) → List (ℕ × Bytes)
send_all [] text sent = sent
send_all (fd ∷ fds) text sent = send_all fds text ((fd, text) ∷ sent)

abbrev pub update : (ℕ → Bytes) → ℕ → Bytes → ℕ → Bytes
update f p v q = if p == q then v else f q

-- What a write puts at the start of the mapping: what the callback makes of it, or a copy of the
-- first `len` bytes of the data; fewer bytes than that are undefined.
unfoldable pub fill : Option (Bytes → ℕ → Option Bytes) → Bytes → ℕ → Bytes → Option Bytes
fill (some cb) text len dst = cb dst len
fill none text len dst = if leb len (length text) then memcpy (take len text) dst else none

-- `shmn_write`. A negative length is undefined where it reaches `memcpy` or the callback.
unfoldable pub shmn_write :
    Bytes
    → Option Shmn
    → Bytes
    → ℤ
    → Option (Bytes → ℕ → Option Bytes)
    → World
    → Option (ShmnErr × World)
shmn_write stack none text len cb w = some (empty_object, w)
shmn_write stack (some s) text len cb w =
    if ltb_ℤ s.sender_size len then some (data_size, w) else elim s.role [
      | writer ↦ elim s.send_data [
        | none ↦ none
        | some m ↦ elim len [
          | negsuc _ ↦ none
          | pos n ↦ elim (fill cb text n (w.bytes m)) [
            | none ↦ none
            | some out ↦ elim (len_str n stack) [
              | none ↦ none
              | some str ↦ some (
                no_err,
                record {
                  bytes = update w.bytes m out;
                  writes = send_all s.cli_fd_list str w.writes;
                },
              )
            ]
          ]
        ]
      ]
      | reader ↦
          if s.enable_ex
          then elim s.send_data [
            | none ↦ none
            | some m ↦ elim len [
              | negsuc _ ↦ none
              | pos n ↦ elim (fill none text n (w.bytes m)) [
                | none ↦ none
                | some out ↦ elim (len_str n stack) [
                  | none ↦ none
                  | some str ↦ some (
                    no_err,
                    record { bytes = update w.bytes m out; writes = (s.self_fd, str) ∷ w.writes },
                  )
                ]
              ]
            ]
          ]
          else some (no_err, w)
    ]

-- What `recv_loop` calls back with, after a `read` that returned so many bytes into the buffer.
pub data Delivery : Type 0 where
  nothing : Delivery
  disconnected : Delivery
  update_of : Option ℕ → ℤ → Delivery

unfoldable pub recv_once : Shmn → ℤ → Bytes → Delivery
recv_once s (negsuc _) buff = nothing
recv_once s (pos zero) buff = disconnected
recv_once s (pos (suc n)) buff = update_of s.rcvd_data (atoi buff)

-- `LOCK_STATE_VAL` and `UNLOCK_STATE_VAL`
abbrev pub lock_state_val : ℕ
lock_state_val = 1

abbrev pub unlock_state_val : ℕ
unlock_state_val = 0

-- What the processes do to the shared `locker->n`: one round of the loop of `shmn_lock_channel`,
-- with what follows the loop if it ends, and `shmn_unlock_channel`.
pub data LockOp : Type 0 where
  lock_round : LockOp
  unlock : LockOp

-- `n`, and how many calls of `shmn_lock_channel` have returned.
pub record Locker : Type 0 where
  pub n : ℕ
  pub returned : ℕ

-- `do { } while (s->locker->n != LOCK_STATE_VAL); s->locker->n = LOCK_STATE_VAL;`
unfoldable pub shmn_lock_channel : Locker → Locker
shmn_lock_channel l =
    if l.n == lock_state_val then record { n = lock_state_val; returned = l.returned + 1 } else l

unfoldable pub shmn_unlock_channel : Locker → Locker
shmn_unlock_channel l = record l { n = unlock_state_val }

unfoldable pub lock_run : List LockOp → Locker → Locker
unfolding shmn_lock_channel shmn_unlock_channel
lock_run [] l = l
lock_run (lock_round ∷ ops) l = lock_run ops (shmn_lock_channel l)
lock_run (unlock ∷ ops) l = lock_run ops (shmn_unlock_channel l)

-- `shmn_free`: the mappings that it unmaps, in order, with their sizes.
abbrev unmap : Option ℕ → ℤ → List (ℕ × ℤ)
unmap none size = []
unmap (some m) size = (m, size) ∷ []

unfoldable pub shmn_free : Option Shmn → List (ℕ × ℤ)
shmn_free none = []
shmn_free (some s) =
    unmap s.send_data s.sender_size
    ++ (unmap s.send_data s.sender_size ++ unmap s.rcvd_data s.rcvder_size)
