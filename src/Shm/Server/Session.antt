-- ===== src/Shm/Server/Session.antt =====
-- A channel of lib/src/shm-comm/shm_notifier.c from its creation to a write.
use lingmo_authenticate.Common.{
  ℕ, suc, ◌≤◌, ◌<◌, ◌^◌, ◌≡◌, ◌≢◌, refl, sym, ap, ◌∙◌, pos, ltb_ℤ, ◌++◌, Bytes, true, false, Option,
  none, some, List, [], ◌∷◌, length, take, arith,
}
use lingmo_authenticate.Shm.{
  writer, Shmn, World, no_err, send_all, shmn_write, recv_once, update_of,
}
use lingmo_authenticate.Shm.Deliver.{shmn_write_delivers}
use lingmo_authenticate.Shm.Server.{
  Sockets, create_tcp_server, shmn_create, listen_client, connected,
}

-- The rounds of `listen_client` for clients that connect one after the other.
unfoldable pub connect_all : Bytes → List ℕ → Shmn → Option Shmn
connect_all stale [] s = some s
connect_all stale (fd ∷ fds) s = elim (listen_client stale (connected fd) s) [
  | none ↦ none
  | some (t, called) ↦ connect_all stale fds t
]

append_assoc : (xs ys : List ℕ) (x : ℕ) → (xs ++ (x ∷ [])) ++ ys ≡ xs ++ (x ∷ ys)
append_assoc [] ys x = refl
append_assoc (z ∷ xs) ys x = ap (λ l. z ∷ l) (append_assoc xs ys x)

append_nil : (xs : List ℕ) → xs ++ [] ≡ xs
append_nil [] = refl
append_nil (x ∷ xs) = ap (λ l. x ∷ l) (append_nil xs)

pub connect_all-some :
    (stale : Bytes) (fds : List ℕ) (s : Shmn)
    → connect_all stale fds s ≡ some (record s { cli_fd_list = s.cli_fd_list ++ fds })
unfolding connect_all listen_client
connect_all-some stale [] s =
    ap (λ l. some (record s { cli_fd_list = l })) (sym (append_nil s.cli_fd_list))
connect_all-some stale (fd ∷ fds) s =
    connect_all-some stale fds (record s { cli_fd_list = s.cli_fd_list ++ (fd ∷ []) })
    ∙ ap (λ l. some (record s { cli_fd_list = l })) (append_assoc s.cli_fd_list fds fd)

-- One text to each client, the latest first.
abbrev pub one_each : List ℕ → Bytes → List (ℕ × Bytes)
one_each [] str = []
one_each (fd ∷ fds) str = one_each fds str ++ ((fd, str) ∷ [])

append_pair : (xs ys : List (ℕ × Bytes)) (x : ℕ × Bytes) → (xs ++ (x ∷ [])) ++ ys ≡ xs ++ (x ∷ ys)
append_pair [] ys x = refl
append_pair (z ∷ xs) ys x = ap (λ l. z ∷ l) (append_pair xs ys x)

pub send_all_lem :
    (fds : List ℕ) (str : Bytes) (sent : List (ℕ × Bytes))
    → send_all fds str sent ≡ one_each fds str ++ sent
unfolding send_all
send_all_lem [] str sent = refl
send_all_lem (fd ∷ fds) str sent =
    send_all_lem fds str ((fd, str) ∷ sent) ∙ sym (append_pair (one_each fds str) sent (fd, str))

pub declared : (size n : ℕ) → n ≤ size → ltb_ℤ (pos size) (pos n) ≡ false
declared size n h = ground (arith, h)

-- A writer creates its channel over a mapping of `size` bytes or more, any number of clients connect,
-- and a text of at most `size` bytes, fewer than 10^9, is written: it stands at the start of the
-- mapping, no other mapping has changed, and each client in turn is sent one text, from which the
-- receiving loop of any reader calls back with its own mapping and the length.
pub channel_session :
    (stack stale text : Bytes) (w : World) (m size n listenfd : ℕ) (sys : Sockets) (fds : List ℕ)
    → sys.socket ≡ some listenfd
    → sys.creates_thread ≡ true
    → n ≡ length text
    → n ≤ size
    → size ≤ length (w.bytes m)
    → n < 10 ^ 9
    → (s t : Shmn) × (w' : World) × (str : Bytes) × (shmn_create writer (some m) (pos size) sys
        ≡ (some s, []))
      × (connect_all stale fds s ≡ some t)
      × (shmn_write stack (some t) text (pos n) none w ≡ some (no_err, w'))
      × (take n (w'.bytes m) ≡ text)
      × ((q : ℕ) → q ≢ m → w'.bytes q ≡ w.bytes q)
      × (w'.writes ≡ one_each fds str ++ w.writes)
      × ((r : Shmn) (k : ℕ) → recv_once r (pos (suc k)) str ≡ update_of r.rcvd_data (pos n))
unfolding shmn_create create_tcp_server
channel_session stack stale text w m size n listenfd sys fds socket thread e fits room small =
    let s : Shmn = record {
      role = writer;
      enable_ex = false;
      self_fd = listenfd;
      cli_fd_list = [];
      send_data = some m;
      rcvd_data = none;
      sender_size = pos size;
      rcvder_size = pos 0;
      has_epoll_tev = true;
      listening = true;
      receiving = false;
    } in
    let t = record s { cli_fd_list = fds } in
    let (w', str, wrote, kept, others, sent, calls) =
      shmn_write_delivers stack text t w m n refl refl (declared size n fits) e (omega arith)
        small in
    (
      s,
      t,
      w',
      str,
      ground (arith, socket, thread),
      connect_all-some stale fds s,
      wrote,
      kept,
      others,
      sent ∙ send_all_lem fds str w.writes,
      calls,
    )
