-- ===== src/Shm/Image/Session.antt =====
-- The objects of lib/src/shm-comm/shmn_image.c, from their creation to an image.
use lingmo_authenticate.Common.{
  ℕ, suc, ◌+◌, ◌≤◌, ◌<◌, ◌^◌, ◌≡◌, refl, ◌∙◌, ℤ, pos, ◌++◌, Bytes, Bool, true, false, Option, none,
  some, List, [], length, take, arith,
}
use lingmo_authenticate.Shm.{
  Role, writer, reader, Shmn, ShmnErr, World, no_err, recv_once, update_of, shmn_free,
}
use lingmo_authenticate.Shm.Server.{
  Sockets, create_tcp_server, connect_to_tcp_server, shmn_create, shmn_read_loop,
}
use lingmo_authenticate.Shm.Server.Session.{
  connect_all, connect_all-some, one_each, send_all_lem, declared,
}
use lingmo_authenticate.Shm.Image.{shmn_image_write, image_data_read_cb, shmn_image_write-read}

-- `struct _shmn_image`: the channel, which may be null, and whether it has an object for the images.
pub record ShmnImage : Type 0 where
  pub s : Option Shmn
  pub has_io : Bool

-- `shmn_image_create`, with what was unmapped; `k` is the size of the header, and `mapped` is what
-- `create_shm_data` returns.
unfoldable pub shmn_image_create : Role → Option ℕ → ℕ → ℕ → Sockets → ShmnImage × List (ℕ × ℤ)
shmn_image_create role mapped size k sys =
    let made = shmn_create role mapped (pos (size + k)) sys in
    (
      record { s = made.0; has_io = elim role as (λ r. Bool) [ writer ↦ false | reader ↦ true ] },
      made.1,
    )

-- `shmn_image_read_loop`: the channel is not compared with the null pointer.
unfoldable pub shmn_image_read_loop : Bool → ShmnImage → Option (ShmnErr × ShmnImage)
shmn_image_read_loop creates_thread svi = elim svi.s [
  | none ↦ none
  | some s ↦ elim (shmn_read_loop creates_thread s) [
    | none ↦ none
    | some (err, t) ↦ some (err, record svi { s = some t })
  ]
]

unfoldable pub shmn_image_free : ShmnImage → List (ℕ × ℤ)
shmn_image_free svi = shmn_free svi.s

-- Both ends over a mapping `m` with room for images of `size` bytes and their header: the writer makes
-- its object, any number of clients connect, a reader makes its own and starts its loop. When the writer
-- then writes an image of at most `size` bytes, each client is sent one text, upon which the reader's
-- loop calls back with `m`, and reads from it the header, the size and the bytes of the image. The
-- sockets and threads are created, and the image with its header has fewer than 10^9 bytes.
pub image_session :
    (stack stale image ii : Bytes) (w : World) (m size listenfd cli_fd : ℕ) (sys cli : Sockets)
    (fds : List ℕ)
    → sys.socket ≡ some listenfd
    → sys.creates_thread ≡ true
    → cli.socket ≡ some cli_fd
    → cli.connects ≡ true
    → length image ≤ size
    → size + length ii ≤ length (w.bytes m)
    → length image + length ii < 10 ^ 9
    → (s t r : Shmn) × (w' : World) × (str : Bytes) × (shmn_image_create writer
          (some m)
          size
          (length ii)
          sys
        ≡ (record { s = some s; has_io = false }, []))
      × (connect_all stale fds s ≡ some t)
      × ((ri : ShmnImage) × (shmn_image_create reader (some m) size (length ii) cli ≡ (ri, []))
          × (shmn_image_read_loop true ri ≡ some (no_err, record { s = some r; has_io = true })))
      × (shmn_image_write stack (some t) (some image) (length image) (some ii) w
          ≡ some (no_err, w'))
      × (w'.writes ≡ one_each fds str ++ w.writes)
      × ((k : ℕ)
          → recv_once r (pos (suc k)) str ≡ update_of (some m) (pos (length image + length ii)))
      × (let io = image_data_read_cb (length ii) (w'.bytes m) (length image + length ii) in
          (io.vi ≡ ii) × (io.data_size ≡ length image) × (take io.data_size io.image ≡ image))
unfolding shmn_image_create shmn_create create_tcp_server connect_to_tcp_server shmn_image_read_loop
    shmn_read_loop
image_session stack stale image ii w m size listenfd cli_fd sys cli fds socket thread sock connects
      fits room small =
    let s : Shmn = record {
      role = writer;
      enable_ex = false;
      self_fd = listenfd;
      cli_fd_list = [];
      send_data = some m;
      rcvd_data = none;
      sender_size = pos (size + length ii);
      rcvder_size = pos 0;
      has_epoll_tev = true;
      listening = true;
      receiving = false;
    } in
    let r : Shmn = record {
      role = reader;
      enable_ex = false;
      self_fd = cli_fd;
      cli_fd_list = [];
      send_data = none;
      rcvd_data = some m;
      sender_size = pos 0;
      rcvder_size = pos (size + length ii);
      has_epoll_tev = false;
      listening = false;
      receiving = false;
    } in
    let t = record s { cli_fd_list = fds } in
    let (w', str, wrote, read, sent, calls) =
      shmn_image_write-read stack image ii t w m (length image) refl refl
        (declared (size + length ii) (length image + length ii) (omega arith)) refl (omega arith)
        small in
    (
      s,
      t,
      record r { receiving = true },
      w',
      str,
      ground (arith, socket, thread),
      connect_all-some stale fds s,
      (record { s = some r; has_io = true }, ground (arith, sock, connects), refl),
      wrote,
      sent ∙ send_all_lem fds str w.writes,
      λ k. calls (record r { receiving = true }) k,
      read,
    )
