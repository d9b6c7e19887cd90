-- ===== src/Examples/Images.antt =====
-- An image over the channel of lib/src/shm-comm.
use lingmo_authenticate.Common.{
  ◌≡◌, refl, ℕ, suc, pos, some, ◌∷◌, [], ◌++◌, codes, Bytes, replicate, take, arith, true, false,
}
use lingmo_authenticate.Shm.{Shmn, World, no_err, writer, reader, recv_once, update_of}
use lingmo_authenticate.Shm.Server.{Sockets}
use lingmo_authenticate.Shm.Server.Session.{connect_all, one_each}
use lingmo_authenticate.Shm.Image.{shmn_image_write, image_data_read_cb}
use lingmo_authenticate.Shm.Image.Session.{
  ShmnImage, shmn_image_create, shmn_image_read_loop, image_session,
}

abbrev sockets : Sockets
sockets = record { socket = some 3; connects = true; creates_thread = true }

abbrev zeros : World
zeros = record { bytes = λ m. replicate 32 0; writes = [] }

abbrev info : Bytes
info = replicate 24 1

image_session_example :
    (s t r : Shmn) × (w' : World) × (str : Bytes) × (shmn_image_create writer (some 0) 8 24 sockets
      ≡ (record { s = some s; has_io = false }, []))
    × (connect_all [] (4 ∷ 5 ∷ []) s ≡ some t)
    × ((ri : ShmnImage) × (shmn_image_create reader (some 0) 8 24 sockets ≡ (ri, []))
        × (shmn_image_read_loop true ri ≡ some (no_err, record { s = some r; has_io = true })))
    × (shmn_image_write [] (some t) (some (codes "pixels")) 6 (some info) zeros ≡ some (no_err, w'))
    × (w'.writes ≡ one_each (4 ∷ 5 ∷ []) str ++ [])
    × ((k : ℕ) → recv_once r (pos (suc k)) str ≡ update_of (some 0) (pos 30))
    × (let io = image_data_read_cb 24 (w'.bytes 0) 30 in
        (io.vi ≡ info) × (io.data_size ≡ 6) × (take io.data_size io.image ≡ codes "pixels"))
image_session_example =
    image_session [] [] (codes "pixels") info zeros 0 8 3 3 sockets sockets (4 ∷ 5 ∷ []) refl refl
      refl refl (omega arith) (omega arith) (omega arith)
