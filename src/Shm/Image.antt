-- ===== src/Shm/Image.antt =====
-- lib/src/shm-comm/shmn_image.c: images with a header over the channel.
pub mod Session
use lingmo_authenticate.Common.{
  ℕ, zero, suc, ◌+◌, ◌-◌, ◌≤◌, ◌<◌, ◌^◌, ◌≡◌, refl, ap, ◌∙◌, pos, to_int, ltb_ℤ, ◌++◌, Bytes, false,
  Option, none, some, [], ◌∷◌, leb, if◌then◌else◌, length, memcpy, memcpy_lem, take, arith,
}
use lingmo_authenticate.Common.Decimal.{decimal, atoi-decimal}
use lingmo_authenticate.Shm.{
  Shmn, World, ShmnErr, no_err, empty_object, writer, send_all, fill, update, shmn_write, recv_once,
  update_of,
}
use lingmo_authenticate.Shm.Deliver.{len_str_lem, take-all}

-- `memcpy (dst + k, src, …)`; an address past the end is undefined.
unfoldable pub memcpy_at : ℕ → Bytes → Bytes → Option Bytes
memcpy_at zero src dst = memcpy src dst
memcpy_at (suc k) src [] = none
memcpy_at (suc k) src (x ∷ dst) = elim (memcpy_at k src dst) [
  | none ↦ none
  | some out ↦ some (x ∷ out)
]

abbrev pub drop : ℕ → Bytes → Bytes
drop zero xs = xs
drop (suc k) [] = []
drop (suc k) (x ∷ xs) = drop k xs

-- `image_data_write_cb`: the header's bytes, then the image's, of `data_size` bytes in all.
unfoldable pub image_data_write_cb : Bytes → Bytes → Bytes → ℕ → Option Bytes
image_data_write_cb ii image dst data_size = elim (memcpy ii dst) [
  | none ↦ none
  | some out ↦
      let n = data_size - length ii in
      if leb n (length image) then memcpy_at (length ii) (take n image) out else none
]

-- `shmn_image_write` for a size from 0 on; the sum is converted to int, and `none` in place of a pointer is the null pointer.
unfoldable pub shmn_image_write :
    Bytes → Option Shmn → Option Bytes → ℕ → Option Bytes → World → Option (ShmnErr × World)
shmn_image_write stack none image size ii w = some (empty_object, w)
shmn_image_write stack (some s) image size none w = some (empty_object, w)
shmn_image_write stack (some s) none size (some ii) w = some (empty_object, w)
shmn_image_write stack (some s) (some image) size (some ii) w =
    shmn_write stack (some s) [] (to_int (size + length ii)) (some (image_data_write_cb ii image)) w

-- `struct image_obj`: the header, what stands behind it, and the size of the image.
pub record ImageObj : Type 0 where
  pub vi : Bytes
  pub image : Bytes
  pub data_size : ℕ

-- `image_data_read_cb`, where the header has `k` bytes and `size` is not less.
unfoldable pub image_data_read_cb : ℕ → Bytes → ℕ → ImageObj
image_data_read_cb k bytes size = record {
  vi = take k bytes;
  image = drop k bytes;
  data_size = size - k;
}

memcpy_at_lem :
    (k : ℕ) (src dst : Bytes)
    → k + length src ≤ length dst
    → (out : Bytes) × (memcpy_at k src dst ≡ some out)
      × (take k out ≡ take k dst)
      × (take (length src) (drop k out) ≡ src)
unfolding memcpy_at
memcpy_at_lem zero src dst h =
    let (out, e, n, t) = memcpy_lem src dst (omega arith) in (out, e, refl, t)
memcpy_at_lem (suc k) src [] h = absurd (omega arith)
memcpy_at_lem (suc k) src (x ∷ dst) h =
    let (out, e, p, t) = memcpy_at_lem k src dst (omega arith) in
    (x ∷ out, ground (arith, e), ap (λ l. x ∷ l) p, t)

to_int_small : (n : ℕ) → n < 2 ^ 31 → to_int n ≡ pos n
unfolding to_int
to_int_small n h = ground arith

-- The two copies side by side.
write_cb_lem :
    (ii image dst : Bytes) (n : ℕ)
    → n ≡ length image + length ii
    → n ≤ length dst
    → (out : Bytes) × (image_data_write_cb ii image dst n ≡ some out)
      × (take (length ii) out ≡ ii)
      × (take (length image) (drop (length ii) out) ≡ image)
unfolding image_data_write_cb
write_cb_lem ii image dst n e room =
    let (mid, c, len, head) = memcpy_lem ii dst (omega arith) in
    let (out, d, p, t) = memcpy_at_lem (length ii) image mid (omega arith) in
    let all : take (n - length ii) image ≡ image =
      ap (λ k. take k image) (omega arith) ∙ take-all image in
    (out, ground (arith, c, d, all), p ∙ head, t)

-- An image that the writer writes with its header, where the mapping and the declared size have room
-- for both and their size is below 10^9, is read back from the mapping: the same header, the size of
-- the image, and behind the header its bytes; and each client is sent a text from which the receiving
-- loop of any reader calls back with its own mapping and that size.
pub shmn_image_write-read :
    (stack image ii : Bytes) (s : Shmn) (w : World) (m size : ℕ)
    → s.role ≡ writer
    → s.send_data ≡ some m
    → ltb_ℤ s.sender_size (pos (size + length ii)) ≡ false
    → size ≡ length image
    → size + length ii ≤ length (w.bytes m)
    → size + length ii < 10 ^ 9
    → (w' : World) × (str : Bytes) × (shmn_image_write stack (some s) (some image) size (some ii) w
        ≡ some (no_err, w'))
      × (let io = image_data_read_cb (length ii) (w'.bytes m) (size + length ii) in
          (io.vi ≡ ii) × (io.data_size ≡ size) × (take io.data_size io.image ≡ image))
      × (w'.writes ≡ send_all s.cli_fd_list str w.writes)
      × ((r : Shmn) (k : ℕ)
          → recv_once r (pos (suc k)) str ≡ update_of r.rcvd_data (pos (size + length ii)))
unfolding shmn_image_write shmn_write fill image_data_read_cb recv_once
shmn_image_write-read stack image ii s w m size role send_data fits e room h =
    let (out, c, head, body) =
      write_cb_lem ii image (w.bytes m) (size + length ii) (omega arith) room in
    let (junk, str) = len_str_lem (size + length ii) stack h in
    let small = to_int_small (size + length ii) (omega arith) in
    let rest : size + length ii - length ii ≡ length image = omega arith in
    (
      record {
        bytes = update w.bytes m out;
        writes = send_all s.cli_fd_list (decimal (size + length ii) ++ (0 ∷ junk)) w.writes;
      },
      decimal (size + length ii) ++ (0 ∷ junk),
      ground (arith, small, c, str),
      (ground (arith, head), omega arith, ground (arith, rest, body)),
      refl,
      λ r k.
          ap (λ i. update_of r.rcvd_data i)
            (atoi-decimal (size + length ii) (0 ∷ junk) (omega arith)),
    )
