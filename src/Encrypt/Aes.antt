-- ===== src/Encrypt/Aes.antt =====
-- lib/src/encrypt/aes.c: AES in CBC mode with the padding of PKCS 5.
use lingmo_authenticate.Common.{
  ℕ, zero, suc, ◌+◌, ◌-◌, ◌*◌, ◌/◌, ◌%◌, ◌^◌, ◌<◌, ◌≡◌, refl, ap, ◌∙◌, [], ◌∷◌, ◌++◌, Bytes, Bool,
  true, Option, none, some, ltb, leb, ◌==◌, if◌then◌else◌, length, length-append, length-replicate,
  take-append, memcpy, get_elem?, take, replicate, arith,
}

-- libcrypto: which keys it accepts, and CBC under a key and an initial vector.
pub record Aes : Type 0 where
  pub accepts : Bytes → Bool
  pub cbc_encrypt : Bytes → Bytes → Bytes → Bytes
  pub cbc_decrypt : Bytes → Bytes → Bytes → Bytes

-- What libcrypto documents of CBC on whole blocks: the length stays, and decryption inverts.
pub record IsCbc (aes : Aes) : Type 0 where
  pub keeps_length :
      (key iv blocks : Bytes) (n : ℕ)
      → length blocks ≡ 16 * n
      → length (aes.cbc_encrypt key iv blocks) ≡ 16 * n
  pub inverts :
      (key iv blocks : Bytes) (n : ℕ)
      → length blocks ≡ 16 * n
      → aes.cbc_decrypt key iv (aes.cbc_encrypt key iv blocks) ≡ blocks

-- `AES_BLOCK_SIZE`
abbrev pub block_size : ℕ
block_size = 16

abbrev pub zero_iv : Bytes
zero_iv = replicate block_size 0

-- -1, or 0 with the text that is handed over.
pub data AesResult : Type 0 where
  refused : AesResult
  done : Bytes → AesResult

-- The padded text. The product may not pass INT_MAX.
unfoldable pub padded : Bytes → Option Bytes
padded src =
    let block_count = length src / block_size + 1 in
    let padding = block_size - length src % block_size in
    if ltb (block_size * block_count) (2 ^ 31)
    then memcpy src (replicate (block_size * block_count) padding)
    else none

-- `*outLen` is the length of the text.
unfoldable pub aes_cbc_encrypt : Aes → Bytes → Bytes → Option AesResult
aes_cbc_encrypt aes src key = elim (padded src) [
  | none ↦ none
  | some blocks ↦
      some (if aes.accepts key then done (aes.cbc_encrypt key zero_iv blocks) else refused)
]

-- The last byte is read as a signed char: from 128 on the length grows past the array that is then
-- copied, and one above the length makes it negative; both are undefined.
unfoldable pub unpad : Bytes → Option Bytes
unpad tmp =
    let n = length tmp in
    if n == 0 then none else elim (get_elem? tmp (n - 1)) [
      | none ↦ none
      | some unpadding ↦
          if ltb unpadding 128
          then (if leb unpadding n then some (take (n - unpadding) tmp) else none)
          else none
    ]

unfoldable pub aes_cbc_decrypt : Aes → Bytes → Bytes → Option AesResult
aes_cbc_decrypt aes src key =
    if aes.accepts key
    then elim (unpad (aes.cbc_decrypt key zero_iv src)) [
      | none ↦ none
      | some orig_text ↦ some (done orig_text)
    ]
    else some refused

memcpy-fits :
    (src : Bytes) (n k b : ℕ)
    → n ≡ length src + k
    → memcpy src (replicate n b) ≡ some (src ++ replicate k b)
unfolding memcpy
memcpy-fits [] n k b e = ap (λ m. some (replicate m b)) (omega arith)
memcpy-fits (x ∷ src) zero k b e = absurd (omega arith)
memcpy-fits (x ∷ src) (suc n) k b e = ground (arith, memcpy-fits src n k b (omega arith))

abbrev pad_length : Bytes → ℕ
pad_length src = 16 - length src % 16

abbrev IsShort : Bytes → Type 0
IsShort src = length src + 16 < 2 ^ 31

padded_lem :
    (src : Bytes)
    → IsShort src
    → padded src ≡ some (src ++ replicate (pad_length src) (pad_length src))
unfolding padded
padded_lem src h = ground (
  arith,
  memcpy-fits src (16 * (length src / 16 + 1)) (pad_length src) (pad_length src) (omega arith),
)

abbrev blocks_of : Bytes → Bytes
blocks_of src = src ++ replicate (pad_length src) (pad_length src)

length-blocks : (src : Bytes) → length (blocks_of src) ≡ 16 * (length src / 16 + 1)
length-blocks src = omega (
  arith,
  length-append src (replicate (pad_length src) (pad_length src)),
  length-replicate (pad_length src) (pad_length src),
)

-- A text of less than 2^31 - 16 bytes is padded to the next multiple of 16 above its length, by
-- bytes that hold their number, and encrypted without undefined behaviour.
pub aes_cbc_encrypt_lem :
    (aes : Aes) (src key : Bytes)
    → IsCbc aes
    → length src + 16 < 2 ^ 31
    → aes.accepts key ≡ true
    → (cipher : Bytes) × (aes_cbc_encrypt aes src key ≡ some (done cipher))
      × (length cipher ≡ 16 * (length src / 16 + 1))
      × (length src < length cipher)
unfolding aes_cbc_encrypt
aes_cbc_encrypt_lem aes src key c h k =
    let blocks = length-blocks src in
    let len = c.keeps_length key zero_iv (blocks_of src) (length src / 16 + 1) blocks in
    (
      aes.cbc_encrypt key zero_iv (blocks_of src),
      ground (arith, padded_lem src h),
      len,
      omega arith,
    )

last-append_replicate :
    (src : Bytes) (k b : ℕ) → get_elem? (src ++ replicate (suc k) b) (length src + k) ≡ some b
last-append_replicate [] zero b = refl
last-append_replicate [] (suc k) b =
    let e : 0 + suc k ≡ suc (0 + k) = omega arith in
    ap (get_elem? (replicate (suc (suc k)) b)) e ∙ last-append_replicate [] k b
last-append_replicate (x ∷ src) k b =
    let e : suc (length src) + k ≡ suc (length src + k) = omega arith in
    ap (get_elem? (x ∷ (src ++ replicate (suc k) b))) e ∙ last-append_replicate src k b

unpad-padded :
    (src : Bytes) (k : ℕ) → suc k < 128 → unpad (src ++ replicate (suc k) (suc k)) ≡ some src
unfolding unpad
unpad-padded src k h =
    let text = src ++ replicate (suc k) (suc k) in
    let len : length text ≡ length src + suc k =
      omega (arith, length-append src (replicate (suc k) (suc k)), length-replicate k (suc k)) in
    let last : get_elem? text (length text - 1) ≡ some (suc k) =
      ap (get_elem? text) (omega arith) ∙ last-append_replicate src k (suc k) in
    let rest : take (length text - suc k) text ≡ src =
      ap (λ n. take n text) (omega arith) ∙ take-append src (replicate (suc k) (suc k)) in
    ground (arith, len, last, rest)

-- Decryption returns the text that was encrypted under the same key.
pub aes_cbc_round_trip :
    (aes : Aes) (src key : Bytes)
    → IsCbc aes
    → length src + 16 < 2 ^ 31
    → aes.accepts key ≡ true
    → (cipher : Bytes) × (aes_cbc_encrypt aes src key ≡ some (done cipher))
      × (aes_cbc_decrypt aes cipher key ≡ some (done src))
unfolding aes_cbc_encrypt aes_cbc_decrypt
aes_cbc_round_trip aes src key c h k =
    let n = length src / 16 + 1 in
    let inverse = c.inverts key zero_iv (blocks_of src) n (length-blocks src) in
    let size : suc (pad_length src - 1) ≡ pad_length src = omega arith in
    let plain : unpad (blocks_of src) ≡ some src =
      rw (← size) (unpad-padded src (pad_length src - 1) (omega arith)) in
    (
      aes.cbc_encrypt key zero_iv (blocks_of src),
      ground (arith, padded_lem src h),
      ground (arith, inverse, plain),
    )
