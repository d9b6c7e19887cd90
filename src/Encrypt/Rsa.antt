-- ===== src/Encrypt/Rsa.antt =====
-- lib/src/encrypt/rsa.c: the symmetric key, and its encryption for the service.
use lingmo_authenticate.Common.{
  ℕ, ◌+◌, ◌%◌, ◌≤◌, ◌<◌, ◌≡◌, ◌^◌, ◌*◌, refl, ◌++◌, Bytes, Bool, Option, none, some, ltb,
  if◌then◌else◌, length, length-append, arith, codes, take, bytes_eq,
}
use lingmo_authenticate.Common.Decimal.{decimal, length-decimal_le, length-decimal_ge}

-- `rand_num`, from what `rand ()` returned.
unfoldable pub rand_num : ℕ → ℕ
rand_num rand = (10000000 + rand % 10000000) % 100000000

-- The key as `sprintf` writes it into 20 bytes; past these it is undefined.
unfoldable pub create_symmetric_key : ℕ → Option Bytes
unfolding rand_num
create_symmetric_key rand =
    let key = decimal (rand_num rand) ++ decimal (rand_num rand) in
    if ltb (length key) 20 then some key else none

-- `struct _pub_key`, and what libcrypto makes of a PEM text and of a key.
pub record Rsa : Type 1 where
  pub Key : Type 0
  pub pem_read_pubkey : Bytes → Option Key
  pub pem_read_public_key : Bytes → Option Key
  pub public_encrypt : Key → Bytes → Option Bytes

-- `strncmp (key, header, strlen (header)) == 0`
unfoldable pub has_header : Bytes → Bytes → Bool
unfolding bytes_eq
has_header header key = bytes_eq (take (length header) key) header

module _ (rsa : Rsa) where
  -- The key that is left in `pk->rsa`, where it was null; the return value is 0 in all cases, but
  -- for an allocation that fails.
  unfoldable pub gen_rsa_pubkey : Bytes → Option rsa.Key
  unfolding has_header
  gen_rsa_pubkey key =
      if has_header (codes "-----BEGIN PUBLIC KEY-----") key
      then rsa.pem_read_pubkey key
      else if has_header (codes "-----BEGIN RSA PUBLIC KEY-----") key
      then rsa.pem_read_public_key key
      else none

  -- `none` is the return value -1.
  unfoldable pub rsa_encrypt_data : Option rsa.Key → Bytes → Option Bytes
  rsa_encrypt_data none origin_data = none
  rsa_encrypt_data (some key) origin_data = rsa.public_encrypt key origin_data

rand_num_bounds : (rand : ℕ) → (10 ^ 7 ≤ rand_num rand) × (rand_num rand < 2 * 10 ^ 7)
unfolding rand_num
rand_num_bounds rand = omega arith

-- Whatever `rand` returns, the key fits its array and has 16 bytes, a length that AES accepts; but
-- its second half repeats the first, and that is one of ten million numbers.
pub create_symmetric_key_lem :
    (rand : ℕ)
    → (half : Bytes) × (create_symmetric_key rand ≡ some (half ++ half))
      × (length half ≡ 8)
      × ((n : ℕ) × (half ≡ decimal n) × (10 ^ 7 ≤ n) × (n < 2 * 10 ^ 7))
unfolding create_symmetric_key
create_symmetric_key_lem rand =
    let (low, high) = rand_num_bounds rand in
    let n = rand_num rand in
    let len : length (decimal n) ≡ 8 =
      omega (arith, length-decimal_ge 7 n low, length-decimal_le 7 n (omega arith)) in
    let twice = length-append (decimal n) (decimal n) in
    (decimal n, ground (arith, len, twice), len, (n, refl, low, high))
