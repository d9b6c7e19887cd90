-- ===== src/Shm/Deliver.antt =====
-- `shmn_write` and `recv_loop` of lib/src/shm-comm/shm_notifier.c together.
use lingmo_authenticate.Common.{
  ℕ, zero, suc, ◌-◌, ◌≤◌, ◌<◌, ◌^◌, ◌≡◌, ◌≢◌, refl, ap, ◌∙◌, pos, ltb_ℤ, ◌++◌, Bytes, false, none,
  some, [], ◌∷◌, length, memcpy_lem, take, arith,
}
use lingmo_authenticate.Common.Decimal.{decimal, atoi-decimal, length-decimal_le, length-decimal_ge}
use lingmo_authenticate.Shm.{
  Shmn, World, no_err, writer, len_str, send_all, fill, update, shmn_write, recv_once, update_of,
}

pub take-append_longer :
    (n : ℕ) (xs ys : Bytes) → length xs ≤ n → take n (xs ++ ys) ≡ xs ++ take (n - length xs) ys
take-append_longer n [] ys h = ap (λ k. take k ys) (omega arith)
take-append_longer zero (x ∷ xs) ys h = absurd (omega arith)
take-append_longer (suc n) (x ∷ xs) ys h =
    ap (λ l. x ∷ l)
      (take-append_longer n xs ys (omega arith) ∙ ap (λ k. xs ++ take k ys) (omega arith))

pub take-cons : (n x : ℕ) (xs : Bytes) → 0 < n → take n (x ∷ xs) ≡ x ∷ take (n - 1) xs
take-cons zero x xs h = absurd (omega arith)
take-cons (suc n) x xs h = ap (λ k. x ∷ take k xs) (omega arith)

pub take-all : (text : Bytes) → take (length text) text ≡ text
take-all [] = refl
take-all (x ∷ xs) = ap (λ l. x ∷ l) (take-all xs)

-- A plain copy of the whole text into a mapping that holds it.
pub fill-none :
    (text dst : Bytes) (n : ℕ)
    → n ≡ length text
    → n ≤ length dst
    → (out : Bytes) × (fill none text n dst ≡ some out) × (take n out ≡ text)
unfolding fill
fill-none text dst n e room =
    let all = take-all text in
    let (out, c, len, t) = memcpy_lem text dst (omega arith) in
    (out, ground (arith, all, c), ground (arith, t))

-- The announced text starts with the number and its end.
pub len_str_lem :
    (n : ℕ) (stack : Bytes)
    → n < 10 ^ 9
    → (junk : Bytes) × (len_str n stack ≡ some (decimal n ++ (0 ∷ junk)))
unfolding len_str
len_str_lem n stack h =
    let short = length-decimal_le 8 n h in
    let rest = 10 - length (decimal n) in
    let cut = take-append_longer 10 (decimal n) (0 ∷ stack) (omega arith) in
    let first = take-cons rest 0 stack (omega arith) in
    (take (rest - 1) stack, ground (arith, cut, first))

-- A length from 10^9 on does not fit the array of ten bytes with its end.
pub len_str_overflow : (n : ℕ) (stack : Bytes) → 10 ^ 9 ≤ n → len_str n stack ≡ none
unfolding len_str
len_str_overflow n stack h = let long = length-decimal_ge 9 n h in ground arith

-- A write of `n` bytes, no more than the mapping and the declared size hold, and fewer than 10^9,
-- copies them to the start of the mapping, leaves every other mapping alone, and sends each client
-- one text, from which the receiving loop of any reader calls back with its own mapping and `n`.
pub shmn_write_delivers :
    (stack text : Bytes) (s : Shmn) (w : World) (m n : ℕ)
    → s.role ≡ writer
    → s.send_data ≡ some m
    → ltb_ℤ s.sender_size (pos n) ≡ false
    → n ≡ length text
    → n ≤ length (w.bytes m)
    → n < 10 ^ 9
    → (w' : World) × (str : Bytes) × (shmn_write stack (some s) text (pos n) none w
        ≡ some (no_err, w'))
      × (take n (w'.bytes m) ≡ text)
      × ((q : ℕ) → q ≢ m → w'.bytes q ≡ w.bytes q)
      × (w'.writes ≡ send_all s.cli_fd_list str w.writes)
      × ((r : Shmn) (k : ℕ) → recv_once r (pos (suc k)) str ≡ update_of r.rcvd_data (pos n))
unfolding shmn_write recv_once
shmn_write_delivers stack text s w m n role send_data size e room h =
    let (out, filled, kept) = fill-none text (w.bytes m) n e room in
    let (junk, str) = len_str_lem n stack h in
    (
      record {
        bytes = update w.bytes m out;
        writes = send_all s.cli_fd_list (decimal n ++ (0 ∷ junk)) w.writes;
      },
      decimal n ++ (0 ∷ junk),
      ground (arith, filled, str),
      ground (arith, kept),
      λ q ne. ground arith,
      refl,
      λ r k. ap (λ i. update_of r.rcvd_data i) (atoi-decimal n (0 ∷ junk) (omega arith)),
    )
