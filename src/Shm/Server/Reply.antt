-- ===== src/Shm/Server/Reply.antt =====
-- What a reader of the channel writes, as the server reads it (lib/src/shm-comm/shm_notifier.c).
use lingmo_authenticate.Common.{
  ℕ, zero, suc, ◌+◌, ◌-◌, ◌≤◌, ◌<◌, ◌^◌, ◌%◌, ◌/◌, ◌≡◌, refl, ap, ◌∙◌, pos, ltb_ℤ, ◌++◌, Bytes,
  true, false, none, some, [], ◌∷◌, length, take, arith,
}
use lingmo_authenticate.Common.Decimal.{
  decimal, digits, atoi, atoi-decimal, length-decimal_le, length-decimal_ge,
}
use lingmo_authenticate.Shm.{Shmn, World, reader, no_err, update, shmn_write, update_of}
use lingmo_authenticate.Shm.Deliver.{take-append_longer, take-cons, fill-none, len_str_lem}
use lingmo_authenticate.Shm.Server.{all_digits, atoi_of_array, drop, listen_client, received}

all_digits-digits :
    (fuel n : ℕ) (acc : Bytes) → all_digits acc ≡ true → all_digits (digits fuel n acc) ≡ true
unfolding all_digits digits
all_digits-digits zero n acc h = h
all_digits-digits (suc fuel) n acc h =
    let ih = all_digits-digits fuel (n / 10) ((b'0' + n % 10) ∷ acc) (ground (arith, h)) in
    ground (arith, h, ih)

all_digits-decimal : (n : ℕ) → all_digits (decimal n) ≡ true
unfolding decimal all_digits
all_digits-decimal n = all_digits-digits (suc n) n [] refl

all_digits-take : (k : ℕ) (xs : Bytes) → all_digits xs ≡ true → all_digits (take k xs) ≡ true
unfolding all_digits
all_digits-take zero xs h = refl
all_digits-take (suc k) [] h = refl
all_digits-take (suc k) (x ∷ xs) h =
    let ih = all_digits-take k xs (ground (arith, h)) in ground (arith, h, ih)

all_digits-stop : (xs rest : Bytes) → all_digits (xs ++ (0 ∷ rest)) ≡ false
unfolding all_digits
all_digits-stop [] rest = ground arith
all_digits-stop (x ∷ xs) rest = let ih = all_digits-stop xs rest in ground (arith, ih)

take-append_shorter : (n : ℕ) (xs ys : Bytes) → n ≤ length xs → take n (xs ++ ys) ≡ take n xs
take-append_shorter zero xs ys h = refl
take-append_shorter (suc n) [] ys h = absurd (omega arith)
take-append_shorter (suc n) (x ∷ xs) ys h =
    ap (λ l. x ∷ l) (take-append_shorter n xs ys (omega arith))

length-take : (n : ℕ) (xs : Bytes) → n ≤ length xs → length (take n xs) ≡ n
length-take zero xs h = refl
length-take (suc n) [] h = absurd (omega arith)
length-take (suc n) (x ∷ xs) h = ap suc (length-take n xs (omega arith))

drop-all : (xs : Bytes) (n : ℕ) → length xs ≤ n → drop n xs ≡ []
drop-all [] zero h = refl
drop-all [] (suc n) h = refl
drop-all (x ∷ xs) zero h = absurd (omega arith)
drop-all (x ∷ xs) (suc n) h = drop-all xs n (omega arith)

append_nil : (xs : Bytes) → xs ++ [] ≡ xs
append_nil [] = refl
append_nil (x ∷ xs) = ap (λ l. x ∷ l) (append_nil xs)

append_assoc : (xs ys zs : Bytes) → (xs ++ ys) ++ zs ≡ xs ++ (ys ++ zs)
append_assoc [] ys zs = refl
append_assoc (x ∷ xs) ys zs = ap (λ l. x ∷ l) (append_assoc xs ys zs)

-- A number whose end is marked within the array.
array-stop : (n : ℕ) (rest : Bytes) → atoi_of_array (decimal n ++ (0 ∷ rest)) ≡ some (pos n)
unfolding atoi_of_array
array-stop n rest = let value = atoi-decimal n (0 ∷ rest) (omega arith) in go (decimal n) value
  where
    go :
        (text : Bytes)
        → atoi (text ++ (0 ∷ rest)) ≡ pos n
        → atoi_of_array (text ++ (0 ∷ rest)) ≡ some (pos n)
    go [] v = ground (arith, v)
    go (c ∷ cs) v = ground (arith, v, all_digits-stop cs rest)

array-full : (text : Bytes) → all_digits text ≡ true → atoi_of_array text ≡ none
unfolding atoi_of_array all_digits
array-full [] h = refl
array-full (c ∷ cs) h = ground (arith, h)

-- The first four bytes of the announced text, as the server's buffer holds them.
first_four :
    (n : ℕ) (junk stale : Bytes)
    → length stale ≡ 4
    → let bytes = take 4 (decimal n ++ (0 ∷ junk)) in
      (n < 1000 → atoi_of_array (bytes ++ drop (length bytes) stale) ≡ some (pos n))
      × (1000 ≤ n → atoi_of_array (bytes ++ drop (length bytes) stale) ≡ none)
first_four n junk stale four = (
  λ small.
      let short = length-decimal_le 2 n (omega arith) in
      let rest = 4 - length (decimal n) in
      let bytes = take 4 (decimal n ++ (0 ∷ junk)) in
      let cut : bytes ≡ decimal n ++ (0 ∷ take (rest - 1) junk) =
        take-append_longer 4 (decimal n) (0 ∷ junk) (omega arith)
        ∙ ap (λ l. decimal n ++ l) (take-cons rest 0 junk (omega arith)) in
      ap (λ l. atoi_of_array (l ++ drop (length bytes) stale)) cut
      ∙ ap atoi_of_array
          (append_assoc (decimal n) (0 ∷ take (rest - 1) junk) (drop (length bytes) stale))
      ∙ array-stop n (take (rest - 1) junk ++ drop (length bytes) stale),
  λ large.
      let long = length-decimal_ge 3 n (omega arith) in
      let bytes = take 4 (decimal n ++ (0 ∷ junk)) in
      let cut : bytes ≡ take 4 (decimal n) = take-append_shorter 4 (decimal n) (0 ∷ junk) long in
      let size : length bytes ≡ 4 =
        ap (λ (l : Bytes). length l) cut ∙ length-take 4 (decimal n) long in
      let none_left : drop (length bytes) stale ≡ [] =
        drop-all stale (length bytes) (omega arith) in
      ap (λ l. atoi_of_array (bytes ++ l)) none_left
      ∙ ap atoi_of_array (append_nil bytes ∙ cut)
      ∙ array-full (take 4 (decimal n)) (all_digits-take 4 (decimal n) (all_digits-decimal n)),
)

-- A reader whose second direction is enabled writes its text to its mapping and one message to its
-- socket. The server with a second direction reads four bytes of that message: it calls back with the
-- length if that is below 1000, and from 1000 on it reads past its buffer.
pub reader_write-listen_client :
    (stack stale text : Bytes) (r s : Shmn) (w : World) (m n : ℕ)
    → r.role ≡ reader
    → r.enable_ex ≡ true
    → r.send_data ≡ some m
    → ltb_ℤ r.sender_size (pos n) ≡ false
    → n ≡ length text
    → n ≤ length (w.bytes m)
    → n < 10 ^ 9
    → s.enable_ex ≡ true
    → length stale ≡ 4
    → (w' : World) × (str : Bytes) × (shmn_write stack (some r) text (pos n) none w
        ≡ some (no_err, w'))
      × (take n (w'.bytes m) ≡ text)
      × (w'.writes ≡ (r.self_fd, str) ∷ w.writes)
      × (n < 1000
          → listen_client stale (received (take 4 str)) s
            ≡ some (s, some (update_of s.rcvd_data (pos n))))
      × (1000 ≤ n → listen_client stale (received (take 4 str)) s ≡ none)
unfolding shmn_write listen_client
reader_write-listen_client stack stale text r s w m n role ex send_data size e room h server four =
    let (out, filled, kept) = fill-none text (w.bytes m) n e room in
    let (junk, str) = len_str_lem n stack h in
    let (small, large) = first_four n junk stale four in
    (
      record {
        bytes = update w.bytes m out;
        writes = (r.self_fd, decimal n ++ (0 ∷ junk)) ∷ w.writes;
      },
      decimal n ++ (0 ∷ junk),
      ground (arith, role, ex, send_data, size, filled, str),
      ground (arith, kept),
      refl,
      λ g. let e = small g in ground (arith, server, e),
      λ g. let e = large g in ground (arith, server, e),
    )
