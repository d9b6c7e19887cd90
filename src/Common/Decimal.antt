-- ===== src/Common/Decimal.antt =====
-- `sprintf ("%d")` of a number that is not negative, and `atoi`.
use native.Mathlib.Nat.{pow-suc}
use lingmo_authenticate.Common.{
  ℕ, zero, suc, ◌+◌, ◌-◌, ◌*◌, ◌/◌, ◌%◌, ◌^◌, ◌≤◌, ◌<◌, ◌≡◌, refl, ap, ◌∙◌, ℤ, pos, negsuc, sym, [],
  ◌∷◌, ◌++◌, Bytes, false, ◌&&◌, ltb, leb, le→not-ltb, ◌==◌, if◌then◌else◌, length, arith,
  Bool-cases, inl, inr,
}

-- The digits of `n` before `acc`; `fuel` is more than `n`.
unfoldable pub digits : ℕ → ℕ → Bytes → Bytes
digits zero n acc = acc
digits (suc fuel) n acc =
    let rest = digits fuel (n / 10) ((b'0' + n % 10) ∷ acc) in
    if ltb n 10 then (b'0' + n) ∷ acc else rest

unfoldable pub decimal : ℕ → Bytes
decimal n = digits (suc n) n []

-- The value of the leading digits, begun with `acc`.
unfoldable pub leading : ℕ → Bytes → ℕ
leading acc [] = acc
leading acc (c ∷ cs) =
    let rest = leading (acc * 10 + (c - b'0')) cs in if leb b'0' c && leb c b'9' then rest else acc

-- The sign, then the digits; a text of the program never begins with white space.
unfoldable pub atoi : Bytes → ℤ
unfolding leading
atoi [] = pos 0
atoi (c ∷ cs) =
    if c == b'-'
    then (let n = leading 0 cs in if n == 0 then pos 0 else negsuc (n - 1))
    else if c == b'+'
    then pos (leading 0 cs)
    else pos (leading 0 (c ∷ cs))

leading-digit :
    (v d : ℕ) (cs : Bytes) → d < 10 → leading v ((b'0' + d) ∷ cs) ≡ leading (v * 10 + d) cs
unfolding leading
leading-digit v d cs h =
    let same : v * 10 + (b'0' + d - b'0') ≡ v * 10 + d = omega arith in
    ground (arith, ap (λ w. leading w cs) same)

leading-digits :
    (fuel n : ℕ) (acc : Bytes) → n < fuel → leading 0 (digits fuel n acc) ≡ leading n acc
unfolding digits
leading-digits zero n acc h = elim h [ ]
leading-digits (suc fuel) n acc h = elim (Bool-cases (ltb n 10)) [
  | inl small ↦
      rw small (leading-digit 0 n acc (ground arith) ∙ ap (λ w. leading w acc) (omega arith))
  | inr large ↦ rw large (
      leading-digits fuel (n / 10) ((b'0' + n % 10) ∷ acc) (ground arith)
      ∙ leading-digit (n / 10) (n % 10) acc (omega arith)
      ∙ ap (λ w. leading w acc) (omega arith))
]

pow_pos : (k : ℕ) → 0 < 10 ^ k
pow_pos zero = omega arith
pow_pos (suc k) = omega (arith, pow-suc 10 k, pow_pos k)

length-digits-le :
    (k fuel n : ℕ) (acc : Bytes)
    → n < fuel
    → n < 10 ^ suc k
    → length (digits fuel n acc) ≤ suc k + length acc
unfolding digits
length-digits-le k zero n acc h u = elim h [ ]
length-digits-le zero (suc fuel) n acc h u = ground arith
length-digits-le (suc k) (suc fuel) n acc h u = elim (Bool-cases (ltb n 10)) [
  | inl small ↦ rw small (omega arith)
  | inr large ↦
      let high : n < 10 * 10 ^ suc k = omega (arith, pow-suc 10 (suc k)) in
      let rest =
        length-digits-le k fuel (n / 10) ((b'0' + n % 10) ∷ acc) (ground arith) (omega arith) in
      rw large (omega (arith, rest))
]

length-digits-ge :
    (k fuel n : ℕ) (acc : Bytes)
    → n < fuel
    → 10 ^ k ≤ n
    → suc k + length acc ≤ length (digits fuel n acc)
unfolding digits
length-digits-ge k zero n acc h l = elim h [ ]
length-digits-ge zero (suc fuel) n acc h l = elim (Bool-cases (ltb n 10)) [
  | inl small ↦ rw small (omega arith)
  | inr large ↦
      let low : 10 ≤ n = ground arith in
      let rest =
        length-digits-ge zero fuel (n / 10) ((b'0' + n % 10) ∷ acc) (omega arith) (omega arith) in
      rw large (omega (arith, rest))
]
length-digits-ge (suc k) (suc fuel) n acc h l =
    let low : 10 * 10 ^ k ≤ n = omega (arith, pow-suc 10 k) in
    let many : ltb n 10 ≡ false = le→not-ltb n 10 (omega (arith, pow_pos k)) in
    let rest =
      length-digits-ge k fuel (n / 10) ((b'0' + n % 10) ∷ acc) (omega (arith, pow_pos k))
        (omega arith) in
    rw many (omega (arith, rest))

digits-append :
    (fuel n : ℕ) (acc rest : Bytes) → digits fuel n acc ++ rest ≡ digits fuel n (acc ++ rest)
unfolding digits
digits-append zero n acc rest = refl
digits-append (suc fuel) n acc rest =
    ground (arith, digits-append fuel (n / 10) ((b'0' + n % 10) ∷ acc) rest)

first_digit :
    (fuel n : ℕ) (acc : Bytes)
    → n < fuel
    → (c : ℕ) × (cs : Bytes) × (digits fuel n acc ≡ c ∷ cs) × (b'0' ≤ c)
unfolding digits
first_digit zero n acc h = elim h [ ]
first_digit (suc fuel) n acc h = elim (Bool-cases (ltb n 10)) [
  | inl small ↦ (b'0' + n, acc, rw small refl, omega arith)
  | inr large ↦ rw large (first_digit fuel (n / 10) ((b'0' + n % 10) ∷ acc) (ground arith))
]

atoi_of_digit : (c : ℕ) (cs : Bytes) → b'0' ≤ c → atoi (c ∷ cs) ≡ pos (leading 0 (c ∷ cs))
unfolding atoi
atoi_of_digit c cs h = ground arith

-- The text goes on with no digit, or ends.
abbrev pub NoDigit : Bytes → Type 0
NoDigit [] = Unit
NoDigit (c ∷ cs) = c < b'0'

leading-NoDigit : (n : ℕ) (rest : Bytes) → NoDigit rest → leading n rest ≡ n
unfolding leading
leading-NoDigit n [] h = refl
leading-NoDigit n (c ∷ cs) h = ground arith

-- `atoi` reads back what "%d" printed, whatever but a digit follows it.
pub atoi-decimal : (n : ℕ) (rest : Bytes) → NoDigit rest → atoi (decimal n ++ rest) ≡ pos n
unfolding decimal
atoi-decimal n rest h =
    let all = digits-append (suc n) n [] rest in
    let (c, cs, e, d) = first_digit (suc n) n rest (omega arith) in
    let value = leading-digits (suc n) n rest (omega arith) ∙ leading-NoDigit n rest h in
    ap atoi (all ∙ e) ∙ atoi_of_digit c cs d ∙ ap pos (ap (leading 0) (sym e) ∙ value)

-- A number below 10 ^ (k + 1) is printed in at most k + 1 bytes, and one from 10 ^ k on in at least
-- as many.
pub length-decimal_le : (k n : ℕ) → n < 10 ^ suc k → length (decimal n) ≤ suc k
unfolding decimal
length-decimal_le k n u = omega (arith, length-digits-le k (suc n) n [] (omega arith) u)

pub length-decimal_ge : (k n : ℕ) → 10 ^ k ≤ n → suc k ≤ length (decimal n)
unfolding decimal
length-decimal_ge k n l = omega (arith, length-digits-ge k (suc n) n [] (omega arith) l)
