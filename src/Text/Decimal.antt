-- ===== src/Text/Decimal.antt =====
-- Printing an `int` in decimal and reading it back.
use native.Mathlib.Nat.{pow-suc}
use mathlib.Core.List.{append_assoc, append-nil}
use reachard.Prelude.{
  ℕ, zero, suc, ◌+◌, ◌*◌, ◌/◌, ◌%◌, ◌^◌, ◌≤◌, ◌<◌, true, false, List, [], ◌∷◌, ◌++◌, ◌≡◌, refl, sym,
  ap, ◌∙◌, arith, ℤ, pos, negsuc, IsInt32, to_int32, to_int32_id, ltb, if◌then◌else◌, length,
  length-append, take_all, Bool-cases, inl, inr, ltb→lt, ltb→le, lt→ltb, All,
}
use reachard.Text.{
  Bytes, is_digit, digits_value, clamp_long, negate, signed_value, skip_spaces, atoi, decimal_fuel,
  decimal, print_int, snprintf_int,
}

-- A text that does not go on with a digit.
abbrev pub Stops : Bytes → Type 0
Stops [] = Unit
Stops (c ∷ cs) = is_digit c ≡ false

digits_value-stop : (acc : ℕ) (rest : Bytes) → Stops rest → digits_value acc rest ≡ acc
unfolding digits_value
digits_value-stop acc [] h = refl
digits_value-stop acc (c ∷ cs) h = rw h

digits_value-digit :
    (acc d : ℕ) (cs : Bytes)
    → d < 10
    → digits_value acc ((48 + d) ∷ cs) ≡ digits_value (acc * 10 + d) cs
unfolding digits_value
digits_value-digit acc d cs h = ground arith

-- The printed digits multiply what was read before by a power of ten.
scale : ℕ → ℕ → ℕ
scale zero n = 1
scale (suc f) n = let more = scale f (n / 10) * 10 in if ltb n 10 then 10 else more

-- The fuel of the call on the quotient.
quotient_fits : (f n : ℕ) → n < suc f → 10 ≤ n → n / 10 < f
quotient_fits f n h big = omega arith

pow_quotient : (k n : ℕ) → n < 10 ^ suc (suc k) → n / 10 < 10 ^ suc k
pow_quotient k n h = let e = pow-suc 10 (suc k) in omega arith

is_digit_lem : (d : ℕ) → d < 10 → is_digit (48 + d) ≡ true
is_digit_lem d h = ground arith

All-concat {ℓ κ} :
    {A : Type ℓ} (P : A → Type κ) (xs : List A) (y : A) → All P xs → P y → All P (xs ++ y ∷ [])
All-concat P [] y h p = (p, tt)
All-concat P (x ∷ xs) y h p = (h.0, All-concat P xs y h.1 p)

digits_value-decimal_fuel :
    (f n acc : ℕ) (rest : Bytes)
    → n < f
    → digits_value acc (decimal_fuel f n ++ rest) ≡ digits_value (acc * scale f n + n) rest
unfolding decimal_fuel scale
digits_value-decimal_fuel zero n acc rest h = elim h [ ]
digits_value-decimal_fuel (suc f) n acc rest h = elim (Bool-cases (ltb n 10)) [
  | inl small ↦ rw small (digits_value-digit acc n rest (ltb→lt n 10 small))
  | inr large ↦
      rw (large, append_assoc)
        (digits_value-decimal_fuel f (n / 10) acc _ (quotient_fits f n h (ltb→le n 10 large))
          ∙ digits_value-digit _ (n % 10) rest (omega arith)
          ∙ ap (λ v. digits_value v rest) (omega arith))
]

-- Reading what `decimal` prints gives the number, whatever stands behind that is no digit.
pub digits_value-decimal :
    (n : ℕ) (rest : Bytes) → Stops rest → digits_value 0 (decimal n ++ rest) ≡ n
unfolding decimal
digits_value-decimal n rest h =
    digits_value-decimal_fuel (suc n) n 0 rest (omega arith)
    ∙ ap (λ v. digits_value v rest) (omega arith)
    ∙ digits_value-stop n rest h

decimal_fuel-digits : (f n : ℕ) → n < f → All (λ c. is_digit c ≡ true) (decimal_fuel f n)
unfolding decimal_fuel
decimal_fuel-digits zero n h = elim h [ ]
decimal_fuel-digits (suc f) n h = elim (Bool-cases (ltb n 10)) [
  | inl small ↦ rw small (is_digit_lem n (ltb→lt n 10 small), tt)
  | inr large ↦ rw large (
      All-concat _ (decimal_fuel f (n / 10)) _
        (decimal_fuel-digits f (n / 10) (quotient_fits f n h (ltb→le n 10 large)))
        (is_digit_lem (n % 10) (omega arith)))
]

pub decimal-digits : (n : ℕ) → All (λ c. is_digit c ≡ true) (decimal n)
unfolding decimal
decimal-digits n = decimal_fuel-digits (suc n) n (omega arith)

decimal_fuel-ne_nil : (f n : ℕ) → n < f → 0 < length (decimal_fuel f n)
unfolding decimal_fuel
decimal_fuel-ne_nil zero n h = elim h [ ]
decimal_fuel-ne_nil (suc f) n h = elim (Bool-cases (ltb n 10)) [
  | inl small ↦ rw small (omega arith)
  | inr large ↦
      rw large (omega (arith, length-append (decimal_fuel f (n / 10)) ((48 + n % 10) ∷ [])))
]

pub decimal-ne_nil : (n : ℕ) → 0 < length (decimal n)
unfolding decimal
decimal-ne_nil n = decimal_fuel-ne_nil (suc n) n (omega arith)

-- A number below 10 ^ (k + 1) has at most k + 1 digits.
length-decimal_fuel : (k f n : ℕ) → n < f → n < 10 ^ suc k → length (decimal_fuel f n) ≤ suc k
unfolding decimal_fuel
length-decimal_fuel k zero n h b = elim h [ ]
length-decimal_fuel zero (suc f) n h b = rw (lt→ltb n 10 b) (omega arith)
length-decimal_fuel (suc k) (suc f) n h b = elim (Bool-cases (ltb n 10)) [
  | inl small ↦ rw small (omega arith)
  | inr large ↦ rw large (
      omega (
        arith,
        length-append (decimal_fuel f (n / 10)) ((48 + n % 10) ∷ []),
        length-decimal_fuel k f (n / 10) (quotient_fits f n h (ltb→le n 10 large))
            (pow_quotient k n b),
      ))
]

pub length-decimal : (k n : ℕ) → n < 10 ^ suc k → length (decimal n) ≤ suc k
unfolding decimal
length-decimal k n h = length-decimal_fuel k (suc n) n (omega arith) h

skip_spaces-digit : (c : ℕ) (cs : Bytes) → is_digit c ≡ true → skip_spaces (c ∷ cs) ≡ c ∷ cs
unfolding skip_spaces
skip_spaces-digit c cs h = ground arith

signed_value-digit :
    (c : ℕ) (cs : Bytes) → is_digit c ≡ true → signed_value (c ∷ cs) ≡ pos (digits_value 0 (c ∷ cs))
unfolding signed_value
signed_value-digit c cs h = ground arith

pub signed_value-skip_spaces-digits :
    (ds rest : Bytes)
    → All (λ c. is_digit c ≡ true) ds
    → 0 < length ds
    → signed_value (skip_spaces (ds ++ rest)) ≡ pos (digits_value 0 (ds ++ rest))
signed_value-skip_spaces-digits [] rest h ne = absurd (omega arith)
signed_value-skip_spaces-digits (c ∷ cs) rest h ne =
    rw (skip_spaces-digit c (cs ++ rest) h.0) (signed_value-digit c (cs ++ rest) h.0)

signed_value-skip_spaces-minus :
    (cs : Bytes) → signed_value (skip_spaces (b'-' ∷ cs)) ≡ negate (digits_value 0 cs)
unfolding signed_value skip_spaces
signed_value-skip_spaces-minus cs = refl

clamp_long_id : (z : ℤ) → IsInt32 z → clamp_long z ≡ z
clamp_long_id (pos n) h = ground arith
clamp_long_id (negsuc n) h = ground arith

-- `atoi` of what `%d` prints, with anything that is no digit behind it, is the number.
pub atoi-print_int :
    (z : ℤ) (rest : Bytes) → IsInt32 z → Stops rest → atoi (print_int z ++ rest) ≡ z
unfolding atoi print_int
atoi-print_int (pos n) rest h stop =
    rw
      (
        signed_value-skip_spaces-digits (decimal n) rest (decimal-digits n) (decimal-ne_nil n),
        digits_value-decimal n rest stop,
      )
      (ap to_int32 (clamp_long_id (pos n) h) ∙ to_int32_id (pos n) h)
atoi-print_int (negsuc n) rest h stop =
    rw
      (
        signed_value-skip_spaces-minus (decimal (suc n) ++ rest),
        digits_value-decimal (suc n) rest stop,
      )
      (ap to_int32 (clamp_long_id (negsuc n) h) ∙ to_int32_id (negsuc n) h)

-- An `int` and its sign take eleven bytes at most, one less than the buffer has.
pub length-print_int : (z : ℤ) → IsInt32 z → length (print_int z) ≤ 11
unfolding print_int
length-print_int (pos n) h = omega (arith, length-decimal 9 n (omega arith))
length-print_int (negsuc n) h = omega (arith, length-decimal 9 (suc n) (omega arith))

-- So `snprintf` cuts nothing off.
pub snprintf_int-print_int : (z : ℤ) → IsInt32 z → snprintf_int z ≡ print_int z
unfolding snprintf_int
snprintf_int-print_int z h = take_all 11 (print_int z) (length-print_int z h)

-- Every 32-bit `int` survives `snprintf` into the 12-byte buffer of the queries and `atoi`.
pub atoi-snprintf_int : (z : ℤ) → IsInt32 z → atoi (snprintf_int z) ≡ z
atoi-snprintf_int z h =
    rw (snprintf_int-print_int z h)
      (ap atoi (sym (append-nil (print_int z))) ∙ atoi-print_int z [] h tt)
