-- ===== src/Text.antt =====
-- C strings, and the functions of the C library that the program calls on them: `atoi`,
-- `snprintf` with `%d`, `strlen`. A string is the list of its bytes before the terminating NUL.
pub mod Decimal
use Prim.Native.Char.{code}
use reachard.Prelude.{
  ℕ, zero, suc, ◌+◌, ◌-◌, ◌*◌, ◌/◌, ◌%◌, String, Bool, true, false, ◌&&◌, ◌||◌, List, [], ◌∷◌, ◌++◌,
  Option, none, some, ℤ, pos, negsuc, to_int32, ltb, leb, ◌==◌, if◌then◌else◌, take,
}

abbrev pub Bytes : Type 0
Bytes = List ℕ

-- A `char *`: `none` is the null pointer.
abbrev pub CString : Type 0
CString = Option Bytes

abbrev pub codes : String → Bytes
codes String.[] = []
codes (String.◌∷◌ c s) = code c ∷ codes s

-- `strcmp(a, b) == 0`
abbrev pub same : Bytes → Bytes → Bool
same [] [] = true
same (x ∷ xs) (y ∷ ys) = (x == y) && same xs ys
same _ _ = false

abbrev pub is_digit : ℕ → Bool
is_digit c = leb 48 c && leb c 57

-- `isspace` in the C locale.
abbrev pub is_space : ℕ → Bool
is_space c = c == 32 || (leb 9 c && leb c 13)

-- The value of the digits at the front of a text, behind those read so far.
unfoldable pub digits_value : ℕ → Bytes → ℕ
digits_value acc [] = acc
digits_value acc (c ∷ cs) =
    let rest = digits_value (acc * 10 + (c - 48)) cs in if is_digit c then rest else acc

-- `strtol` stops at the ends of `long`.
abbrev pub clamp_long : ℤ → ℤ
clamp_long (pos n) = if ltb n 9223372036854775808 then pos n else pos 9223372036854775807
clamp_long (negsuc n) = if ltb n 9223372036854775808 then negsuc n else negsuc 9223372036854775807

-- `- n`
abbrev pub negate : ℕ → ℤ
negate zero = pos 0
negate (suc n) = negsuc n

unfoldable pub signed_value : Bytes → ℤ
unfolding digits_value
signed_value [] = pos 0
signed_value (c ∷ cs) =
    if c == b'-'
    then negate (digits_value 0 cs)
    else if c == b'+'
    then pos (digits_value 0 cs)
    else pos (digits_value 0 (c ∷ cs))

unfoldable pub skip_spaces : Bytes → Bytes
skip_spaces [] = []
skip_spaces (c ∷ cs) = let rest = skip_spaces cs in if is_space c then rest else c ∷ cs

-- `atoi`, which is `strtol` in base ten, converted to `int`.
unfoldable pub atoi : Bytes → ℤ
unfolding signed_value skip_spaces
atoi s = to_int32 (clamp_long (signed_value (skip_spaces s)))

-- The decimal digits of a number, the fuel above the number.
unfoldable pub decimal_fuel : ℕ → ℕ → Bytes
decimal_fuel zero n = []
decimal_fuel (suc f) n =
    let more = decimal_fuel f (n / 10) ++ (48 + n % 10) ∷ [] in
    if ltb n 10 then (48 + n) ∷ [] else more

unfoldable pub decimal : ℕ → Bytes
unfolding decimal_fuel
decimal n = decimal_fuel (suc n) n

-- What `%d` prints.
unfoldable pub print_int : ℤ → Bytes
unfolding decimal
print_int (pos n) = decimal n
print_int (negsuc n) = b'-' ∷ decimal (suc n)

-- `REACHARD_INT_STR_LEN`
abbrev pub int_str_len : ℕ
int_str_len = 12

-- `snprintf(buffer, REACHARD_INT_STR_LEN, "%d", n)`: the last byte of the buffer is the NUL.
unfoldable pub snprintf_int : ℤ → Bytes
unfolding print_int
snprintf_int z = take (int_str_len - 1) (print_int z)
