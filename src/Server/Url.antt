-- ===== src/Server/Url.antt =====
-- `match` of src/server/handle.c with the pattern `PATTERN("targets")`,
-- `^/targets/(([0-9]{1,12})/)?$`, and the id that it takes from the URL.
pub mod Ids
use reachard.Prelude.{
  ℕ, zero, suc, ◌+◌, Bool, true, false, List, [], ◌∷◌, ◌++◌, Option, none, some, ℤ, pos, ◌==◌, ltb,
  leb, if◌then◌else◌, length, ◌&&◌,
}
use reachard.Text.{Bytes, codes, is_digit, atoi, int_str_len}
use reachard.System.{M, pure, fault}

-- The rest of a text behind a literal.
strip : Bytes → Bytes → Option Bytes
strip [] s = some s
strip (c ∷ cs) [] = none
strip (c ∷ cs) (x ∷ s) = let rest = strip cs s in if c == x then rest else none

-- The digits at the front of a text, and the rest.
span_digits : Bytes → Bytes × Bytes
span_digits [] = ([], [])
span_digits (c ∷ cs) =
    let (ds, rest) = span_digits cs in if is_digit c then (c ∷ ds, rest) else ([], c ∷ cs)

-- The end of the pattern, `/` and no more.
is_slash : Bytes → Bool
is_slash (c ∷ []) = c == b'/'
is_slash _ = false

-- The group, if one to twelve digits are followed by the end of the pattern.
group : Bytes × Bytes → Option Bytes
group (ds, rest) =
    if ltb 0 (length ds) && (leb (length ds) 12 && is_slash rest) then some ds else none

-- `(([0-9]{1,12})/)?$`: the second group, empty where the first did not take part.
match_id : Bytes → Option Bytes
unfolding span_digits is_slash group
match_id [] = some []
match_id (c ∷ cs) = group (span_digits (c ∷ cs))

abbrev on_rest : Option Bytes → Option Bytes
on_rest none = none
on_rest (some rest) = match_id rest

-- `regexec` with the pattern: the text of the second group.
unfoldable pub regexec : Bytes → Option Bytes
unfolding strip match_id
regexec url = on_rest (strip (codes "/targets/") url)

abbrev pub put_byte : ℕ → Option Bytes → Option Bytes
put_byte c none = none
put_byte c (some cs) = some (c ∷ cs)

-- `strncpy` of a text into an array of zeros of a size, `none` where it writes past the end.
unfoldable pub copied : ℕ → Bytes → Option Bytes
copied zero [] = some []
copied zero (c ∷ cs) = none
copied (suc n) [] = put_byte 0 (copied n [])
copied (suc n) (c ∷ cs) = put_byte c (copied n cs)

-- The string in an array, up to its NUL, `none` where a read goes past the end.
unfoldable pub string_in : Bytes → Option Bytes
string_in [] = none
string_in (c ∷ cs) = let rest = put_byte c (string_in cs) in if c == 0 then some [] else rest

abbrev pub array_string : Option Bytes → Option Bytes
array_string none = none
array_string (some cells) = string_in cells

abbrev id_or_fault : {S : Type 0} → Option Bytes → M S ℤ
id_or_fault none = fault
id_or_fault (some s) = pure (atoi s)

-- `char id_str[REACHARD_INT_STR_LEN] = {0}`, `strncpy` and `atoi`.
unfoldable pub parse_id : {S : Type 0} → Bytes → M S ℤ
unfolding copied string_in atoi
parse_id digits = id_or_fault (array_string (copied int_str_len digits))
