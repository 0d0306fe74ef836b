-- ===== src/Server/Url/Ids.antt =====
-- `match` of src/server/handle.c: which URLs match, and which id they give.
use mathlib.Core.List.{append-nil}
use reachard.Prelude.{
  ℕ, zero, suc, false, ◌==◌, ◌≤◌, ◌<◌, ◌^◌, true, [], ◌∷◌, ◌++◌, Option, none, some, ◌≡◌, ◌↔◌, ◌⊎◌,
  inl, inr, refl, sym, ap, ◌∙◌, arith, pos, to_int32, to_int32_id, length, All, Bool-cases,
}
use reachard.Text.{Bytes, codes, is_digit, clamp_long, signed_value, skip_spaces, atoi, decimal}
use reachard.Text.Decimal.{
  decimal-digits, decimal-ne_nil, length-decimal, digits_value-decimal,
  signed_value-skip_spaces-digits,
}
use reachard.System.{World}
use reachard.Server.Url.{
  strip, span_digits, is_slash, group, on_rest, match_id, regexec, put_byte, copied, string_in,
  array_string, parse_id,
}

abbrev pub IsDigits : Bytes → Type 0
IsDigits = All (λ c. is_digit c ≡ true)

strip-append : (cs s : Bytes) → strip cs (cs ++ s) ≡ some s
unfolding strip
strip-append [] s = refl
strip-append (c ∷ cs) s = ground (arith, strip-append cs s)

strip_sound : (cs s rest : Bytes) → strip cs s ≡ some rest → s ≡ cs ++ rest
unfolding strip
strip_sound [] s rest h = cc
strip_sound (c ∷ cs) [] rest h = cc
strip_sound (c ∷ cs) (x ∷ s) rest h = ground (arith, strip_sound cs s rest)

span_digits_sound :
    (s : Bytes) → (s ≡ (span_digits s).0 ++ (span_digits s).1) × IsDigits (span_digits s).0
unfolding span_digits
span_digits_sound [] = (refl, tt)
span_digits_sound (c ∷ cs) = elim (Bool-cases (is_digit c)) [
  | inl d ↦ rw d (ap (◌∷◌ c) (span_digits_sound cs).0, (d, (span_digits_sound cs).1))
  | inr d ↦ rw d (refl, tt)
]

span_digits-append : (ds : Bytes) → IsDigits ds → span_digits (ds ++ b'/' ∷ []) ≡ (ds, b'/' ∷ [])
unfolding span_digits
span_digits-append [] h = refl
span_digits-append (c ∷ cs) h = rw (h.0, span_digits-append cs h.1) refl

is_slash_sound : (s : Bytes) → is_slash s ≡ true → s ≡ b'/' ∷ []
unfolding is_slash
is_slash_sound [] h = cc
is_slash_sound (c ∷ []) h = ground arith
is_slash_sound (c ∷ x ∷ s) h = cc

-- The group is empty, or one to twelve digits before a slash.
abbrev pub IsIdPart : Bytes → Bytes → Type 0
IsIdPart s ds =
    ((s ≡ []) × (ds ≡ []))
    ⊎ ((s ≡ ds ++ b'/' ∷ []) × IsDigits ds × (0 < length ds) × (length ds ≤ 12))

group_sound :
    (p : Bytes × Bytes) (ds : Bytes)
    → group p ≡ some ds
    → (p.0 ≡ ds) × (p.1 ≡ b'/' ∷ []) × (0 < length ds) × (length ds ≤ 12)
unfolding group
group_sound (digits, rest) ds h = ground (arith, is_slash_sound rest)

match_id_sound : (s ds : Bytes) → match_id s ≡ some ds → IsIdPart s ds
unfolding match_id
match_id_sound [] ds h = inl (refl, ground arith)
match_id_sound (c ∷ cs) ds h =
    let g = group_sound (span_digits (c ∷ cs)) ds h in
    let (split, all) = span_digits_sound (c ∷ cs) in
    inr (rw (g.0, g.1) at split, rw g.0 at all, g.2, g.3)

match_id_complete : (s ds : Bytes) → IsIdPart s ds → match_id s ≡ some ds
match_id_complete s ds (inl (e, f)) = rw (e, f) (unfold match_id in refl)
match_id_complete s [] (inr (e, d, l, u)) = absurd (omega arith)
match_id_complete s (c ∷ cs) (inr (e, d, l, u)) =
    rw e (unfold match_id in rw (span_digits-append (c ∷ cs) d) (ground arith))

regexec_lem : (url : Bytes) → regexec url ≡ on_rest (strip (codes "/targets/") url)
unfolding regexec
regexec_lem url = refl

on_rest_sound :
    (o : Option Bytes) (ds : Bytes)
    → on_rest o ≡ some ds
    → (s : Bytes) × (o ≡ some s) × IsIdPart s ds
on_rest_sound none ds h = cc
on_rest_sound (some s) ds h = (s, refl, match_id_sound s ds h)

-- A URL matches exactly if it is `/targets/`, which gives no digits, or `/targets/` with one to
-- twelve digits and a slash behind it, which gives the digits.
pub regexec_iff :
    (url ds : Bytes)
    → (regexec url ≡ some ds) ↔ ((s : Bytes) × (url ≡ codes "/targets/" ++ s) × IsIdPart s ds)
regexec_iff url ds = (
  λ h.
      let (s, e, part) =
        on_rest_sound (strip (codes "/targets/") url) ds (sym (regexec_lem url) ∙ h) in
      (s, strip_sound (codes "/targets/") url s e, part),
  λ (s, e, part).
      rw (e, regexec_lem) (rw (strip-append (codes "/targets/") s) (match_id_complete s ds part)),
)

-- The URL of a target.
abbrev pub url_of : ℕ → Bytes
url_of n = codes "/targets/" ++ (decimal n ++ b'/' ∷ [])

clamp_long_small : (n : ℕ) → n < 10 ^ 11 → clamp_long (pos n) ≡ pos n
clamp_long_small n h = ground arith

atoi-decimal : (n : ℕ) → n < 10 ^ 11 → atoi (decimal n) ≡ to_int32 (pos n)
unfolding atoi
atoi-decimal n h =
    let read =
      ap (λ s. signed_value (skip_spaces s)) (sym (append-nil (decimal n)))
      ∙ signed_value-skip_spaces-digits (decimal n) [] (decimal-digits n) (decimal-ne_nil n)
      ∙ ap pos (digits_value-decimal n [] tt) in
    rw read (rw (clamp_long_small n h) refl)

pub atoi-decimal_small : (n : ℕ) → n < 2 ^ 31 → atoi (decimal n) ≡ pos n
atoi-decimal_small n h = atoi-decimal n (omega arith) ∙ to_int32_id (pos n) (omega arith)

pub length-decimal_small : (n : ℕ) → n < 10 ^ 11 → length (decimal n) < 12
length-decimal_small n h = omega (arith, length-decimal 10 n h)

pub regexec-url_of : (n : ℕ) → n < 10 ^ 11 → regexec (url_of n) ≡ some (decimal n)
regexec-url_of n h = (regexec_iff (url_of n) (decimal n)).1 (
  decimal n ++ b'/' ∷ [],
  refl,
  inr (refl, decimal-digits n, decimal-ne_nil n, omega (arith, length-decimal_small n h)),
)

-- The array of zeros.
zeros : (n : ℕ) → (cells : Bytes) × (copied n [] ≡ some cells)
unfolding copied
zeros zero = ([], refl)
zeros (suc n) = let (cells, e) = zeros n in (0 ∷ cells, rw e refl)

digit_ne_zero : (c : ℕ) → is_digit c ≡ true → (c == 0) ≡ false
digit_ne_zero c d = ground arith

string_behind :
    (c : ℕ) (o : Option Bytes) (s : Bytes)
    → is_digit c ≡ true
    → array_string o ≡ some s
    → array_string (put_byte c o) ≡ some (c ∷ s)
unfolding string_in
string_behind c none s d e = cc
string_behind c (some cells) s d e = rw (digit_ne_zero c d, e) refl

no_string_behind :
    (c : ℕ) (o : Option Bytes)
    → is_digit c ≡ true
    → array_string o ≡ none
    → array_string (put_byte c o) ≡ none
unfolding string_in
no_string_behind c none d e = refl
no_string_behind c (some cells) d e = rw (digit_ne_zero c d, e) refl

IsIdPart-IsDigits : (s ds : Bytes) → IsIdPart s ds → IsDigits ds
IsIdPart-IsDigits s ds (inl (e, f)) = rw f tt
IsIdPart-IsDigits s ds (inr (e, d, l, u)) = d

-- Digits that leave room for a NUL are what the array holds.
copied_string :
    (size : ℕ) (ds : Bytes)
    → IsDigits ds
    → length ds < size
    → array_string (copied size ds) ≡ some ds
unfolding copied string_in
copied_string zero ds d l = absurd (omega (arith, l))
copied_string (suc n) [] d l = let (cells, e) = zeros n in rw e refl
copied_string (suc n) (c ∷ cs) d l =
    string_behind c (copied n cs) cs d.0 (copied_string n cs d.1 (omega arith))

-- Digits that fill the array leave no NUL.
copied_full :
    (size : ℕ) (ds : Bytes) → IsDigits ds → length ds ≡ size → array_string (copied size ds) ≡ none
unfolding copied string_in
copied_full zero [] d l = refl
copied_full (suc n) [] d l = absurd (omega (arith, l))
copied_full zero (c ∷ cs) d l = absurd (omega (arith, l))
copied_full (suc n) (c ∷ cs) d l =
    no_string_behind c (copied n cs) d.0 (copied_full n cs d.1 (omega arith))

-- The digits of a URL, where there are at most eleven, are what the array holds.
pub regexec-copied :
    (url ds : Bytes)
    → regexec url ≡ some ds
    → length ds < 12
    → array_string (copied 12 ds) ≡ some ds
regexec-copied url ds e l =
    let (s, is, part) = (regexec_iff url ds).0 e in
    copied_string 12 ds (IsIdPart-IsDigits s ds part) l

-- A number of up to eleven digits in the URL comes out as that number modulo 2 ^ 32, as an `int`.
pub parse_id-url_of :
    {S : Type 0} (n : ℕ) (w : World S)
    → n < 10 ^ 11
    → (ds : Bytes) × (regexec (url_of n) ≡ some ds) × (parse_id ds w ≡ some (to_int32 (pos n), w))
unfolding parse_id
parse_id-url_of n w h = (
  decimal n,
  regexec-url_of n h,
  rw (copied_string 12 (decimal n) (decimal-digits n) (length-decimal_small n h))
      (rw (atoi-decimal n h) refl),
)

-- With twelve digits, which the pattern allows, the array of the id holds no NUL, and `atoi` reads
-- past its end.
pub parse_id_overrun :
    {S : Type 0} (ds : Bytes) (w : World S)
    → IsDigits ds
    → length ds ≡ 12
    → (regexec (codes "/targets/" ++ (ds ++ b'/' ∷ [])) ≡ some ds) × (parse_id ds w ≡ none)
unfolding parse_id
parse_id_overrun ds w d l = (
  (regexec_iff (codes "/targets/" ++ (ds ++ b'/' ∷ [])) ds).1
      (ds ++ b'/' ∷ [], refl, inr (refl, d, omega arith, omega arith)),
  rw (copied_full 12 ds d l) refl,
)

-- Every id below 2 ^ 31 is reached by its own URL.
pub parse_id-url_of_id :
    {S : Type 0} (n : ℕ) (w : World S)
    → n < 2 ^ 31
    → (ds : Bytes) × (regexec (url_of n) ≡ some ds) × (parse_id ds w ≡ some (pos n, w))
parse_id-url_of_id n w h =
    let (ds, e, p) = parse_id-url_of n w (omega arith) in
    (ds, e, p ∙ ap (λ z. some (z, w)) (to_int32_id (pos n) (omega arith)))
