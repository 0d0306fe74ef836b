-- ===== src/Server/Upload/Chunks.antt =====
-- `reachard_handle_upload_data` of src/server/handle.c on a body of one chunk and of two.
use mathlib.Core.Logic.{◌≢◌}
use reachard.Prelude.{
  ℕ, zero, suc, ◌+◌, ◌≤◌, ◌<◌, List, [], ◌∷◌, ◌++◌, Option, none, some, ◌≡◌, refl, sym, ap, ap₂,
  ◌∙◌, arith, length, set, get_elem?, All, length-append, Bool-cases, Option-cases, inl, inr, ltb,
  ltb→lt, ltb→le,
}
use reachard.Text.{Bytes}
use reachard.Server.Connection.{Cell, ConnectionInfo, empty_info}
use reachard.Server.Upload.{resize, overwrite, store, read_string, upload}

-- A text followed by its NUL.
abbrev terminated : Bytes → List Cell
terminated [] = some 0 ∷ []
terminated (c ∷ cs) = some c ∷ terminated cs

fill :
    (a : Bytes) → set (overwrite a (resize (suc (length a)) [])) (length a) (some 0) ≡ terminated a
unfolding overwrite resize
fill [] = refl
fill (c ∷ cs) = ap (◌∷◌ (some c)) (fill cs)

store_first : (a : Bytes) → store none 0 a ≡ terminated a
unfolding store
store_first a =
    let size : 0 + length a + 1 ≡ suc (length a) = omega arith in
    let end : 0 + length a ≡ length a = omega arith in
    ap₂ (λ n i. set (overwrite a (resize n [])) i (some 0)) size end ∙ fill a

read_string-terminated : (a : Bytes) → All (λ c. 0 < c) a → read_string (terminated a) ≡ some a
unfolding read_string
read_string-terminated [] h = refl
read_string-terminated (zero ∷ cs) h = elim h.0 [ ]
read_string-terminated (suc c ∷ cs) h = rw (read_string-terminated cs h.1)

get_elem?-overwrite :
    (bs : Bytes) (cells : List Cell) (j : ℕ)
    → length bs ≤ j
    → j < length cells
    → get_elem? (overwrite bs cells) j ≡ get_elem? cells j
unfolding overwrite
get_elem?-overwrite [] cells j h k = refl
get_elem?-overwrite (b ∷ bs) [] j h k = absurd (omega arith)
get_elem?-overwrite (b ∷ bs) (x ∷ cells) zero h k = absurd (omega arith)
get_elem?-overwrite (b ∷ bs) (x ∷ cells) (suc j) h k =
    get_elem?-overwrite bs cells j (omega arith) (omega arith)

length-resize : (n : ℕ) (cells : List Cell) → length (resize n cells) ≡ n
unfolding resize
length-resize zero cells = refl
length-resize (suc n) [] = ap suc (length-resize n [])
length-resize (suc n) (x ∷ cells) = ap suc (length-resize n cells)

get_elem?-resize_new :
    (n : ℕ) (cells : List Cell) (j : ℕ)
    → length cells ≤ j
    → j < n
    → get_elem? (resize n cells) j ≡ some none
unfolding resize
get_elem?-resize_new zero cells j h k = absurd (omega arith)
get_elem?-resize_new (suc n) [] zero h k = refl
get_elem?-resize_new (suc n) [] (suc j) h k =
    get_elem?-resize_new n [] j (omega arith) (omega arith)
get_elem?-resize_new (suc n) (x ∷ cells) zero h k = absurd (omega arith)
get_elem?-resize_new (suc n) (x ∷ cells) (suc j) h k =
    get_elem?-resize_new n cells j (omega arith) (omega arith)

get_elem?-resize_old :
    (n : ℕ) (cells : List Cell) (j : ℕ)
    → j < length cells
    → j < n
    → get_elem? (resize n cells) j ≡ get_elem? cells j
unfolding resize
get_elem?-resize_old zero cells j h k = absurd (omega arith)
get_elem?-resize_old (suc n) [] j h k = absurd (omega arith)
get_elem?-resize_old (suc n) (x ∷ cells) zero h k = refl
get_elem?-resize_old (suc n) (x ∷ cells) (suc j) h k =
    get_elem?-resize_old n cells j (omega arith) (omega arith)

length-terminated : (a : Bytes) → length (terminated a) ≡ suc (length a)
length-terminated [] = refl
length-terminated (c ∷ cs) = ap suc (length-terminated cs)

get_elem?-terminated : (a : Bytes) → get_elem? (terminated a) (length a) ≡ some (some 0)
get_elem?-terminated [] = refl
get_elem?-terminated (c ∷ cs) = get_elem?-terminated cs

get_elem?-set_ne :
    (cells : List Cell) (i j : ℕ) (v : Cell)
    → i ≢ j
    → get_elem? (set cells i v) j ≡ get_elem? cells j
get_elem?-set_ne [] i j v h = refl
get_elem?-set_ne (x ∷ cells) zero zero v h = absurd (h refl)
get_elem?-set_ne (x ∷ cells) zero (suc j) v h = refl
get_elem?-set_ne (x ∷ cells) (suc i) zero v h = refl
get_elem?-set_ne (x ∷ cells) (suc i) (suc j) v h = get_elem?-set_ne cells i j v (λ e. h (ap suc e))

read_string-suc :
    (c : ℕ) (cells : List Cell) (t : Bytes)
    → read_string (some (suc c) ∷ cells) ≡ some t
    → (u : Bytes) × (read_string cells ≡ some u) × (t ≡ suc c ∷ u)
unfolding read_string
read_string-suc c cells t h = elim (Option-cases (read_string cells)) [
  | inl e ↦ cc
  | inr (u, e) ↦ (u, e, ground arith)
]

-- A string that was read ends before the first byte that is NUL or was never written.
read_string_stops_nul :
    (cells : List Cell) (t : Bytes) (j : ℕ)
    → read_string cells ≡ some t
    → get_elem? cells j ≡ some (some 0)
    → length t ≤ j
unfolding read_string
read_string_stops_nul [] t j h e = cc
read_string_stops_nul (none ∷ cells) t j h e = cc
read_string_stops_nul (some zero ∷ cells) t j h e = ground arith
read_string_stops_nul (some (suc c) ∷ cells) t zero h e = ground arith
read_string_stops_nul (some (suc c) ∷ cells) t (suc j) h e =
    let (u, read, split) = read_string-suc c cells t h in
    omega (arith, ap (λ (x : Bytes). length x) split, read_string_stops_nul cells u j read e)

read_string_stops_unwritten :
    (cells : List Cell) (t : Bytes) (j : ℕ)
    → read_string cells ≡ some t
    → get_elem? cells j ≡ some none
    → length t ≤ j
unfolding read_string
read_string_stops_unwritten [] t j h e = cc
read_string_stops_unwritten (none ∷ cells) t j h e = cc
read_string_stops_unwritten (some zero ∷ cells) t j h e = ground arith
read_string_stops_unwritten (some (suc c) ∷ cells) t zero h e = ground arith
read_string_stops_unwritten (some (suc c) ∷ cells) t (suc j) h e =
    let (u, read, split) = read_string-suc c cells t h in
    omega (arith, ap (λ (x : Bytes). length x) split, read_string_stops_unwritten cells u j read e)

-- The block after two chunks, at the place behind the second one or at the first one's NUL.
store_second :
    (a b : Bytes) (t : Bytes)
    → 0 < length a
    → 0 < length b
    → read_string (store (some (terminated a)) (length a) b) ≡ some t
    → length t < length a + length b
unfolding store
store_second a b t ha hb h =
    let n = length a + length b + 1 in
    let block = resize n (terminated a) in
    elim (Bool-cases (ltb (length a) (length b))) [
      | inl longer ↦
          let lt = ltb→lt (length a) (length b) longer in
          omega (
            arith,
            lt,
            read_string_stops_unwritten _ t (length b) h (
                get_elem?-set_ne _ (length a + length b) (length b) (some 0) (omega arith)
                ∙ get_elem?-overwrite b block (length b) (omega arith)
                    (omega (arith, length-resize n (terminated a)))
                ∙ get_elem?-resize_new n (terminated a) (length b)
                    (omega (arith, length-terminated a)) (omega arith)),
          )
      | inr shorter ↦
          let le = ltb→le (length a) (length b) shorter in
          omega (
            arith,
            le,
            read_string_stops_nul _ t (length a) h (
                get_elem?-set_ne _ (length a + length b) (length a) (some 0) (omega arith)
                ∙ get_elem?-overwrite b block (length a) (omega arith)
                    (omega (arith, length-resize n (terminated a)))
                ∙ get_elem?-resize_old n (terminated a) (length a)
                    (omega (arith, length-terminated a)) (omega arith)
                ∙ get_elem?-terminated a),
          )
    ]

-- The C string that the handlers parse.
abbrev pub body : ConnectionInfo → Option Bytes
body info = elim info.upload_data [ none ↦ none | some cells ↦ read_string cells ]

-- A body of one chunk, with no NUL in it, is the string that the handlers read.
pub body-upload_once :
    (chunk : Bytes) → All (λ c. 0 < c) chunk → body (upload empty_info chunk) ≡ some chunk
unfolding upload
body-upload_once chunk h = rw (store_first chunk) (read_string-terminated chunk h)

-- A body of two chunks, neither empty, is never the string that the handlers read: the second chunk
-- is copied over the first, not behind it.
pub body-upload_twice_ne :
    (a b : Bytes)
    → 0 < length a
    → 0 < length b
    → body (upload (upload empty_info a) b) ≢ some (a ++ b)
unfolding upload
body-upload_twice_ne a b ha hb h =
    let size : length a ≡ 0 + length a = omega arith in
    absurd (
      omega (
        arith,
        length-append a b,
        store_second a b (a ++ b) ha hb
            (ap₂ (λ cells n. read_string (store (some cells) n b)) (sym (store_first a)) size ∙ h),
      ))
