-- ===== src/Tests/Updates.antt =====
-- The UPDATE statement read back, for the table in memory: the columns that it sets, with the
-- values of its parameters, and the id behind WHERE.
use mathlib.Core.List.{append-nil}
use reachard.Prelude.{
  ℕ, suc, ◌+◌, true, false, List, [], ◌∷◌, ◌++◌, Option, none, some, ◌≡◌, refl, sym, ap, ◌∙◌, ℤ,
  pos, All, map, ◌==◌, ==_iff, negsuc, Bool-cases, inl, inr, if◌then◌else◌,
}
use mathlib.Core.List.{append_assoc}
use reachard.Text.{
  Bytes, CString, codes, is_digit, same, atoi, decimal, print_int, digits_value, signed_value,
  skip_spaces, negate,
}
use reachard.Text.Decimal.{
  decimal-digits, decimal-ne_nil, digits_value-decimal, signed_value-skip_spaces-digits,
}
use reachard.Database.Targets.Update.{
  Key, id, name, url, interval, up, Value, string, number, boolean, Kv, field_name,
}
use reachard.Database.Targets.Update.Text.{assignment, set_clause, update_statement}
use reachard.Database.Targets.Update.Params.{text_of, HasType, IsTyped}
use reachard.Database.Table.{Row, InRange, same_id, set_column, set_columns, update_rows}
use reachard.Database.Refines.Rows.{atoi-print}

-- The rest of a text behind a literal.
abbrev pub behind : Bytes → Bytes → Option Bytes
behind [] s = some s
behind (c ∷ cs) [] = none
behind (c ∷ cs) (x ∷ s) = let rest = behind cs s in if c == x then rest else none

behind-append : (p s : Bytes) → behind p (p ++ s) ≡ some s
behind-append [] s = refl
behind-append (c ∷ p) s = rw ((==_iff c c).1 refl) (behind-append p s)

-- The rest of a text behind its digits.
unfoldable pub behind_digits : Bytes → Bytes
behind_digits [] = []
behind_digits (c ∷ s) = let rest = behind_digits s in if is_digit c then rest else c ∷ s

behind_digits-append :
    (ds : Bytes) (c : ℕ) (s : Bytes)
    → All (λ d. is_digit d ≡ true) ds
    → is_digit c ≡ false
    → behind_digits (ds ++ c ∷ s) ≡ c ∷ s
unfolding behind_digits
behind_digits-append [] c s h e = rw e refl
behind_digits-append (d ∷ ds) c s h e = rw h.0 (behind_digits-append ds c s h.1 e)

abbrev or_else {ℓ} : {A : Type ℓ} → Option A → Option A → Option A
or_else none o = o
or_else (some a) o = some a

abbrev with_key : Key → Option Bytes → Option (Key × Bytes)
with_key key none = none
with_key key (some rest) = some (key, rest)

-- The column of an assignment, and the text behind its `$`.
abbrev column_of : Key → Bytes → Option (Key × Bytes)
column_of key s = with_key key (behind (field_name key ++ codes " = $") s)

unfoldable pub column : Bytes → Option (Key × Bytes)
column s = or_else (column_of id s) (
    or_else (column_of name s)
      (or_else (column_of url s) (or_else (column_of interval s) (column_of up s))))

column-field_name :
    (key : Key) (s : Bytes) → column (field_name key ++ (codes " = $" ++ s)) ≡ some (key, s)
unfolding column
column-field_name id s = refl
column-field_name name s = refl
column-field_name url s = refl
column-field_name interval s = refl
column-field_name up s = refl

unfoldable pub value_of : Key → CString → Value
value_of key none = string none
value_of id (some text) = number (atoi text)
value_of name (some text) = string (some text)
value_of url (some text) = string (some text)
value_of interval (some text) = number (atoi text)
value_of up (some text) = boolean (same text (codes "t"))

value_of-text_of :
    (key : Key) (value : Value) → HasType key value → value_of key (text_of value) ≡ value
unfolding value_of
value_of-text_of id (number n) h = ap number (atoi-print n h)
value_of-text_of interval (number n) h = ap number (atoi-print n h)
value_of-text_of name (string none) h = refl
value_of-text_of name (string (some s)) h = refl
value_of-text_of url (string none) h = refl
value_of-text_of url (string (some s)) h = refl
value_of-text_of up (boolean true) h = refl
value_of-text_of up (boolean false) h = refl
value_of-text_of _ _ h = elim h [ ]

abbrev where_clause : Bytes
where_clause = codes "  WHERE id = "

abbrev add_pair : Kv → Option (List Kv × Bytes) → Option (List Kv × Bytes)
add_pair kv none = none
add_pair kv (some (kvs, rest)) = some (kv ∷ kvs, rest)

-- What follows a pair: the id, or the next pair.
abbrev end_or :
    (Bytes → Option (List Kv × Bytes)) → Kv → Option Bytes → Option Bytes → Option (List Kv × Bytes)
end_or more kv (some text) _ = some (kv ∷ [], text)
end_or more kv none (some next) = add_pair kv (more next)
end_or more kv none none = none

abbrev behind_pair : (Bytes → Option (List Kv × Bytes)) → Kv → Bytes → Option (List Kv × Bytes)
behind_pair more kv tail = end_or more kv (behind where_clause tail) (behind (codes ", ") tail)

abbrev read_pair :
    (Bytes → Option (List Kv × Bytes)) → CString → Option (Key × Bytes) → Option (List Kv × Bytes)
read_pair more v none = none
read_pair more v (some (key, rest)) =
    behind_pair more (record { key = key; value = value_of key v }) (behind_digits rest)

-- The pairs behind SET, one for each parameter, and the text of the id.
abbrev pub read_set : List CString → Bytes → Option (List Kv × Bytes)
read_set [] s = none
read_set (v ∷ vs) s = read_pair (read_set vs) v (column s)

column-assignment :
    (i : ℕ) (key : Key) (s : Bytes)
    → column (assignment i key ++ s) ≡ some (key, decimal (i + 1) ++ s)
column-assignment i key s =
    ap column (
      append_assoc (field_name key) (codes " = $" ++ decimal (i + 1)) s
      ∙ ap (λ rest. field_name key ++ rest) (append_assoc (codes " = $") (decimal (i + 1)) s))
    ∙ column-field_name key (decimal (i + 1) ++ s)

-- A pair with the text behind its digits, which starts with `c`.
read_set-assignment :
    (i : ℕ) (kv : Kv) (vs : List CString) (c : ℕ) (s : Bytes)
    → IsTyped kv
    → is_digit c ≡ false
    → read_set (text_of kv.value ∷ vs) (assignment i kv.key ++ c ∷ s)
      ≡ behind_pair (read_set vs) kv (c ∷ s)
read_set-assignment i kv vs c s t e =
    ap (read_pair (read_set vs) (text_of kv.value)) (column-assignment i kv.key (c ∷ s))
    ∙ ap
        (λ tail.
          behind_pair (read_set vs)
            (record { key = kv.key; value = value_of kv.key (text_of kv.value) }) tail)
        (behind_digits-append (decimal (i + 1)) c s (decimal-digits (i + 1)) e)
    ∙ ap (λ x. behind_pair (read_set vs) (record { key = kv.key; value = x }) (c ∷ s))
        (value_of-text_of kv.key kv.value t)

read_set-set_clause :
    (i : ℕ) (kv : Kv) (kvs : List Kv) (text : Bytes)
    → All IsTyped (kv ∷ kvs)
    → read_set
        (map (λ x. text_of x.value) (kv ∷ kvs))
        (set_clause i kv kvs ++ (where_clause ++ text))
      ≡ some (kv ∷ kvs, text)
unfolding set_clause
read_set-set_clause i kv [] text t =
    read_set-assignment i kv [] 32 (codes " WHERE id = " ++ text) t.0 refl
read_set-set_clause i kv (kv' ∷ kvs) text t =
    let vs = map (λ (x : Kv). text_of x.value) (kv' ∷ kvs) in
    let rest = set_clause (suc i) kv' kvs ++ (where_clause ++ text) in
    ap (read_set (text_of kv.value ∷ vs)) (
      append_assoc (assignment i kv.key) (codes ", " ++ set_clause (suc i) kv' kvs)
        (where_clause ++ text))
    ∙ read_set-assignment i kv vs 44 (32 ∷ rest) t.0 refl
    ∙ ap (add_pair kv) (read_set-set_clause (suc i) kv' kvs text t.1)

-- A number in decimal, of any size.
unfoldable pub int_of : Bytes → ℤ
int_of text = signed_value (skip_spaces text)

digits_value-decimal_alone : (n : ℕ) → digits_value 0 (decimal n) ≡ n
digits_value-decimal_alone n =
    ap (digits_value 0) (sym (append-nil (decimal n))) ∙ digits_value-decimal n [] tt

int_of-print_int : (k : ℤ) → int_of (print_int k) ≡ k
unfolding int_of print_int signed_value skip_spaces
int_of-print_int (pos n) =
    ap int_of (sym (append-nil (decimal n)))
    ∙ signed_value-skip_spaces-digits (decimal n) [] (decimal-digits n) (decimal-ne_nil n)
    ∙ ap pos (digits_value-decimal n [] tt)
int_of-print_int (negsuc n) = ap negate (digits_value-decimal_alone (suc n))

-- An UPDATE statement: the rows that it leaves, or none where it is not understood.
abbrev pub run_set : Option (List Kv × Bytes) → List Row → Option (List Row)
run_set none rows = none
run_set (some (kvs, text)) rows = some (update_rows (int_of text) kvs rows)

abbrev pub read_statement : List CString → Option Bytes → Option (List Kv × Bytes)
read_statement vs none = none
read_statement vs (some s) = read_set vs s

abbrev pub update_rows_by : Bytes → List CString → List Row → Option (List Row)
update_rows_by q vs rows = run_set (read_statement vs (behind (codes "UPDATE targets SET ") q)) rows

pub update_rows_by-update_statement :
    (k : ℤ) (kv : Kv) (kvs : List Kv) (rows : List Row)
    → All IsTyped (kv ∷ kvs)
    → update_rows_by (update_statement k kv kvs) (map (λ x. text_of x.value) (kv ∷ kvs)) rows
      ≡ some (update_rows k (kv ∷ kvs) rows)
unfolding update_statement
update_rows_by-update_statement k kv kvs rows t =
    ap (λ o. run_set o rows) (read_set-set_clause 0 kv kvs (print_int k) t)
    ∙ ap (λ z. some (update_rows z (kv ∷ kvs) rows)) (int_of-print_int k)

set_column-InRange :
    (key : Key) (value : Value) (r : Row)
    → HasType key value
    → InRange r
    → InRange (set_column key value r)
set_column-InRange id (number n) r t h = (t, h.1)
set_column-InRange interval (number n) r t h = (h.0, t)
set_column-InRange name (string none) r t h = h
set_column-InRange name (string (some s)) r t h = h
set_column-InRange url (string none) r t h = h
set_column-InRange url (string (some s)) r t h = h
set_column-InRange up (boolean b) r t h = h
set_column-InRange _ _ r t h = h

set_columns-InRange :
    (kvs : List Kv) (r : Row) → All IsTyped kvs → InRange r → InRange (set_columns kvs r)
set_columns-InRange [] r t h = h
set_columns-InRange (kv ∷ kvs) r t h =
    set_columns-InRange kvs (set_column kv.key kv.value r) t.1
      (set_column-InRange kv.key kv.value r t.0 h)

pub update_rows-InRange :
    (k : ℤ) (kvs : List Kv) (rows : List Row)
    → All IsTyped kvs
    → All InRange rows
    → All InRange (update_rows k kvs rows)
update_rows-InRange k kvs [] t h = tt
update_rows-InRange k kvs (r ∷ rows) t h = elim (Bool-cases (same_id r.id k)) [
  | inl e ↦ rw e (set_columns-InRange kvs r t h.0, update_rows-InRange k kvs rows t h.1)
  | inr e ↦ rw e (h.0, update_rows-InRange k kvs rows t h.1)
]
