-- ===== src/Database/Targets/Update/Text.antt =====
-- The text of the update query, against the statement that SQL's grammar asks for.
use reachard.Prelude.{
  ℕ, zero, suc, ◌+◌, ◌-◌, List, [], ◌∷◌, ◌++◌, ◌≡◌, refl, ap, ◌∙◌, ℤ, arith, length, set,
  length-append,
}
use mathlib.Core.List.{append_assoc}
use reachard.Text.{Bytes, codes, decimal, print_int}
use reachard.Database.Targets.Update.{
  Key, id, name, url, interval, up, Kv, field_name, assignments, query,
}

-- The column of a field.
abbrev pub column : Key → Bytes
column id = codes "id"
column name = codes "name"
column url = codes "url"
column interval = codes "interval"
column up = codes "up"

field_name-column : (key : Key) → field_name key ≡ column key
field_name-column id = refl
field_name-column name = refl
field_name-column url = refl
field_name-column interval = refl
field_name-column up = refl

-- `name = $1`
abbrev pub assignment : ℕ → Key → Bytes
assignment i key = column key ++ (codes " = $" ++ decimal (i + 1))

-- The assignments, separated by commas.
unfoldable pub set_clause : ℕ → Kv → List Kv → Bytes
set_clause i kv [] = assignment i kv.key
set_clause i kv (kv' ∷ kvs) = assignment i kv.key ++ (codes ", " ++ set_clause (suc i) kv' kvs)

-- `UPDATE targets SET name = $1, url = $2  WHERE id = 3`; the second space stands for the comma.
unfoldable pub update_statement : ℤ → Kv → List Kv → Bytes
unfolding set_clause
update_statement target_id kv kvs =
    codes "UPDATE targets SET "
    ++ (set_clause 0 kv kvs ++ (codes "  WHERE id = " ++ print_int target_id))

assignments-set_clause :
    (text : Bytes) (i : ℕ) (kv : Kv) (kvs : List Kv)
    → assignments text i (kv ∷ kvs) ≡ (text ++ set_clause i kv kvs) ++ codes ", "
unfolding assignments set_clause
assignments-set_clause text i kv [] = rw (field_name-column kv.key) (simp append_assoc)
assignments-set_clause text i kv (kv' ∷ kvs) = rw (field_name-column kv.key) (
    assignments-set_clause
      (text ++ (column kv.key ++ (codes " = $" ++ (decimal (i + 1) ++ codes ", ")))) (suc i) kv' kvs
    ∙ simp append_assoc)

-- The byte at the length of the front part is the first of the rest.
set-append :
    (xs : Bytes) (a b : ℕ) (ys : Bytes) (i : ℕ)
    → i ≡ length xs
    → set (xs ++ (a ∷ ys)) i b ≡ xs ++ (b ∷ ys)
set-append [] a b ys zero h = refl
set-append [] a b ys (suc i) h = absurd (omega arith)
set-append (x ∷ xs) a b ys zero h = absurd (omega arith)
set-append (x ∷ xs) a b ys (suc i) h = ap (◌∷◌ x) (set-append xs a b ys i (omega arith))

-- The write two bytes before the end hits the comma.
overwrite_comma :
    (xs : Bytes) → set (xs ++ codes ", ") (length (xs ++ codes ", ") - 2) 32 ≡ xs ++ codes "  "
overwrite_comma xs = set-append xs 44 32 (32 ∷ []) _ (omega (arith, length-append xs (codes ", ")))

-- With at least one pair the code sends the statement that is meant, one assignment per pair with
-- commas between: overwriting the last comma leaves the separators and the space before WHERE.
pub query-update_statement :
    (target_id : ℤ) (kv : Kv) (kvs : List Kv)
    → query target_id (kv ∷ kvs) ≡ update_statement target_id kv kvs
unfolding query update_statement
query-update_statement target_id kv kvs =
    rw (assignments-set_clause (codes "UPDATE targets SET ") 0 kv kvs) (
      rw (overwrite_comma (codes "UPDATE targets SET " ++ set_clause 0 kv kvs)) (simp append_assoc))

-- With no pair the write lands on the T of SET, and the text is no SQL.
pub query-nil :
    (target_id : ℤ)
    → query target_id [] ≡ codes "UPDATE targets SE  WHERE id = " ++ print_int target_id
unfolding query assignments
query-nil target_id = refl
