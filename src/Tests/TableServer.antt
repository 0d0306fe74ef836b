-- ===== src/Tests/TableServer.antt =====
-- A server that keeps the table in memory, to show that the assumptions of Database.Table can be
-- met. It answers any other query without parameters with the row 1, the version of its schema.
use reachard.Prelude.{
  ℕ, suc, ◌<◌, Bool, true, false, List, [], ◌∷◌, ◌++◌, some, ◌≡◌, ◌↔◌, refl, sym, ap, ◌∙◌, arith, ℤ,
  pos, negsuc, IsInt32, to_int32, to_int32_id, to_int32-IsInt32, All, map, ltb, ltb→lt, Option,
  none, if◌then◌else◌, Bool-cases, inl, inr,
}
use reachard.Text.{Bytes, CString, codes, same, atoi, print_int}
use reachard.System.{Postgres, PgResult, command_ok, tuples_ok, failed, is_tuples_ok, is_command_ok}
use reachard.Database.Targets.{insert_query, delete_query, select_query, select_all_query}
use reachard.Database.Targets.Update.{
  Key, id, name, url, interval, up, Value, string, number, boolean, Kv,
}
use reachard.Database.Targets.Update.Text.{update_statement}
use reachard.Database.Targets.Update.Params.{text_of, IsTyped}
use reachard.Database.Table.{
  Row, InRange, encode_row, same_id, with_id, without_id, update_rows, stored_value, stored,
  IsTable,
}
use reachard.Database.Refines.Rows.{atoi-print}
use reachard.Tests.Updates.{update_rows_by, update_rows_by-update_statement, update_rows-InRange}

abbrev pub narrow : Row → Row
narrow r = record r { id = to_int32 r.id; interval = to_int32 r.interval }

abbrev pub table : List Row → List Row
table = map narrow

abbrev pub rows_with : Bytes → List Row → List Row
rows_with text [] = []
rows_with text (r ∷ rs) =
    let rest = rows_with text rs in if same (print_int r.id) text then r ∷ rest else rest

abbrev pub rows_without : Bytes → List Row → List Row
rows_without text [] = []
rows_without text (r ∷ rs) =
    let rest = rows_without text rs in if same (print_int r.id) text then rest else r ∷ rest

abbrev pub larger : ℤ → ℕ → ℕ
larger (pos n) m = if ltb m n then n else m
larger (negsuc n) m = m

abbrev pub max_id : List Row → ℕ
max_id [] = 0
max_id (r ∷ rs) = larger r.id (max_id rs)

abbrev pub next_id : List Row → ℤ
next_id rows = pos (suc (max_id (table rows)))

abbrev refuse : List Row → PgResult × List Row
refuse rows = (record { status = failed; rows = [] }, rows)

abbrev run_select : List CString → List Row → PgResult × List Row
run_select (some text ∷ []) rows =
    (record { status = tuples_ok; rows = map encode_row (rows_with text (table rows)) }, rows)
run_select _ rows = refuse rows

abbrev run_delete : List CString → List Row → PgResult × List Row
run_delete (some text ∷ []) rows =
    (record { status = command_ok; rows = [] }, rows_without text (table rows))
run_delete _ rows = refuse rows

abbrev pub run_insert : List CString → List Row → PgResult × List Row
run_insert (some n ∷ some u ∷ some i ∷ []) rows =
    if ltb (suc (max_id (table rows))) 2147483648
    then (
      record { status = tuples_ok; rows = (print_int (next_id rows) ∷ []) ∷ [] },
      table rows
          ++ record { id = next_id rows; name = n; url = u; interval = atoi i; up = true } ∷ [],
    )
    else refuse rows
run_insert _ rows = refuse rows

abbrev run_update : Option (List Row) → List Row → PgResult × List Row
run_update none rows = refuse rows
run_update (some changed) rows = (record { status = command_ok; rows = [] }, changed)

abbrev pub table_server : Postgres
table_server = record {
  Server = List Row;
  connects = λ connstring rows. true;
  exec = λ conn q rows.
      if same q select_all_query
      then (record { status = tuples_ok; rows = map encode_row (table rows) }, rows)
      else (record { status = tuples_ok; rows = (codes "1" ∷ []) ∷ [] }, rows);
  exec_params = λ conn q vs rows.
      if same q select_query
      then run_select vs rows
      else if same q delete_query
      then run_delete vs rows
      else if same q insert_query
      then run_insert vs rows
      else run_update (update_rows_by q vs (table rows)) rows;
}

same_iff : (a b : Bytes) → (same a b ≡ true) ↔ (a ≡ b)
same_iff (x ∷ a) (y ∷ b) = ground (arith, same_iff a b)
same_iff _ _ = ground arith

same_id_iff : (a b : ℤ) → (same_id a b ≡ true) ↔ (a ≡ b)
same_id_iff (pos a) (pos b) = ground arith
same_id_iff (negsuc a) (negsuc b) = ground arith
same_id_iff (pos a) (negsuc b) = ground arith
same_id_iff (negsuc a) (pos b) = ground arith

eq_of_iff : (x y : Bool) → (x ≡ true → y ≡ true) → (y ≡ true → x ≡ true) → x ≡ y
eq_of_iff true y f g = sym (f refl)
eq_of_iff false true f g = g refl
eq_of_iff false false f g = refl

same-print_int : (a b : ℤ) → IsInt32 a → IsInt32 b → same (print_int a) (print_int b) ≡ same_id a b
same-print_int a b h k =
    eq_of_iff (same (print_int a) (print_int b)) (same_id a b)
      (λ e. (same_id_iff a b).1 (
        sym (atoi-print a h)
        ∙ ap atoi ((same_iff (print_int a) (print_int b)).0 e)
        ∙ atoi-print b k))
      (λ e. (same_iff (print_int a) (print_int b)).1 (ap print_int ((same_id_iff a b).0 e)))

pub rows_with-with_id :
    (k : ℤ) (rows : List Row)
    → IsInt32 k
    → All InRange rows
    → rows_with (print_int k) rows ≡ with_id k rows
rows_with-with_id k [] h all = refl
rows_with-with_id k (r ∷ rs) h all =
    rw (same-print_int r.id k all.0.0 h, rows_with-with_id k rs h all.1) refl

rows_without-without_id :
    (k : ℤ) (rows : List Row)
    → IsInt32 k
    → All InRange rows
    → rows_without (print_int k) rows ≡ without_id k rows
rows_without-without_id k [] h all = refl
rows_without-without_id k (r ∷ rs) h all =
    rw (same-print_int r.id k all.0.0 h, rows_without-without_id k rs h all.1) refl

pub table-InRange : (rows : List Row) → All InRange (table rows)
table-InRange [] = tt
table-InRange (r ∷ rs) = ((to_int32-IsInt32 r.id, to_int32-IsInt32 r.interval), table-InRange rs)

table_id : (rows : List Row) → All InRange rows → table rows ≡ rows
table_id [] h = refl
table_id (r ∷ rs) h =
    rw (to_int32_id r.id h.0.0, to_int32_id r.interval h.0.1, table_id rs h.1) refl

without_id-InRange : (k : ℤ) (rows : List Row) → All InRange rows → All InRange (without_id k rows)
without_id-InRange k [] h = tt
without_id-InRange k (r ∷ rs) h = ground (arith, without_id-InRange k rs h.1)

append-InRange :
    (rows : List Row) (r : Row) → All InRange rows → InRange r → All InRange (rows ++ r ∷ [])
append-InRange [] r h k = (k, tt)
append-InRange (x ∷ rows) r h k = (h.0, append-InRange rows r h.1 k)

pub with_id_above : (m : ℕ) (rows : List Row) → max_id rows < m → with_id (pos m) rows ≡ []
with_id_above m [] h = refl
with_id_above m (r ∷ rs) h = ground (arith, with_id_above m rs)

pub delete-table :
    (rows : List Row) (k : ℤ)
    → IsInt32 k
    → table (rows_without (print_int k) (table rows)) ≡ without_id k (table rows)
delete-table rows k h =
    rw (rows_without-without_id k (table rows) h (table-InRange rows))
      (table_id _ (without_id-InRange k (table rows) (table-InRange rows)))

insert-table :
    (rows : List Row) (n u : Bytes) (i : ℤ)
    → IsInt32 i
    → IsInt32 (next_id rows)
    → table (
        table rows
        ++ record { id = next_id rows; name = n; url = u; interval = atoi (print_int i); up = true }
          ∷ [])
      ≡ table rows ++ record { id = next_id rows; name = n; url = u; interval = i; up = true } ∷ []
insert-table rows n u i h k =
    rw (atoi-print i h) (table_id _ (append-InRange (table rows) _ (table-InRange rows) (k, h)))

pub insert_done-table :
    (rows : List Row) (n u : Bytes) (i : ℤ)
    → IsInt32 i
    → let r = run_insert (some n ∷ some u ∷ some (print_int i) ∷ []) rows in
      is_tuples_ok r.0.status ≡ true
      → (r.0.rows ≡ (print_int (next_id rows) ∷ []) ∷ [])
        × IsInt32 (next_id rows)
        × (table r.1
            ≡ table rows
              ++ record { id = next_id rows; name = n; url = u; interval = i; up = true } ∷ [])
insert_done-table rows n u i h = elim (Bool-cases (ltb (suc (max_id (table rows))) 2147483648)) [
  | inl e ↦
      let k = ltb→lt (suc (max_id (table rows))) 2147483648 e in
      rw e (λ ok. (refl, k, insert-table rows n u i h k))
  | inr e ↦ rw e (λ ok. cc)
]

pub insert_failed-table :
    (rows : List Row) (n u : Bytes) (i : ℤ)
    → let r = run_insert (some n ∷ some u ∷ some (print_int i) ∷ []) rows in
      is_tuples_ok r.0.status ≡ false → table r.1 ≡ table rows
insert_failed-table rows n u i = elim (Bool-cases (ltb (suc (max_id (table rows))) 2147483648)) [
  | inl e ↦ rw e (λ ok. cc)
  | inr e ↦ rw e (λ ok. refl)
]

exec_params-update_statement :
    (conn : ℕ) (rows : List Row) (k : ℤ) (kv : Kv) (kvs : List Kv)
    → All IsTyped (kv ∷ kvs)
    → table_server.exec_params conn
        (update_statement k kv kvs)
        (map (λ x. text_of x.value) (kv ∷ kvs))
        rows
      ≡ (record { status = command_ok; rows = [] }, update_rows k (kv ∷ kvs) (table rows))
unfolding update_statement
exec_params-update_statement conn rows k kv kvs t =
    ap (λ changed. run_update changed rows)
      (update_rows_by-update_statement k kv kvs (table rows) t)

pub update_done-table :
    (conn : ℕ) (rows : List Row) (k : ℤ) (kv : Kv) (kvs : List Kv)
    → All IsTyped (kv ∷ kvs)
    → let r =
        table_server.exec_params conn
          (update_statement k kv kvs)
          (map (λ x. text_of x.value) (kv ∷ kvs))
          rows in
      table r.1
      ≡ (if is_command_ok r.0.status then update_rows k (kv ∷ kvs) (table rows) else table rows)
update_done-table conn rows k kv kvs t =
    let changed = update_rows k (kv ∷ kvs) (table rows) in
    rw (exec_params-update_statement conn rows k kv kvs t)
      (table_id changed (update_rows-InRange k (kv ∷ kvs) (table rows) t (table-InRange rows)))

stored_value_same : (key : Key) (v : Value) → stored_value (λ s. s) key v ≡ v
stored_value_same id v = refl
stored_value_same name (string none) = refl
stored_value_same name (string (some s)) = refl
stored_value_same name (number n) = refl
stored_value_same name (boolean b) = refl
stored_value_same url v = refl
stored_value_same interval v = refl
stored_value_same up v = refl

pub map-stored : (kvs : List Kv) → map (stored (λ s. s)) kvs ≡ kvs
map-stored [] = refl
map-stored (kv ∷ kvs) =
    rw (map-stored kvs)
      (ap (λ v. record { key = kv.key; value = v } ∷ kvs) (stored_value_same kv.key kv.value))

abbrev pub table_laws : (conn : ℕ) → IsTable table_server conn
table_laws conn = record {
  view = table;
  next = next_id;
  keep_name = λ s. s;
  keep_short = λ s h. refl;
  in_range = table-InRange;
  next_fresh = λ rows. with_id_above (suc (max_id (table rows))) (table rows) (omega arith);
  select_rows =
      λ rows k h _. ap (map encode_row) (rows_with-with_id k (table rows) h (table-InRange rows));
  select_view = λ rows k. refl;
  select_all_rows = λ rows _. refl;
  select_all_view = λ rows. refl;
  delete_done = λ rows k h. delete-table rows k h;
  insert_done = insert_done-table;
  insert_failed = λ rows n u i h. insert_failed-table rows n u i;
  update_done = λ rows k kv kvs ty di fr.
      rw (map-stored (kv ∷ kvs)) (update_done-table conn rows k kv kvs ty);
}
