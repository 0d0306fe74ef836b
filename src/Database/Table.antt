-- ===== src/Database/Table.antt =====
-- What the queries rely on: the table `targets` of src/database/migrations, as PostgreSQL
-- documents the five statements of src/database/targets.c on it.
use reachard.Prelude.{
  ℕ, Bool, true, false, List, [], ◌∷◌, ◌++◌, Option, none, some, ◌≡◌, ℤ, pos, negsuc, IsInt32, All,
  map, ◌==◌, if◌then◌else◌, ◌≤◌, length,
}
use reachard.Text.{Bytes, codes, print_int}
use reachard.System.{Postgres, is_tuples_ok, is_command_ok}
use reachard.Database.Targets.{Target, insert_query, delete_query, select_query, select_all_query}
use reachard.Database.Targets.Update.{
  Key, id, name, url, interval, up, Value, string, number, boolean, Kv,
}
use reachard.Database.Targets.Update.Text.{update_statement}
use reachard.Database.Targets.Update.Params.{text_of, IsTyped, IsFresh, IsDistinct}

-- A row of the table. No column is NULL.
pub record Row : Type 0 where
  pub id : ℤ
  pub name : Bytes
  pub url : Bytes
  pub interval : ℤ
  pub up : Bool

-- The columns hold 32-bit integers.
abbrev pub InRange : Row → Type 0
InRange r = IsInt32 r.id × IsInt32 r.interval

-- A row in text format.
abbrev pub encode_row : Row → List Bytes
encode_row r =
    print_int r.id
    ∷ r.name
    ∷ r.url
    ∷ print_int r.interval
    ∷ (if r.up then codes "t" else codes "f")
    ∷ []

abbrev pub target_of : Row → Target
target_of r = record {
  id = r.id;
  name = some r.name;
  url = some r.url;
  interval = r.interval;
  up = r.up;
}

abbrev pub same_id : ℤ → ℤ → Bool
same_id (pos a) (pos b) = a == b
same_id (negsuc a) (negsuc b) = a == b
same_id (pos a) (negsuc b) = false
same_id (negsuc a) (pos b) = false

-- The rows with an id, and the others.
abbrev pub with_id : ℤ → List Row → List Row
with_id k [] = []
with_id k (r ∷ rs) = let rest = with_id k rs in if same_id r.id k then r ∷ rest else rest

abbrev pub without_id : ℤ → List Row → List Row
without_id k [] = []
without_id k (r ∷ rs) = let rest = without_id k rs in if same_id r.id k then rest else r ∷ rest

abbrev pub first : List Row → Option Row
first [] = none
first (r ∷ rs) = some r

-- The row with a key.
abbrev pub find : ℤ → List Row → Option Row
find k rows = first (with_id k rows)

-- A column set to a value of its type.
abbrev pub set_column : Key → Value → Row → Row
set_column id (number n) r = record r { id = n }
set_column name (string (some s)) r = record r { name = s }
set_column url (string (some s)) r = record r { url = s }
set_column interval (number n) r = record r { interval = n }
set_column up (boolean b) r = record r { up = b }
set_column _ _ r = r

abbrev pub set_columns : List Kv → Row → Row
set_columns [] r = r
set_columns (kv ∷ kvs) r = set_columns kvs (set_column kv.key kv.value r)

abbrev pub update_rows : ℤ → List Kv → List Row → List Row
update_rows k kvs [] = []
update_rows k kvs (r ∷ rs) =
    (if same_id r.id k then set_columns kvs r else r) ∷ update_rows k kvs rs

-- A value as its column keeps it, where `keep` is what the column `name` keeps of a text.
abbrev pub stored_value : (Bytes → Bytes) → Key → Value → Value
stored_value keep id v = v
stored_value keep name (string none) = string none
stored_value keep name (string (some s)) = string (some (keep s))
stored_value keep name (number n) = number n
stored_value keep name (boolean b) = boolean b
stored_value keep url v = v
stored_value keep interval v = v
stored_value keep up v = v

abbrev pub stored : (Bytes → Bytes) → Kv → Kv
stored keep kv = record { key = kv.key; value = stored_value keep kv.key kv.value }

-- The behaviour of the server on a connection whose search path has the schema `reachard`. A
-- statement may fail for reasons of the server's own; it then changes no row.
pub record IsTable (pg : Postgres) (conn : ℕ) : Type 0 where
  -- the rows in the order of their ids
  pub view : pg.Server → List Row
  -- the id that the sequence gives next
  pub next : pg.Server → ℤ
  -- what a statement that is taken leaves of a name: the column is a VARCHAR(255), and PostgreSQL
  -- cuts spaces off the end of a longer text
  pub keep_name : Bytes → Bytes
  pub keep_short : (s : Bytes) → length s ≤ 255 → keep_name s ≡ s
  pub in_range : (s : pg.Server) → All InRange (view s)
  pub next_fresh : (s : pg.Server) → with_id (next s) (view s) ≡ []
  pub select_rows :
      (s : pg.Server) (k : ℤ)
      → IsInt32 k
      → let r = pg.exec_params conn select_query (some (print_int k) ∷ []) s in
        is_tuples_ok r.0.status ≡ true → r.0.rows ≡ map encode_row (with_id k (view s))
  pub select_view :
      (s : pg.Server) (k : ℤ)
      → view (pg.exec_params conn select_query (some (print_int k) ∷ []) s).1 ≡ view s
  pub select_all_rows :
      (s : pg.Server)
      → let r = pg.exec conn select_all_query s in
        is_tuples_ok r.0.status ≡ true → r.0.rows ≡ map encode_row (view s)
  pub select_all_view : (s : pg.Server) → view (pg.exec conn select_all_query s).1 ≡ view s
  pub delete_done :
      (s : pg.Server) (k : ℤ)
      → IsInt32 k
      → let r = pg.exec_params conn delete_query (some (print_int k) ∷ []) s in
        view r.1 ≡ (if is_command_ok r.0.status then without_id k (view s) else view s)
  -- the new row takes the next id, and `up` its default
  pub insert_done :
      (s : pg.Server) (n u : Bytes) (i : ℤ)
      → IsInt32 i
      → let r = pg.exec_params conn insert_query (some n ∷ some u ∷ some (print_int i) ∷ []) s in
        is_tuples_ok r.0.status ≡ true
        → (r.0.rows ≡ (print_int (next s) ∷ []) ∷ [])
          × IsInt32 (next s)
          × (view r.1
              ≡ view s
                ++ record { id = next s; name = keep_name n; url = u; interval = i; up = true }
                  ∷ [])
  pub insert_failed :
      (s : pg.Server) (n u : Bytes) (i : ℤ)
      → IsInt32 i
      → let r = pg.exec_params conn insert_query (some n ∷ some u ∷ some (print_int i) ∷ []) s in
        is_tuples_ok r.0.status ≡ false → view r.1 ≡ view s
  pub update_done :
      (s : pg.Server) (k : ℤ) (kv : Kv) (kvs : List Kv)
      → All IsTyped (kv ∷ kvs)
      → IsDistinct (kv ∷ kvs)
      → IsFresh id (kv ∷ kvs)
      → let r =
          pg.exec_params conn
            (update_statement k kv kvs)
            (map (λ x. text_of x.value) (kv ∷ kvs))
            s in
        view r.1 ≡ (
          if is_command_ok r.0.status
          then update_rows k (map (stored keep_name) (kv ∷ kvs)) (view s)
          else view s)
