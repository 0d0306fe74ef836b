-- ===== src/Database/Targets.antt =====
-- src/database/targets.c and src/database/targets.h: the queries on the table of targets, and
-- src/database/macros.c: the text format of their values.
pub mod Update
use reachard.Prelude.{
  ℕ, zero, suc, ◌+◌, Bool, true, false, List, [], ◌∷◌, ◌++◌, Option, none, some, ℤ, pos, ◌==◌,
  if◌then◌else◌,
}
use reachard.Text.{Bytes, CString, codes, atoi, snprintf_int}
use reachard.System.{
  Postgres, PgResult, M, pure, fault, ◌>>=◌, ◌>>◌, is_tuples_ok, is_command_ok, pq_exec,
  pq_exec_params, pq_clear, pq_getvalue, allocate, strdup, free_string, free_block,
}
use reachard.Database.{Db}

-- `struct reachard_db_target`, the fields of `FOR_FIELDS`.
pub record Target : Type 0 where
  pub id : ℤ
  pub name : CString
  pub url : CString
  pub interval : ℤ
  pub up : Bool

-- `reachard_db_target_init`: what `memset` and the two assignments leave.
unfoldable pub target_init : Target
target_init = record { id = pos 0; name = none; url = none; interval = pos 5; up = true }

module _ {S : Type 0} where
  -- `parse_string`
  unfoldable pub parse_string : PgResult → ℕ → ℕ → M S CString
  unfolding strdup
  parse_string res col row = strdup (pq_getvalue res col row)

  atoi_or_fault : CString → M S ℤ
  unfolding atoi
  atoi_or_fault none = fault
  atoi_or_fault (some s) = pure (atoi s)

  -- `parse_number`
  unfoldable pub parse_number : PgResult → ℕ → ℕ → M S ℤ
  unfolding atoi_or_fault
  parse_number res col row = atoi_or_fault (pq_getvalue res col row)

  first_is_t : CString → M S Bool
  first_is_t none = fault
  first_is_t (some []) = pure false
  first_is_t (some (c ∷ cs)) = pure (c == b't')

  -- `parse_boolean`; the first byte of an empty text is its NUL.
  unfoldable pub parse_boolean : PgResult → ℕ → ℕ → M S Bool
  unfolding first_is_t
  parse_boolean res col row = first_is_t (pq_getvalue res col row)

  -- `parse_target`: a call for each field, in the order of `FOR_FIELDS`.
  unfoldable pub parse_target : PgResult → ℕ → M S Target
  unfolding parse_number parse_string parse_boolean
  parse_target res col = do
    id ← parse_number res col 0
    name ← parse_string res col 1
    url ← parse_string res col 2
    interval ← parse_number res col 3
    up ← parse_boolean res col 4
    pure (record { id = id; name = name; url = url; interval = interval; up = up })

  -- `reachard_db_target_free`
  unfoldable pub target_free : Target → M S (Unit {0})
  unfolding free_string
  target_free target = do free_string target.name; free_string target.url

  unfoldable pub free_each : List Target → M S (Unit {0})
  unfolding target_free
  free_each [] = pure tt
  free_each (target ∷ targets) = do target_free target; free_each targets

  -- the block of the array, which is null where there are no targets
  unfoldable pub free_array : List Target → M S (Unit {0})
  unfolding free_block
  free_array [] = pure tt
  free_array (_ ∷ _) = free_block

  -- `reachard_db_targets_free`
  unfoldable pub targets_free : List Target → M S (Unit {0})
  unfolding free_each free_array
  targets_free targets = do free_each targets; free_array targets

  -- the loop of `reachard_db_targets_get_all`, from row `i` for `n` rows
  unfoldable pub parse_rows : PgResult → ℕ → ℕ → M S (List Target)
  parse_rows res i zero = pure []
  parse_rows res i (suc n) = do
    target ← parse_target res i
    targets ← parse_rows res (suc i) n
    pure (target ∷ targets)

abbrev pub insert_query : Bytes
insert_query = codes "INSERT INTO targets\nVALUES (DEFAULT, $1, $2, $3, DEFAULT)\nRETURNING id"

abbrev pub delete_query : Bytes
delete_query = codes "DELETE FROM targets WHERE id = $1"

abbrev pub select_query : Bytes
select_query = codes "SELECT * FROM targets WHERE id = $1"

abbrev pub select_all_query : Bytes
select_all_query = codes "SELECT * FROM targets ORDER BY id"

abbrev pub count_rows {ℓ} : {A : Type ℓ} → List A → ℕ
count_rows [] = 0
count_rows (x ∷ xs) = suc (count_rows xs)

module _ (pg : Postgres) where
  -- `reachard_db_targets_add`: the new id, or 1 where the query fails.
  unfoldable pub add : Db → Target → M pg.Server ℤ
  unfolding snprintf_int pq_exec_params pq_clear parse_number
  add db target = do
    res ←
        pq_exec_params pg db.conn insert_query
          (target.name ∷ target.url ∷ some (snprintf_int target.interval) ∷ [])
    if is_tuples_ok res.status
        then (do id ← parse_number res 0 0; pq_clear (some res); pure id)
        else (do pq_clear (some res); pure (pos 1))

  -- `reachard_db_targets_delete`
  unfoldable pub delete : Db → ℤ → M pg.Server ℕ
  unfolding snprintf_int pq_exec_params pq_clear
  delete db id = do
    res ← pq_exec_params pg db.conn delete_query (some (snprintf_int id) ∷ [])
    if is_command_ok res.status
        then (do pq_clear (some res); pure 0)
        else (do pq_clear (some res); pure 1)

  -- `reachard_db_targets_get` on the rows of its result
  unfoldable pub get_row : PgResult → List (List Bytes) → M pg.Server (Option Target)
  unfolding parse_target pq_clear
  get_row res [] = do pq_clear (some res); pure none
  get_row res (_ ∷ _) = do target ← parse_target res 0; pq_clear (some res); pure (some target)

  -- `reachard_db_targets_get`: `none` for the exit code 1, or the target that it wrote.
  unfoldable pub get : Db → ℤ → M pg.Server (Option Target)
  unfolding snprintf_int pq_exec_params get_row
  get db id = do
    res ← pq_exec_params pg db.conn select_query (some (snprintf_int id) ∷ [])
    if is_tuples_ok res.status then get_row res res.rows else (do pq_clear (some res); pure none)

  -- `reachard_db_targets_get_all` on the rows of its result; a failed `calloc` returns at once.
  unfoldable pub get_rows : PgResult → List (List Bytes) → M pg.Server (Option (List Target))
  unfolding allocate pq_clear
  get_rows res [] = do pq_clear (some res); pure (some [])
  get_rows res (row ∷ rows) = do
    granted ← allocate
    if granted
        then (do
          targets ← parse_rows res 0 (count_rows (row ∷ rows))
          pq_clear (some res)
          pure (some targets))
        else pure none

  -- `reachard_db_targets_get_all`: `none` for the exit code 1.
  unfoldable pub get_all : Db → M pg.Server (Option (List Target))
  unfolding pq_exec get_rows
  get_all db = do
    res ← pq_exec pg db.conn select_all_query
    if is_tuples_ok res.status then get_rows res res.rows else (do pq_clear (some res); pure none)
