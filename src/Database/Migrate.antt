-- ===== src/Database/Migrate.antt =====
-- src/database/migrate.c. The texts of the migrations (`migrations`, `n_migrations`) come from the
-- generated header src/database/migrations.h, and are a parameter.
pub mod Rules
pub mod Runs
pub mod Whole
use reachard.Prelude.{
  ℕ, zero, suc, ◌+◌, ◌-◌, Bool, true, false, List, [], ◌∷◌, Option, none, some, ℤ, pos, negsuc, ltb,
  if◌then◌else◌, get_elem?,
}
use reachard.Text.{Bytes, CString, codes, atoi, decimal, snprintf_int}
use reachard.System.{
  Postgres, PgResult, M, pure, fault, ◌>>=◌, ◌>>◌, is_tuples_ok, is_command_ok, pq_exec,
  pq_exec_params, pq_clear, pq_getvalue,
}
use reachard.Database.{Db}

abbrev pub exists_query : Bytes
exists_query =
    codes
      "SELECT 1 FROM information_schema.tables WHERE table_schema = 'reachard' AND table_name = 'version'"

abbrev pub version_query : Bytes
version_query = codes "SELECT value from version"

abbrev pub set_version_query : Bytes
set_version_query = codes "UPDATE version SET value = $1"

-- `INT_MAX`
abbrev pub int_max : ℕ
int_max = 2147483647

module _ (pg : Postgres) where
  -- `atoi(PQgetvalue(res, 0, 0))`: a null pointer where the table has no row.
  read_version : PgResult → CString → M pg.Server ℤ
  unfolding pq_clear atoi
  read_version res none = fault
  read_version res (some text) = do pq_clear (some res); pure (atoi text)

  select_version : Db → M pg.Server ℤ
  unfolding read_version pq_exec
  select_version db = do
    res ← pq_exec pg db.conn version_query
    if is_tuples_ok res.status
        then read_version res (pq_getvalue res 0 0)
        else (do pq_clear (some res); pure (negsuc 0))

  -- `PQntuples(res) == 0`
  version_of : Db → PgResult → List (List Bytes) → M pg.Server ℤ
  unfolding select_version
  version_of db res [] = do pq_clear (some res); pure (pos 0)
  version_of db res (_ ∷ _) = do pq_clear (some res); select_version db

  -- `reachard_db_get_schema_version`: -1 where a query fails, 0 where there is no table.
  unfoldable pub get_schema_version : Db → M pg.Server ℤ
  unfolding version_of pq_exec pq_clear
  get_schema_version db = do
    res ← pq_exec pg db.conn exists_query
    if is_tuples_ok res.status
        then version_of db res res.rows
        else (do pq_clear (some res); pure (negsuc 0))

  -- the label `failure`
  migration_failure : PgResult → M pg.Server ℕ
  unfolding pq_clear
  migration_failure res = do pq_clear (some res); pure 1

  end_migration : Db → ℕ → M pg.Server ℕ
  unfolding pq_exec pq_exec_params snprintf_int migration_failure
  end_migration db version = do
    res ← pq_exec_params pg db.conn set_version_query (some (snprintf_int (pos version)) ∷ [])
    pq_clear (some res)
    res' ← pq_exec pg db.conn (codes "END")
    if is_command_ok res'.status then (do pq_clear (some res'); pure 0) else migration_failure res'

  run_migration : Db → ℕ → Bytes → M pg.Server ℕ
  unfolding end_migration
  run_migration db version migration = do
    res ← pq_exec pg db.conn migration
    if is_command_ok res.status
        then (do pq_clear (some res); end_migration db version)
        else migration_failure res

  -- `reachard_db_apply_migration`. The result of the update of the version is not looked at.
  unfoldable pub apply_migration : Db → ℕ → Bytes → M pg.Server ℕ
  unfolding run_migration
  apply_migration db version migration = do
    res ← pq_exec pg db.conn (codes "BEGIN")
    if is_command_ok res.status
        then (do pq_clear (some res); run_migration db version migration)
        else migration_failure res

  -- The loop from `version` to `n_migrations` over the migrations left. `version++` overflows at the
  -- largest `int`.
  unfoldable pub apply_all : Db → ℕ → List Bytes → M pg.Server ℕ
  apply_all db version [] = pure 0
  apply_all db version (migration ∷ migrations) = do
    failed ← apply_migration db version migration
    let rest = apply_all db (suc version) migrations
    elim failed [ zero ↦ if ltb version int_max then rest else fault | suc _ ↦ pure 1 ]

  abbrev pub skip : ℕ → List Bytes → List Bytes
  skip zero migrations = migrations
  skip (suc n) [] = []
  skip (suc n) (_ ∷ migrations) = skip n migrations

  -- `migrations` is the list of the texts of the versions 1, 2, and so on. `current_version + 1` may
  -- overflow too.
  migrate_from : Db → List Bytes → ℤ → M pg.Server ℕ
  unfolding apply_all
  migrate_from db migrations (negsuc _) = pure 1
  migrate_from db migrations (pos current) =
      if ltb current int_max then apply_all db (suc current) (skip current migrations) else fault

  -- `reachard_db_migrate`
  unfoldable pub migrate : Db → List Bytes → M pg.Server ℕ
  unfolding migrate_from
  migrate db migrations = do current ← get_schema_version db; migrate_from db migrations current
