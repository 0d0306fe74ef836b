-- ===== src/Database.antt =====
-- src/database/database.c: the connection to PostgreSQL.
pub mod Targets
pub mod Table
pub mod Blank
pub mod Refines
pub mod Connecting
pub mod Migrate
use reachard.Prelude.{ℕ, Bool, true, false, Option, none, some, if◌then◌else◌}
use reachard.Text.{Bytes, codes}
use reachard.System.{
  Postgres, PgResult, M, pure, ◌>>=◌, ◌>>◌, is_tuples_ok, pq_connectdb, pq_exec, pq_clear,
  pq_finish,
}

-- `struct reachard_db`; a `conn` that was never assigned is `none`.
pub record Db : Type 0 where
  pub conn : Option ℕ
  pub connstring : Bytes

-- `reachard_db_init`, given the `db_url` of the environment.
unfoldable pub init : Bytes → Db
init db_url = record { conn = none; connstring = db_url }

abbrev pub search_path_query : Bytes
search_path_query = codes "SELECT pg_catalog.set_config('search_path', 'reachard', false)"

module _ (pg : Postgres) where
  -- the label `failure` of `reachard_db_connect`
  connect_failure : Db → ℕ → Option PgResult → M pg.Server (ℕ × Db)
  unfolding pq_clear pq_finish
  connect_failure db conn res = do pq_clear res; pq_finish (some conn); pure (1, db)

  -- the part of `reachard_db_connect` behind the check of `PQstatus`
  set_search_path : Db → ℕ → M pg.Server (ℕ × Db)
  unfolding pq_exec connect_failure
  set_search_path db conn = do
    res ← pq_exec pg (some conn) search_path_query
    if is_tuples_ok res.status
        then (do pq_clear (some res); pure (0, record db { conn = some conn }))
        else connect_failure db conn (some res)

  -- `reachard_db_connect`: the exit code, and the structure with its connection.
  unfoldable pub connect : Db → M pg.Server (ℕ × Db)
  unfolding pq_connectdb set_search_path
  connect db = do
    (conn, established) ← pq_connectdb pg db.connstring
    if established then set_search_path db conn else connect_failure db conn none

-- `reachard_db_deinit`
unfoldable pub deinit : {S : Type 0} → Db → M S (Unit {0})
unfolding pq_finish
deinit db = pq_finish db.conn
