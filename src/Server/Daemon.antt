-- ===== src/Server/Daemon.antt =====
-- src/server/server.c: the life of the server in the main thread. Whether `MHD_start_daemon` gives a
-- daemon is an argument.
use reachard.Prelude.{ℕ, Bool, Option, none, some, if◌then◌else◌}
use reachard.System.{Postgres, M, pure, fault, ◌>>=◌}
use reachard.Database
use reachard.Database.{Db, connect}

-- `struct reachard_server`. The port is copied from the environment as it is there. `daemon` says
-- whether the pointer to the daemon is not null, and is `none` before it is assigned.
pub record ReachardServer : Type 0 where
  pub db : Db
  pub port : Option ℕ
  pub daemon : Option Bool

-- `reachard_server_init`
unfoldable pub server_init : (pg : Postgres) → Db → Option ℕ → M pg.Server (ℕ × ReachardServer)
server_init pg db port = do
  (code, connected) ← connect pg db
  pure (code, record { db = connected; port = port; daemon = none })

-- `reachard_server_start`: the code, and the structure.
abbrev pub server_start : Bool → ReachardServer → ℕ × ReachardServer
server_start daemon_starts server =
    (if daemon_starts then 0 else 1, record server { daemon = some daemon_starts })

stop_daemon : {S : Type 0} → Option Bool → M S (Unit {0})
stop_daemon none = fault
stop_daemon (some _) = pure tt

-- `reachard_server_stop`: `MHD_stop_daemon` waits for the requests that it serves, and takes no more.
unfoldable pub server_stop : {S : Type 0} → ReachardServer → M S (Unit {0})
unfolding stop_daemon
server_stop server = stop_daemon server.daemon

-- `reachard_server_deinit`
unfoldable pub server_deinit : {S : Type 0} → ReachardServer → M S (Unit {0})
unfolding Database.deinit
server_deinit server = Database.deinit server.db
