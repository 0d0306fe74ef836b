-- ===== src/Client.antt =====
-- src/client: the start and the end of the client in the main thread. Whether `uv_loop_init` and
-- `curl_global_init` succeed is an argument.
pub mod Targets
pub mod Watcher
pub mod Sockets
pub mod Loop
pub mod Thread
use reachard.Prelude.{ℕ, Bool, Option, none, some, if◌then◌else◌}
use reachard.System.{Postgres, M, pure, fault, ◌>>=◌}
use reachard.Database
use reachard.Database.{Db, connect}

-- The parts of `struct reachard_client` that the main thread sets: the database of
-- `struct reachard_client_state`, `none` until it is assigned.
pub record Client : Type 0 where
  pub state_db : Option Db

abbrev pub unassigned : Client
unassigned = record { state_db = none }

module _ (pg : Postgres) where
  state_connected : ℕ × Db → ℕ × Client
  state_connected (code, db) = (code, record { state_db = some db })

  -- `reachard_client_state_init`: a failure of either call leaves the copied connection in place.
  unfoldable pub state_init : Bool → Db → M pg.Server (ℕ × Client)
  unfolding state_connected
  state_init curl_inits db =
      if curl_inits
      then (do connected ← connect pg db; pure (state_connected connected))
      else pure (1, record { state_db = some db })

  -- `reachard_client_watcher_init`, which sets up an empty table and the state.
  unfoldable pub watcher_init : Bool → Db → M pg.Server (ℕ × Client)
  unfolding state_init
  watcher_init curl_inits db = state_init curl_inits db

  -- `reachard_client_init`
  unfoldable pub client_init : Bool → Bool → Db → M pg.Server (ℕ × Client)
  unfolding watcher_init
  client_init loop_inits curl_inits db =
      if loop_inits then watcher_init curl_inits db else pure (1, unassigned)

module _ {S : Type 0} where
  -- `reachard_client_state_deinit`
  state_deinit_db : Option Db → M S (Unit {0})
  unfolding Database.deinit
  state_deinit_db none = fault
  state_deinit_db (some db) = Database.deinit db

  -- `reachard_client_watcher_deinit`
  watcher_deinit : Client → M S (Unit {0})
  unfolding state_deinit_db
  watcher_deinit client = state_deinit_db client.state_db

  -- `reachard_client_deinit`: the connection that the state holds is closed.
  unfoldable pub client_deinit : Client → M S (Unit {0})
  unfolding watcher_deinit
  client_deinit client = watcher_deinit client
