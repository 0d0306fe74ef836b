-- ===== src/Main.antt =====
-- src/main.c: the life of the process. While the two threads run, the steps that they take are an
-- argument, in the order in which they come.
pub mod Exits
pub mod Served
pub mod Alone
use reachard.Prelude.{ℕ, zero, suc, Bool, List, Option, none, some, if◌then◌else◌}
use reachard.Text.{Bytes, CString}
use reachard.System.{Postgres, M, pure, fault, ◌>>=◌, ◌>>◌}
use reachard.Database
use reachard.Database.{Db, connect}
use reachard.Database.Migrate.{migrate}
use reachard.Env.{Env, env_init}
use reachard.Client.{Client, client_init, client_deinit}
use reachard.Client.Loop.{Loop, Event, start, run_events}
use reachard.Client.Thread.{Ending, client_start, client_stop}
use reachard.Server.Daemon.{ReachardServer, server_init, server_start, server_stop, server_deinit}
use reachard.Server.Request.{Queue}
use reachard.Server.Json.{CJson}
use reachard.Threads.{Step, take_steps}

-- Which of the calls on libuv, libcurl, the threads and libmicrohttpd succeed.
pub record Outcomes : Type 0 where
  pub loop_inits : Bool
  pub curl_inits : Bool
  pub thread_starts : Bool
  pub daemon_starts : Bool

-- What comes while the threads run: their steps up to the signal, what libcurl and libuv do at the
-- stop, and, where the daemon does not start, the events of the client's thread once `main` has
-- closed its connection.
pub record Session : Type 0 where
  pub steps : List Step
  pub ending : Ending
  pub late : List Event

-- The exit code of `main`, and the client's loop where its thread was not stopped.
abbrev pub Ran : Type 0
Ran = ℕ × Option Loop

module _ (pg : Postgres) (cjson : CJson) (queue : Queue) where
  -- Both threads run, up to the signal and the two stops.
  serve_both : Session → ReachardServer → Db → Loop → M pg.Server Ran
  unfolding take_steps server_stop client_stop
  serve_both session server polling loop = do
    loop' ← take_steps pg cjson queue server.db polling session.steps loop
    server_stop server
    _ ← client_stop pg polling session.ending loop'
    pure (0, none)

  started_server : ℕ × ReachardServer → Session → Db → Loop → M pg.Server Ran
  unfolding serve_both
  started_server (zero, server) session polling loop = serve_both session server polling loop
  started_server (suc _, server) session polling loop = pure (1, some loop)

  started_client : ℕ → Outcomes → Session → ReachardServer → Db → M pg.Server Ran
  unfolding start started_server
  started_client zero o session server polling = do
    loop ← start pg polling
    started_server (server_start o.daemon_starts server) session polling loop
  started_client (suc _) o session server polling = pure (1, none)

  -- From `reachard_client_start` to the labels.
  unfoldable pub run_threads : Outcomes → Session → ReachardServer → Option Db → M pg.Server Ran
  unfolding started_client
  run_threads o session server none = fault
  run_threads o session server (some polling) =
      started_client (client_start o.thread_starts) o session server polling

  -- The labels at the end of `main`.
  deinit_db : Db → ℕ → M pg.Server ℕ
  unfolding Database.deinit
  deinit_db db result = do Database.deinit db; pure result

  deinit_client : Db → Client → ℕ → M pg.Server ℕ
  unfolding client_deinit deinit_db
  deinit_client db client result = do client_deinit client; deinit_db db result

  deinit_server : Db → Client → ReachardServer → ℕ → M pg.Server ℕ
  unfolding server_deinit deinit_client
  deinit_server db client server result = do server_deinit server; deinit_client db client result

  -- The client's thread goes on where it was not stopped.
  go_on : Session → Option Db → Option Loop → M pg.Server (Unit {0})
  unfolding run_events
  go_on session polling none = pure tt
  go_on session none (some loop) = fault
  go_on session (some polling) (some loop) = do _ ← run_events pg polling session.late loop; pure tt

  -- The label `deinit`.
  unfoldable pub deinit : Session → Db → Client → ReachardServer → Ran → M pg.Server ℕ
  unfolding server_deinit client_deinit go_on deinit_db
  deinit session db client server (result, still) = do
    server_deinit server
    client_deinit client
    go_on session client.state_db still
    deinit_db db result

  with_server : Outcomes → Session → Db → Client → ℕ × ReachardServer → M pg.Server ℕ
  unfolding run_threads deinit deinit_server
  with_server o session db client (zero, server) = do
    ran ← run_threads o session server client.state_db
    deinit session db client server ran
  with_server o session db client (suc _, server) = deinit_server db client server 1

  with_client : Outcomes → Session → Env → Db → ℕ × Client → M pg.Server ℕ
  unfolding with_server server_init
  with_client o session env db (zero, client) = do
    made ← server_init pg db env.port
    with_server o session db client made
  with_client o session env db (suc _, client) = deinit_client db client 1

  with_migrations : Outcomes → Session → Env → Db → ℕ → M pg.Server ℕ
  unfolding with_client client_init
  with_migrations o session env db zero = do
    made ← client_init pg o.loop_inits o.curl_inits db
    with_client o session env db made
  with_migrations o session env db (suc _) = deinit_db db 1

  with_db : Outcomes → Session → List Bytes → Env → ℕ × Db → M pg.Server ℕ
  unfolding with_migrations
  with_db o session migrations env (zero, db) = do
    failed ← migrate pg db migrations
    with_migrations o session env db failed
  with_db o session migrations env (suc _, db) = pure 1

  from_url : Outcomes → Session → List Bytes → Env → Option Bytes → M pg.Server ℕ
  unfolding with_db Database.init
  from_url o session migrations env none = fault
  from_url o session migrations env (some url) = do
    connected ← connect pg (Database.init url)
    with_db o session migrations env connected

  -- `main` behind `reachard_env_init`.
  unfoldable pub main : Outcomes → Session → List Bytes → Env → M pg.Server ℕ
  unfolding from_url
  main o session migrations env = from_url o session migrations env env.db_url

  -- `main` from its first line, with the values of the two variables. It does not look at the exit
  -- code of `reachard_env_init`: a URL that was not assigned is read all the same.
  unfoldable pub process : Outcomes → Session → List Bytes → CString → CString → M pg.Server ℕ
  unfolding main env_init
  process o session migrations port_str db_url =
      main o session migrations (env_init port_str db_url).1
