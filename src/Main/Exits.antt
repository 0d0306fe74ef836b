-- ===== src/Main/Exits.antt =====
-- The exits of `main` of src/main.c: which connections it closes.
use reachard.Prelude.{pos, true, false, List, [], ◌∷◌, none, some, ◌≡◌, refl, arith, ◌<◌, ℕ}
use reachard.Text.{Bytes, CString, atoi}
use reachard.System.{Postgres, World, contains, remove, ◌>>=◌}
use reachard.Database
use reachard.Database.{Db, connect}
use reachard.Database.Migrate.{migrate}
use reachard.Database.Refines.Rows.{IsOpen}
use reachard.Env.{Env, env_init}
use reachard.Client.{Client, client_init}
use reachard.Server.Daemon.{ReachardServer}
use reachard.Server.Request.{Queue}
use reachard.Server.Json.{CJson}
use reachard.Main.{Outcomes, Session, main, process, run_threads, deinit}

module _ (pg : Postgres) (cjson : CJson) (queue : Queue) where
  -- Where the variable of the port is set and reads as 0, as a text that is no number does, the
  -- process reads a URL that was never assigned: `main` does not look at the exit code of
  -- `reachard_env_init`.
  pub process_unassigned :
      (o : Outcomes) (session : Session) (migrations : List Bytes) (port_str : Bytes)
      (db_url : CString) (w : World pg.Server)
      → atoi port_str ≡ pos 0
      → process pg cjson queue o session migrations (some port_str) db_url w ≡ none
  unfolding process main env_init
  process_unassigned o session migrations port_str db_url w e = rw e refl

module _ (pg : Postgres) (cjson : CJson) (queue : Queue) (o : Outcomes) (session : Session)
    (migrations : List Bytes) (env : Env) where
  -- Where the first connection, the migrations and the loop go well and curl is not initialised,
  -- `main` closes its connection twice: the client's state holds a copy of it.
  pub main_closed_twice :
      (w w1 w2 : World pg.Server) (url : Bytes) (db : Db) (c : ℕ)
      → env.db_url ≡ some url
      → connect pg (Database.init url) w ≡ some ((0, db), w1)
      → migrate pg db migrations w1 ≡ some (0, w2)
      → o.loop_inits ≡ true
      → o.curl_inits ≡ false
      → db.conn ≡ some c
      → contains (remove c w2.live) c ≡ false
      → main pg cjson queue o session migrations env w ≡ none
  unfolding main
  main_closed_twice w w1 w2 url db c eu e1 e2 l k ec once =
      ground (arith, eu, e1, e2, l, k, ec, once)

  -- All is initialised: `main`, the client and the server have the open connections a, b and c.
  pub record IsInitialised (w ready : World pg.Server) (db polling serving : Db) (a b c : ℕ)
      : Type 0 where
    pub url : Bytes
    pub first : World pg.Server
    pub second : World pg.Server
    pub third : World pg.Server
    pub url_set : env.db_url ≡ some url
    pub loop_inits : o.loop_inits ≡ true
    pub curl_inits : o.curl_inits ≡ true
    pub connected : connect pg (Database.init url) w ≡ some ((0, db), first)
    pub migrated : migrate pg db migrations first ≡ some (0, second)
    pub client_connected : connect pg db second ≡ some ((0, polling), third)
    pub server_connected : connect pg db third ≡ some ((0, serving), ready)
    pub main_conn : db.conn ≡ some a
    pub client_conn : polling.conn ≡ some b
    pub server_conn : serving.conn ≡ some c
    pub all_live : ready.live ≡ c ∷ b ∷ a ∷ []
    pub first_two : a < b
    pub last_two : b < c

  abbrev pub the_server : Db → ReachardServer
  the_server serving = record { db = serving; port = env.port; daemon = none }

  abbrev pub the_client : Db → Client
  the_client polling = record { state_db = some polling }

  -- `main` is at the start of the threads.
  pub main-run_threads :
      (w ready : World pg.Server) (db polling serving : Db) (a b c : ℕ)
      → IsInitialised w ready db polling serving a b c
      → main pg cjson queue o session migrations env w
        ≡ (do
          ran ← run_threads pg cjson queue o session (the_server serving) (some polling)
          deinit pg cjson queue session db (the_client polling) (the_server serving) ran)
            ready
  unfolding main client_init
  main-run_threads w ready db polling serving a b c i =
      rw
        (
          i.url_set, i.connected, i.migrated, i.loop_inits, i.curl_inits, i.client_connected,
          i.server_connected,
        )
        refl

  pub deinit_all :
      (w : World pg.Server) (db polling serving : Db) (a b c result : ℕ)
      → db.conn ≡ some a
      → polling.conn ≡ some b
      → serving.conn ≡ some c
      → w.live ≡ c ∷ b ∷ a ∷ []
      → a < b
      → b < c
      → deinit pg cjson queue session db (the_client polling) (the_server serving) (result, none) w
        ≡ some (result, record w { live = [] })
  unfolding deinit
  deinit_all w db polling serving a b c result ca cb cc' live ab bc =
      ground (arith, ca, cb, cc', live, ab, bc)

  pub IsInitialised-IsOpen :
      {w ready : World pg.Server} {db polling serving : Db} {a b c : ℕ}
      → IsInitialised w ready db polling serving a b c
      → IsOpen b polling ready × IsOpen c serving ready
  IsInitialised-IsOpen i = (
    record { conn_is = i.client_conn; is_open = rw i.all_live (ground arith) },
    record { conn_is = i.server_conn; is_open = rw i.all_live (ground arith) },
  )
