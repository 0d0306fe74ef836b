-- ===== src/Main/Alone.antt =====
-- `main` where one of the threads does not start, and its exits in all.
use reachard.Prelude.{
  ℕ, ◌<◌, Bool, true, false, List, [], ◌∷◌, Option, none, some, ◌≡◌, refl, ap, ◌∙◌, arith,
  if◌then◌else◌, All, Bool-cases, inl, inr, ◌&&◌, ==_iff,
}
use reachard.Text.{Bytes}
use reachard.System.{Postgres, World, ◌>>◌}
use reachard.Database.{Db}
use reachard.Database
use reachard.Database.Targets
use reachard.Client.{client_deinit}
use reachard.Server.Daemon.{server_deinit}
use reachard.Database.Table.{IsTable}
use reachard.Env.{Env}
use reachard.Client.Watcher.Start.{HasTimer}
use reachard.Client.Targets.{ClientTarget, target_check}
use reachard.Client.Watcher.{hash_find}
use reachard.Client.Loop.{
  Loop, Callback, Event, timer_fired, start, run_events, run_event, on_timer, check_target,
}
use reachard.Client.Thread.Ended.{IsOrderly}
use reachard.Client.Loop.Lifetime.{begun, start-IsSound}
use reachard.Server.Request.{Queue}
use reachard.Server.Json.{CJson}
use reachard.Server.Targets.Fields.{IsCJson}
use reachard.Threads.Kept.{Touches-Shares}
use reachard.Main.{Outcomes, Session, main, run_threads, deinit, deinit_db, go_on}
use reachard.Main.Exits.{
  IsInitialised, the_server, the_client, IsInitialised-IsOpen, main-run_threads, deinit_all,
}
use reachard.Main.Served.{ArePossibleFrom, main-Ended}

module _ (pg : Postgres) (cjson : CJson) (queue : Queue) (o : Outcomes) (session : Session) (b : ℕ)
    (tp : IsTable pg b) (c : ℕ) (ts : IsTable pg c) where
  -- `main` returns a code, with every connection closed.
  abbrev pub Exits : World pg.Server → Option (ℕ × World pg.Server) → ℕ → Type 0
  Exits ready result code =
      (w : World pg.Server) × (result ≡ some (code, w))
      × (w ≡ record ready { server = w.server; blocks = w.blocks; sent = w.sent; live = [] })

  Exits-both :
      (ready : World pg.Server) (result : Option (ℕ × World pg.Server)) (x y : Bool)
      → o.thread_starts ≡ x
      → o.daemon_starts ≡ y
      → Exits ready result (if x && y then 0 else 1)
      → Exits ready result (if o.thread_starts && o.daemon_starts then 0 else 1)
  Exits-both ready result x y ex ey exits = rw (ex, ey) exits

  -- The client's thread does not start.
  main_unstarted :
      (migrations : List Bytes) (env : Env) (w ready : World pg.Server) (db polling serving : Db)
      (a : ℕ)
      → o.thread_starts ≡ false
      → IsInitialised pg cjson queue o session migrations env w ready db polling serving a b c
      → main pg cjson queue o session migrations env w ≡ some (1, record ready { live = [] })
  unfolding run_threads
  main_unstarted migrations env w ready db polling serving a et i =
      main-run_threads pg cjson queue o session migrations env w ready db polling serving a b c i
      ∙ rw et (
          deinit_all pg cjson queue o session migrations env ready db polling serving a b c 1
            i.main_conn i.client_conn i.server_conn i.all_live i.first_two i.last_two)

  -- The client's thread runs, and the daemon does not start.
  started_alone :
      (migrations : List Bytes) (env : Env) (w ready w0 : World pg.Server) (db polling serving : Db)
      (a : ℕ) (loop : Loop)
      → o.thread_starts ≡ true
      → o.daemon_starts ≡ false
      → IsInitialised pg cjson queue o session migrations env w ready db polling serving a b c
      → start pg polling ready ≡ some (loop, w0)
      → main pg cjson queue o session migrations env w
        ≡ deinit pg cjson queue session db
            (the_client pg cjson queue o session migrations env polling)
            (the_server pg cjson queue o session migrations env serving)
            (1, some loop)
            w0
  unfolding run_threads
  started_alone migrations env w ready w0 db polling serving a loop et ed i e0 =
      main-run_threads pg cjson queue o session migrations env w ready db polling serving a b c i
      ∙ rw (et, ed, e0) refl

  -- The connection that was opened last is closed.
  deinit-head :
      (w : World pg.Server) (db : Db) (k : ℕ) (live : List ℕ)
      → db.conn ≡ some k
      → w.live ≡ k ∷ live
      → Database.deinit db w ≡ some (tt, record w { live = live })
  unfolding Database.deinit
  deinit-head w db k live e open_now = rw (e, open_now, (==_iff k k).1 refl) refl

  deinit_still :
      (migrations : List Bytes) (env : Env) (w : World pg.Server) (db polling serving : Db) (a : ℕ)
      (loop : Loop)
      → polling.conn ≡ some b
      → serving.conn ≡ some c
      → w.live ≡ c ∷ b ∷ a ∷ []
      → deinit pg cjson queue session db
          (the_client pg cjson queue o session migrations env polling)
          (the_server pg cjson queue o session migrations env serving)
          (1, some loop)
          w
        ≡ (do
          go_on pg cjson queue session (some polling) (some loop)
          deinit_db pg cjson queue db 1)
            (record w { live = a ∷ [] })
  unfolding deinit server_deinit client_deinit
  deinit_still migrations env w db polling serving a loop cb cc' live =
      rw
        (
          deinit-head w serving c (b ∷ a ∷ []) cc' live,
          deinit-head (record w { live = b ∷ a ∷ [] }) polling b (a ∷ []) cb refl,
        )
        refl

  deinit_last :
      (w : World pg.Server) (db : Db) (a : ℕ)
      → db.conn ≡ some a
      → deinit_db pg cjson queue db 1 (record w { live = a ∷ [] })
        ≡ some (1, record w { live = [] })
  unfolding deinit_db
  deinit_last w db a ca = ground (arith, ca)

  target_check_closed :
      (w : World pg.Server) (polling : Db) (a : ℕ) (target : ClientTarget)
      → polling.conn ≡ some b
      → w.live ≡ a ∷ []
      → a < b
      → target_check pg polling target w ≡ none
  unfolding target_check Targets.get
  target_check_closed w polling a target cb live ab = ground (arith, cb, live, ab)

  go_on_closed :
      (w : World pg.Server) (polling : Db) (a handle : ℕ) (calls : List Callback)
      (events : List Event) (target : ClientTarget) (loop : Loop)
      → polling.conn ≡ some b
      → w.live ≡ a ∷ []
      → a < b
      → session.late ≡ timer_fired target.id handle calls ∷ events
      → hash_find target.id loop.watched.targets ≡ some target
      → go_on pg cjson queue session (some polling) (some loop) w ≡ none
  unfolding go_on run_events run_event on_timer check_target
  go_on_closed w polling a handle calls events target loop cb live ab late found =
      rw (late, found, target_check_closed w polling a target cb live ab) refl

  go_on_over :
      (w : World pg.Server) (polling : Db) (loop : Loop)
      → session.late ≡ []
      → go_on pg cjson queue session (some polling) (some loop) w ≡ some (tt, w)
  unfolding go_on run_events
  go_on_over w polling loop late = rw late refl

  -- Where the client's thread starts and the daemon does not, `main` does not stop the thread, and
  -- closes the connection under it: a timer of one of its targets then makes a query on the closed
  -- connection.
  pub main_used_closed :
      (migrations : List Bytes) (env : Env) (w ready : World pg.Server) (db polling serving : Db)
      (a handle : ℕ) (calls : List Callback) (events : List Event) (target : ClientTarget)
      → o.thread_starts ≡ true
      → o.daemon_starts ≡ false
      → IsInitialised pg cjson queue o session migrations env w ready db polling serving a b c
      → ready.memory ≡ []
      → All HasTimer (tp.view ready.server)
      → session.late ≡ timer_fired target.id handle calls ∷ events
      → hash_find target.id (begun pg b tp polling ready.server).watched.targets ≡ some target
      → main pg cjson queue o session migrations env w ≡ none
  main_used_closed migrations env w ready db polling serving a handle calls events target et ed i m
        timers late found =
      let loop = begun pg b tp polling ready.server in
      let (w0, e0, k0, t0, v0) =
        start-IsSound pg b tp polling ready
          (IsInitialised-IsOpen pg cjson queue o session migrations env i).0 m timers in
      started_alone migrations env w ready w0 db polling serving a loop et ed i e0
      ∙ deinit_still migrations env w0 db polling serving a loop i.client_conn i.server_conn
          (ap (λ x. x.live) t0 ∙ i.all_live)
      ∙ rw
          (go_on_closed (record w0 { live = a ∷ [] }) polling a handle calls events target loop
            i.client_conn refl i.first_two late found)
          refl

  main_alone :
      (migrations : List Bytes) (env : Env) (w ready : World pg.Server) (db polling serving : Db)
      (a : ℕ)
      → o.thread_starts ≡ true
      → o.daemon_starts ≡ false
      → IsInitialised pg cjson queue o session migrations env w ready db polling serving a b c
      → ready.memory ≡ []
      → All HasTimer (tp.view ready.server)
      → session.late ≡ []
      → Exits ready (main pg cjson queue o session migrations env w) 1
  main_alone migrations env w ready db polling serving a et ed i m timers late =
      let loop = begun pg b tp polling ready.server in
      let (w0, e0, k0, t0, v0) =
        start-IsSound pg b tp polling ready
          (IsInitialised-IsOpen pg cjson queue o session migrations env i).0 m timers in
      (
        record w0 { live = [] },
        started_alone migrations env w ready w0 db polling serving a loop et ed i e0
            ∙ deinit_still migrations env w0 db polling serving a loop i.client_conn i.server_conn
                (ap (λ x. x.live) t0 ∙ i.all_live)
            ∙ rw (go_on_over (record w0 { live = a ∷ [] }) polling loop late)
                (deinit_last w0 db a i.main_conn),
        ap {A = World pg.Server} {B = World pg.Server} (λ x. record x { live = [] })
            (Touches-Shares ready w0 t0),
      )

  -- Where the first connection, the migrations and the initialisation of the client and of the
  -- server go well, with three connections, those of the client and of the server to one table, and
  -- no allocation fails: whether or not the two threads start, over any sequence of fit requests
  -- and of events that may come, `main` closes all three connections, and returns 0 exactly if both
  -- threads start. Conditions: every interval in milliseconds and every number of cJSON is an
  -- `int`, libcurl and libuv end in order at the stop, with no socket left, and the client's thread
  -- does nothing more after a daemon that did not start.
  pub main-Exits :
      (migrations : List Bytes) (env : Env) (w ready : World pg.Server) (db polling serving : Db)
      (a : ℕ)
      → IsCJson cjson
      → IsOrderly pg.Server session.ending
      → ((x : pg.Server) → tp.view x ≡ ts.view x)
      → IsInitialised pg cjson queue o session migrations env w ready db polling serving a b c
      → ready.memory ≡ []
      → All HasTimer (tp.view ready.server)
      → ArePossibleFrom pg cjson queue o session b tp c ts polling serving ready.blocks
          (start pg polling ready)
      → session.late ≡ []
      → Exits ready
          (main pg cjson queue o session migrations env w)
          (if o.thread_starts && o.daemon_starts then 0 else 1)
  main-Exits migrations env w ready db polling serving a laws orderly one i m timers possible late =
      elim (Bool-cases o.thread_starts) [
        | inl et ↦ elim (Bool-cases o.daemon_starts) [
          | inl ed ↦
              let (loop, w1, after, w2, ran, e, ended, shares, calls, same, run) =
                main-Ended pg cjson queue o session b tp c ts migrations env w ready db polling
                  serving a laws orderly one et ed i m timers possible in
              Exits-both ready _ true true et ed (w2, e, shares)
          | inr ed ↦
              Exits-both ready _ true false et ed
                (main_alone migrations env w ready db polling serving a et ed i m timers late)
        ]
        | inr et ↦ Exits-both ready _ false o.daemon_starts et refl (
          record ready { live = [] },
          main_unstarted migrations env w ready db polling serving a et i,
          refl,
        )
      ]
