-- ===== src/Main/Served.antt =====
-- `main` with both threads, from the start of the process to its exit.
use reachard.Prelude.{
  ℕ, true, List, [], Option, none, some, ◌≡◌, sym, ap, ◌∙◌, length, All, refl, map,
}
use reachard.Text.{Bytes}
use reachard.System.{Postgres, World, ◌>>=◌}
use reachard.Database.{Db}
use reachard.Database.Table.{IsTable}
use reachard.Database.Refines.Rows.{IsOpen}
use reachard.Env.{Env}
use reachard.Client.Watcher.Start.{HasTimer}
use reachard.Client.Loop.{Loop, start}
use reachard.Client.Loop.Sound.{Frees, Frees-Touches}
use reachard.Client.Loop.Lifetime.{begun, start-IsSound}
use reachard.Client.Thread.{client_stop}
use reachard.Client.Thread.Ended.{IsOrderly, Ended, client_stop-Ended}
use reachard.Server.Request.{Queue}
use reachard.Server.Json.{CJson}
use reachard.Server.Targets.Fields.{IsCJson}
use reachard.Threads.{take_steps}
use reachard.Threads.Shown.{requests, request_of, take_steps-ShowsRun}
use reachard.Server.Spec.{Call}
use reachard.Server.Spec.Runs.{Seen, Run}
use reachard.Database.Blank.{blank}
use reachard.Threads.Kept.{Shares, Shares-trans, Touches-Shares, IsOpen-Shares, ArePossibleSteps}
use reachard.Main.{Outcomes, Session, main, run_threads}
use reachard.Main.Exits.{IsInitialised, IsInitialised-IsOpen, main-run_threads, deinit_all}

module _ (pg : Postgres) (cjson : CJson) (queue : Queue) (o : Outcomes) (session : Session) (b : ℕ)
    (tp : IsTable pg b) (c : ℕ) (ts : IsTable pg c) where
  -- The steps are possible from the start of the client's thread on.
  abbrev pub ArePossibleFrom : Db → Db → ℕ → Option (Loop × World pg.Server) → Type 0
  ArePossibleFrom polling serving n none = Unit
  ArePossibleFrom polling serving n (some (loop, w)) =
      ArePossibleSteps pg cjson queue polling b tp serving c ts n session.steps loop w

  possible_from :
      (polling serving : Db) (n : ℕ) (w w' : World pg.Server) (loop : Loop)
      → start pg polling w ≡ some (loop, w')
      → ArePossibleFrom polling serving n (start pg polling w)
      → ArePossibleSteps pg cjson queue polling b tp serving c ts n session.steps loop w'
  possible_from polling serving n w w' loop e possible = rw e at possible

  run_threads_both :
      (w w0 w1 w2 : World pg.Server) (polling serving : Db) (port : Option ℕ) (first loop : Loop)
      (ended : Loop)
      → o.thread_starts ≡ true
      → o.daemon_starts ≡ true
      → start pg polling w ≡ some (first, w0)
      → take_steps pg cjson queue serving polling session.steps first w0 ≡ some (loop, w1)
      → client_stop pg polling session.ending loop w1 ≡ some (ended, w2)
      → run_threads pg cjson queue o session
          (record { db = serving; port = port; daemon = none })
          (some polling)
          w
        ≡ some ((0, none), w2)
  unfolding run_threads
  run_threads_both w w0 w1 w2 polling serving port first loop ended et ed e0 e1 e2 =
      rw (et, ed, e0, e1, e2) refl

  -- What a client of the server may see: the responses, and the rows without their status.
  abbrev pub seen_of : World pg.Server → Seen
  seen_of w = (w.sent, blank (ts.view w.server))

  -- Neither the start of the client nor its stop is seen.
  ends-Run :
      (calls : List Call) (w w0 w1 w2 : World pg.Server)
      → w0.sent ≡ w.sent
      → ts.view w0.server ≡ ts.view w.server
      → Frees w1 w2
      → Run pg cjson queue c ts calls (seen_of w0) (seen_of w1)
      → Run pg cjson queue c ts calls (seen_of w) (seen_of w2)
  ends-Run calls w w0 w1 w2 es ev f run =
      let start : seen_of w0 ≡ seen_of w =
        ap (λ x. (x, blank (ts.view w0.server))) es ∙ ap (λ x. (w.sent, blank x)) ev in
      let stop : seen_of w1 ≡ seen_of w2 = sym (ap seen_of f) in rw (start, stop) at run

  -- The threads from their start to their stop.
  run_threads-Ended :
      (w : World pg.Server) (polling serving : Db) (port : Option ℕ)
      → IsCJson cjson
      → IsOrderly pg.Server session.ending
      → ((x : pg.Server) → tp.view x ≡ ts.view x)
      → o.thread_starts ≡ true
      → o.daemon_starts ≡ true
      → IsOpen b polling w
      → IsOpen c serving w
      → w.memory ≡ []
      → All HasTimer (tp.view w.server)
      → ArePossibleFrom polling serving w.blocks (start pg polling w)
      → (loop : Loop) × (w1 : World pg.Server) × (after : Loop) × (w2 : World pg.Server) × ((start
                pg polling
              >>= take_steps pg cjson queue serving polling session.steps)
            w
          ≡ some (loop, w1))
        × (run_threads pg cjson queue o session
              (record { db = serving; port = port; daemon = none })
              (some polling)
              w
            ≡ some ((0, none), w2))
        × Ended after (length loop.transfers) w.blocks w2
        × Shares w w2
        × (calls : List Call) × (requests session.steps ≡ map request_of calls)
        × Run pg cjson queue c ts calls (seen_of w) (seen_of w2)
  run_threads-Ended w polling serving port laws orderly one et ed op os m timers possible =
      let (w0, e0, k0, t0, v0) = start-IsSound pg b tp polling w op m timers in
      let (loop, w1, calls, e1, same, run, k1, s1) =
        take_steps-ShowsRun pg cjson queue polling b tp serving c ts w.blocks one session.steps
          (begun pg b tp polling w.server) w0 laws
          (IsOpen-Shares c serving w w0 os (Touches-Shares w w0 t0)) k0
          (possible_from polling serving w.blocks w w0 (begun pg b tp polling w.server) e0
            possible) in
      let (after, w2, e2, ended, f2) =
        client_stop-Ended pg b tp polling w.blocks session.ending loop w1 orderly k1 in
      (
        loop,
        w1,
        after,
        w2,
        rw e0 e1,
        run_threads_both w w0 w1 w2 polling serving port _ loop _ et ed e0 e1 e2,
        ended,
        Shares-trans w w1 w2 (Shares-trans w w0 w1 (Touches-Shares w w0 t0) s1)
            (Touches-Shares w1 w2 (Frees-Touches w1 w2 f2)),
        calls,
        same,
        ends-Run calls w w0 w1 w2 (ap (λ x. x.sent) t0) (sym (one w0.server) ∙ v0 ∙ one w.server) f2
            run,
      )

  pub main-Ended :
      (migrations : List Bytes) (env : Env) (w ready : World pg.Server) (db polling serving : Db)
      (a : ℕ)
      → IsCJson cjson
      → IsOrderly pg.Server session.ending
      → ((x : pg.Server) → tp.view x ≡ ts.view x)
      → o.thread_starts ≡ true
      → o.daemon_starts ≡ true
      → IsInitialised pg cjson queue o session migrations env w ready db polling serving a b c
      → ready.memory ≡ []
      → All HasTimer (tp.view ready.server)
      → ArePossibleFrom polling serving ready.blocks (start pg polling ready)
      → (loop : Loop) × (w1 : World pg.Server) × (after : Loop) × (w2 : World pg.Server) × ((start
                pg polling
              >>= take_steps pg cjson queue serving polling session.steps)
            ready
          ≡ some (loop, w1))
        × (main pg cjson queue o session migrations env w ≡ some (0, w2))
        × Ended after (length loop.transfers) ready.blocks w2
        × (w2 ≡ record ready { server = w2.server; blocks = w2.blocks; sent = w2.sent; live = [] })
        × (calls : List Call) × (requests session.steps ≡ map request_of calls)
        × Run pg cjson queue c ts calls (seen_of ready) (seen_of w2)
  main-Ended migrations env w ready db polling serving a laws orderly one et ed i m timers
        possible =
      let (open_b, open_c) = IsInitialised-IsOpen pg cjson queue o session migrations env i in
      let (loop, w1, after, w2, ran, e, ended, shares, calls, same, run) =
        run_threads-Ended ready polling serving env.port laws orderly one et ed open_b open_c m
          timers possible in
      (
        loop,
        w1,
        after,
        record w2 { live = [] },
        ran,
        main-run_threads pg cjson queue o session migrations env w ready db polling serving a b c i
            ∙ rw e (
                deinit_all pg cjson queue o session migrations env w2 db polling serving a b c 0
                  i.main_conn i.client_conn i.server_conn (ap (λ x. x.live) shares ∙ i.all_live)
                  i.first_two i.last_two),
        record {
          empty = ended.empty;
          detached = ended.detached;
          closed = ended.closed;
          left = ended.left;
        },
        ap {A = World pg.Server} {B = World pg.Server} (λ x. record x { live = [] }) shares,
        calls,
        same,
        run,
      )
