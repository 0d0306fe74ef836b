-- ===== src/Tests/MainCases.antt =====
-- The exits of `main` over the table in memory, whose schema is up to date.
use reachard.Prelude.{
  ℕ, suc, Bool, true, false, List, [], ◌∷◌, Option, none, some, ◌≡◌, refl, arith, pos, All,
}
use reachard.Text.{codes}
use reachard.System.{World}
use reachard.Database
use reachard.Database.{Db, connect}
use reachard.Database.Table.{Row}
use reachard.Database.Migrate.{migrate}
use reachard.Env.{Env}
use reachard.Client.Watcher.Start.{HasTimer}
use reachard.Client.Loop.{Loop, Event, timer_fired, start}
use reachard.Client.Thread.Ended.{Ended}
use reachard.Server.Spec.{drop, list}
use reachard.Server.Url.Ids.{url_of}
use reachard.Threads.{request, event}
use reachard.Main.{Outcomes, Session, main, process}
use reachard.Main.Exits.{main_closed_twice, process_unassigned, IsInitialised}
use reachard.Main.Served.{ArePossibleFrom}
use reachard.Main.Alone.{Exits, main-Exits, main_used_closed}
use reachard.Tests.TableServer.{table_server, table_laws}
use reachard.Tests.DatabaseCases.{two_rows}
use reachard.Tests.ThreadCases.{steps-Possible, in_order, in_order-IsOrderly}
use reachard.Tests.ServerCases.{queue, sample_json, sample_laws}

abbrev outcomes : Bool → Bool → Outcomes
outcomes curl daemon = record {
  loop_inits = true;
  curl_inits = curl;
  thread_starts = true;
  daemon_starts = daemon;
}

-- The target 3 is checked while the target 1 is deleted.
abbrev session : List Event → Session
session late = record {
  steps =
      event (timer_fired (pos 3) 9 [])
      ∷ request (url_of 1) (codes "DELETE") []
      ∷ request (codes "/targets/") (codes "GET") []
      ∷ [];
  ending = in_order;
  late = late;
}

abbrev env : Env
env = record { port = some 7272; db_url = some (codes "postgresql://") }

abbrev with_live : ℕ → List ℕ → World (List Row)
with_live n live = record {
  server = two_rows;
  next_conn = n;
  live = live;
  results = 0;
  blocks = 0;
  jsons = 0;
  memory = [];
  sent = [];
}

abbrev connected : ℕ → Db
connected n = record { conn = some n; connstring = codes "postgresql://" }

connect_step :
    (n : ℕ) (db : Db) (live : List ℕ)
    → connect table_server db (with_live n live)
      ≡ some ((0, record db { conn = some n }), with_live (suc n) (n ∷ live))
unfolding connect
connect_step n db live = ground arith

migrate_step :
    migrate table_server (connected 0) (codes "one" ∷ []) (with_live 1 (0 ∷ []))
    ≡ some (0, with_live 1 (0 ∷ []))
unfolding migrate reachard.Database.Migrate.get_schema_version
migrate_step = refl

main_closed_twice_example :
    main table_server sample_json queue
      (outcomes false true)
      (session [])
      (codes "one" ∷ [])
      env
      (with_live 0 [])
    ≡ none
unfolding Database.init
main_closed_twice_example =
    main_closed_twice table_server sample_json queue (outcomes false true) (session [])
      (codes "one" ∷ []) env (with_live 0 []) (with_live 1 (0 ∷ [])) (with_live 1 (0 ∷ []))
      (codes "postgresql://") (connected 0) 0 refl
      (connect_step 0 (Database.init (codes "postgresql://")) []) migrate_step refl refl refl refl

abbrev ready : World (List Row)
ready = with_live 3 (2 ∷ 1 ∷ 0 ∷ [])

initialised :
    (daemon : Bool) (late : List Event)
    → IsInitialised table_server sample_json queue
        (outcomes true daemon)
        (session late)
        (codes "one" ∷ [])
        env
        (with_live 0 [])
        ready
        (connected 0)
        (connected 1)
        (connected 2)
        0
        1
        2
unfolding Database.init
initialised daemon late = record {
  url = codes "postgresql://";
  first = with_live 1 (0 ∷ []);
  second = with_live 1 (0 ∷ []);
  third = with_live 2 (1 ∷ 0 ∷ []);
  url_set = refl;
  loop_inits = refl;
  curl_inits = refl;
  connected = connect_step 0 (Database.init (codes "postgresql://")) [];
  migrated = migrate_step;
  client_connected = connect_step 1 (connected 0) (0 ∷ []);
  server_connected = connect_step 2 (connected 0) (1 ∷ 0 ∷ []);
  main_conn = refl;
  client_conn = refl;
  server_conn = refl;
  all_live = refl;
  first_two = omega arith;
  last_two = omega arith;
}

two_rows-HasTimer : All HasTimer two_rows
two_rows-HasTimer = ((pos 5000, refl), ((pos 5000, refl), tt))

possible :
    (daemon : Bool)
    → ArePossibleFrom table_server sample_json queue
        (outcomes true daemon)
        (session [])
        1
        (table_laws 1)
        2
        (table_laws 2)
        (connected 1)
        (connected 2)
        0
        (start table_server (connected 1) ready)
possible daemon = from_start (start table_server (connected 1) ready)
  where
    from_start :
        (result : Option (Loop × World (List Row)))
        → ArePossibleFrom table_server sample_json queue
            (outcomes true daemon)
            (session [])
            1
            (table_laws 1)
            2
            (table_laws 2)
            (connected 1)
            (connected 2)
            0
            result
    from_start none = tt
    from_start (some (loop, w)) =
        steps-Possible (connected 1) 1 (connected 2) 2 0 (session []).steps
          (
            (λ loop. tt),
            (
              (λ loop. (drop 1, refl, refl, refl, (omega arith, omega arith))),
              ((λ loop. (list, refl, refl, refl, tt)), tt),
            ),
          )
          loop w

main-Exits_example :
    Exits table_server sample_json queue
      (outcomes true false)
      (session [])
      1
      (table_laws 1)
      2
      (table_laws 2)
      ready
      (main table_server sample_json queue
        (outcomes true false)
        (session [])
        (codes "one" ∷ [])
        env
        (with_live 0 []))
      1
main-Exits_example =
    main-Exits table_server sample_json queue (outcomes true false) (session []) 1 (table_laws 1) 2
      (table_laws 2) (codes "one" ∷ []) env (with_live 0 []) ready (connected 0) (connected 1)
      (connected 2) 0 sample_laws in_order-IsOrderly (λ x. refl) (initialised false []) refl
      two_rows-HasTimer (possible false) refl

main_used_closed_example :
    main table_server sample_json queue
      (outcomes true false)
      (session (timer_fired (pos 3) 9 [] ∷ []))
      (codes "one" ∷ [])
      env
      (with_live 0 [])
    ≡ none
main_used_closed_example =
    main_used_closed table_server sample_json queue (outcomes true false)
      (session (timer_fired (pos 3) 9 [] ∷ [])) 1 (table_laws 1) 2 (table_laws 2) (codes "one" ∷ [])
      env (with_live 0 []) ready (connected 0) (connected 1) (connected 2) 0 9 [] []
      (record { id = pos 3; up = true; repeat = 5000 }) refl refl
      (initialised false (timer_fired (pos 3) 9 [] ∷ [])) refl two_rows-HasTimer refl refl

process_unassigned_example :
    process table_server sample_json queue
      (outcomes true true)
      (session [])
      (codes "one" ∷ [])
      (some (codes "none"))
      none
      (with_live 0 [])
    ≡ none
unfolding reachard.Text.atoi
process_unassigned_example =
    process_unassigned table_server sample_json queue (outcomes true true) (session [])
      (codes "one" ∷ []) (codes "none") none (with_live 0 []) refl
