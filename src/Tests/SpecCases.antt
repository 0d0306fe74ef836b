-- ===== src/Tests/SpecCases.antt =====
-- Sequences of requests over the table in memory.
use reachard.Prelude.{List, [], ◌∷◌, some, ◌≡◌, refl, arith, All, ◌<◌}
use reachard.Text.{codes}
use reachard.System.{World}
use reachard.Database.Table.{Row}
use reachard.Server.Request.{queued}
use reachard.Server.Url.{regexec}
use reachard.Server.Url.Ids.{url_of}
use reachard.Server.Life.{serve}
use reachard.Server.Targets.Effects.{get_response}
use reachard.Server.Spec.{Call, list, read, drop, change, create, misplaced, unrouted}
use reachard.Server.Spec.Steps.{IsFit, Meets, serve-Meets}
use reachard.Server.Spec.Runs.{serve_all, seen, Run, Keeps, serve_all-Run}
use reachard.Server.Spec.Unique.{IsUnique, serve_all-IsUnique}
use reachard.Server.Spec.Apart.{serve-find}
use reachard.Tests.TableServer.{table, table_server, table_laws}
use reachard.Tests.DatabaseCases.{row, db, world, two_rows, db-IsOpen}
use reachard.Tests.ServerCases.{queue, sample_json, sample_laws, sample_body}

abbrev calls : List Call
calls =
    list
    ∷ create sample_body
    ∷ change 3 sample_body
    ∷ create []
    ∷ drop 1
    ∷ read 3
    ∷ misplaced (codes "/users") (codes "GET") []
    ∷ unrouted (codes "/targets/3/") (codes "PUT") (codes "{}" ∷ [])
    ∷ []

sample-positive : All (λ b. 0 < b) sample_body
sample-positive = ground arith

calls-IsFit : All (IsFit table_server sample_json queue 7 (table_laws 7)) calls
unfolding regexec reachard.Server.Targets.patch_fields reachard.Server.Handle.route
calls-IsFit = (
  tt,
  (
    sample-positive,
    (
      ((omega arith, omega arith), sample-positive, λ e. cc),
      (
        tt,
        (
          (omega arith, omega arith),
          ((omega arith, omega arith), (refl, ((codes "3", refl, omega arith, refl), tt))),
        ),
      ),
    ),
  ),
)

serve_all-Run_example :
    (w' : World (List Row)) × (serve_all table_server sample_json queue db calls (world two_rows [])
      ≡ some (tt, w'))
    × Run table_server sample_json queue 7
        (table_laws 7)
        calls
        ([], two_rows)
        (seen table_server sample_json queue 7 (table_laws 7) w')
    × Keeps table_server sample_json queue 7 (table_laws 7) (world two_rows []) w'
serve_all-Run_example =
    serve_all-Run table_server sample_json queue 7 (table_laws 7) db (world two_rows []) calls
      sample_laws (db-IsOpen two_rows []) refl calls-IsFit

serve-Meets_example :
    Meets table_server sample_json queue 7
      (table_laws 7)
      db
      (world two_rows [])
      (create sample_body)
serve-Meets_example =
    serve-Meets table_server sample_json queue 7 (table_laws 7) db (world two_rows [])
      (create sample_body) sample_laws (db-IsOpen two_rows []) refl sample-positive

serve_all-IsUnique_example :
    (w' : World (List Row)) × (serve_all table_server sample_json queue db calls (world two_rows [])
      ≡ some (tt, w'))
    × IsUnique (table w'.server)
serve_all-IsUnique_example =
    serve_all-IsUnique table_server sample_json queue 7 (table_laws 7) db (world two_rows []) calls
      sample_laws (db-IsOpen two_rows []) refl calls-IsFit (refl, (refl, tt))

abbrev others : List Call
others = drop 1 ∷ create [] ∷ []

serve-find_example :
    (w' : World (List Row)) × (s : List Row) × (serve_all table_server sample_json queue db others
        (world two_rows [])
      ≡ some (tt, w'))
    × (serve table_server sample_json queue db (url_of 3) (codes "GET") [] w'
        ≡ some (
            queued queue
              (get_response table_server sample_json queue 7 (table_laws 7) (some (row 3)))
              (record w' { server = s })))
serve-find_example =
    serve-find table_server sample_json queue 7 (table_laws 7) db (world two_rows []) others 3
      (row 3) sample_laws (db-IsOpen two_rows []) refl ((omega arith, omega arith), (tt, tt))
      (λ e. omega (arith, e), (tt, tt)) (omega arith, omega arith) refl
