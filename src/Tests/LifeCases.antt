-- ===== src/Tests/LifeCases.antt =====
-- Whole requests over the table in memory.
use reachard.Prelude.{true, [], refl, arith, All, ◌<◌, pos}
use reachard.Text.{codes}
use reachard.Database.Table.{Row}
use reachard.Server.Targets.{post_fields}
use reachard.Server.Url.{regexec}
use reachard.Server.Life.Created.{Created, serve-Created}
use reachard.Tests.TableServer.{table_server, table_laws}
use reachard.Tests.DatabaseCases.{db, world, two_rows, db-IsOpen}
use reachard.Tests.ServerCases.{queue, sample_json, sample_body, sample_tree, sample_target}

abbrev made : Row
made = record { id = pos 4; name = codes "n"; url = codes "u"; interval = pos 7; up = true }

sample-positive : All (λ b. 0 < b) sample_body
sample-positive = ground arith

serve-Created_example :
    Created table_server sample_json queue 7
      (table_laws 7)
      db
      (world two_rows [])
      (codes "/targets/")
      sample_body
      made
      4
unfolding regexec post_fields
serve-Created_example =
    serve-Created table_server sample_json queue 7 (table_laws 7) db (world two_rows [])
      (codes "/targets/") [] b'{' _ sample_tree sample_target (codes "n") (codes "u") 4
      (db-IsOpen two_rows []) refl refl (omega arith) sample-positive refl refl refl refl
      (omega arith) refl refl (omega arith)
