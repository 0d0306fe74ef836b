-- ===== src/Tests/SharedCases.antt =====
-- Both threads on the table in memory: a target is made, the polled one is checked and patched, its
-- transfer ends with the status 404, and another target is deleted.
use reachard.Prelude.{true, List, [], ◌∷◌, some, refl, arith, pos}
use reachard.Text.{codes}
use reachard.System.{World}
use reachard.Database.{Db}
use reachard.Database.Table.{Row}
use reachard.Client.Targets.{ClientTarget, Outcome}
use reachard.Shared.{Action, deleted, listed, patched, posted, checked, completed, run_actions}
use reachard.Shared.Status.{Holds, Keeps, run_actions-Keeps}
use reachard.Tests.TableServer.{table_server, table_laws}
use reachard.Tests.DatabaseCases.{db, world, two_rows}
use reachard.Tests.ServerCases.{
  queue, sample_json, sample_laws, sample_tree, sample_target, sample_body, stored, sample-Body,
}

abbrev client_db : Db
client_db = record { conn = some 8; connstring = codes "postgresql://" }

abbrev polled : ClientTarget
polled = record { id = pos 3; up = true; repeat = 5000 }

abbrev both_open : World (List Row)
both_open = record (world two_rows []) { live = 7 ∷ 8 ∷ [] }

abbrev some_actions : List Action
some_actions =
    posted (stored sample_body)
    ∷ checked
    ∷ patched (pos 3) (stored sample_body)
    ∷ completed (record { result = 0; status = pos 404 })
    ∷ deleted (pos 1)
    ∷ []

polled-Holds :
    Holds table_server sample_json queue sample_laws 7 8
      (table_laws 7)
      (table_laws 8)
      (λ s. refl)
      db
      client_db
      polled
      both_open
polled-Holds = record {
  serves = record { conn_is = refl; is_open = refl };
  polls = record { conn_is = refl; is_open = refl };
  memory_left = refl;
  small = omega arith;
  agrees = ((λ e. refl), ((λ e. refl), tt));
}

run_actions-Keeps_example :
    Keeps table_server sample_json queue sample_laws 7 8
      (table_laws 7)
      (table_laws 8)
      (λ s. refl)
      db
      client_db
      (run_actions table_server sample_json queue db client_db some_actions polled both_open)
unfolding reachard.Shared.run_action reachard.Server.Targets.handle_delete
    reachard.Database.Targets.delete reachard.Server.Targets.post_fields
    reachard.Server.Targets.patch_fields reachard.Server.Targets.handle_post
    reachard.Server.Targets.handle_patch reachard.Database.Targets.add
    reachard.Client.Targets.target_check reachard.Database.Targets.get
    reachard.Server.Upload.read_string reachard.Database.Targets.Update.Text.update_statement
    reachard.Tests.Updates.column reachard.Tests.Updates.behind_digits
    reachard.Tests.Updates.value_of reachard.Tests.Updates.int_of reachard.Text.print_int
    reachard.Client.Targets.transfer_complete reachard.Database.Targets.Update.update
    reachard.Database.Targets.Update.param_values reachard.Database.Targets.Update.query
run_actions-Keeps_example =
    run_actions-Keeps table_server sample_json queue sample_laws 7 8 (table_laws 7) (table_laws 8)
      (λ s. refl) db client_db some_actions polled both_open polled-Holds
      (
        (
          sample_tree,
          sample_target,
          codes "n",
          codes "u",
          sample-Body,
          refl,
          refl,
          refl,
          omega arith,
          refl,
        ),
        (tt, ((sample_tree, sample-Body, (λ e. cc)), ((0, refl, refl), (omega arith, tt)))),
      )
