-- ===== src/Tests/ClientCases.antt =====
-- The client's checks over the table in memory.
use reachard.Prelude.{
  ℕ, Bool, true, List, [], ◌∷◌, none, some, ◌≡◌, refl, arith, ℤ, pos, if◌then◌else◌, ◌↔◌,
}
use reachard.Text.{codes}
use reachard.System.{World}
use reachard.Database.Table.{Row, same_id, update_rows}
use reachard.Client.Targets.{up_field, ClientTarget, Outcome, transfer_complete, target_check}
use reachard.Client.Targets.Checks.{
  IsSuccess, recorded, transfer_complete-is_up, target_check-found,
}
use reachard.Client.Watcher.{Watched, watcher_start, hash_find, watcher_delete, watcher_stop}
use reachard.Client.Watcher.Table.{IsUnique, held, watcher_delete-hash_find}
use reachard.Client.Watcher.Start.{watcher_start-started}
use reachard.Tests.TableServer.{table, table_server, table_laws}
use reachard.Tests.DatabaseCases.{db, db-IsOpen, world, two_rows}

abbrev polled : ℕ → Bool → ClientTarget
polled n up = record { id = pos n; up = up; repeat = 5000 }

-- A transfer that went well, with the status 404.
abbrev not_found : Outcome
not_found = record { result = 0; status = pos 404 }

abbrev transferring : List Row → World (List Row)
transferring rows = record (world rows []) { blocks = 1 }

transfer_complete-is_up_example :
    (s : List Row) × (up : Bool) × ((up ≡ true) ↔ IsSuccess not_found)
    × (transfer_complete table_server db not_found (polled 3 true) (transferring two_rows)
        ≡ some (
          record (polled 3 true) { up = up },
          record (transferring two_rows) { server = s; blocks = 0 },
        ))
    × (table s ≡ (
        if recorded table_server 7 (table_laws 7) (polled 3 true) up two_rows
        then update_rows (pos 3) (up_field up ∷ []) (table two_rows)
        else table two_rows))
transfer_complete-is_up_example =
    transfer_complete-is_up table_server 7 (table_laws 7) db (transferring two_rows) not_found
      (polled 3 true) 0 (record { conn_is = refl; is_open = refl }) refl

target_check-found_example :
    (s : List Row) × (target_check table_server db (polled 3 true) (world two_rows [])
      ≡ some
          (some (some (codes "http://a")), record (world two_rows []) { server = s; blocks = 1 }))
    × (table s ≡ two_rows)
target_check-found_example =
    target_check-found table_server 7 (table_laws 7) db (world two_rows []) (polled 3 true)
      (db-IsOpen two_rows []) refl (omega arith)

watcher_start-started_example :
    (s : List Row) × (watcher_start table_server db [] (world two_rows [])
      ≡ some (
        (0, polled 1 true ∷ polled 3 true ∷ []),
        record (world two_rows []) { server = s; blocks = 2 },
      ))
    × (table s ≡ two_rows)
watcher_start-started_example =
    watcher_start-started table_server 7 (table_laws 7) db (world two_rows [])
      (db-IsOpen two_rows []) refl ((pos 5000, refl), ((pos 5000, refl), tt))

abbrev two_polled : Watched
two_polled = record { targets = polled 1 true ∷ polled 3 true ∷ []; closing = 0 }

watcher_delete-hash_find_example :
    let after = watcher_delete (pos 3) two_polled in
    IsUnique after.targets
    × ((k : ℤ)
        → hash_find k after.targets
          ≡ (if same_id (pos 3) k then none else hash_find k two_polled.targets))
    × (held after ≡ 2)
watcher_delete-hash_find_example = watcher_delete-hash_find (pos 3) two_polled (refl, (refl, tt))

delete_third :
    watcher_delete (pos 3) two_polled ≡ record { targets = polled 1 true ∷ []; closing = 1 }
unfolding watcher_delete
delete_third = refl

stop_both : watcher_stop two_polled ≡ record { targets = []; closing = 2 }
unfolding watcher_stop
stop_both = refl
