-- ===== src/Tests/DatabaseCases.antt =====
-- The queries on the table in memory, and the migrations on a server that only keeps a version.
use reachard.Prelude.{ℕ, Bool, true, false, List, [], ◌∷◌, none, some, ◌≡◌, refl, pos}
use reachard.Text.{codes}
use reachard.System.{World}
use reachard.Database.{Db, connect}
use reachard.Database.Connecting.{connect-connection_made}
use reachard.Database.Targets.{Target, targets_free, get, get_all, add, delete}
use reachard.Database.Targets.Update.{Kv, up, boolean, update}
use reachard.Database.Table.{Row}
use reachard.Database.Refines.Rows.{IsOpen}
use reachard.Database.Refines.Changes.{update-update_rows}
use reachard.Tests.TableServer.{table, table_server, table_laws}

abbrev pub row : ℕ → Row
row n = record {
  id = pos n;
  name = codes "home";
  url = codes "http://a";
  interval = pos 5;
  up = true;
}

abbrev pub db : Db
db = record { conn = some 7; connstring = codes "postgresql://" }

abbrev pub world : List Row → List Bool → World (List Row)
world rows memory = record {
  server = rows;
  next_conn = 8;
  live = 7 ∷ [];
  results = 0;
  blocks = 0;
  jsons = 0;
  memory = memory;
  sent = [];
}

abbrev pub two_rows : List Row
two_rows = row 1 ∷ row 3 ∷ []

pub db-IsOpen : (rows : List Row) (memory : List Bool) → IsOpen 7 db (world rows memory)
db-IsOpen rows memory = record { conn_is = refl; is_open = refl }

connect-connection_made_example :
    (s : List Row) × (connect table_server (record { conn = none; connstring = [] }) (world [] [])
      ≡ some (
        (0, record { conn = some 8; connstring = [] }),
        record (world [] []) { server = s; next_conn = 9; live = 8 ∷ 7 ∷ [] },
      ))
connect-connection_made_example =
    connect-connection_made table_server (record { conn = none; connstring = [] }) (world [] [])

abbrev fresh : Target
fresh = record {
  id = pos 0;
  name = some (codes "new");
  url = some (codes "http://n");
  interval = pos 9;
  up = true;
}

abbrev down : Kv
down = record { key = up; value = boolean false }

update-update_rows_example :
    (s : List Row) × (update table_server db (pos 3) (down ∷ []) (world two_rows [])
      ≡ some (0, record (world two_rows []) { server = s }))
    × (table s ≡ row 1 ∷ record (row 3) { up = false } ∷ [])
unfolding reachard.Database.Targets.Update.Text.update_statement reachard.Tests.Updates.column
    reachard.Tests.Updates.behind_digits reachard.Tests.Updates.value_of
    reachard.Tests.Updates.int_of reachard.Text.print_int
update-update_rows_example =
    update-update_rows table_server 7 (table_laws 7) db (world two_rows []) (pos 3) down []
      (db-IsOpen two_rows []) (tt, tt) (tt, tt) ((λ e. cc), tt)
