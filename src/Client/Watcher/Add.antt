-- ===== src/Client/Watcher/Add.antt =====
-- `reachard_client_watcher_add` of src/client/watcher.c, on the table of Database.Table.
use reachard.Prelude.{ℕ, suc, [], ◌∷◌, ◌++◌, Option, none, some, ◌≡◌, refl, ℤ, IsInt32}
use reachard.System.{Postgres, World}
use reachard.Database.{Db}
use reachard.Database.Table.{Row, IsTable}
use reachard.Database.Refines.Rows.{IsOpen, to_target, hold_found}
use reachard.Database.Refines.Single.{found, get-find}
use reachard.Client.Watcher.{Watched, watcher_add, add_found}
use reachard.Client.Watcher.Start.{HasTimer, client_target, client_target_init-client_target}

-- A row with an interval that the timer takes, if there is one.
abbrev pub CanPoll : Option Row → Type 0
CanPoll none = Unit
CanPoll (some r) = HasTimer r

-- The code, and the table with the target of a row behind the others.
abbrev pub added : Option Row → Watched → ℕ × Watched
added none watched = (1, watched)
added (some r) watched = (0, record watched { targets = watched.targets ++ client_target r ∷ [] })

-- One block more for a target that is polled.
abbrev pub hold_target : {S : Type 0} → Option Row → World S → World S
hold_target none w = w
hold_target (some r) w = record w { blocks = suc w.blocks }

module _ {S : Type 0} where
  add_found-added :
      (watched : Watched) (r : Option Row) (w : World S)
      → w.memory ≡ []
      → CanPoll r
      → add_found watched (to_target r) (hold_found (to_target r) w)
        ≡ some (added r watched, hold_target r w)
  unfolding add_found
  add_found-added watched none w m h = refl
  add_found-added watched (some r) w m h =
      rw (client_target_init-client_target r (record w { blocks = suc (suc w.blocks) }) m h) refl

module _ (pg : Postgres) (c : ℕ) (t : IsTable pg c) where
  -- On an open connection to a table, where no allocation fails and the interval of the row with
  -- the id in milliseconds is an `int`: adding the id polls a target for its row, behind the
  -- others, and returns 0, or returns 1 and adds none where there is no such row or the query
  -- fails. It changes no row, and holds on to that target alone.
  pub watcher_add-added :
      (db : Db) (w : World pg.Server) (k : ℤ) (watched : Watched)
      → IsOpen c db w
      → w.memory ≡ []
      → IsInt32 k
      → CanPoll (found pg c t k w.server)
      → let r = found pg c t k w.server in
        (s : pg.Server) × (watcher_add pg db k watched w
          ≡ some (added r watched, hold_target r (record w { server = s })))
        × (t.view s ≡ t.view w.server)
  unfolding watcher_add
  watcher_add-added db w k watched o m h can =
      let (s, e, v) = get-find pg c t db w k o m h in
      (
        s,
        rw e (add_found-added watched (found pg c t k w.server) (record w { server = s }) m can),
        v,
      )
