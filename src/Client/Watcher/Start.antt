-- ===== src/Client/Watcher/Start.antt =====
-- `reachard_client_watcher_start` of src/client/watcher.c, on the table of Database.Table.
use mathlib.Core.List.{append_assoc, append-nil}
use reachard.Prelude.{
  ℕ, suc, ◌+◌, Bool, true, false, List, [], ◌∷◌, ◌++◌, Option, none, some, ◌≡◌, refl, arith, ℤ,
  if◌then◌else◌, All, map, length, length-map, to_uint64,
}
use reachard.System.{Postgres, World, is_tuples_ok}
use reachard.Database.{Db}
use reachard.Database.Table.{Row, target_of, IsTable}
use reachard.Database.Refines.Rows.{IsOpen}
use reachard.Database.Refines.Listing.{get_all-view, targets_free-heap_of, heap_of, listed}
use reachard.Client.Targets.{ClientTarget, interval_ms, client_target_init}
use reachard.Client.Watcher.{start_targets, start_listed, watcher_start}

-- The interval of a row in milliseconds, where it is an `int`.
abbrev pub HasTimer : Row → Type 0
HasTimer r = (ms : ℤ) × (interval_ms r.interval ≡ some ms)

abbrev timer_of : Option ℤ → ℕ
timer_of none = 0
timer_of (some ms) = to_uint64 ms

-- The target that polls a row.
abbrev pub client_target : Row → ClientTarget
client_target r = record { id = r.id; up = r.up; repeat = timer_of (interval_ms r.interval) }

-- The code that the start returns, and the table that it leaves.
abbrev pub started_from : Bool → List Row → ℕ × List ClientTarget
started_from true rows = (0, map client_target rows)
started_from false rows = (1, [])

module _ {S : Type 0} where
  pub client_target_init-client_target :
      (r : Row) (w : World S)
      → w.memory ≡ []
      → HasTimer r
      → client_target_init (target_of r) w
        ≡ some (some (client_target r), record w { blocks = suc w.blocks })
  unfolding client_target_init
  client_target_init-client_target r w m (ms, e) = ground (arith, m, e)

  start_targets-map :
      (rows : List Row) (targets : List ClientTarget) (w : World S)
      → w.memory ≡ []
      → All HasTimer rows
      → start_targets (map target_of rows) targets w
        ≡ some
            ((0, targets ++ map client_target rows), record w { blocks = length rows + w.blocks })
  unfolding start_targets
  start_targets-map [] targets w m h = rw (append-nil targets) (ground arith)
  start_targets-map (r ∷ rows) targets w m h = rw (client_target_init-client_target r w m h.0) (
      rw
        (start_targets-map rows (targets ++ client_target r ∷ [])
          (record w { blocks = suc w.blocks }) m h.1)
        (rw (append_assoc targets (client_target r ∷ []) (map client_target rows)) (ground arith)))

  -- What the start makes of the rows that were listed.
  start_listed-map :
      (w : World S) (ok : Bool) (rows : List Row)
      → w.memory ≡ []
      → All HasTimer rows
      → let result = started_from ok rows in
        start_listed
          (if ok then some (map target_of rows) else none)
          []
          (record w { blocks = (if ok then heap_of rows else 0) + w.blocks })
        ≡ some (result, record w { blocks = length result.1 + w.blocks })
  unfolding start_listed
  start_listed-map w false rows m h = ground arith
  start_listed-map w true rows m h =
      rw (start_targets-map rows [] (record w { blocks = heap_of rows + w.blocks }) m h) (
        rw
          (targets_free-heap_of (record w { blocks = length rows + (heap_of rows + w.blocks) }) rows
            (length rows + w.blocks) (omega arith))
          (rw (length-map rows client_target) refl))

module _ (pg : Postgres) (c : ℕ) (t : IsTable pg c) where
  abbrev pub started : pg.Server → ℕ × List ClientTarget
  started s = started_from (is_tuples_ok (listed pg c t s).0.status) (t.view s)

  -- On an open connection to a table, where no allocation fails and every interval in milliseconds
  -- is an `int`: the start of the watcher polls one target for each row, in the order of the table,
  -- with its id, its status and its interval, or none if the query fails. It holds on to these
  -- targets alone.
  pub watcher_start-started :
      (db : Db) (w : World pg.Server)
      → IsOpen c db w
      → w.memory ≡ []
      → All HasTimer (t.view w.server)
      → (s : pg.Server) × (watcher_start pg db [] w
          ≡ some (
            started w.server,
            record w { server = s; blocks = length (started w.server).1 + w.blocks },
          ))
        × (t.view s ≡ t.view w.server)
  unfolding watcher_start
  watcher_start-started db w o m h =
      let (s, e, v) = get_all-view pg c t db w o m in
      (
        s,
        rw e (
            start_listed-map (record w { server = s })
              (is_tuples_ok (listed pg c t w.server).0.status) (t.view w.server) m h),
        v,
      )
