-- ===== src/Database/Refines/Single.antt =====
-- The queries on one row: `delete` and `get`.
use reachard.Prelude.{
  ℕ, suc, List, [], ◌∷◌, Option, none, some, ◌≡◌, refl, ℤ, IsInt32, All, map, arith, if◌then◌else◌,
}
use reachard.Text.{print_int}
use reachard.Text.Decimal.{snprintf_int-print_int}
use reachard.System.{Postgres, PgResult, World, is_tuples_ok, is_command_ok}
use reachard.Database.{Db}
use reachard.Database.Targets.{delete, get_row, get, select_query, delete_query}
use reachard.Database.Table.{Row, InRange, encode_row, with_id, without_id, first, find, IsTable}
use reachard.Database.Refines.Rows.{atoi-print, with_id-InRange, hold_found, to_target, IsOpen}

module _ (pg : Postgres) (c : ℕ) (t : IsTable pg c) where
  abbrev pub selected : ℤ → pg.Server → PgResult × pg.Server
  selected k s = pg.exec_params c select_query (some (print_int k) ∷ []) s

  abbrev pub deleted : ℤ → pg.Server → PgResult × pg.Server
  deleted k s = pg.exec_params c delete_query (some (print_int k) ∷ []) s

  abbrev pub found : ℤ → pg.Server → Option Row
  found k s = if is_tuples_ok (selected k s).0.status then find k (t.view s) else none

  -- On an open connection to a table: `delete` removes exactly the rows with the id when it returns
  -- 0, and else none; it gives back all that it takes.
  pub delete-without_id :
      (db : Db) (w : World pg.Server) (k : ℤ)
      → IsOpen c db w
      → IsInt32 k
      → let done = is_command_ok (deleted k w.server).0.status in
        (s : pg.Server) × (delete pg db k w ≡ some (if done then 0 else 1, record w { server = s }))
        × (t.view s ≡ (if done then without_id k (t.view w.server) else t.view w.server))
  unfolding delete
  delete-without_id db w k o h = (
    (deleted k w.server).1,
    rw (o.conn_is, snprintf_int-print_int k h) (ground (arith, o.is_open)),
    ground (arith, t.delete_done w.server k h),
  )

  get_row-first :
      (w : World pg.Server) (res : PgResult) (s : pg.Server) (rows : List Row)
      → w.memory ≡ []
      → All InRange rows
      → res.rows ≡ map encode_row rows
      → get_row pg res res.rows (record w { server = s; results = suc w.results })
        ≡ some
            (to_target (first rows), hold_found (to_target (first rows)) (record w { server = s }))
  unfolding get_row
  get_row-first w res s [] m h e = rw (e, get_row) refl
  get_row-first w res s (r ∷ rs) m h e =
      ground (arith, m, e, atoi-print r.id h.0.0, atoi-print r.interval h.0.1)

  -- On an open connection to a table, where no allocation fails: `get` finds the row with the id,
  -- and returns 1 if there is none or the query fails. It changes no row, and holds on to the two
  -- strings of what it found.
  pub get-find :
      (db : Db) (w : World pg.Server) (k : ℤ)
      → IsOpen c db w
      → w.memory ≡ []
      → IsInt32 k
      → (s : pg.Server) × (get pg db k w
          ≡ some (
            to_target (found k w.server),
            hold_found (to_target (found k w.server)) (record w { server = s }),
          ))
        × (t.view s ≡ t.view w.server)
  unfolding get
  get-find db w k o m h = (
    (selected k w.server).1,
    rw (o.conn_is, snprintf_int-print_int k h)
        (ground (
          arith,
          o.is_open,
          t.select_rows w.server k h,
          get_row-first w (selected k w.server).0 (selected k w.server).1
              (with_id k (t.view w.server)) m
              (with_id-InRange k (t.view w.server) (t.in_range w.server)),
        )),
    t.select_view w.server k,
  )
