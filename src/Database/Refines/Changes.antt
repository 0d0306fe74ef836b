-- ===== src/Database/Refines/Changes.antt =====
-- The queries that change rows other than `delete`: `add` and `update`.
use reachard.Prelude.{
  ℕ, true, List, [], ◌∷◌, ◌++◌, some, ◌≡◌, ℤ, pos, IsInt32, All, map, arith, if◌then◌else◌,
}
use reachard.Text.{Bytes, print_int}
use reachard.Text.Decimal.{snprintf_int-print_int}
use reachard.System.{Postgres, PgResult, World, is_tuples_ok, is_command_ok}
use reachard.Database.{Db}
use reachard.Database.Targets.{Target, add, insert_query}
use reachard.Database.Targets.Update.{id, Kv, update}
use reachard.Database.Targets.Update.Text.{update_statement, query-update_statement}
use reachard.Database.Targets.Update.Params.{
  text_of, IsTyped, IsFresh, IsDistinct, param_values-text_of,
}
use reachard.Database.Table.{Row, update_rows, stored, IsTable}
use reachard.Database.Refines.Rows.{atoi-print, IsOpen}

module _ (pg : Postgres) (c : ℕ) (t : IsTable pg c) where
  abbrev pub inserted : Bytes → Bytes → ℤ → pg.Server → PgResult × pg.Server
  inserted n u i s = pg.exec_params c insert_query (some n ∷ some u ∷ some (print_int i) ∷ []) s

  abbrev pub new_row : Bytes → Bytes → ℤ → pg.Server → Row
  new_row n u i s = record { id = t.next s; name = t.keep_name n; url = u; interval = i; up = true }

  -- On an open connection to a table: `add` of a target with a name, a URL and an interval that is
  -- an `int` appends its row and returns the next id, or changes no row and returns 1.
  pub add-next :
      (db : Db) (w : World pg.Server) (target : Target) (n u : Bytes)
      → IsOpen c db w
      → target.name ≡ some n
      → target.url ≡ some u
      → IsInt32 target.interval
      → let accepted = is_tuples_ok (inserted n u target.interval w.server).0.status in
        (s : pg.Server) × (add pg db target w
          ≡ some (if accepted then t.next w.server else pos 1, record w { server = s }))
        × (t.view s ≡ (
            if accepted
            then t.view w.server ++ new_row n u target.interval w.server ∷ []
            else t.view w.server))
  unfolding add
  add-next db w target n u o en eu h =
      let i = target.interval in
      let accepted = is_tuples_ok (inserted n u i w.server).0.status in
      (
        (inserted n u i w.server).1,
        rw (o.conn_is, snprintf_int-print_int i h, en, eu)
            (ground
              (arith, o.is_open, t.insert_done w.server n u i h, atoi-print (t.next w.server))),
        ground (arith, t.insert_done w.server n u i h, t.insert_failed w.server n u i h),
      )

  abbrev pub updated : ℤ → Kv → List Kv → pg.Server → PgResult × pg.Server
  updated k kv kvs s =
      pg.exec_params c (update_statement k kv kvs) (map (λ x. text_of x.value) (kv ∷ kvs)) s

  -- On an open connection to a table, with at least one pair, no field set twice, none of them the
  -- id, and values of the fields' types: `update` sets the columns in exactly the rows with the id
  -- when it returns 0, each to what the column keeps of its value, and else changes no row.
  pub update-update_rows :
      (db : Db) (w : World pg.Server) (k : ℤ) (kv : Kv) (kvs : List Kv)
      → IsOpen c db w
      → All IsTyped (kv ∷ kvs)
      → IsDistinct (kv ∷ kvs)
      → IsFresh id (kv ∷ kvs)
      → let done = is_command_ok (updated k kv kvs w.server).0.status in
        (s : pg.Server) × (update pg db k (kv ∷ kvs) w
          ≡ some (if done then 0 else 1, record w { server = s }))
        × (t.view s ≡ (
            if done
            then update_rows k (map (stored t.keep_name) (kv ∷ kvs)) (t.view w.server)
            else t.view w.server))
  unfolding update
  update-update_rows db w k kv kvs o ty di fr = (
    (updated k kv kvs w.server).1,
    rw (query-update_statement k kv kvs, param_values-text_of (kv ∷ kvs) ty di, o.conn_is)
        (ground (arith, o.is_open)),
    ground (arith, t.update_done w.server k kv kvs ty di fr),
  )
