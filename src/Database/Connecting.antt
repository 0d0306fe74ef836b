-- ===== src/Database/Connecting.antt =====
-- What `reachard_db_connect` leaves behind.
use reachard.Prelude.{
  suc, Bool, false, ◌&&◌, ◌∷◌, none, some, ◌≡◌, refl, arith, if◌then◌else◌, ==_iff,
}
use reachard.System.{Postgres, World, is_tuples_ok, is_live}
use reachard.Database.{Db, connect, deinit, search_path_query}

module _ (pg : Postgres) where
  -- The connection is established, and its search path is set.
  abbrev pub connection_made : Db → World pg.Server → Bool
  connection_made db w =
      pg.connects db.connstring w.server
      && is_tuples_ok (pg.exec w.next_conn search_path_query w.server).0.status

  -- `connect` opens exactly one connection when it returns 0, the one that it stores. When it
  -- returns 1 it has closed what it opened, and stores nothing. It gives back its `PGresult`.
  pub connect-connection_made :
      (db : Db) (w : World pg.Server)
      → let done = connection_made db w in
        (s : pg.Server) × (connect pg db w
          ≡ some (
            (if done then 0 else 1, if done then record db { conn = some w.next_conn } else db),
            record w {
              server = s;
              next_conn = suc w.next_conn;
              live = if done then w.next_conn ∷ w.live else w.live;
            },
          ))
  unfolding connect
  connect-connection_made db w = (
    (if pg.connects db.connstring w.server
        then (pg.exec w.next_conn search_path_query w.server).1
        else w.server),
    ground (arith, (==_iff w.next_conn w.next_conn).1 refl),
  )

  -- A connection that was closed cannot be closed again.
  pub deinit_twice :
      (db : Db) (w : World pg.Server) → is_live db.conn w.live ≡ false → deinit db w ≡ none
  unfolding deinit
  deinit_twice db w h = ground arith
