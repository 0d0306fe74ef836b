-- ===== src/Server/Targets/Effects.antt =====
-- DELETE and GET of one target, src/server/handle/targets.c, on the table of Database.Table.
use reachard.Prelude.{
  ℕ, Bool, true, false, [], Option, none, some, ◌≡◌, refl, arith, ℤ, IsInt32, if◌then◌else◌,
}
use reachard.Text.{codes}
use reachard.System.{Postgres, World, Response, is_command_ok}
use reachard.Database.{Db}
use reachard.Database.Table.{Row, without_id, IsTable}
use reachard.Database.Refines.Rows.{IsOpen, to_target, hold_found}
use reachard.Database.Refines.Single.{delete-without_id, get-find, found, deleted}
use reachard.Server.Request.{Queue, plain, json, queued, http_ok, http_internal_server_error}
use reachard.Server.Json.{CJson}
use reachard.Server.Targets.{handle_delete, handle_get, get_answer, target_object}

module _ (pg : Postgres) (cjson : CJson) (queue : Queue) (c : ℕ) (t : IsTable pg c) where
  abbrev pub delete_response : Bool → Response
  delete_response true = plain [] http_ok
  delete_response false = plain (codes "failed to delete the target") http_internal_server_error

  -- On an open connection to a table: DELETE answers 200 when the rows with the id are gone, and
  -- 500 when no row was changed.
  pub handle_delete-without_id :
      (db : Db) (w : World pg.Server) (k : ℤ)
      → IsOpen c db w
      → IsInt32 k
      → let done = is_command_ok (deleted pg c t k w.server).0.status in
        (s : pg.Server) × (handle_delete pg cjson queue db k w
          ≡ some (queued queue (delete_response done) (record w { server = s })))
        × (t.view s ≡ (if done then without_id k (t.view w.server) else t.view w.server))
  unfolding handle_delete
  handle_delete-without_id db w k o h =
      let (s, e, v) = delete-without_id pg c t db w k o h in
      (s, rw (e, handle_delete) (ground arith), v)

  -- The object of a row: its id, its name, its URL and its interval.
  abbrev pub row_object : Row → cjson.Tree
  row_object r =
      let with_id = cjson.add_number cjson.object (codes "id") r.id in
      let with_name = cjson.add_string with_id (codes "name") (some r.name) in
      let with_url = cjson.add_string with_name (codes "url") (some r.url) in
      cjson.add_number with_url (codes "interval") r.interval

  abbrev pub get_response : Option Row → Response
  get_response none = plain (codes "failed to get the target") http_internal_server_error
  get_response (some r) = json (cjson.print (row_object r)) http_ok

  get_answer-get_response :
      (w : World pg.Server) (r : Option Row)
      → w.memory ≡ []
      → get_answer pg cjson queue (to_target r) (hold_found (to_target r) w)
        ≡ some (queued queue (get_response r) w)
  unfolding get_answer target_object
  get_answer-get_response w none m = refl
  get_answer-get_response w (some r) m = ground arith

  -- On an open connection to a table, where no allocation fails: GET of an id answers with the
  -- row's object, or 500 where there is no such row or the query fails. It changes no row, and
  -- gives back all that it took.
  pub handle_get-found :
      (db : Db) (w : World pg.Server) (k : ℤ)
      → IsOpen c db w
      → w.memory ≡ []
      → IsInt32 k
      → (s : pg.Server) × (handle_get pg cjson queue db k w
          ≡ some (queued queue (get_response (found pg c t k w.server)) (record w { server = s })))
        × (t.view s ≡ t.view w.server)
  unfolding handle_get
  handle_get-found db w k o m h =
      let (s, e, v) = get-find pg c t db w k o m h in
      (s, rw e (get_answer-get_response (record w { server = s }) (found pg c t k w.server) m), v)
