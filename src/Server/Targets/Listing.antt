-- ===== src/Server/Targets/Listing.antt =====
-- GET of all targets, `reachard_handle_targets_get_all` of src/server/handle/targets.c.
use reachard.Prelude.{
  ℕ, suc, ◌+◌, Bool, true, false, List, [], ◌∷◌, none, some, ◌≡◌, refl, arith, if◌then◌else◌, map,
}
use reachard.Text.{codes}
use reachard.System.{Postgres, World, Response, is_tuples_ok}
use reachard.Database.{Db}
use reachard.Database.Table.{Row, target_of, IsTable}
use reachard.Database.Refines.Rows.{IsOpen}
use reachard.Database.Refines.Listing.{heap_of, listed, get_all-view, targets_free-heap_of}
use reachard.Server.Request.{Queue, plain, json, queued, http_ok, http_internal_server_error}
use reachard.Server.Json.{CJson}
use reachard.Server.Targets.Effects.{row_object}
use reachard.Server.Targets.{handle_get_all, get_all_answer, add_objects, target_object}

module _ (pg : Postgres) (cjson : CJson) (queue : Queue) (c : ℕ) (t : IsTable pg c) where
  -- The array with an object for each row, in order.
  abbrev pub rows_array : cjson.Tree → List Row → cjson.Tree
  rows_array array [] = array
  rows_array array (r ∷ rows) =
      rows_array (cjson.add_item array (row_object pg cjson queue c t r)) rows

  -- Each object moves into the array, so one tree is left to release.
  add_objects-rows_array :
      (array : cjson.Tree) (rows : List Row) (w : World pg.Server)
      → add_objects pg cjson queue array (map target_of rows) w ≡ some (rows_array array rows, w)
  unfolding add_objects target_object
  add_objects-rows_array array [] w = refl
  add_objects-rows_array array (r ∷ rows) w =
      add_objects-rows_array (cjson.add_item array (row_object pg cjson queue c t r)) rows w

  abbrev pub list_response : Bool → List Row → Response
  list_response false rows = plain (codes "failed to get targets") http_internal_server_error
  list_response true rows = json (cjson.print (rows_array cjson.array rows)) http_ok

  get_all_answer-list_response :
      (w : World pg.Server) (ok : Bool) (rows : List Row)
      → w.memory ≡ []
      → get_all_answer pg cjson queue
          (if ok then some (map target_of rows) else none)
          (record w { blocks = (if ok then heap_of rows else 0) + w.blocks })
        ≡ some (queued queue (list_response ok rows) w)
  unfolding get_all_answer
  get_all_answer-list_response w false rows m = ground arith
  get_all_answer-list_response w true rows m =
      let held : suc (heap_of rows + w.blocks) ≡ heap_of rows + suc w.blocks = omega arith in
      ground (
        arith,
        m,
        add_objects-rows_array cjson.array rows
            (record w { jsons = suc w.jsons; blocks = heap_of rows + w.blocks }),
        targets_free-heap_of (record w { memory = []; blocks = suc (heap_of rows + w.blocks) }) rows
            (suc w.blocks) held,
      )

  -- On an open connection to a table, where no allocation fails: GET of all targets answers with
  -- the array of the rows, in the order of the table, or 500 if the query fails. It changes no row,
  -- and gives back all that it took.
  pub handle_get_all-view :
      (db : Db) (w : World pg.Server)
      → IsOpen c db w
      → w.memory ≡ []
      → let ok = is_tuples_ok (listed pg c t w.server).0.status in
        (s : pg.Server) × (handle_get_all pg cjson queue db w
          ≡ some (queued queue (list_response ok (t.view w.server)) (record w { server = s })))
        × (t.view s ≡ t.view w.server)
  unfolding handle_get_all
  handle_get_all-view db w o m =
      let ok = is_tuples_ok (listed pg c t w.server).0.status in
      let (s, e, v) = get_all-view pg c t db w o m in
      (s, rw e (get_all_answer-list_response (record w { server = s }) ok (t.view w.server) m), v)
