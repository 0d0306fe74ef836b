-- ===== src/Server/Targets/Changes.antt =====
-- PATCH and POST of src/server/handle/targets.c, once their body is complete.
use mathlib.Core.Logic.{◌≢◌}
use reachard.Prelude.{
  ℕ, suc, Bool, true, false, List, [], ◌∷◌, ◌++◌, some, ◌≡◌, refl, ap, ◌∙◌, arith, ℤ, pos, IsInt32,
  if◌then◌else◌, All, map,
}
use reachard.Text.{Bytes, codes}
use reachard.System.{Postgres, World, Response, is_tuples_ok, is_command_ok}
use reachard.Database.{Db}
use reachard.Database.Targets.{Target}
use reachard.Database.Targets.Update.{id, Kv, update}
use reachard.Database.Targets.Update.Params.{IsTyped, IsFresh, IsDistinct}
use reachard.Database.Table.{Row, same_id, update_rows, stored, IsTable}
use reachard.Database.Refines.Rows.{IsOpen}
use reachard.Database.Refines.Changes.{update-update_rows, add-next, inserted, new_row, updated}
use reachard.Server.Connection.{Cell}
use reachard.Server.Upload.{read_string}
use reachard.Server.Request.{Queue, plain, json, queued, http_ok, http_internal_server_error}
use reachard.Server.Json.{CJson}
use reachard.Server.Targets.{handle_patch, handle_post, patch_fields, post_fields, posted}
use reachard.Server.Targets.Fields.{
  IsCJson, patched, set_columns-patch_fields, patch_fields-IsDistinct, patch_fields-IsTyped,
}

module _ (pg : Postgres) (cjson : CJson) (queue : Queue) (c : ℕ) (t : IsTable pg c) where
  -- The body of the request is the text of a tree.
  pub record Body (cells : List Cell) (tree : cjson.Tree) : Type 0 where
    pub text : Bytes
    pub read : read_string cells ≡ some text
    pub parsed : cjson.parse text ≡ some tree

  -- The rows with an id, patched by a JSON object.
  abbrev pub patch_rows : ℤ → cjson.Tree → List Row → List Row
  patch_rows k tree [] = []
  patch_rows k tree (r ∷ rs) =
      (if same_id r.id k then patched cjson t.keep_name tree r else r) ∷ patch_rows k tree rs

  update_rows-patch_rows :
      (k : ℤ) (tree : cjson.Tree) (rows : List Row)
      → update_rows k (map (stored t.keep_name) (patch_fields cjson tree)) rows
        ≡ patch_rows k tree rows
  update_rows-patch_rows k tree [] = refl
  update_rows-patch_rows k tree (r ∷ rs) =
      rw (set_columns-patch_fields cjson t.keep_name tree r, update_rows-patch_rows k tree rs) refl

  -- Whether PostgreSQL takes the update of a row.
  abbrev pub accepted : ℤ → List Kv → pg.Server → Bool
  accepted k [] s = false
  accepted k (kv ∷ kvs) s = is_command_ok (updated pg c t k kv kvs s).0.status

  update_nonempty :
      (db : Db) (w : World pg.Server) (k : ℤ) (kvs : List Kv)
      → IsOpen c db w
      → All IsTyped kvs
      → IsDistinct kvs
      → IsFresh id kvs
      → kvs ≢ []
      → let done = accepted k kvs w.server in
        (s : pg.Server) × (update pg db k kvs w
          ≡ some (if done then 0 else 1, record w { server = s }))
        × (t.view s ≡ (
            if done
            then update_rows k (map (stored t.keep_name) kvs) (t.view w.server)
            else t.view w.server))
  update_nonempty db w k [] o ty di fr ne = absurd (ne refl)
  update_nonempty db w k (kv ∷ kvs) o ty di fr ne =
      update-update_rows pg c t db w k kv kvs o ty di fr

  abbrev pub patch_response : Bool → Response
  patch_response true = plain [] http_ok
  patch_response false = plain (codes "failed to update the target") http_internal_server_error

  -- On an open connection to a table, with numbers of cJSON that are `int`s: PATCH with at least
  -- one field that it knows answers 200 when the rows with the id have the object's name, URL and
  -- interval, each where it is given and the name as its column keeps it, and 500 when no row was
  -- changed.
  pub handle_patch-patch_rows :
      (db : Db) (w : World pg.Server) (k : ℤ) (cells : List Cell) (tree : cjson.Tree)
      → IsCJson cjson
      → IsOpen c db w
      → Body cells tree
      → patch_fields cjson tree ≢ []
      → let done = accepted k (patch_fields cjson tree) w.server in
        (s : pg.Server) × (handle_patch pg cjson queue db k (some cells) w
          ≡ some (queued queue (patch_response done) (record w { server = s })))
        × (t.view s ≡ (if done then patch_rows k tree (t.view w.server) else t.view w.server))
  unfolding handle_patch
  handle_patch-patch_rows db w k cells tree laws o b ne =
      let (distinct, fresh) = patch_fields-IsDistinct cjson tree in
      let done = accepted k (patch_fields cjson tree) w.server in
      let (s, e, v) =
        update_nonempty db (record w { jsons = suc w.jsons }) k (patch_fields cjson tree)
          (record { conn_is = o.conn_is; is_open = o.is_open })
          (patch_fields-IsTyped cjson laws tree) distinct fresh ne in
      (
        s,
        ground (arith, b.read, b.parsed, e),
        v
            ∙ ap (λ rows. if done then rows else t.view w.server)
                (update_rows-patch_rows k tree (t.view w.server)),
      )

  abbrev pub post_response : ℤ → Response
  post_response k = json (cjson.print (cjson.add_number cjson.object (codes "id") k)) http_ok

  -- On an open connection to a table, where no allocation fails: POST of an object that describes a
  -- target appends its row, with the next id, and answers that id. Where the query fails it changes
  -- no row, and answers 200 and the id 1 all the same.
  pub handle_post-new_row :
      (db : Db) (w : World pg.Server) (cells : List Cell) (tree : cjson.Tree) (target : Target)
      (n u : Bytes)
      → IsOpen c db w
      → w.memory ≡ []
      → Body cells tree
      → post_fields cjson tree ≡ posted target
      → target.name ≡ some n
      → target.url ≡ some u
      → IsInt32 target.interval
      → let accepted = is_tuples_ok (inserted pg c t n u target.interval w.server).0.status in
        (s : pg.Server) × (handle_post pg cjson queue db (some cells) w
          ≡ some (
              queued queue
                (post_response (if accepted then t.next w.server else pos 1))
                (record w { server = s })))
        × (t.view s ≡ (
            if accepted
            then t.view w.server ++ new_row pg c t n u target.interval w.server ∷ []
            else t.view w.server))
  unfolding handle_post
  handle_post-new_row db w cells tree target n u o m b p en eu h =
      let (s, e, v) = add-next pg c t db (record w { jsons = suc w.jsons }) target n u o' en eu h in
      (s, ground (arith, m, b.read, b.parsed, p, e), v)
    where
      o' : IsOpen c db (record w { jsons = suc w.jsons })
      o' = record { conn_is = o.conn_is; is_open = o.is_open }
