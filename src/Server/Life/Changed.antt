-- ===== src/Server/Life/Changed.antt =====
-- PATCH and DELETE from their first call to their completion.
use mathlib.Core.Logic.{◌≢◌}
use reachard.Prelude.{ℕ, suc, ◌<◌, ◌^◌, [], ◌∷◌, none, some, ◌≡◌, arith, pos, All, if◌then◌else◌}
use reachard.Text.{Bytes, codes}
use reachard.System.{Postgres, World, is_command_ok}
use reachard.Database.{Db}
use reachard.Database.Table.{IsTable, without_id}
use reachard.Database.Refines.Rows.{IsOpen}
use reachard.Database.Refines.Single.{deleted}
use reachard.Server.Upload.{store}
use reachard.Server.Url.Ids.{url_of}
use reachard.Server.Request.{Queue, queued}
use reachard.Server.Json.{CJson}
use reachard.Server.Targets.{patch_fields}
use reachard.Server.Targets.Fields.{IsCJson}
use reachard.Server.Targets.Effects.{delete_response, handle_delete-without_id}
use reachard.Server.Targets.Changes.{patch_rows, patch_response, accepted, handle_patch-patch_rows}
use reachard.Server.Life.{serve}
use reachard.Server.Life.Handlers.{serve-handle_patch, serve-handle_delete}
use reachard.Server.Life.Uploads.{chunk-Body}

module _ (pg : Postgres) (cjson : CJson) (queue : Queue) (c : ℕ) (t : IsTable pg c) where
  -- On an open connection to a table, where no allocation fails, with numbers of cJSON that are
  -- `int`s: a whole PATCH request for the URL of an id from 1 to 2 ^ 31 - 1, with a body of one
  -- chunk with no NUL, the text of an object with at least one field that it knows, answers 200
  -- when the rows with the id have the object's name, URL and interval, each where it is given, and
  -- 500 when no row was changed. It gives back all that it took, and hands one response to
  -- libmicrohttpd.
  pub serve-patch_rows :
      (db : Db) (w : World pg.Server) (k b : ℕ) (bs : Bytes) (tree : cjson.Tree)
      → IsCJson cjson
      → IsOpen c db w
      → w.memory ≡ []
      → 0 < k
      → k < 2 ^ 31
      → All (λ b. 0 < b) (b ∷ bs)
      → cjson.parse (b ∷ bs) ≡ some tree
      → patch_fields cjson tree ≢ []
      → let done = accepted pg cjson queue c t (pos k) (patch_fields cjson tree) w.server in
        (s : pg.Server) × (serve pg cjson queue db (url_of k) (codes "PATCH") ((b ∷ bs) ∷ []) w
          ≡ some (queued queue (patch_response pg cjson queue c t done) (record w { server = s })))
        × (t.view s ≡ (
            if done
            then patch_rows pg cjson queue c t (pos k) tree (t.view w.server)
            else t.view w.server))
  serve-patch_rows db w k b bs tree laws o m p h text parsed ne =
      let (s, called, v) =
        handle_patch-patch_rows pg cjson queue c t db (record w { blocks = suc (suc w.blocks) })
          (pos k) (store none 0 (b ∷ bs)) tree laws
          (record { conn_is = o.conn_is; is_open = o.is_open })
          (chunk-Body pg cjson queue c t (b ∷ bs) tree text parsed) ne in
      (s, serve-handle_patch pg cjson queue db k b bs _ w (record w { server = s }) m p h called, v)

  -- On an open connection to a table, where no allocation fails: a whole DELETE request for the URL
  -- of an id from 1 to 2 ^ 31 - 1 answers 200 when the rows with the id are gone, and 500 when no
  -- row was changed. It gives back all that it took, and hands one response to libmicrohttpd.
  pub serve-without_id :
      (db : Db) (w : World pg.Server) (k : ℕ)
      → IsOpen c db w
      → w.memory ≡ []
      → 0 < k
      → k < 2 ^ 31
      → let done = is_command_ok (deleted pg c t (pos k) w.server).0.status in
        (s : pg.Server) × (serve pg cjson queue db (url_of k) (codes "DELETE") [] w
          ≡ some (queued queue (delete_response pg cjson queue c t done) (record w { server = s })))
        × (t.view s ≡ (if done then without_id (pos k) (t.view w.server) else t.view w.server))
  serve-without_id db w k o m p h =
      let (s, called, v) =
        handle_delete-without_id pg cjson queue c t db (record w { blocks = suc w.blocks }) (pos k)
          (record { conn_is = o.conn_is; is_open = o.is_open }) (omega arith) in
      (s, serve-handle_delete pg cjson queue db k _ w (record w { server = s }) m p h called, v)
