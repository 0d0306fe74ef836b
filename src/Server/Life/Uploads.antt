-- ===== src/Server/Life/Uploads.antt =====
-- Whole requests: POST and GET from their first call to their completion.
use reachard.Prelude.{
  ℕ, suc, ◌<◌, ◌^◌, [], ◌∷◌, ◌++◌, none, some, ◌≡◌, arith, pos, IsInt32, All, length, if◌then◌else◌,
}
use reachard.Text.{Bytes, codes}
use reachard.System.{Postgres, World, is_tuples_ok}
use reachard.Database.{Db}
use reachard.Database.Targets.{Target}
use reachard.Database.Table.{IsTable}
use reachard.Database.Refines.Rows.{IsOpen}
use reachard.Database.Refines.Single.{found}
use reachard.Database.Refines.Changes.{inserted, new_row}
use reachard.Server.Upload.{upload, store}
use reachard.Server.Upload.Chunks.{body-upload_once}
use reachard.Server.Url.{regexec}
use reachard.Server.Url.Ids.{url_of}
use reachard.Server.Request.{Queue, queued}
use reachard.Server.Json.{CJson}
use reachard.Server.Targets.{post_fields, posted}
use reachard.Server.Targets.Effects.{get_response, handle_get-found}
use reachard.Server.Targets.Changes.{Body, post_response, handle_post-new_row}
use reachard.Server.Life.{serve}
use reachard.Server.Life.Handlers.{serve-handle_post, serve-handle_get}

module _ (pg : Postgres) (cjson : CJson) (queue : Queue) (c : ℕ) (t : IsTable pg c) where
  pub chunk-Body :
      (chunk : Bytes) (tree : cjson.Tree)
      → All (λ b. 0 < b) chunk
      → cjson.parse chunk ≡ some tree
      → Body pg cjson queue c t (store none 0 chunk) tree
  unfolding upload
  chunk-Body chunk tree h p = record { text = chunk; read = body-upload_once chunk h; parsed = p }

  -- On an open connection to a table, where no allocation fails: a whole POST request for a URL
  -- with up to eleven digits, or none, with a body of one chunk with no NUL, the text of an object
  -- that describes a target, appends its row and answers the next id, or changes no row and answers
  -- the id 1. It gives back all that it took, and hands one response to libmicrohttpd.
  pub serve-new_row :
      (db : Db) (w : World pg.Server) (url ds : Bytes) (b : ℕ) (bs : Bytes) (tree : cjson.Tree)
      (target : Target) (n u : Bytes)
      → IsOpen c db w
      → w.memory ≡ []
      → regexec url ≡ some ds
      → length ds < 12
      → All (λ b. 0 < b) (b ∷ bs)
      → cjson.parse (b ∷ bs) ≡ some tree
      → post_fields cjson tree ≡ posted target
      → target.name ≡ some n
      → target.url ≡ some u
      → IsInt32 target.interval
      → let accepted = is_tuples_ok (inserted pg c t n u target.interval w.server).0.status in
        (s : pg.Server) × (serve pg cjson queue db url (codes "POST") ((b ∷ bs) ∷ []) w
          ≡ some (
              queued queue
                (post_response pg cjson queue c t (if accepted then t.next w.server else pos 1))
                (record w { server = s })))
        × (t.view s ≡ (
            if accepted
            then t.view w.server ++ new_row pg c t n u target.interval w.server ∷ []
            else t.view w.server))
  serve-new_row db w url ds b bs tree target n u o m e l h p fields en eu small =
      let (s, called, v) =
        handle_post-new_row pg cjson queue c t db (record w { blocks = suc (suc w.blocks) })
          (store none 0 (b ∷ bs)) tree target n u
          (record { conn_is = o.conn_is; is_open = o.is_open }) m (chunk-Body (b ∷ bs) tree h p)
          fields en eu small in
      (
        s,
        serve-handle_post pg cjson queue db url ds b bs _ w (record w { server = s }) m e l called,
        v,
      )

  -- On an open connection to a table, where no allocation fails: a whole GET request for the URL of
  -- an id from 1 to 2 ^ 31 - 1 answers with the row's object, or 500 where there is no such row or
  -- the query fails. It changes no row, gives back all that it took, and hands one response to
  -- libmicrohttpd.
  pub serve-found :
      (db : Db) (w : World pg.Server) (k : ℕ)
      → IsOpen c db w
      → w.memory ≡ []
      → 0 < k
      → k < 2 ^ 31
      → (s : pg.Server) × (serve pg cjson queue db (url_of k) (codes "GET") [] w
          ≡ some (
              queued queue
                (get_response pg cjson queue c t (found pg c t (pos k) w.server))
                (record w { server = s })))
        × (t.view s ≡ t.view w.server)
  serve-found db w k o m p h =
      let (s, called, v) =
        handle_get-found pg cjson queue c t db (record w { blocks = suc w.blocks }) (pos k)
          (record { conn_is = o.conn_is; is_open = o.is_open }) m (omega arith) in
      (s, serve-handle_get pg cjson queue db k _ w (record w { server = s }) m p h called, v)
