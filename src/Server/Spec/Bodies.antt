-- ===== src/Server/Spec/Bodies.antt =====
-- The handlers of POST and PATCH on a body that they refuse, or that is not there.
use reachard.Prelude.{◌<◌, List, none, some, ◌≡◌, refl, ℤ, All, arith}
use reachard.Text.{Bytes}
use reachard.System.{Postgres, World}
use reachard.Database.{Db}
use reachard.Server.Connection.{Cell}
use reachard.Server.Upload.{upload, store, read_string}
use reachard.Server.Upload.Chunks.{body-upload_once}
use reachard.Server.Request.{Queue, queued, plain, http_bad_request}
use reachard.Server.Json.{CJson}
use reachard.Server.Targets.{refused, post_fields, handle_post, handle_patch}
use reachard.Server.Spec.{no_json}

module _ (pg : Postgres) (cjson : CJson) (queue : Queue) where
  -- `handle_post` and `handle_patch` where the body is no JSON, or none is there.
  pub handle_post-no_json :
      (db : Db) (w : World pg.Server) (cells : List Cell) (text : Bytes)
      → read_string cells ≡ some text
      → cjson.parse text ≡ none
      → handle_post pg cjson queue db (some cells) w ≡ some (queued queue no_json w)
  unfolding handle_post
  handle_post-no_json db w cells text r p = ground (arith, r, p)

  pub handle_post-refused :
      (db : Db) (w : World pg.Server) (cells : List Cell) (text : Bytes) (tree : cjson.Tree)
      (reason : Bytes)
      → read_string cells ≡ some text
      → cjson.parse text ≡ some tree
      → post_fields cjson tree ≡ refused reason
      → handle_post pg cjson queue db (some cells) w
        ≡ some (queued queue (plain reason http_bad_request) w)
  unfolding handle_post
  handle_post-refused db w cells text tree reason r p f = ground (arith, r, p, f)

  pub handle_patch-no_json :
      (db : Db) (w : World pg.Server) (k : ℤ) (cells : List Cell) (text : Bytes)
      → read_string cells ≡ some text
      → cjson.parse text ≡ none
      → handle_patch pg cjson queue db k (some cells) w ≡ some (queued queue no_json w)
  unfolding handle_patch
  handle_patch-no_json db w k cells text r p = ground (arith, r, p)

  pub handle_post_empty :
      (db : Db) (w : World pg.Server)
      → handle_post pg cjson queue db none w ≡ some (queued queue no_json w)
  unfolding handle_post
  handle_post_empty db w = refl

  pub handle_patch_empty :
      (db : Db) (k : ℤ) (w : World pg.Server)
      → handle_patch pg cjson queue db k none w ≡ some (queued queue no_json w)
  unfolding handle_patch
  handle_patch_empty db k w = refl

  pub store-read_string :
      (chunk : Bytes) → All (λ b. 0 < b) chunk → read_string (store none 0 chunk) ≡ some chunk
  unfolding upload
  store-read_string chunk h = body-upload_once chunk h
