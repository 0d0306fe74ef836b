-- ===== src/Server/Life/Handlers.antt =====
-- Whole requests, by the handler that they reach.
use reachard.Prelude.{ℕ, suc, ◌<◌, ◌^◌, [], ◌∷◌, none, some, ◌≡◌, refl, arith, pos, length}
use reachard.Text.{Bytes, codes, atoi, decimal}
use reachard.System.{Postgres, World, Response}
use reachard.Database.{Db}
use reachard.Server.Connection.{
  targets_get, targets_post, targets_delete, targets_patch, targets_get_all,
}
use reachard.Server.Upload.{upload, store, handle_upload_data}
use reachard.Server.Url.{regexec}
use reachard.Server.Url.Ids.{url_of, regexec-url_of, atoi-decimal_small, length-decimal_small}
use reachard.Server.Request.{Queue, queued}
use reachard.Server.Json.{CJson}
use reachard.Server.Handle.{run}
use reachard.Server.Handle.Routes.{route_iff}
use reachard.Server.Targets.{handle_get, handle_get_all, handle_post, handle_delete, handle_patch}
use reachard.Server.Life.{serve, later_calls}
use reachard.Server.Life.Calls.{serve_plain, serve_body}

-- The URL of an id, as the first call reads it.
url_read :
    (k : ℕ)
    → k < 2 ^ 31
    → (regexec (url_of k) ≡ some (decimal k))
      × (length (decimal k) < 12)
      × (atoi (decimal k) ≡ pos k)
url_read k h =
    (regexec-url_of k (omega arith), length-decimal_small k (omega arith), atoi-decimal_small k h)

module _ (pg : Postgres) (cjson : CJson) (queue : Queue) where
  pub serve-handle_post :
      (db : Db) (url ds : Bytes) (b : ℕ) (bs : Bytes) (r : Response) (w w' : World pg.Server)
      → w.memory ≡ []
      → regexec url ≡ some ds
      → length ds < 12
      → handle_post pg cjson queue db
          (some (store none 0 (b ∷ bs)))
          (record w { blocks = suc (suc w.blocks) })
        ≡ some (queued queue r (record w' { blocks = suc (suc w'.blocks) }))
      → serve pg cjson queue db url (codes "POST") ((b ∷ bs) ∷ []) w ≡ some (queued queue r w')
  unfolding later_calls run upload handle_upload_data
  serve-handle_post db url ds b bs r w w' m e l called =
      serve_body pg cjson queue db url (codes "POST") ds targets_post b bs r w w' m e l
        ((route_iff (codes "POST") (atoi ds) targets_post).1 refl) (rw m (rw (rw m at called) refl))

  pub serve-handle_patch :
      (db : Db) (k b : ℕ) (bs : Bytes) (r : Response) (w w' : World pg.Server)
      → w.memory ≡ []
      → 0 < k
      → k < 2 ^ 31
      → handle_patch pg cjson queue db
          (pos k)
          (some (store none 0 (b ∷ bs)))
          (record w { blocks = suc (suc w.blocks) })
        ≡ some (queued queue r (record w' { blocks = suc (suc w'.blocks) }))
      → serve pg cjson queue db (url_of k) (codes "PATCH") ((b ∷ bs) ∷ []) w
        ≡ some (queued queue r w')
  unfolding later_calls run upload handle_upload_data
  serve-handle_patch db k b bs r w w' m p h called =
      let (url, short, read) = url_read k h in
      serve_body pg cjson queue db (url_of k) (codes "PATCH") (decimal k) targets_patch b bs r w w'
        m url short
        ((route_iff (codes "PATCH") (atoi (decimal k)) targets_patch).1
          (refl, rw read (ground arith)))
        (rw m (rw (read, rw m at called) refl))

  pub serve-handle_get :
      (db : Db) (k : ℕ) (r : Response) (w w' : World pg.Server)
      → w.memory ≡ []
      → 0 < k
      → k < 2 ^ 31
      → handle_get pg cjson queue db (pos k) (record w { blocks = suc w.blocks })
        ≡ some (queued queue r (record w' { blocks = suc w'.blocks }))
      → serve pg cjson queue db (url_of k) (codes "GET") [] w ≡ some (queued queue r w')
  unfolding later_calls run
  serve-handle_get db k r w w' m p h called =
      let (url, short, read) = url_read k h in
      serve_plain pg cjson queue db (url_of k) (codes "GET") (decimal k) targets_get r w w' m url
        short
        ((route_iff (codes "GET") (atoi (decimal k)) targets_get).1 (refl, rw read (ground arith)))
        (rw (read, called) refl)

  pub serve-handle_delete :
      (db : Db) (k : ℕ) (r : Response) (w w' : World pg.Server)
      → w.memory ≡ []
      → 0 < k
      → k < 2 ^ 31
      → handle_delete pg cjson queue db (pos k) (record w { blocks = suc w.blocks })
        ≡ some (queued queue r (record w' { blocks = suc w'.blocks }))
      → serve pg cjson queue db (url_of k) (codes "DELETE") [] w ≡ some (queued queue r w')
  unfolding later_calls run
  serve-handle_delete db k r w w' m p h called =
      let (url, short, read) = url_read k h in
      serve_plain pg cjson queue db (url_of k) (codes "DELETE") (decimal k) targets_delete r w w' m
        url short
        ((route_iff (codes "DELETE") (atoi (decimal k)) targets_delete).1
          (refl, rw read (ground arith)))
        (rw (read, called) refl)

  pub serve-handle_get_all :
      (db : Db) (r : Response) (w w' : World pg.Server)
      → w.memory ≡ []
      → handle_get_all pg cjson queue db (record w { blocks = suc w.blocks })
        ≡ some (queued queue r (record w' { blocks = suc w'.blocks }))
      → serve pg cjson queue db (codes "/targets/") (codes "GET") [] w ≡ some (queued queue r w')
  unfolding later_calls run regexec
  serve-handle_get_all db r w w' m called =
      serve_plain pg cjson queue db (codes "/targets/") (codes "GET") [] targets_get_all r w w' m
        refl (omega arith) ((route_iff (codes "GET") (atoi []) targets_get_all).1 (refl, refl))
        (rw called refl)

  -- POST and PATCH without a body.
  pub serve-handle_post_empty :
      (db : Db) (url ds : Bytes) (r : Response) (w w' : World pg.Server)
      → w.memory ≡ []
      → regexec url ≡ some ds
      → length ds < 12
      → handle_post pg cjson queue db none (record w { blocks = suc w.blocks })
        ≡ some (queued queue r (record w' { blocks = suc w'.blocks }))
      → serve pg cjson queue db url (codes "POST") [] w ≡ some (queued queue r w')
  unfolding later_calls run
  serve-handle_post_empty db url ds r w w' m e l called =
      serve_plain pg cjson queue db url (codes "POST") ds targets_post r w w' m e l
        ((route_iff (codes "POST") (atoi ds) targets_post).1 refl) (rw called refl)

  pub serve-handle_patch_empty :
      (db : Db) (k : ℕ) (r : Response) (w w' : World pg.Server)
      → w.memory ≡ []
      → 0 < k
      → k < 2 ^ 31
      → handle_patch pg cjson queue db (pos k) none (record w { blocks = suc w.blocks })
        ≡ some (queued queue r (record w' { blocks = suc w'.blocks }))
      → serve pg cjson queue db (url_of k) (codes "PATCH") [] w ≡ some (queued queue r w')
  unfolding later_calls run
  serve-handle_patch_empty db k r w w' m p h called =
      let (url, short, read) = url_read k h in
      serve_plain pg cjson queue db (url_of k) (codes "PATCH") (decimal k) targets_patch r w w' m
        url short
        ((route_iff (codes "PATCH") (atoi (decimal k)) targets_patch).1
          (refl, rw read (ground arith)))
        (rw (read, called) refl)
