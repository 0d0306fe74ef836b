-- ===== src/Server/Life/Refused.antt =====
-- A request that the first call answers: no handler is called.
use reachard.Prelude.{
  suc, ◌<◌, false, ◌==◌, List, [], ◌∷◌, ◌∙◌, none, some, ◌≡◌, refl, arith, length, Bool-cases, inl,
  inr,
}
use reachard.Text.{Bytes, codes, atoi}
use reachard.System.{Postgres, World, Response}
use reachard.Database.{Db}
use reachard.Server.Connection.{ConnectionInfo, empty_info}
use reachard.Server.Url.{regexec}
use reachard.Server.Request.{Queue, queued, plain, http_bad_request}
use reachard.Server.Json.{CJson}
use reachard.Server.Handle.{route, handle, handle_first_call, handle_complete}
use reachard.Server.Handle.Routes.{handle_first_call-route, handle_first_call_refused}
use reachard.Server.Life.{serve, calls_from}

-- One response more is another number of responses.
length-ne : (r : Response) (sent : List Response) → (length (r ∷ sent) == length sent) ≡ false
length-ne r sent = ground arith

module _ (pg : Postgres) (cjson : CJson) (queue : Queue) where
  serve_answered :
      (db : Db) (url method : Bytes) (chunks : List Bytes) (info : ConnectionInfo) (r : Response)
      (w : World pg.Server)
      → info.upload_data ≡ none
      → (let (result, held) = queued queue r (record w { blocks = suc w.blocks }) in
          handle_first_call queue url method w ≡ some ((result, some info), held))
      → serve pg cjson queue db url method chunks w ≡ some (queued queue r w)
  unfolding serve calls_from handle handle_complete
  serve_answered db url method chunks info r w no_data called = elim (Bool-cases (queue w.sent r)) [
    | inl q ↦ rw (called, q, length-ne r w.sent, no_data) refl
    | inr q ↦ rw (called, q, no_data) refl
  ]

  -- Where no allocation fails, a request for a URL that does not match answers 400.
  pub serve_unmatched :
      (db : Db) (url method : Bytes) (chunks : List Bytes) (w : World pg.Server)
      → w.memory ≡ []
      → regexec url ≡ none
      → serve pg cjson queue db url method chunks w
        ≡ some (queued queue (plain (codes "url not allowed") http_bad_request) w)
  serve_unmatched db url method chunks w m e =
      serve_answered db url method chunks empty_info _ w refl
        (handle_first_call_refused queue url method w m e)

  -- Where no allocation fails, a request with a method that is not routed answers 400.
  pub serve_unrouted :
      (db : Db) (url method ds : Bytes) (chunks : List Bytes) (w : World pg.Server)
      → w.memory ≡ []
      → regexec url ≡ some ds
      → length ds < 12
      → route method (atoi ds) ≡ none
      → serve pg cjson queue db url method chunks w
        ≡ some (queued queue (plain (codes "method not allowed") http_bad_request) w)
  serve_unrouted db url method ds chunks w m e l r =
      serve_answered db url method chunks (record empty_info { id = some (atoi ds) }) _ w refl
        (handle_first_call-route queue url method ds w m e l ∙ rw r refl)
