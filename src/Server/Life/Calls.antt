-- ===== src/Server/Life/Calls.antt =====
-- A request whose first call finds a handler, to its completion, from what the handler does.
use reachard.Prelude.{
  ℕ, suc, ◌+◌, ◌<◌, List, [], ◌∷◌, none, some, ◌≡◌, refl, ℤ, length, ap, ◌∙◌, ==_iff, Bool-cases,
  inl, inr,
}
use reachard.Text.{Bytes, atoi}
use reachard.System.{Postgres, World, Response}
use reachard.Database.{Db}
use reachard.Server.Connection.{Cell, ConnectionInfo, empty_info, Handler}
use reachard.Server.Upload.{store}
use reachard.Server.Url.{regexec}
use reachard.Server.Request.{Queue, queued, MhdResult}
use reachard.Server.Json.{CJson}
use reachard.Server.Handle.{route, handle, handle_complete}
use reachard.Server.Handle.Routes.{handle_first_call-route}
use reachard.Server.Life.{serve, later_calls, calls_from}

module _ (pg : Postgres) (cjson : CJson) (queue : Queue) where
  -- A request whose first call finds a handler.
  serve_routed :
      (db : Db) (url method ds : Bytes) (chunks : List Bytes) (h : Handler) (w : World pg.Server)
      (result : MhdResult) (info : ConnectionInfo) (w1 w2 : World pg.Server)
      → w.memory ≡ []
      → regexec url ≡ some ds
      → length ds < 12
      → route method (atoi ds) ≡ some h
      → later_calls pg cjson queue db url method chunks
          (some (record empty_info { handle = some h; id = some (atoi ds) }))
          (record w { blocks = suc w.blocks })
        ≡ some ((result, some info), w1)
      → handle_complete (some info) w1 ≡ some (tt, w2)
      → serve pg cjson queue db url method chunks w ≡ some (result, w2)
  unfolding serve calls_from handle
  serve_routed db url method ds chunks h w result info w1 w2 m e l r calls done =
      rw
        (
          handle_first_call-route queue url method ds w m e l,
          r,
          (==_iff (length w.sent) (length w.sent)).1 refl,
          calls,
          done,
        )
        refl

  -- The end of a request that holds its structure and its body.
  complete_two :
      (info : ConnectionInfo) (cells : List Cell) (w : World pg.Server)
      → info.upload_data ≡ some cells
      → handle_complete (some info) (record w { blocks = suc (suc w.blocks) }) ≡ some (tt, w)
  unfolding handle_complete
  complete_two info cells w e = rw e refl

  complete_queued :
      (info : ConnectionInfo) (cells : List Cell) (r : Response) (w : World pg.Server)
      → info.upload_data ≡ some cells
      → handle_complete (some info) (queued queue r (record w { blocks = suc (suc w.blocks) })).1
        ≡ some (tt, (queued queue r w).1)
  complete_queued info cells r w e = elim (Bool-cases (queue w.sent r)) [
    | inl q ↦ rw q (complete_two info cells (record w { sent = r ∷ w.sent }) e)
    | inr q ↦ rw q (complete_two info cells w e)
  ]

  result_queued :
      (r : Response) (w : World pg.Server) (blocks : ℕ)
      → (queued queue r (record w { blocks = blocks })).0 ≡ (queued queue r w).0
  result_queued r w blocks = elim (Bool-cases (queue w.sent r)) [
    | inl q ↦ rw q refl
    | inr q ↦ rw q refl
  ]

  -- What a request has once its chunk is taken.
  abbrev pub uploaded : Handler → ℤ → Bytes → ConnectionInfo
  uploaded h k chunk = record {
    handle = some h;
    id = some k;
    upload_data = some (store none 0 chunk);
    upload_data_size = 0 + length chunk;
  }

  -- The end of a request that holds its structure alone.
  complete_one :
      (info : ConnectionInfo) (r : Response) (w : World pg.Server)
      → info.upload_data ≡ none
      → handle_complete (some info) (queued queue r (record w { blocks = suc w.blocks })).1
        ≡ some (tt, (queued queue r w).1)
  unfolding handle_complete
  complete_one info r w e = elim (Bool-cases (queue w.sent r)) [
    | inl q ↦ rw (q, e) refl
    | inr q ↦ rw (q, e) refl
  ]

  -- What a request without a body has.
  abbrev pub opened_with : Handler → ℤ → ConnectionInfo
  opened_with h k = record empty_info { handle = some h; id = some k }

  -- A request without a body, whose handler answers and holds on to nothing.
  pub serve_plain :
      (db : Db) (url method ds : Bytes) (h : Handler) (r : Response) (w w' : World pg.Server)
      → w.memory ≡ []
      → regexec url ≡ some ds
      → length ds < 12
      → route method (atoi ds) ≡ some h
      → (let (result, held) = queued queue r (record w' { blocks = suc w'.blocks }) in
          later_calls pg cjson queue db url method []
            (some (opened_with h (atoi ds)))
            (record w { blocks = suc w.blocks })
          ≡ some ((result, some (opened_with h (atoi ds))), held))
      → serve pg cjson queue db url method [] w ≡ some (queued queue r w')
  serve_plain db url method ds h r w w' m e l routed calls =
      serve_routed db url method ds [] h w _ (opened_with h (atoi ds)) _ (queued queue r w').1 m e l
        routed calls (complete_one (opened_with h (atoi ds)) r w' refl)
      ∙ ap (λ x. some (x, (queued queue r w').1)) (result_queued r w' (suc w'.blocks))

  -- A request with a body of one chunk, whose handler answers and holds on to nothing.
  pub serve_body :
      (db : Db) (url method ds : Bytes) (h : Handler) (b : ℕ) (bs : Bytes) (r : Response)
      (w w' : World pg.Server)
      → w.memory ≡ []
      → regexec url ≡ some ds
      → length ds < 12
      → route method (atoi ds) ≡ some h
      → (let (result, held) = queued queue r (record w' { blocks = suc (suc w'.blocks) }) in
          later_calls pg cjson queue db url method
            ((b ∷ bs) ∷ [])
            (some (opened_with h (atoi ds)))
            (record w { blocks = suc w.blocks })
          ≡ some ((result, some (uploaded h (atoi ds) (b ∷ bs))), held))
      → serve pg cjson queue db url method ((b ∷ bs) ∷ []) w ≡ some (queued queue r w')
  serve_body db url method ds h b bs r w w' m e l routed calls =
      let info = uploaded h (atoi ds) (b ∷ bs) in
      serve_routed db url method ds ((b ∷ bs) ∷ []) h w _ info _ (queued queue r w').1 m e l routed
        calls (complete_queued info (store none 0 (b ∷ bs)) r w' refl)
      ∙ ap (λ x. some (x, (queued queue r w').1)) (result_queued r w' (suc (suc w'.blocks)))
