-- ===== src/Server/Spec/Steps.antt =====
-- One whole request against its specification.
use mathlib.Core.Logic.{◌≢◌}
use reachard.Prelude.{
  ℕ, suc, ◌<◌, ◌^◌, Bool, true, false, [], ◌∷◌, Option, none, some, ◌≡◌, refl, ap, ◌∙◌, ℤ, pos,
  IsInt32, All, arith, length, Option-cases, inl, inr,
}
use reachard.Text.{Bytes, codes, atoi}
use reachard.System.{Postgres, World, is_tuples_ok, is_command_ok}
use reachard.Database.{Db}
use reachard.Database.Table.{IsTable}
use reachard.Database.Refines.Rows.{IsOpen}
use reachard.Database.Refines.Single.{selected, deleted}
use reachard.Database.Refines.Listing.{listed}
use reachard.Database.Refines.Changes.{inserted}
use reachard.Server.Upload.{store}
use reachard.Server.Url.{regexec}
use reachard.Server.Request.{Queue, queued, plain, http_bad_request}
use reachard.Server.Json.{CJson}
use reachard.Server.Handle.{route}
use reachard.Server.Targets.{Posted, refused, posted, patch_fields}
use reachard.Server.Targets.Fields.{
  IsCJson, HasInterval, post_fields_iff, expected, post_fields-expected,
}
use reachard.Server.Targets.Listing.{handle_get_all-view}
use reachard.Server.Targets.Changes.{accepted}
use reachard.Server.Life.{serve}
use reachard.Server.Life.Handlers.{
  serve-handle_get_all, serve-handle_post, serve-handle_patch, serve-handle_post_empty,
  serve-handle_patch_empty,
}
use reachard.Server.Life.Refused.{serve_unmatched, serve_unrouted}
use reachard.Server.Life.Uploads.{serve-new_row, serve-found}
use reachard.Server.Life.Changed.{serve-patch_rows, serve-without_id}
use reachard.Server.Spec.{
  Call, list, read, drop, change, create, misplaced, unrouted, url_of_call, method_of_call,
  chunks_of_call, no_json, or_empty, spec, parse_text,
}
use reachard.Server.Spec.Bodies.{
  handle_post-no_json, handle_post-refused, handle_patch-no_json, handle_post_empty,
  handle_patch_empty, store-read_string,
}

-- An id that fits an `int`, and is not the 0 that stands for no id.
abbrev pub IsId : ℕ → Type 0
IsId k = (0 < k) × (k < 2 ^ 31)

-- The URL of all targets has no id.
regexec-root : regexec (codes "/targets/") ≡ some []
unfolding regexec
regexec-root = refl

interval-IsInt32 :
    (cjson : CJson) (tree : cjson.Tree) (i : ℤ)
    → IsCJson cjson
    → HasInterval cjson tree i
    → IsInt32 i
interval-IsInt32 cjson tree i laws (inl (e, five)) = rw five (ground arith)
interval-IsInt32 cjson tree i laws (inr (x, e, number)) = laws.number_range x i number

module _ (pg : Postgres) (cjson : CJson) (queue : Queue) (c : ℕ) (t : IsTable pg c) where
  -- Whether PostgreSQL takes the insert of a target.
  abbrev takes_posted : Posted → pg.Server → Bool
  takes_posted (refused reason) s = false
  takes_posted (posted target) s =
      is_tuples_ok
        (inserted pg c t (or_empty target.name) (or_empty target.url) target.interval s).0.status

  abbrev takes_create : Option cjson.Tree → pg.Server → Bool
  takes_create none s = false
  takes_create (some tree) s = takes_posted (expected cjson tree) s

  abbrev takes_change : ℕ → Option cjson.Tree → pg.Server → Bool
  takes_change k none s = false
  takes_change k (some tree) s = accepted pg cjson queue c t (pos k) (patch_fields cjson tree) s

  -- Whether PostgreSQL takes the statement of a request.
  abbrev pub takes : Call → pg.Server → Bool
  takes list s = is_tuples_ok (listed pg c t s).0.status
  takes (read k) s = is_tuples_ok (selected pg c t (pos k) s).0.status
  takes (drop k) s = is_command_ok (deleted pg c t (pos k) s).0.status
  takes (change k text) s = takes_change k (parse_text pg cjson queue c t text) s
  takes (create text) s = takes_create (parse_text pg cjson queue c t text) s
  takes _ s = false

  -- What a request promises at a state of the world.
  abbrev pub Meets : Db → World pg.Server → Call → Type 0
  Meets db w call =
      let (answer, rows) =
        spec pg cjson queue c t (takes call w.server) (t.next w.server) call (t.view w.server) in
      (s : pg.Server) × (serve pg cjson queue db (url_of_call call) (method_of_call call)
          (chunks_of_call call) w
        ≡ some (queued queue answer (record w { server = s })))
      × (t.view s ≡ rows)

  -- Objects of a PATCH set a field: `update` reads no array of none.
  abbrev pub SetsField : Option cjson.Tree → Type 0
  SetsField none = Unit
  SetsField (some tree) = patch_fields cjson tree ≢ []

  -- The requests that the specification speaks of.
  abbrev pub IsFit : Call → Type 0
  IsFit list = Unit
  IsFit (read k) = IsId k
  IsFit (drop k) = IsId k
  IsFit (change k text) =
      IsId k × All (λ b. 0 < b) text × SetsField (parse_text pg cjson queue c t text)
  IsFit (create text) = All (λ b. 0 < b) text
  IsFit (misplaced url method chunks) = regexec url ≡ none
  IsFit (unrouted url method chunks) =
      (ds : Bytes) × (regexec url ≡ some ds) × (length ds < 12) × (route method (atoi ds) ≡ none)

  get_all-Meets : (db : Db) (w : World pg.Server) → IsOpen c db w → w.memory ≡ [] → Meets db w list
  get_all-Meets db w o m =
      let (s, called, v) =
        handle_get_all-view pg cjson queue c t db (record w { blocks = suc w.blocks })
          (record { conn_is = o.conn_is; is_open = o.is_open }) m in
      (s, serve-handle_get_all pg cjson queue db _ w (record w { server = s }) m called, v)

  change-Meets :
      (db : Db) (w : World pg.Server) (k : ℕ) (text : Bytes)
      → IsCJson cjson
      → IsOpen c db w
      → w.memory ≡ []
      → IsFit (change k text)
      → Meets db w (change k text)
  change-Meets db w k [] laws o m ((p, h), _, _) = (
    w.server,
    serve-handle_patch_empty pg cjson queue db k no_json w w m p h
        (handle_patch_empty pg cjson queue db (pos k) (record w { blocks = suc w.blocks })),
    refl,
  )
  change-Meets db w k (b ∷ bs) laws o m ((p, h), bytes, sets) =
      elim (Option-cases (cjson.parse (b ∷ bs))) [
        | inl e ↦ rw e (
          w.server,
          serve-handle_patch pg cjson queue db k b bs no_json w w m p h (
              handle_patch-no_json pg cjson queue db (record w { blocks = suc (suc w.blocks) })
                (pos k) (store none 0 (b ∷ bs)) (b ∷ bs)
                (store-read_string pg cjson queue (b ∷ bs) bytes) e),
          refl,
        )
        | inr (tree, e) ↦ rw e (
            serve-patch_rows pg cjson queue c t db w k b bs tree laws o m p h bytes e
              (rw e at sets))
      ]

  -- The body of a POST that was parsed.
  posted-Meets :
      (db : Db) (w : World pg.Server) (b : ℕ) (bs : Bytes) (tree : cjson.Tree) (x : Posted)
      → IsCJson cjson
      → IsOpen c db w
      → w.memory ≡ []
      → All (λ b. 0 < b) (b ∷ bs)
      → cjson.parse (b ∷ bs) ≡ some tree
      → expected cjson tree ≡ x
      → Meets db w (create (b ∷ bs))
  posted-Meets db w b bs tree (refused reason) laws o m bytes e g =
      let f = post_fields-expected cjson tree ∙ g in
      rw (e, g)
        (
          w.server,
          serve-handle_post pg cjson queue db (codes "/targets/") [] b bs
              (plain reason http_bad_request) w w m regexec-root (omega arith)
              (handle_post-refused pg cjson queue db (record w { blocks = suc (suc w.blocks) })
                (store none 0 (b ∷ bs)) (b ∷ bs) tree reason
                (store-read_string pg cjson queue (b ∷ bs) bytes) e f),
          refl,
        )
  posted-Meets db w b bs tree (posted target) laws o m bytes e g =
      let f = post_fields-expected cjson tree ∙ g in
      let (n, u, i, en, eu, interval, is) = (post_fields_iff cjson tree target).0 f in
      rw (e, g, is)
        (serve-new_row pg cjson queue c t db w (codes "/targets/") [] b bs tree
          (record { id = pos 0; name = some n; url = some u; interval = i; up = true }) n u o m
          regexec-root (omega arith) bytes e (f ∙ ap posted is) refl refl
          (interval-IsInt32 cjson tree i laws interval))

  create-Meets :
      (db : Db) (w : World pg.Server) (text : Bytes)
      → IsCJson cjson
      → IsOpen c db w
      → w.memory ≡ []
      → IsFit (create text)
      → Meets db w (create text)
  create-Meets db w [] laws o m _ = (
    w.server,
    serve-handle_post_empty pg cjson queue db (codes "/targets/") [] no_json w w m regexec-root
        (omega arith) (handle_post_empty pg cjson queue db (record w { blocks = suc w.blocks })),
    refl,
  )
  create-Meets db w (b ∷ bs) laws o m bytes = elim (Option-cases (cjson.parse (b ∷ bs))) [
    | inl e ↦ rw e (
      w.server,
      serve-handle_post pg cjson queue db (codes "/targets/") [] b bs no_json w w m regexec-root
          (omega arith)
          (handle_post-no_json pg cjson queue db (record w { blocks = suc (suc w.blocks) })
            (store none 0 (b ∷ bs)) (b ∷ bs) (store-read_string pg cjson queue (b ∷ bs) bytes) e),
      refl,
    )
    | inr (tree, e) ↦ posted-Meets db w b bs tree (expected cjson tree) laws o m bytes e refl
  ]

  -- On an open connection to a table, where no allocation fails, with numbers of cJSON that are
  -- `int`s: a fit request, from its first call to its completion, gives the answer of the
  -- specification and leaves its rows, where PostgreSQL takes the statement exactly if its result
  -- has the status of success, and the next id is that of the table.
  pub serve-Meets :
      (db : Db) (w : World pg.Server) (call : Call)
      → IsCJson cjson
      → IsOpen c db w
      → w.memory ≡ []
      → IsFit call
      → Meets db w call
  serve-Meets db w list laws o m fit = get_all-Meets db w o m
  serve-Meets db w (read k) laws o m (p, h) = serve-found pg cjson queue c t db w k o m p h
  serve-Meets db w (drop k) laws o m (p, h) = serve-without_id pg cjson queue c t db w k o m p h
  serve-Meets db w (change k text) laws o m fit = change-Meets db w k text laws o m fit
  serve-Meets db w (create text) laws o m fit = create-Meets db w text laws o m fit
  serve-Meets db w (misplaced url method chunks) laws o m e =
      (w.server, serve_unmatched pg cjson queue db url method chunks w m e, refl)
  serve-Meets db w (unrouted url method chunks) laws o m (ds, e, l, r) =
      (w.server, serve_unrouted pg cjson queue db url method ds chunks w m e l r, refl)
