-- ===== src/Server/Spec/Runs.antt =====
-- Every sequence of requests against the specification.
use reachard.Prelude.{
  ℕ, Bool, List, [], ◌∷◌, some, ◌≡◌, refl, ◌∙◌, ℤ, if◌then◌else◌, All, Bool-cases, inl, inr,
}
use reachard.System.{Postgres, World, Response, M, pure, ◌>>=◌}
use reachard.Database.{Db}
use reachard.Database.Table.{Row, IsTable, with_id}
use reachard.Database.Refines.Rows.{IsOpen}
use reachard.Server.Request.{Queue, queued}
use reachard.Server.Json.{CJson}
use reachard.Server.Targets.Fields.{IsCJson}
use reachard.Server.Life.{serve}
use reachard.Server.Life.Created.{queued-IsOpen, memory-queued}
use reachard.Server.Spec.{Call, url_of_call, method_of_call, chunks_of_call, spec}
use reachard.Server.Spec.Steps.{IsFit, takes, serve-Meets}

-- The responses that libmicrohttpd took, the last one first, and the rows.
abbrev pub Seen : Type 0
Seen = List Response × List Row

-- A response, to where libmicrohttpd takes it.
abbrev pub offered : Queue → Response → List Response → List Response
offered queue r sent = if queue sent r then r ∷ sent else sent

module _ (pg : Postgres) (cjson : CJson) (queue : Queue) where
  -- Requests one after another.
  unfoldable pub serve_all : Db → List Call → M pg.Server (Unit {0})
  serve_all db [] = pure tt
  serve_all db (call ∷ calls) = do
    _ ← serve pg cjson queue db (url_of_call call) (method_of_call call) (chunks_of_call call)
    serve_all db calls

  module _ (c : ℕ) (t : IsTable pg c) where
    abbrev pub seen : World pg.Server → Seen
    seen w = (w.sent, t.view w.server)

    -- A request, where `ok` says whether PostgreSQL takes the statement.
    abbrev pub seen_after : Bool → ℤ → Call → Seen → Seen
    seen_after ok next call (sent, rows) =
        let (answer, left) = spec pg cjson queue c t ok next call rows in
        (offered queue answer sent, left)

    -- What may be seen once fit requests are served: PostgreSQL takes a statement or fails it, and a
    -- new id is that of no row.
    pub data Run : List Call → Seen → Seen → Type 0 where
      served_none : {o : Seen} → Run [] o o
      served :
          {o o' : Seen} {call : Call} {calls : List Call} (ok : Bool) (next : ℤ)
          → IsFit pg cjson queue c t call
          → with_id next o.1 ≡ []
          → Run calls (seen_after ok next call o) o'
          → Run (call ∷ calls) o o'

    -- What requests leave as it was: everything but the responses and the server.
    abbrev pub Keeps : World pg.Server → World pg.Server → Type 0
    Keeps w w' = w' ≡ record w { sent = w'.sent; server = w'.server }

    pub seen-queued :
        (answer : Response) (rows : List Row) (w : World pg.Server) (s : pg.Server)
        → t.view s ≡ rows
        → seen (queued queue answer (record w { server = s })).1
          ≡ (offered queue answer w.sent, rows)
    seen-queued answer rows w s v = elim (Bool-cases (queue w.sent answer)) [
      | inl q ↦ rw (q, v) refl
      | inr q ↦ rw (q, v) refl
    ]

    queued-Keeps :
        (answer : Response) (w w' : World pg.Server) (s : pg.Server)
        → Keeps (queued queue answer (record w { server = s })).1 w'
        → Keeps w w'
    queued-Keeps answer w w' s keeps = elim (Bool-cases (queue w.sent answer)) [
      | inl q ↦ rw q at keeps
      | inr q ↦ rw q at keeps
    ]

    -- On an open connection to a table, where no allocation fails, with numbers of cJSON that are
    -- `int`s: any sequence of fit requests, one after another, is served to its end, and the
    -- responses and the rows that it leaves are a run of the specification, in which PostgreSQL may
    -- fail any statement and every new id is that of no row. All else is as before: what the
    -- requests took is given back. Fit is the list; GET and DELETE of an id from 1 to 2 ^ 31 - 1;
    -- PATCH of such an id with a body that is empty, no JSON or an object with a field that it
    -- knows; POST with any body, where a body is one chunk without NUL or none; any URL that does
    -- not match the pattern, and any method that no handler takes for a URL with at most eleven
    -- digits.
    pub serve_all-Run :
        (db : Db) (w : World pg.Server) (calls : List Call)
        → IsCJson cjson
        → IsOpen c db w
        → w.memory ≡ []
        → All (IsFit pg cjson queue c t) calls
        → (w' : World pg.Server) × (serve_all db calls w ≡ some (tt, w'))
          × Run calls (seen w) (seen w')
          × Keeps w w'
    unfolding serve_all
    serve_all-Run db w [] laws o m fit = (w, refl, served_none, refl)
    serve_all-Run db w (call ∷ calls) laws o m (fit, fits) =
        let ok = takes pg cjson queue c t call w.server in
        let (answer, rows) = spec pg cjson queue c t ok (t.next w.server) call (t.view w.server) in
        let (s, e, v) = serve-Meets pg cjson queue c t db w call laws o m fit in
        let held = record w { server = s } in
        let w1 = (queued queue answer held).1 in
        let (w', calls_e, run, keeps) =
          serve_all-Run db w1 calls laws
            (queued-IsOpen queue c db answer held
              (record { conn_is = o.conn_is; is_open = o.is_open }))
            (memory-queued queue answer held ∙ m) fits in
        (
          w',
          rw (e, calls_e) refl,
          served ok (t.next w.server) fit (t.next_fresh w.server)
              (rw (seen-queued answer rows w s v) at run),
          queued-Keeps answer w w' s keeps,
        )
