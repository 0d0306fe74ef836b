-- ===== src/Server/Spec/Apart.antt =====
-- Requests that name other ids leave a row alone.
use mathlib.Core.Logic.{◌≢◌}
use reachard.Prelude.{
  ℕ, Bool, true, false, List, [], ◌∷◌, ◌++◌, Option, none, some, ◌≡◌, refl, ◌∙◌, ap, ℤ, pos, negsuc,
  if◌then◌else◌, All, Bool-cases, inl, inr, arith,
}
use reachard.Text.{codes}
use reachard.System.{Postgres, World, is_tuples_ok}
use reachard.Database.Refines.Single.{selected}
use reachard.Server.Url.Ids.{url_of}
use reachard.Server.Targets.Effects.{get_response}
use reachard.Server.Life.{serve}
use reachard.Server.Life.Uploads.{serve-found}
use reachard.Database.{Db}
use reachard.Database.Table.{Row, IsTable, same_id, with_id, without_id, find}
use reachard.Database.Refines.Rows.{IsOpen}
use reachard.Server.Request.{Queue, queued}
use reachard.Server.Json.{CJson}
use reachard.Server.Targets.{Posted, refused, posted}
use reachard.Server.Targets.Fields.{IsCJson, expected}
use reachard.Server.Targets.Changes.{patch_rows}
use reachard.Server.Spec.{
  Call, list, read, drop, change, create, misplaced, unrouted, row_of, parse_text, change_spec,
  posted_spec, create_spec, spec,
}
use reachard.Server.Spec.Steps.{IsFit, IsId}
use reachard.Server.Spec.Runs.{Seen, seen, Run, served_none, served, serve_all, serve_all-Run}

-- No PATCH or DELETE of the id.
abbrev pub Spares : ℕ → Call → Type 0
Spares k (drop j) = j ≢ k
Spares k (change j text) = j ≢ k
Spares k _ = Unit

same_id_apart : (i : ℤ) (j k : ℕ) → j ≢ k → same_id i (pos k) ≡ true → same_id i (pos j) ≡ false
same_id_apart (pos a) j k ne h = ground arith
same_id_apart (negsuc a) j k ne h = refl

with_id-without_id_apart :
    (j k : ℕ) (rows : List Row)
    → j ≢ k
    → with_id (pos k) (without_id (pos j) rows) ≡ with_id (pos k) rows
with_id-without_id_apart j k [] ne = refl
with_id-without_id_apart j k (r ∷ rows) ne = elim (Bool-cases (same_id r.id (pos k))) [
  | inl h ↦ rw (same_id_apart r.id j k ne h, h, with_id-without_id_apart j k rows ne) refl
  | inr h ↦ elim (Bool-cases (same_id r.id (pos j))) [
    | inl d ↦ rw (d, h) (with_id-without_id_apart j k rows ne)
    | inr d ↦ rw (d, h) (with_id-without_id_apart j k rows ne)
  ]
]

find-append :
    (k : ℕ) (rows : List Row) (r x : Row)
    → find (pos k) rows ≡ some x
    → find (pos k) (rows ++ r ∷ []) ≡ some x
find-append k [] r x e = cc e
find-append k (y ∷ rows) r x e = elim (Bool-cases (same_id y.id (pos k))) [
  | inl h ↦ rw h (rw h at e)
  | inr h ↦ rw h (find-append k rows r x (rw h at e))
]

module _ (pg : Postgres) (cjson : CJson) (queue : Queue) (c : ℕ) (t : IsTable pg c) where
  with_id-patch_rows_apart :
      (j k : ℕ) (tree : cjson.Tree) (rows : List Row)
      → j ≢ k
      → with_id (pos k) (patch_rows pg cjson queue c t (pos j) tree rows) ≡ with_id (pos k) rows
  with_id-patch_rows_apart j k tree [] ne = refl
  with_id-patch_rows_apart j k tree (r ∷ rows) ne = elim (Bool-cases (same_id r.id (pos k))) [
    | inl h ↦ rw (same_id_apart r.id j k ne h, h, with_id-patch_rows_apart j k tree rows ne) refl
    | inr h ↦ elim (Bool-cases (same_id r.id (pos j))) [
      | inl d ↦ rw (d, h) (with_id-patch_rows_apart j k tree rows ne)
      | inr d ↦ rw (d, h) (with_id-patch_rows_apart j k tree rows ne)
    ]
  ]

  if-find :
      (k : ℕ) (x : Row) (ok : Bool) (rows more : List Row)
      → find (pos k) rows ≡ some x
      → find (pos k) more ≡ some x
      → find (pos k) (if ok then rows else more) ≡ some x
  if-find k x true rows more e f = e
  if-find k x false rows more e f = f

  change_spec-find :
      (ok : Bool) (j k : ℕ) (parsed : Option cjson.Tree) (rows : List Row) (x : Row)
      → j ≢ k
      → find (pos k) rows ≡ some x
      → find (pos k) (change_spec pg cjson queue c t ok j parsed rows).1 ≡ some x
  change_spec-find ok j k none rows x ne e = e
  change_spec-find ok j k (some tree) rows x ne e =
      if-find k x ok _ rows (rw (with_id-patch_rows_apart j k tree rows ne) e) e

  create_spec-find :
      (ok : Bool) (next : ℤ) (k : ℕ) (parsed : Option cjson.Tree) (rows : List Row) (x : Row)
      → find (pos k) rows ≡ some x
      → find (pos k) (create_spec pg cjson queue c t ok next parsed rows).1 ≡ some x
  create_spec-find ok next k none rows x e = e
  create_spec-find ok next k (some tree) rows x e = posted_find (expected cjson tree)
    where
      posted_find :
          (p : Posted) → find (pos k) (posted_spec pg cjson queue c t ok next p rows).1 ≡ some x
      posted_find (refused reason) = e
      posted_find (posted target) =
          if-find k x ok _ rows (find-append k rows (row_of t.keep_name next target) x e) e

  spec-find :
      (ok : Bool) (next : ℤ) (k : ℕ) (call : Call) (rows : List Row) (x : Row)
      → Spares k call
      → find (pos k) rows ≡ some x
      → find (pos k) (spec pg cjson queue c t ok next call rows).1 ≡ some x
  spec-find ok next k list rows x spares e = e
  spec-find ok next k (read j) rows x spares e = e
  spec-find ok next k (drop j) rows x ne e =
      if-find k x ok _ rows (rw (with_id-without_id_apart j k rows ne) e) e
  spec-find ok next k (change j text) rows x ne e =
      change_spec-find ok j k (parse_text pg cjson queue c t text) rows x ne e
  spec-find ok next k (create text) rows x spares e =
      create_spec-find ok next k (parse_text pg cjson queue c t text) rows x e
  spec-find ok next k (misplaced url method chunks) rows x spares e = e
  spec-find ok next k (unrouted url method chunks) rows x spares e = e

  Run-find :
      (k : ℕ) (x : Row) (calls : List Call) (o o' : Seen)
      → Run pg cjson queue c t calls o o'
      → All (Spares k) calls
      → find (pos k) o.1 ≡ some x
      → find (pos k) o'.1 ≡ some x
  Run-find k x calls o o' served_none spares e = e
  Run-find k x calls o o' (served {call = call} ok next fit fresh run) (spare, spares) e =
      Run-find k x _ _ o' run spares (spec-find ok next k call o.1 x spare e)

  IsOpen-Keeps :
      (db : Db) (w w' : World pg.Server)
      → IsOpen c db w
      → w' ≡ record w { sent = w'.sent; server = w'.server }
      → IsOpen c db w'
  IsOpen-Keeps db w w' o keeps = record {
    conn_is = o.conn_is;
    is_open = rw (ap (λ w. w.live) keeps) o.is_open;
  }

  -- On an open connection to a table, where no allocation fails, with numbers of cJSON that are
  -- `int`s, a row with an id from 1 to 2 ^ 31 - 1 outlives every sequence of fit requests without a
  -- PATCH or DELETE of that id: GET of the id then answers with the same row, or 500 if the query
  -- fails.
  pub serve-find :
      (db : Db) (w : World pg.Server) (calls : List Call) (k : ℕ) (x : Row)
      → IsCJson cjson
      → IsOpen c db w
      → w.memory ≡ []
      → All (IsFit pg cjson queue c t) calls
      → All (Spares k) calls
      → IsId k
      → find (pos k) (t.view w.server) ≡ some x
      → (w' : World pg.Server) × (s : pg.Server) × (serve_all pg cjson queue db calls w
          ≡ some (tt, w'))
        × let answered =
            if is_tuples_ok (selected pg c t (pos k) w'.server).0.status then some x else none in
          serve pg cjson queue db (url_of k) (codes "GET") [] w'
          ≡ some
              (queued queue (get_response pg cjson queue c t answered) (record w' { server = s }))
  serve-find db w calls k x laws o m fit spares (p, h) e =
      let (w', ran, run, keeps) = serve_all-Run pg cjson queue c t db w calls laws o m fit in
      let kept =
        Run-find k x calls (seen pg cjson queue c t w) (seen pg cjson queue c t w') run spares e in
      let (s, got, v) =
        serve-found pg cjson queue c t db w' k (IsOpen-Keeps db w w' o keeps)
          (ap (λ w. w.memory) keeps ∙ m) p h in
      (w', s, ran, rw kept at got)
