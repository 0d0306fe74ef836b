-- ===== src/Server/Spec.antt =====
-- What the server promises, without connections, buffers and blocks: each request answers from the
-- rows of the table, and leaves rows. Server/Spec/Steps and Server/Spec/Runs compare src/server with
-- it.
pub mod Bodies
pub mod Steps
pub mod Runs
pub mod Unique
pub mod Apart
pub mod Blank
use reachard.Prelude.{ℕ, Bool, List, [], ◌∷◌, ◌++◌, Option, none, some, ℤ, pos, true, if◌then◌else◌}
use reachard.Text.{Bytes, CString, codes}
use reachard.System.{Postgres, Response}
use reachard.Database.Targets.{Target}
use reachard.Database.Table.{Row, IsTable, without_id, find}
use reachard.Server.Request.{Queue, plain, http_bad_request}
use reachard.Server.Json.{CJson}
use reachard.Server.Url.Ids.{url_of}
use reachard.Server.Targets.{Posted, refused, posted}
use reachard.Server.Targets.Fields.{expected}
use reachard.Server.Targets.Effects.{delete_response, get_response}
use reachard.Server.Targets.Listing.{list_response}
use reachard.Server.Targets.Changes.{patch_response, patch_rows, post_response}

-- The requests, with the id of the URL and the text of the body, empty where there is none.
-- `misplaced` and `unrouted` have a URL, a method and a body that no handler takes.
pub data Call : Type 0 where
  list : Call
  read drop : ℕ → Call
  change : ℕ → Bytes → Call
  create : Bytes → Call
  misplaced unrouted : Bytes → Bytes → List Bytes → Call

abbrev pub url_of_call : Call → Bytes
url_of_call list = codes "/targets/"
url_of_call (read k) = url_of k
url_of_call (drop k) = url_of k
url_of_call (change k text) = url_of k
url_of_call (create text) = codes "/targets/"
url_of_call (misplaced url method chunks) = url
url_of_call (unrouted url method chunks) = url

abbrev pub method_of_call : Call → Bytes
method_of_call list = codes "GET"
method_of_call (read k) = codes "GET"
method_of_call (drop k) = codes "DELETE"
method_of_call (change k text) = codes "PATCH"
method_of_call (create text) = codes "POST"
method_of_call (misplaced url method chunks) = method
method_of_call (unrouted url method chunks) = method

abbrev pub one_chunk : Bytes → List Bytes
one_chunk [] = []
one_chunk (b ∷ bs) = (b ∷ bs) ∷ []

abbrev pub chunks_of_call : Call → List Bytes
chunks_of_call (change k text) = one_chunk text
chunks_of_call (create text) = one_chunk text
chunks_of_call (misplaced url method chunks) = chunks
chunks_of_call (unrouted url method chunks) = chunks
chunks_of_call _ = []

abbrev pub no_json : Response
no_json = plain (codes "failed to parse as JSON") http_bad_request

-- A string that may be null.
abbrev pub or_empty : CString → Bytes
or_empty none = []
or_empty (some s) = s

-- The row of a target that is created, where `keep` is what the column of the name keeps of it.
abbrev pub row_of : (Bytes → Bytes) → ℤ → Target → Row
row_of keep k target = record {
  id = k;
  name = keep (or_empty target.name);
  url = or_empty target.url;
  interval = target.interval;
  up = true;
}

module _ (pg : Postgres) (cjson : CJson) (queue : Queue) (c : ℕ) (t : IsTable pg c) where
  abbrev pub parse_text : Bytes → Option cjson.Tree
  parse_text [] = none
  parse_text (b ∷ bs) = cjson.parse (b ∷ bs)

  abbrev pub change_spec : Bool → ℕ → Option cjson.Tree → List Row → Response × List Row
  change_spec ok k none rows = (no_json, rows)
  change_spec ok k (some tree) rows = (
    patch_response pg cjson queue c t ok,
    if ok then patch_rows pg cjson queue c t (pos k) tree rows else rows,
  )

  -- A failed insert answers the id 1.
  abbrev pub posted_spec : Bool → ℤ → Posted → List Row → Response × List Row
  posted_spec ok next (refused text) rows = (plain text http_bad_request, rows)
  posted_spec ok next (posted target) rows = (
    post_response pg cjson queue c t (if ok then next else pos 1),
    if ok then rows ++ row_of t.keep_name next target ∷ [] else rows,
  )

  abbrev pub create_spec : Bool → ℤ → Option cjson.Tree → List Row → Response × List Row
  create_spec ok next none rows = (no_json, rows)
  create_spec ok next (some tree) rows = posted_spec ok next (expected cjson tree) rows

  -- The response and the rows, where `ok` says whether PostgreSQL takes the statement, and `next` is
  -- the id of a new row.
  abbrev pub spec : Bool → ℤ → Call → List Row → Response × List Row
  spec ok next list rows = (list_response pg cjson queue c t ok rows, rows)
  spec ok next (read k) rows =
      (get_response pg cjson queue c t (if ok then find (pos k) rows else none), rows)
  spec ok next (drop k) rows =
      (delete_response pg cjson queue c t ok, if ok then without_id (pos k) rows else rows)
  spec ok next (change k text) rows = change_spec ok k (parse_text text) rows
  spec ok next (create text) rows = create_spec ok next (parse_text text) rows
  spec ok next (misplaced url method chunks) rows =
      (plain (codes "url not allowed") http_bad_request, rows)
  spec ok next (unrouted url method chunks) rows =
      (plain (codes "method not allowed") http_bad_request, rows)
