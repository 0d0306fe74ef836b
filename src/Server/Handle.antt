-- ===== src/Server/Handle.antt =====
-- src/server/handle.c, and `reachard_handle_targets_first_call` of src/server/handle/targets.c: the
-- calls that libmicrohttpd makes for a request. The first has the headers; each later one has a
-- chunk of the body, and the last has none.
pub mod Routes
use reachard.Prelude.{
  ℕ, zero, suc, Bool, true, false, List, [], ◌∷◌, Option, none, some, ℤ, pos, ltb, if◌then◌else◌,
  length, ◌&&◌, not, is_zero,
}
use reachard.Text.{Bytes, CString, codes, same}
use reachard.System.{Postgres, World, M, pure, fault, ◌>>=◌, ◌>>◌}
use reachard.Database.{Db}
use reachard.Server.Connection.{
  Handler, targets_delete, targets_get, targets_get_all, targets_patch, targets_post,
  ConnectionInfo, connection_info_init, connection_info_deinit,
}
use reachard.Server.Upload.{handle_upload_data}
use reachard.Server.Url.{regexec, parse_id}
use reachard.Server.Request.{MhdResult, Queue, http_bad_request, respond_plain}
use reachard.Server.Json.{CJson}
use reachard.Server.Targets.{handle_delete, handle_get, handle_get_all, handle_patch, handle_post}

-- `MHD_YES` or `MHD_NO`, and what `*req_cls` holds.
abbrev pub Called : Type 0 → Type 0
Called S = M S (MhdResult × Option ConnectionInfo)

-- The tests of `reachard_handle_targets_first_call`, in their order.
unfoldable pub route : Bytes → ℤ → Option Handler
route method id =
    let has_id = not (is_zero id) in
    if same method (codes "DELETE") && has_id
    then some targets_delete
    else if same method (codes "GET")
    then some (if has_id then targets_get else targets_get_all)
    else if same method (codes "PATCH") && has_id
    then some targets_patch
    else if same method (codes "POST")
    then some targets_post
    else none

module _ (queue : Queue) {S : Type 0} where
  -- `reachard_handle_targets_first_call`
  unfoldable pub targets_first_call : ConnectionInfo → Option Handler → Called S
  unfolding respond_plain
  targets_first_call info (some h) = pure (true, some (record info { handle = some h }))
  targets_first_call info none = do
    result ← respond_plain queue (codes "method not allowed") http_bad_request
    pure (result, some info)

  -- `match`, and what `reachard_handle_first_call` does behind it.
  first_call_match : Bytes → ConnectionInfo → Option Bytes → Called S
  unfolding targets_first_call parse_id
  first_call_match method info (some digits) = do
    id ← parse_id digits
    targets_first_call (record info { id = some id }) (route method id)
  first_call_match method info none = do
    result ← respond_plain queue (codes "url not allowed") http_bad_request
    pure (result, some info)

  first_call_with : Bytes → Bytes → Option ConnectionInfo → Called S
  unfolding first_call_match
  first_call_with url method none = pure (false, none)
  first_call_with url method (some info) = first_call_match method info (regexec url)

  -- `reachard_handle_first_call`
  unfoldable pub handle_first_call : Bytes → Bytes → Called S
  unfolding connection_info_init first_call_with
  handle_first_call url method = do info ← connection_info_init; first_call_with url method info

module _ {S : Type 0} where
  keep_info : ConnectionInfo → M S MhdResult → Called S
  keep_info info m = do result ← m; pure (result, some info)

  with_id : ConnectionInfo → (ℤ → M S MhdResult) → Called S
  unfolding keep_info
  with_id info f = elim info.id [ none ↦ fault | some id ↦ keep_info info (f id) ]

  -- The start of the handlers of PATCH and POST: a chunk is collected, and without one `f` runs.
  collect : ConnectionInfo → Bytes → Called S → Called S
  unfolding handle_upload_data
  collect info [] f = f
  collect info (c ∷ chunk) f = do
    (result, info') ← handle_upload_data info (c ∷ chunk)
    pure (result, some info')

module _ (pg : Postgres) (cjson : CJson) (queue : Queue) where
  -- The function that `handle` points to, on a request with a chunk of the body.
  unfoldable pub run : Handler → Db → ConnectionInfo → Bytes → Called pg.Server
  unfolding keep_info with_id collect
  run targets_delete db info chunk = with_id info (handle_delete pg cjson queue db)
  run targets_get db info chunk = with_id info (handle_get pg cjson queue db)
  run targets_get_all db info chunk = keep_info info (handle_get_all pg cjson queue db)
  run targets_patch db info chunk =
      collect info chunk (with_id info (λ id. handle_patch pg cjson queue db id info.upload_data))
  run targets_post db info chunk =
      collect info chunk (keep_info info (handle_post pg cjson queue db info.upload_data))

  -- `conn_info->handle(&request)`
  later_call : Option Handler → Db → ConnectionInfo → Bytes → Called pg.Server
  unfolding run
  later_call none db info chunk = fault
  later_call (some h) db info chunk = run h db info chunk

  -- `reachard_handle`
  unfoldable pub handle : Db → Bytes → Bytes → Bytes → Option ConnectionInfo → Called pg.Server
  unfolding later_call handle_first_call
  handle db url method chunk none = handle_first_call queue url method
  handle db url method chunk (some info) = later_call info.handle db info chunk

-- `reachard_handle_complete`
unfoldable pub handle_complete : {S : Type 0} → Option ConnectionInfo → M S (Unit {0})
unfolding connection_info_deinit
handle_complete = connection_info_deinit
