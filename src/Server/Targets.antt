-- ===== src/Server/Targets.antt =====
-- src/server/handle/targets.c: a handler for each method on the targets.
pub mod Fields
pub mod Effects
pub mod Listing
pub mod Changes
use reachard.Prelude.{
  ℕ, zero, suc, Bool, true, false, List, [], ◌∷◌, ◌++◌, Option, none, some, ℤ, ltb, ◌==◌,
  if◌then◌else◌, length, ◌&&◌, not, is_zero,
}
use reachard.Text.{Bytes, CString, codes, same}
use reachard.System.{Postgres, World, M, pure, fault, ◌>>=◌, ◌>>◌}
use reachard.Database.{Db}
use reachard.Database.Targets
use reachard.Database.Targets.{Target, target_init, target_free, targets_free}
use reachard.Database.Targets.Update.{Key, name, url, interval, Value, string, number, Kv, update}
use reachard.Server.Connection.{
  Cell, Handler, targets_delete, targets_get, targets_get_all, targets_patch, targets_post,
  ConnectionInfo,
}
use reachard.Server.Upload.{read_string, handle_upload_data}
use reachard.Server.Request.{
  MhdResult, Queue, http_ok, http_bad_request, http_internal_server_error, respond_plain,
  respond_json,
}
use reachard.Server.Json.{CJson, new_tree, release_tree, print_tree}

-- What a handler leaves in `req_cls`, beside its result.
abbrev pub Handled : Type 0 → Type 0
Handled S = M S (MhdResult × ConnectionInfo)

-- The string that the handlers parse: null before any upload.
unfoldable pub upload_string : {S : Type 0} → Option (List Cell) → M S CString
unfolding read_string
upload_string none = pure none
upload_string (some cells) = elim (read_string cells) [ none ↦ fault | some s ↦ pure (some s) ]

-- An id that was never assigned cannot be read.
abbrev pub assigned {ℓ} : {S : Type 0} {A : Type ℓ} → Option A → (A → Handled S) → Handled S
assigned none f = λ w. none
assigned (some a) f = f a

-- What `reachard_handle_targets_post` makes of the body: the target, or the text of the refusal.
pub data Posted : Type 0 where
  refused : Bytes → Posted
  posted : Target → Posted

module _ (cjson : CJson) where
  open cjson use {Tree, item, string_of, number_of, object, add_number, add_string}

  -- The object of a target in the answers to GET.
  unfoldable pub target_object : Target → Tree
  target_object target =
      add_number
        (add_string
          (add_string (add_number object (codes "id") target.id) (codes "name") target.name)
          (codes "url") target.url)
        (codes "interval") target.interval

  -- `cJSON_IsString(item)` and `item->valuestring`, of an item that may be null.
  unfoldable pub string_item : Tree → Bytes → Option Bytes
  string_item tree key = elim (item tree key) [ none ↦ none | some i ↦ string_of i ]

  -- `cJSON_IsNumber(item)` and `item->valueint`
  unfoldable pub number_item : Tree → Bytes → Option ℤ
  number_item tree key = elim (item tree key) [ none ↦ none | some i ↦ number_of i ]

  push_string : Key → Option Bytes → List Kv → List Kv
  push_string key none kvs = kvs
  push_string key (some s) kvs = kvs ++ record { key = key; value = string (some s) } ∷ []

  push_number : Key → Option ℤ → List Kv → List Kv
  push_number key none kvs = kvs
  push_number key (some n) kvs = kvs ++ record { key = key; value = number n } ∷ []

  -- The array `kvs` of `reachard_handle_targets_patch`.
  unfoldable pub patch_fields : Tree → List Kv
  unfolding push_string push_number string_item number_item
  patch_fields tree = push_number interval (number_item tree (codes "interval")) (
      push_string url (string_item tree (codes "url"))
        (push_string name (string_item tree (codes "name")) []))

  -- the interval: 5 where there is no item
  posted_interval : Target → Option Tree → Posted
  posted_interval target none = posted target
  posted_interval target (some i) = elim (number_of i) [
    | none ↦ refused (codes "failed to parse target interval")
    | some n ↦ posted (record target { interval = n })
  ]

  posted_url : Target → Tree → Option Bytes → Posted
  unfolding posted_interval
  posted_url target tree none = refused (codes "failed to parse target url")
  posted_url target tree (some u) =
      posted_interval (record target { url = some u }) (item tree (codes "interval"))

  posted_name : Tree → Option Bytes → Posted
  unfolding posted_url target_init
  posted_name tree none = refused (codes "failed to parse target name")
  posted_name tree (some n) =
      posted_url (record target_init { name = some n }) tree (string_item tree (codes "url"))

  -- The checks of `reachard_handle_targets_post`, in their order.
  unfoldable pub post_fields : Tree → Posted
  unfolding posted_name string_item
  post_fields tree = posted_name tree (string_item tree (codes "name"))

module _ (pg : Postgres) (cjson : CJson) (queue : Queue) where
  open cjson use {Tree, parse, object, add_number, array, add_item, print}

  abbrev pub Answer : Type 0
  Answer = M pg.Server MhdResult

  -- `reachard_handle_targets_delete`
  unfoldable pub handle_delete : Db → ℤ → Answer
  unfolding respond_plain
  handle_delete db id = do
    failed ← Targets.delete pg db id
    if failed == 0
        then respond_plain queue [] http_ok
        else respond_plain queue (codes "failed to delete the target") http_internal_server_error

  unfoldable pub get_answer : Option Target → Answer
  unfolding new_tree print_tree release_tree target_free respond_plain respond_json
  get_answer none =
      respond_plain queue (codes "failed to get the target") http_internal_server_error
  get_answer (some target) = do
    root ← new_tree (some object)
    body ← print_tree (print (target_object cjson target))
    release_tree
    target_free target
    respond_json queue body http_ok

  -- `reachard_handle_targets_get`
  unfoldable pub handle_get : Db → ℤ → Answer
  unfolding get_answer
  handle_get db id = do found ← Targets.get pg db id; get_answer found

  -- The loop over the targets: each object moves into the array.
  unfoldable pub add_objects : Tree → List Target → M pg.Server Tree
  unfolding new_tree release_tree target_object
  add_objects array [] = pure array
  add_objects array (target ∷ targets) = do
    root ← new_tree (some object)
    release_tree
    add_objects (add_item array (target_object cjson target)) targets

  unfoldable pub get_all_answer : Option (List Target) → Answer
  unfolding new_tree print_tree release_tree respond_plain respond_json
  get_all_answer none =
      respond_plain queue (codes "failed to get targets") http_internal_server_error
  get_all_answer (some targets) = do
    root ← new_tree (some array)
    filled ← add_objects array targets
    body ← print_tree (print filled)
    release_tree
    targets_free targets
    respond_json queue body http_ok

  -- `reachard_handle_targets_get_all`
  unfoldable pub handle_get_all : Db → Answer
  unfolding get_all_answer
  handle_get_all db = do found ← Targets.get_all pg db; get_all_answer found

  unfoldable pub patch_answer : Db → ℤ → Option Tree → Answer
  unfolding release_tree respond_plain
  patch_answer db id none = respond_plain queue (codes "failed to parse as JSON") http_bad_request
  patch_answer db id (some tree) = do
    failed ← update pg db id (patch_fields cjson tree)
    release_tree
    if failed == 0
        then respond_plain queue [] http_ok
        else respond_plain queue (codes "failed to update the target") http_internal_server_error

  -- `cJSON_ParseWithOpts` of the body, null for a null body.
  unfoldable pub parse_body : CString → M pg.Server (Option Tree)
  unfolding new_tree
  parse_body none = pure none
  parse_body (some text) = new_tree (parse text)

  -- `reachard_handle_targets_patch`, once the upload is complete.
  unfoldable pub handle_patch : Db → ℤ → Option (List Cell) → Answer
  unfolding upload_string parse_body patch_answer
  handle_patch db id upload_data = do
    text ← upload_string upload_data
    tree ← parse_body text
    patch_answer db id tree

  unfoldable pub post_answer : Db → Posted → Answer
  unfolding new_tree print_tree release_tree respond_plain respond_json
  post_answer db (refused text) = do release_tree; respond_plain queue text http_bad_request
  post_answer db (posted target) = do
    id ← Targets.add pg db target
    release_tree
    root ← new_tree (some object)
    body ← print_tree (print (add_number object (codes "id") id))
    release_tree
    respond_json queue body http_ok

  unfoldable pub post_parsed : Db → Option Tree → Answer
  unfolding post_answer respond_plain
  post_parsed db none = respond_plain queue (codes "failed to parse as JSON") http_bad_request
  post_parsed db (some tree) = post_answer db (post_fields cjson tree)

  -- `reachard_handle_targets_post`, once the upload is complete.
  unfoldable pub handle_post : Db → Option (List Cell) → Answer
  unfolding upload_string parse_body post_parsed
  handle_post db upload_data = do
    text ← upload_string upload_data
    tree ← parse_body text
    post_parsed db tree
