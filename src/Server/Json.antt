-- ===== src/Server/Json.antt =====
-- cJSON, which the handlers call: a parameter.
use reachard.Prelude.{suc, Option, none, some, ℤ, if◌then◌else◌}
use reachard.Text.{Bytes, CString}
use reachard.System.{World, M, pure, ◌>>=◌, allocate, give_back}

-- `Tree` is `cJSON`. `string_of` is `valuestring` where `cJSON_IsString` holds, and `number_of` is
-- `valueint` where `cJSON_IsNumber` does.
pub record CJson : Type 1 where
  pub Tree : Type 0
  -- `cJSON_ParseWithOpts(text, 0, true)`
  pub parse : Bytes → Option Tree
  -- `cJSON_GetObjectItemCaseSensitive`
  pub item : Tree → Bytes → Option Tree
  pub string_of : Tree → Option Bytes
  pub number_of : Tree → Option ℤ
  -- `cJSON_CreateObject`, `cJSON_AddNumberToObject`, `cJSON_AddStringToObject`
  pub object : Tree
  pub add_number : Tree → Bytes → ℤ → Tree
  pub add_string : Tree → Bytes → CString → Tree
  -- `cJSON_CreateArray`, `cJSON_AddItemToArray`
  pub array : Tree
  pub add_item : Tree → Tree → Tree
  -- `cJSON_PrintUnformatted`
  pub print : Tree → Bytes

module _ {S A : Type 0} where
  count_tree : Option A → World S → World S
  count_tree none w = w
  count_tree (some _) w = record w { jsons = suc w.jsons }

  -- A parse or creation that gives a tree to release.
  unfoldable pub new_tree : Option A → M S (Option A)
  unfolding count_tree
  new_tree o w = some (o, count_tree o w)

module _ {S : Type 0} where
  -- `cJSON_Delete` of a root, or its move into another tree.
  unfoldable pub release_tree : M S (Unit {0})
  release_tree w = elim (give_back w.jsons) [
    | none ↦ none
    | some n ↦ some (tt, record w { jsons = n })
  ]

  -- `cJSON_PrintUnformatted` allocates the text.
  unfoldable pub print_tree : Bytes → M S CString
  unfolding allocate
  print_tree text = do granted ← allocate; pure (if granted then some text else none)
