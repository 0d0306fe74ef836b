-- ===== src/Database/Targets/Update.antt =====
-- `reachard_db_targets_update` of src/database/targets.c: the text of the query, which the loop
-- builds with a comma too many, and the parameters, which may point into shared buffers.
pub mod Text
pub mod Params
use reachard.Prelude.{
  ℕ, zero, suc, ◌+◌, ◌-◌, Bool, true, false, List, [], ◌∷◌, ◌++◌, Option, none, some, ℤ, pos,
  if◌then◌else◌, length, set,
}
use reachard.Text.{Bytes, CString, codes, decimal, print_int, snprintf_int}
use reachard.System.{Postgres, M, pure, fault, ◌>>=◌, ◌>>◌, is_command_ok, pq_exec_params, pq_clear}
use reachard.Database.{Db}

-- `enum reachard_db_target_k`
pub data Key : Type 0 where
  id name url interval up : Key

-- `union reachard_db_value`, with the member that was written.
pub data Value : Type 0 where
  string : CString → Value
  number : ℤ → Value
  boolean : Bool → Value

-- `struct reachard_db_target_kv`
pub record Kv : Type 0 where
  pub key : Key
  pub value : Value

-- `field_names`
abbrev pub field_name : Key → Bytes
field_name id = codes "id"
field_name name = codes "name"
field_name url = codes "url"
field_name interval = codes "interval"
field_name up = codes "up"

-- The loop that appends `"%s = $%ld, "`, from the index `i`.
assignments : Bytes → ℕ → List Kv → Bytes
unfolding decimal
assignments query i [] = query
assignments query i (kv ∷ kvs) =
    assignments (query ++ (field_name kv.key ++ (codes " = $" ++ (decimal (i + 1) ++ codes ", "))))
      (suc i) kvs

-- The text that `PQexecParams` gets.
unfoldable pub query : ℤ → List Kv → Bytes
unfolding assignments print_int
query target_id kvs =
    let set_list = assignments (codes "UPDATE targets SET ") 0 kvs in
    set set_list (length set_list - 2) 32 ++ (codes "WHERE id = " ++ print_int target_id)

-- A parameter is a text, or a pointer to the buffer of a field.
pub data Param : Type 0 where
  direct : CString → Param
  buffer : Key → Param

-- The buffers of `DEFINE_BUFFER`, one to a field.
pub record Buffers : Type 0 where
  pub id : Bytes
  pub interval : Bytes

abbrev pub no_buffers : Buffers
no_buffers = record { id = []; interval = [] }

-- The text in the buffer of a field.
abbrev pub contents : Buffers → Key → CString
contents b id = some b.id
contents b interval = some b.interval
contents b name = some []
contents b url = some []
contents b up = some []

-- `encode_string`, `encode_boolean`: no use of the buffer. `none`: another member was written.
abbrev pub encode_string : Value → Option Param
encode_string (string s) = some (direct s)
encode_string (number n) = none
encode_string (boolean b) = none

abbrev pub encode_boolean : Value → Option Param
encode_boolean (boolean b) = some (direct (some (if b then codes "t" else codes "f")))
encode_boolean (string s) = none
encode_boolean (number n) = none

-- `encode_number`: the text that it writes to the buffer.
unfoldable pub encode_number : Value → Option Bytes
unfolding snprintf_int
encode_number (number n) = some (snprintf_int n)
encode_number (string s) = none
encode_number (boolean b) = none

abbrev in_id : Buffers → Option Bytes → Option (Param × Buffers)
in_id b none = none
in_id b (some text) = some (buffer id, record b { id = text })

abbrev in_interval : Buffers → Option Bytes → Option (Param × Buffers)
in_interval b none = none
in_interval b (some text) = some (buffer interval, record b { interval = text })

abbrev as_is : Buffers → Option Param → Option (Param × Buffers)
as_is b none = none
as_is b (some p) = some (p, b)

-- The cases of the switch, `DEFINE_ENCODE_CALL` for each field.
encode : Key → Value → Buffers → Option (Param × Buffers)
unfolding encode_number
encode id value b = in_id b (encode_number value)
encode name value b = as_is b (encode_string value)
encode url value b = as_is b (encode_string value)
encode interval value b = in_interval b (encode_number value)
encode up value b = as_is b (encode_boolean value)

abbrev add_param : Param → Option (List Param × Buffers) → Option (List Param × Buffers)
add_param p none = none
add_param p (some (ps, b)) = some (p ∷ ps, b)

-- The loop over the parameters.
encode_all : List Kv → Buffers → Option (List Param × Buffers)
unfolding encode
encode_all [] b = some ([], b)
encode_all (kv ∷ kvs) b = elim (encode kv.key kv.value b) [
  | none ↦ none
  | some (p, b') ↦ add_param p (encode_all kvs b')
]

-- What a parameter points to when the query is sent.
abbrev pub resolve : Buffers → Param → CString
resolve b (direct s) = s
resolve b (buffer key) = contents b key

resolve_all : Buffers → List Param → List CString
resolve_all b [] = []
resolve_all b (p ∷ ps) = resolve b p ∷ resolve_all b ps

-- `paramValues`
unfoldable pub param_values : List Kv → Option (List CString)
unfolding encode_all resolve_all
param_values kvs = elim (encode_all kvs no_buffers) [
  | none ↦ none
  | some (ps, b) ↦ some (resolve_all b ps)
]

module _ (pg : Postgres) where
  unfoldable pub send : Db → Bytes → Option (List CString) → M pg.Server ℕ
  unfolding pq_exec_params pq_clear
  send db text none = fault
  send db text (some values) = do
    res ← pq_exec_params pg db.conn text values
    if is_command_ok res.status
        then (do pq_clear (some res); pure 0)
        else (do pq_clear (some res); pure 1)

  -- `reachard_db_targets_update`
  unfoldable pub update : Db → ℤ → List Kv → M pg.Server ℕ
  unfolding send
  update db target_id kvs = send db (query target_id kvs) (param_values kvs)
