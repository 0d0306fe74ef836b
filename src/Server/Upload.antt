-- ===== src/Server/Upload.antt =====
-- `reachard_handle_upload_data` of src/server/handle.c, which collects the body of a request.
pub mod Chunks
use reachard.Prelude.{
  ℕ, zero, suc, ◌+◌, Bool, true, false, List, [], ◌∷◌, Option, none, some, ◌==◌, if◌then◌else◌,
  length, set,
}
use reachard.Text.{Bytes}
use reachard.System.{World, M, grants, later}
use reachard.Server.Connection.{Cell, ConnectionInfo}

-- `realloc`: the bytes that fit are kept, and new ones are not initialised.
resize : ℕ → List Cell → List Cell
resize zero cells = []
resize (suc n) [] = none ∷ resize n []
resize (suc n) (x ∷ cells) = x ∷ resize n cells

-- `memcpy` to the start of the block.
overwrite : Bytes → List Cell → List Cell
overwrite [] cells = cells
overwrite (b ∷ bs) [] = []
overwrite (b ∷ bs) (x ∷ cells) = some b ∷ overwrite bs cells

abbrev cells_of : Option (List Cell) → List Cell
cells_of none = []
cells_of (some cells) = cells

-- The block behind the three writes, for a chunk of the body.
unfoldable pub store : Option (List Cell) → ℕ → Bytes → List Cell
unfolding resize overwrite
store upload_data size chunk =
    set (overwrite chunk (resize (size + length chunk + 1) (cells_of upload_data)))
      (size + length chunk) (some 0)

-- What a reader of the C string finds. `none`: it meets a byte that was never written, or the end
-- of the block.
unfoldable pub read_string : List Cell → Option Bytes
read_string [] = none
read_string (none ∷ cells) = none
read_string (some zero ∷ cells) = some []
read_string (some (suc c) ∷ cells) = elim (read_string cells) [
  | none ↦ none
  | some s ↦ some (suc c ∷ s)
]

-- The structure with the chunk taken.
unfoldable pub upload : ConnectionInfo → Bytes → ConnectionInfo
unfolding store
upload info chunk = record info {
  upload_data = some (store info.upload_data info.upload_data_size chunk);
  upload_data_size = info.upload_data_size + length chunk;
}

abbrev is_null : Option (List Cell) → Bool
is_null none = true
is_null (some _) = false

-- `reachard_handle_upload_data`: `MHD_YES` or `MHD_NO`, and the structure. A failed `realloc`
-- leaves the null pointer in it, and the old block on the heap.
unfoldable pub handle_upload_data :
    {S : Type 0} → ConnectionInfo → Bytes → M S (Bool × ConnectionInfo)
unfolding upload
handle_upload_data info chunk w =
    if grants w.memory
    then some (
      (true, upload info chunk),
      record w {
        memory = later w.memory;
        blocks = if is_null info.upload_data then suc w.blocks else w.blocks;
      },
    )
    else some ((false, record info { upload_data = none }), record w { memory = later w.memory })
