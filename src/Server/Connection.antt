-- ===== src/Server/Connection.antt =====
-- `struct reachard_connection_info` of src/server/handle.h, the state of a request between the calls
-- of its handler.
use reachard.Prelude.{ℕ, List, Option, none, some, ℤ, if◌then◌else◌}
use reachard.System.{M, pure, ◌>>=◌, ◌>>◌, allocate, free_block}

-- The functions that `handle` points to.
pub data Handler : Type 0 where
  targets_delete targets_get targets_get_all targets_patch targets_post : Handler

-- A byte of a heap block; `none` was never written.
abbrev pub Cell : Type 0
Cell = Option ℕ

-- `handle` and `id` are `none` until they are assigned, `upload_data` where it is null.
pub record ConnectionInfo : Type 0 where
  pub handle : Option Handler
  pub id : Option ℤ
  pub upload_data : Option (List Cell)
  pub upload_data_size : ℕ

abbrev pub empty_info : ConnectionInfo
empty_info = record { handle = none; id = none; upload_data = none; upload_data_size = 0 }

module _ {S : Type 0} where
  -- `reachard_connection_info_init`: `none` for the exit code 1.
  unfoldable pub connection_info_init : M S (Option ConnectionInfo)
  unfolding allocate
  connection_info_init = do
    granted ← allocate
    if granted then pure (some empty_info) else pure none

  free_data : Option (List Cell) → M S (Unit {0})
  unfolding free_block
  free_data none = pure tt
  free_data (some _) = free_block

  -- `reachard_connection_info_deinit`
  unfoldable pub connection_info_deinit : Option ConnectionInfo → M S (Unit {0})
  unfolding free_data
  connection_info_deinit none = pure tt
  connection_info_deinit (some info) = do free_data info.upload_data; free_block
