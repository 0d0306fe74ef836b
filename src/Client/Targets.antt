-- ===== src/Client/Targets.antt =====
-- src/client/targets.c and src/client/targets.h: the targets that the client polls. What libcurl
-- reports of a transfer is an argument, and its own allocations are left out.
pub mod Checks
use reachard.Prelude.{
  ℕ, zero, suc, ◌*◌, ◌+◌, Bool, true, false, ◌&&◌, List, [], ◌∷◌, Option, none, some, ℤ, pos,
  negsuc, if◌then◌else◌, ◌==◌, leb, ltb, is_zero, to_uint64,
}
use reachard.Text.{Bytes, CString}
use reachard.System.{Postgres, M, pure, fault, ◌>>=◌, ◌>>◌, allocate, free_block}
use reachard.Database.{Db}
use reachard.Database.Targets
use reachard.Database.Targets.{Target, target_free}
use reachard.Database.Targets.Update.{Kv, boolean, update}

-- `struct reachard_client_target`; `repeat` is the timer's, in milliseconds.
pub record ClientTarget : Type 0 where
  pub id : ℤ
  pub up : Bool
  pub repeat : ℕ

-- What `curl_multi_info_read` and `curl_easy_getinfo` say of a transfer: the `CURLcode` and the
-- response code.
pub record Outcome : Type 0 where
  pub result : ℕ
  pub status : ℤ

abbrev pub in_200_299 : ℤ → Bool
in_200_299 (pos n) = leb 200 n && leb n 299
in_200_299 (negsuc n) = false

-- `up` in `transfer_complete`
abbrev pub is_up : Outcome → Bool
is_up outcome = if outcome.result == 0 then in_200_299 outcome.status else false

abbrev pub same_up : Bool → Bool → Bool
same_up true b = b
same_up false true = false
same_up false false = true

-- `kvs` in `transfer_complete`
abbrev pub up_field : Bool → Kv
up_field b = record { key = Targets.Update.up; value = boolean b }

module _ (pg : Postgres) where
  -- `transfer_complete`: the target afterwards.
  unfoldable pub transfer_complete : Db → Outcome → ClientTarget → M pg.Server ClientTarget
  unfolding free_block
  transfer_complete db outcome target =
      let up = is_up outcome in
      if same_up up target.up then (do free_block; pure target) else (do
        failed ← update pg db target.id (up_field up ∷ [])
        free_block
        pure (record target { up = up }))

  -- The URL that a new transfer asks for, `none` where none was started.
  start_transfer : Option Target → M pg.Server (Option CString)
  unfolding allocate target_free
  start_transfer none = pure none
  start_transfer (some db_target) = do
    granted ← allocate
    target_free db_target
    pure (if granted then some db_target.url else none)

  -- `target_check`: the transfer structure stays on the heap until `transfer_complete`.
  unfoldable pub target_check : Db → ClientTarget → M pg.Server (Option CString)
  unfolding start_transfer
  target_check db target = do db_target ← Targets.get pg db target.id; start_transfer db_target

-- `db_target->interval * 1000` as an `int`, whose overflow is undefined.
abbrev pub interval_ms : ℤ → Option ℤ
interval_ms (pos n) = if ltb (n * 1000) 2147483648 then some (pos (n * 1000)) else none
interval_ms (negsuc n) =
    if ltb (n * 1000 + 999) 2147483648 then some (negsuc (n * 1000 + 999)) else none

module _ {S : Type 0} where
  -- The fields of a target that was allocated, and its timer.
  start_timer : Target → Option ℤ → M S (Option ClientTarget)
  start_timer db_target none = fault
  start_timer db_target (some ms) =
      pure (some (record { id = db_target.id; up = db_target.up; repeat = to_uint64 ms }))

  -- `reachard_client_target_init`: `none` when it returns 1.
  unfoldable pub client_target_init : Target → M S (Option ClientTarget)
  unfolding allocate start_timer
  client_target_init db_target = do
    granted ← allocate
    if granted then start_timer db_target (interval_ms db_target.interval) else pure none
