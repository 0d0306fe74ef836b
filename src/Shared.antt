-- ===== src/Shared.antt =====
-- The table that the two threads share: the handlers of src/server/handle/targets.c on the
-- connection of the server, and the callbacks of src/client/targets.c for one target on the
-- connection of the client, in any order.
pub mod Rows
pub mod Status
use reachard.Prelude.{List, [], ◌∷◌, some, ℤ}
use reachard.System.{Postgres, M, pure, ◌>>=◌, ◌>>◌}
use reachard.Database.{Db}
use reachard.Client.Targets.{ClientTarget, Outcome, transfer_complete, target_check}
use reachard.Server.Connection.{Cell}
use reachard.Server.Request.{Queue}
use reachard.Server.Json.{CJson}
use reachard.Server.Targets.{handle_delete, handle_get, handle_get_all, handle_patch, handle_post}

-- What a thread does next: a request, the timer of the target, or the end of a transfer to it.
pub data Action : Type 0 where
  deleted got : ℤ → Action
  listed : Action
  patched : ℤ → List Cell → Action
  posted : List Cell → Action
  checked : Action
  completed : Outcome → Action

module _ (pg : Postgres) (cjson : CJson) (queue : Queue) (serving polling : Db) where
  unfoldable pub run_action : Action → ClientTarget → M pg.Server ClientTarget
  run_action (deleted k) target = do _ ← handle_delete pg cjson queue serving k; pure target
  run_action (got k) target = do _ ← handle_get pg cjson queue serving k; pure target
  run_action listed target = do _ ← handle_get_all pg cjson queue serving; pure target
  run_action (patched k cells) target = do
    _ ← handle_patch pg cjson queue serving k (some cells)
    pure target
  run_action (posted cells) target = do
    _ ← handle_post pg cjson queue serving (some cells)
    pure target
  run_action checked target = do _ ← target_check pg polling target; pure target
  run_action (completed outcome) target = transfer_complete pg polling outcome target

  unfoldable pub run_actions : List Action → ClientTarget → M pg.Server ClientTarget
  unfolding run_action
  run_actions [] target = pure target
  run_actions (action ∷ actions) target = do
    target' ← run_action action target
    run_actions actions target'
