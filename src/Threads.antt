-- ===== src/Threads.antt =====
-- The two threads side by side: the requests that libmicrohttpd serves on its thread, and the events
-- of the client's thread, in any order. Each request and each event is one step.
pub mod Kept
pub mod Shown
use reachard.Prelude.{List, [], ◌∷◌}
use reachard.Text.{Bytes}
use reachard.System.{Postgres, M, pure, ◌>>=◌}
use reachard.Database.{Db}
use reachard.Client.Loop.{Loop, Event, run_event}
use reachard.Server.Request.{Queue}
use reachard.Server.Json.{CJson}
use reachard.Server.Life.{serve}

-- A request by its URL, its method and the chunks of its body, or an event of the client's loop.
pub data Step : Type 0 where
  request : Bytes → Bytes → List Bytes → Step
  event : Event → Step

module _ (pg : Postgres) (cjson : CJson) (queue : Queue) (serving polling : Db) where
  unfoldable pub take_step : Step → Loop → M pg.Server Loop
  take_step (request url method chunks) loop = do
    _ ← serve pg cjson queue serving url method chunks
    pure loop
  take_step (event e) loop = run_event pg polling e loop

  unfoldable pub take_steps : List Step → Loop → M pg.Server Loop
  take_steps [] loop = pure loop
  take_steps (step ∷ steps) loop = do loop' ← take_step step loop; take_steps steps loop'
