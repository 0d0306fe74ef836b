-- ===== src/Client/Thread.antt =====
-- src/client/client.c: the start of the client's thread, and its end, from `reachard_client_stop` to
-- the return of `thrd_join`. What libcurl and libuv do at the end is a parameter.
pub mod Ended
use reachard.Prelude.{ℕ, ◌+◌, Bool, true, false, List, if◌then◌else◌}
use reachard.System.{Postgres, M, pure, ◌>>=◌, never_returns}
use reachard.Database.{Db}
use reachard.Client.Loop.{Loop, Callback, Event, stop, run_events}

-- The handles whose close callback waits.
abbrev pub waiting : Loop → ℕ
waiting loop = loop.watched.closing + loop.polls.closing

-- What happens at the stop, by the state of the loop: the calls that libcurl makes back while it is
-- cleaned up, the events that libuv still has behind these, and whether `uv_run` returns then.
pub record Ending : Type 0 where
  pub calls : Loop → List Callback
  pub events : Loop → List Event
  pub returns : Loop → Bool

-- `reachard_client_start`: the code, by whether `thrd_create` succeeds.
abbrev pub client_start : Bool → ℕ
client_start thread_starts = if thread_starts then 0 else 1

-- `reachard_client_stop`: `stop` runs on the loop, which then goes on until `uv_run` returns. Where
-- it does not return, neither does `thrd_join`.
unfoldable pub client_stop : (pg : Postgres) → Db → Ending → Loop → M pg.Server Loop
unfolding stop run_events
client_stop pg db ending loop = do
  stopped ← stop (ending.calls loop) loop
  ended ← run_events pg db (ending.events stopped) stopped
  if ending.returns ended then pure ended else never_returns
