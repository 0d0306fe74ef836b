-- ===== src/Tests/LoopCases.antt =====
-- The client's thread over the table in memory.
use reachard.Prelude.{ℕ, Bool, true, List, [], ◌∷◌, some, ◌≡◌, refl, arith, pos, negsuc}
use reachard.Text.{codes}
use reachard.System.{World}
use reachard.Database.Table.{Row}
use reachard.Client.Targets.{ClientTarget}
use reachard.Client.Sockets.{Polls, poll_in, poll_remove, socket_function, ev_bitmask}
use reachard.Client.Sockets.Table.{Served, socket_function-Served, ev_bitmask-mod}
use reachard.Client.Loop.{Loop, socket, timer, Message, check_completed, Event, polled, timer_fired}
use reachard.Client.Loop.Sound.{IsSound}
use reachard.Client.Loop.Completed.{Leaves, check_completed-Leaves}
use reachard.Tests.TableServer.{table_server, table_laws}
use reachard.Tests.DatabaseCases.{db, world, two_rows}

abbrev no_sockets : Polls
no_sockets = record { sockets = []; closing = 0 }

socket_function-Served_example :
    (after : Polls) × (blocks : ℕ) × (socket_function 5 poll_in no_sockets (world [] [])
      ≡ some ((pos 0, after), record (world [] []) { blocks = blocks }))
    × Served 5 poll_in no_sockets after 0 blocks
socket_function-Served_example = socket_function-Served 5 poll_in no_sockets (world [] []) refl tt

ev_bitmask-mod_example : ev_bitmask (pos 0) 7 ≡ 3
ev_bitmask-mod_example = ev_bitmask-mod (pos 0) 7

abbrev target_at : ℕ → Bool → ClientTarget
target_at n up = record { id = pos n; up = up; repeat = 5000 }

-- One target with a transfer of its own.
abbrev pub busy : Loop
busy = record {
  watched = record { targets = target_at 1 true ∷ target_at 3 true ∷ []; closing = 0 };
  transfers = record { handle = 9; target = pos 3; url = some (codes "http://a") } ∷ [];
  polls = no_sockets;
  timer = some 20;
}

abbrev pub busy_world : World (List Row)
busy_world = record (world two_rows []) { blocks = 3 }

pub busy-IsSound : IsSound 7 db 0 busy busy_world
busy-IsSound = record {
  connected = record { conn_is = refl; is_open = refl };
  memory_left = refl;
  accounted = refl;
  ids = (omega arith, (omega arith, tt));
  attached = ((target_at 3 true, refl), tt);
  unique = tt;
}

abbrev pub message : Message
message = record {
  done = true;
  handle = 9;
  outcome = record { result = 0; status = pos 404 };
  calls = timer (negsuc 0) ∷ [];
}

check_completed-Leaves_example :
    Leaves table_server 7
      (table_laws 7)
      db
      0
      []
      busy_world
      (check_completed table_server db (message ∷ []) busy busy_world)
check_completed-Leaves_example =
    check_completed-Leaves table_server 7 (table_laws 7) db 0 (message ∷ []) busy busy_world
      busy-IsSound
      (((record { handle = 9; target = pos 3; url = some (codes "http://a") }), refl), tt)

-- The checks of two targets; one transfer is over when the thread stops.
abbrev some_events : List Event
some_events =
    timer_fired (pos 1) 8 (socket 5 poll_in ∷ timer (pos 0) ∷ [])
    ∷ timer_fired (pos 3) 9 []
    ∷ polled (pos 0) 1 (λ mask. socket 5 poll_remove ∷ []) (message ∷ [])
    ∷ []
