-- ===== src/Client/Loop.antt =====
-- The client's thread: src/client/state.c and the event loop that runs its callbacks, with those of
-- src/client/targets.c and src/client/watcher.c. What libcurl and libuv decide is an argument: the
-- calls that libcurl makes back, the messages that it has, and which event comes next.
pub mod Sound
pub mod Completed
pub mod Events
pub mod Lifetime
use reachard.Prelude.{
  ℕ, zero, suc, ◌+◌, Bool, true, false, List, [], ◌∷◌, Option, none, some, ℤ, if◌then◌else◌, length,
  find_key, remove_key,
}
use reachard.Text.{CString}
use reachard.System.{Postgres, M, pure, fault, ◌>>=◌, ◌>>◌, free_block}
use reachard.Database.{Db}
use reachard.Database.Table.{same_id}
use reachard.Client.Targets.{ClientTarget, Outcome, transfer_complete, target_check}
use reachard.Client.Watcher.{Watched, hash_find, watcher_start, watcher_stop}
use reachard.Client.Sockets.{
  What, Polls, socket_function, socket_deinit, timer_function, ev_bitmask,
}

-- An easy handle that is attached to the multi handle, with its `struct reachard_client_transfer`:
-- `target` is the id of the target that `data` points to.
pub record Transfer : Type 0 where
  pub handle : ℕ
  pub target : ℤ
  pub url : CString

-- The state of the thread: the table of targets, the transfers, the sockets, and the timeout of
-- `state->timer`.
pub record Loop : Type 0 where
  pub watched : Watched
  pub transfers : List Transfer
  pub polls : Polls
  pub timer : Option ℕ

-- What libcurl calls back.
pub data Callback : Type 0 where
  socket : ℕ → What → Callback
  timer : ℤ → Callback

-- A message of `curl_multi_info_read`: whether it is `CURLMSG_DONE`, its handle, what is known of the
-- transfer, and the calls made while the handle is removed.
pub record Message : Type 0 where
  pub done : Bool
  pub handle : ℕ
  pub outcome : Outcome
  pub calls : List Callback

-- `target->up = up` through the pointer: the target of the table changes.
abbrev pub hash_set : ClientTarget → List ClientTarget → List ClientTarget
hash_set target [] = []
hash_set target (t ∷ targets) =
    let rest = hash_set target targets in
    if same_id t.id target.id then target ∷ targets else t ∷ rest

with_polls : Loop → ℤ × Polls → Loop
with_polls loop (_, polls) = record loop { polls = polls }

module _ {S : Type 0} where
  call_back : Callback → Loop → M S Loop
  unfolding with_polls socket_function timer_function
  call_back (socket fd what) loop = do
    served ← socket_function fd what loop.polls
    pure (with_polls loop served)
  call_back (timer ms) loop = pure (record loop { timer = timer_function ms })

  unfoldable pub call_all : List Callback → Loop → M S Loop
  unfolding call_back
  call_all [] loop = pure loop
  call_all (c ∷ calls) loop = do loop' ← call_back c loop; call_all calls loop'

-- `curl_multi_add_handle` of a transfer that was started.
unfoldable pub attach : ℕ → ℤ → Option CString → Loop → Loop
attach handle id none loop = loop
attach handle id (some url) loop = record loop {
  transfers = record { handle = handle; target = id; url = url } ∷ loop.transfers;
}

module _ (pg : Postgres) where
  -- A done message, by its transfer and its target. A pointer that leads nowhere is a fault.
  unfoldable pub complete_target : Db → Message → Loop → Option ClientTarget → M pg.Server Loop
  unfolding call_all
  complete_target db m loop none = fault
  complete_target db m loop (some target) = do
    target' ← transfer_complete pg db m.outcome target
    call_all m.calls (record loop {
      watched = record loop.watched { targets = hash_set target' loop.watched.targets };
      transfers = remove_key (λ tr. tr.handle) m.handle loop.transfers;
    })

  unfoldable pub complete : Db → Message → Loop → Option Transfer → M pg.Server Loop
  unfolding complete_target
  complete db m loop none = fault
  complete db m loop (some tr) =
      complete_target db m loop (hash_find tr.target loop.watched.targets)

  -- `check_completed`, over the messages that libcurl has.
  unfoldable pub check_completed : Db → List Message → Loop → M pg.Server Loop
  unfolding complete
  check_completed db [] loop = pure loop
  check_completed db (m ∷ messages) loop = elim m.done [
    | false ↦ check_completed db messages loop
    | true ↦ (do
      loop' ← complete db m loop (find_key (λ tr. tr.handle) m.handle loop.transfers)
      check_completed db messages loop')
  ]

  -- `curl_multi_socket_action`, which makes calls back, and `check_completed` behind it.
  unfoldable pub on_action : Db → List Callback → List Message → Loop → M pg.Server Loop
  unfolding call_all check_completed
  on_action db calls messages loop = do
    loop' ← call_all calls loop
    check_completed db messages loop'

  -- `on_poll`, with the status and the events of libuv. What libcurl does depends on the mask.
  unfoldable pub on_poll : Db → ℤ → ℕ → (ℕ → List Callback) → List Message → Loop → M pg.Server Loop
  unfolding on_action
  on_poll db status events calls messages loop =
      on_action db (calls (ev_bitmask status events)) messages loop

  -- `on_timeout`
  unfoldable pub on_timeout : Db → List Callback → List Message → Loop → M pg.Server Loop
  unfolding on_action
  on_timeout db calls messages loop = on_action db calls messages loop

  unfoldable pub check_target :
      Db → ℕ → List Callback → Loop → Option ClientTarget → M pg.Server Loop
  unfolding target_check attach call_all
  check_target db handle calls loop none = pure loop
  check_target db handle calls loop (some target) = do
    asked ← target_check pg db target
    call_all calls (attach handle target.id asked loop)

  -- The timer of the target with an id: `target_check`, with the easy handle that
  -- `curl_easy_init` gives, and the calls back of `curl_multi_add_handle`. Where there is no such
  -- target there is no such timer.
  unfoldable pub on_timer : Db → ℤ → ℕ → List Callback → Loop → M pg.Server Loop
  unfolding check_target
  on_timer db id handle calls loop =
      check_target db handle calls loop (hash_find id loop.watched.targets)

module _ {S : Type 0} where
  unfoldable pub close_target : ℕ → Loop → M S Loop
  unfolding free_block
  close_target zero loop = pure loop
  close_target (suc n) loop = do
    free_block
    pure (record loop { watched = record loop.watched { closing = n } })

  -- `target_deinit` and `socket_deinit`, which the event loop calls for what waits to be closed.
  unfoldable pub on_close_target : Loop → M S Loop
  unfolding close_target
  on_close_target loop = close_target loop.watched.closing loop

  unfoldable pub on_close_socket : Loop → M S Loop
  unfolding socket_deinit
  on_close_socket loop = do polls ← socket_deinit loop.polls; pure (record loop { polls = polls })

  -- `reachard_client_state_clear`: all easy handles are removed, and the multi handle is cleaned up,
  -- with the calls back of both. The structures of the transfers are not freed.
  unfoldable pub state_clear : List Callback → Loop → M S Loop
  unfolding call_all
  state_clear calls loop = do
    loop' ← call_all calls (record loop { transfers = [] })
    pure (record loop' { timer = none })

  -- `reachard_client_watcher_stop`, which `stop` of src/client/client.c calls.
  unfoldable pub stop : List Callback → Loop → M S Loop
  unfolding watcher_stop state_clear
  stop calls loop = state_clear calls (record loop { watched = watcher_stop loop.watched })

-- `reachard_client_state_prepare`: a timer that is not running, and a multi handle with no transfer.
abbrev pub state_prepare : List ClientTarget → Loop
state_prepare targets = record {
  watched = record { targets = targets; closing = 0 };
  transfers = [];
  polls = record { sockets = []; closing = 0 };
  timer = none;
}

-- `start` of src/client/client.c up to `uv_run`, which does not look at the code of
-- `reachard_client_watcher_start`.
unfoldable pub start : (pg : Postgres) → Db → M pg.Server Loop
unfolding watcher_start
start pg db = do (code, targets) ← watcher_start pg db []; pure (state_prepare targets)

-- What may happen next in the event loop.
pub data Event : Type 0 where
  polled : ℤ → ℕ → (ℕ → List Callback) → List Message → Event
  timed_out : List Callback → List Message → Event
  timer_fired : ℤ → ℕ → List Callback → Event
  closed_target closed_socket : Event

unfoldable pub run_event : (pg : Postgres) → Db → Event → Loop → M pg.Server Loop
unfolding on_poll on_timeout on_timer on_close_target on_close_socket
run_event pg db (polled status events calls messages) loop =
    on_poll pg db status events calls messages loop
run_event pg db (timed_out calls messages) loop = on_timeout pg db calls messages loop
run_event pg db (timer_fired id handle calls) loop = on_timer pg db id handle calls loop
run_event pg db closed_target loop = on_close_target loop
run_event pg db closed_socket loop = on_close_socket loop

-- The event loop, over the events that come.
unfoldable pub run_events : (pg : Postgres) → Db → List Event → Loop → M pg.Server Loop
run_events pg db [] loop = pure loop
run_events pg db (event ∷ events) loop = do
  loop' ← run_event pg db event loop
  run_events pg db events loop'

-- The thread from its start, over the events that come, to the call of `stop`.
unfoldable pub run_loop : (pg : Postgres) → Db → List Event → M pg.Server Loop
unfolding start run_events
run_loop pg db events = do begun ← start pg db; run_events pg db events begun

unfoldable pub run_thread : (pg : Postgres) → Db → List Event → List Callback → M pg.Server Loop
unfolding run_loop stop
run_thread pg db events calls = do loop ← run_loop pg db events; stop calls loop
