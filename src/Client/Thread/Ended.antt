-- ===== src/Client/Thread/Ended.antt =====
-- The stop of the client, up to the return of `uv_run`.
use reachard.Prelude.{
  ℕ, suc, ◌+◌, true, List, [], ◌∷◌, Option, none, some, ◌≡◌, refl, ap, arith, length,
}
use reachard.System.{Postgres, World}
use reachard.Database.{Db}
use reachard.Database.Table.{IsTable}
use reachard.Client.Loop.{Loop, Event, closed_target, closed_socket, stop, run_event, run_events}
use reachard.Client.Loop.Sound.{IsSound, Frees}
use reachard.Client.Loop.Lifetime.{stop-Stopped}
use reachard.Client.Thread.{Ending, waiting, client_stop}

-- The close callbacks of targets and of sockets, as many of each, in any order.
pub data Closings : ℕ → ℕ → List Event → Type 0 where
  all_closed : Closings 0 0 []
  target_next :
      {i j : ℕ} {events : List Event}
      → Closings i j events
      → Closings (suc i) j (closed_target ∷ events)
  socket_next :
      {i j : ℕ} {events : List Event}
      → Closings i j events
      → Closings i (suc j) (closed_socket ∷ events)

-- The loop has no target, no socket and no timer.
abbrev pub IsEmpty : Loop → Type 0
IsEmpty loop = (loop.watched.targets ≡ []) × (loop.polls.sockets ≡ []) × (loop.timer ≡ none)

abbrev pub HasNoSocket : {S : Type 0} → Option (Loop × World S) → Type 0
HasNoSocket none = Unit
HasNoSocket (some (loop, w)) = loop.polls.sockets ≡ []

-- What libcurl and libuv promise at the stop: libcurl gives up every socket while it is cleaned up;
-- where only close callbacks are left, libuv makes each of them once; and where nothing is left at
-- all, `uv_run` returns.
pub record IsOrderly (S : Type 0) (ending : Ending) : Type 0 where
  pub gives_up : (loop : Loop) (w : World S) → HasNoSocket {S = S} (stop (ending.calls loop) loop w)
  pub closes :
      (loop : Loop)
      → IsEmpty loop
      → Closings loop.watched.closing loop.polls.closing (ending.events loop)
  pub returns_empty : (loop : Loop) → IsEmpty loop → waiting loop ≡ 0 → ending.returns loop ≡ true

-- The thread has ended: nothing is left on its loop, and the blocks that are left belong to
-- `transfers` transfers, or are `n` others.
pub record Ended {S : Type 0} (loop : Loop) (transfers n : ℕ) (w : World S) : Type 0 where
  pub empty : IsEmpty loop
  pub detached : loop.transfers ≡ []
  pub closed : waiting loop ≡ 0
  pub left : w.blocks ≡ transfers + n

-- The loop with other numbers of targets and of sockets that wait.
abbrev with_closing : ℕ → ℕ → Loop → Loop
with_closing i j loop = record loop {
  watched = record loop.watched { closing = i };
  polls = record loop.polls { closing = j };
}

-- The close callbacks leave none that waits, and give back a block each.
run_events-Closings :
    (pg : Postgres) (db : Db) (n : ℕ) {i j : ℕ} {events : List Event}
    → Closings i j events
    → (loop : Loop) (w : World pg.Server) (b : ℕ) → b ≡ i + j + n
    → run_events pg db events (with_closing i j loop) (record w { blocks = b })
      ≡ some (with_closing 0 0 loop, record w { blocks = n })
unfolding run_events run_event
run_events-Closings pg db n all_closed loop w b e =
    let same : b ≡ n = omega (arith, e) in rw same refl
run_events-Closings pg db n (target_next {i = i} {j = j} closings) loop w b e =
    let one : b ≡ suc (i + j + n) = omega (arith, e) in
    rw one (run_events-Closings pg db n closings loop w (i + j + n) refl)
run_events-Closings pg db n (socket_next {i = i} {j = j} closings) loop w b e =
    let one : b ≡ suc (i + j + n) = omega (arith, e) in
    rw one (run_events-Closings pg db n closings loop w (i + j + n) refl)

has_no_socket :
    {S : Type 0} (result : Option (Loop × World S)) (loop : Loop) (w : World S)
    → result ≡ some (loop, w)
    → HasNoSocket result
    → loop.polls.sockets ≡ []
has_no_socket result loop w e h = rw e at h

module _ (pg : Postgres) (c : ℕ) (t : IsTable pg c) (db : Db) where
  -- From a sound state of the client's thread: where libcurl gives up every socket when it is
  -- cleaned up, and libuv makes each close callback that is left once, in any order, and returns
  -- from `uv_run` when nothing is left, the stop returns. No target, no transfer, no socket, no
  -- timer and no close callback is left then, and the blocks that are left are those of the
  -- transfers that were in flight, which nothing frees, and those of others.
  pub client_stop-Ended :
      (n : ℕ) (ending : Ending) (loop : Loop) (w : World pg.Server)
      → IsOrderly pg.Server ending
      → IsSound c db n loop w
      → (after : Loop) × (w' : World pg.Server) × (client_stop pg db ending loop w
          ≡ some (after, w'))
        × Ended after (length loop.transfers) n w'
        × Frees w w'
  unfolding client_stop
  client_stop-Ended n ending loop w orderly s =
      let (stopped, w1, e1, x, y, z, b1, k1) =
        stop-Stopped pg c t db n (ending.calls loop) loop w s in
      let none_left = has_no_socket _ stopped w1 e1 (orderly.gives_up loop w) in
      let no_sockets : length stopped.polls.sockets ≡ 0 = rw none_left refl in
      let closings = orderly.closes stopped (x, none_left, z) in
      let ran =
        run_events-Closings pg db (length loop.transfers + n) closings stopped w1 w1.blocks
          (omega (arith, b1, no_sockets)) in
      let after = with_closing 0 0 stopped in
      (
        after,
        record w1 { blocks = length loop.transfers + n },
        rw e1 (rw (ran, orderly.returns_empty after (x, none_left, z) (omega arith)) refl),
        record { empty = (x, none_left, z); detached = y; closed = omega arith; left = refl },
        ap {A = World pg.Server} {B = World pg.Server}
            (λ x. record x { blocks = length loop.transfers + n }) k1,
      )
