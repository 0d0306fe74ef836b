-- ===== src/Client/Loop/Lifetime.antt =====
-- The client's thread from its start over any events to its stop: `start` and `stop` of
-- src/client/client.c.
use reachard.Prelude.{
  ℕ, suc, ◌+◌, Bool, true, false, List, [], ◌∷◌, Option, none, some, ◌≡◌, refl, ap, ◌∙◌, IsInt32,
  arith, length, All,
}
use reachard.System.{Postgres, World, is_tuples_ok}
use reachard.Database.{Db}
use reachard.Database.Table.{IsTable, Row, InRange}
use reachard.Database.Refines.Rows.{IsOpen}
use reachard.Database.Refines.Listing.{listed}
use reachard.Client.Targets.{ClientTarget}
use reachard.Client.Watcher.{Watched, close_all, watcher_stop}
use reachard.Client.Watcher.Start.{HasTimer, watcher_start-started, started, started_from}
use reachard.Client.Sockets.Table.{held_sockets}
use reachard.Client.Loop.{
  Loop, Callback, state_prepare, start, stop, state_clear, Event, run_loop, run_thread,
}
use reachard.Client.Loop.Sound.{
  IsSound, call_all-Called, Touches, Touches-trans, Frees, Frees-Touches,
}
use reachard.Client.Loop.Events.{ArePossible, run_events-Keeps}

close_all_lem :
    (targets : List ClientTarget) (closing : ℕ)
    → close_all targets closing ≡ record { targets = []; closing = length targets + closing }
unfolding close_all
close_all_lem [] closing = ground arith
close_all_lem (t ∷ targets) closing = close_all_lem targets (suc closing) ∙ ground arith

started_from-ids :
    (ok : Bool) (rows : List Row)
    → All InRange rows
    → All (λ t. IsInt32 t.id) (started_from ok rows).1
started_from-ids false rows h = tt
started_from-ids true [] h = tt
started_from-ids true (r ∷ rows) h = (h.0.0, started_from-ids true rows h.1)

module _ (pg : Postgres) (c : ℕ) (t : IsTable pg c) (db : Db) where
  -- The state that the start leads to.
  abbrev pub begun : pg.Server → Loop
  begun s = state_prepare (started pg c t s).1

  pub start-IsSound :
      (w : World pg.Server)
      → IsOpen c db w
      → w.memory ≡ []
      → All HasTimer (t.view w.server)
      → (w' : World pg.Server) × (start pg db w ≡ some (begun w.server, w'))
        × IsSound c db w.blocks (begun w.server) w'
        × Touches w w'
        × (t.view w'.server ≡ t.view w.server)
  unfolding start
  start-IsSound w o m h =
      let (s, e, v) = watcher_start-started pg c t db w o m h in
      (
        record w { server = s; blocks = length (started pg c t w.server).1 + w.blocks },
        rw e refl,
        record {
          connected = record { conn_is = o.conn_is; is_open = o.is_open };
          memory_left = m;
          accounted = omega arith;
          ids =
              started_from-ids (is_tuples_ok (listed pg c t w.server).0.status) (t.view w.server)
                (t.in_range w.server);
          attached = tt;
          unique = tt;
        },
        refl,
        v,
      )

  -- What the stop leaves, of `transfers` transfers and `n` other blocks.
  abbrev pub Stopped : ℕ → ℕ → (World pg.Server → Type 0) → Option (Loop × World pg.Server) → Type 0
  Stopped transfers n Rest result =
      (after : Loop) × (w : World pg.Server) × (result ≡ some (after, w))
      × (after.watched.targets ≡ [])
      × (after.transfers ≡ [])
      × (after.timer ≡ none)
      × (w.blocks ≡ after.watched.closing + held_sockets after.polls + transfers + n)
      × Rest w

  pub stop-Stopped :
      (n : ℕ) (calls : List Callback) (loop : Loop) (w : World pg.Server)
      → IsSound c db n loop w
      → Stopped (length loop.transfers) n (Frees w) (stop calls loop w)
  unfolding stop
  stop-Stopped n calls loop w s =
      let gone : watcher_stop loop.watched
          ≡ record { targets = []; closing = length loop.watched.targets + loop.watched.closing } =
        close_all_lem loop.watched.targets loop.watched.closing in
      let closing = length loop.watched.targets + loop.watched.closing in
      let sound : IsSound c db (n + length loop.transfers)
          (record loop { watched = record { targets = []; closing = closing }; transfers = [] }) w =
        record {
          connected = s.connected;
          memory_left = s.memory_left;
          accounted = omega (arith, s.accounted);
          ids = tt;
          attached = tt;
          unique = s.unique;
        } in
      let (polls, ms, b, e, s2) =
        call_all-Called c db (n + length loop.transfers) calls _ w sound in
      (
        record {
          watched = record { targets = []; closing = closing };
          transfers = [];
          polls = polls;
          timer = none;
        },
        record w { blocks = b },
        ap (λ (x : Watched). state_clear calls (record loop { watched = x }) w) gone ∙ rw e refl,
        refl,
        refl,
        refl,
        omega (arith, s2.accounted),
        refl,
      )

  -- The events are possible from the start on.
  abbrev pub ArePossibleFrom : List Event → Option (Loop × World pg.Server) → Type 0
  ArePossibleFrom events none = Unit
  ArePossibleFrom events (some (loop, w)) = ArePossible pg c t db 0 events loop w

  possible_from :
      (events : List Event) (w w' : World pg.Server) (loop : Loop)
      → start pg db w ≡ some (loop, w')
      → ArePossibleFrom events (start pg db w)
      → ArePossible pg c t db 0 events loop w'
  possible_from events w w' loop e p = rw e at p

  -- On an open connection to a table, where no allocation fails, every interval in milliseconds is
  -- an `int`, and each done message is of a transfer in flight: the client's thread never follows a
  -- pointer that leads nowhere, over any events. The stop empties its tables and stops its timer,
  -- and every block it took that is left waits for the event loop, belongs to a socket, or belongs
  -- to a transfer that was in flight, which nothing frees.
  pub run_thread-Stopped :
      (w : World pg.Server) (events : List Event) (calls : List Callback)
      → IsOpen c db w
      → w.memory ≡ []
      → All HasTimer (t.view w.server)
      → ArePossibleFrom events (start pg db w)
      → (loop : Loop) × (w' : World pg.Server) × (run_loop pg db events w ≡ some (loop, w'))
        × IsSound c db w.blocks loop w'
        × Stopped (length loop.transfers) w.blocks (Touches w) (run_thread pg db events calls w)
  unfolding run_thread
  run_thread-Stopped w events calls o m h p =
      let (w1, e1, s1, k1, v1) = start-IsSound w o m h in
      let (loop2, w2, e2, s2, k2, v2) =
        run_events-Keeps pg c t db w.blocks events (begun w.server) w1 s1
          (possible_from events w w1 (begun w.server) e1 p) in
      let (after, w3, e3, x, y, z, b, f3) = stop-Stopped w.blocks calls loop2 w2 s2 in
      (
        loop2,
        w2,
        rw e1 e2,
        s2,
        (
          after,
          w3,
          rw e1 (rw e2 e3),
          x,
          y,
          z,
          b,
          Touches-trans w w1 w3 k1 (Touches-trans w1 w2 w3 k2 (Frees-Touches w2 w3 f3)),
        ),
      )
