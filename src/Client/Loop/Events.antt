-- ===== src/Client/Loop/Events.antt =====
-- The events of the client's thread: the callbacks of src/client that its event loop runs.
use reachard.Prelude.{
  ℕ, zero, suc, ◌+◌, List, [], ◌∷◌, Option, none, some, ◌≡◌, refl, ap, ◌∙◌, ℤ, arith, length,
}
use reachard.System.{Postgres, World}
use reachard.Database.{Db}
use reachard.Database.Table.{IsTable, Row}
use reachard.Database.Blank.{blank}
use reachard.Database.Refines.Single.{found}
use reachard.Client.Targets.{ClientTarget}
use reachard.Client.Targets.Checks.{target_check-found, url_asked, hold_transfer}
use reachard.Client.Watcher.{hash_find}
use reachard.Client.Watcher.Table.{held}
use reachard.Client.Sockets.{Polls, close_one, ev_bitmask}
use reachard.Client.Sockets.Table.{held_sockets}
use reachard.Client.Loop.{
  Loop, Callback, Message, on_action, on_poll, on_timeout, on_close_socket, check_target, attach,
  close_target, Event, polled, timed_out, timer_fired, closed_target, closed_socket, run_event,
  run_events,
}
use reachard.Client.Loop.Sound.{
  IsSound, IsReported, Touches, Touches-trans, hash_find-id, call_all-Called, with_id_of,
}
use reachard.Client.Loop.Completed.{check_completed-Leaves}

-- Which events may come next: the messages are those that libcurl may have.
abbrev pub IsPossible : Event → Loop → Type 0
IsPossible (polled status events calls messages) loop = IsReported messages loop.transfers
IsPossible (timed_out calls messages) loop = IsReported messages loop.transfers
IsPossible (timer_fired id handle calls) loop = Unit
IsPossible closed_target loop = Unit
IsPossible closed_socket loop = Unit

module _ (pg : Postgres) (c : ℕ) (t : IsTable pg c) (db : Db) (n : ℕ) where
  -- A step that returns and keeps what holds.
  abbrev pub Keeps : World pg.Server → Option (Loop × World pg.Server) → Type 0
  Keeps w0 result =
      (loop : Loop) × (w : World pg.Server) × (result ≡ some (loop, w))
      × IsSound c db n loop w
      × Touches w0 w
      × (blank (t.view w.server) ≡ blank (t.view w0.server))

  on_action-Keeps :
      (calls : List Callback) (messages : List Message) (loop : Loop) (w : World pg.Server)
      → IsSound c db n loop w
      → IsReported messages loop.transfers
      → Keeps w (on_action pg db calls messages loop w)
  unfolding on_action
  on_action-Keeps calls messages loop w s r =
      let (polls, ms, b, e, s1) = call_all-Called c db n calls loop w s in
      let (loop2, w2, e2, l2, s2, k2, v2) = check_completed-Leaves pg c t db n messages _ _ s1 r in
      (loop2, w2, rw e e2, s2, k2, v2)

  attach-IsSound :
      (handle : ℕ) (loop : Loop) (w : World pg.Server) (s' : pg.Server) (target : ClientTarget)
      (r : Option Row)
      → IsSound c db n loop w
      → hash_find target.id loop.watched.targets ≡ some target
      → IsSound c db n
          (attach handle target.id (url_asked pg c t r) loop)
          (hold_transfer pg c t r (record w { server = s' }))
  unfolding attach
  attach-IsSound handle loop w s' target none s e = record {
    connected = record { conn_is = s.connected.conn_is; is_open = s.connected.is_open };
    memory_left = s.memory_left;
    accounted = s.accounted;
    ids = s.ids;
    attached = s.attached;
    unique = s.unique;
  }
  attach-IsSound handle loop w s' target (some r) s e = record {
    connected = record { conn_is = s.connected.conn_is; is_open = s.connected.is_open };
    memory_left = s.memory_left;
    accounted = omega (arith, s.accounted);
    ids = s.ids;
    attached = ((target, e), s.attached);
    unique = s.unique;
  }

  hold_transfer-Touches :
      (w : World pg.Server) (r : Option Row) (s' : pg.Server) (b : ℕ)
      → Touches w (record (hold_transfer pg c t r (record w { server = s' })) { blocks = b })
  hold_transfer-Touches w none s' b = refl
  hold_transfer-Touches w (some r) s' b = refl

  server-hold_transfer :
      (w : World pg.Server) (r : Option Row) (s' : pg.Server)
      → (hold_transfer pg c t r (record w { server = s' })).server ≡ s'
  server-hold_transfer w none s' = refl
  server-hold_transfer w (some r) s' = refl

  check_target-Keeps :
      (handle : ℕ) (calls : List Callback) (loop : Loop) (w : World pg.Server) (id : ℤ)
      (o : Option ClientTarget)
      → IsSound c db n loop w
      → hash_find id loop.watched.targets ≡ o
      → Keeps w (check_target pg db handle calls loop o w)
  unfolding check_target
  check_target-Keeps handle calls loop w id none s e = (loop, w, refl, s, refl, refl)
  check_target-Keeps handle calls loop w id (some target) s e =
      let (same, small) = hash_find-id id loop.watched.targets target e s.ids in
      let (s', done, v) = target_check-found pg c t db w target s.connected s.memory_left small in
      let there = ap (λ i. hash_find i loop.watched.targets) same ∙ e in
      let r = found pg c t target.id w.server in
      let (polls, ms, b, called, s2) =
        call_all-Called c db n calls _ _ (attach-IsSound handle loop w s' target r s there) in
      (
        _,
        _,
        rw done called,
        s2,
        hold_transfer-Touches w r s' b,
        ap blank (ap t.view (server-hold_transfer w r s') ∙ v),
      )

  close_target-Keeps :
      (k : ℕ) (loop : Loop) (w : World pg.Server)
      → IsSound c db n loop w
      → loop.watched.closing ≡ k
      → Keeps w (close_target k loop w)
  unfolding close_target
  close_target-Keeps zero loop w s e = (loop, w, refl, s, refl, refl)
  close_target-Keeps (suc k) loop w s e =
      let rest : ℕ =
        length loop.watched.targets + k + (length loop.transfers + held_sockets loop.polls) + n in
      let one : w.blocks ≡ suc rest = omega (arith, s.accounted, e) in
      (
        record loop { watched = record loop.watched { closing = k } },
        record w { blocks = rest },
        rw one refl,
        record {
          connected = with_id_of rest s.connected;
          memory_left = s.memory_left;
          accounted = omega arith;
          ids = s.ids;
          attached = s.attached;
          unique = s.unique;
        },
        refl,
        refl,
      )

  close_one-Keeps :
      (k : ℕ) (loop : Loop) (w : World pg.Server)
      → IsSound c db n loop w
      → loop.polls.closing ≡ k
      → (polls : Polls) × (b : ℕ) × (close_one k loop.polls.sockets w
          ≡ some (polls, record w { blocks = b }))
        × IsSound c db n (record loop { polls = polls }) (record w { blocks = b })
  unfolding close_one
  close_one-Keeps zero loop w s e = (
    record { sockets = loop.polls.sockets; closing = 0 },
    w.blocks,
    refl,
    record {
      connected = with_id_of w.blocks s.connected;
      memory_left = s.memory_left;
      accounted = omega (arith, s.accounted, e);
      ids = s.ids;
      attached = s.attached;
      unique = s.unique;
    },
  )
  close_one-Keeps (suc k) loop w s e =
      let rest : ℕ =
        held loop.watched + (length loop.transfers + (length loop.polls.sockets + k)) + n in
      let one : w.blocks ≡ suc rest = omega (arith, s.accounted, e) in
      (
        record { sockets = loop.polls.sockets; closing = k },
        rest,
        rw one refl,
        record {
          connected = with_id_of rest s.connected;
          memory_left = s.memory_left;
          accounted = omega arith;
          ids = s.ids;
          attached = s.attached;
          unique = s.unique;
        },
      )

  on_close_socket-Keeps :
      (loop : Loop) (w : World pg.Server) → IsSound c db n loop w → Keeps w (on_close_socket loop w)
  unfolding on_close_socket
  on_close_socket-Keeps loop w s =
      let (polls, b, e, s2) = close_one-Keeps loop.polls.closing loop w s refl in
      (record loop { polls = polls }, record w { blocks = b }, rw e refl, s2, refl, refl)

  -- Every event that may come next returns, and keeps what holds of the thread.
  pub run_event-Keeps :
      (event : Event) (loop : Loop) (w : World pg.Server)
      → IsSound c db n loop w
      → IsPossible event loop
      → Keeps w (run_event pg db event loop w)
  unfolding run_event on_poll on_timeout
  run_event-Keeps (polled status events calls messages) loop w s p =
      on_action-Keeps (calls (ev_bitmask status events)) messages loop w s p
  run_event-Keeps (timed_out calls messages) loop w s p = on_action-Keeps calls messages loop w s p
  run_event-Keeps (timer_fired id handle calls) loop w s p =
      check_target-Keeps handle calls loop w id (hash_find id loop.watched.targets) s refl
  run_event-Keeps closed_target loop w s p = close_target-Keeps loop.watched.closing loop w s refl
  run_event-Keeps closed_socket loop w s p = on_close_socket-Keeps loop w s

  -- Every event is possible where it comes.
  abbrev pub ArePossible : List Event → Loop → World pg.Server → Type 0
  ArePossible [] loop w = Unit
  ArePossible (event ∷ events) loop w =
      IsPossible event loop × (elim (run_event pg db event loop w) [
        | none ↦ Unit
        | some (loop', w') ↦ ArePossible events loop' w'
      ])

  rest_possible :
      (event : Event) (events : List Event) (loop loop' : Loop) (w w' : World pg.Server)
      → run_event pg db event loop w ≡ some (loop', w')
      → ArePossible (event ∷ events) loop w
      → ArePossible events loop' w'
  rest_possible event events loop loop' w w' e p = rw e at (p.1)

  pub run_events-Keeps :
      (events : List Event) (loop : Loop) (w : World pg.Server)
      → IsSound c db n loop w
      → ArePossible events loop w
      → Keeps w (run_events pg db events loop w)
  unfolding run_events
  run_events-Keeps [] loop w s p = (loop, w, refl, s, refl, refl)
  run_events-Keeps (event ∷ events) loop w s p =
      let (loop2, w2, e2, s2, k2, v2) = run_event-Keeps event loop w s p.0 in
      let (loop3, w3, e3, s3, k3, v3) =
        run_events-Keeps events loop2 w2 s2 (rest_possible event events loop loop2 w w2 e2 p) in
      (loop3, w3, rw e2 e3, s3, Touches-trans w w2 w3 k2 k3, v3 ∙ v2)
