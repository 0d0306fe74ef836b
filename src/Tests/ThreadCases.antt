-- ===== src/Tests/ThreadCases.antt =====
-- Both threads, and the stop of the client, over the table in memory.
use reachard.Prelude.{
  zero, suc, ==_iff, ℕ, true, List, [], ◌∷◌, Option, none, some, ◌≡◌, refl, arith, pos, All,
}
use reachard.Text.{codes}
use reachard.System.{World, continue, pure}
use reachard.Database.{Db}
use reachard.Database.Table.{Row}
use reachard.Client.Loop.{
  Loop, Callback, Event, polled, socket, closed_target, closed_socket, call_all, stop,
}
use reachard.Client.Loop.Sound.{IsSound, Frees}
use reachard.Client.Sockets.{Socket, poll_in, poll_remove}
use reachard.Client.Thread.{Ending, client_stop}
use reachard.Client.Thread.Ended.{
  Closings, all_closed, target_next, socket_next, HasNoSocket, IsOrderly, Ended, client_stop-Ended,
}
use reachard.Client.Watcher.{watcher_stop}
use reachard.Server.Spec.{drop}
use reachard.Server.Url.Ids.{url_of}
use reachard.Threads.{Step, request, event, take_step, take_steps}
use reachard.Threads.Kept.{IsPossibleStep, ArePossibleSteps}
use reachard.Threads.Shown.{ShowsRun, take_steps-ShowsRun}
use reachard.Tests.TableServer.{table_server, table_laws}
use reachard.Tests.DatabaseCases.{db}
use reachard.Tests.ServerCases.{queue, sample_json, sample_laws}
use reachard.Tests.LoopCases.{busy, busy_world, busy-IsSound, message}

module _ (polling : Db) (p : ℕ) (serving : Db) (s n : ℕ) where
  -- A step that is possible whatever is on the loop.
  abbrev IsAlwaysPossible : Step → Type 0
  IsAlwaysPossible step =
      (loop : Loop)
      → IsPossibleStep table_server sample_json queue polling p (table_laws p) serving s
          (table_laws s) n step loop

  abbrev Possible : List Step → Loop → World (List Row) → Type 0
  Possible steps loop w =
      ArePossibleSteps table_server sample_json queue polling p (table_laws p) serving s
        (table_laws s) n steps loop w

  after_step :
      (steps : List Step) (result : Option (Loop × World (List Row)))
      → ((loop : Loop) (w : World (List Row)) → Possible steps loop w)
      → (elim result as (λ x. Type 0) [ none ↦ Unit | some (loop, w) ↦ Possible steps loop w ])
  after_step steps none rest = tt
  after_step steps (some (loop, w)) rest = rest loop w

  pub steps-Possible :
      (steps : List Step)
      → All IsAlwaysPossible steps
      → (loop : Loop) (w : World (List Row)) → Possible steps loop w
  steps-Possible [] h loop w = tt
  steps-Possible (step ∷ steps) (h, hs) loop w = (
    h loop,
    after_step steps (take_step table_server sample_json queue serving polling step loop w)
        (steps-Possible steps hs),
  )

abbrev serving : Db
serving = record { conn = some 8; connstring = [] }

abbrev both_world : World (List Row)
both_world = record busy_world { live = 8 ∷ 7 ∷ [] }

both-IsSound : IsSound 7 db 0 busy both_world
both-IsSound = record {
  connected = record { conn_is = refl; is_open = refl };
  memory_left = refl;
  accounted = refl;
  ids = busy-IsSound.ids;
  attached = busy-IsSound.attached;
  unique = tt;
}

-- The transfer to the target 3 is over while the target 1 is deleted.
abbrev both_steps : List Step
both_steps =
    event (polled (pos 0) 1 (λ mask. socket 5 poll_in ∷ []) (message ∷ []))
    ∷ request (url_of 1) (codes "DELETE") []
    ∷ []

take_steps-ShowsRun_example :
    ShowsRun table_server sample_json queue db 7
      (table_laws 7)
      serving
      8
      (table_laws 8)
      0
      (λ x. refl)
      both_steps
      both_world
      (take_steps table_server sample_json queue serving db both_steps busy both_world)
take_steps-ShowsRun_example =
    take_steps-ShowsRun table_server sample_json queue db 7 (table_laws 7) serving 8 (table_laws 8)
      0 (λ x. refl) both_steps busy both_world sample_laws
      (record { conn_is = refl; is_open = refl }) both-IsSound
      (
        ((record { handle = 9; target = pos 3; url = some (codes "http://a") }, refl), tt),
        after_step db 7 serving 8 0 (request (url_of 1) (codes "DELETE") [] ∷ [])
            (take_step table_server sample_json queue serving db
              (event (polled (pos 0) 1 (λ mask. socket 5 poll_in ∷ []) (message ∷ []))) busy
              both_world)
            (steps-Possible db 7 serving 8 0 (request (url_of 1) (codes "DELETE") [] ∷ [])
              (λ loop. (drop 1, refl, refl, refl, (omega arith, omega arith)), tt)),
      )

-- libcurl gives up the sockets that it has, and libuv closes targets first.
abbrev pub give_up : List Socket → List Callback
give_up [] = []
give_up (s ∷ sockets) = socket s.fd poll_remove ∷ give_up sockets

abbrev pub closings : ℕ → ℕ → List Event
closings zero zero = []
closings zero (suc j) = closed_socket ∷ closings zero j
closings (suc i) j = closed_target ∷ closings i j

abbrev pub in_order : Ending
in_order = record {
  calls = λ loop. give_up loop.polls.sockets;
  events = λ loop. closings loop.watched.closing loop.polls.closing;
  returns = λ loop. true;
}

closings-Closings : (i j : ℕ) → Closings i j (closings i j)
closings-Closings zero zero = all_closed
closings-Closings zero (suc j) = socket_next (closings-Closings zero j)
closings-Closings (suc i) j = target_next (closings-Closings i j)

call_all-give_up :
    {S : Type 0} (sockets : List Socket) (loop : Loop) (w : World S)
    → loop.polls.sockets ≡ sockets
    → HasNoSocket (call_all (give_up sockets) loop w)
unfolding call_all
call_all-give_up [] loop w e = e
call_all-give_up (s ∷ sockets) loop w e =
    let same = (==_iff s.fd s.fd).1 refl in
    rw e (
      rw same (
        rw same (
          call_all-give_up sockets
            (record loop { polls = record { sockets = sockets; closing = suc loop.polls.closing } })
            w refl)))

pub in_order-IsOrderly : {S : Type 0} → IsOrderly S in_order
unfolding stop
in_order-IsOrderly {S = S} = record {
  gives_up = λ loop w. still_none _ (
      call_all-give_up loop.polls.sockets
        (record loop { watched = watcher_stop loop.watched; transfers = [] }) w refl);
  closes = λ loop empty. closings-Closings loop.watched.closing loop.polls.closing;
  returns_empty = λ loop empty gone. refl;
}
  where
    still_none :
        (result : Option (Loop × World S))
        → HasNoSocket result
        → HasNoSocket (continue (λ loop. pure (record loop { timer = none })) result)
    still_none none h = tt
    still_none (some (loop, w)) h = h

client_stop-Ended_example :
    (after : Loop) × (w : World (List Row)) × (client_stop table_server db in_order busy busy_world
      ≡ some (after, w))
    × Ended after 1 0 w
    × Frees busy_world w
client_stop-Ended_example =
    client_stop-Ended table_server 7 (table_laws 7) db 0 in_order busy busy_world in_order-IsOrderly
      busy-IsSound
