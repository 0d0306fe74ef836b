-- ===== src/Threads/Kept.antt =====
-- Both threads keep what holds of the other.
use reachard.Prelude.{
  ℕ, ℤ, Bool, List, [], ◌∷◌, Option, none, some, ◌≡◌, refl, sym, ap, ◌∙◌, Bool-cases, inl, inr,
}
use reachard.System.{Postgres, World, Response}
use reachard.Database.{Db}
use reachard.Database.Table.{IsTable, with_id}
use reachard.Database.Refines.Rows.{IsOpen}
use reachard.Client.Loop.{Loop}
use reachard.Client.Loop.Sound.{IsSound, Touches}
use reachard.Client.Loop.Events.{IsPossible, run_event-Keeps}
use reachard.Server.Request.{Queue, queued}
use reachard.Server.Json.{CJson}
use reachard.Server.Targets.Fields.{IsCJson}
use reachard.Server.Spec.{Call, url_of_call, method_of_call, chunks_of_call, spec}
use reachard.Server.Spec.Steps.{IsFit, takes, serve-Meets}
use reachard.Server.Spec.Runs.{Seen, seen_after, seen-queued}
use reachard.Server.Spec.Blank.{spec-blank}
use reachard.Database.Blank.{blank, with_id-blank}
use reachard.Threads.{Step, request, event, take_step, take_steps}

-- Both threads change the server's state, the heap and the responses, and nothing else.
abbrev pub Shares : {S : Type 0} → World S → World S → Type 0
Shares w w' = w' ≡ record w { server = w'.server; blocks = w'.blocks; sent = w'.sent }

pub Shares-trans : {S : Type 0} → (w w1 w2 : World S) → Shares w w1 → Shares w1 w2 → Shares w w2
Shares-trans {S = S} w w1 w2 e1 e2 =
    e2
    ∙ ap {A = World S} {B = World S}
        (λ x. record x { server = w2.server; blocks = w2.blocks; sent = w2.sent }) e1

pub Touches-Shares : {S : Type 0} → (w w' : World S) → Touches w w' → Shares w w'
Touches-Shares {S = S} w w' e =
    e
    ∙ ap {A = List Response} {B = World S}
        (λ x. record w { server = w'.server; blocks = w'.blocks; sent = x })
        (sym (ap (λ x. x.sent) e))

pub IsOpen-Shares :
    {S : Type 0} → (c : ℕ) (db : Db) (w w' : World S) → IsOpen c db w → Shares w w' → IsOpen c db w'
IsOpen-Shares c db w w' o e = record {
  conn_is = o.conn_is;
  is_open = rw (ap (λ x. x.live) e) o.is_open;
}

module _ (pg : Postgres) (cjson : CJson) (queue : Queue) (polling : Db) (p : ℕ) (tp : IsTable pg p)
    (serving : Db) (s : ℕ) (ts : IsTable pg s) (n : ℕ) where
  -- A fit request, or an event that may come next.
  abbrev pub IsPossibleStep : Step → Loop → Type 0
  IsPossibleStep (request url method chunks) loop =
      (call : Call) × (url ≡ url_of_call call)
      × (method ≡ method_of_call call)
      × (chunks ≡ chunks_of_call call)
      × IsFit pg cjson queue s ts call
  IsPossibleStep (event e) loop = IsPossible e loop

  -- A step that returns, and keeps what holds.
  abbrev pub StepKeeps : World pg.Server → Option (Loop × World pg.Server) → Type 0
  StepKeeps w0 result =
      (loop : Loop) × (w : World pg.Server) × (result ≡ some (loop, w))
      × IsSound p polling n loop w
      × Shares w0 w

  with_sent :
      (loop : Loop) (w : World pg.Server) (after : pg.Server) (sent : List Response)
      → IsSound p polling n loop w
      → IsSound p polling n loop (record w { server = after; sent = sent })
  with_sent loop w after sent k = record {
    connected = record { conn_is = k.connected.conn_is; is_open = k.connected.is_open };
    memory_left = k.memory_left;
    accounted = k.accounted;
    ids = k.ids;
    attached = k.attached;
    unique = k.unique;
  }

  queued-Sound :
      (answer : Response) (loop : Loop) (w : World pg.Server) (after : pg.Server)
      → IsSound p polling n loop w
      → let w' = (queued queue answer (record w { server = after })).1 in
        IsSound p polling n loop w' × Shares w w'
  queued-Sound answer loop w after k = elim (Bool-cases (queue w.sent answer)) [
    | inl q ↦ rw q (with_sent loop w after (answer ∷ w.sent) k, refl)
    | inr q ↦ rw q (with_sent loop w after w.sent k, refl)
  ]

  -- What a client of the HTTP server may see: the responses, and the rows without their status.
  abbrev pub shown : World pg.Server → Seen
  shown w = (w.sent, blank (ts.view w.server))

  -- What a step does: a request answers from the rows without their status, and an event changes
  -- neither these nor the responses.
  abbrev pub Does : Step → World pg.Server → World pg.Server → Type 0
  Does (request url method chunks) w w' =
      (call : Call) × (ok : Bool) × (next : ℤ) × (url ≡ url_of_call call)
      × (method ≡ method_of_call call)
      × (chunks ≡ chunks_of_call call)
      × IsFit pg cjson queue s ts call
      × (with_id next (blank (ts.view w.server)) ≡ [])
      × (shown w' ≡ seen_after pg cjson queue s ts ok next call (shown w))
  Does (event e) w w' = (w'.sent ≡ w.sent) × (blank (tp.view w'.server) ≡ blank (tp.view w.server))

  -- A step that returns, keeps what holds, and does what it says.
  abbrev StepDoes : Step → World pg.Server → Option (Loop × World pg.Server) → Type 0
  StepDoes step w0 result =
      (loop : Loop) × (w : World pg.Server) × (result ≡ some (loop, w))
      × IsSound p polling n loop w
      × Shares w0 w
      × Does step w0 w

  shown-queued :
      (ok : Bool) (call : Call) (w : World pg.Server) (after : pg.Server)
      → let (answer, rows) =
          spec pg cjson queue s ts ok (ts.next w.server) call (ts.view w.server) in
        ts.view after ≡ rows
        → shown (queued queue answer (record w { server = after })).1
          ≡ seen_after pg cjson queue s ts ok (ts.next w.server) call (shown w)
  shown-queued ok call w after v =
      let (answer, rows) = spec pg cjson queue s ts ok (ts.next w.server) call (ts.view w.server) in
      rw (spec-blank pg cjson queue s ts ok (ts.next w.server) call (ts.view w.server))
        (ap (λ (x, l). (x, blank l)) (seen-queued pg cjson queue s ts answer rows w after v))

  request-StepDoes :
      (call : Call) (loop : Loop) (w : World pg.Server)
      → IsCJson cjson
      → IsOpen s serving w
      → IsSound p polling n loop w
      → IsFit pg cjson queue s ts call
      → let step = request (url_of_call call) (method_of_call call) (chunks_of_call call) in
        StepDoes step w (take_step pg cjson queue serving polling step loop w)
  unfolding take_step
  request-StepDoes call loop w laws o k fit =
      let ok = takes pg cjson queue s ts call w.server in
      let (answer, rows) = spec pg cjson queue s ts ok (ts.next w.server) call (ts.view w.server) in
      let (after, e, v) = serve-Meets pg cjson queue s ts serving w call laws o k.memory_left fit in
      let (kept, shares) = queued-Sound answer loop w after k in
      let fresh =
        with_id-blank (ts.next w.server) (ts.view w.server) ∙ ap blank (ts.next_fresh w.server) in
      (
        loop,
        _,
        rw e refl,
        kept,
        shares,
        (call, ok, ts.next w.server, refl, refl, refl, fit, fresh, shown-queued ok call w after v),
      )

  pub take_step-StepDoes :
      (step : Step) (loop : Loop) (w : World pg.Server)
      → IsCJson cjson
      → IsOpen s serving w
      → IsSound p polling n loop w
      → IsPossibleStep step loop
      → StepDoes step w (take_step pg cjson queue serving polling step loop w)
  unfolding take_step
  take_step-StepDoes (request url method chunks) loop w laws o k (call, eu, em, ec, fit) =
      rw (eu, em, ec) (request-StepDoes call loop w laws o k fit)
  take_step-StepDoes (event e) loop w laws o k possible =
      let (loop1, w1, ran, k1, touches, v) =
        run_event-Keeps pg p tp polling n e loop w k possible in
      (loop1, w1, ran, k1, Touches-Shares w w1 touches, (ap (λ x. x.sent) touches, v))

  -- Every step is possible where it comes.
  abbrev pub ArePossibleSteps : List Step → Loop → World pg.Server → Type 0
  ArePossibleSteps [] loop w = Unit
  ArePossibleSteps (step ∷ steps) loop w =
      IsPossibleStep step loop × (elim (take_step pg cjson queue serving polling step loop w) [
        | none ↦ Unit
        | some (loop', w') ↦ ArePossibleSteps steps loop' w'
      ])

  pub rest_possible :
      (step : Step) (steps : List Step) (loop loop' : Loop) (w w' : World pg.Server)
      → take_step pg cjson queue serving polling step loop w ≡ some (loop', w')
      → ArePossibleSteps (step ∷ steps) loop w
      → ArePossibleSteps steps loop' w'
  rest_possible step steps loop loop' w w' e possible = rw e at (possible.1)

  -- From a sound state of the client's thread, with an open connection each to a table: any
  -- sequence of fit requests and of events that may come returns, in a sound state again, and
  -- changes nothing but the server's state, the heap and the responses, so that neither thread
  -- closes the other's connection.
  pub take_steps-StepKeeps :
      (steps : List Step) (loop : Loop) (w : World pg.Server)
      → IsCJson cjson
      → IsOpen s serving w
      → IsSound p polling n loop w
      → ArePossibleSteps steps loop w
      → StepKeeps w (take_steps pg cjson queue serving polling steps loop w)
  unfolding take_steps
  take_steps-StepKeeps [] loop w laws o k possible = (loop, w, refl, k, refl)
  take_steps-StepKeeps (step ∷ steps) loop w laws o k possible =
      let (loop1, w1, e1, k1, shares1, does) = take_step-StepDoes step loop w laws o k possible.0 in
      let (loop2, w2, e2, k2, shares2) =
        take_steps-StepKeeps steps loop1 w1 laws (IsOpen-Shares s serving w w1 o shares1) k1
          (rest_possible step steps loop loop1 w w1 e1 possible) in
      (loop2, w2, rw e1 e2, k2, Shares-trans w w1 w2 shares1 shares2)
