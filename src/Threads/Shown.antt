-- ===== src/Threads/Shown.antt =====
-- What both threads together show of the table over HTTP.
use reachard.Prelude.{ℕ, List, [], ◌∷◌, Option, some, ◌≡◌, refl, sym, ap, ◌∙◌, map}
use reachard.Text.{Bytes}
use reachard.System.{Postgres, World}
use reachard.Database.{Db}
use reachard.Database.Table.{IsTable}
use reachard.Database.Blank.{blank}
use reachard.Database.Refines.Rows.{IsOpen}
use reachard.Client.Loop.{Loop}
use reachard.Client.Loop.Sound.{IsSound}
use reachard.Server.Request.{Queue}
use reachard.Server.Json.{CJson}
use reachard.Server.Targets.Fields.{IsCJson}
use reachard.Server.Spec.{Call, url_of_call, method_of_call, chunks_of_call}
use reachard.Server.Spec.Runs.{Seen, Run, served_none, served}
use reachard.Threads.{Step, request, event, take_steps}
use reachard.Threads.Kept.{
  IsOpen-Shares, Shares, Shares-trans, shown, Does, take_step-StepDoes, ArePossibleSteps,
  rest_possible,
}

-- A request of a URL, a method and the chunks of a body.
abbrev Request : Type 0
Request = Bytes × Bytes × List Bytes

-- The requests among the steps.
abbrev pub requests : List Step → List Request
requests [] = []
requests (request url method chunks ∷ steps) = (url, method, chunks) ∷ requests steps
requests (event e ∷ steps) = requests steps

abbrev pub request_of : Call → Request
request_of call = (url_of_call call, method_of_call call, chunks_of_call call)

module _ (pg : Postgres) (cjson : CJson) (queue : Queue) (polling : Db) (p : ℕ) (tp : IsTable pg p)
    (serving : Db) (s : ℕ) (ts : IsTable pg s) (n : ℕ)
    (one_table : (x : pg.Server) → tp.view x ≡ ts.view x) where
  abbrev seen_of : World pg.Server → Seen
  seen_of = shown pg cjson queue polling p tp serving s ts n

  shown_event :
      (w w1 : World pg.Server)
      → w1.sent ≡ w.sent
      → blank (tp.view w1.server) ≡ blank (tp.view w.server)
      → seen_of w1 ≡ seen_of w
  shown_event w w1 es ev =
      let rows : blank (ts.view w1.server) ≡ blank (ts.view w.server) =
        sym (ap blank (one_table w1.server)) ∙ ev ∙ ap blank (one_table w.server) in
      ap (λ x. (x, blank (ts.view w1.server))) es ∙ ap (λ x. (w.sent, x)) rows

  -- One step more, in front of a run.
  add_step :
      (step : Step) (steps : List Step) (w w1 w2 : World pg.Server) (calls : List Call)
      → Does pg cjson queue polling p tp serving s ts n step w w1
      → requests steps ≡ map request_of calls
      → Run pg cjson queue s ts calls (seen_of w1) (seen_of w2)
      → (calls2 : List Call) × (requests (step ∷ steps) ≡ map request_of calls2)
        × Run pg cjson queue s ts calls2 (seen_of w) (seen_of w2)
  add_step (event e) steps w w1 w2 calls (es, ev) same run =
      (calls, same, rw (shown_event w w1 es ev) at run)
  add_step (request url method chunks) steps w w1 w2 calls
        (call, ok, next, eu, em, ec, fit, fresh, after) same run =
      (call ∷ calls, rw (eu, em, ec, same) refl, served ok next fit fresh (rw after at run))

  -- The steps return, and show a run of their requests alone.
  abbrev pub ShowsRun : List Step → World pg.Server → Option (Loop × World pg.Server) → Type 0
  ShowsRun steps w0 result =
      (loop : Loop) × (w : World pg.Server) × (calls : List Call) × (result ≡ some (loop, w))
      × (requests steps ≡ map request_of calls)
      × Run pg cjson queue s ts calls (shown pg cjson queue polling p tp serving s ts n w0)
          (shown pg cjson queue polling p tp serving s ts n w)
      × IsSound p polling n loop w
      × Shares w0 w

  -- Where both threads have an open connection to one table, from a sound state of the client's
  -- thread, with no allocation that fails and numbers of cJSON that are `int`s: any sequence of fit
  -- requests and of events of the client that may come returns, and the responses and the rows
  -- without their status are a run of the specification over the requests alone. What the client's
  -- thread does is not seen over HTTP.
  pub take_steps-ShowsRun :
      (steps : List Step) (loop : Loop) (w : World pg.Server)
      → IsCJson cjson
      → IsOpen s serving w
      → IsSound p polling n loop w
      → ArePossibleSteps pg cjson queue polling p tp serving s ts n steps loop w
      → ShowsRun steps w (take_steps pg cjson queue serving polling steps loop w)
  unfolding take_steps
  take_steps-ShowsRun [] loop w laws o k possible = (loop, w, [], refl, refl, served_none, k, refl)
  take_steps-ShowsRun (step ∷ steps) loop w laws o k possible =
      let (loop1, w1, e1, k1, shares1, does) =
        take_step-StepDoes pg cjson queue polling p tp serving s ts n step loop w laws o k
          possible.0 in
      let (loop2, w2, calls, e2, same, run, k2, shares2) =
        take_steps-ShowsRun steps loop1 w1 laws (IsOpen-Shares s serving w w1 o shares1) k1 (
          rest_possible pg cjson queue polling p tp serving s ts n step steps loop loop1 w w1 e1
            possible) in
      let (calls2, same2, run2) = add_step step steps w w1 w2 calls does same run in
      (loop2, w2, calls2, rw e1 e2, same2, run2, k2, Shares-trans w w1 w2 shares1 shares2)
