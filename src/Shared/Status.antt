-- ===== src/Shared/Status.antt =====
-- The status that the client holds of a target is that of its row, whatever the threads do.
use mathlib.Core.Logic.{◌≢◌}
use mathlib.Core.Path.{subst}
use reachard.Prelude.{
  ℕ, suc, true, false, List, [], ◌∷◌, Option, none, some, ◌≡◌, refl, sym, ap, ◌∙◌, IsInt32,
}
use reachard.Text.{Bytes}
use reachard.System.{Postgres, World, Response, is_command_ok, continue, pure, M}
use reachard.Database.{Db}
use reachard.Database.Targets.{Target}
use reachard.Database.Table.{Row, same_id, IsTable}
use reachard.Database.Refines.Rows.{IsOpen}
use reachard.Database.Refines.Single.{found}
use reachard.Database.Refines.Changes.{updated}
use reachard.Client.Targets.{ClientTarget, is_up, up_field}
use reachard.Client.Targets.Checks.{
  Agrees, hold_transfer, target_check-found, transfer_complete-Agrees,
}
use reachard.Server.Request.{Queue, queued, MhdResult}
use reachard.Server.Json.{CJson}
use reachard.Server.Targets.{
  patch_fields, post_fields, handle_delete, handle_get, handle_get_all, handle_patch, handle_post,
}
use reachard.Server.Targets as Handlers
use reachard.Server.Targets.Fields.{IsCJson}
use reachard.Server.Targets.Effects.{handle_delete-without_id, handle_get-found}
use reachard.Server.Targets.Listing.{handle_get_all-view}
use reachard.Server.Targets.Changes.{Body, handle_patch-patch_rows, handle_post-new_row}
use reachard.Server.Life.Created.{queued-IsOpen, memory-queued, server-queued}
use reachard.Shared.{
  Action, deleted, got, listed, patched, posted, checked, completed, run_action, run_actions,
}
use reachard.Shared.Rows.{without_id-Agrees, patch_rows-Agrees, append-Agrees, Agrees-if}

module _ (pg : Postgres) (cjson : CJson) (queue : Queue) (laws : IsCJson cjson) (c d : ℕ)
    (ts : IsTable pg c) (tc : IsTable pg d) (shared : (s : pg.Server) → ts.view s ≡ tc.view s)
    (serving polling : Db) where
  -- The two connections are open, and the target has the status of its row.
  pub record Holds (target : ClientTarget) (w : World pg.Server) : Type 0 where
    pub serves : IsOpen c serving w
    pub polls : IsOpen d polling w
    pub memory_left : w.memory ≡ []
    pub small : IsInt32 target.id
    pub agrees : Agrees pg d tc target (tc.view w.server)

  abbrev pub Keeps : Option (ClientTarget × World pg.Server) → Type 0
  Keeps result =
      (target : ClientTarget) × (w : World pg.Server) × (result ≡ some (target, w)) × Holds target w

  Holds-queued :
      (target : ClientTarget) (w : World pg.Server) (s : pg.Server) (r : Response)
      → Holds target w
      → Agrees pg d tc target (ts.view s)
      → Holds target (queued queue r (record w { server = s })).1
  Holds-queued target w s r h a =
      let w' = record w { server = s } in
      record {
        serves =
            queued-IsOpen queue c serving r w'
              (record { conn_is = h.serves.conn_is; is_open = h.serves.is_open });
        polls =
            queued-IsOpen queue d polling r w'
              (record { conn_is = h.polls.conn_is; is_open = h.polls.is_open });
        memory_left = memory-queued queue r w' ∙ h.memory_left;
        small = h.small;
        agrees =
            subst (Agrees pg d tc target) (shared s ∙ ap tc.view (sym (server-queued queue r w')))
              a;
      }

  Agrees-view :
      (target : ClientTarget) (w : World pg.Server)
      → Holds target w
      → Agrees pg d tc target (ts.view w.server)
  Agrees-view target w h = subst (Agrees pg d tc target) (sym (shared w.server)) h.agrees

  -- A handler that answers and leaves rows that agree.
  handled-Keeps :
      (m : M pg.Server MhdResult) (r : Response) (s : pg.Server) (target : ClientTarget)
      (w : World pg.Server)
      → m w ≡ some (queued queue r (record w { server = s }))
      → Holds target w
      → Agrees pg d tc target (ts.view s)
      → Keeps (continue (λ _. pure target) (m w))
  handled-Keeps m r s target w e h a = (
    target,
    (queued queue r (record w { server = s })).1,
    rw e refl,
    Holds-queued target w s r h a,
  )

  -- What may come next. A transfer that completes was in flight and its update is taken; a new row
  -- does not take the id of the target.
  abbrev pub IsAllowed : Action → ClientTarget → World pg.Server → Type 0
  IsAllowed (deleted k) target w = IsInt32 k
  IsAllowed (got k) target w = IsInt32 k
  IsAllowed listed target w = Unit
  IsAllowed (patched k cells) target w =
      (tree : cjson.Tree) × Body pg cjson queue c ts cells tree × (patch_fields cjson tree ≢ [])
  IsAllowed (posted cells) target w =
      (tree : cjson.Tree) × (t : Target) × (n : Bytes) × (u : Bytes) × Body pg cjson queue c ts
        cells tree
      × (post_fields cjson tree ≡ Handlers.posted t)
      × (t.name ≡ some n)
      × (t.url ≡ some u)
      × IsInt32 t.interval
      × (same_id (ts.next w.server) target.id ≡ false)
  IsAllowed checked target w = Unit
  IsAllowed (completed outcome) target w =
      (n : ℕ) × (w.blocks ≡ suc n)
      × (is_command_ok (updated pg d tc target.id (up_field (is_up outcome)) [] w.server).0.status
          ≡ true)

  Holds-hold_transfer :
      (target : ClientTarget) (w : World pg.Server) (s : pg.Server) (r : Option Row)
      → Holds target w
      → Agrees pg d tc target (tc.view s)
      → Holds target (hold_transfer pg d tc r (record w { server = s }))
  Holds-hold_transfer target w s none h a = record {
    serves = record { conn_is = h.serves.conn_is; is_open = h.serves.is_open };
    polls = record { conn_is = h.polls.conn_is; is_open = h.polls.is_open };
    memory_left = h.memory_left;
    small = h.small;
    agrees = a;
  }
  Holds-hold_transfer target w s (some r) h a = record {
    serves = record { conn_is = h.serves.conn_is; is_open = h.serves.is_open };
    polls = record { conn_is = h.polls.conn_is; is_open = h.polls.is_open };
    memory_left = h.memory_left;
    small = h.small;
    agrees = a;
  }

  run_action-Keeps :
      (action : Action) (target : ClientTarget) (w : World pg.Server)
      → Holds target w
      → IsAllowed action target w
      → Keeps (run_action pg cjson queue serving polling action target w)
  unfolding run_action
  run_action-Keeps (deleted k) target w h small =
      let (s, e, v) = handle_delete-without_id pg cjson queue c ts serving w k h.serves small in
      handled-Keeps (handle_delete pg cjson queue serving k) _ s target w e h (
        subst (Agrees pg d tc target) (sym v) (
          Agrees-if pg cjson queue c d ts tc target _ _ _
            (without_id-Agrees pg cjson queue c d ts tc target k (ts.view w.server)
              (Agrees-view target w h))
            (Agrees-view target w h)))
  run_action-Keeps (got k) target w h small =
      let (s, e, v) =
        handle_get-found pg cjson queue c ts serving w k h.serves h.memory_left small in
      handled-Keeps (handle_get pg cjson queue serving k) _ s target w e h
        (subst (Agrees pg d tc target) (sym v) (Agrees-view target w h))
  run_action-Keeps listed target w h p =
      let (s, e, v) = handle_get_all-view pg cjson queue c ts serving w h.serves h.memory_left in
      handled-Keeps (handle_get_all pg cjson queue serving) _ s target w e h
        (subst (Agrees pg d tc target) (sym v) (Agrees-view target w h))
  run_action-Keeps (patched k cells) target w h (tree, body, ne) =
      let (s, e, v) =
        handle_patch-patch_rows pg cjson queue c ts serving w k cells tree laws h.serves body ne in
      handled-Keeps (handle_patch pg cjson queue serving k (some cells)) _ s target w e h (
        subst (Agrees pg d tc target) (sym v) (
          Agrees-if pg cjson queue c d ts tc target _ _ _
            (patch_rows-Agrees pg cjson queue c d ts tc target k tree (ts.view w.server)
              (Agrees-view target w h))
            (Agrees-view target w h)))
  run_action-Keeps (posted cells) target w h (tree, t, n, u, body, fields, en, eu, small, other) =
      let (s, e, v) =
        handle_post-new_row pg cjson queue c ts serving w cells tree t n u h.serves h.memory_left
          body fields en eu small in
      handled-Keeps (handle_post pg cjson queue serving (some cells)) _ s target w e h (
        subst (Agrees pg d tc target) (sym v) (
          Agrees-if pg cjson queue c d ts tc target _ _ _
            (append-Agrees pg cjson queue c d ts tc target (ts.view w.server) _ other
              (Agrees-view target w h))
            (Agrees-view target w h)))
  run_action-Keeps checked target w h p =
      let (s, e, v) = target_check-found pg d tc polling w target h.polls h.memory_left h.small in
      (
        target,
        _,
        rw e refl,
        Holds-hold_transfer target w s (found pg d tc target.id w.server) h
            (subst (Agrees pg d tc target) (sym v) h.agrees),
      )
  run_action-Keeps (completed outcome) target w h (n, one, ok) =
      let (s, e, a) =
        transfer_complete-Agrees pg d tc polling w outcome target n h.polls one ok h.agrees in
      (
        record target { up = is_up outcome },
        record w { server = s; blocks = n },
        e,
        record {
          serves = record { conn_is = h.serves.conn_is; is_open = h.serves.is_open };
          polls = record { conn_is = h.polls.conn_is; is_open = h.polls.is_open };
          memory_left = h.memory_left;
          small = h.small;
          agrees = a;
        },
      )

  -- Every action is allowed where it comes.
  abbrev pub AreAllowed : List Action → ClientTarget → World pg.Server → Type 0
  AreAllowed [] target w = Unit
  AreAllowed (action ∷ actions) target w =
      IsAllowed action target w
      × (elim (run_action pg cjson queue serving polling action target w) [
        | none ↦ Unit
        | some (target', w') ↦ AreAllowed actions target' w'
      ])

  rest_allowed :
      (action : Action) (actions : List Action) (target target' : ClientTarget)
      (w w' : World pg.Server)
      → run_action pg cjson queue serving polling action target w ≡ some (target', w')
      → AreAllowed (action ∷ actions) target w
      → AreAllowed actions target' w'
  rest_allowed action actions target target' w w' e p = rw e at (p.1)

  -- Where the server's thread and the client's thread have an open connection each to one table,
  -- and no allocation fails: over any sequence of requests and of checks of one target, none of
  -- them faults, and the target, with the status of its row at first, has the status of its row at
  -- the end. Conditions: ids and numbers of cJSON are `int`s, each POST and PATCH that comes has a
  -- body that its handler takes, no new row takes the target's id, and each transfer that completes
  -- was in flight and has its update taken.
  pub run_actions-Keeps :
      (actions : List Action) (target : ClientTarget) (w : World pg.Server)
      → Holds target w
      → AreAllowed actions target w
      → Keeps (run_actions pg cjson queue serving polling actions target w)
  unfolding run_actions
  run_actions-Keeps [] target w h p = (target, w, refl, h)
  run_actions-Keeps (action ∷ actions) target w h p =
      let (target1, w1, e1, h1) = run_action-Keeps action target w h p.0 in
      let (target2, w2, e2, h2) =
        run_actions-Keeps actions target1 w1 h1
          (rest_allowed action actions target target1 w w1 e1 p) in
      (target2, w2, rw e1 e2, h2)
