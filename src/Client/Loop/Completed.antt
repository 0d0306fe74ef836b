-- ===== src/Client/Loop/Completed.antt =====
-- `check_completed` of src/client/state.c.
use mathlib.Core.Path.{subst}
use reachard.Prelude.{
  ℕ, ◌+◌, ℤ, Bool, true, false, List, [], ◌∷◌, Option, some, ◌≡◌, refl, sym, ap, ◌∙◌, if◌then◌else◌,
  arith, length, All, find_key, remove_key, length-remove_key, All-remove_key, All-find_key,
  Bool-cases, inl, inr,
}
use reachard.System.{Postgres, World}
use reachard.Database.{Db}
use reachard.Database.Table.{Row, IsTable, update_rows}
use reachard.Database.Blank.{blank, blank-update_rows}
use reachard.Client.Targets.{ClientTarget, is_up, up_field}
use reachard.Client.Targets.Checks.{transfer_complete-update_rows, recorded}
use reachard.Client.Watcher.Table.{held}
use reachard.Client.Sockets.Table.{held_sockets}
use reachard.Client.Loop.{Transfer, Loop, Message, hash_set, complete, check_completed}
use reachard.Client.Loop.Sound.{
  IsSound, IsReported, IsWatched, hash_find-id, hash_set-ids, hash_set-IsWatched, length-hash_set,
  call_all-Called, Touches, Touches-trans,
}

-- The transfers that are left when the done ones are removed.
abbrev pub left : List Message → List Transfer → List Transfer
left [] transfers = transfers
left (m ∷ messages) transfers =
    if m.done
    then left messages (remove_key (λ tr. tr.handle) m.handle transfers)
    else left messages transfers

All-IsWatched_set :
    (new : ClientTarget) (targets : List ClientTarget) (transfers : List Transfer)
    → All (λ tr. IsWatched targets tr.target) transfers
    → All (λ tr. IsWatched (hash_set new targets) tr.target) transfers
All-IsWatched_set new targets [] a = tt
All-IsWatched_set new targets (tr ∷ transfers) a =
    (hash_set-IsWatched new tr.target targets a.0, All-IsWatched_set new targets transfers a.1)

IsReported-done :
    (m : Message) (messages : List Message) (transfers : List Transfer)
    → m.done ≡ true
    → IsReported (m ∷ messages) transfers
    → ((tr : Transfer) × (find_key (λ tr. tr.handle) m.handle transfers ≡ some tr))
      × IsReported messages (remove_key (λ tr. tr.handle) m.handle transfers)
IsReported-done m messages transfers d r = rw d at r

IsReported-other :
    (m : Message) (messages : List Message) (transfers : List Transfer)
    → m.done ≡ false
    → IsReported (m ∷ messages) transfers
    → IsReported messages transfers
IsReported-other m messages transfers d r = rw d at r

module _ (pg : Postgres) (c : ℕ) (t : IsTable pg c) where
  -- A step that returns and keeps what holds, with the transfers that it leaves.
  abbrev pub Leaves :
      Db → ℕ → List Transfer → World pg.Server → Option (Loop × World pg.Server) → Type 0
  Leaves db n transfers w0 result =
      (loop : Loop) × (w : World pg.Server) × (result ≡ some (loop, w))
      × (loop.transfers ≡ transfers)
      × IsSound c db n loop w
      × Touches w0 w
      × (blank (t.view w.server) ≡ blank (t.view w0.server))

  blank-recorded :
      (ok : Bool) (k : ℤ) (b : Bool) (rows : List Row)
      → blank (if ok then update_rows k (up_field b ∷ []) rows else rows) ≡ blank rows
  blank-recorded true k b rows = blank-update_rows k b rows
  blank-recorded false k b rows = refl

  complete-Leaves :
      (db : Db) (n : ℕ) (m : Message) (loop : Loop) (w : World pg.Server) (tr : Transfer)
      → IsSound c db n loop w
      → find_key (λ tr. tr.handle) m.handle loop.transfers ≡ some tr
      → Leaves db n
          (remove_key (λ tr. tr.handle) m.handle loop.transfers)
          w
          (complete pg db m loop (some tr) w)
  unfolding complete
  complete-Leaves db n m loop w tr s e =
      let (target, h) =
        All-find_key (λ (tr : Transfer). tr.handle) (λ tr. IsWatched loop.watched.targets tr.target)
          m.handle loop.transfers tr s.attached e in
      let shorter = length-remove_key (λ (tr : Transfer). tr.handle) m.handle loop.transfers tr e in
      let rest = remove_key (λ (tr : Transfer). tr.handle) m.handle loop.transfers in
      let new : ClientTarget = record target { up = is_up m.outcome } in
      let (same, small) = hash_find-id tr.target loop.watched.targets target h s.ids in
      let k : ℕ = held loop.watched + (length rest + held_sockets loop.polls) + n in
      let (s', done, v) =
        transfer_complete-update_rows pg c t db w m.outcome target k s.connected
          (omega (arith, s.accounted, shorter)) in
      let sound : IsSound c db n
          (record loop {
            watched = record loop.watched { targets = hash_set new loop.watched.targets };
            transfers = rest;
          })
          (record w { server = s'; blocks = k }) =
        record {
          connected = record { conn_is = s.connected.conn_is; is_open = s.connected.is_open };
          memory_left = s.memory_left;
          accounted = omega (arith, length-hash_set new loop.watched.targets);
          ids = hash_set-ids new loop.watched.targets small s.ids;
          attached = All-IsWatched_set new loop.watched.targets rest (
              All-remove_key (λ (tr : Transfer). tr.handle)
                (λ tr. IsWatched loop.watched.targets tr.target) m.handle loop.transfers
                s.attached);
          unique = s.unique;
        } in
      let (polls, ms, b, called, s2) = call_all-Called c db n m.calls _ _ sound in
      (
        _,
        _,
        rw h (rw done called),
        refl,
        s2,
        refl,
        rw v (
            blank-recorded (recorded pg c t target (is_up m.outcome) w.server) target.id
              (is_up m.outcome) (t.view w.server)),
      )

  -- In a sound state of the client's thread, where each done message is of a transfer in flight:
  -- the loop over the messages ends with exactly the transfers of the done ones removed, and in a
  -- sound state, with every block accounted for. It changes no row but in its status.
  pub check_completed-Leaves :
      (db : Db) (n : ℕ) (messages : List Message) (loop : Loop) (w : World pg.Server)
      → IsSound c db n loop w
      → IsReported messages loop.transfers
      → Leaves db n (left messages loop.transfers) w (check_completed pg db messages loop w)
  unfolding check_completed
  check_completed-Leaves db n [] loop w s r = (loop, w, refl, refl, s, refl, refl)
  check_completed-Leaves db n (m ∷ messages) loop w s r = elim (Bool-cases m.done) [
    | inl d ↦
        let ((tr, e), more) = IsReported-done m messages loop.transfers d r in
        let (loop1, w1, e1, t1, s1, k1, v1) = complete-Leaves db n m loop w tr s e in
        let (loop2, w2, e2, t2, s2, k2, v2) =
          check_completed-Leaves db n messages loop1 w1 s1
            (subst (IsReported messages) (sym t1) more) in
        rw d (
          loop2,
          w2,
          rw e (rw e1 e2),
          t2 ∙ ap (left messages) t1,
          s2,
          Touches-trans w w1 w2 k1 k2,
          v2 ∙ v1,
        )
    | inr d ↦ rw d (
        check_completed-Leaves db n messages loop w s
          (IsReported-other m messages loop.transfers d r))
  ]
