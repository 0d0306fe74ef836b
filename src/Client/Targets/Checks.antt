-- ===== src/Client/Targets/Checks.antt =====
-- `transfer_complete` and `target_check` of src/client/targets.c, on the table of Database.Table.
use mathlib.Core.Path.{subst}
use reachard.Prelude.{
  ℕ, suc, Bool, true, false, List, [], ◌∷◌, Option, none, some, ◌≡◌, refl, arith, IsInt32,
  if◌then◌else◌, Bool-cases, inl, inr, All, sym, ◌∙◌, ◌↔◌, ◌≤◌, ◌==◌, ==_iff, ℤ, pos, negsuc,
}
use reachard.Text.{CString}
use reachard.System.{Postgres, World, is_command_ok}
use reachard.Database.{Db}
use reachard.Database.Table.{Row, same_id, update_rows, IsTable}
use reachard.Database.Refines.Rows.{IsOpen, to_target, hold_found}
use reachard.Database.Refines.Single.{get-find, found}
use reachard.Database.Refines.Changes.{update-update_rows, updated}
use reachard.Client.Targets.{
  ClientTarget, Outcome, in_200_299, is_up, same_up, up_field, transfer_complete, target_check,
  start_transfer,
}

same_up_sound : (a b : Bool) → same_up a b ≡ true → a ≡ b
same_up_sound true b h = sym h
same_up_sound false true h = h
same_up_sound false false h = refl

-- No error of libcurl, and a status from 200 to 299.
abbrev pub IsSuccess : Outcome → Type 0
IsSuccess outcome =
    (outcome.result ≡ 0) × (n : ℕ) × (outcome.status ≡ pos n) × (200 ≤ n) × (n ≤ 299)

in_200_299_iff : (z : ℤ) → (in_200_299 z ≡ true) ↔ ((n : ℕ) × (z ≡ pos n) × (200 ≤ n) × (n ≤ 299))
in_200_299_iff (pos n) =
    (λ h. (n, refl, ground arith, ground arith), λ (m, e, low, high). ground arith)
in_200_299_iff (negsuc n) = (λ h. cc, λ (m, e, low, high). cc)

is_up_iff : (outcome : Outcome) → (is_up outcome ≡ true) ↔ IsSuccess outcome
is_up_iff outcome = elim (Bool-cases (outcome.result == 0)) [
  | inl h ↦
      let ok = (==_iff outcome.result 0).0 h in
      rw h (
        λ up. let (n, e, low, high) = (in_200_299_iff outcome.status).0 up in (ok, n, e, low, high),
        λ (e, n, status, low, high). (in_200_299_iff outcome.status).1 (n, status, low, high),
      )
  | inr h ↦ rw h (λ up. cc, λ (e, n, status, low, high). ground arith)
]

module _ (pg : Postgres) (c : ℕ) (t : IsTable pg c) where
  -- Whether the row of a target is written, and PostgreSQL takes it.
  abbrev pub recorded : ClientTarget → Bool → pg.Server → Bool
  recorded target b s =
      if same_up b target.up
      then false
      else is_command_ok (updated pg c t target.id (up_field b) [] s).0.status

  -- A completed transfer, by the status that the code finds.
  pub transfer_complete-update_rows :
      (db : Db) (w : World pg.Server) (outcome : Outcome) (target : ClientTarget) (n : ℕ)
      → IsOpen c db w
      → w.blocks ≡ suc n
      → let up = is_up outcome in
        (s : pg.Server) × (transfer_complete pg db outcome target w
          ≡ some (record target { up = up }, record w { server = s; blocks = n }))
        × (t.view s ≡ (
            if recorded target up w.server
            then update_rows target.id (up_field up ∷ []) (t.view w.server)
            else t.view w.server))
  unfolding transfer_complete
  transfer_complete-update_rows db w outcome target n o e =
      let (s, e2, v) =
        update-update_rows pg c t db w target.id (up_field (is_up outcome)) [] o (tt, tt) (tt, tt)
          ((λ q. cc), tt) in
      elim (Bool-cases (same_up (is_up outcome) target.up)) [
        | inl h ↦ (w.server, ground (arith, h, e), ground (arith, h))
        | inr h ↦ (s, ground (arith, h, e, e2), ground (arith, h, v))
      ]

  -- On an open connection to a table: a completed transfer marks its target up exactly if there was
  -- no error and the status is in 200 to 299. It writes the row where that is a change, whether or
  -- not PostgreSQL takes it, touches no row otherwise, and frees the transfer.
  pub transfer_complete-is_up :
      (db : Db) (w : World pg.Server) (outcome : Outcome) (target : ClientTarget) (n : ℕ)
      → IsOpen c db w
      → w.blocks ≡ suc n
      → (s : pg.Server) × (up : Bool) × ((up ≡ true) ↔ IsSuccess outcome)
        × (transfer_complete pg db outcome target w
            ≡ some (record target { up = up }, record w { server = s; blocks = n }))
        × (t.view s ≡ (
            if recorded target up w.server
            then update_rows target.id (up_field up ∷ []) (t.view w.server)
            else t.view w.server))
  transfer_complete-is_up db w outcome target n o e =
      let (s, e2, v) = transfer_complete-update_rows db w outcome target n o e in
      (s, is_up outcome, is_up_iff outcome, e2, v)

  -- The URL that the check of a row asks for.
  abbrev pub url_asked : Option Row → Option CString
  url_asked none = none
  url_asked (some r) = some (some r.url)

  abbrev pub hold_transfer : {S : Type 0} → Option Row → World S → World S
  hold_transfer none w = w
  hold_transfer (some _) w = record w { blocks = suc w.blocks }

  start_transfer-url_asked :
      (w : World pg.Server) (r : Option Row)
      → w.memory ≡ []
      → start_transfer pg (to_target r) (hold_found (to_target r) w)
        ≡ some (url_asked r, hold_transfer r w)
  unfolding start_transfer
  start_transfer-url_asked w none m = refl
  start_transfer-url_asked w (some r) m = ground arith

  -- On an open connection to a table, where no allocation fails: the check of a target starts a
  -- transfer to the URL that its row has now, and none where there is no such row or the query
  -- fails. It changes no row, and holds on to the transfer alone.
  pub target_check-found :
      (db : Db) (w : World pg.Server) (target : ClientTarget)
      → IsOpen c db w
      → w.memory ≡ []
      → IsInt32 target.id
      → let r = found pg c t target.id w.server in
        (s : pg.Server) × (target_check pg db target w
          ≡ some (url_asked r, hold_transfer r (record w { server = s })))
        × (t.view s ≡ t.view w.server)
  unfolding target_check
  target_check-found db w target o m h =
      let (s, e, v) = get-find pg c t db w target.id o m h in
      (
        s,
        rw e (
            start_transfer-url_asked (record w { server = s }) (found pg c t target.id w.server) m),
        v,
      )

  -- The target has the status of its row.
  abbrev pub Agrees : ClientTarget → List Row → Type 0
  Agrees target = All (λ r. same_id r.id target.id ≡ true → r.up ≡ target.up)

  update_rows-Agrees :
      (target : ClientTarget) (b : Bool) (rows : List Row)
      → Agrees (record target { up = b }) (update_rows target.id (up_field b ∷ []) rows)
  update_rows-Agrees target b [] = tt
  update_rows-Agrees target b (r ∷ rs) = elim (Bool-cases (same_id r.id target.id)) [
    | inl h ↦ rw h ((λ _. refl), update_rows-Agrees target b rs)
    | inr h ↦ rw h ((λ k. cc), update_rows-Agrees target b rs)
  ]

  -- On an open connection to a table that takes the update of the target: where the target had the
  -- status of its row, it has the status of its row after a completed transfer.
  pub transfer_complete-Agrees :
      (db : Db) (w : World pg.Server) (outcome : Outcome) (target : ClientTarget) (n : ℕ)
      → IsOpen c db w
      → w.blocks ≡ suc n
      → is_command_ok (updated pg c t target.id (up_field (is_up outcome)) [] w.server).0.status
        ≡ true
      → Agrees target (t.view w.server)
      → let after = record target { up = is_up outcome } in
        (s : pg.Server) × (transfer_complete pg db outcome target w
          ≡ some (after, record w { server = s; blocks = n }))
        × Agrees after (t.view s)
  transfer_complete-Agrees db w outcome target n o e q a =
      let (s, e2, v) = transfer_complete-update_rows db w outcome target n o e in
      elim (Bool-cases (same_up (is_up outcome) target.up)) [
        | inl h ↦
            let same : t.view s ≡ t.view w.server = v ∙ rw h refl in
            (
              s,
              e2,
              subst (Agrees (record target { up = is_up outcome })) (sym same) (
                  subst (λ b. Agrees (record target { up = b }) (t.view w.server))
                    (sym (same_up_sound (is_up outcome) target.up h)) a),
            )
        | inr h ↦
            let changed : t.view s
                ≡ update_rows target.id (up_field (is_up outcome) ∷ []) (t.view w.server) =
              v ∙ rw (h, q) refl in
            (
              s,
              e2,
              subst (Agrees (record target { up = is_up outcome })) (sym changed)
                  (update_rows-Agrees target (is_up outcome) (t.view w.server)),
            )
      ]
