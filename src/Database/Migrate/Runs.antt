-- ===== src/Database/Migrate/Runs.antt =====
-- `reachard_db_apply_migration`, and the loop of `reachard_db_migrate`, of src/database/migrate.c.
use mathlib.Core.Path.{subst}
use reachard.Prelude.{
  ℕ, suc, ◌+◌, ◌≤◌, ◌<◌, true, false, List, [], ◌∷◌, some, ◌≡◌, ◌⊎◌, inl, inr, refl, ap, ◌∙◌, arith,
  if◌then◌else◌, Bool-cases, length, All, ◌&&◌, lt→ltb,
}
use reachard.Text.{Bytes}
use reachard.System.{Postgres, World, is_command_ok}
use reachard.Database.{Db}
use reachard.Database.Refines.Rows.{IsOpen}
use reachard.Database.Migrate.{int_max, apply_migration, apply_all}
use reachard.Database.Migrate.Rules.{
  idle, IsTransactional, begun, migrated, versioned, ended, ran, went_well, ran-went_well,
  ran-is_zero, sets_version, ran-Left, apply_migration-ran,
}

module _ (pg : Postgres) (c : ℕ) (t : IsTransactional pg c) where
  -- One run of a plain migration from an idle connection returns 0 exactly if BEGIN, the migration
  -- and END went well. It commits the new version exactly if it returns 0 and the update of the
  -- version went well too, at which the code does not look, and else leaves the committed version
  -- as it was.
  pub apply_migration-committed :
      (db : Db) (w : World pg.Server) (n : ℕ) (migration : Bytes)
      → IsOpen c db w
      → t.phase w.server ≡ idle
      → n < 2147483648
      → t.is_plain migration ≡ true
      → let done = went_well pg c t n migration w.server in
        (s : pg.Server) × (apply_migration pg db n migration w
          ≡ some (if done then 0 else 1, record w { server = s }))
        × (t.committed s ≡ (
            if done && sets_version pg c t n migration w.server then n else t.committed w.server))
  apply_migration-committed db w n migration o h small plain = (
    (ran pg c t n migration w.server).1,
    apply_migration-ran pg c t db w n migration o small
        ∙ ap (λ code. some (code, record w { server = (ran pg c t n migration w.server).1 }))
            (ran-went_well pg c t n migration w.server),
    (ran-Left pg c t n migration w.server h plain).0
        ∙ ap
            (λ done.
              if done && sets_version pg c t n migration w.server then n else t.committed w.server)
            (ran-is_zero pg c t n migration w.server),
  )

  -- A plain migration whose version cannot be written, the BEGIN and the migration itself having
  -- gone well, is undone, and reported as applied.
  pub apply_migration_undone :
      (db : Db) (w : World pg.Server) (n : ℕ) (migration : Bytes)
      → IsOpen c db w
      → t.phase w.server ≡ idle
      → n < 2147483648
      → t.is_plain migration ≡ true
      → is_command_ok (begun pg c t w.server).0.status ≡ true
      → is_command_ok (migrated pg c t migration w.server).0.status ≡ true
      → sets_version pg c t n migration w.server ≡ false
      → (s : pg.Server) × (apply_migration pg db n migration w ≡ some (0, record w { server = s }))
        × (t.committed s ≡ t.committed w.server)
  apply_migration_undone db w n migration o h small plain e1 e2 e3 =
      let (p1, k1) = t.begin_done w.server h in
      let (v, p2, k2) =
        t.statement_done (begun pg c t w.server).1 (t.committed w.server) migration (ground arith)
          plain in
      let (p3, k3) = t.set_version_done (migrated pg c t migration w.server).1 v n (ground arith) in
      let (p4, k4, e4) = t.end_aborted (versioned pg c t n migration w.server).1 (ground arith) in
      (
        (ended pg c t n migration w.server).1,
        apply_migration-ran pg c t db w n migration o small ∙ ground arith,
        ground arith,
      )

  -- A condition on each of the migrations, with the number of those before it.
  abbrev pub AllFrom : (ℕ → Bytes → Type 0) → ℕ → List Bytes → Type 0
  AllFrom P v [] = Unit
  AllFrom P v (m ∷ migrations) = P v m × AllFrom P (suc v) migrations

  -- Behind `v` versions, the update of the version goes well where BEGIN and the migration did.
  abbrev pub WritesVersion : ℕ → Bytes → Type 0
  WritesVersion v migration =
      (s : pg.Server)
      → t.phase s ≡ idle
      → t.committed s ≡ v
      → is_command_ok (begun pg c t s).0.status ≡ true
      → is_command_ok (migrated pg c t migration s).0.status ≡ true
      → sets_version pg c t (suc v) migration s ≡ true

  abbrev Applied : ℕ → Bytes → pg.Server → Type 0
  Applied n migration s =
      let (code, s') = ran pg c t n migration s in
      ((code ≡ 0) × (t.committed s' ≡ n) × (t.phase s' ≡ idle))
      ⊎ ((code ≡ 1) × (t.committed s' ≡ t.committed s))

  ran-Applied :
      (v : ℕ) (migration : Bytes) (s : pg.Server)
      → WritesVersion v migration
      → t.phase s ≡ idle
      → t.committed s ≡ v
      → t.is_plain migration ≡ true
      → Applied (suc v) migration s
  ran-Applied k migration s sets h at_k plain =
      let n = suc k in
      let (left, back) = ran-Left pg c t n migration s h plain in
      let (p1, k1) = t.begin_done s h in
      elim (Bool-cases (is_command_ok (begun pg c t s).0.status)) [
        | inr e1 ↦ inr (ground arith, ground arith)
        | inl e1 ↦
            let (v, p2, k2) =
              t.statement_done (begun pg c t s).1 (t.committed s) migration (ground arith) plain in
            elim (Bool-cases (is_command_ok (migrated pg c t migration s).0.status)) [
              | inr e2 ↦ inr (ground arith, ground arith)
              | inl e2 ↦
                  let e3 = sets s h at_k e1 e2 in
                  elim (Bool-cases (is_command_ok (ended pg c t n migration s).0.status)) [
                    | inl e4 ↦ inl (ground arith, ground arith, back (ground arith))
                    | inr e4 ↦ inr (ground arith, ground arith)
                  ]
            ]
      ]

  abbrev pub Progress : ℕ → ℕ → ℕ → ℕ → Type 0
  Progress code v len committed =
      ((code ≡ 0) × (committed ≡ v + len)) ⊎ ((code ≡ 1) × (v ≤ committed) × (committed < v + len))

  -- Where the update of the version goes well behind a migration that did, the loop over versions
  -- below 2 ^ 31 - 1, of plain migrations on an idle connection, commits every migration when it
  -- returns 0, and a proper part of them, in order, when it returns 1.
  pub apply_all-committed :
      (db : Db) (migrations : List Bytes) (w : World pg.Server) (v : ℕ)
      → AllFrom WritesVersion v migrations
      → IsOpen c db w
      → t.phase w.server ≡ idle
      → t.committed w.server ≡ v
      → v + length migrations < int_max
      → All (λ m. t.is_plain m ≡ true) migrations
      → (code : ℕ) × (s : pg.Server) × (apply_all pg db (suc v) migrations w
          ≡ some (code, record w { server = s }))
        × Progress code v (length migrations) (t.committed s)
  unfolding apply_all
  apply_all-committed db [] w v sets o h k small plain =
      (0, w.server, refl, inl (refl, omega arith))
  apply_all-committed db (m ∷ migrations) w v sets o h k small plain =
      let s' = (ran pg c t (suc v) m w.server).1 in
      let e = apply_migration-ran pg c t db w (suc v) m o (omega arith) in
      elim (ran-Applied v m w.server sets.0 h k plain.0) [
        | inl (done, now, back) ↦
            let (code, s, later, progress) =
              apply_all-committed db migrations (record w { server = s' }) (suc v) sets.1
                (record { conn_is = o.conn_is; is_open = o.is_open }) back now (omega arith)
                plain.1 in
            (code, s, rw (e, done, lt→ltb (suc v) int_max (omega arith)) later, omega arith)
        | inr (done, now) ↦ (1, s', ground (arith, e, done), inr (refl, omega arith, omega arith))
      ]

  -- Behind `v` versions, a migration goes well with all four statements, and leaves what the next
  -- one needs.
  abbrev pub Builds : (ℕ → pg.Server → Type 0) → ℕ → Bytes → Type 0
  Builds IsReady v migration =
      (s : pg.Server)
      → t.phase s ≡ idle
      → t.committed s ≡ v
      → IsReady v s
      → (went_well pg c t (suc v) migration s ≡ true)
        × (sets_version pg c t (suc v) migration s ≡ true)
        × IsReady (suc v) (ran pg c t (suc v) migration s).1

  ran_done :
      (IsReady : ℕ → pg.Server → Type 0) (v : ℕ) (migration : Bytes) (s : pg.Server)
      → Builds IsReady v migration
      → t.phase s ≡ idle
      → t.committed s ≡ v
      → IsReady v s
      → t.is_plain migration ≡ true
      → let (code, s') = ran pg c t (suc v) migration s in
        (code ≡ 0) × (t.committed s' ≡ suc v) × (t.phase s' ≡ idle) × IsReady (suc v) s'
  ran_done IsReady v migration s builds h k ready plain =
      let (well, sets, next) = builds s h k ready in
      let code : (ran pg c t (suc v) migration s).0 ≡ 0 =
        ran-went_well pg c t (suc v) migration s ∙ rw well refl in
      let (left, back) = ran-Left pg c t (suc v) migration s h plain in
      (code, left ∙ rw (code, sets) refl, back code, next)

  -- From a state that is ready for the first of them, where every migration is plain and, from a
  -- state that is ready for it, goes well and leaves one that is ready for the next: the loop over
  -- versions below 2 ^ 31 - 1 returns 0 with all of them committed.
  pub apply_all_complete :
      (IsReady : ℕ → pg.Server → Type 0) (db : Db) (migrations : List Bytes) (w : World pg.Server)
      (v : ℕ)
      → AllFrom (Builds IsReady) v migrations
      → IsOpen c db w
      → t.phase w.server ≡ idle
      → t.committed w.server ≡ v
      → IsReady v w.server
      → v + length migrations < int_max
      → All (λ m. t.is_plain m ≡ true) migrations
      → (s : pg.Server) × (apply_all pg db (suc v) migrations w ≡ some (0, record w { server = s }))
        × (t.committed s ≡ v + length migrations)
        × IsReady (v + length migrations) s
  unfolding apply_all
  apply_all_complete IsReady db [] w v builds o h k ready small plain =
      (w.server, refl, omega arith, subst (λ n. IsReady n w.server) (omega arith) ready)
  apply_all_complete IsReady db (m ∷ migrations) w v builds o h k ready small plain =
      let s' = (ran pg c t (suc v) m w.server).1 in
      let e = apply_migration-ran pg c t db w (suc v) m o (omega arith) in
      let (done, now, back, next) = ran_done IsReady v m w.server builds.0 h k ready plain.0 in
      let (s, later, all, end) =
        apply_all_complete IsReady db migrations (record w { server = s' }) (suc v) builds.1
          (record { conn_is = o.conn_is; is_open = o.is_open }) back now next (omega arith)
          plain.1 in
      (
        s,
        rw (e, done, lt→ltb (suc v) int_max (omega arith)) later,
        omega arith,
        subst (λ n. IsReady n s) (omega arith) end,
      )
