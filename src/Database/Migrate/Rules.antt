-- ===== src/Database/Migrate/Rules.antt =====
-- PostgreSQL's rules for the transactions of src/database/migrate.c, and the four statements of a
-- migration under them.
use reachard.Prelude.{
  ℕ, ◌<◌, Bool, true, [], ◌∷◌, some, ◌≡◌, inl, inr, ◌∙◌, arith, pos, if◌then◌else◌, Bool-cases,
  ◌==◌, ◌&&◌,
}
use reachard.Text.{Bytes, codes, print_int}
use reachard.Text.Decimal.{snprintf_int-print_int}
use reachard.System.{Postgres, PgResult, World, is_command_ok}
use reachard.Database.{Db}
use reachard.Database.Refines.Rows.{IsOpen}
use reachard.Database.Migrate.{set_version_query, apply_migration}

-- A connection outside a transaction, in one whose version table holds a value, or in one that has
-- failed.
pub data Phase : Type 0 where
  idle : Phase
  inside : ℕ → Phase
  aborted : Phase

-- The rules on the connection of the migrations. `committed` is the value of the version table.
pub record IsTransactional (pg : Postgres) (c : ℕ) : Type 0 where
  pub phase : pg.Server → Phase
  pub committed : pg.Server → ℕ
  -- a text with no transaction control in it
  pub is_plain : Bytes → Bool
  pub begin_done :
      (s : pg.Server)
      → phase s ≡ idle
      → let r = pg.exec c (codes "BEGIN") s in
        (phase r.1 ≡ (if is_command_ok r.0.status then inside (committed s) else idle))
        × (committed r.1 ≡ committed s)
  -- a statement in a transaction fails or leaves some version in the table
  pub statement_done :
      (s : pg.Server) (v : ℕ) (migration : Bytes)
      → phase s ≡ inside v
      → is_plain migration ≡ true
      → let r = pg.exec c migration s in
        (v' : ℕ) × (phase r.1 ≡ (if is_command_ok r.0.status then inside v' else aborted))
        × (committed r.1 ≡ committed s)
  pub set_version_done :
      (s : pg.Server) (v n : ℕ)
      → phase s ≡ inside v
      → let r = pg.exec_params c set_version_query (some (print_int (pos n)) ∷ []) s in
        (phase r.1 ≡ (if is_command_ok r.0.status then inside n else aborted))
        × (committed r.1 ≡ committed s)
  pub end_inside :
      (s : pg.Server) (v : ℕ)
      → phase s ≡ inside v
      → let r = pg.exec c (codes "END") s in
        (phase r.1 ≡ idle) × (committed r.1 ≡ (if is_command_ok r.0.status then v else committed s))
  -- the end of a failed transaction is a rollback, and no error
  pub end_aborted :
      (s : pg.Server)
      → phase s ≡ aborted
      → let r = pg.exec c (codes "END") s in
        (phase r.1 ≡ idle) × (committed r.1 ≡ committed s) × (is_command_ok r.0.status ≡ true)

module _ (pg : Postgres) (c : ℕ) (t : IsTransactional pg c) where
  -- The states behind the four statements.
  abbrev pub begun : pg.Server → PgResult × pg.Server
  begun s = pg.exec c (codes "BEGIN") s

  abbrev pub migrated : Bytes → pg.Server → PgResult × pg.Server
  migrated migration s = pg.exec c migration (begun s).1

  abbrev pub versioned : ℕ → Bytes → pg.Server → PgResult × pg.Server
  versioned n migration s =
      pg.exec_params c set_version_query (some (print_int (pos n)) ∷ []) (migrated migration s).1

  abbrev pub ended : ℕ → Bytes → pg.Server → PgResult × pg.Server
  ended n migration s = pg.exec c (codes "END") (versioned n migration s).1

  -- The result of `apply_migration` and the server's state behind it.
  abbrev pub ran : ℕ → Bytes → pg.Server → ℕ × pg.Server
  ran n migration s =
      if is_command_ok (begun s).0.status
      then (if is_command_ok (migrated migration s).0.status
          then (
            (if is_command_ok (ended n migration s).0.status then 0 else 1),
            (ended n migration s).1,
          )
          else (1, (migrated migration s).1))
      else (1, (begun s).1)

  pub apply_migration-ran :
      (db : Db) (w : World pg.Server) (n : ℕ) (migration : Bytes)
      → IsOpen c db w
      → n < 2147483648
      → apply_migration pg db n migration w
        ≡ some ((ran n migration w.server).0, record w { server = (ran n migration w.server).1 })
  unfolding apply_migration
  apply_migration-ran db w n migration o h =
      rw (o.conn_is, snprintf_int-print_int (pos n) h) (ground (arith, o.is_open))

  -- Whether the statements that the code asks about went well.
  abbrev pub went_well : ℕ → Bytes → pg.Server → Bool
  went_well n migration s =
      is_command_ok (begun s).0.status
      && is_command_ok (migrated migration s).0.status
      && is_command_ok (ended n migration s).0.status

  pub ran-went_well :
      (n : ℕ) (migration : Bytes) (s : pg.Server)
      → (ran n migration s).0 ≡ (if went_well n migration s then 0 else 1)
  ran-went_well n migration s = ground arith

  pub ran-is_zero :
      (n : ℕ) (migration : Bytes) (s : pg.Server)
      → ((ran n migration s).0 == 0) ≡ went_well n migration s
  ran-is_zero n migration s = ground arith

  -- Whether the version was written, which the code does not ask.
  abbrev pub sets_version : ℕ → Bytes → pg.Server → Bool
  sets_version n migration s = is_command_ok (versioned n migration s).0.status

  -- After a run from an idle connection: the committed version, and the phase where the result is 0.
  abbrev pub Left : ℕ → Bytes → pg.Server → Type 0
  Left n migration s =
      let (code, s') = ran n migration s in
      (t.committed s' ≡ (if code == 0 && sets_version n migration s then n else t.committed s))
      × (code ≡ 0 → t.phase s' ≡ idle)

  ran_versioned :
      (n v : ℕ) (migration : Bytes) (s : pg.Server)
      → is_command_ok (begun s).0.status ≡ true
      → is_command_ok (migrated migration s).0.status ≡ true
      → t.phase (migrated migration s).1 ≡ inside v
      → t.committed (migrated migration s).1 ≡ t.committed s
      → Left n migration s
  ran_versioned n v migration s e1 e2 p k =
      let (p3, k3) = t.set_version_done (migrated migration s).1 v n p in
      elim (Bool-cases (sets_version n migration s)) [
        | inl e3 ↦
            let (p4, k4) = t.end_inside (versioned n migration s).1 n (ground arith) in
            (ground arith, ground arith)
        | inr e3 ↦
            let (p4, k4, e4) = t.end_aborted (versioned n migration s).1 (ground arith) in
            (ground arith, ground arith)
      ]

  pub ran-Left :
      (n : ℕ) (migration : Bytes) (s : pg.Server)
      → t.phase s ≡ idle
      → t.is_plain migration ≡ true
      → Left n migration s
  ran-Left n migration s h plain =
      let (p1, k1) = t.begin_done s h in
      elim (Bool-cases (is_command_ok (begun s).0.status)) [
        | inr e1 ↦ (ground arith, ground arith)
        | inl e1 ↦
            let (v, p2, k2) =
              t.statement_done (begun s).1 (t.committed s) migration (ground arith) plain in
            elim (Bool-cases (is_command_ok (migrated migration s).0.status)) [
              | inr e2 ↦ (ground arith, ground arith)
              | inl e2 ↦ ran_versioned n v migration s e1 e2 (ground arith) (k2 ∙ k1)
            ]
      ]
