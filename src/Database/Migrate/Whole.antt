-- ===== src/Database/Migrate/Whole.antt =====
-- `reachard_db_migrate` of src/database/migrate.c as a whole, with the version that it reads first.
use mathlib.Core.Path.{subst}
use reachard.Prelude.{
  ℕ, zero, suc, ◌+◌, ◌≤◌, ◌<◌, Bool, true, false, List, [], ◌∷◌, some, ◌≡◌, ◌⊎◌, inl, inr, refl,
  ◌∙◌, arith, pos, negsuc, if◌then◌else◌, Bool-cases, length, All, ◌&&◌, ◌||◌, not, sym, lt→ltb,
}
use reachard.Text.{Bytes, print_int}
use reachard.System.{Postgres, PgResult, World, is_tuples_ok}
use reachard.Database.{Db}
use reachard.Database.Refines.Rows.{IsOpen, atoi-print}
use reachard.Database.Migrate.{
  int_max, exists_query, version_query, get_schema_version, migrate, skip,
}
use reachard.Database.Migrate.Rules.{idle, IsTransactional}
use reachard.Database.Migrate.Runs.{
  AllFrom, WritesVersion, Builds, apply_all-committed, apply_all_complete,
}

-- What the two queries for the version rely on: outside a transaction they change nothing. Where
-- there is no version table no migration is committed, and the table has one row.
pub record HasVersion (pg : Postgres) (c : ℕ) (t : IsTransactional pg c) : Type 0 where
  pub exists_done :
      (s : pg.Server)
      → t.phase s ≡ idle
      → let r = pg.exec c exists_query s in (t.phase r.1 ≡ idle) × (t.committed r.1 ≡ t.committed s)
  pub no_table :
      (s : pg.Server)
      → t.phase s ≡ idle
      → is_tuples_ok (pg.exec c exists_query s).0.status ≡ true
      → (pg.exec c exists_query s).0.rows ≡ []
      → t.committed s ≡ 0
  pub version_done :
      (s : pg.Server)
      → t.phase s ≡ idle
      → let r = pg.exec c version_query s in
        (t.phase r.1 ≡ idle) × (t.committed r.1 ≡ t.committed s)
  pub version_row :
      (s : pg.Server)
      → t.phase s ≡ idle
      → is_tuples_ok (pg.exec c version_query s).0.status ≡ true
      → (pg.exec c version_query s).0.rows ≡ (print_int (pos (t.committed s)) ∷ []) ∷ []

List-cases :
    {A : Type 0} → (xs : List A) → (xs ≡ []) ⊎ ((x : A) × (rest : List A) × (xs ≡ x ∷ rest))
List-cases [] = inl refl
List-cases (x ∷ rest) = inr (x, rest, refl)

abbrev is_empty : List (List Bytes) → Bool
is_empty [] = true
is_empty (_ ∷ _) = false

module _ (pg : Postgres) where
  length-skip :
      (v : ℕ) (migrations : List Bytes)
      → v ≤ length migrations
      → v + length (skip pg v migrations) ≡ length migrations
  length-skip zero migrations h = omega arith
  length-skip (suc v) [] h = absurd (omega arith)
  length-skip (suc v) (m ∷ migrations) h = omega (arith, length-skip v migrations (omega arith))

  All-skip :
      (P : Bytes → Type 0) (v : ℕ) (migrations : List Bytes)
      → All P migrations
      → All P (skip pg v migrations)
  All-skip P zero migrations h = h
  All-skip P (suc v) [] h = tt
  All-skip P (suc v) (m ∷ migrations) h = All-skip P v migrations h.1

module _ (pg : Postgres) (c : ℕ) (t : IsTransactional pg c) where
  AllFrom-skip :
      (P : ℕ → Bytes → Type 0) (v a : ℕ) (migrations : List Bytes)
      → AllFrom pg c t P a migrations
      → AllFrom pg c t P (v + a) (skip pg v migrations)
  AllFrom-skip P zero a migrations h = subst (λ n. AllFrom pg c t P n migrations) (omega arith) h
  AllFrom-skip P (suc v) a [] h = tt
  AllFrom-skip P (suc v) a (m ∷ migrations) h =
      subst (λ n. AllFrom pg c t P n (skip pg v migrations)) (omega arith)
        (AllFrom-skip P v (suc a) migrations h.1)

  AllFrom-behind :
      (P : ℕ → Bytes → Type 0) (v : ℕ) (migrations : List Bytes)
      → AllFrom pg c t P 0 migrations
      → AllFrom pg c t P v (skip pg v migrations)
  AllFrom-behind P v migrations h =
      subst (λ n. AllFrom pg c t P n (skip pg v migrations)) (omega arith)
        (AllFrom-skip P v 0 migrations h)

module _ (pg : Postgres) (c : ℕ) (t : IsTransactional pg c) (version : HasVersion pg c t) where
  abbrev asked : pg.Server → PgResult × pg.Server
  asked s = pg.exec c exists_query s

  abbrev read : pg.Server → PgResult × pg.Server
  read s = pg.exec c version_query (asked s).1

  -- Whether the queries for the version go well: the second one is asked where there is a table.
  abbrev pub reads : pg.Server → Bool
  reads s =
      is_tuples_ok (asked s).0.status
      && (is_empty (asked s).0.rows || is_tuples_ok (read s).0.status)

  -- The server's state behind the queries for the version.
  abbrev pub read_at : pg.Server → pg.Server
  read_at s =
      if is_tuples_ok (asked s).0.status && not (is_empty (asked s).0.rows)
      then (read s).1
      else (asked s).1

  -- The version that is read, or -1 where a query fails.
  abbrev HasRead : Db → World pg.Server → Type 0
  HasRead db w =
      (s : pg.Server) × (get_schema_version pg db w
        ≡ some (
          (if reads w.server then pos (t.committed w.server) else negsuc 0),
          record w { server = s },
        ))
      × (t.phase s ≡ idle)
      × (t.committed s ≡ t.committed w.server)
      × (s ≡ read_at w.server)

  get_schema_version-HasRead :
      (db : Db) (w : World pg.Server)
      → IsOpen c db w
      → t.phase w.server ≡ idle
      → t.committed w.server < 2147483648
      → HasRead db w
  unfolding get_schema_version
  get_schema_version-HasRead db w o h small =
      let s = w.server in
      let (p1, k1) = version.exists_done s h in
      let (p2, k2) = version.version_done (asked s).1 p1 in
      elim (Bool-cases (is_tuples_ok (asked s).0.status)) [
        | inr e1 ↦ ((asked s).1, rw o.conn_is (ground (arith, o.is_open, e1)), p1, k1, rw e1 refl)
        | inl e1 ↦ elim (List-cases (asked s).0.rows) [
          | inl r1 ↦ (
            (asked s).1,
            rw (o.conn_is, version.no_table s h e1 r1) (ground (arith, o.is_open, e1, r1)),
            p1,
            k1,
            rw (e1, r1) refl,
          )
          | inr (x, rest, r1) ↦ elim (Bool-cases (is_tuples_ok (read s).0.status)) [
            | inr e2 ↦ (
              (read s).1,
              rw o.conn_is (ground (arith, o.is_open, e1, r1, e2)),
              p2,
              k2 ∙ k1,
              rw (e1, r1) refl,
            )
            | inl e2 ↦ (
              (read s).1,
              rw o.conn_is (
                  ground (
                    arith,
                    o.is_open,
                    e1,
                    r1,
                    e2,
                    k1,
                    version.version_row (asked s).1 p1 e2,
                    atoi-print (pos (t.committed s)) small,
                  )),
              p2,
              k2 ∙ k1,
              rw (e1, r1) refl,
            )
          ]
        ]
      ]

  -- What a run leaves: all versions committed, or at least those that were before.
  abbrev pub Migrated : ℕ → ℕ → ℕ → ℕ → Type 0
  Migrated code before all after =
      ((code ≡ 0) × (after ≡ all)) ⊎ ((code ≡ 1) × (before ≤ after) × (after ≤ all))

  -- Where the update of the version goes well behind a migration that did, the run on an idle
  -- connection ends, for plain migrations, fewer than 2 ^ 31 - 1 and no fewer than are committed:
  -- if it returns 0, all of them are committed, and if it returns 1, no fewer than before and no
  -- more than there are.
  pub migrate-Migrated :
      (db : Db) (migrations : List Bytes) (w : World pg.Server)
      → AllFrom pg c t (WritesVersion pg c t) 0 migrations
      → IsOpen c db w
      → t.phase w.server ≡ idle
      → t.committed w.server ≤ length migrations
      → length migrations < int_max
      → All (λ m. t.is_plain m ≡ true) migrations
      → (code : ℕ) × (s : pg.Server) × (migrate pg db migrations w
          ≡ some (code, record w { server = s }))
        × Migrated code (t.committed w.server) (length migrations) (t.committed s)
  unfolding migrate
  migrate-Migrated db migrations w sets o h le small plain =
      let v = t.committed w.server in
      let (s1, e1, p1, k1, same) = get_schema_version-HasRead db w o h (omega arith) in
      let len = length-skip pg v migrations le in
      elim (Bool-cases (reads w.server)) [
        | inr r ↦ (1, s1, rw (e1, r) refl, inr (refl, omega arith, omega arith))
        | inl r ↦
            let (code, s2, e2, done) =
              apply_all-committed pg c t db (skip pg v migrations) (record w { server = s1 }) v
                (AllFrom-behind pg c t (WritesVersion pg c t) v migrations sets)
                (record { conn_is = o.conn_is; is_open = o.is_open }) p1 k1 (omega arith)
                (All-skip pg (λ m. t.is_plain m ≡ true) v migrations plain) in
            (code, s2, rw (e1, r, lt→ltb v int_max (omega arith)) e2, omega (arith, done, len))
      ]

  -- From a state that is ready for the migration behind those that are committed, where every
  -- migration is plain and, from a state that is ready for it, goes well and leaves one that is
  -- ready for the next, and where the queries for the version go well and leave a state as ready as
  -- it was: the run over fewer than 2 ^ 31 - 1 migrations, no fewer than are committed, returns 0
  -- with all of them committed.
  pub migrate_complete :
      (IsReady : ℕ → pg.Server → Type 0) (db : Db) (migrations : List Bytes) (w : World pg.Server)
      → AllFrom pg c t (Builds pg c t IsReady) 0 migrations
      → IsReady (t.committed w.server) (read_at w.server)
      → IsOpen c db w
      → t.phase w.server ≡ idle
      → t.committed w.server ≤ length migrations
      → length migrations < int_max
      → All (λ m. t.is_plain m ≡ true) migrations
      → reads w.server ≡ true
      → (s : pg.Server) × (migrate pg db migrations w ≡ some (0, record w { server = s }))
        × (t.committed s ≡ length migrations)
        × IsReady (length migrations) s
  unfolding migrate
  migrate_complete IsReady db migrations w builds ready o h le small plain r =
      let v = t.committed w.server in
      let (s1, e1, p1, k1, same) = get_schema_version-HasRead db w o h (omega arith) in
      let len = length-skip pg v migrations le in
      let (s2, e2, done, end) =
        apply_all_complete pg c t IsReady db (skip pg v migrations) (record w { server = s1 }) v
          (AllFrom-behind pg c t (Builds pg c t IsReady) v migrations builds)
          (record { conn_is = o.conn_is; is_open = o.is_open }) p1 k1
          (subst (IsReady v) (sym same) ready) (omega (arith, len))
          (All-skip pg (λ m. t.is_plain m ≡ true) v migrations plain) in
      (
        s2,
        rw (e1, r, lt→ltb v int_max (omega arith)) e2,
        done ∙ len,
        subst (λ n. IsReady n s2) len end,
      )
