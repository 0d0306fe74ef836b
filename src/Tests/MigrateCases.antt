-- ===== src/Tests/MigrateCases.antt =====
-- The migrations on a server that keeps a version and the phase of one connection. It refuses the
-- versions that its limit does not allow.
use mathlib.Core.List.{append-nil}
use reachard.Prelude.{
  ℕ, zero, suc, Bool, true, false, List, [], ◌∷◌, some, ◌≡◌, refl, arith, pos, if◌then◌else◌, ap,
  sym, ◌∙◌, not, ◌||◌,
}
use reachard.Text.{Bytes, CString, codes, same, digits_value, decimal, print_int}
use reachard.Text.Decimal.{digits_value-decimal}
use reachard.System.{
  Postgres, PgResult, World, command_ok, tuples_ok, failed, is_command_ok, is_tuples_ok,
}
use reachard.Database.{Db}
use reachard.Database.Refines.Rows.{IsOpen}
use reachard.Database.Migrate.{apply_migration, migrate, exists_query, version_query}
use reachard.Database.Migrate.Rules.{
  went_well, sets_version, migrated, ran, Phase, idle, inside, aborted, IsTransactional,
}
use reachard.Database.Migrate.Runs.{
  WritesVersion, Builds, apply_migration-committed, apply_migration_undone,
}
use reachard.Database.Migrate.Whole.{HasVersion, Migrated, migrate-Migrated, migrate_complete}

pub record Versions : Type 0 where
  pub at : Phase
  pub stored : ℕ

abbrev done : Versions → PgResult × Versions
done s = (record { status = command_ok; rows = [] }, s)

abbrev refuse : Versions → PgResult × Versions
refuse s = (record { status = failed; rows = [] }, s)

-- The statement that moves a connection from a phase.
abbrev run_begin : Phase → Versions → PgResult × Versions
run_begin idle s = done (record s { at = inside s.stored })
run_begin (inside v) s = done s
run_begin aborted s = refuse s

abbrev run_end : Phase → Versions → PgResult × Versions
run_end idle s = done s
run_end (inside v) s = done (record s { at = idle; stored = v })
run_end aborted s = done (record s { at = idle })

-- The two queries for the version, outside a transaction. The version 0 has no table.
abbrev answer : Bytes → Versions → PgResult × Versions
answer text s = (record { status = tuples_ok; rows = (text ∷ []) ∷ [] }, s)

abbrev answer_exists : ℕ → Versions → PgResult × Versions
answer_exists zero s = (record { status = tuples_ok; rows = [] }, s)
answer_exists (suc _) s = answer (codes "1") s

abbrev answer_version : ℕ → Versions → PgResult × Versions
answer_version zero s = refuse s
answer_version (suc n) s = answer (print_int (pos (suc n))) s

abbrev run_query : Bytes → Versions → PgResult × Versions
run_query text s =
    if same text exists_query
    then answer_exists s.stored s
    else if same text version_query
    then answer_version s.stored s
    else refuse s

-- In a transaction, any other statement fails if its text is empty, and else makes the table where
-- there is none.
abbrev opened : ℕ → ℕ
opened zero = 1
opened (suc v) = suc v

abbrev run_other : Bytes → Phase → Versions → PgResult × Versions
run_other [] (inside v) s = refuse (record s { at = aborted })
run_other (_ ∷ _) (inside v) s = done (record s { at = inside (opened v) })
run_other text idle s = run_query text s
run_other text aborted s = refuse s

abbrev run_write : Bool → List CString → Phase → Versions → PgResult × Versions
run_write true (some text ∷ []) (inside (suc v)) s =
    done (record s { at = inside (digits_value 0 text) })
run_write _ _ _ s = refuse (record s { at = aborted })

abbrev run_text : Bytes → Phase → Versions → PgResult × Versions
run_text text p s =
    if same text (codes "BEGIN")
    then run_begin p s
    else if same text (codes "END")
    then run_end p s
    else run_other text p s

-- Whether the version can be written is a property of the server.
abbrev version_server : Bool → Postgres
version_server writable = record {
  Server = Versions;
  connects = λ connstring s. true;
  exec = λ conn text s. run_text text s.at s;
  exec_params = λ conn text vs s. run_write writable vs s.at s;
}

digits_value-print_int : (n : ℕ) → digits_value 0 (print_int (pos n)) ≡ n
unfolding print_int
digits_value-print_int n =
    ap (digits_value 0) (sym (append-nil (decimal n))) ∙ digits_value-decimal n [] tt

begin_done_at :
    (p : Phase) (s : Versions)
    → p ≡ idle
    → ((run_text (codes "BEGIN") p s).1.at
        ≡ (if is_command_ok (run_text (codes "BEGIN") p s).0.status then inside s.stored else idle))
      × ((run_text (codes "BEGIN") p s).1.stored ≡ s.stored)
begin_done_at idle s h = (refl, refl)
begin_done_at (inside v) s h = cc
begin_done_at aborted s h = cc

abbrev not_control : Bytes → Bool
not_control text = not (same text (codes "BEGIN") || same text (codes "END"))

statement_done_at :
    (text : Bytes) (p : Phase) (v : ℕ) (s : Versions)
    → p ≡ inside v
    → not_control text ≡ true
    → ((run_text text p s).1.at
        ≡ (if is_command_ok (run_text text p s).0.status then inside (opened v) else aborted))
      × ((run_text text p s).1.stored ≡ s.stored)
statement_done_at text idle v s h plain = cc
statement_done_at text aborted v s h plain = cc
statement_done_at [] (inside u) v s h plain = (refl, refl)
statement_done_at (x ∷ text) (inside u) v s h plain = (ground arith, ground arith)

set_version_done_at :
    (writable : Bool) (p : Phase) (v n : ℕ) (s : Versions)
    → p ≡ inside v
    → let r = run_write writable (some (print_int (pos n)) ∷ []) p s in
      (r.1.at ≡ (if is_command_ok r.0.status then inside n else aborted)) × (r.1.stored ≡ s.stored)
set_version_done_at false p v n s h = (refl, refl)
set_version_done_at true idle v n s h = cc
set_version_done_at true aborted v n s h = cc
set_version_done_at true (inside zero) v n s h = (refl, refl)
set_version_done_at true (inside (suc u)) v n s h = (ap inside (digits_value-print_int n), refl)

end_inside_at :
    (p : Phase) (v : ℕ) (s : Versions)
    → p ≡ inside v
    → let r = run_end p s in
      (r.1.at ≡ idle) × (r.1.stored ≡ (if is_command_ok r.0.status then v else s.stored))
end_inside_at idle v s h = cc
end_inside_at (inside u) v s h = (refl, ground arith)
end_inside_at aborted v s h = cc

end_aborted_at :
    (p : Phase) (s : Versions)
    → p ≡ aborted
    → let r = run_end p s in
      (r.1.at ≡ idle) × (r.1.stored ≡ s.stored) × (is_command_ok r.0.status ≡ true)
end_aborted_at idle s h = cc
end_aborted_at (inside v) s h = cc
end_aborted_at aborted s h = (refl, refl, refl)

abbrev version_laws : (writable : Bool) → IsTransactional (version_server writable) 7
version_laws writable = record {
  phase = λ s. s.at;
  committed = λ s. s.stored;
  is_plain = not_control;
  begin_done = λ s h. begin_done_at s.at s h;
  statement_done = λ s v migration h plain.
      let (p, k) = statement_done_at migration s.at v s h plain in (opened v, p, k);
  set_version_done = λ s v n h. set_version_done_at writable s.at v n s h;
  end_inside = λ s v h. end_inside_at s.at v s h;
  end_aborted = λ s h. end_aborted_at s.at s h;
}

abbrev start : World Versions
start = record {
  server = record { at = idle; stored = 2 };
  next_conn = 8;
  live = 7 ∷ [];
  results = 0;
  blocks = 0;
  jsons = 0;
  memory = [];
  sent = [];
}

abbrev db : Db
db = record { conn = some 7; connstring = [] }

abbrev third : Bytes
third = codes "ALTER TABLE targets ADD url TEXT"

start-IsOpen : IsOpen 7 db start
start-IsOpen = record { conn_is = refl; is_open = refl }

apply_migration-committed_example :
    (s : Versions) × (apply_migration (version_server true) db 3 third start
      ≡ some (0, record start { server = s }))
    × (s.stored ≡ 3)
apply_migration-committed_example =
    apply_migration-committed (version_server true) 7 (version_laws true) db start 3 third
      start-IsOpen refl (omega arith) refl

apply_migration_undone_example :
    (s : Versions) × (apply_migration (version_server false) db 3 third start
      ≡ some (0, record start { server = s }))
    × (s.stored ≡ 2)
apply_migration_undone_example =
    apply_migration_undone (version_server false) 7 (version_laws false) db start 3 third
      start-IsOpen refl (omega arith) refl refl refl refl

-- Outside a transaction the two queries change nothing.
run_text-exists_query :
    (p : Phase) (s : Versions) → p ≡ idle → run_text exists_query p s ≡ answer_exists s.stored s
run_text-exists_query idle s h = refl
run_text-exists_query (inside v) s h = cc
run_text-exists_query aborted s h = cc

run_text-version_query :
    (p : Phase) (s : Versions) → p ≡ idle → run_text version_query p s ≡ answer_version s.stored s
run_text-version_query idle s h = refl
run_text-version_query (inside v) s h = cc
run_text-version_query aborted s h = cc

answer_exists_same : (n : ℕ) (s : Versions) → (answer_exists n s).1 ≡ s
answer_exists_same zero s = refl
answer_exists_same (suc n) s = refl

answer_version_same : (n : ℕ) (s : Versions) → (answer_version n s).1 ≡ s
answer_version_same zero s = refl
answer_version_same (suc n) s = refl

answer_exists_none : (n : ℕ) (s : Versions) → (answer_exists n s).0.rows ≡ [] → n ≡ 0
answer_exists_none zero s e = refl
answer_exists_none (suc n) s e = cc

answer_version_row :
    (n : ℕ) (s : Versions)
    → is_tuples_ok (answer_version n s).0.status ≡ true
    → (answer_version n s).0.rows ≡ (print_int (pos n) ∷ []) ∷ []
answer_version_row zero s e = cc
answer_version_row (suc n) s e = refl

versions-HasVersion : HasVersion (version_server true) 7 (version_laws true)
versions-HasVersion = record {
  exists_done = λ s h. rw (run_text-exists_query s.at s h, answer_exists_same s.stored s) (h, refl);
  no_table = λ s h ok e. answer_exists_none s.stored s (rw (run_text-exists_query s.at s h) at e);
  version_done =
      λ s h. rw (run_text-version_query s.at s h, answer_version_same s.stored s) (h, refl);
  version_row = λ s h ok.
      rw (run_text-version_query s.at s h)
        (answer_version_row s.stored s (rw (run_text-version_query s.at s h) at ok));
}

-- A migration from a version, with or without a table.
third_sets :
    (p : Phase) (n k : ℕ)
    → p ≡ idle
    → sets_version
        (version_server true)
        7
        (version_laws true)
        n
        third
        (record { at = p; stored = k })
      ≡ true
third_sets idle n zero h = refl
third_sets idle n (suc k) h = refl
third_sets (inside v) n k h = cc
third_sets aborted n k h = cc

third-WritesVersion : (v : ℕ) → WritesVersion (version_server true) 7 (version_laws true) v third
third-WritesVersion v s h k e1 e2 = third_sets s.at (suc v) s.stored h

empty_refused :
    (p : Phase) (k : ℕ)
    → p ≡ idle
    → is_command_ok
        (migrated
          (version_server true)
          7
          (version_laws true)
          []
          (record { at = p; stored = k })).0.status
      ≡ false
empty_refused idle k h = refl
empty_refused (inside v) k h = cc
empty_refused aborted k h = cc

empty-WritesVersion : (v : ℕ) → WritesVersion (version_server true) 7 (version_laws true) v []
empty-WritesVersion v s h k e1 e2 = absurd (cc (e2, empty_refused s.at s.stored h))

-- A database without a table.
abbrev fresh : World Versions
fresh = record start { server = record { at = idle; stored = 0 } }

migrate-Migrated_example :
    (code : ℕ) × (s : Versions) × (migrate
        (version_server true)
        db
        (third ∷ third ∷ [] ∷ third ∷ [])
        fresh
      ≡ some (code, record fresh { server = s }))
    × Migrated (version_server true) 7 (version_laws true) versions-HasVersion code 0 4 s.stored
migrate-Migrated_example =
    migrate-Migrated (version_server true) 7 (version_laws true) versions-HasVersion db
      (third ∷ third ∷ [] ∷ third ∷ []) fresh
      (
        third-WritesVersion 0,
        (third-WritesVersion 1, (empty-WritesVersion 2, (third-WritesVersion 3, tt))),
      )
      (record { conn_is = refl; is_open = refl }) refl (omega arith) (omega arith)
      (refl, (refl, (refl, (refl, tt))))

third_well :
    (p : Phase) (n k : ℕ)
    → p ≡ idle
    → went_well (version_server true) 7 (version_laws true) n third (record { at = p; stored = k })
      ≡ true
third_well idle n zero h = refl
third_well idle n (suc k) h = refl
third_well (inside v) n k h = cc
third_well aborted n k h = cc

third-Builds :
    (v : ℕ) → Builds (version_server true) 7 (version_laws true) (λ n s. s.stored ≡ n) v third
third-Builds v s h k ready = (
  third_well s.at (suc v) s.stored h,
  third_sets s.at (suc v) s.stored h,
  third_stored s.at (suc v) s.stored h,
)
  where
    third_stored :
        (p : Phase) (n k : ℕ)
        → p ≡ idle
        → (ran
            (version_server true)
            7
            (version_laws true)
            n
            third
            (record { at = p; stored = k })).1.stored
          ≡ n
    third_stored idle n zero h = digits_value-print_int n
    third_stored idle n (suc k) h = digits_value-print_int n
    third_stored (inside v) n k h = cc
    third_stored aborted n k h = cc

migrate_complete_example :
    (s : Versions) × (migrate (version_server true) db (third ∷ third ∷ []) fresh
      ≡ some (0, record fresh { server = s }))
    × (s.stored ≡ 2)
    × (s.stored ≡ 2)
migrate_complete_example =
    migrate_complete (version_server true) 7 (version_laws true) versions-HasVersion
      (λ n s. s.stored ≡ n) db (third ∷ third ∷ []) fresh (third-Builds 0, (third-Builds 1, tt))
      refl (record { conn_is = refl; is_open = refl }) refl (omega arith) (omega arith)
      (refl, (refl, tt)) refl
