-- ===== src/Tests/GeneratorCases.antt =====
-- The generator of the migrations' header on a directory with two versions and a README.
use reachard.Prelude.{true, false, [], ◌∷◌, ◌++◌, ◌≡◌, ◌↔◌, inl, some, refl, arith, pos, All, List}
use reachard.Text.{Bytes, codes, is_digit, print_int}
use reachard.Generator.{Entry, is_migration_name, main, header}
use reachard.Generator.Header.{
  Holds, empty, version, other, file, arrays, pointers, versions, is_migration_name_iff,
  header-arrays,
}

abbrev readme : Entry
readme = record { is_regular = true; name = codes "README.md" }

abbrev folder : Entry
folder = record { is_regular = false; name = codes "." }

abbrev entry_of : Bytes → Entry
entry_of name = record { is_regular = true; name = name }

-- A directory is read in any order.
abbrev entries : List Entry
entries = folder ∷ entry_of (file 2) ∷ entry_of (file 1) ∷ []

entries-Holds : Holds entries (2 ∷ 1 ∷ [])
entries-Holds = other folder (inl refl) (version 2 (omega arith) (version 1 (omega arith) empty))

is_migration_name_iff_example :
    (is_migration_name (codes "12.sql") ≡ true)
    ↔ ((ds : Bytes) × All (λ c. is_digit c ≡ true) ds × (codes "12.sql" ≡ ds ++ codes ".sql"))
is_migration_name_iff_example = is_migration_name_iff (codes "12.sql")

header-arrays_example :
    header (codes "m") entries
    ≡ some (
        arrays (codes "m") (2 ∷ 1 ∷ [])
        ++ (codes "static const char *migrations[] = {\n"
            ++ (pointers (versions 1 2)
                ++ (codes "};\n\nconst int n_migrations = " ++ (print_int (pos 2) ++ codes ";")))))
header-arrays_example = header-arrays (codes "m") entries-Holds (omega arith)

main_test : main true true false (codes "m" ∷ []) (readme ∷ folder ∷ []) ≡ some (1, some [])
unfolding main
main_test = refl

-- A name without digits is taken, as the version 0.
bare_name : is_migration_name (codes ".sql") ≡ true
unfolding is_migration_name
bare_name = refl
