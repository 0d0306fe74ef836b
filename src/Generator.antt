-- ===== src/Generator.antt =====
-- generators/migrations.c: the build tool that writes src/database/migrations.h from the files of the
-- directory of migrations. What it prints is a text; the directory is the list of its entries.
pub mod Header
use reachard.Prelude.{
  ℕ, zero, suc, ◌+◌, Bool, true, false, ◌&&◌, List, [], ◌∷◌, ◌++◌, Option, none, some, ℤ, pos, ◌==◌,
  if◌then◌else◌, ltb,
}
use reachard.Text.{Bytes, codes, is_digit, same, atoi, print_int}

-- `struct dirent`: whether it is a regular file (`DT_REG`), and its name.
pub record Entry : Type 0 where
  pub is_regular : Bool
  pub name : Bytes

-- The text behind the digits at the front.
unfoldable pub skip_digits : Bytes → Bytes
skip_digits [] = []
skip_digits (c ∷ cs) = let rest = skip_digits cs in if is_digit c then rest else c ∷ cs

-- `regexec` with the pattern `^([0-9]*)\.sql$`.
unfoldable pub is_migration_name : Bytes → Bool
unfolding skip_digits
is_migration_name name = same (skip_digits name) (codes ".sql")

-- The entries that the loop does not skip.
unfoldable pub is_migration : Entry → Bool
unfolding is_migration_name
is_migration entry = entry.is_regular && is_migration_name entry.name

-- `const int number = strtol(name, 0, 10)`, which is `atoi`.
unfoldable pub number_of : Entry → ℤ
unfolding atoi
number_of entry = atoi entry.name

-- The definition of one array, by `migration_pattern`.
unfoldable pub definition : Bytes → ℤ → Bytes → Bytes
definition dir number name =
    codes "static const char migration_"
    ++ (print_int number
        ++ (codes "[] = {\n#embed \""
            ++ (dir ++ (codes "/" ++ (name ++ codes "\" suffix(, 0)\n};\n\n")))))

-- `INT_MAX`
abbrev pub int_max : ℕ
int_max = 2147483647

abbrev pub put_before : Bytes → Option (Bytes × ℕ) → Option (Bytes × ℕ)
put_before text none = none
put_before text (some (rest, n)) = some (text ++ rest, n)

-- The loop over the entries: the text, and `n_migrations`, an `int`, whose increment overflows at
-- the largest one.
unfoldable pub define_all : Bytes → ℕ → List Entry → Option (Bytes × ℕ)
define_all dir n [] = some ([], n)
define_all dir n (entry ∷ entries) =
    let skipped = define_all dir n entries in
    let counted =
      put_before (definition dir (number_of entry) entry.name) (define_all dir (suc n) entries) in
    if is_migration entry then (if ltb n int_max then counted else none) else skipped

-- One element of the array of pointers.
unfoldable pub element : ℕ → Bytes
element i =
    codes "    ["
    ++ (print_int (pos i) ++ (codes "] = migration_" ++ (print_int (pos i) ++ codes ",\n")))

-- The loop over `i` from 1 to `n_migrations`, with the rounds left. `i++` overflows at the largest
-- `int`.
unfoldable pub elements : ℕ → ℕ → Option Bytes
unfolding element
elements zero i = some []
elements (suc n) i =
    let rest = elements n (suc i) in
    if ltb i int_max then elim rest [ none ↦ none | some text ↦ some (element i ++ text) ] else none

with_elements : Bytes → ℕ → Option Bytes → Option Bytes
with_elements text n none = none
with_elements text n (some pointers) = some (
    text
    ++ (codes "static const char *migrations[] = {\n"
        ++ (pointers
            ++ (codes "};\n\nconst int n_migrations = " ++ (print_int (pos n) ++ codes ";")))))

with_definitions : Option (Bytes × ℕ) → Option Bytes
unfolding elements with_elements
with_definitions none = none
with_definitions (some (text, n)) = with_elements text n (elements n 1)

-- The file; `none` where a count overflows.
unfoldable pub header : Bytes → List Entry → Option Bytes
unfolding define_all with_definitions
header dir entries = with_definitions (define_all dir 0 entries)

-- How the run of the tool ends: the exit code and the file, if it was opened. `opens` and `creates`
-- say whether the directory and the header can be opened, `compiles` whether the pattern compiles;
-- `none` where a count overflows.
unfoldable pub main : Bool → Bool → Bool → List Bytes → List Entry → Option (ℕ × Option Bytes)
unfolding header
main opens creates compiles [] entries = some (1, none)
main opens creates compiles (dir ∷ _) entries =
    if opens
    then (if creates
        then (if compiles
            then elim (header dir entries) [ none ↦ none | some text ↦ some (0, some text) ]
            else some (1, some []))
        else some (1, none))
    else some (1, none)
