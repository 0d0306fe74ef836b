-- ===== src/Generator/Header.antt =====
-- Which files the generator takes for migrations, and the header that it writes for them.
use mathlib.Core.Logic.{◌≢◌}
use mathlib.Core.List.{append_assoc}
use reachard.Prelude.{
  ℕ, zero, suc, ◌<◌, ◌≤◌, ◌+◌, some, lt→ltb, Bool, true, false, ◌&&◌, List, [], ◌∷◌, ◌++◌, ◌≡◌, ◌↔◌,
  ◌⊎◌, inl, inr, refl, ap, ◌∙◌, pos, arith, All, length, Bool-cases,
}
use reachard.Text.{Bytes, codes, is_digit, same, decimal, print_int}
use reachard.Text.Decimal.{decimal-digits, atoi-print_int}
use reachard.Generator.{
  int_max, Entry, skip_digits, is_migration_name, is_migration, number_of, definition, define_all,
  element, elements, header,
}

same_iff : (a b : Bytes) → (same a b ≡ true) ↔ (a ≡ b)
same_iff (x ∷ a) (y ∷ b) = ground (arith, same_iff a b)
same_iff _ _ = ground arith

skip_digits_sound :
    (s : Bytes) → (ds : Bytes) × All (λ c. is_digit c ≡ true) ds × (s ≡ ds ++ skip_digits s)
unfolding skip_digits
skip_digits_sound [] = ([], tt, refl)
skip_digits_sound (c ∷ s) = elim (Bool-cases (is_digit c)) [
  | inl d ↦ let (ds, h, e) = skip_digits_sound s in (c ∷ ds, (d, h), rw d (ap (◌∷◌ c) e))
  | inr d ↦ ([], tt, rw d refl)
]

skip_digits-sql :
    (ds : Bytes) → All (λ c. is_digit c ≡ true) ds → skip_digits (ds ++ codes ".sql") ≡ codes ".sql"
unfolding skip_digits
skip_digits-sql [] h = refl
skip_digits-sql (c ∷ ds) h = rw h.0 (skip_digits-sql ds h.1)

-- A name is taken for a migration exactly if it is decimal digits, or none, with `.sql` behind
-- them.
pub is_migration_name_iff :
    (name : Bytes)
    → (is_migration_name name ≡ true)
      ↔ ((ds : Bytes) × All (λ c. is_digit c ≡ true) ds × (name ≡ ds ++ codes ".sql"))
unfolding is_migration_name
is_migration_name_iff name = (
  λ h.
      let (ds, d, e) = skip_digits_sound name in
      (ds, d, e ∙ ap (λ rest. ds ++ rest) ((same_iff (skip_digits name) (codes ".sql")).0 h)),
  λ (ds, d, e). rw (e, skip_digits-sql ds d) refl,
)

-- The file of a version.
abbrev pub file : ℕ → Bytes
file k = print_int (pos k) ++ codes ".sql"

file-is_migration_name : (k : ℕ) → is_migration_name (file k) ≡ true
unfolding print_int
file-is_migration_name k = (is_migration_name_iff (file k)).1 (decimal k, decimal-digits k, refl)

file-is_migration : (k : ℕ) → is_migration (record { is_regular = true; name = file k }) ≡ true
unfolding is_migration
file-is_migration k = file-is_migration_name k

number_of-file :
    (k : ℕ) → k < 2147483648 → number_of (record { is_regular = true; name = file k }) ≡ pos k
unfolding number_of
number_of-file k h = atoi-print_int (pos k) (codes ".sql") h refl

-- What no version has for a file.
abbrev pub IsOther : Entry → Type 0
IsOther entry =
    (entry.is_regular ≡ false)
    ⊎ ((ds : Bytes) → All (λ c. is_digit c ≡ true) ds → entry.name ≢ ds ++ codes ".sql")

-- A directory with the files of some versions, in the order of the entries, and other entries.
pub data Holds : List Entry → List ℕ → Type 0 where
  empty : Holds [] []
  version :
      (k : ℕ) {entries : List Entry} {ks : List ℕ}
      → k < 2147483648
      → Holds entries ks
      → Holds (record { is_regular = true; name = file k } ∷ entries) (k ∷ ks)
  other :
      (entry : Entry) {entries : List Entry} {ks : List ℕ}
      → IsOther entry
      → Holds entries ks
      → Holds (entry ∷ entries) ks

-- The array of a version, which the compiler fills with the bytes of its file and a NUL.
abbrev pub array_of : Bytes → ℕ → Bytes
array_of dir k =
    codes "static const char migration_"
    ++ (print_int (pos k)
        ++ (codes "[] = {\n"
            ++ (codes "#embed \""
                ++ (dir ++ (codes "/" ++ (file k ++ codes "\" suffix(, 0)\n};\n\n"))))))

definition-array_of : (dir : Bytes) (k : ℕ) → definition dir (pos k) (file k) ≡ array_of dir k
unfolding definition
definition-array_of dir k = refl

-- The arrays of the versions.
abbrev pub arrays : Bytes → List ℕ → Bytes
arrays dir [] = []
arrays dir (k ∷ ks) = array_of dir k ++ arrays dir ks

and_false : (b : Bool) → (b && false) ≡ false
and_false true = refl
and_false false = refl

other-is_migration : (entry : Entry) → IsOther entry → is_migration entry ≡ false
unfolding is_migration
other-is_migration entry (inl e) = rw e refl
other-is_migration entry (inr strange) = elim (Bool-cases (is_migration_name entry.name)) [
  | inl e ↦
      let (ds, d, same_name) = (is_migration_name_iff entry.name).0 e in
      absurd (strange ds d same_name)
  | inr e ↦ rw e (and_false entry.is_regular)
]

define_all-arrays :
    (dir : Bytes) {entries : List Entry} {ks : List ℕ}
    → Holds entries ks
    → (n : ℕ) → n + length ks ≤ int_max
    → define_all dir n entries ≡ some (arrays dir ks, n + length ks)
unfolding define_all
define_all-arrays dir empty n h = let same : n ≡ n + 0 = omega arith in ap (λ m. some ([], m)) same
define_all-arrays dir (version k {ks = ks} small h) n room =
    let same : suc n + length ks ≡ n + suc (length ks) = omega arith in
    rw
      (
        file-is_migration k,
        number_of-file k small,
        lt→ltb n int_max (omega arith),
        define_all-arrays dir h (suc n) (omega arith),
        definition-array_of dir k,
      )
      (ap (λ m. some (array_of dir k ++ arrays dir ks, m)) same)
define_all-arrays dir (other entry o h) n room =
    rw (other-is_migration entry o) (define_all-arrays dir h n room)

-- The versions from `first` on.
abbrev pub versions : ℕ → ℕ → List ℕ
versions first zero = []
versions first (suc n) = first ∷ versions (suc first) n

-- The elements of the array of pointers, one for each version.
abbrev pub pointers : List ℕ → Bytes
pointers [] = []
pointers (i ∷ rest) =
    codes "    ["
    ++ (print_int (pos i)
        ++ (codes "] = migration_" ++ (print_int (pos i) ++ (codes ",\n" ++ pointers rest))))

element-pointers : (i : ℕ) (rest : List ℕ) → element i ++ pointers rest ≡ pointers (i ∷ rest)
unfolding element
element-pointers i rest = simp append_assoc

elements-pointers :
    (n first : ℕ) → first + n ≤ int_max → elements n first ≡ some (pointers (versions first n))
unfolding elements
elements-pointers zero first room = refl
elements-pointers (suc n) first room =
    rw (lt→ltb first int_max (omega arith), elements-pointers n (suc first) (omega arith))
      (ap some (element-pointers first (versions (suc first) n)))

-- For a directory with the files of some versions below 2 ^ 31, written in decimal, among entries
-- that are no migrations, fewer than 2 ^ 31 - 1 of them, the header has one array for each of the
-- versions, in the order of the entries, and then pointers to the versions from 1 to the number of
-- the files.
pub header-arrays :
    (dir : Bytes) {entries : List Entry} {ks : List ℕ}
    → Holds entries ks
    → length ks < int_max
    → header dir entries
      ≡ some (
          arrays dir ks
          ++ (codes "static const char *migrations[] = {\n"
              ++ (pointers (versions 1 (length ks))
                  ++ (codes "};\n\nconst int n_migrations = "
                      ++ (print_int (pos (length ks)) ++ codes ";")))))
unfolding header
header-arrays dir {entries = entries} {ks = ks} h few =
    let all : define_all dir 0 entries ≡ some (arrays dir ks, length ks) =
      define_all-arrays dir h 0 (omega arith) ∙ ap (λ m. some (arrays dir ks, m)) (omega arith) in
    rw (all, elements-pointers (length ks) 1 (omega arith)) refl
