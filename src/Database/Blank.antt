-- ===== src/Database/Blank.antt =====
-- Rows without their status, as the server of src/server shows them.
use reachard.Prelude.{
  Bool, true, List, [], ◌∷◌, Option, none, some, ◌≡◌, refl, ap, ◌∙◌, ℤ, map, Bool-cases, inl, inr,
}
use reachard.Database.Targets.Update.{up, boolean}
use reachard.Database.Table.{Row, same_id, with_id, without_id, update_rows, find, first}

abbrev pub blank_row : Row → Row
blank_row r = record r { up = true }

abbrev pub blank : List Row → List Row
blank = map blank_row

abbrev pub blank_found : Option Row → Option Row
blank_found none = none
blank_found (some r) = some (blank_row r)

pub with_id-blank : (k : ℤ) (rows : List Row) → with_id k (blank rows) ≡ blank (with_id k rows)
with_id-blank k [] = refl
with_id-blank k (r ∷ rows) = elim (Bool-cases (same_id r.id k)) [
  | inl h ↦ rw (h, with_id-blank k rows) refl
  | inr h ↦ rw h (with_id-blank k rows)
]

pub without_id-blank :
    (k : ℤ) (rows : List Row) → without_id k (blank rows) ≡ blank (without_id k rows)
without_id-blank k [] = refl
without_id-blank k (r ∷ rows) = elim (Bool-cases (same_id r.id k)) [
  | inl h ↦ rw h (without_id-blank k rows)
  | inr h ↦ rw (h, without_id-blank k rows) refl
]

first-blank : (rows : List Row) → first (blank rows) ≡ blank_found (first rows)
first-blank [] = refl
first-blank (r ∷ rows) = refl

pub find-blank : (k : ℤ) (rows : List Row) → find k (blank rows) ≡ blank_found (find k rows)
find-blank k rows = ap first (with_id-blank k rows) ∙ first-blank (with_id k rows)

-- An update of the status alone.
pub blank-update_rows :
    (k : ℤ) (b : Bool) (rows : List Row)
    → blank (update_rows k (record { key = up; value = boolean b } ∷ []) rows) ≡ blank rows
blank-update_rows k b [] = refl
blank-update_rows k b (r ∷ rows) = elim (Bool-cases (same_id r.id k)) [
  | inl h ↦ rw (h, blank-update_rows k b rows) refl
  | inr h ↦ rw (h, blank-update_rows k b rows) refl
]
