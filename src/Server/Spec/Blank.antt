-- ===== src/Server/Spec/Blank.antt =====
-- The specification does not look at the status of a row.
use mathlib.Core.List.{map-append}
use reachard.Prelude.{
  ℕ, Bool, true, false, List, [], ◌∷◌, Option, none, some, ◌≡◌, refl, sym, ap, ℤ, pos, Bool-cases,
  inl, inr,
}
use reachard.System.{Postgres, Response}
use reachard.Database.Table.{Row, IsTable, same_id, find}
use reachard.Database.Blank.{blank, blank_row, blank_found, without_id-blank, find-blank}
use reachard.Server.Request.{Queue}
use reachard.Server.Json.{CJson}
use reachard.Server.Targets.{Posted, refused, posted}
use reachard.Server.Targets.Fields.{expected}
use reachard.Server.Targets.Effects.{row_object, get_response}
use reachard.Server.Targets.Listing.{rows_array, list_response}
use reachard.Server.Targets.Changes.{patch_rows, post_response}
use reachard.Server.Spec.{
  Call, list, read, drop, change, create, misplaced, unrouted, row_of, parse_text, change_spec,
  posted_spec, create_spec, spec,
}

module _ (pg : Postgres) (cjson : CJson) (queue : Queue) (c : ℕ) (t : IsTable pg c) where
  rows_array-blank :
      (array : cjson.Tree) (rows : List Row)
      → rows_array pg cjson queue c t array (blank rows) ≡ rows_array pg cjson queue c t array rows
  rows_array-blank array [] = refl
  rows_array-blank array (r ∷ rows) =
      rows_array-blank (cjson.add_item array (row_object pg cjson queue c t r)) rows

  list_response-blank :
      (ok : Bool) (rows : List Row)
      → list_response pg cjson queue c t ok (blank rows) ≡ list_response pg cjson queue c t ok rows
  list_response-blank false rows = refl
  list_response-blank true rows = rw (rows_array-blank cjson.array rows) refl

  get_response-blank :
      (o : Option Row)
      → get_response pg cjson queue c t (blank_found o) ≡ get_response pg cjson queue c t o
  get_response-blank none = refl
  get_response-blank (some r) = refl

  patch_rows-blank :
      (k : ℤ) (tree : cjson.Tree) (rows : List Row)
      → patch_rows pg cjson queue c t k tree (blank rows)
        ≡ blank (patch_rows pg cjson queue c t k tree rows)
  patch_rows-blank k tree [] = refl
  patch_rows-blank k tree (r ∷ rows) = elim (Bool-cases (same_id r.id k)) [
    | inl h ↦ rw (h, patch_rows-blank k tree rows) refl
    | inr h ↦ rw (h, patch_rows-blank k tree rows) refl
  ]

  -- An answer, and the rows without their status.
  abbrev pub blanked : Response × List Row → Response × List Row
  blanked (answer, rows) = (answer, blank rows)

  abbrev Blanks : (List Row → Response × List Row) → List Row → Type 0
  Blanks f rows = f (blank rows) ≡ blanked (f rows)

  change_spec-blank :
      (ok : Bool) (k : ℕ) (parsed : Option cjson.Tree) (rows : List Row)
      → Blanks (change_spec pg cjson queue c t ok k parsed) rows
  change_spec-blank ok k none rows = refl
  change_spec-blank true k (some tree) rows = rw (patch_rows-blank (pos k) tree rows) refl
  change_spec-blank false k (some tree) rows = refl

  posted_spec-blank :
      (ok : Bool) (next : ℤ) (x : Posted) (rows : List Row)
      → Blanks (posted_spec pg cjson queue c t ok next x) rows
  posted_spec-blank ok next (refused reason) rows = refl
  posted_spec-blank true next (posted target) rows =
      ap (λ l. (post_response pg cjson queue c t next, l))
        (sym (map-append blank_row rows (row_of t.keep_name next target ∷ [])))
  posted_spec-blank false next (posted target) rows = refl

  create_spec-blank :
      (ok : Bool) (next : ℤ) (parsed : Option cjson.Tree) (rows : List Row)
      → Blanks (create_spec pg cjson queue c t ok next parsed) rows
  create_spec-blank ok next none rows = refl
  create_spec-blank ok next (some tree) rows = posted_spec-blank ok next (expected cjson tree) rows

  read-blank :
      (ok : Bool) (k : ℕ) (next : ℤ) (rows : List Row)
      → Blanks (spec pg cjson queue c t ok next (read k)) rows
  read-blank true k next rows =
      rw (find-blank (pos k) rows, get_response-blank (find (pos k) rows)) refl
  read-blank false k next rows = refl

  drop-blank :
      (ok : Bool) (k : ℕ) (next : ℤ) (rows : List Row)
      → Blanks (spec pg cjson queue c t ok next (drop k)) rows
  drop-blank true k next rows = rw (without_id-blank (pos k) rows) refl
  drop-blank false k next rows = refl

  -- Without their status, the rows give the same answers, and stay without it.
  pub spec-blank :
      (ok : Bool) (next : ℤ) (call : Call) (rows : List Row)
      → spec pg cjson queue c t ok next call (blank rows)
        ≡ blanked (spec pg cjson queue c t ok next call rows)
  spec-blank ok next list rows = rw (list_response-blank ok rows) refl
  spec-blank ok next (read k) rows = read-blank ok k next rows
  spec-blank ok next (drop k) rows = drop-blank ok k next rows
  spec-blank ok next (change k text) rows =
      change_spec-blank ok k (parse_text pg cjson queue c t text) rows
  spec-blank ok next (create text) rows =
      create_spec-blank ok next (parse_text pg cjson queue c t text) rows
  spec-blank ok next (misplaced url method chunks) rows = refl
  spec-blank ok next (unrouted url method chunks) rows = refl
