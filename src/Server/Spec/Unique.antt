-- ===== src/Server/Spec/Unique.antt =====
-- The ids of the rows stay distinct, whatever is served.
use reachard.Prelude.{
  ℕ, Bool, true, false, List, [], ◌∷◌, ◌++◌, Option, none, some, ◌≡◌, refl, ◌∙◌, ℤ, pos, negsuc,
  if◌then◌else◌, All, Bool-cases, inl, inr, arith,
}
use reachard.System.{Postgres, World}
use reachard.Database.{Db}
use reachard.Database.Refines.Rows.{IsOpen}
use reachard.Server.Spec.Steps.{IsFit}
use reachard.Database.Table.{Row, IsTable, same_id, with_id, without_id}
use reachard.Server.Request.{Queue}
use reachard.Server.Json.{CJson}
use reachard.Server.Targets.{Posted, refused, posted}
use reachard.Server.Targets.Fields.{IsCJson, patched, expected}
use reachard.Server.Targets.Changes.{patch_rows}
use reachard.Server.Spec.{
  Call, list, read, drop, change, create, misplaced, unrouted, row_of, parse_text, change_spec,
  posted_spec, create_spec, spec,
}
use reachard.Server.Spec.Runs.{Seen, seen, Run, served_none, served, serve_all, serve_all-Run}

-- No two rows have the same id.
abbrev pub IsUnique : List Row → Type 0
IsUnique [] = Unit
IsUnique (r ∷ rows) = (with_id r.id rows ≡ []) × IsUnique rows

same_id_sym : (a b : ℤ) → same_id a b ≡ same_id b a
same_id_sym (pos a) (pos b) = ground arith
same_id_sym (pos a) (negsuc b) = refl
same_id_sym (negsuc a) (pos b) = refl
same_id_sym (negsuc a) (negsuc b) = ground arith

with_id-append_new :
    (k : ℤ) (rows : List Row) (r : Row)
    → with_id k rows ≡ []
    → same_id r.id k ≡ false
    → with_id k (rows ++ r ∷ []) ≡ []
with_id-append_new k [] r e d = rw d refl
with_id-append_new k (x ∷ rows) r e d = elim (Bool-cases (same_id x.id k)) [
  | inl h ↦ cc (rw h at e)
  | inr h ↦ rw h (with_id-append_new k rows r (rw h at e) d)
]

append-IsUnique :
    (rows : List Row) (r : Row) → IsUnique rows → with_id r.id rows ≡ [] → IsUnique (rows ++ r ∷ [])
append-IsUnique [] r u e = (refl, tt)
append-IsUnique (x ∷ rows) r (fresh, u) e = elim (Bool-cases (same_id x.id r.id)) [
  | inl h ↦ cc (rw h at e)
  | inr h ↦ (
    with_id-append_new x.id rows r fresh (same_id_sym r.id x.id ∙ h),
    append-IsUnique rows r u (rw h at e),
  )
]

with_id-without_id :
    (i k : ℤ) (rows : List Row) → with_id i rows ≡ [] → with_id i (without_id k rows) ≡ []
with_id-without_id i k [] e = refl
with_id-without_id i k (x ∷ rows) e = elim (Bool-cases (same_id x.id i)) [
  | inl h ↦ cc (rw h at e)
  | inr h ↦ elim (Bool-cases (same_id x.id k)) [
    | inl d ↦ rw d (with_id-without_id i k rows (rw h at e))
    | inr d ↦ rw (d, h) (with_id-without_id i k rows (rw h at e))
  ]
]

without_id-IsUnique : (k : ℤ) (rows : List Row) → IsUnique rows → IsUnique (without_id k rows)
without_id-IsUnique k [] u = tt
without_id-IsUnique k (x ∷ rows) (fresh, u) = elim (Bool-cases (same_id x.id k)) [
  | inl d ↦ rw d (without_id-IsUnique k rows u)
  | inr d ↦ rw d (with_id-without_id x.id k rows fresh, without_id-IsUnique k rows u)
]

module _ (pg : Postgres) (cjson : CJson) (queue : Queue) (c : ℕ) (t : IsTable pg c) where
  id-patched :
      (k : ℤ) (tree : cjson.Tree) (r : Row)
      → (if same_id r.id k then patched cjson t.keep_name tree r else r).id ≡ r.id
  id-patched k tree r = elim (Bool-cases (same_id r.id k)) [ inl d ↦ rw d refl | inr d ↦ rw d refl ]

  with_id-patch_rows :
      (i k : ℤ) (tree : cjson.Tree) (rows : List Row)
      → with_id i rows ≡ []
      → with_id i (patch_rows pg cjson queue c t k tree rows) ≡ []
  with_id-patch_rows i k tree [] e = refl
  with_id-patch_rows i k tree (x ∷ rows) e = elim (Bool-cases (same_id x.id i)) [
    | inl h ↦ cc (rw h at e)
    | inr h ↦ rw (id-patched k tree x, h) (with_id-patch_rows i k tree rows (rw h at e))
  ]

  patch_rows-IsUnique :
      (k : ℤ) (tree : cjson.Tree) (rows : List Row)
      → IsUnique rows
      → IsUnique (patch_rows pg cjson queue c t k tree rows)
  patch_rows-IsUnique k tree [] u = tt
  patch_rows-IsUnique k tree (x ∷ rows) (fresh, u) = (
    rw (id-patched k tree x) (with_id-patch_rows x.id k tree rows fresh),
    patch_rows-IsUnique k tree rows u,
  )

  if-IsUnique :
      (ok : Bool) (rows more : List Row)
      → IsUnique rows
      → IsUnique more
      → IsUnique (if ok then rows else more)
  if-IsUnique true rows more u v = u
  if-IsUnique false rows more u v = v

  change_spec-IsUnique :
      (ok : Bool) (k : ℕ) (parsed : Option cjson.Tree) (rows : List Row)
      → IsUnique rows
      → IsUnique (change_spec pg cjson queue c t ok k parsed rows).1
  change_spec-IsUnique ok k none rows u = u
  change_spec-IsUnique ok k (some tree) rows u =
      if-IsUnique ok _ rows (patch_rows-IsUnique (pos k) tree rows u) u

  posted_spec-IsUnique :
      (ok : Bool) (next : ℤ) (x : Posted) (rows : List Row)
      → with_id next rows ≡ []
      → IsUnique rows
      → IsUnique (posted_spec pg cjson queue c t ok next x rows).1
  posted_spec-IsUnique ok next (refused reason) rows fresh u = u
  posted_spec-IsUnique ok next (posted target) rows fresh u =
      if-IsUnique ok _ rows (append-IsUnique rows (row_of t.keep_name next target) u fresh) u

  create_spec-IsUnique :
      (ok : Bool) (next : ℤ) (parsed : Option cjson.Tree) (rows : List Row)
      → with_id next rows ≡ []
      → IsUnique rows
      → IsUnique (create_spec pg cjson queue c t ok next parsed rows).1
  create_spec-IsUnique ok next none rows fresh u = u
  create_spec-IsUnique ok next (some tree) rows fresh u =
      posted_spec-IsUnique ok next (expected cjson tree) rows fresh u

  spec-IsUnique :
      (ok : Bool) (next : ℤ) (call : Call) (rows : List Row)
      → with_id next rows ≡ []
      → IsUnique rows
      → IsUnique (spec pg cjson queue c t ok next call rows).1
  spec-IsUnique ok next list rows fresh u = u
  spec-IsUnique ok next (read k) rows fresh u = u
  spec-IsUnique ok next (drop k) rows fresh u =
      if-IsUnique ok _ rows (without_id-IsUnique (pos k) rows u) u
  spec-IsUnique ok next (change k text) rows fresh u =
      change_spec-IsUnique ok k (parse_text pg cjson queue c t text) rows u
  spec-IsUnique ok next (create text) rows fresh u =
      create_spec-IsUnique ok next (parse_text pg cjson queue c t text) rows fresh u
  spec-IsUnique ok next (misplaced url method chunks) rows fresh u = u
  spec-IsUnique ok next (unrouted url method chunks) rows fresh u = u

  Run-IsUnique :
      (calls : List Call) (o o' : Seen)
      → Run pg cjson queue c t calls o o'
      → IsUnique o.1
      → IsUnique o'.1
  Run-IsUnique calls o o' (served_none) u = u
  Run-IsUnique calls o o' (served {call = call} ok next fit fresh run) u =
      Run-IsUnique _ _ o' run (spec-IsUnique ok next call o.1 fresh u)

  -- On an open connection to a table, where no allocation fails, with numbers of cJSON that are
  -- `int`s: where no two rows have the same id, any sequence of fit requests is served to its end,
  -- and then no two rows have the same id.
  pub serve_all-IsUnique :
      (db : Db) (w : World pg.Server) (calls : List Call)
      → IsCJson cjson
      → IsOpen c db w
      → w.memory ≡ []
      → All (IsFit pg cjson queue c t) calls
      → IsUnique (t.view w.server)
      → (w' : World pg.Server) × (serve_all pg cjson queue db calls w ≡ some (tt, w'))
        × IsUnique (t.view w'.server)
  serve_all-IsUnique db w calls laws o m fit u =
      let (w', e, run, keeps) = serve_all-Run pg cjson queue c t db w calls laws o m fit in
      (w', e, Run-IsUnique calls (seen pg cjson queue c t w) (seen pg cjson queue c t w') run u)
