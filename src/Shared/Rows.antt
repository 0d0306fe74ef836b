-- ===== src/Shared/Rows.antt =====
-- The changes that the handlers make to the rows leave their `up` column as it is.
use reachard.Prelude.{
  ℕ, Bool, true, false, List, [], ◌∷◌, ◌++◌, ◌≡◌, ℤ, if◌then◌else◌, Bool-cases, inl, inr,
}
use reachard.System.{Postgres}
use reachard.Database.Table.{Row, same_id, without_id, IsTable}
use reachard.Client.Targets.{ClientTarget}
use reachard.Client.Targets.Checks.{Agrees}
use reachard.Server.Request.{Queue}
use reachard.Server.Json.{CJson}
use reachard.Server.Targets.Changes.{patch_rows}

module _ (pg : Postgres) (cjson : CJson) (queue : Queue) (c d : ℕ) (ts : IsTable pg c)
    (tc : IsTable pg d) where
  pub without_id-Agrees :
      (target : ClientTarget) (k : ℤ) (rows : List Row)
      → Agrees pg d tc target rows
      → Agrees pg d tc target (without_id k rows)
  without_id-Agrees target k [] a = tt
  without_id-Agrees target k (r ∷ rows) a = elim (Bool-cases (same_id r.id k)) [
    | inl e ↦ rw e (without_id-Agrees target k rows a.1)
    | inr e ↦ rw e (a.0, without_id-Agrees target k rows a.1)
  ]

  pub patch_rows-Agrees :
      (target : ClientTarget) (k : ℤ) (tree : cjson.Tree) (rows : List Row)
      → Agrees pg d tc target rows
      → Agrees pg d tc target (patch_rows pg cjson queue c ts k tree rows)
  patch_rows-Agrees target k tree [] a = tt
  patch_rows-Agrees target k tree (r ∷ rows) a = elim (Bool-cases (same_id r.id k)) [
    | inl e ↦ rw e (a.0, patch_rows-Agrees target k tree rows a.1)
    | inr e ↦ rw e (a.0, patch_rows-Agrees target k tree rows a.1)
  ]

  pub append-Agrees :
      (target : ClientTarget) (rows : List Row) (r : Row)
      → same_id r.id target.id ≡ false
      → Agrees pg d tc target rows
      → Agrees pg d tc target (rows ++ r ∷ [])
  append-Agrees target [] r e a = ((λ k. cc), tt)
  append-Agrees target (x ∷ rows) r e a = (a.0, append-Agrees target rows r e a.1)

  -- Rows that were changed if a condition holds.
  pub Agrees-if :
      (target : ClientTarget) (done : Bool) (after before : List Row)
      → Agrees pg d tc target after
      → Agrees pg d tc target before
      → Agrees pg d tc target (if done then after else before)
  Agrees-if target true after before a b = a
  Agrees-if target false after before a b = b
