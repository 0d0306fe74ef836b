-- ===== src/Server/Targets/Fields.antt =====
-- The fields that PATCH and POST of src/server/handle/targets.c take from the body.
use reachard.Prelude.{
  true, Option, none, some, ◌≡◌, ◌↔◌, ◌⊎◌, ◌∙◌, refl, arith, ℤ, pos, IsInt32, All, Option-cases,
  inl, inr, map,
}
use reachard.Text.{Bytes, codes}
use reachard.Database.Targets.{Target, target_init}
use reachard.Database.Targets.Update.{id}
use reachard.Database.Targets.Update.Params.{IsTyped, IsFresh, IsDistinct}
use reachard.Database.Table.{Row, set_columns, stored}
use reachard.Server.Json.{CJson}
use reachard.Server.Targets.{
  Posted, refused, posted, posted_interval, posted_url, posted_name, string_item, patch_fields,
  post_fields,
}

-- `valueint` is an `int`.
pub record IsCJson (cjson : CJson) : Type 0 where
  pub number_range : (tree : cjson.Tree) (n : ℤ) → cjson.number_of tree ≡ some n → IsInt32 n

abbrev pub or_old {ℓ} : {A : Type ℓ} → Option A → A → A
or_old none a = a
or_old (some b) a = b

abbrev pub kept : (Bytes → Bytes) → Option Bytes → Option Bytes
kept keep none = none
kept keep (some s) = some (keep s)

module _ (cjson : CJson) where
  -- The string and the number in a member of a JSON object.
  abbrev pub string_at : cjson.Tree → Bytes → Option Bytes
  string_at tree key = elim (cjson.item tree key) [ none ↦ none | some x ↦ cjson.string_of x ]

  abbrev pub number_at : cjson.Tree → Bytes → Option ℤ
  number_at tree key = elim (cjson.item tree key) [ none ↦ none | some x ↦ cjson.number_of x ]

  -- A row with the name, the URL and the interval of a JSON object, each where it is given, and
  -- where `keep` is what the column of the name keeps of it.
  abbrev pub patched : (Bytes → Bytes) → cjson.Tree → Row → Row
  patched keep tree r = record r {
    name = or_old (kept keep (string_at tree (codes "name"))) r.name;
    url = or_old (string_at tree (codes "url")) r.url;
    interval = or_old (number_at tree (codes "interval")) r.interval;
  }

  -- The columns that PATCH sets make the row that the object describes.
  pub set_columns-patch_fields :
      (keep : Bytes → Bytes) (tree : cjson.Tree) (r : Row)
      → set_columns (map (stored keep) (patch_fields cjson tree)) r ≡ patched keep tree r
  unfolding patch_fields
  set_columns-patch_fields keep tree r = ground arith

  pub patch_fields-IsDistinct :
      (tree : cjson.Tree)
      → IsDistinct (patch_fields cjson tree) × IsFresh id (patch_fields cjson tree)
  unfolding patch_fields
  patch_fields-IsDistinct tree = ground arith

  -- Where the numbers of cJSON are `int`s, every pair that PATCH gives to the update has a value of
  -- the type of its column, a string for the name and the URL and an `int` for the interval: the
  -- member of the union that is read is the one that was written.
  pub patch_fields-IsTyped :
      IsCJson cjson → (tree : cjson.Tree) → All IsTyped (patch_fields cjson tree)
  unfolding patch_fields
  patch_fields-IsTyped laws tree = grind (arith, laws.number_range)

  -- The interval that POST reads: 5 without an item, and else the item's number.
  abbrev pub HasInterval : cjson.Tree → ℤ → Type 0
  HasInterval tree i =
      ((cjson.item tree (codes "interval") ≡ none) × (i ≡ pos 5))
      ⊎ ((x : cjson.Tree) × (cjson.item tree (codes "interval") ≡ some x)
          × (cjson.number_of x ≡ some i))

  -- What POST asks of an object: a name and a URL that are strings, and an interval that is a number
  -- if it is there at all.
  abbrev pub Describes : cjson.Tree → Target → Type 0
  Describes tree target =
      (n : Bytes) × (u : Bytes) × (i : ℤ) × (string_item cjson tree (codes "name") ≡ some n)
      × (string_item cjson tree (codes "url") ≡ some u)
      × HasInterval tree i
      × (target ≡ record { id = pos 0; name = some n; url = some u; interval = i; up = true })

  posted_interval_iff :
      (target : Target) (tree : cjson.Tree) (t : Target)
      → posted_interval cjson target (cjson.item tree (codes "interval")) ≡ posted t
      → target.interval ≡ pos 5
      → (i : ℤ) × HasInterval tree i × (t ≡ record target { interval = i })
  unfolding posted_interval
  posted_interval_iff target tree t h five =
      elim (Option-cases (cjson.item tree (codes "interval"))) [
        | inl e ↦ (pos 5, inl (e, refl), ground arith)
        | inr (x, e) ↦ elim (Option-cases (cjson.number_of x)) [
          | inl f ↦ absurd (ground arith)
          | inr (i, f) ↦ (i, inr (x, e, f), ground arith)
        ]
      ]

  post_fields_sound :
      (tree : cjson.Tree) (target : Target) (n u : Bytes)
      → string_item cjson tree (codes "name") ≡ some n
      → string_item cjson tree (codes "url") ≡ some u
      → post_fields cjson tree ≡ posted target
      → Describes tree target
  unfolding post_fields
  post_fields_sound tree target n u en eu h =
      let base : Target = record target_init { name = some n; url = some u } in
      let (i, ei, et) =
        posted_interval_iff base tree target (rw (en, posted_name) (rw (eu, posted_url) refl) ∙ h)
          refl in
      (n, u, i, en, eu, ei, et)

  -- POST takes exactly the objects that describe a target, a name and a URL that are strings and an
  -- interval that is a number if it is there at all, and takes that target from them.
  pub post_fields_iff :
      (tree : cjson.Tree) (target : Target)
      → (post_fields cjson tree ≡ posted target) ↔ Describes tree target
  unfolding post_fields
  post_fields_iff tree target = (
    λ h. elim (Option-cases (string_item cjson tree (codes "name"))) [
      | inl en ↦ absurd (ground arith)
      | inr (n, en) ↦ elim (Option-cases (string_item cjson tree (codes "url"))) [
        | inl eu ↦ absurd (ground arith)
        | inr (u, eu) ↦ post_fields_sound tree target n u en eu h
      ]
    ],
    λ (n, u, i, en, eu, ei, et). ground arith,
  )

  -- What POST answers to or takes from the parts of an object.
  abbrev described : Option Bytes → Option Bytes → Option ℤ → Posted
  described none u i = refused (codes "failed to parse target name")
  described (some n) none i = refused (codes "failed to parse target url")
  described (some n) (some u) none = refused (codes "failed to parse target interval")
  described (some n) (some u) (some i) =
      posted (record { id = pos 0; name = some n; url = some u; interval = i; up = true })

  -- The interval: 5 without an item.
  abbrev interval_at : cjson.Tree → Option ℤ
  interval_at tree = elim (cjson.item tree (codes "interval")) [
    | none ↦ some (pos 5)
    | some x ↦ cjson.number_of x
  ]

  -- What POST is to make of an object.
  abbrev pub expected : cjson.Tree → Posted
  expected tree =
      described (string_at tree (codes "name")) (string_at tree (codes "url")) (interval_at tree)

  pub post_fields-expected : (tree : cjson.Tree) → post_fields cjson tree ≡ expected tree
  unfolding post_fields
  post_fields-expected tree = ground arith
