-- ===== src/Client/Watcher/Table.antt =====
-- `reachard_client_watcher_delete` and `reachard_client_watcher_stop` of src/client/watcher.c on the
-- table of targets.
use reachard.Prelude.{
  ℕ, suc, ◌+◌, true, false, List, [], ◌∷◌, none, some, ◌≡◌, ◌↔◌, refl, arith, ℤ, pos, negsuc,
  length, if◌then◌else◌, Bool-cases, Option-cases, inl, inr, ap, sym, ◌∙◌,
}
use reachard.Database.Table.{same_id}
use reachard.Client.Targets.{ClientTarget}
use reachard.Client.Watcher.{Watched, hash_find, hash_del, watcher_delete}

-- Every id is in the table at most once.
abbrev pub IsUnique : List ClientTarget → Type 0
IsUnique [] = Unit
IsUnique (target ∷ targets) = (hash_find target.id targets ≡ none) × IsUnique targets

pub same_id_iff : (a b : ℤ) → (same_id a b ≡ true) ↔ (a ≡ b)
same_id_iff (pos a) (pos b) = ground arith
same_id_iff (pos a) (negsuc b) = ground arith
same_id_iff (negsuc a) (pos b) = ground arith
same_id_iff (negsuc a) (negsuc b) = ground arith

pub other_id : (a b k : ℤ) → same_id a b ≡ false → same_id a k ≡ true → same_id b k ≡ false
other_id a b k h e = elim (Bool-cases (same_id b k)) [
  | inl d ↦
      ground (arith, h, (same_id_iff a b).1 ((same_id_iff a k).0 e ∙ sym ((same_id_iff b k).0 d)))
  | inr d ↦ d
]

-- How many targets the program holds.
abbrev pub held : Watched → ℕ
held watched = length watched.targets + watched.closing

hash_find-hash_del :
    (id k : ℤ) (targets : List ClientTarget)
    → IsUnique targets
    → hash_find k (hash_del id targets) ≡ (if same_id id k then none else hash_find k targets)
hash_find-hash_del id k [] u = elim (Bool-cases (same_id id k)) [
  | inl d ↦ rw d refl
  | inr d ↦ rw d refl
]
hash_find-hash_del id k (target ∷ targets) u = elim (Bool-cases (same_id target.id id)) [
  | inl h ↦
      let e = (same_id_iff target.id id).0 h in
      elim (Bool-cases (same_id id k)) [
        | inl d ↦
            let gone : hash_find k targets ≡ none =
              ap (λ i. hash_find i targets) (sym (e ∙ (same_id_iff id k).0 d)) ∙ u.0 in
            rw (h, d) gone
        | inr d ↦
            let other : same_id target.id k ≡ false = ap (λ i. same_id i k) e ∙ d in
            rw (h, d) (rw other refl)
      ]
  | inr h ↦ elim (Bool-cases (same_id target.id k)) [
    | inl d ↦ rw (h, other_id target.id id k h d) (rw d refl)
    | inr d ↦ rw h (rw d (hash_find-hash_del id k targets u.1))
  ]
]

hash_del-IsUnique :
    (id : ℤ) (targets : List ClientTarget) → IsUnique targets → IsUnique (hash_del id targets)
hash_del-IsUnique id [] u = tt
hash_del-IsUnique id (target ∷ targets) u = elim (Bool-cases (same_id target.id id)) [
  | inl h ↦ rw h u.1
  | inr h ↦ rw h (
    hash_find-hash_del id target.id targets u.1
        ∙ ap (λ o. if same_id id target.id then none else o) u.0
        ∙ ground arith,
    hash_del-IsUnique id targets u.1,
  )
]

length-hash_del :
    (id : ℤ) (targets : List ClientTarget) (target : ClientTarget)
    → hash_find id targets ≡ some target
    → suc (length (hash_del id targets)) ≡ length targets
length-hash_del id [] target h = cc
length-hash_del id (t ∷ targets) target h = elim (Bool-cases (same_id t.id id)) [
  | inl e ↦ rw e refl
  | inr e ↦
      let rest : hash_find id targets ≡ some target = sym (rw e refl) ∙ h in
      rw e (ap suc (length-hash_del id targets target rest))
]

deleted_none :
    (id : ℤ) (watched : Watched)
    → hash_find id watched.targets ≡ none
    → watcher_delete id watched ≡ watched
unfolding watcher_delete
deleted_none id watched e = rw (e, watcher_delete) refl

deleted_some :
    (id : ℤ) (watched : Watched) (target : ClientTarget)
    → hash_find id watched.targets ≡ some target
    → watcher_delete id watched
      ≡ record { targets = hash_del id watched.targets; closing = suc watched.closing }
unfolding watcher_delete
deleted_some id watched target e = rw (e, watcher_delete) refl

not_there :
    (id k : ℤ) (targets : List ClientTarget)
    → hash_find id targets ≡ none
    → hash_find k targets ≡ (if same_id id k then none else hash_find k targets)
not_there id k targets e = elim (Bool-cases (same_id id k)) [
  | inl d ↦ rw d (ap (λ i. hash_find i targets) (sym ((same_id_iff id k).0 d)) ∙ e)
  | inr d ↦ rw d refl
]

-- Where every id is in the table of targets at most once, the same holds after `delete`, the id is
-- not found, every other id is found as before, and each target is either in the table or waits to
-- be freed.
pub watcher_delete-hash_find :
    (id : ℤ) (watched : Watched)
    → IsUnique watched.targets
    → let after = watcher_delete id watched in
      IsUnique after.targets
      × ((k : ℤ)
          → hash_find k after.targets
            ≡ (if same_id id k then none else hash_find k watched.targets))
      × (held after ≡ held watched)
watcher_delete-hash_find id watched u = elim (Option-cases (hash_find id watched.targets)) [
  | inl e ↦ rw (deleted_none id watched e) (u, (λ k. not_there id k watched.targets e), refl)
  | inr (target, e) ↦ rw (deleted_some id watched target e) (
    hash_del-IsUnique id watched.targets u,
    (λ k. hash_find-hash_del id k watched.targets u),
    omega (arith, length-hash_del id watched.targets target e),
  )
]
