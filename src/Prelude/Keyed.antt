-- ===== src/Prelude/Keyed.antt =====
-- Lists of records with a number as key: a table in which each key stands at most once.
use Prim.Native.Nat.{ℕ, suc}
use mathlib.Core.Path.{◌≡◌, refl, sym, ap, ◌∙◌, subst}
use mathlib.Core.Logic.{inl, inr}
use mathlib.Core.Bool.{false}
use mathlib.Core.List.{List, [], ◌∷◌}
use mathlib.Core.Option.{Option, none, some, some-injective}
use native.Mathlib.Omega.{arith}
use reachard.Prelude.Tests.{if◌then◌else◌, ◌==◌, Bool-cases, ==_iff}
use reachard.Prelude.Lists.{length, All}

module _ {A : Type 0} (key : A → ℕ) where
  abbrev pub find_key : ℕ → List A → Option A
  find_key k [] = none
  find_key k (x ∷ xs) = let rest = find_key k xs in if key x == k then some x else rest

  -- The first element with the key is taken out.
  abbrev pub remove_key : ℕ → List A → List A
  remove_key k [] = []
  remove_key k (x ∷ xs) = let rest = remove_key k xs in if key x == k then xs else x ∷ rest

  -- The first element with the key of `y` becomes `y`.
  abbrev pub replace_key : A → List A → List A
  replace_key y [] = []
  replace_key y (x ∷ xs) =
      let rest = replace_key y xs in if key x == key y then y ∷ xs else x ∷ rest

  abbrev pub HasUniqueKeys : List A → Type 0
  HasUniqueKeys [] = Unit
  HasUniqueKeys (x ∷ xs) = (find_key (key x) xs ≡ none) × HasUniqueKeys xs

  pub find_key-remove_key :
      (i k : ℕ) (xs : List A)
      → HasUniqueKeys xs
      → find_key k (remove_key i xs) ≡ (if i == k then none else find_key k xs)
  find_key-remove_key i k [] u = ground arith
  find_key-remove_key i k (x ∷ xs) u = elim (Bool-cases (key x == i)) [
    | inl h ↦
        let e : key x ≡ i = (==_iff (key x) i).0 h in
        elim (Bool-cases (i == k)) [
          | inl d ↦
              let gone : find_key k xs ≡ none =
                ap (λ j. find_key j xs) (sym (e ∙ (==_iff i k).0 d)) ∙ u.0 in
              rw (h, d) gone
          | inr d ↦ rw (h, d) (rw (ap (λ j. j == k) e ∙ d) refl)
        ]
    | inr h ↦ elim (Bool-cases (key x == k)) [
      | inl d ↦ let other : (i == k) ≡ false = ground arith in rw (h, other) (rw d refl)
      | inr d ↦ rw h (rw d (find_key-remove_key i k xs u.1))
    ]
  ]

  pub remove_key-HasUniqueKeys :
      (i : ℕ) (xs : List A) → HasUniqueKeys xs → HasUniqueKeys (remove_key i xs)
  remove_key-HasUniqueKeys i [] u = tt
  remove_key-HasUniqueKeys i (x ∷ xs) u = elim (Bool-cases (key x == i)) [
    | inl h ↦ rw h u.1
    | inr h ↦ rw h (
      find_key-remove_key i (key x) xs u.1
          ∙ ap (λ o. if i == key x then none else o) u.0
          ∙ ground arith,
      remove_key-HasUniqueKeys i xs u.1,
    )
  ]

  pub length-remove_key :
      (i : ℕ) (xs : List A) (x : A)
      → find_key i xs ≡ some x
      → suc (length (remove_key i xs)) ≡ length xs
  length-remove_key i [] x h = cc
  length-remove_key i (y ∷ xs) x h = elim (Bool-cases (key y == i)) [
    | inl e ↦ rw e refl
    | inr e ↦
        let rest : find_key i xs ≡ some x = sym (rw e refl) ∙ h in
        rw e (ap suc (length-remove_key i xs x rest))
  ]

  pub length-replace_key : (y : A) (xs : List A) → length (replace_key y xs) ≡ length xs
  length-replace_key y [] = refl
  length-replace_key y (x ∷ xs) = ground (arith, length-replace_key y xs)

  -- Where the key is there at all, it leads to the new element now.
  abbrev renewed : A → Option A → Option A
  renewed y none = none
  renewed y (some _) = some y

  pub find_key-replace_key :
      (k : ℕ) (y : A) (xs : List A)
      → find_key k (replace_key y xs)
        ≡ (if key y == k then renewed y (find_key k xs) else find_key k xs)
  find_key-replace_key k y [] = ground arith
  find_key-replace_key k y (x ∷ xs) = ground (arith, find_key-replace_key k y xs)

  pub replace_key-HasUniqueKeys :
      (y : A) (xs : List A) → HasUniqueKeys xs → HasUniqueKeys (replace_key y xs)
  replace_key-HasUniqueKeys y [] u = tt
  replace_key-HasUniqueKeys y (x ∷ xs) u = elim (Bool-cases (key x == key y)) [
    | inl h ↦ rw h (ap (λ j. find_key j xs) (sym ((==_iff (key x) (key y)).0 h)) ∙ u.0, u.1)
    | inr h ↦
        rw h (
          find_key-replace_key (key x) y xs ∙ ground (arith, u),
          replace_key-HasUniqueKeys y xs u.1,
        )
  ]

  pub All-remove_key {κ} :
      (P : A → Type κ) (i : ℕ) (xs : List A) → All P xs → All P (remove_key i xs)
  All-remove_key P i [] a = tt
  All-remove_key P i (x ∷ xs) a = elim (Bool-cases (key x == i)) [
    | inl e ↦ rw e a.1
    | inr e ↦ rw e (a.0, All-remove_key P i xs a.1)
  ]

  pub All-find_key {κ} :
      (P : A → Type κ) (i : ℕ) (xs : List A) (x : A) → All P xs → find_key i xs ≡ some x → P x
  All-find_key P i [] x a h = cc
  All-find_key P i (y ∷ xs) x a h = elim (Bool-cases (key y == i)) [
    | inl e ↦
        let same : some y ≡ some x = sym (rw e refl) ∙ h in subst P (some-injective _ _ same) a.0
    | inr e ↦ All-find_key P i xs x a.1 (sym (rw e refl) ∙ h)
  ]
