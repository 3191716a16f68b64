-- ===== src/Base/Keys.antt =====
-- Lists of which no two elements have the same key, and the lengths of lists of rows.
use Prim.Native.Nat.{ℕ, ◌≤◌, ◌<◌}
use mathlib.Core.Path.{◌≡◌, refl}
use mathlib.Core.Logic.{inl, inr}
use mathlib.Core.Bool.{Bool, true, false}
use mathlib.Core.List.{List, [], ◌∷◌}
use mathlib.Core.Option.{none}
use native.Mathlib.Omega.{arith}
use aura_risk.Base.Tests.{◌==◌, Bool-cases}
use aura_risk.Base.Lists.{length, find, exists, select, delete}

module _ {ℓ} {A : Type ℓ} (p : A → Bool) where
  pub length-select : (xs : List A) → length (select p xs) ≤ length xs
  length-select [] = omega arith
  length-select (x ∷ xs) = ground (arith, length-select xs)

  pub length-delete : (xs : List A) → length (delete p xs) ≤ length xs
  length-delete [] = omega arith
  length-delete (x ∷ xs) = ground (arith, length-delete xs)

  pub length-delete_there : (xs : List A) → exists p xs ≡ true → length (delete p xs) < length xs
  length-delete_there [] e = cc
  length-delete_there (x ∷ xs) e = ground (arith, length-delete xs, length-delete_there xs)

  pub exists-delete_same : (xs : List A) → exists p (delete p xs) ≡ false
  exists-delete_same [] = refl
  exists-delete_same (x ∷ xs) = ground (arith, exists-delete_same xs)

  pub exists-delete :
      (q : A → Bool) (xs : List A) → exists q xs ≡ false → exists q (delete p xs) ≡ false
  exists-delete q [] e = e
  exists-delete q (x ∷ xs) e = ground (arith, exists-delete q xs)

  pub find-exists : (xs : List A) → find p xs ≡ none → exists p xs ≡ false
  find-exists [] e = refl
  find-exists (x ∷ xs) e = ground (arith, find-exists xs)

-- No two have the same key.
abbrev pub Distinct {ℓ} : {A : Type ℓ} → (A → ℕ) → List A → Type 0
Distinct key [] = Unit {0}
Distinct key (x ∷ xs) = (exists (λ y. key y == key x) xs ≡ false) × Distinct key xs

module _ {ℓ} {A : Type ℓ} (key : A → ℕ) where
  pub exists-select :
      (p q : A → Bool) (xs : List A) → exists q xs ≡ false → exists q (select p xs) ≡ false
  exists-select p q [] e = e
  exists-select p q (x ∷ xs) e = ground (arith, exists-select p q xs)

  pub Distinct-select : (p : A → Bool) (xs : List A) → Distinct key xs → Distinct key (select p xs)
  Distinct-select p [] d = tt
  Distinct-select p (x ∷ xs) d = elim (Bool-cases (p x)) [
    | inl hit ↦ rw hit (exists-select p (λ y. key y == key x) xs d.0, Distinct-select p xs d.1)
    | inr miss ↦ rw miss (Distinct-select p xs d.1)
  ]

  pub Distinct-delete : (p : A → Bool) (xs : List A) → Distinct key xs → Distinct key (delete p xs)
  Distinct-delete p [] d = tt
  Distinct-delete p (x ∷ xs) d = elim (Bool-cases (p x)) [
    | inl hit ↦ rw hit (Distinct-delete p xs d.1)
    | inr miss ↦ rw miss (exists-delete p (λ y. key y == key x) xs d.0, Distinct-delete p xs d.1)
  ]
