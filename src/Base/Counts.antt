-- ===== src/Base/Counts.antt =====
-- The number of rows that a test holds of, and keys, where rows are updated, deleted and inserted.
use Prim.Native.Nat.{ℕ, ◌+◌, ◌≤◌}
use mathlib.Core.Path.{◌≡◌, refl, sym, ◌∙◌}
use mathlib.Core.Logic.{inl, inr}
use mathlib.Core.Bool.{Bool, true, false}
use mathlib.Core.List.{List, [], ◌∷◌, ◌++◌}
use mathlib.Core.Option.{some}
use native.Mathlib.Omega.{arith}
use aura_risk.Base.Tests.{◌==◌, Bool-cases}
use aura_risk.Base.Lists.{find, some_eq, exists, count_rows, update, delete, All}
use aura_risk.Base.Keys.{Distinct}

module _ {ℓ} {A : Type ℓ} where
  pub count_rows-update :
      (p : A → Bool) (g : A → A) (q : A → Bool) (xs : List A)
      → ((x : A) → p x ≡ true → q (g x) ≡ true → q x ≡ true)
      → count_rows q (update p g xs) ≤ count_rows q xs
  count_rows-update p g q [] h = omega arith
  count_rows-update p g q (x ∷ xs) h = ground (arith, h x, count_rows-update p g q xs h)

  pub count_rows-delete :
      (p q : A → Bool) (xs : List A) → count_rows q (delete p xs) ≤ count_rows q xs
  count_rows-delete p q [] = omega arith
  count_rows-delete p q (x ∷ xs) = ground (arith, count_rows-delete p q xs)

  pub count_rows-append :
      (q : A → Bool) (xs ys : List A) → count_rows q (xs ++ ys) ≡ count_rows q xs + count_rows q ys
  count_rows-append q [] ys = omega arith
  count_rows-append q (x ∷ xs) ys = ground (arith, count_rows-append q xs ys)

  pub count_rows-none : (q : A → Bool) (xs : List A) → exists q xs ≡ false → count_rows q xs ≡ 0
  count_rows-none q [] h = refl
  count_rows-none q (x ∷ xs) h = ground (arith, count_rows-none q xs)

module _ {ℓ} {A : Type ℓ} (key : A → ℕ) where
  pub exists-update_key :
      (p : A → Bool) (g : A → A) (k : ℕ) (xs : List A)
      → ((x : A) → key (g x) ≡ key x)
      → exists (λ y. key y == k) (update p g xs) ≡ exists (λ y. key y == k) xs
  exists-update_key p g k [] same = refl
  exists-update_key p g k (x ∷ xs) same = ground (arith, same x, exists-update_key p g k xs same)

  pub Distinct-update_key :
      (p : A → Bool) (g : A → A) (xs : List A)
      → ((x : A) → key (g x) ≡ key x)
      → Distinct key xs
      → Distinct key (update p g xs)
  Distinct-update_key p g [] same d = tt
  Distinct-update_key p g (x ∷ xs) same d = (
    ground (arith, same x, exists-update_key p g (key x) xs same, d.0),
    Distinct-update_key p g xs same d.1,
  )

  exists-append_one :
      (q : A → Bool) (xs : List A) (y : A)
      → exists q xs ≡ false
      → q y ≡ false
      → exists q (xs ++ (y ∷ [])) ≡ false
  exists-append_one q [] y a b = ground arith
  exists-append_one q (x ∷ xs) y a b = ground (arith, exists-append_one q xs y)

  pub Distinct-append_one :
      (xs : List A) (y : A)
      → Distinct key xs
      → exists (λ x. key x == key y) xs ≡ false
      → Distinct key (xs ++ (y ∷ []))
  Distinct-append_one [] y d new = (refl, tt)
  Distinct-append_one (x ∷ xs) y d new = (
    exists-append_one (λ z. key z == key x) xs y d.0 (ground arith),
    Distinct-append_one xs y d.1 (ground arith),
  )

  -- At most one row has a key, so a test that only it passes counts one at most.
  pub count_rows-Distinct :
      (q : A → Bool) (k : ℕ) (xs : List A)
      → All (λ x. q x ≡ true → key x ≡ k) xs
      → Distinct key xs
      → count_rows q xs ≤ 1
  count_rows-Distinct q k [] only d = omega arith
  count_rows-Distinct q k (x ∷ xs) only d = elim (Bool-cases (q x)) [
    | inr miss ↦ rw miss (count_rows-Distinct q k xs only.1 d.1)
    | inl hit ↦ rw (hit, none_more (only.0 hit) xs only.1 d.0) (omega arith)
  ]
    where
      none_more :
          key x ≡ k
          → (ys : List A) → All (λ y. q y ≡ true → key y ≡ k) ys
          → exists (λ y. key y == key x) ys ≡ false
          → count_rows q ys ≡ 0
      none_more e [] all h = refl
      none_more e (y ∷ ys) all h = ground (arith, all.0, none_more e ys all.1)

-- The row that is found after an update of the rows looked for.
pub find-update {ℓ} :
    {A : Type ℓ} (p : A → Bool) (g : A → A) (xs : List A) (y : A)
    → ((x : A) → p (g x) ≡ p x)
    → find p (update p g xs) ≡ some y
    → (x : A) × (find p xs ≡ some x) × (y ≡ g x)
find-update p g [] y same h = absurd (cc h)
find-update p g (x ∷ xs) y same h = elim (Bool-cases (p x)) [
  | inl hit ↦
      let here : p (g x) ≡ true = same x ∙ hit in
      rw hit (x, refl, sym (some_eq (rw (hit, here) at h)))
  | inr miss ↦ rw miss (find-update p g xs y same (rw (miss, miss) at h))
]
