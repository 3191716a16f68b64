-- ===== src/Base/Sorted.antt =====
-- The rows of a query in an order and up to a limit, and lists that are put together.
use Prim.Native.Nat.{ℕ, zero, suc}
use mathlib.Core.Path.{◌≡◌, refl}
use mathlib.Core.Logic.{inl, inr}
use mathlib.Core.Bool.{Bool, true, ◌&&◌}
use mathlib.Core.List.{List, [], ◌∷◌, ◌++◌}
use native.Mathlib.Omega.{arith}
use aura_risk.Base.Tests.{if◌then◌else◌, leb, Bool-cases}
use aura_risk.Base.Lists.{exists, select, All}

-- LIMIT
abbrev pub limit {ℓ} : {A : Type ℓ} → ℕ → List A → List A
limit zero xs = []
limit (suc n) [] = []
limit (suc n) (x ∷ xs) = x ∷ limit n xs

-- ORDER BY a column
module _ {ℓ} {A : Type ℓ} (key : A → ℕ) where
  abbrev pub insert_by : A → List A → List A
  insert_by x [] = x ∷ []
  insert_by x (y ∷ ys) = if leb (key x) (key y) then x ∷ y ∷ ys else y ∷ insert_by x ys

  abbrev pub order_by : List A → List A
  order_by [] = []
  order_by (x ∷ xs) = insert_by x (order_by xs)

module _ {ℓ} {A : Type ℓ} (q : A → Bool) where
  pub exists-limit : (n : ℕ) (xs : List A) → exists q (limit n xs) ≡ true → exists q xs ≡ true
  exists-limit zero xs e = absurd (ground (arith, e))
  exists-limit (suc n) [] e = e
  exists-limit (suc n) (x ∷ xs) e = ground (arith, exists-limit n xs, e)

  pub exists-insert_by :
      (created : A → ℕ) (x : A) (xs : List A)
      → exists q (insert_by created x xs) ≡ exists q (x ∷ xs)
  exists-insert_by created x [] = refl
  exists-insert_by created x (y ∷ ys) = ground (arith, exists-insert_by created x ys)

  pub exists-order_by :
      (created : A → ℕ) (xs : List A) → exists q (order_by created xs) ≡ exists q xs
  exists-order_by created [] = refl
  exists-order_by created (x ∷ xs) =
      ground (arith, exists-insert_by created x (order_by created xs), exists-order_by created xs)

  pub exists_selected :
      (s : A → Bool) (xs : List A)
      → exists q (select s xs) ≡ true
      → exists (λ x. s x && q x) xs ≡ true
  exists_selected s [] e = e
  exists_selected s (x ∷ xs) e = ground (arith, exists_selected s xs, e)

module _ {ℓ κ} {A : Type ℓ} (P : A → Type κ) where
  pub All-limit : (n : ℕ) (xs : List A) → All P xs → All P (limit n xs)
  All-limit zero xs a = tt
  All-limit (suc n) [] a = tt
  All-limit (suc n) (x ∷ xs) a = (a.0, All-limit n xs a.1)

  pub All-insert_by :
      (key : A → ℕ) (x : A) (xs : List A) → P x → All P xs → All P (insert_by key x xs)
  All-insert_by key x [] h a = (h, tt)
  All-insert_by key x (y ∷ ys) h a = elim (Bool-cases (leb (key x) (key y))) [
    | inl e ↦ rw e (h, a)
    | inr e ↦ rw e (a.0, All-insert_by key x ys h a.1)
  ]

  pub All-order_by : (key : A → ℕ) (xs : List A) → All P xs → All P (order_by key xs)
  All-order_by key [] a = tt
  All-order_by key (x ∷ xs) a = All-insert_by key x (order_by key xs) a.0 (All-order_by key xs a.1)

pub exists-append {ℓ} :
    {A : Type ℓ} (q : A → Bool) (xs ys : List A) → exists q xs ≡ true → exists q (xs ++ ys) ≡ true
exists-append q [] ys e = absurd (ground (arith, e))
exists-append q (x ∷ xs) ys e = ground (arith, exists-append q xs ys, e)

pub All-append {ℓ κ} :
    {A : Type ℓ} (P : A → Type κ) (xs ys : List A) → All P xs → All P ys → All P (xs ++ ys)
All-append P [] ys a b = b
All-append P (x ∷ xs) ys a b = (a.0, All-append P xs ys a.1 b)

pub All-append_parts {ℓ κ} :
    {A : Type ℓ} (P : A → Type κ) (xs ys : List A) → All P (xs ++ ys) → All P xs × All P ys
All-append_parts P [] ys a = (tt, a)
All-append_parts P (x ∷ xs) ys a = let (b, c) = All-append_parts P xs ys a.1 in ((a.0, b), c)

pub exists-append_right {ℓ} :
    {A : Type ℓ} (q : A → Bool) (xs ys : List A) → exists q ys ≡ true → exists q (xs ++ ys) ≡ true
exists-append_right q [] ys e = e
exists-append_right q (x ∷ xs) ys e = ground (arith, exists-append_right q xs ys e)
