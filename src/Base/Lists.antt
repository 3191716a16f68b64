-- ===== src/Base/Lists.antt =====
-- Lists measured by native numbers, under the library's names, and tables: a table is the list of
-- its rows, and an SQL statement selects, updates or deletes by a Boolean test on rows.
use Prim.Native.Nat.{ℕ, suc, ◌+◌}
use mathlib.Core.Path.{◌≡◌, refl, subst}
use mathlib.Core.Bool.{Bool, true, false}
use mathlib.Core.List.{List, [], ◌∷◌, ◌++◌}
use mathlib.Core.Option.{Option, none, some}
use native.Mathlib.Omega.{arith}
use aura_risk.Base.Tests.{if◌then◌else◌, Bool-cases}
use mathlib.Core.Logic.{inl, inr}

module _ {ℓ} {A : Type ℓ} where
  abbrev pub length : List A → ℕ
  length [] = 0
  length (x ∷ xs) = suc (length xs)

  pub length-append : (xs ys : List A) → length (xs ++ ys) ≡ length xs + length ys
  length-append [] ys = omega arith
  length-append (x ∷ xs) ys = omega (arith, length-append xs ys)

  -- The rows that a test holds of.
  abbrev pub select : (A → Bool) → List A → List A
  select p [] = []
  select p (x ∷ xs) = if p x then x ∷ select p xs else select p xs

  -- The first row that a test holds of.
  abbrev pub find : (A → Bool) → List A → Option A
  find p [] = none
  find p (x ∷ xs) = if p x then some x else find p xs

  abbrev pub exists : (A → Bool) → List A → Bool
  exists p [] = false
  exists p (x ∷ xs) = if p x then true else exists p xs

  abbrev pub count_rows : (A → Bool) → List A → ℕ
  count_rows p [] = 0
  count_rows p (x ∷ xs) = if p x then suc (count_rows p xs) else count_rows p xs

  abbrev pub update : (A → Bool) → (A → A) → List A → List A
  update p f [] = []
  update p f (x ∷ xs) = (if p x then f x else x) ∷ update p f xs

  abbrev pub delete : (A → Bool) → List A → List A
  delete p [] = []
  delete p (x ∷ xs) = if p x then delete p xs else x ∷ delete p xs

  -- A predicate of every row.
  abbrev pub All {κ} : (A → Type κ) → List A → Type κ
  All P [] = Unit
  All P (x ∷ xs) = P x × All P xs

pub some_eq {ℓ} : {A : Type ℓ} {a b : A} → some a ≡ some b → a ≡ b
some_eq e = cc

module _ {ℓ κ} {A : Type ℓ} (P : A → Type κ) where
  pub All-update :
      (p : A → Bool) (f : A → A) (xs : List A)
      → ((x : A) → P x → p x ≡ true → P (f x))
      → All P xs
      → All P (update p f xs)
  All-update p f [] h all = tt
  All-update p f (x ∷ xs) h all = (head (p x) refl, All-update p f xs h all.1)
    where
      head : (b : Bool) → p x ≡ b → P (if b then f x else x)
      head true e = h x all.0 e
      head false e = all.0

  pub All-select : (p : A → Bool) (xs : List A) → All P xs → All P (select p xs)
  All-select p [] all = tt
  All-select p (x ∷ xs) all = rest (p x) (All-select p xs all.1)
    where
      rest : (b : Bool) → All P (select p xs) → All P (if b then x ∷ select p xs else select p xs)
      rest true ih = (all.0, ih)
      rest false ih = ih

  pub All-delete : (p : A → Bool) (xs : List A) → All P xs → All P (delete p xs)
  All-delete p [] all = tt
  All-delete p (x ∷ xs) all = rest (p x) (All-delete p xs all.1)
    where
      rest : (b : Bool) → All P (delete p xs) → All P (if b then delete p xs else x ∷ delete p xs)
      rest true ih = ih
      rest false ih = (all.0, ih)

  -- The row that `find` gives is in the table and passes the test.
  pub All-find :
      (p : A → Bool) (xs : List A) (x : A) → All P xs → find p xs ≡ some x → P x × (p x ≡ true)
  All-find p [] x all e = cc
  All-find p (y ∷ xs) x all e = elim (Bool-cases (p y)) [
    | inl hit ↦ subst (λ z. P z × (p z ≡ true)) (some_eq (rw hit at e)) (all.0, hit)
    | inr miss ↦ All-find p xs x all.1 (rw miss at e)
  ]

pub All-imp {ℓ κ κ'} :
    {A : Type ℓ} {P : A → Type κ} {Q : A → Type κ'} (xs : List A)
    → ((x : A) → P x → Q x)
    → All P xs
    → All Q xs
All-imp [] h all = tt
All-imp (x ∷ xs) h all = (h x all.0, All-imp xs h all.1)

pub always {ℓ κ} : {A : Type ℓ} (P : A → Type κ) (xs : List A) → ((x : A) → P x) → All P xs
always P [] h = tt
always P (x ∷ xs) h = (h x, always P xs h)
