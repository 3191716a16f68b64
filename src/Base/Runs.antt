-- ===== src/Base/Runs.antt =====
-- Handlers and workers over the database. A run takes the tables and what the environment decides
-- about the coming calls of the driver (`true`: the call fails), and gives a result, the tables
-- and the decisions left. A call that fails answers 500, as `internalError` does.
use mathlib.Core.Path.{◌≡◌, refl, sym, subst}
use mathlib.Core.Bool.{Bool, true, false}
use mathlib.Core.List.{List, [], ◌∷◌}
use Prim.Native.Nat.{ℕ}
use Prim.Native.String.{String}
use native.Mathlib.Omega.{arith}
use mathlib.Core.Logic.{◌⊎◌, inl, inr}
use aura_risk.Base.Tests.{if◌then◌else◌, Bool-cases}

-- `err s m` is `respondError(c, s, m)`.
pub data Result {ℓ} (A : Type ℓ) : Type ℓ where
  ok : A → Result A
  err : ℕ → String → Result A

abbrev pub Run : Type 0 → Type 0 → Type 0
Run T A = Result A × T × List Bool

abbrev pub Flow : Type 0 → Type 0 → Type 0
Flow T A = T → List Bool → Run T A

abbrev pub failing : List Bool → Bool
failing [] = false
failing (b ∷ bs) = b

abbrev pub later : List Bool → List Bool
later [] = []
later (b ∷ bs) = bs

abbrev pub internal_error {ℓ} : {A : Type ℓ} → Result A
internal_error = err 500 "internal server error"

module _ {T : Type 0} where
  abbrev pub chain : {A B : Type 0} → Run T A → (A → Flow T B) → Run T B
  chain (ok a, t, f) k = k a t f
  chain (err s m, t, f) k = (err s m, t, f)

  infixl 5 ◌>>=◌ ◌>>◌
  abbrev pub ◌>>=◌ : {A B : Type 0} → Flow T A → (A → Flow T B) → Flow T B
  ◌>>=◌ m k t f = chain (m t f) k

  abbrev pub ◌>>◌ : {B : Type 0} → Flow T (Unit {0}) → Flow T B → Flow T B
  ◌>>◌ m k = m >>= λ _. k

  abbrev pub return : {A : Type 0} → A → Flow T A
  return a t f = (ok a, t, f)

  abbrev pub respond_error : {A : Type 0} → ℕ → String → Flow T A
  respond_error s m t f = (err s m, t, f)

  abbrev pub require : Bool → ℕ → String → Flow T (Unit {0})
  require true s m t f = (ok tt, t, f)
  require false s m t f = (err s m, t, f)

  -- A statement that reads.
  abbrev pub query : {A : Type 0} → (T → A) → Flow T A
  query g t f = if failing f then (internal_error, t, later f) else (ok (g t), t, later f)

  -- A statement that writes.
  abbrev pub exec : (T → T) → Flow T (Unit {0})
  exec g t f = if failing f then (internal_error, t, later f) else (ok tt, g t, later f)

  -- A statement that writes and tells of the rows: RETURNING, or RowsAffected.
  abbrev pub exec_returning : {A : Type 0} → (T → A) → (T → T) → Flow T A
  exec_returning a g t f =
      if failing f then (internal_error, t, later f) else (ok (a t), g t, later f)

  -- A statement that writes, and that fails where it would break a constraint of the schema.
  abbrev pub exec_unless : (T → Bool) → (T → T) → Flow T (Unit {0})
  exec_unless broken g t f =
      if failing f
      then (internal_error, t, later f)
      else if broken t
      then (internal_error, t, later f)
      else (ok tt, g t, later f)

  -- The end of a transaction: the deferred `Rollback`, or `Commit`, which can fail.
  abbrev pub settle : {A : Type 0} → T → Run T A → Run T A
  settle before (err s m, t, f) = (err s m, before, f)
  settle before (ok a, t, f) =
      if failing f then (internal_error, before, later f) else (ok a, t, later f)

  -- `BeginTx`, the body, and the end.
  abbrev pub transaction : {A : Type 0} → Flow T A → Flow T A
  transaction body t f =
      if failing f then (internal_error, t, later f) else settle t (body t (later f))

  -- An operation whose failure is only logged.
  abbrev pub logged_run : Run T (Unit {0}) → Run T (Unit {0})
  logged_run (ok a, t, f) = (ok tt, t, f)
  logged_run (err s m, t, f) = (ok tt, t, f)

  abbrev pub logged : Flow T (Unit {0}) → Flow T (Unit {0})
  logged m t f = logged_run (m t f)

  settle-err :
      {A : Type 0} (t : T) (r : Run T A) {s : ℕ} {m : String}
      → (settle t r).0 ≡ err s m
      → (settle t r).1 ≡ t
  settle-err t (err s m, t', f) h = refl
  settle-err t (ok a, t', f) h = ground arith

  -- A transaction that does not end well leaves the tables as they were.
  pub transaction-err :
      {A : Type 0} (body : Flow T A) (t : T) (f : List Bool) {s : ℕ} {m : String}
      → (transaction body t f).0 ≡ err s m
      → (transaction body t f).1 ≡ t
  transaction-err body t f h = ground (arith, settle-err t (body t (later f)))

  settle-cases :
      {A : Type 0} (t : T) (r : Run T A)
      → ((settle t r).1 ≡ t)
        ⊎ ((a : A) × (r.0 ≡ ok a) × ((settle t r).1 ≡ r.1) × ((settle t r).0 ≡ ok a))
  settle-cases t (err s m, t', f) = inl refl
  settle-cases t (ok a, t', f) = elim (Bool-cases (failing f)) [
    | inl bad ↦ inl (rw bad)
    | inr good ↦ inr (a, refl, rw good, rw good)
  ]

  -- A transaction leaves the tables alone, or its body and the commit went well.
  pub transaction-cases :
      {A : Type 0} (body : Flow T A) (t : T) (f : List Bool)
      → ((transaction body t f).1 ≡ t)
        ⊎ ((a : A) × ((body t (later f)).0 ≡ ok a)
            × ((transaction body t f).1 ≡ (body t (later f)).1)
            × ((transaction body t f).0 ≡ ok a))
  transaction-cases body t f = elim (Bool-cases (failing f)) [
    | inl bad ↦ inl (rw bad)
    | inr good ↦ rw good (settle-cases t (body t (later f)))
  ]

-- A flow keeps a predicate of the tables, whatever its result and the driver's failures.
abbrev pub Preserves : {T A : Type 0} → (T → Type 0) → Flow T A → Type 0
Preserves {T} P m = (t : T) (f : List Bool) → P t → P (m t f).1

module _ {T : Type 0} (P : T → Type 0) where
  chain-Preserves :
      {A B : Type 0} (r : Run T A) (k : A → Flow T B)
      → P r.1
      → ((a : A) → Preserves P (k a))
      → P (chain r k).1
  chain-Preserves (ok a, t, f) k p h = h a t f p
  chain-Preserves (err s m, t, f) k p h = p

  pub bind-Preserves :
      {A B : Type 0} (m : Flow T A) (k : A → Flow T B)
      → Preserves P m
      → ((a : A) → Preserves P (k a))
      → Preserves P (m >>= k)
  bind-Preserves m k hm hk t f p = chain-Preserves (m t f) k (hm t f p) hk

  pub query-Preserves : {A : Type 0} (g : T → A) → Preserves P (query g)
  query-Preserves g t f p = elim (Bool-cases (failing f)) [
    | inl bad ↦ rw bad p
    | inr good ↦ rw good p
  ]

  pub exec-Preserves : (g : T → T) → ((t : T) → P t → P (g t)) → Preserves P (exec g)
  exec-Preserves g h t f p = elim (Bool-cases (failing f)) [
    | inl bad ↦ rw bad p
    | inr good ↦ rw good (h t p)
  ]

  logged_run-Preserves : (r : Run T (Unit {0})) → P r.1 → P (logged_run r).1
  logged_run-Preserves (ok a, t, f) p = p
  logged_run-Preserves (err s m, t, f) p = p

  pub logged-Preserves : (m : Flow T (Unit {0})) → Preserves P m → Preserves P (logged m)
  logged-Preserves m h t f p = logged_run-Preserves (m t f) (h t f p)

module _ {T : Type 0} where
  -- What holds at the end of a chain, from what holds at the end of its first part.
  pub chain-holds {κ κ'} :
      {A B : Type 0} (Q : Result A → T → Type κ) (R : Result B → T → Type κ') (r : Run T A)
      (k : A → Flow T B)
      → Q r.0 r.1
      → ((a : A) (t : T) (f : List Bool) → Q (ok a) t → R (k a t f).0 (k a t f).1)
      → ((s : ℕ) (m : String) (t : T) → Q (err s m) t → R (err s m) t)
      → R (chain r k).0 (chain r k).1
  chain-holds Q R (ok a, t, f) k q good bad = good a t f q
  chain-holds Q R (err s m, t, f) k q good bad = bad s m t q

  pub query-holds {κ} :
      {A : Type 0} (Q : Result A → T → Type κ) (g : T → A) (t : T) (f : List Bool)
      → Q (ok (g t)) t
      → Q internal_error t
      → Q (query g t f).0 (query g t f).1
  query-holds Q g t f good bad = elim (Bool-cases (failing f)) [
    | inl e ↦ rw e bad
    | inr e ↦ rw e good
  ]

  pub exec-holds {κ} :
      (Q : Result (Unit {0}) → T → Type κ) (g : T → T) (t : T) (f : List Bool)
      → Q (ok tt) (g t)
      → Q internal_error t
      → Q (exec g t f).0 (exec g t f).1
  exec-holds Q g t f good bad = elim (Bool-cases (failing f)) [
    | inl e ↦ rw e bad
    | inr e ↦ rw e good
  ]

  pub chain-query {κ} :
      {A B : Type 0} (R : Result B → T → Type κ) (g : T → A) (t : T) (f : List Bool)
      (k : A → Flow T B)
      → ((f' : List Bool) → R (k (g t) t f').0 (k (g t) t f').1)
      → R internal_error t
      → R (chain (query g t f) k).0 (chain (query g t f) k).1
  chain-query R g t f k good bad = elim (Bool-cases (failing f)) [
    | inl e ↦ rw e bad
    | inr e ↦ rw e (good (later f))
  ]

module _ {T : Type 0} (P : T → Type 0) where
  pub exec_returning-Preserves :
      {A : Type 0} (a : T → A) (g : T → T)
      → ((t : T) → P t → P (g t))
      → Preserves P (exec_returning a g)
  exec_returning-Preserves a g h t f p = elim (Bool-cases (failing f)) [
    | inl bad ↦ rw bad p
    | inr good ↦ rw good (h t p)
  ]

  pub transaction-Preserves :
      {A : Type 0} (body : Flow T A) → Preserves P body → Preserves P (transaction body)
  transaction-Preserves body h t f p = elim (transaction-cases body t f) [
    | inl e ↦ subst P (sym e) p
    | inr (a, _, e, _) ↦ subst P (sym e) (h t (later f) p)
  ]

  pub require-Preserves : (b : Bool) (s : ℕ) (m : String) → Preserves P (require b s m)
  require-Preserves true s m t f p = p
  require-Preserves false s m t f p = p
