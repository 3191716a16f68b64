-- ===== src/Retention/Kept.antt =====
-- retention.go: which reports stay.
use mathlib.Core.List.{Memᴰ}
use mathlib.Core.List.Memᴰ.{head, tail}
use aura_risk.Base.{
  order_by, exists-limit, exists-order_by, exists_selected, ℕ, zero, suc, ◌≡◌, refl, sym, ap, subst,
  inl, inr, Bool, true, false, ◌&&◌, Option, none, some, List, [], ◌∷◌, ◌==◌, exists, delete,
  select, return, chain-holds, Bool-cases, exists-delete,
}
use aura_risk.Retention.{
  ReportRow, Tables, RetentionPolicy, retention_batch, retention_max_batches, expired,
  expired_reports, any_id, any_parent, goes, clean_batch, clean_batches, clean_reports,
}
use aura_risk.Retention.Batch.{IsCut, Turned, clean_batch-Turned}

-- An expired report has this id.
abbrev pub doomed : RetentionPolicy → ℕ → List ReportRow → ℕ → Bool
doomed p now rows i = exists (λ r. expired p now r && r.id == i) rows

abbrev pub doomed_parent : RetentionPolicy → ℕ → List ReportRow → Option ℕ → Bool
doomed_parent p now rows none = false
doomed_parent p now rows (some d) = doomed p now rows d

pub any_id-doomed :
    (p : RetentionPolicy) (now : ℕ) (rows : List ReportRow) (i : ℕ)
    → any_id (expired_reports p now rows) i ≡ true
    → doomed p now rows i ≡ true
unfolding expired_reports
any_id-doomed p now rows i e =
    let named : ReportRow → Bool = λ r. r.id == i in
    let listed =
      exists-limit named retention_batch
        (order_by (λ r. r.created_at) (select (expired p now) rows)) e in
    exists_selected named (expired p now) rows (
      subst (λ b. b ≡ true)
        (exists-order_by named (λ r. r.created_at) (select (expired p now) rows)) listed)

pub Mem-delete {ℓ} :
    {A : Type ℓ} (q : A → Bool) (x : A) (xs : List A)
    → q x ≡ false
    → Memᴰ x xs
    → Memᴰ x (delete q xs)
Mem-delete q x [] e m = elim m [ ]
Mem-delete q x (y ∷ ys) e (head h) = elim (Bool-cases (q y)) [
  | inl f ↦ absurd (cc (ap q h, e, f))
  | inr f ↦ rw f (head h)
]
Mem-delete q x (y ∷ ys) e (tail m) = elim (Bool-cases (q y)) [
  | inl f ↦ rw f (Mem-delete q x ys e m)
  | inr f ↦ rw f (tail (Mem-delete q x ys e m))
]

-- The row is there, and no expired report has its id, or is the one that it duplicates.
abbrev pub Safe : RetentionPolicy → ℕ → ReportRow → List ReportRow → Type 0
Safe p now r rows =
    Memᴰ r rows
    × (doomed p now rows r.id ≡ false)
    × (doomed_parent p now rows r.duplicate_of ≡ false)

module _ (p : RetentionPolicy) (now : ℕ) where
  doomed_parent-delete :
      (q : ReportRow → Bool) (rows : List ReportRow) (d : Option ℕ)
      → doomed_parent p now rows d ≡ false
      → doomed_parent p now (delete q rows) d ≡ false
  doomed_parent-delete q rows none e = e
  doomed_parent-delete q rows (some d) e =
      exists-delete q (λ r. expired p now r && r.id == d) rows e

  not_removed :
      (t t' : Tables) (remove : List ReportRow) (i : ℕ)
      → IsCut p now t remove t'
      → doomed p now t.reports i ≡ false
      → any_id remove i ≡ false
  not_removed t t' remove i c e = elim (Bool-cases (any_id remove i)) [
    | inl f ↦ absurd (cc (any_id-doomed p now t.reports i (c.within i f), e))
    | inr f ↦ f
  ]

  no_parent_removed :
      (t t' : Tables) (remove : List ReportRow) (d : Option ℕ)
      → IsCut p now t remove t'
      → doomed_parent p now t.reports d ≡ false
      → any_parent remove d ≡ false
  no_parent_removed t t' remove none c e = refl
  no_parent_removed t t' remove (some d) c e = not_removed t t' remove d c e

  Turned-Safe :
      (r : ReportRow) (t t' : Tables)
      → Turned p now t t'
      → Safe p now r t.reports
      → Safe p now r t'.reports
  Turned-Safe r t t' (inl fr) s = subst (Safe p now r) (sym fr.reports) s
  Turned-Safe r t t' (inr (remove, c)) (m, a, b) = subst (Safe p now r) (sym c.reports) (
    Mem-delete (goes remove) r t.reports
        (rw (not_removed t t' remove r.id c a, no_parent_removed t t' remove r.duplicate_of c b)
          refl)
        m,
    exists-delete (goes remove) (λ s. expired p now s && s.id == r.id) t.reports a,
    doomed_parent-delete (goes remove) t.reports r.duplicate_of b,
  )

  clean_batches-Safe :
      (n : ℕ) (store : Bool) (r : ReportRow) (t : Tables) (f : List Bool)
      → Safe p now r t.reports
      → Safe p now r (clean_batches n p store now t f).1.reports
  unfolding clean_batches
  clean_batches-Safe zero store r t f s = s
  clean_batches-Safe (suc n) store r t f s =
      chain-holds (λ _ u. Safe p now r u.reports) (λ _ u. Safe p now r u.reports)
        (clean_batch p store now t f)
        (λ more. elim more [ true ↦ clean_batches n p store now | false ↦ return tt ])
        (Turned-Safe r t (clean_batch p store now t f).1 (clean_batch-Turned p store now t f) s)
        (λ more u g q. elim (Bool-cases more) [
          | inl e ↦ rw e (clean_batches-Safe n store r u g q)
          | inr e ↦ rw e q
        ])
        (λ s m u q. q)

-- Whatever fails, a report is still there after cleanReports if no report with its id has expired,
-- and none with the id of the report that it is a duplicate of.
pub clean_reports-Safe :
    (p : RetentionPolicy) (store : Bool) (now : ℕ) (r : ReportRow) (t : Tables) (f : List Bool)
    → Memᴰ r t.reports
    → doomed p now t.reports r.id ≡ false
    → doomed_parent p now t.reports r.duplicate_of ≡ false
    → Memᴰ r (clean_reports p store now t f).1.reports
unfolding clean_reports
clean_reports-Safe p store now r t f m a b =
    (clean_batches-Safe p now retention_max_batches store r t f (m, a, b)).0
