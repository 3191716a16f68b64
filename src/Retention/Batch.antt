-- ===== src/Retention/Batch.antt =====
-- retention.go: what one turn of cleanReports does to the tables and the store.
use aura_risk.Base.{
  ℕ, ◌≡◌, refl, subst, ◌∙◌, inl, inr, ◌⊎◌, Bool, true, false, not, ◌||◌, List, [], ◌∷◌, leb, ltb,
  ◌==◌, if◌then◌else◌, length, exists, delete, All, Flow, Result, ok, err, failing, ◌>>=◌, return,
  exec, chain-holds, chain-query, exec-holds, arith, Bool-cases, exists-delete, exists-delete_same,
}
use aura_risk.Photos.{ObjectKey}
use aura_risk.Retention.{
  ReportRow, Tables, RetentionPolicy, retention_batch, expired_reports, same_key, any_id,
  keys_of_group, store_delete, delete_all, delete_objects, deletable, goes, delete_reports,
  take_out, clean_listed, clean_batch,
}

-- No object that is not there comes back.
abbrev pub Shrinks : List ObjectKey → List ObjectKey → Type 0
Shrinks os os' = (k : ObjectKey) → exists (same_key k) os ≡ false → exists (same_key k) os' ≡ false

abbrev pub Absent : List ObjectKey → List ObjectKey → Type 0
Absent ks os = All (λ k. exists (same_key k) os ≡ false) ks

-- Only objects were deleted.
pub record IsFramed (t t' : Tables) : Type 0 where
  pub reports : t'.reports ≡ t.reports
  pub photos : t'.photos ≡ t.photos
  pub shrinks : Shrinks t.objects t'.objects

framed : (t : Tables) → IsFramed t t
framed t = record { reports = refl; photos = refl; shrinks = λ k e. e }

IsFramed-trans : (t u v : Tables) → IsFramed t u → IsFramed u v → IsFramed t v
IsFramed-trans t u v a b = record {
  reports = b.reports ∙ a.reports;
  photos = b.photos ∙ a.photos;
  shrinks = λ k e. b.shrinks k (a.shrinks k e);
}

pub Absent-Shrinks : (ks os os' : List ObjectKey) → Shrinks os os' → Absent ks os → Absent ks os'
Absent-Shrinks [] os os' s a = tt
Absent-Shrinks (k ∷ ks) os os' s a = (s k a.0, Absent-Shrinks ks os os' s a.1)

-- The end of a deletion: whether the objects are gone.
abbrev Gone : List ObjectKey → Tables → Result Bool → Tables → Type 0
Gone ks t (ok true) t' = IsFramed t t' × Absent ks t'.objects
Gone ks t _ t' = IsFramed t t'

store_delete_lem :
    (k : ObjectKey) (t : Tables) (f : List Bool)
    → Gone (k ∷ []) t (store_delete k t f).0 (store_delete k t f).1
unfolding store_delete
store_delete_lem k t f = elim (Bool-cases (failing f)) [
  | inl e ↦ rw e (framed t)
  | inr e ↦ rw e (
    record {
      reports = refl;
      photos = refl;
      shrinks = λ j h. exists-delete (same_key k) (same_key j) t.objects h;
    },
    (exists-delete_same (same_key k) t.objects, tt),
  )
]

delete_all_lem :
    (ks : List ObjectKey) (t : Tables) (f : List Bool)
    → Gone ks t (delete_all ks t f).0 (delete_all ks t f).1
unfolding delete_all
delete_all_lem [] t f = (framed t, tt)
delete_all_lem (k ∷ ks) t f =
    chain-holds (Gone (k ∷ []) t) (Gone (k ∷ ks) t) (store_delete k t f) _ (store_delete_lem k t f)
      (next (delete_all_lem ks)) (λ s m u q. q)
  where
    then_gone :
        (r : Result Bool) (u v : Tables)
        → IsFramed t u
        → Absent (k ∷ []) u.objects
        → Gone ks u r v
        → Gone (k ∷ ks) t r v
    then_gone (ok true) u v a b (c, d) = (IsFramed-trans t u v a c, (c.shrinks k b.0, d))
    then_gone (ok false) u v a b c = IsFramed-trans t u v a c
    then_gone (err s m) u v a b c = IsFramed-trans t u v a c

    next :
        ((u : Tables) (g : List Bool) → Gone ks u (delete_all ks u g).0 (delete_all ks u g).1)
        → (gone : Bool) (u : Tables) (g : List Bool) → Gone (k ∷ []) t (ok gone) u
        → Gone
            (k ∷ ks)
            t
            ((elim gone as (λ _. Flow Tables Bool) [ true ↦ delete_all ks | false ↦ return false ])
              u g).0
            ((elim gone as (λ _. Flow Tables Bool) [ true ↦ delete_all ks | false ↦ return false ])
              u g).1
    next rest true u g (a, b) =
        then_gone (delete_all ks u g).0 u (delete_all ks u g).1 a b (rest u g)
    next rest false u g a = a

delete_objects_lem :
    (store : Bool) (ks : List ObjectKey) (t : Tables) (f : List Bool)
    → Gone ks t (delete_objects store ks t f).0 (delete_objects store ks t f).1
unfolding delete_objects
delete_objects_lem store [] t f = (framed t, tt)
delete_objects_lem false (k ∷ ks) t f = framed t
delete_objects_lem true (k ∷ ks) t f = delete_all_lem (k ∷ ks) t f

-- The end of the loop over the groups: of the reports left, no object is.
abbrev Left :
    (ℕ → List ObjectKey) → List ReportRow → Tables → Result (List ReportRow) → Tables → Type 0
Left keys es t (ok rest) t' =
    IsFramed t t'
    × ((i : ℕ) → any_id rest i ≡ true → any_id es i ≡ true)
    × ((i : ℕ) → any_id rest i ≡ true → Absent (keys i) t'.objects)
Left keys es t _ t' = IsFramed t t'

Absent-at :
    (keys : ℕ → List ObjectKey) (os : List ObjectKey) (i j : ℕ)
    → (i == j) ≡ true
    → Absent (keys i) os
    → Absent (keys j) os
Absent-at keys os i j e a = subst (λ n. Absent (keys n) os) (ground (arith, e)) a

deletable_lem :
    (store : Bool) (keys : ℕ → List ObjectKey) (es : List ReportRow) (t : Tables) (f : List Bool)
    → Left keys es t (deletable store keys es t f).0 (deletable store keys es t f).1
unfolding deletable
deletable_lem store keys [] t f = (framed t, λ i e. e, λ i e. absurd (ground (arith, e)))
deletable_lem store keys (e ∷ es) t f =
    chain-holds (Gone (keys e.id) t) (Left keys (e ∷ es) t) (delete_objects store (keys e.id) t f) _
      (delete_objects_lem store (keys e.id) t f)
      (λ gone u g q.
        chain-holds (Left keys es u) (Left keys (e ∷ es) t) (deletable store keys es u g) _
          (deletable_lem store keys es u g) (λ rest v h r. added gone rest u v q r)
          (λ s m v r. IsFramed-trans t u v (frame_of gone u q) r))
      (λ s m u q. q)
  where
    frame_of : (gone : Bool) (u : Tables) → Gone (keys e.id) t (ok gone) u → IsFramed t u
    frame_of true u q = q.0
    frame_of false u q = q

    added :
        (gone : Bool) (rest : List ReportRow) (u v : Tables)
        → Gone (keys e.id) t (ok gone) u
        → Left keys es u (ok rest) v
        → Left keys (e ∷ es) t (ok (if gone then e ∷ rest else rest)) v
    added false rest u v q (r, within, absent) =
        (IsFramed-trans t u v q r, λ i h. ground (arith, within i, h), absent)
    added true rest u v (q, a) (r, within, absent) = (
      IsFramed-trans t u v q r,
      λ i h. ground (arith, within i, h),
      λ i h. elim (Bool-cases (e.id == i)) [
        | inl same ↦
            Absent-at keys v.objects e.id i same
              (Absent-Shrinks (keys e.id) u.objects v.objects r.shrinks a)
        | inr other ↦ absent i (ground (arith, h, other))
      ],
    )

-- A turn that deletes rows: of the expired reports of the batch, some are removed, and no object of
-- their photos, nor of their duplicates' that are not in the batch, is left.
pub record IsCut (p : RetentionPolicy) (now : ℕ) (t : Tables) (remove : List ReportRow)
    (t' : Tables) : Type 0 where
  pub reports : t'.reports ≡ delete (goes remove) t.reports
  pub photos : t'.photos ≡ (delete_reports remove t).photos
  pub shrinks : Shrinks t.objects t'.objects
  pub within : (i : ℕ) → any_id remove i ≡ true → any_id (expired_reports p now t.reports) i ≡ true
  pub absent :
      (i : ℕ)
      → any_id remove i ≡ true
      → Absent (keys_of_group (expired_reports p now t.reports) t.reports t.photos i) t'.objects

abbrev pub Turned : RetentionPolicy → ℕ → Tables → Tables → Type 0
Turned p now t t' = IsFramed t t' ⊎ ((remove : List ReportRow) × IsCut p now t remove t')

module _ (p : RetentionPolicy) (store : Bool) (now : ℕ) (t : Tables) where
  abbrev batch : List ReportRow
  batch = expired_reports p now t.reports

  abbrev group_keys : ℕ → List ObjectKey
  group_keys = keys_of_group batch t.reports t.photos

  cut :
      (remove : List ReportRow) (u : Tables)
      → Left group_keys batch t (ok remove) u
      → Turned p now t (delete_reports remove u)
  unfolding delete_reports
  cut remove u (fr, within, absent) = inr (
    remove,
    record {
      reports = rw fr.reports refl;
      photos = rw (fr.reports, fr.photos) refl;
      shrinks = fr.shrinks;
      within = within;
      absent = absent;
    },
  )

  take_out-Turned :
      (remove : List ReportRow) (u : Tables) (f : List Bool)
      → Left group_keys batch t (ok remove) u
      → Turned p now t (take_out batch remove u f).1
  unfolding take_out
  take_out-Turned remove u f q = elim (Bool-cases (leb (length remove) 0)) [
    | inl e ↦ rw e (inl q.0)
    | inr e ↦ rw e (
        chain-holds (λ _. Turned p now t) (λ _. Turned p now t) (exec (delete_reports remove) u f)
          (λ _.
            return (not (ltb (length remove) (length batch) || ltb (length batch) retention_batch)))
          (exec-holds (λ _. Turned p now t) (delete_reports remove) u f (cut remove u q) (inl q.0))
          (λ a v g r. r) (λ s m v r. r))
  ]

  clean_listed-Turned : (f : List Bool) → Turned p now t (clean_listed store batch t f).1
  unfolding clean_listed
  clean_listed-Turned f = elim (Bool-cases (leb (length batch) 0)) [
    | inl e ↦ rw e (inl (framed t))
    | inr e ↦ rw e (
        chain-query (λ _. Turned p now t) (λ u. keys_of_group batch u.reports u.photos) t f
          (λ keys. deletable store keys batch >>= take_out batch)
          (λ g.
            chain-holds (Left group_keys batch t) (λ _. Turned p now t)
              (deletable store group_keys batch t g) (take_out batch)
              (deletable_lem store group_keys batch t g)
              (λ remove u h q. take_out-Turned remove u h q) (λ s m u q. inl q))
          (inl (framed t)))
  ]

  pub clean_batch-Turned : (f : List Bool) → Turned p now t (clean_batch p store now t f).1
  unfolding clean_batch
  clean_batch-Turned f =
      chain-query (λ _. Turned p now t) (λ u. expired_reports p now u.reports) t f
        (clean_listed store) clean_listed-Turned (inl (framed t))
