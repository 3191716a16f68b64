-- ===== src/Retention/Objects.antt =====
-- retention.go: the objects of the photos whose rows go with their reports.
use mathlib.Core.List.{Memᴰ}
use mathlib.Core.List.Memᴰ.{head, tail}
use aura_risk.Base.{
  All-append_parts, ℕ, zero, suc, ◌≡◌, refl, sym, ap, subst, ◌∙◌, inl, inr, ◌⊎◌, Bool, true, false,
  ◌&&◌, Option, none, some, some_eq, List, [], ◌∷◌, ◌==◌, find, exists, delete, return, chain-holds,
  arith, Bool-cases, exists-delete, Distinct, Distinct-delete,
}
use aura_risk.Photos.{Photo, ObjectKey}
use aura_risk.Retention.{
  ReportRow, Tables, RetentionPolicy, retention_max_batches, expired, expired_reports, same_key,
  photo_keys, any_id, any_parent, group_of, is_group, in_group, keys_of_group, goes, delete_reports,
  clean_batch, clean_batches, clean_reports,
}
use aura_risk.Retention.Batch.{IsCut, Turned, Shrinks, Absent, Absent-Shrinks, clean_batch-Turned}
use aura_risk.Retention.Kept.{doomed, any_id-doomed, Mem-delete}

find-delete {ℓ} :
    {A : Type ℓ} (q g : A → Bool) (x : A) (xs : List A)
    → find q xs ≡ some x
    → g x ≡ false
    → find q (delete g xs) ≡ some x
find-delete q g x [] e h = e
find-delete q g x (y ∷ ys) e h = elim (Bool-cases (q y)) [
  | inl hit ↦ elim (Bool-cases (g y)) [
    | inl out ↦ absurd (cc (ap g (some_eq (rw hit at e)), h, out))
    | inr stays ↦ rw (stays, hit) (rw hit at e)
  ]
  | inr miss ↦ elim (Bool-cases (g y)) [
    | inl out ↦ rw out (find-delete q g x ys (rw miss at e) h)
    | inr stays ↦ rw (stays, miss) (find-delete q g x ys (rw miss at e) h)
  ]
]

-- Of rows with different ids, no other has the id of one.
none_named :
    (g : ReportRow → Bool) (rows : List ReportRow) (i j : ℕ)
    → (j == i) ≡ true
    → exists (λ s. s.id == j) rows ≡ false
    → exists (λ s. g s && s.id == i) rows ≡ false
none_named g [] i j h e = refl
none_named g (x ∷ xs) i j h e = ground (arith, none_named g xs i j h, e)

only_one :
    (g : ReportRow → Bool) (r : ReportRow) (rows : List ReportRow) (i : ℕ)
    → Distinct (λ s. s.id) rows
    → find (λ s. s.id == i) rows ≡ some r
    → g r ≡ false
    → exists (λ s. g s && s.id == i) rows ≡ false
only_one g r [] i d e h = refl
only_one g r (x ∷ xs) i d e h = elim (Bool-cases (x.id == i)) [
  | inl hit ↦
      let same : g x ≡ g r = ap g (some_eq (rw hit at e)) in
      rw (same ∙ h) (none_named g xs i x.id hit d.0)
  | inr miss ↦ let rest = only_one g r xs i d.1 (rw miss at e) h in ground (arith, rest, miss)
]

-- A group's keys are those of its photos.
keys_in_group :
    (ids rows : List ReportRow) (i : ℕ) (photo : Photo) (photos : List Photo) (os : List ObjectKey)
    → Memᴰ photo photos
    → in_group ids i (find (λ r. r.id == photo.report_id) rows) ≡ true
    → Absent (keys_of_group ids rows photos i) os
    → Absent (photo_keys photo) os
unfolding keys_of_group
keys_in_group ids rows i photo [] os m e a = elim m [ ]
keys_in_group ids rows i photo (p ∷ ps) os (head h) e a =
    let here : in_group ids i (find (λ r. r.id == p.report_id) rows) ≡ true =
      subst (λ q. in_group ids i (find (λ r. r.id == q.report_id) rows) ≡ true) h e in
    subst (λ q. Absent (photo_keys q) os) (sym h)
      (All-append_parts (λ k. exists (same_key k) os ≡ false) (photo_keys p)
        (keys_of_group ids rows ps i) (rw here at a)).0
keys_in_group ids rows i photo (p ∷ ps) os (tail m) e a =
    keys_in_group ids rows i photo ps os m e
      (elim (Bool-cases (in_group ids i (find (λ r. r.id == p.report_id) rows))) [
        | inl f ↦
            (All-append_parts (λ k. exists (same_key k) os ≡ false) (photo_keys p)
              (keys_of_group ids rows ps i) (rw f at a)).1
        | inr f ↦ rw f at a
      ])

module _ (p : RetentionPolicy) (now : ℕ) (photo : Photo) (r : ReportRow) where
  -- The photo is a row of the report, which is not both expired and a duplicate.
  pub record IsOwned (t : Tables) : Type 0 where
    pub there : Memᴰ photo t.photos
    pub owner : find (λ s. s.id == photo.report_id) t.reports ≡ some r
    pub distinct : Distinct (λ s. s.id) t.reports
    pub single : (r.duplicate_of ≡ none) ⊎ (doomed p now t.reports r.id ≡ false)

  own_group :
      (t : Tables) (remove : List ReportRow) (t' : Tables)
      → IsOwned t
      → IsCut p now t remove t'
      → any_id remove r.id ≡ true
      → Absent (photo_keys photo) t'.objects
  unfolding group_of
  own_group t remove t' o c e =
      keys_in_group (expired_reports p now t.reports) t.reports r.id photo t.photos t'.objects
        o.there (rw o.owner (own (c.within r.id e))) (c.absent r.id e)
    where
      own :
          any_id (expired_reports p now t.reports) r.id ≡ true
          → is_group r.id (group_of (expired_reports p now t.reports) r) ≡ true
      own h = rw (group_of, h) (ground arith)

  parent_group :
      (t : Tables) (remove : List ReportRow) (t' : Tables) (d : ℕ)
      → IsOwned t
      → IsCut p now t remove t'
      → r.duplicate_of ≡ some d
      → any_id remove d ≡ true
      → Absent (photo_keys photo) t'.objects
  unfolding group_of
  parent_group t remove t' d o c h e =
      keys_in_group batch t.reports d photo t.photos t'.objects o.there
        (rw o.owner (parents (c.within d e))) (c.absent d e)
    where
      batch : List ReportRow
      batch = expired_reports p now t.reports

      not_listed : any_id batch r.id ≡ false
      not_listed = elim o.single [
        | inl no_parent ↦ absurd (ground (arith, no_parent, h))
        | inr lives ↦ elim (Bool-cases (any_id batch r.id)) [
          | inl f ↦ absurd (cc (any_id-doomed p now t.reports r.id f, lives))
          | inr f ↦ f
        ]
      ]

      parents : any_id batch d ≡ true → is_group d (group_of batch r) ≡ true
      parents f = rw (group_of, not_listed, h, f) (ground arith)

  Turned-IsOwned :
      (t t' : Tables)
      → Turned p now t t'
      → IsOwned t
      → IsOwned t' ⊎ Absent (photo_keys photo) t'.objects
  unfolding delete_reports
  Turned-IsOwned t t' (inl fr) o = inl (record {
    there = subst (Memᴰ photo) (sym fr.photos) o.there;
    owner = rw fr.reports o.owner;
    distinct = rw fr.reports o.distinct;
    single = rw fr.reports o.single;
  })
  Turned-IsOwned t t' (inr (remove, c)) o = elim (Bool-cases (any_id remove r.id)) [
    | inl e ↦ inr (own_group t remove t' o c e)
    | inr e ↦ elim (Bool-cases (any_parent remove r.duplicate_of)) [
      | inl f ↦ inr (by_parent r.duplicate_of refl f)
      | inr f ↦ inl (stays (rw (e, f) refl))
    ]
  ]
    where
      by_parent :
          (d : Option ℕ)
          → r.duplicate_of ≡ d
          → any_parent remove d ≡ true
          → Absent (photo_keys photo) t'.objects
      by_parent none h f = absurd (ground (arith, f))
      by_parent (some d) h f = parent_group t remove t' d o c h f

      stays : goes remove r ≡ false → IsOwned t'
      stays e = record {
        there = subst (Memᴰ photo) (sym c.photos) (
            Mem-delete (λ q. exists (λ s. goes remove s && s.id == q.report_id) t.reports) photo
              t.photos (only_one (goes remove) r t.reports photo.report_id o.distinct o.owner e)
              o.there);
        owner =
            rw c.reports
              (find-delete (λ s. s.id == photo.report_id) (goes remove) r t.reports o.owner e);
        distinct = rw c.reports (Distinct-delete (λ s. s.id) (goes remove) t.reports o.distinct);
        single = elim o.single [
          | inl h ↦ inl h
          | inr h ↦ inr (
              rw c.reports
                (exists-delete (goes remove) (λ s. expired p now s && s.id == r.id) t.reports h))
        ];
      }

  Turned-Shrinks : (t t' : Tables) → Turned p now t t' → Shrinks t.objects t'.objects
  Turned-Shrinks t t' (inl fr) = fr.shrinks
  Turned-Shrinks t t' (inr (remove, c)) = c.shrinks

  -- The photo's row is still there, or none of its objects.
  abbrev Cleared : Tables → Type 0
  Cleared t = IsOwned t ⊎ Absent (photo_keys photo) t.objects

  Turned-Cleared : (t t' : Tables) → Turned p now t t' → Cleared t → Cleared t'
  Turned-Cleared t t' u (inl o) = Turned-IsOwned t t' u o
  Turned-Cleared t t' u (inr a) =
      inr (Absent-Shrinks (photo_keys photo) t.objects t'.objects (Turned-Shrinks t t' u) a)

  clean_batches-Cleared :
      (n : ℕ) (store : Bool) (t : Tables) (f : List Bool)
      → Cleared t
      → Cleared (clean_batches n p store now t f).1
  unfolding clean_batches
  clean_batches-Cleared zero store t f c = c
  clean_batches-Cleared (suc n) store t f c =
      chain-holds (λ _. Cleared) (λ _. Cleared) (clean_batch p store now t f)
        (λ more. elim more [ true ↦ clean_batches n p store now | false ↦ return tt ])
        (Turned-Cleared t (clean_batch p store now t f).1 (clean_batch-Turned p store now t f) c)
        (λ more u g q. elim (Bool-cases more) [
          | inl e ↦ rw e (clean_batches-Cleared n store u g q)
          | inr e ↦ rw e q
        ])
        (λ s m u q. q)

-- Whatever fails, and with a store or without, after cleanReports a photo's row is still there or
-- none of its objects is in the store; of a photo whose report is not both expired and a duplicate.
pub clean_reports-Absent :
    (p : RetentionPolicy) (store : Bool) (now : ℕ) (photo : Photo) (r : ReportRow) (t : Tables)
    (f : List Bool)
    → IsOwned p now photo r t
    → Memᴰ photo (clean_reports p store now t f).1.photos
      ⊎ Absent (photo_keys photo) (clean_reports p store now t f).1.objects
unfolding clean_reports
clean_reports-Absent p store now photo r t f o =
    elim (clean_batches-Cleared p now photo r retention_max_batches store t f (inl o)) [
      | inl kept ↦ inl kept.there
      | inr gone ↦ inr gone
    ]
