-- ===== src/Photos/Counting.antt =====
-- photos.go: counting a report's photos, and what keeps the count within the limit.
use aura_risk.Base.{
  ℕ, ◌≤◌, ◌≡◌, Bool, true, List, [], ◌∷◌, ◌==◌, count_rows, update, Distinct, Distinct-update_key,
  All, arith,
}
use aura_risk.Photos.{Photo, Tables, counts, max_photos_per_report}

abbrev pub has_id : ℕ → Photo → Bool
has_id i p = p.id == i

-- Ids are distinct, and no report has more photos than a report may have.
pub record IsLimited (now : ℕ) (t : Tables) : Type 0 where
  pub distinct : Distinct (λ p. p.id) t.photos
  pub limited : (report : ℕ) → count_rows (counts now report) t.photos ≤ max_photos_per_report

module _ (p : Photo → Bool) (g : Photo → Photo) where
  count_update :
      (q : Photo → Bool) (ps : List Photo)
      → All (λ x. p x ≡ true → q (g x) ≡ true → q x ≡ true) ps
      → count_rows q (update p g ps) ≤ count_rows q ps
  count_update q [] h = omega arith
  count_update q (x ∷ ps) h = ground (arith, h.0, count_update q ps h.1)

  pub update-IsLimited :
      (now : ℕ) (t : Tables)
      → ((x : Photo) → (g x).id ≡ x.id)
      → ((report : ℕ)
          → All
              (λ x. p x ≡ true → counts now report (g x) ≡ true → counts now report x ≡ true)
              t.photos)
      → IsLimited now t
      → IsLimited now (record t { photos = update p g t.photos })
  update-IsLimited now t same h l = record {
    distinct = Distinct-update_key (λ x. x.id) p g t.photos same l.distinct;
    limited = λ report.
        omega (arith, count_update (counts now report) t.photos (h report), l.limited report);
  }

-- Time only takes photos from the count.
count_later :
    (n m report : ℕ) (ps : List Photo)
    → n ≤ m
    → count_rows (counts m report) ps ≤ count_rows (counts n report) ps
count_later n m report [] h = omega arith
count_later n m report (p ∷ ps) h = ground (arith, counted_before, count_later n m report ps h)
  where
    counted_before : counts m report p ≡ true → counts n report p ≡ true
    counted_before e = ground arith

pub IsLimited-later : (n m : ℕ) (t : Tables) → n ≤ m → IsLimited n t → IsLimited m t
IsLimited-later n m t h l = record {
  distinct = l.distinct;
  limited = λ report. omega (arith, count_later n m report t.photos h, l.limited report);
}
