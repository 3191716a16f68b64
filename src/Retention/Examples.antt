-- ===== src/Retention/Examples.antt =====
-- retention.go at concrete inputs.
use mathlib.Core.List.{Memᴰ}
use mathlib.Core.List.Memᴰ.{head, tail}
use aura_risk.Base.{ℕ, ◌≡◌, refl, inr, ◌⊎◌, true, false, Option, none, some, [], ◌∷◌, map}
use aura_risk.Curation.{ModerationStatus, pending, rejected}
use aura_risk.Photos.{Photo, quarantine, new_photo}
use aura_risk.Retention.{
  ReportRow, Tables, RetentionPolicy, older, expired, expired_reports, expired_photo, photo_keys,
  group_of, keys_of_group, store_delete, delete_all, delete_objects, deletable, delete_reports,
  take_out, clean_listed, clean_batch, clean_batches, clean_reports, clean_photos, removable,
  delete_photos,
}
use aura_risk.Retention.Batch.{Absent}
use aura_risk.Retention.Kept.{clean_reports-Safe}
use aura_risk.Retention.Objects.{clean_reports-Absent}

abbrev report : ℕ → ℕ → Option ℕ → ModerationStatus → ReportRow
report i created duplicate status = record {
  id = i;
  created_at = created;
  duplicate_of = duplicate;
  moderation_status = status;
  status_updated_at = created;
}

abbrev policy : RetentionPolicy
policy = record {
  rejected_for = 10;
  duplicate_for = 10;
  pending_for = 50;
  verified_for = 100;
  abandoned_upload = 5;
  failed_photo = 10;
}

-- A report that was rejected long ago, its duplicate, and a pending one.
abbrev old_report : ReportRow
old_report = report 1 20 none rejected

abbrev duplicate : ReportRow
duplicate = report 2 85 (some 1) pending

abbrev recent : ReportRow
recent = report 3 80 none pending

abbrev photo_of : ℕ → ℕ → Photo
photo_of i r = new_photo 86 i r 7 1000

abbrev tables : Tables
tables = record {
  reports = old_report ∷ duplicate ∷ recent ∷ [];
  photos = photo_of 11 1 ∷ photo_of 12 2 ∷ photo_of 13 3 ∷ [];
  objects = quarantine 1 11 ∷ quarantine 2 12 ∷ quarantine 3 13 ∷ [];
}

cleaned :
    (map (λ r. r.id) (clean_reports policy true 90 tables []).1.reports ≡ 3 ∷ [])
    × ((clean_reports policy true 90 tables []).1.objects ≡ quarantine 3 13 ∷ [])
unfolding clean_reports clean_batches clean_batch clean_listed take_out delete_reports deletable
    delete_objects delete_all store_delete keys_of_group group_of photo_keys expired_reports expired
    older
cleaned = (refl, refl)

-- Without a store a report with photos stays.
blocked : map (λ r. r.id) (clean_reports policy false 90 tables []).1.reports ≡ 1 ∷ 2 ∷ 3 ∷ []
unfolding clean_reports clean_batches clean_batch clean_listed take_out delete_reports deletable
    delete_objects delete_all store_delete keys_of_group group_of photo_keys expired_reports expired
    older
blocked = refl

-- Where the duplicate has expired too and its object cannot be deleted, its rows go with its report
-- all the same, and the object stays: the third call to the driver that deletes fails.
orphaned :
    (map
        (λ q. q.id)
        (clean_reports policy true 99 tables (false ∷ false ∷ false ∷ true ∷ [])).1.photos
      ≡ 13 ∷ [])
    × ((clean_reports policy true 99 tables (false ∷ false ∷ false ∷ true ∷ [])).1.objects
        ≡ quarantine 2 12 ∷ quarantine 3 13 ∷ [])
unfolding clean_reports clean_batches clean_batch clean_listed take_out delete_reports deletable
    delete_objects delete_all store_delete keys_of_group group_of photo_keys expired_reports expired
    older
orphaned = (refl, refl)

swept : map (λ q. q.id) (clean_photos policy true 92 tables []).1.photos ≡ []
unfolding clean_photos removable delete_photos expired_photo delete_objects delete_all store_delete
    photo_keys older
swept = refl

kept_example :
    Memᴰ recent (clean_reports policy true 90 tables (false ∷ false ∷ true ∷ [])).1.reports
unfolding expired older
kept_example =
    clean_reports-Safe policy true 90 recent tables (false ∷ false ∷ true ∷ [])
      (tail (tail (head refl))) refl refl

objects_example :
    Memᴰ (photo_of 12 2) (clean_reports policy true 90 tables []).1.photos
    ⊎ Absent (photo_keys (photo_of 12 2)) (clean_reports policy true 90 tables []).1.objects
unfolding expired older
objects_example = clean_reports-Absent policy true 90 (photo_of 12 2) duplicate tables [] (record {
  there = tail (head refl);
  owner = refl;
  distinct = (refl, (refl, (refl, tt)));
  single = inr refl;
})
