-- ===== src/Photos/Examples.antt =====
-- The photos at concrete inputs.
use aura_risk.Base.{ℕ, ◌≡◌, ◌⊎◌, Bool, true, none, some, List, [], ◌∷◌, codes, arith}
use aura_risk.Photos.{Photo, Tables, PhotoUploadRequest, processing, quarantine}
use aura_risk.Photos.Worker.{Services, found, clean, images, process_one}
use aura_risk.Photos.Publishing.{IsProcessed, process_one-IsProcessed}
use aura_risk.Photos.Counting.{IsLimited}
use aura_risk.Photos.Limit.{
  Event, uploads, completes, drains, happen_all, last_time, happen_all-IsLimited,
}

abbrev services : Services
services = record {
  get = λ k. found (codes "jpeg");
  scan = λ b. clean;
  process = λ b. images b [];
  put = λ k b. true;
}

abbrev waiting : Photo
waiting = record {
  id = 8;
  report_id = 1;
  account_id = 5;
  status = processing;
  size_bytes = 4;
  quarantine_key = quarantine 1 8;
  large_key = none;
  thumb_key = none;
  attempts = 1;
  locked_until = some 400;
  rejection_reason = none;
  created_at = 10;
  updated_at = 20;
}

abbrev one_photo : Tables
one_photo = record { reports = record { id = 1; author = some 5 } ∷ []; photos = waiting ∷ [] }

publishing_example :
    ((process_one services 100 waiting one_photo []).1 ≡ one_photo)
    ⊎ IsProcessed services waiting one_photo (process_one services 100 waiting one_photo []).1
publishing_example = process_one-IsProcessed services 100 waiting one_photo []

abbrev jpeg : PhotoUploadRequest
jpeg = record { type_allowed = true; size_bytes = 4 }

abbrev no_photos : Tables
no_photos = record { reports = record { id = 1; author = some 5 } ∷ []; photos = [] }

abbrev five_uploads : List (ℕ × Event × List Bool)
five_uploads =
    (10, uploads 1 5 true (some 1) (some jpeg) true, [])
    ∷ (11, uploads 2 5 true (some 1) (some jpeg) true, [])
    ∷ (20, completes 5 (some 1), [])
    ∷ (21, uploads 3 5 true (some 1) (some jpeg) true, [])
    ∷ (22, uploads 4 5 true (some 1) (some jpeg) true, [])
    ∷ (23, uploads 5 5 true (some 1) (some jpeg) true, [])
    ∷ (30, drains services, [])
    ∷ []

limit_example : IsLimited (last_time 0 five_uploads) (happen_all five_uploads no_photos)
limit_example =
    happen_all-IsLimited 0 five_uploads no_photos
      (
        omega arith,
        (
          omega arith,
          (omega arith, (omega arith, (omega arith, (omega arith, (omega arith, tt))))),
        ),
      )
      (record { distinct = tt; limited = λ report. omega arith })
