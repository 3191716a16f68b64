-- ===== src/Photos/Limit.antt =====
-- photos.go, of the handlers and of the workers: how many photos a report has.
use aura_risk.Base.{
  always, ◌>>=◌, ℕ, ◌≤◌, ◌<◌, ◌≡◌, refl, ◌⊎◌, inl, inr, subst, Bool, true, false, ◌&&◌, Option,
  none, some, List, [], ◌∷◌, ltb, leb, ◌==◌, find, exists, count_rows, update, failing, later,
  transaction-cases, arith, Bool-cases, Option-cases,
}
use aura_risk.Photos.{
  Photo, Tables, PhotoUploadRequest, counts, max_photos_per_report, new_photo, upload_body,
  create_upload, create_photo_upload, complete_row, owned, complete_photo_upload, found_or_404,
  answer_complete, is_pending, is_expired, max_photo_bytes,
}
use aura_risk.Photos.Worker.{Services, drain_once}
use aura_risk.Photos.Counting.{has_id, IsLimited, update-IsLimited, IsLimited-later}
use aura_risk.Photos.Claiming.{drain_once-IsLimited}

-- What the upload's transaction leaves.
upload_cases :
    (now photo account report size : ℕ) (presigned : Bool) (t : Tables) (f : List Bool)
    → ((create_upload now photo account report size presigned t f).1 ≡ t)
      ⊎ ((exists (has_id photo) t.photos ≡ false)
          × (count_rows (counts now report) t.photos < max_photos_per_report)
          × ((create_upload now photo account report size presigned t f).1
              ≡ record t { photos = new_photo now photo report account size ∷ t.photos }))
unfolding create_upload
upload_cases now photo account report size presigned t f =
    elim (transaction-cases (upload_body now photo account report size presigned) t f) [
      | inl same ↦ inl same
      | inr (a, done, same, _) ↦ elim (Option-cases (find (λ r. r.id == report) t.reports)) [
        | inl gone ↦ absurd (unfold upload_body in ground arith)
        | inr (r, there) ↦ inr (unfold upload_body in ground arith)
      ]
    ]

create_upload-IsLimited :
    (now photo account report size : ℕ) (presigned : Bool) (t : Tables) (f : List Bool)
    → IsLimited now t
    → IsLimited now (create_upload now photo account report size presigned t f).1
create_upload-IsLimited now photo account report size presigned t f l =
    elim (upload_cases now photo account report size presigned t f) [
      | inl same ↦ rw same l
      | inr (new, room, same) ↦ rw same (record {
        distinct = (new, l.distinct);
        limited = λ r. elim (Bool-cases (report == r)) [
          | inl hit ↦
              let room' : count_rows (counts now r) t.photos < max_photos_per_report =
                subst (λ i. count_rows (counts now i) t.photos < max_photos_per_report)
                  (ground arith) room in
              ground arith
          | inr miss ↦ ground (arith, l.limited r)
        ];
      })
    ]

create_photo_upload-IsLimited :
    (now photo account : ℕ) (store : Bool) (report : Option ℕ) (req : Option PhotoUploadRequest)
    (presigned : Bool) (t : Tables) (f : List Bool)
    → IsLimited now t
    → IsLimited now (create_photo_upload now photo account store report req presigned t f).1
unfolding create_photo_upload
create_photo_upload-IsLimited now photo account false report req presigned t f l = l
create_photo_upload-IsLimited now photo account true none req presigned t f l = l
create_photo_upload-IsLimited now photo account true (some report) none presigned t f l = l
create_photo_upload-IsLimited now photo account true (some report) (some req) presigned t f l =
    elim (Bool-cases req.type_allowed) [
      | inr bad ↦ rw bad l
      | inl good ↦
          rw good (elim (Bool-cases (ltb 0 req.size_bytes && leb req.size_bytes max_photo_bytes)) [
            | inr bad ↦ rw bad l
            | inl fits ↦
                rw fits
                  (create_upload-IsLimited now photo account report req.size_bytes presigned t f l)
          ])
    ]

completed_counted :
    (now report : ℕ) (x : Photo)
    → counts now report (complete_row now x) ≡ true
    → counts now report x ≡ true
unfolding complete_row
completed_counted now report x e = ground arith

complete-IsLimited :
    (now account : ℕ) (photo : Option ℕ) (t : Tables) (f : List Bool)
    → IsLimited now t
    → IsLimited now (complete_photo_upload now account photo t f).1
unfolding complete_photo_upload
complete-IsLimited now account none t f l = l
complete-IsLimited now account (some photo) t f l = elim (Bool-cases (failing f)) [
  | inl bad ↦ rw bad l
  | inr good ↦ rw good (
      answered
        (find (owned account photo) (update (owned account photo) (complete_row now) t.photos)))
]
  where
    after : Tables
    after = record t { photos = update (owned account photo) (complete_row now) t.photos }

    kept : IsLimited now after
    kept =
        update-IsLimited (owned account photo) (complete_row now) now t
          (λ x. unfold complete_row in refl)
          (λ report. always _ t.photos λ x _ e. completed_counted now report x e) l

    answered :
        (o : Option Photo)
        → IsLimited now
            ((found_or_404 "photo not found" o >>= answer_complete now) after (later f)).1
    answered none = kept
    answered (some p) = elim (Bool-cases (is_pending p.status && is_expired now p.created_at)) [
      | inl gone ↦ rw gone kept
      | inr there ↦ rw there kept
    ]

-- What happens to photos: an upload is asked for, one is completed, the worker takes one up.
pub data Event : Type 0 where
  uploads : ℕ → ℕ → Bool → Option ℕ → Option PhotoUploadRequest → Bool → Event
  completes : ℕ → Option ℕ → Event
  drains : Services → Event

unfoldable pub happen : ℕ → Event → Tables → List Bool → Tables
happen now (uploads photo account store report req presigned) t f =
    (create_photo_upload now photo account store report req presigned t f).1
happen now (completes account photo) t f = (complete_photo_upload now account photo t f).1
happen now (drains s) t f = (drain_once s now t f).1

-- Events, each with its time and what the database does.
unfoldable pub happen_all : List (ℕ × Event × List Bool) → Tables → Tables
happen_all [] t = t
happen_all ((now, e, f) ∷ more) t = happen_all more (happen now e t f)

abbrev pub Ordered : ℕ → List (ℕ × Event × List Bool) → Type 0
Ordered n [] = Unit {0}
Ordered n ((now, e, f) ∷ more) = (n ≤ now) × Ordered now more

abbrev pub last_time : ℕ → List (ℕ × Event × List Bool) → ℕ
last_time n [] = n
last_time n ((now, e, f) ∷ more) = last_time now more

happen-IsLimited :
    (now : ℕ) (e : Event) (t : Tables) (f : List Bool)
    → IsLimited now t
    → IsLimited now (happen now e t f)
unfolding happen
happen-IsLimited now (uploads photo account store report req presigned) t f l =
    create_photo_upload-IsLimited now photo account store report req presigned t f l
happen-IsLimited now (completes account photo) t f l = complete-IsLimited now account photo t f l
happen-IsLimited now (drains s) t f l = drain_once-IsLimited s now t f l

-- From photos of distinct ids, of which no report has more than four that are processing, public,
-- or waiting for an upload whose time has not run out, every sequence of uploads asked for, uploads
-- completed and rounds of the worker, each one step, in the order of time and with any failures,
-- leads to such photos.
pub happen_all-IsLimited :
    (n : ℕ) (es : List (ℕ × Event × List Bool)) (t : Tables)
    → Ordered n es
    → IsLimited n t
    → IsLimited (last_time n es) (happen_all es t)
unfolding happen_all
happen_all-IsLimited n [] t o l = l
happen_all-IsLimited n ((now, e, f) ∷ more) t o l =
    happen_all-IsLimited now more (happen now e t f) o.1
      (happen-IsLimited now e t f (IsLimited-later n now t o.0 l))
