-- ===== src/Photos.antt =====
-- aurarisk-backend/internal/handlers/photos.go: the upload of photos of a report. Times are
-- seconds. The object store's presigned URLs are left out but for their failure, and the keys of
-- objects stand for the strings that the code makes of a report's and a photo's id.
pub mod Worker
pub mod Counting
pub mod Claiming
pub mod Limit
pub mod Publishing
mod Examples
use aura_risk.Base.{
  ℕ, ◌+◌, ◌*◌, ◌^◌, Bool, true, false, not, ◌&&◌, ◌||◌, Option, none, some, List, [], ◌∷◌, ltb, leb,
  ◌==◌, if◌then◌else◌, Text, String, find, count_rows, exists, update, Result, ok, err, Flow, ◌>>=◌,
  ◌>>◌, return, respond_error, require, query, exec, exec_unless, exec_returning, transaction,
  internal_error,
}

pub data PhotoStatus : Type 0 where
  pending_upload processing ready rejected failed : PhotoStatus

pub data ObjectKey : Type 0 where
  quarantine large thumb : ℕ → ℕ → ObjectKey

-- report_photos
pub record Photo : Type 0 where
  pub id : ℕ
  pub report_id : ℕ
  pub account_id : ℕ
  pub status : PhotoStatus
  pub size_bytes : ℕ
  pub quarantine_key : ObjectKey
  pub large_key : Option ObjectKey
  pub thumb_key : Option ObjectKey
  pub attempts : ℕ
  pub locked_until : Option ℕ
  pub rejection_reason : Option Text
  pub created_at : ℕ
  pub updated_at : ℕ

-- The id and the author of a row of community_reports.
pub record Authored : Type 0 where
  pub id : ℕ
  pub author : Option ℕ

pub record Tables : Type 0 where
  pub reports : List Authored
  pub photos : List Photo

abbrev pub max_photo_bytes : ℕ
max_photo_bytes = 10 * 2 ^ 20

abbrev pub max_photos_per_report : ℕ
max_photos_per_report = 4

abbrev pub photo_upload_ttl : ℕ
photo_upload_ttl = 15 * 60

-- The WHERE clause of CreatePhotoUpload's count, but for the report.
abbrev pub is_counted : ℕ → PhotoStatus → ℕ → Bool
is_counted now processing created = true
is_counted now ready created = true
is_counted now pending_upload created = ltb now (created + photo_upload_ttl)
is_counted now rejected created = false
is_counted now failed created = false

abbrev pub counts : ℕ → ℕ → Photo → Bool
counts now report p = p.report_id == report && is_counted now p.status p.created_at

pub record PhotoUploadRequest : Type 0 where
  pub type_allowed : Bool
  pub size_bytes : ℕ

abbrev pub is_author : ℕ → Option ℕ → Bool
is_author account none = false
is_author account (some a) = a == account

abbrev pub new_photo : ℕ → ℕ → ℕ → ℕ → ℕ → Photo
new_photo now photo report account size = record {
  id = photo;
  report_id = report;
  account_id = account;
  status = pending_upload;
  size_bytes = size;
  quarantine_key = quarantine report photo;
  large_key = none;
  thumb_key = none;
  attempts = 0;
  locked_until = none;
  rejection_reason = none;
  created_at = now;
  updated_at = now;
}

abbrev pub found_or_404 : {A : Type 0} → String → Option A → Flow Tables A
found_or_404 what none = respond_error 404 what
found_or_404 what (some a) = return a

-- PresignPut: whether it gives a URL.
abbrev pub presign : Bool → Flow Tables (Unit {0})
presign true = return tt
presign false = λ t f. (internal_error, t, f)

-- The body of CreatePhotoUpload's transaction; the photo's id comes from the database.
unfoldable pub upload_body : ℕ → ℕ → ℕ → ℕ → ℕ → Bool → Flow Tables ℕ
upload_body now photo account report size presigned = do
  found ← query (λ t. find (λ r. r.id == report) t.reports)
  r ← found_or_404 "report not found" found
  require (is_author account r.author) 403 "only the report author can attach photos"
  count ← query (λ t. count_rows (counts now report) t.photos)
  require (ltb count max_photos_per_report) 409 "a report can have at most 4 photos"
  exec_unless (λ t. exists (λ p. p.id == photo) t.photos)
      (λ t. record t { photos = new_photo now photo report account size ∷ t.photos })
  presign presigned
  return photo

unfoldable pub create_upload : ℕ → ℕ → ℕ → ℕ → ℕ → Bool → Flow Tables ℕ
create_upload now photo account report size presigned =
    transaction (upload_body now photo account report size presigned)

-- CreatePhotoUpload, given whether there is a store; the report is `none` if it is no UUID, the
-- request if the body does not bind.
unfoldable pub create_photo_upload :
    ℕ → ℕ → ℕ → Bool → Option ℕ → Option PhotoUploadRequest → Bool → Flow Tables ℕ
create_photo_upload now photo account false report req presigned =
    respond_error 503 "photo uploads are not configured"
create_photo_upload now photo account true none req presigned = respond_error 404 "report not found"
create_photo_upload now photo account true (some report) none presigned =
    respond_error 400 "invalid request body"
create_photo_upload now photo account true (some report) (some req) presigned = do
  require req.type_allowed 400 "content_type must be image/jpeg, image/png, or image/webp"
  require (ltb 0 req.size_bytes && leb req.size_bytes max_photo_bytes) 400
      "size_bytes is out of range"
  create_upload now photo account report req.size_bytes presigned

abbrev pub is_expired : ℕ → ℕ → Bool
is_expired now created = leb (created + photo_upload_ttl) now

abbrev pub completed : ℕ → PhotoStatus → ℕ → PhotoStatus
completed now pending_upload created = if is_expired now created then pending_upload else processing
completed now status created = status

abbrev pub is_pending : PhotoStatus → Bool
is_pending pending_upload = true
is_pending status = false

-- The SET clause of CompletePhotoUpload.
unfoldable pub complete_row : ℕ → Photo → Photo
complete_row now p = record p {
  status = completed now p.status p.created_at;
  updated_at =
      if is_pending p.status && not (is_expired now p.created_at) then now else p.updated_at;
}

abbrev pub owned : ℕ → ℕ → Photo → Bool
owned account photo p = p.id == photo && p.account_id == account

-- The answer, on the row that the UPDATE returns: its status.
abbrev pub answer_complete : ℕ → Photo → Flow Tables PhotoStatus
answer_complete now p =
    if is_pending p.status && is_expired now p.created_at
    then respond_error 410 "upload slot expired; request a new one"
    else return p.status

-- CompletePhotoUpload
unfoldable pub complete_photo_upload : ℕ → ℕ → Option ℕ → Flow Tables PhotoStatus
unfolding complete_row
complete_photo_upload now account none = respond_error 404 "photo not found"
complete_photo_upload now account (some photo) = do
  found ←
      exec_returning
        (λ t. find (owned account photo) (update (owned account photo) (complete_row now) t.photos))
        (λ t. record t { photos = update (owned account photo) (complete_row now) t.photos })
  p ← found_or_404 "photo not found" found
  answer_complete now p
