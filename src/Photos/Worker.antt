-- ===== src/Photos/Worker.antt =====
-- aurarisk-backend/internal/workers/photos.go: scanning, resizing and publishing an uploaded photo.
-- The store, the scanner and the image library are parameters; the context is not cancelled.
use aura_risk.Base.{
  ℕ, ◌+◌, ◌*◌, ◌^◌, Bool, true, false, not, ◌&&◌, Option, none, some, List, [], ◌∷◌, ◌++◌, ltb,
  ◌==◌, if◌then◌else◌, Text, codes, length, update, Result, ok, err, Flow, ◌>>=◌, ◌>>◌, logged,
  return, exec, exec_returning,
}
use aura_risk.Photos.{
  Photo, PhotoStatus, processing, ready, rejected, failed, ObjectKey, large, thumb, Tables,
}

abbrev pub max_photo_attempts : ℕ
max_photo_attempts = 5

abbrev pub photo_lease : ℕ
photo_lease = 5 * 60

-- What Store.Get, Scanner.Scan and services.ProcessImage give.
pub data Got : Type 0 where
  found : Text → Got
  not_found unavailable : Got

pub data Scanned : Type 0 where
  clean scan_failed : Scanned
  infected : Text → Scanned

pub data Processed : Type 0 where
  images : Text → Text → Processed
  unsupported : Text → Processed
  process_failed : Processed

-- The calls of one photo's processing; `put` says whether storing under a key succeeds.
pub record Services : Type 0 where
  pub get : ObjectKey → Got
  pub scan : Text → Scanned
  pub process : Text → Processed
  pub put : ObjectKey → Text → Bool

abbrev pub is_processing : PhotoStatus → Bool
is_processing processing = true
is_processing status = false

abbrev pub is_free : ℕ → Option ℕ → Bool
is_free now none = true
is_free now (some until) = ltb until now

-- The WHERE clause of claim's inner query.
unfoldable pub claimable : ℕ → Photo → Bool
claimable now p = is_processing p.status && is_free now p.locked_until

-- ORDER BY updated_at LIMIT 1
abbrev pub older : Photo → Option Photo → Option Photo
older p none = some p
older p (some q) = if ltb q.updated_at p.updated_at then some q else some p

unfoldable pub oldest : (Photo → Bool) → List Photo → Option Photo
oldest test [] = none
oldest test (p ∷ ps) = let rest = oldest test ps in if test p then older p rest else rest

unfoldable pub lease_row : ℕ → Photo → Photo
lease_row now p = record p { locked_until = some (now + photo_lease); attempts = p.attempts + 1 }

abbrev pub lease_oldest : ℕ → Option Photo → List Photo → List Photo
lease_oldest now none ps = ps
lease_oldest now (some q) ps = update (λ p. p.id == q.id) (lease_row now) ps

abbrev pub leased : ℕ → Option Photo → Option Photo
leased now none = none
leased now (some q) = some (lease_row now q)

-- claim
unfoldable pub claim : ℕ → Flow Tables (Option Photo)
unfolding lease_row
claim now =
    exec_returning (λ t. leased now (oldest (claimable now) t.photos))
      (λ t. record t { photos = lease_oldest now (oldest (claimable now) t.photos) t.photos })

-- finish; deleting the quarantined object is left to the store.
unfoldable pub finish_row : ℕ → PhotoStatus → Text → Photo → Photo
finish_row now status reason p = record p {
  status = status;
  rejection_reason = some reason;
  locked_until = none;
  updated_at = now;
}

unfoldable pub finish : ℕ → Photo → PhotoStatus → Text → Flow Tables (Unit {0})
finish now photo status reason = logged (
    exec λ t. record t {
      photos = update (λ p. p.id == photo.id) (finish_row now status reason) t.photos;
    })

abbrev pub backoff : ℕ → ℕ
backoff attempts = 2 ^ attempts * 30

unfoldable pub retry_row : ℕ → ℕ → Photo → Photo
retry_row now attempts p = record p { locked_until = some (now + backoff attempts) }

-- retry
unfoldable pub retry : ℕ → Photo → Flow Tables (Unit {0})
retry now photo = logged (
    exec λ t. record t {
      photos = update (λ p. p.id == photo.id) (retry_row now photo.attempts) t.photos;
    })

unfoldable pub publish_row : ℕ → Photo → Photo → Photo
publish_row now photo p = record p {
  status = ready;
  large_key = some (large photo.report_id photo.id);
  thumb_key = some (thumb photo.report_id photo.id);
  locked_until = none;
  updated_at = now;
}

-- A statement whose failure the caller handles by `retry`.
abbrev pub or_retry :
    ℕ → Photo → Result (Unit {0}) × Tables × List Bool → Result (Unit {0}) × Tables × List Bool
or_retry now photo (ok a, t, f) = (ok a, t, f)
or_retry now photo (err s m, t, f) = retry now photo t f

unfoldable pub mark_ready : ℕ → Photo → Flow Tables (Unit {0})
mark_ready now photo t f = or_retry now photo (
    exec
      (λ t. record t { photos = update (λ p. p.id == photo.id) (publish_row now photo) t.photos }) t
      f)

-- The two calls of Store.Put and the row's publication.
unfoldable pub publish : Services → ℕ → Photo → Text → Text → Flow Tables (Unit {0})
publish s now photo big small =
    if not (s.put (large photo.report_id photo.id) big)
    then retry now photo
    else if not (s.put (thumb photo.report_id photo.id) small)
    then retry now photo
    else mark_ready now photo

unfoldable pub after_process : Services → ℕ → Photo → Processed → Flow Tables (Unit {0})
after_process s now photo (images big small) = publish s now photo big small
after_process s now photo (unsupported reason) = finish now photo rejected reason
after_process s now photo process_failed = retry now photo

unfoldable pub after_scan : Services → ℕ → Photo → Text → Scanned → Flow Tables (Unit {0})
after_scan s now photo bytes scan_failed = retry now photo
after_scan s now photo bytes (infected signature) =
    finish now photo rejected (codes "malware detected: " ++ signature)
after_scan s now photo bytes clean = after_process s now photo (s.process bytes)

unfoldable pub after_get : Services → ℕ → Photo → Got → Flow Tables (Unit {0})
after_get s now photo not_found = finish now photo rejected (codes "upload not found")
after_get s now photo unavailable = retry now photo
after_get s now photo (found bytes) =
    if not (length bytes == photo.size_bytes)
    then finish now photo rejected (codes "uploaded size does not match declared size")
    else after_scan s now photo bytes (s.scan bytes)

-- ProcessOne
unfoldable pub process_one : Services → ℕ → Photo → Flow Tables (Unit {0})
process_one s now photo =
    if ltb max_photo_attempts photo.attempts
    then finish now photo failed (codes "too many processing attempts")
    else after_get s now photo (s.get photo.quarantine_key)

-- One round of drain's loop: whether there was a photo.
abbrev pub process_claimed : Services → ℕ → Option Photo → Flow Tables Bool
process_claimed s now none = return false
process_claimed s now (some photo) = do process_one s now photo; return true

unfoldable pub drain_once : Services → ℕ → Flow Tables Bool
drain_once s now = do photo ← claim now; process_claimed s now photo
