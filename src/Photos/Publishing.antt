-- ===== src/Photos/Publishing.antt =====
-- workers/photos.go: what becomes public.
use aura_risk.Base.{
  later, ℕ, ◌≤◌, ◌≡◌, refl, ◌⊎◌, inl, inr, Bool, true, some, List, ltb, ◌==◌, Text, length, update,
  Flow, failing, arith, Bool-cases,
}
use aura_risk.Photos.{Photo, PhotoStatus, ready, rejected, failed, large, thumb, Tables}
use aura_risk.Photos.Worker.{
  Got, found, not_found, unavailable, Scanned, clean, scan_failed, infected, Processed, images,
  unsupported, process_failed, Services, max_photo_attempts, finish_row, finish, retry_row, retry,
  publish_row, mark_ready, publish, after_process, after_scan, after_get, process_one,
}

-- The upload is as large as declared, the scanner found it clean, it is an image, and both sizes
-- of it are stored, all within the attempts allowed.
pub record IsPublic (s : Services) (photo : Photo) : Type 0 where
  pub bytes : Text
  pub big : Text
  pub small : Text
  pub attempts : photo.attempts ≤ max_photo_attempts
  pub uploaded : s.get photo.quarantine_key ≡ found bytes
  pub size : length bytes ≡ photo.size_bytes
  pub harmless : s.scan bytes ≡ clean
  pub resized : s.process bytes ≡ images big small
  pub stored_large : s.put (large photo.report_id photo.id) big ≡ true
  pub stored_thumb : s.put (thumb photo.report_id photo.id) small ≡ true

-- What may become of a row: its status stays, or it is rejected or fails for a reason, or it is
-- published under its own keys.
pub data Outcome (s : Services) (photo r r' : Photo) : Type 0 where
  stays : r'.status ≡ r.status → r'.large_key ≡ r.large_key → Outcome s photo r r'
  refused :
      (reason : Text)
      → (r'.status ≡ rejected) ⊎ (r'.status ≡ failed)
      → r'.rejection_reason ≡ some reason
      → Outcome s photo r r'
  published :
      IsPublic s photo
      → r'.status ≡ ready
      → r'.large_key ≡ some (large photo.report_id photo.id)
      → r'.thumb_key ≡ some (thumb photo.report_id photo.id)
      → Outcome s photo r r'

-- An operation leaves the tables alone, or updates the photo's row to one of the outcomes.
pub record IsProcessed (s : Services) (photo : Photo) (t t' : Tables) : Type 0 where
  pub change : Photo → Photo
  pub result : t' ≡ record t { photos = update (λ p. p.id == photo.id) change t.photos }
  pub same_id : (r : Photo) → (change r).id ≡ r.id
  pub same_report : (r : Photo) → (change r).report_id ≡ r.report_id
  pub outcome : (r : Photo) → Outcome s photo r (change r)

module _ (s : Services) (now : ℕ) (photo : Photo) (t : Tables) (f : List Bool) where
  abbrev Done : Flow Tables (Unit {0}) → Type 0
  Done m = ((m t f).1 ≡ t) ⊎ IsProcessed s photo t (m t f).1

  finish-Done :
      (status : PhotoStatus) (reason : Text)
      → (status ≡ rejected) ⊎ (status ≡ failed)
      → Done (finish now photo status reason)
  unfolding finish
  finish-Done status reason final = elim (Bool-cases (failing f)) [
    | inl bad ↦ inl (rw bad)
    | inr good ↦ inr (record {
      change = finish_row now status reason;
      result = rw good;
      same_id = λ r. unfold finish_row in refl;
      same_report = λ r. unfold finish_row in refl;
      outcome = λ r. unfold finish_row in refused reason final refl;
    })
  ]

  retry-Done : Done (retry now photo)
  unfolding retry
  retry-Done = elim (Bool-cases (failing f)) [
    | inl bad ↦ inl (rw bad)
    | inr good ↦ inr (record {
      change = retry_row now photo.attempts;
      result = rw good;
      same_id = λ r. unfold retry_row in refl;
      same_report = λ r. unfold retry_row in refl;
      outcome = λ r. unfold retry_row in stays refl refl;
    })
  ]

  publish_row-published :
      IsPublic s photo → (r : Photo) → Outcome s photo r (publish_row now photo r)
  unfolding publish_row
  publish_row-published p r = published p refl refl refl

module _ (s : Services) (now : ℕ) (photo : Photo) (t : Tables) (f : List Bool) where
  mark_ready-Done : IsPublic s photo → Done s now photo t f (mark_ready now photo)
  unfolding mark_ready
  mark_ready-Done p = elim (Bool-cases (failing f)) [
    | inl bad ↦ rw bad (retry-Done s now photo t (later f))
    | inr good ↦ inr (record {
      change = publish_row now photo;
      result = rw good;
      same_id = λ r. unfold publish_row in refl;
      same_report = λ r. unfold publish_row in refl;
      outcome = publish_row-published s now photo t f p;
    })
  ]

  module _ (bytes : Text) (fits : photo.attempts ≤ max_photo_attempts)
      (got : s.get photo.quarantine_key ≡ found bytes) (size : length bytes ≡ photo.size_bytes)
      (safe : s.scan bytes ≡ clean) where
    publish-Done :
        (big small : Text)
        → s.process bytes ≡ images big small
        → Done s now photo t f (publish s now photo big small)
    unfolding publish
    publish-Done big small made = elim (Bool-cases (s.put (large photo.report_id photo.id) big)) [
      | inr bad ↦ rw bad (retry-Done s now photo t f)
      | inl first ↦ rw first (elim (Bool-cases (s.put (thumb photo.report_id photo.id) small)) [
        | inr bad ↦ rw bad (retry-Done s now photo t f)
        | inl second ↦ rw second (
            mark_ready-Done (record {
              bytes = bytes;
              big = big;
              small = small;
              attempts = fits;
              uploaded = got;
              size = size;
              harmless = safe;
              resized = made;
              stored_large = first;
              stored_thumb = second;
            }))
      ])
    ]

    after_process-Done :
        (p : Processed) → s.process bytes ≡ p → Done s now photo t f (after_process s now photo p)
    unfolding after_process
    after_process-Done (images big small) made = publish-Done big small made
    after_process-Done (unsupported reason) made =
        finish-Done s now photo t f rejected reason (inl refl)
    after_process-Done process_failed made = retry-Done s now photo t f

  after_scan-Done :
      (bytes : Text) (x : Scanned)
      → photo.attempts ≤ max_photo_attempts
      → s.get photo.quarantine_key ≡ found bytes
      → length bytes ≡ photo.size_bytes
      → s.scan bytes ≡ x
      → Done s now photo t f (after_scan s now photo bytes x)
  unfolding after_scan
  after_scan-Done bytes clean fits got size safe =
      after_process-Done bytes fits got size safe (s.process bytes) refl
  after_scan-Done bytes scan_failed fits got size safe = retry-Done s now photo t f
  after_scan-Done bytes (infected signature) fits got size safe =
      finish-Done s now photo t f rejected _ (inl refl)

  after_get-Done :
      (g : Got)
      → photo.attempts ≤ max_photo_attempts
      → s.get photo.quarantine_key ≡ g
      → Done s now photo t f (after_get s now photo g)
  unfolding after_get
  after_get-Done not_found fits got = finish-Done s now photo t f rejected _ (inl refl)
  after_get-Done unavailable fits got = retry-Done s now photo t f
  after_get-Done (found bytes) fits got = elim (Bool-cases (length bytes == photo.size_bytes)) [
    | inr other ↦ rw other (finish-Done s now photo t f rejected _ (inl refl))
    | inl same ↦ rw same (after_scan-Done bytes (s.scan bytes) fits got (ground arith) refl)
  ]

  -- Processing a photo, whatever the database and the services do, changes at most the rows with
  -- its id; a row's status stays, or it is rejected or fails with a reason, or it is published,
  -- which happens only to an upload of the declared size that the scanner found clean and whose
  -- two images are stored.
  pub process_one-IsProcessed :
      ((process_one s now photo t f).1 ≡ t) ⊎ IsProcessed s photo t (process_one s now photo t f).1
  unfolding process_one
  process_one-IsProcessed = elim (Bool-cases (ltb max_photo_attempts photo.attempts)) [
    | inl many ↦ rw many (finish-Done s now photo t f failed _ (inr refl))
    | inr fits ↦ rw fits (after_get-Done (s.get photo.quarantine_key) (ground arith) refl)
  ]
