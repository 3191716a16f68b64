-- ===== src/Retention.antt =====
-- aurarisk-backend/internal/workers/retention.go: what is deleted when it is old. A report's row has
-- here the columns that the worker reads; its photos are those of Photos. The object store is the
-- list of the objects that are there: a call to delete one fails, and then leaves it, or it is gone.
-- A run is one sequence of calls, between which no other worker acts; a map is gone through in the
-- order of its rows.
pub mod Batch
pub mod Kept
pub mod Objects
mod Examples
use aura_risk.Base.{
  limit, order_by, ℕ, zero, suc, ◌+◌, ◌*◌, ◌<◌, ◌≡◌, Bool, true, false, not, ◌&&◌, ◌||◌, Option,
  none, some, List, [], ◌∷◌, ◌++◌, ltb, leb, ◌==◌, if◌then◌else◌, length, find, exists, select,
  delete, Flow, Run, ok, err, failing, later, internal_error, ◌>>=◌, ◌>>◌, return, query, exec,
  chain,
}
use aura_risk.Curation.{ModerationStatus, pending, verified, rejected}
use aura_risk.Photos.{Photo, PhotoStatus, pending_upload, ObjectKey, quarantine, large, thumb}

pub record ReportRow : Type 0 where
  pub id : ℕ
  pub created_at : ℕ
  pub duplicate_of : Option ℕ
  pub moderation_status : ModerationStatus
  pub status_updated_at : ℕ

pub record Tables : Type 0 where
  pub reports : List ReportRow
  pub photos : List Photo
  pub objects : List ObjectKey

-- Durations in seconds, of which 0 keeps the data.
pub record RetentionPolicy : Type 0 where
  pub rejected_for : ℕ
  pub duplicate_for : ℕ
  pub pending_for : ℕ
  pub verified_for : ℕ
  pub abandoned_upload : ℕ
  pub failed_photo : ℕ

abbrev day : ℕ
day = 86400

abbrev pub default_retention_policy : RetentionPolicy
default_retention_policy = record {
  rejected_for = 30 * day;
  duplicate_for = 30 * day;
  pending_for = 180 * day;
  verified_for = 730 * day;
  abandoned_upload = day;
  failed_photo = 30 * day;
}

abbrev pub retention_batch : ℕ
retention_batch = 200

abbrev pub retention_max_batches : ℕ
retention_max_batches = 25

-- $n > 0 AND t < NOW() - make_interval(secs => $n)
unfoldable pub older : ℕ → ℕ → ℕ → Bool
older kept now t = ltb 0 kept && ltb (t + kept) now

-- The second CASE of expiredReports.
unfoldable pub expired : RetentionPolicy → ℕ → ReportRow → Bool
expired p now r = elim r.duplicate_of [
  | some d ↦ older p.duplicate_for now r.created_at
  | none ↦ elim r.moderation_status [
    | rejected ↦ older p.rejected_for now r.status_updated_at
    | pending ↦ older p.pending_for now r.created_at
    | verified ↦ older p.verified_for now r.created_at
  ]
]

unfoldable pub expired_reports : RetentionPolicy → ℕ → List ReportRow → List ReportRow
expired_reports p now rows =
    limit retention_batch (order_by (λ r. r.created_at) (select (expired p now) rows))

abbrev pub same_key : ObjectKey → ObjectKey → Bool
same_key (quarantine r p) (quarantine s q) = r == s && p == q
same_key (large r p) (large s q) = r == s && p == q
same_key (thumb r p) (thumb s q) = r == s && p == q
same_key _ _ = false

abbrev pub if_set : Option ObjectKey → List ObjectKey
if_set none = []
if_set (some k) = k ∷ []

-- The keys that photoKeys collects of a row.
unfoldable pub photo_keys : Photo → List ObjectKey
photo_keys p = p.quarantine_key ∷ if_set p.large_key ++ if_set p.thumb_key

-- id = ANY(ids)
abbrev pub any_id : List ReportRow → ℕ → Bool
any_id rows i = exists (λ r. r.id == i) rows

abbrev pub any_parent : List ReportRow → Option ℕ → Bool
any_parent rows none = false
any_parent rows (some d) = any_id rows d

-- The group of a photo's keys, by the joined report: the report, or what it is a duplicate of.
unfoldable pub group_of : List ReportRow → ReportRow → Option ℕ
group_of ids r =
    if any_id ids r.id
    then some r.id
    else if any_parent ids r.duplicate_of
    then r.duplicate_of
    else none

abbrev pub is_group : ℕ → Option ℕ → Bool
is_group i none = false
is_group i (some g) = g == i

abbrev pub in_group : List ReportRow → ℕ → Option ReportRow → Bool
in_group ids i none = false
in_group ids i (some r) = is_group i (group_of ids r)

unfoldable pub keys_of_group : List ReportRow → List ReportRow → List Photo → ℕ → List ObjectKey
keys_of_group ids rows [] i = []
keys_of_group ids rows (p ∷ ps) i =
    let rest = keys_of_group ids rows ps i in
    if in_group ids i (find (λ r. r.id == p.report_id) rows) then photo_keys p ++ rest else rest

-- Store.Delete: whether it went well, a missing object included.
unfoldable pub store_delete : ObjectKey → Flow Tables Bool
store_delete k t f = if failing f then (ok false, t, later f) else (
  ok true,
  record { reports = t.reports; photos = t.photos; objects = delete (same_key k) t.objects },
  later f,
)

-- deleteObjects
unfoldable pub delete_all : List ObjectKey → Flow Tables Bool
delete_all [] = return true
delete_all (k ∷ ks) =
    store_delete k >>= λ gone. elim gone [ true ↦ delete_all ks | false ↦ return false ]

unfoldable pub delete_objects : Bool → List ObjectKey → Flow Tables Bool
delete_objects store [] = return true
delete_objects false (k ∷ ks) = return false
delete_objects true (k ∷ ks) = delete_all (k ∷ ks)

-- The loop over keysByReport: the reports left in `deletable`. A report without photos has no
-- group, and stays in it, as one does whose keys are none.
unfoldable pub deletable :
    Bool → (ℕ → List ObjectKey) → List ReportRow → Flow Tables (List ReportRow)
deletable store keys [] = return []
deletable store keys (e ∷ es) = delete_objects store (keys e.id) >>= λ gone.
    deletable store keys es >>= λ rest. return (if gone then e ∷ rest else rest)

-- DELETE FROM community_reports WHERE id = ANY(...), with its ON DELETE CASCADE: duplicates go with
-- their report, and photos with theirs. findDuplicate names only a report that is no duplicate, so
-- that no duplicate has duplicates.
abbrev pub goes : List ReportRow → ReportRow → Bool
goes remove r = any_id remove r.id || any_parent remove r.duplicate_of

unfoldable pub delete_reports : List ReportRow → Tables → Tables
delete_reports remove t = record {
  reports = delete (goes remove) t.reports;
  photos = delete (λ p. exists (λ r. goes remove r && r.id == p.report_id) t.reports) t.photos;
  objects = t.objects;
}

-- The end of a turn: the removal, and whether to go on.
unfoldable pub take_out : List ReportRow → List ReportRow → Flow Tables Bool
take_out batch remove =
    if leb (length remove) 0
    then return false
    else exec (delete_reports remove)
      >> return (not (ltb (length remove) (length batch) || ltb (length batch) retention_batch))

unfoldable pub clean_listed : Bool → List ReportRow → Flow Tables Bool
clean_listed store batch =
    if leb (length batch) 0
    then return false
    else query (λ t. keys_of_group batch t.reports t.photos) >>= λ keys.
        deletable store keys batch >>= take_out batch

-- One turn of cleanReports.
unfoldable pub clean_batch : RetentionPolicy → Bool → ℕ → Flow Tables Bool
clean_batch p store now = query (λ t. expired_reports p now t.reports) >>= clean_listed store

unfoldable pub clean_batches : ℕ → RetentionPolicy → Bool → ℕ → Flow Tables (Unit {0})
clean_batches zero p store now = return tt
clean_batches (suc n) p store now = clean_batch p store now >>= λ more. elim more [
  | true ↦ clean_batches n p store now
  | false ↦ return tt
]

-- cleanReports
unfoldable pub clean_reports : RetentionPolicy → Bool → ℕ → Flow Tables (Unit {0})
clean_reports = clean_batches retention_max_batches

-- cleanPhotos
unfoldable pub expired_photo : RetentionPolicy → ℕ → Photo → Bool
expired_photo p now photo = elim photo.status [
  | pending_upload ↦ older p.abandoned_upload now photo.created_at
  | PhotoStatus.failed ↦ older p.failed_photo now photo.updated_at
  | PhotoStatus.rejected ↦ older p.failed_photo now photo.updated_at
  | _ ↦ false
]

unfoldable pub removable : Bool → List Photo → Flow Tables (List Photo)
removable store [] = return []
removable store (p ∷ ps) = delete_objects store (photo_keys p) >>= λ gone.
    removable store ps >>= λ rest. return (if gone then p ∷ rest else rest)

unfoldable pub delete_photos : List Photo → Tables → Tables
delete_photos remove t = record {
  reports = t.reports;
  photos = delete (λ p. exists (λ q. q.id == p.id) remove) t.photos;
  objects = t.objects;
}

unfoldable pub clean_photos : RetentionPolicy → Bool → ℕ → Flow Tables (Unit {0})
clean_photos p store now =
    query (λ t.
      limit retention_batch (order_by (λ q. q.created_at) (select (expired_photo p now) t.photos)))
    >>= λ batch. removable store batch >>= λ remove.
        if leb (length remove) 0 then return tt else exec (delete_photos remove)

-- RunOnce, once it has the lock.
unfoldable pub run_once : RetentionPolicy → Bool → ℕ → Flow Tables (Unit {0})
run_once p store now = clean_reports p store now >> clean_photos p store now
