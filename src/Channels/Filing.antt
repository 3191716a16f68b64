-- ===== src/Channels/Filing.antt =====
-- handlers/channels.go: storeChannelReport and channelAccount. A phone is its hash; the coordinates of
-- the county's headquarters are an argument, and a request is one sequence of calls.
use aura_risk.Base.{
  ℕ, zero, suc, ◌+◌, Bool, false, not, ◌&&◌, Option, none, some, List, [], ◌∷◌, ◌++◌, ltb, leb,
  ◌==◌, if◌then◌else◌, length, Text, codes, text_eq, is_empty, null_if_empty, exists, find,
  count_rows, Flow, Run, ok, err, return, respond_error, query, exec, exec_returning, transaction,
  ◌>>=◌, ◌>>◌,
}
use aura_risk.Curation.{
  Category, flooding, water_rising, road_blocked, drainage_issue, Library, Place,
}
use aura_risk.Reports.{
  Report, Source, app, sms, ussd, Submission, Within, new_row, store_report, duplicate_in,
}
use aura_risk.Reports as Reports
use aura_risk.Channels.{kenya_counties, max_ward_bytes}

pub record Reporter : Type 0 where
  pub phone_hash : ℕ
  pub account_id : ℕ

pub record ChannelTables : Type 0 where
  pub reports : Reports.Tables
  pub reporters : List Reporter

-- An operation of Reports, over its tables.
unfoldable pub on_reports : {A : Type 0} → Flow Reports.Tables A → Flow ChannelTables A
on_reports m t f =
    let (r, u, g) = m t.reports f in (r, record { reports = u; reporters = t.reporters }, g)

abbrev pub of_phone : ℕ → Reporter → Bool
of_phone phone r = r.phone_hash == phone

unfoldable pub add_reporter : ℕ → ℕ → ChannelTables → ChannelTables
add_reporter phone account t = record {
  reports = t.reports;
  reporters =
      if exists (of_phone phone) t.reporters
      then t.reporters
      else record { phone_hash = phone; account_id = account } ∷ t.reporters;
}

abbrev pub theirs : Option Reporter → Flow ChannelTables ℕ
theirs none = respond_error 500 "internal server error"
theirs (some r) = return r.account_id

-- The rows of accounts are not kept here: a new one is its id.
unfoldable pub create_account : ℕ → ℕ → Flow ChannelTables Bool
create_account phone fresh = transaction (
    exec (λ t. t)
    >> exec_returning (λ t. not (exists (of_phone phone) t.reporters)) (add_reporter phone fresh))

unfoldable pub account_or_new : ℕ → ℕ → Option Reporter → Flow ChannelTables ℕ
account_or_new phone fresh (some r) = return r.account_id
account_or_new phone fresh none = create_account phone fresh >>= λ created.
    if created then return fresh else query (λ t. find (of_phone phone) t.reporters) >>= theirs

unfoldable pub channel_account : ℕ → ℕ → Flow ChannelTables ℕ
channel_account phone fresh =
    query (λ t. find (of_phone phone) t.reporters) >>= account_or_new phone fresh

abbrev pub by_account : ℕ → Option ℕ → Bool
by_account account none = false
by_account account (some a) = a == account

-- The count of the account's reports of the last hour.
unfoldable pub recent_reports : ℕ → ℕ → List Report → ℕ
recent_reports now account rs =
    count_rows (λ r. by_account account r.account_id && ltb now (r.created_at + 3600)) rs

abbrev pub category_label : Category → Text
category_label flooding = codes "Flooding"
category_label road_blocked = codes "Road blocked"
category_label water_rising = codes "Water rising"
category_label drainage_issue = codes "Drainage issue"

abbrev pub source_name : Source → Text
source_name app = codes "APP"
source_name sms = codes "SMS"
source_name ussd = codes "USSD"

abbrev pub cut_note : ℕ → Text → Text
cut_note zero t = []
cut_note (suc n) [] = []
cut_note (suc n) (c ∷ cs) = c ∷ cut_note n cs

abbrev pub index_of : ℕ → Text → List Text → Option ℕ
index_of i c [] = none
index_of i c (d ∷ ds) = if text_eq c d then some i else index_of (suc i) c ds

-- The report that a message makes; a county's number is that of its official order.
unfoldable pub channel_submission : ℕ → Place → Source → Text → Text → Category → Text → Submission
channel_submission account hq source county ward category note = record {
  location_name = if is_empty ward then county else ward ++ codes ", " ++ county;
  place = hq;
  category = category;
  note = cut_note 2000 (
      if is_empty note
      then category_label category ++ codes " reported by " ++ source_name source
      else note);
  account_id = some account;
  county = index_of 1 county kenya_counties;
  ward = null_if_empty ward;
  source = source;
}

pub data Filing : Type 0 where
  thanks failed too_many ward_too_long : Filing

module _ (lib : Library) (within : Within) where
  unfoldable pub store_for : ℕ → ℕ → ℕ → (ℕ → Submission) → ℕ → Flow ChannelTables Filing
  store_for now per_hour new_id submission account =
      query (λ t. recent_reports now account t.reports.reports) >>= λ recent.
      if leb per_hour recent
      then return too_many
      else on_reports (store_report lib within now new_id (submission account)) >>= λ stored.
          return thanks

  unfoldable pub reply_of : Run ChannelTables Filing → Filing × ChannelTables × List Bool
  reply_of (ok reply, t, f) = (reply, t, f)
  reply_of (err s m, t, f) = (failed, t, f)

  -- storeChannelReport
  unfoldable pub store_channel_report :
      ℕ
      → ℕ
      → ℕ
      → ℕ
      → ℕ
      → Place
      → Source
      → Text
      → Text
      → Category
      → Text
      → ChannelTables
      → List Bool
      → Filing × ChannelTables × List Bool
  store_channel_report now per_hour phone fresh new_id hq source county ward category note t f =
      if ltb max_ward_bytes (length ward)
      then (ward_too_long, t, f)
      else reply_of (
          (channel_account phone fresh
              >>= store_for now per_hour new_id
                  (λ account. channel_submission account hq source county ward category note))
            t f)
