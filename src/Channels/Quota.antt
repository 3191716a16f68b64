-- ===== src/Channels/Quota.antt =====
-- handlers/channels.go: the limit on the reports of a phone's account.
use aura_risk.Base.{
  exec_returning-Preserves, transaction-Preserves, ℕ, suc, ◌+◌, ◌≤◌, ◌<◌, ◌≡◌, refl, sym, subst,
  max, inl, inr, Bool, true, false, not, ◌&&◌, Option, none, some, List, ltb, leb, ◌==◌,
  if◌then◌else◌, length, Text, exists, find, Run, ok, err, return, query, exec, exec_returning,
  ◌>>=◌, ◌>>◌, Preserves, bind-Preserves, query-Preserves, exec-Preserves, chain-holds, chain-query,
  arith, Bool-cases,
}
use aura_risk.Curation.{Category, Library, Place}
use aura_risk.Reports.{Report, Source, Submission, Within, new_row, store_report, duplicate_in}
use aura_risk.Reports.Audit.{store_cases}
use aura_risk.Reports as Reports
use aura_risk.Channels.{max_ward_bytes}
use aura_risk.Channels.Filing.{
  Reporter, ChannelTables, on_reports, of_phone, add_reporter, theirs, create_account,
  account_or_new, channel_account, recent_reports, channel_submission, Filing, thanks, too_many,
  store_for, reply_of, store_channel_report,
}

module _ (rs : Reports.Tables) where
  -- The reports are these.
  abbrev Same : ChannelTables → Type 0
  Same t = t.reports ≡ rs

  create_account-Same : (phone fresh : ℕ) → Preserves Same (create_account phone fresh)
  unfolding create_account add_reporter
  create_account-Same phone fresh =
      transaction-Preserves Same
        (exec (λ t. t)
          >> exec_returning (λ t. not (exists (of_phone phone) t.reporters))
              (add_reporter phone fresh))
        (bind-Preserves Same (exec (λ t. t))
          (λ _.
            exec_returning (λ t. not (exists (of_phone phone) t.reporters))
              (add_reporter phone fresh))
          (exec-Preserves Same (λ t. t) (λ t e. e))
          (λ _.
            exec_returning-Preserves Same (λ t. not (exists (of_phone phone) t.reporters))
              (add_reporter phone fresh) (λ t e. e)))

  theirs-Same : (o : Option Reporter) → Preserves Same (theirs o)
  theirs-Same none t f e = e
  theirs-Same (some r) t f e = e

  chosen-Same :
      (phone fresh : ℕ) (created : Bool)
      → Preserves Same (
          if created
          then return fresh
          else query (λ t. find (of_phone phone) t.reporters) >>= theirs)
  chosen-Same phone fresh true = λ t f e. e
  chosen-Same phone fresh false =
      bind-Preserves Same (query (λ t. find (of_phone phone) t.reporters)) theirs
        (query-Preserves Same (λ t. find (of_phone phone) t.reporters)) theirs-Same

  account_or_new-Same :
      (phone fresh : ℕ) (o : Option Reporter) → Preserves Same (account_or_new phone fresh o)
  unfolding account_or_new
  account_or_new-Same phone fresh (some r) = λ t f e. e
  account_or_new-Same phone fresh none =
      bind-Preserves Same (create_account phone fresh)
        (λ created.
          if created
          then return fresh
          else query (λ t. find (of_phone phone) t.reporters) >>= theirs)
        (create_account-Same phone fresh) (chosen-Same phone fresh)

  channel_account-Same : (phone fresh : ℕ) → Preserves Same (channel_account phone fresh)
  unfolding channel_account
  channel_account-Same phone fresh =
      bind-Preserves Same (query (λ t. find (of_phone phone) t.reporters))
        (account_or_new phone fresh) (query-Preserves Same (λ t. find (of_phone phone) t.reporters))
        (account_or_new-Same phone fresh)

module _ (lib : Library) (within : Within) (now per_hour new_id a : ℕ) where
  -- The account's reports of the last hour are no more than they were, or than the limit.
  abbrev Limited : List Report → List Report → Type 0
  Limited before after = recent_reports now a after ≤ max (recent_reports now a before) per_hour

  store_report-Limited :
      (account : ℕ) (s : Submission) (t : Reports.Tables) (f : List Bool)
      → s.account_id ≡ some account
      → recent_reports now account t.reports < per_hour
      → Limited t.reports (store_report lib within now new_id s t f).1.reports
  unfolding recent_reports new_row
  store_report-Limited account s t f own few = elim (store_cases lib within now new_id s t f) [
    | inl e ↦ rw e (omega arith)
    | inr (_, e) ↦ rw (e, own) (one_more (account == a) refl)
  ]
    where
      one_more :
          (b : Bool)
          → (account == a) ≡ b
          → (if b && ltb now (now + 3600)
              then suc (recent_reports now a t.reports)
              else recent_reports now a t.reports)
            ≤ max (recent_reports now a t.reports) per_hour
      one_more true same =
          let few_own : recent_reports now a t.reports < per_hour =
            subst (λ j. recent_reports now j t.reports < per_hour) (ground (arith, same)) few in
          ground (arith, few_own)
      one_more false other = omega arith

  store_for-Limited :
      (submission : ℕ → Submission) (account : ℕ) (rs : Reports.Tables) (u : ChannelTables)
      (f : List Bool)
      → ((i : ℕ) → (submission i).account_id ≡ some i)
      → u.reports ≡ rs
      → Limited rs.reports
          (store_for lib within now per_hour new_id submission account u f).1.reports.reports
  unfolding store_for on_reports
  store_for-Limited submission account rs u f own same =
      chain-query (λ _ v. Limited rs.reports v.reports.reports)
        (λ t. recent_reports now account t.reports.reports) u f
        (λ recent.
          if leb per_hour recent
          then return too_many
          else on_reports (store_report lib within now new_id (submission account)) >>= λ stored.
              return thanks)
        (λ g. elim (Bool-cases (leb per_hour (recent_reports now account u.reports.reports))) [
          | inl enough ↦ rw (enough, same) (omega arith)
          | inr few ↦ rw few (
              chain-holds (λ _ v. Limited rs.reports v.reports.reports)
                (λ _ v. Limited rs.reports v.reports.reports)
                (on_reports (store_report lib within now new_id (submission account)) u g)
                (λ stored. return thanks)
                (subst
                  (λ ts.
                    Limited ts.reports
                      (store_report lib within now new_id (submission account) u.reports
                        g).1.reports)
                  same
                  (store_report-Limited account (submission account) u.reports g (own account)
                    (ground (arith, few))))
                (λ s v h q. q) (λ s m v q. q))
        ])
        (rw same (omega arith))

  reply_of-reports : (r : Run ChannelTables Filing) → (reply_of lib within r).1 ≡ r.1
  unfolding reply_of
  reply_of-reports (ok reply, t, f) = refl
  reply_of-reports (err s m, t, f) = refl

  -- A message by SMS or USSD never takes the reports of the last hour, of any account, over the limit
  -- of an account for an hour; those that were over it already do not grow. Whatever fails.
  pub store_channel_report-Limited :
      (phone fresh : ℕ) (hq : Place) (source : Source) (county ward : Text) (category : Category)
      (note : Text) (t : ChannelTables) (f : List Bool)
      → Limited t.reports.reports
          (store_channel_report lib within now per_hour phone fresh new_id hq source county ward
            category note t f).1.reports.reports
  unfolding store_channel_report channel_submission
  store_channel_report-Limited phone fresh hq source county ward category note t f =
      elim (Bool-cases (ltb max_ward_bytes (length ward))) [
        | inl long ↦ rw (store_channel_report, long) (omega arith)
        | inr fits ↦
            rw (store_channel_report, fits)
              (subst (λ v. Limited t.reports.reports v.reports.reports) (sym (reply_of-reports _))
                filed)
      ]
    where
      submission : ℕ → Submission
      submission = λ account. channel_submission account hq source county ward category note

      filed :
          Limited t.reports.reports
            ((channel_account phone fresh >>= store_for lib within now per_hour new_id submission) t
              f).1.reports.reports
      filed =
          chain-holds (λ _ u. u.reports ≡ t.reports)
            (λ _ v. Limited t.reports.reports v.reports.reports) (channel_account phone fresh t f)
            (store_for lib within now per_hour new_id submission)
            (channel_account-Same t.reports phone fresh t f refl)
            (λ account u g same.
              store_for-Limited submission account t.reports u g (λ i. refl) same)
            (λ s m u same. rw same (omega arith))
