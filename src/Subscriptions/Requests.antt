-- ===== src/Subscriptions/Requests.antt =====
-- subscriptions.go: what each request about subscriptions, and a run of the notifier, keeps.
use aura_risk.Base.{
  ℕ, ◌≡◌, refl, Bool, true, false, Option, none, some, ◌==◌, Text, String, exists, Result, ok, err,
  Flow, Preserves, bind-Preserves, exec_returning-Preserves, inl, inr, arith, Bool-cases, failing,
  ◌>>=◌, exec_returning,
}
use aura_risk.Curation.{Place}
use aura_risk.Notifier.{Clock, Level, Subscription, quiet_hours}
use aura_risk.Notifier.Worker.{Tables, note_level, forget_level}
use aura_risk.Notifier.Keeping.{IsStable}
use aura_risk.Subscriptions.{
  SubscriptionInput, checked, place_of, answer_with, new_subscription, has_room,
  insert_subscription, row_or, create_subscription, changed, mine, change_row, changed_row,
  update_subscription, drop_row, gone_or, delete_subscription, match_uuid,
}
use aura_risk.Subscriptions.Checks.{
  IsStored, IsSound, checked-IsSound, new_subscription-IsStored, changed-IsStored,
}
use aura_risk.Subscriptions.Owned.{IsOwned, forget_push-IsOwned}
use aura_risk.Subscriptions.Listed.{IsListed, updated-IsListed, deleted-IsListed, inserted-IsListed}

module _ (clock : Clock) where
  -- The tables of the handlers and of the notifier.
  pub record IsKept (t : Tables) : Type 0 where
    pub listed : IsListed clock t.subscriptions
    pub owned : IsOwned t.devices

  noted-IsStored :
      (now : ℕ) (level : Level) (touch_time : Bool) (s : Subscription)
      → IsStored clock s
      → IsStored clock (note_level now level touch_time s)
  unfolding quiet_hours
  noted-IsStored now level touch_time s k = record {
    name = k.name;
    inside = k.inside;
    level = k.level;
    hours = k.hours;
    columns = k.columns;
  }

  forgotten-IsStored : (s : Subscription) → IsStored clock s → IsStored clock (forget_level s)
  unfolding quiet_hours
  forgotten-IsStored s k = record {
    name = k.name;
    inside = k.inside;
    level = k.level;
    hours = k.hours;
    columns = k.columns;
  }

  pub IsKept-IsStable : IsStable IsKept
  IsKept-IsStable = record {
    noted = λ now sub level touch_time t k. record {
      listed =
          updated-IsListed clock (λ s. s.id == sub) (note_level now level touch_time)
            t.subscriptions (λ s. refl) (λ s. refl) (noted-IsStored now level touch_time) k.listed;
      owned = k.owned;
    };
    dropped = λ sub t k. record {
      listed =
          updated-IsListed clock (λ s. s.id == sub) forget_level t.subscriptions (λ s. refl)
            (λ s. refl) forgotten-IsStored k.listed;
      owned = k.owned;
    };
    forgot = λ device t k. record {
      listed = k.listed;
      owned = forget_push-IsOwned device t.devices k.owned;
    };
    told = λ sub a messages t f k. record { listed = k.listed; owned = k.owned };
  }

  insert_subscription-Preserves :
      (s : Subscription) → IsStored clock s → Preserves IsKept (insert_subscription s)
  unfolding insert_subscription
  insert_subscription-Preserves s may t f k = elim (Bool-cases (failing f)) [
    | inl bad ↦ rw bad k
    | inr good ↦ elim (Bool-cases (has_room s.account_id t)) [
      | inr full ↦ rw (good, full) k
      | inl room ↦ elim (Bool-cases (exists (λ r. r.id == s.id) t.subscriptions)) [
        | inl old ↦ rw (good, room, old) k
        | inr new ↦
            rw (good, room, new)
              (record {
                listed =
                    inserted-IsListed clock s t.subscriptions may (ground (arith, room)) new
                      k.listed;
                owned = k.owned;
              })
      ]
    ]
  ]

  -- A chain that begins with validate and the place, where what follows keeps the tables.
  sound-Preserves :
      {A : Type 0} (input : SubscriptionInput) (next : SubscriptionInput → Place → Flow Tables A)
      → ((valid : SubscriptionInput) (place : Place)
          → IsSound clock valid place
          → Preserves IsKept (next valid place))
      → Preserves IsKept (
          answer_with (checked clock input) >>= λ valid.
          answer_with (place_of valid) >>= next valid)
  sound-Preserves input next keeps = after_check (checked clock input) refl
    where
      after_place :
          (valid : SubscriptionInput) (r : Result Place)
          → checked clock input ≡ ok valid
          → place_of valid ≡ r
          → Preserves IsKept (answer_with r >>= next valid)
      after_place valid (err s m) e e' t f k = k
      after_place valid (ok place) e e' t f k =
          keeps valid place (checked-IsSound clock input valid place e e') t f k

      after_check :
          (r : Result SubscriptionInput)
          → checked clock input ≡ r
          → Preserves IsKept
              (answer_with r >>= λ valid. answer_with (place_of valid) >>= next valid)
      after_check (err s m) e t f k = k
      after_check (ok valid) e t f k = after_place valid (place_of valid) e refl t f k

  row_or-Preserves :
      (status : ℕ) (message : String) (row : Option Subscription)
      → Preserves IsKept (row_or status message row)
  row_or-Preserves status message none t f k = k
  row_or-Preserves status message (some s) t f k = k

  pub create_subscription-Preserves :
      (id account : ℕ) (input : SubscriptionInput)
      → Preserves IsKept (create_subscription clock id account input)
  unfolding create_subscription
  create_subscription-Preserves id account input =
      sound-Preserves input
        (λ valid place.
          insert_subscription (new_subscription id account valid place)
          >>= row_or 409 "subscription limit reached")
        (λ valid place sound.
          bind-Preserves IsKept (insert_subscription (new_subscription id account valid place))
            (row_or 409 "subscription limit reached")
            (insert_subscription-Preserves (new_subscription id account valid place)
              (new_subscription-IsStored clock valid place sound id account))
            (row_or-Preserves 409 "subscription limit reached"))

  changes-Preserves :
      (id account : ℕ) (valid : SubscriptionInput) (place : Place)
      → IsSound clock valid place
      → Preserves IsKept
          (exec_returning (changed_row id account valid place) (change_row id account valid place))
  unfolding changed
  changes-Preserves id account valid place sound =
      exec_returning-Preserves IsKept (changed_row id account valid place)
        (change_row id account valid place)
        (λ t k. record {
          listed =
              updated-IsListed clock (mine id account) (changed valid place) t.subscriptions
                (λ s. refl) (λ s. refl) (λ s _. changed-IsStored clock valid place sound s)
                k.listed;
          owned = k.owned;
        })

  pub update_subscription-Preserves :
      (uuid : Text → ℕ) (param : Text) (account : ℕ) (input : SubscriptionInput)
      → Preserves IsKept (update_subscription clock uuid param account input)
  unfolding update_subscription
  update_subscription-Preserves uuid param account input t f k =
      elim (Bool-cases (match_uuid param)) [
        | inr strange ↦ rw strange k
        | inl is_id ↦ rw is_id (
            sound-Preserves input
              (λ valid place.
                exec_returning (changed_row (uuid param) account valid place)
                  (change_row (uuid param) account valid place)
                >>= row_or 404 "subscription not found")
              (λ valid place sound.
                bind-Preserves IsKept
                  (exec_returning (changed_row (uuid param) account valid place)
                    (change_row (uuid param) account valid place))
                  (row_or 404 "subscription not found")
                  (changes-Preserves (uuid param) account valid place sound)
                  (row_or-Preserves 404 "subscription not found"))
              t f k)
      ]

  gone_or-Preserves : (there : Bool) → Preserves IsKept (gone_or there)
  gone_or-Preserves true t f k = k
  gone_or-Preserves false t f k = k

  pub delete_subscription-Preserves :
      (uuid : Text → ℕ) (param : Text) (account : ℕ)
      → Preserves IsKept (delete_subscription uuid param account)
  unfolding delete_subscription
  delete_subscription-Preserves uuid param account t f k = elim (Bool-cases (match_uuid param)) [
    | inr strange ↦ rw strange k
    | inl is_id ↦ rw is_id (
        bind-Preserves IsKept
          (exec_returning (λ t. exists (mine (uuid param) account) t.subscriptions)
            (drop_row (uuid param) account))
          gone_or
          (exec_returning-Preserves IsKept (λ t. exists (mine (uuid param) account) t.subscriptions)
            (drop_row (uuid param) account)
            (λ t k. record {
              listed = deleted-IsListed clock (mine (uuid param) account) t.subscriptions k.listed;
              owned = k.owned;
            }))
          gone_or-Preserves t f k)
  ]
