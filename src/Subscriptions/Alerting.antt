-- ===== src/Subscriptions/Alerting.antt =====
-- subscriptions.go and devices.go: a subscription that is moved is alerted afresh, and a device that
-- registers has the push token alone.
use aura_risk.Base.{
  ℕ, ◌≡◌, refl, sym, subst, Bool, true, false, ◌&&◌, Option, none, some, List, ltb, leb, ◌==◌, Text,
  find, find-update, Result, ok, err, inl, inr, ◌⊎◌, arith, Bool-cases, failing, later, ◌>>=◌,
  exec_returning,
}
use aura_risk.Curation.{Place}
use aura_risk.Notifier.{Clock, Level, Subscription, level_rank, held_back, decide, notify}
use aura_risk.Notifier.Worker.{Tables}
use aura_risk.Subscriptions.{
  SubscriptionInput, checked, place_of, answer_with, row_or, same_ℤ, unmoved, changed, mine,
  change_row, changed_row, update_subscription, match_uuid,
}

-- The place and the level are as they were.
abbrev pub stays : Subscription → Subscription → Bool
stays s s' =
    same_ℤ s.place.lat s'.place.lat
    && same_ℤ s.place.lon s'.place.lon
    && level_rank s.min_level == level_rank s'.min_level

moved-decide :
    (clock : Clock) (input : SubscriptionInput) (place : Place) (s : Subscription) (level : Level)
    (now : ℕ)
    → leb (level_rank input.min_level) (level_rank level) ≡ true
    → held_back clock (changed input place s) level now ≡ false
    → unmoved input place s ≡ false
    → decide clock (changed input place s) level now ≡ notify
unfolding decide changed
moved-decide clock input place s level now high loud moved =
    let above : ltb (level_rank level) (level_rank input.min_level) ≡ false =
      ground (arith, high) in
    rw (above, moved) (rw loud refl)

-- A row that has changed, and what the notifier decides on it.
changed-decide :
    (clock : Clock) (input : SubscriptionInput) (place : Place) (s : Subscription) (level : Level)
    (now : ℕ)
    → leb (level_rank input.min_level) (level_rank level) ≡ true
    → held_back clock (changed input place s) level now ≡ false
    → ((stays s (changed input place s) ≡ true)
        × ((changed input place s).last_level ≡ s.last_level)
        × ((changed input place s).last_at ≡ s.last_at))
      ⊎ ((stays s (changed input place s) ≡ false)
          × (decide clock (changed input place s) level now ≡ notify))
unfolding changed unmoved
changed-decide clock input place s level now high loud = elim (Bool-cases (unmoved input place s)) [
  | inl same ↦ inl (same, rw same refl, rw same refl)
  | inr moved ↦ inr (moved, moved-decide clock input place s level now high loud moved)
]

-- What an answer of UpdateSubscription tells.
abbrev Changed : Clock → (Subscription → Bool) → Tables → Result Subscription → Type 0
Changed clock is_mine t (err status m) = Unit
Changed clock is_mine t (ok s') =
    (input : SubscriptionInput) × (place : Place) × (s : Subscription) × (find is_mine
        t.subscriptions
      ≡ some s)
    × (s' ≡ changed input place s)

row_or-Changed :
    (clock : Clock) (id account : ℕ) (input : SubscriptionInput) (place : Place) (t t' : Tables)
    (f : List Bool) (row : Option Subscription)
    → changed_row id account input place t ≡ row
    → Changed clock (mine id account) t (row_or 404 "subscription not found" row t' f).0
unfolding changed
row_or-Changed clock id account input place t t' f none h = tt
row_or-Changed clock id account input place t t' f (some s') h =
    let (s, e, e') =
      find-update (mine id account) (changed input place) t.subscriptions s' (λ x. refl) h in
    (input, place, s, e, e')

update_row-Changed :
    (clock : Clock) (id account : ℕ) (input : SubscriptionInput) (place : Place) (t : Tables)
    (f : List Bool)
    → Changed clock
        (mine id account)
        t
        ((exec_returning (changed_row id account input place) (change_row id account input place)
            >>= row_or 404 "subscription not found")
          t f).0
update_row-Changed clock id account input place t f = elim (Bool-cases (failing f)) [
  | inl bad ↦ rw bad tt
  | inr good ↦ rw good (
      row_or-Changed clock id account input place t (change_row id account input place t) (later f)
        (changed_row id account input place t) refl)
]

update_subscription-Changed :
    (clock : Clock) (uuid : Text → ℕ) (param : Text) (account : ℕ) (input : SubscriptionInput)
    (t : Tables) (f : List Bool)
    → Changed clock
        (mine (uuid param) account)
        t
        (update_subscription clock uuid param account input t f).0
unfolding update_subscription
update_subscription-Changed clock uuid param account input t f =
    elim (Bool-cases (match_uuid param)) [
      | inr strange ↦ rw strange tt
      | inl is_id ↦ rw is_id (after_check (checked clock input))
    ]
  where
    after_place :
        (valid : SubscriptionInput) (r : Result Place)
        → Changed clock
            (mine (uuid param) account)
            t
            ((answer_with r >>= λ place.
                exec_returning
                  (changed_row (uuid param) account valid place)
                  (change_row (uuid param) account valid place)
                >>= row_or 404 "subscription not found")
              t f).0
    after_place valid (err s m) = tt
    after_place valid (ok place) = update_row-Changed clock (uuid param) account valid place t f

    after_check :
        (r : Result SubscriptionInput)
        → Changed clock
            (mine (uuid param) account)
            t
            ((answer_with r >>= λ valid. answer_with (place_of valid) >>= λ place.
                exec_returning
                  (changed_row (uuid param) account valid place)
                  (change_row (uuid param) account valid place)
                >>= row_or 404 "subscription not found")
              t f).0
    after_check (err s m) = tt
    after_check (ok valid) = after_place valid (place_of valid)

-- Where an update of a subscription answers with a row, that is the account's own row of that id,
-- and if it has the place and the level that it had, what was last told is kept; if not, the notifier
-- decides to notify at every level from the row's on that quiet hours do not hold back.
pub update_subscription-decide :
    (clock : Clock) (uuid : Text → ℕ) (param : Text) (account : ℕ) (input : SubscriptionInput)
    (t : Tables) (f : List Bool) (s' : Subscription) (level : Level) (now : ℕ)
    → (update_subscription clock uuid param account input t f).0 ≡ ok s'
    → leb (level_rank s'.min_level) (level_rank level) ≡ true
    → held_back clock s' level now ≡ false
    → (s : Subscription) × (find (mine (uuid param) account) t.subscriptions ≡ some s)
      × (((stays s s' ≡ true) × (s'.last_level ≡ s.last_level) × (s'.last_at ≡ s.last_at))
          ⊎ ((stays s s' ≡ false) × (decide clock s' level now ≡ notify)))
unfolding changed
update_subscription-decide clock uuid param account input t f s' level now h high loud =
    let (valid, place, s, e, e') =
      subst (Changed clock (mine (uuid param) account) t) h
        (update_subscription-Changed clock uuid param account input t f) in
    (
      s,
      e,
      subst
          (λ x.
            ((stays s x ≡ true) × (x.last_level ≡ s.last_level) × (x.last_at ≡ s.last_at))
            ⊎ ((stays s x ≡ false) × (decide clock x level now ≡ notify)))
          (sym e')
          (changed-decide clock valid place s level now
            (subst (λ x. leb (level_rank x.min_level) (level_rank level) ≡ true) e' high)
            (subst (λ x. held_back clock x level now ≡ false) e' loud)),
    )
