-- ===== src/Subscriptions/Checks.antt =====
-- subscriptions.go: what passes validate, and the rows that are made of it.
use aura_risk.Base.{
  ℕ, ◌≤◌, ◌≡◌, refl, subst, true, false, ◌||◌, Option, none, some, [], ◌∷◌, ltb, length, Text,
  is_empty, ok, inl, inr, arith, Bool-cases, Option-cases,
}
use aura_risk.Curation.{Place}
use aura_risk.Notifier.{Clock, QuietHours, Subscription, quiet_hours}
use aura_risk.Subscriptions.{
  SubscriptionInput, subscribable, outside, valid_hours, named, faults, checked, place_of,
  quiet_start_of, quiet_end_of, timezone_of, new_subscription, changed,
}

-- A row that may be stored: a name of 1 to 100 bytes, a place on the globe, a level that can be
-- subscribed to, and quiet hours that are valid, or none.
pub record IsStored (clock : Clock) (s : Subscription) : Type 0 where
  pub name : (1 ≤ length s.name) × (length s.name ≤ 100)
  pub inside : (outside 90 (some s.place.lat) ≡ false) × (outside 180 (some s.place.lon) ≡ false)
  pub level : subscribable s.min_level ≡ true
  pub hours : valid_hours clock (quiet_hours s) ≡ true
  pub columns :
      (s.quiet_start ≡ quiet_start_of (quiet_hours s))
      × (s.quiet_end ≡ quiet_end_of (quiet_hours s))
      × (s.quiet_timezone ≡ timezone_of (quiet_hours s))

-- An input that passed, with the place that it names.
pub record IsSound (clock : Clock) (input : SubscriptionInput) (place : Place) : Type 0 where
  pub name : (1 ≤ length input.name) × (length input.name ≤ 100)
  pub inside : (outside 90 (some place.lat) ≡ false) × (outside 180 (some place.lon) ≡ false)
  pub level : subscribable input.min_level ≡ true
  pub hours : valid_hours clock input.quiet_hours ≡ true

not_empty : (t : Text) → is_empty t ≡ false → 1 ≤ length t
not_empty [] h = cc
not_empty (c ∷ cs) h = omega arith

faults-none :
    (clock : Clock) (input : SubscriptionInput)
    → faults clock input ≡ none
    → ((1 ≤ length input.name) × (length input.name ≤ 100))
      × (outside 90 input.lat ≡ false)
      × (outside 180 input.lon ≡ false)
      × (subscribable input.min_level ≡ true)
      × (valid_hours clock input.quiet_hours ≡ true)
faults-none clock input h = elim (Bool-cases (is_empty input.name || ltb 100 (length input.name))) [
  | inl bad ↦ absurd (cc (rw bad at h))
  | inr good ↦ (
    (not_empty input.name (ground (arith, good)), ground (arith, good)),
    ground (arith, h),
    ground (arith, h),
    ground (arith, h),
    ground (arith, h),
  )
]

place_of-some :
    (input : SubscriptionInput) (place : Place)
    → place_of input ≡ ok place
    → (input.lat ≡ some place.lat) × (input.lon ≡ some place.lon)
place_of-some input place h = ground arith

pub checked-IsSound :
    (clock : Clock) (input valid : SubscriptionInput) (place : Place)
    → checked clock input ≡ ok valid
    → place_of valid ≡ ok place
    → IsSound clock valid place
unfolding checked
checked-IsSound clock input valid place h at_place =
    let (passed, is_valid) = valid_named in
    let (name, lat, lon, level, hours) =
      faults-none clock valid (subst (λ v. faults clock v ≡ none) is_valid passed) in
    let (e, e') = place_of-some valid place at_place in
    record { name = name; inside = (rw e at lat, rw e' at lon); level = level; hours = hours }
  where
    valid_named : (faults clock (named input) ≡ none) × (named input ≡ valid)
    valid_named = elim (Option-cases (faults clock (named input))) [
      | inl e ↦ (e, cc (rw (checked, e) at h))
      | inr (m, e) ↦ absurd (cc (rw (checked, e) at h))
    ]

hours-columns :
    (q : Option QuietHours) (s : Subscription)
    → s.quiet_start ≡ quiet_start_of q
    → s.quiet_end ≡ quiet_end_of q
    → s.quiet_timezone ≡ timezone_of q
    → quiet_hours s ≡ q
unfolding quiet_hours
hours-columns none s a b c = rw a refl
hours-columns (some q) s a b c = rw (a, b, c) refl

module _ (clock : Clock) (input : SubscriptionInput) (place : Place)
    (sound : IsSound clock input place) where
  -- A row with the columns of the input.
  written-IsStored :
      (s : Subscription)
      → s.name ≡ input.name
      → s.place ≡ place
      → s.min_level ≡ input.min_level
      → s.quiet_start ≡ quiet_start_of input.quiet_hours
      → s.quiet_end ≡ quiet_end_of input.quiet_hours
      → s.quiet_timezone ≡ timezone_of input.quiet_hours
      → IsStored clock s
  written-IsStored s n p l a b c =
      let e = hours-columns input.quiet_hours s a b c in
      record {
        name = rw n sound.name;
        inside = rw p sound.inside;
        level = rw l sound.level;
        hours = rw e sound.hours;
        columns = rw e (a, b, c);
      }

  pub new_subscription-IsStored :
      (id account : ℕ) → IsStored clock (new_subscription id account input place)
  new_subscription-IsStored id account =
      written-IsStored (new_subscription id account input place) refl refl refl refl refl refl

  pub changed-IsStored : (s : Subscription) → IsStored clock (changed input place s)
  unfolding changed
  changed-IsStored s = written-IsStored (changed input place s) refl refl refl refl refl refl
