-- ===== src/Subscriptions/Kept.antt =====
-- subscriptions.go and devices.go: what every sequence of requests and of runs of the notifier keeps.
use aura_risk.Base.{ℕ, Bool, Option, List, [], ◌∷◌, Text}
use aura_risk.Notifier.{Clock}
use aura_risk.Notifier.Worker.{Tables, Environment, run_once}
use aura_risk.Notifier.Keeping.{run_once-Preserves}
use aura_risk.Subscriptions.{
  SubscriptionInput, create_subscription, update_subscription, delete_subscription,
}
use aura_risk.Subscriptions.Devices.{register_push_token, unregister_push_token}
use aura_risk.Subscriptions.Owned.{register_push_token-Preserves, unregister_push_token-Preserves}
use aura_risk.Subscriptions.Listed.{IsListed}
use aura_risk.Subscriptions.Requests.{
  IsKept, IsKept-IsStable, create_subscription-Preserves, update_subscription-Preserves,
  delete_subscription-Preserves,
}

-- A request, with the id or the account that the middleware found, or a run of the notifier.
pub data Operation : Type 0 where
  creates : ℕ → ℕ → SubscriptionInput → Operation
  updates : Text → ℕ → SubscriptionInput → Operation
  deletes : Text → ℕ → Operation
  registers : ℕ → ℕ → Text → Option Bool → Operation
  unregisters : ℕ → Operation
  notifies : Environment → ℕ → Bool → Operation

module _ (clock : Clock) (uuid : Text → ℕ) where
  -- The tables after it; calls of the database fail as told.
  unfoldable pub operate : Operation → Tables → List Bool → Tables
  operate (creates id account input) t f = (create_subscription clock id account input t f).1
  operate (updates param account input) t f =
      (update_subscription clock uuid param account input t f).1
  operate (deletes param account) t f = (delete_subscription uuid param account t f).1
  operate (registers now device token consent) t f =
      (register_push_token now device token consent t f).1
  operate (unregisters device) t f = (unregister_push_token device t f).1
  operate (notifies env now free) t f = (run_once env now free t f).1

  unfoldable pub operate_all : List (Operation × List Bool) → Tables → Tables
  operate_all [] t = t
  operate_all ((o, f) ∷ os) t = operate_all os (operate o t f)

  operate-IsKept :
      (o : Operation) (t : Tables) (f : List Bool) → IsKept clock t → IsKept clock (operate o t f)
  unfolding operate
  operate-IsKept (creates id account input) t f k =
      create_subscription-Preserves clock id account input t f k
  operate-IsKept (updates param account input) t f k =
      update_subscription-Preserves clock uuid param account input t f k
  operate-IsKept (deletes param account) t f k =
      delete_subscription-Preserves clock uuid param account t f k
  operate-IsKept (registers now device token consent) t f k =
      let (l, o) =
        register_push_token-Preserves (IsListed clock) now device token consent t f
          (k.listed, k.owned) in
      record { listed = l; owned = o }
  operate-IsKept (unregisters device) t f k =
      let (l, o) =
        unregister_push_token-Preserves (IsListed clock) device t f (k.listed, k.owned) in
      record { listed = l; owned = o }
  operate-IsKept (notifies env now free) t f k =
      run_once-Preserves (IsKept clock) (IsKept-IsStable clock) env now free t f k

  -- Over every sequence of requests about subscriptions and push tokens and of runs of the notifier,
  -- each a step of its own, and whatever calls of the database fail: no account has more than ten
  -- subscriptions, each of which has a valid name, place, level and quiet hours; no push token is of
  -- two devices, and exactly the devices with a token have a time of consent.
  pub operate_all-IsKept :
      (os : List (Operation × List Bool)) (t : Tables)
      → IsKept clock t
      → IsKept clock (operate_all os t)
  unfolding operate_all
  operate_all-IsKept [] t k = k
  operate_all-IsKept ((o, f) ∷ os) t k =
      operate_all-IsKept os (operate o t f) (operate-IsKept o t f k)
