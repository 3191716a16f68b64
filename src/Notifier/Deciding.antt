-- ===== src/Notifier/Deciding.antt =====
-- notifier.go: when an alert is sent.
use aura_risk.Base.{ℕ, ◌-◌, ◌≤◌, ◌<◌, ◌≡◌, ◌≢◌, ◌↔◌, ◌⊎◌, false, none, arith}
use aura_risk.Notifier.{
  Level, Clock, Subscription, notify, lower, reset, decide, held_back, level_rank, last_rank,
  renotify_after, time_or_zero,
}

-- Risk has reached the level that the subscription asks for.
abbrev pub Reached : Subscription → Level → Type 0
Reached sub level = level_rank sub.min_level ≤ level_rank level

-- There is something to say: no alert before, a higher level, or twelve hours gone.
abbrev pub IsNews : Subscription → Level → ℕ → Type 0
IsNews sub level now =
    (sub.last_level ≡ none)
    ⊎ (last_rank sub.last_level < level_rank level)
    ⊎ (renotify_after ≤ now - time_or_zero sub.last_at)

-- An alert is sent exactly if the level is reached, there is news, and the quiet hours do not hold
-- it back; a lower level is noted exactly if it is reached, below the last one, and no news; and
-- the record of the last alert is dropped exactly if there is one and the level is not reached.
pub decide_lem :
    (clock : Clock) (sub : Subscription) (level : Level) (now : ℕ)
    → ((decide clock sub level now ≡ notify)
        ↔ (Reached sub level × IsNews sub level now × (held_back clock sub level now ≡ false)))
      × ((decide clock sub level now ≡ lower) ↔ (
          Reached sub level
          × (level_rank level < last_rank sub.last_level)
          × (now - time_or_zero sub.last_at < renotify_after)))
      × ((decide clock sub level now ≡ reset)
          ↔ ((sub.last_level ≢ none) × (level_rank level < level_rank sub.min_level)))
unfolding decide last_rank
decide_lem clock sub level now = (
  (λ e. ground arith, λ e. ground arith),
  (λ e. ground arith, λ e. ground arith),
  (λ e. ground arith, λ e. ground arith),
)
