-- ===== src/Risk/Levels.antt =====
-- risk.go: the levels of scores, and their tips by number.
use aura_risk.Base.{◌≤◌, if◌then◌else◌, arith}
use aura_risk.Base.Int.{ℤ, pos, leb_ℤ, ◌≤ℤ◌}
use aura_risk.Notifier.{Level, normal, advisory, alert, emergency, level_rank}

-- ScoreToLevel
unfoldable pub score_to_level : ℤ → Level
score_to_level score =
    if leb_ℤ (pos 75) score
    then emergency
    else if leb_ℤ (pos 50) score
    then alert
    else if leb_ℤ (pos 25) score
    then advisory
    else normal

pub score_to_level_mono :
    (a b : ℤ) → a ≤ℤ b → level_rank (score_to_level a) ≤ level_rank (score_to_level b)
unfolding score_to_level level_rank
score_to_level_mono a b h = ground arith
