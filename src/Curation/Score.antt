-- ===== src/Curation/Score.antt =====
-- curation.go: VerificationScore against the table of weights in its comment.
use aura_risk.Base.{◌≤◌, ◌≡◌, ◌⊎◌, ◌↔◌, ◌&&◌, Bool, true, false, ltb, arith}
use aura_risk.Curation.{Evidence, verification_score, auto_verify_score}

-- More for the report and less against it.
pub record Stronger (a b : Evidence) : Type 0 where
  pub reporters : a.independent_reporters ≤ b.independent_reporters
  pub anonymous : a.anonymous_corroborations ≤ b.anonymous_corroborations
  pub photo : a.has_ready_photo ≡ true → b.has_ready_photo ≡ true
  pub signed : a.signed_in ≡ true → b.signed_in ≡ true
  pub good : a.reporter_verified ≤ b.reporter_verified
  pub bad : b.reporter_rejected ≤ a.reporter_rejected

-- Stronger evidence never lowers the score, and a score is at most 100.
pub verification_score_mono :
    (a b : Evidence)
    → Stronger a b
    → (verification_score a ≤ verification_score b) × (verification_score b ≤ 100)
unfolding verification_score
verification_score_mono a b s = (ground arith, ground arith)

abbrev pub two_of : Bool → Bool → Bool → Bool
two_of true true c = true
two_of true false c = c
two_of false b c = b && c

-- For a reporter that no moderator has judged, a report reaches the automatic score exactly if it
-- has two independent reporters, or one and two of: an anonymous corroboration, a ready photo,
-- a signed-in reporter. Anonymous reports alone never suffice, however many.
pub auto_verified_iff :
    (e : Evidence)
    → e.reporter_verified ≡ 0
    → e.reporter_rejected ≡ 0
    → (auto_verify_score ≤ verification_score e) ↔ (
        (2 ≤ e.independent_reporters)
        ⊎ ((e.independent_reporters ≡ 1)
            × (two_of (ltb 0 e.anonymous_corroborations) e.has_ready_photo e.signed_in ≡ true)))
unfolding verification_score
auto_verified_iff e v r = (λ h. ground arith, λ h. ground arith)

-- Rejections by moderators outweigh: with two of them a report reaches the automatic score only
-- with all the evidence that counts, and with three never.
pub auto_verified-rejected :
    (e : Evidence)
    → 2 ≤ e.reporter_rejected
    → auto_verify_score ≤ verification_score e
    → (e.reporter_rejected ≡ 2)
      × (2 ≤ e.independent_reporters)
      × (e.has_ready_photo ≡ true)
      × (e.signed_in ≡ true)
      × (2 ≤ e.reporter_verified)
unfolding verification_score
auto_verified-rejected e r h = ground arith
