-- ===== src/Curation/Similarity.antt =====
-- curation.go: NoteSimilarity.
use aura_risk.Base.{
  ◌≤◌, ◌+◌, ◌-◌, ◌≡◌, refl, ◌≢◌, ap, suc, Bool, true, List, [], ◌∷◌, arith, All, length, count_rows,
  Text, text_eq_refl,
}
use aura_risk.Curation.{
  Library, NewReport, DuplicateCandidate, contains, note_tokens, shared_words, similarity,
  reaches_threshold, copied_text, age, similar_text_radius, similar_text_window,
}

module _ (p : Text → Bool) where
  count_rows-All : (ws : List Text) → All (λ w. p w ≡ true) ws → count_rows p ws ≡ length ws
  count_rows-All [] h = refl
  count_rows-All (w ∷ ws) h = rw (h.0) (ap suc (count_rows-All ws h.1))

contained :
    (vs ws : List Text)
    → All (λ w. contains w vs ≡ true) ws
    → (v : Text) → All (λ w. contains w (v ∷ vs) ≡ true) ws
contained vs [] h v = tt
contained vs (w ∷ ws) h v = (ground (arith, h.0), contained vs ws h.1 v)

self_contained : (ws : List Text) → All (λ w. contains w ws ≡ true) ws
self_contained [] = tt
self_contained (w ∷ ws) = (rw (text_eq_refl w) refl, contained ws ws (self_contained ws) w)

similarity_self : (ws : List Text) → ws ≢ [] → reaches_threshold (similarity ws ws) ≡ true
unfolding similarity shared_words
similarity_self [] n = absurd (n refl)
similarity_self (w ∷ ws) n =
    ground (arith, count_rows-All (λ v. contains v (w ∷ ws)) (w ∷ ws) (self_contained (w ∷ ws)))

-- A note that has a word, and the same words as an earlier note within 250 m and 24 hours,
-- whatever its case, punctuation and reporter, counts as a copy.
pub copied_text-same_words :
    (lib : Library) (r : NewReport) (c : DuplicateCandidate)
    → note_tokens lib r.note ≡ note_tokens lib c.note
    → note_tokens lib r.note ≢ []
    → lib.distance_meters r.place c.place ≤ similar_text_radius
    → age r.created_at c.created_at ≤ similar_text_window
    → copied_text lib r c ≡ true
unfolding copied_text
copied_text-same_words lib r c same some_word near recent =
    rw (← same) (ground (arith, similarity_self (note_tokens lib r.note) some_word))

-- Two notes of which one has fewer than three words count as copies only if they share all words.
pub similarity-short :
    (ws vs : List Text)
    → length ws ≤ 2
    → reaches_threshold (similarity ws vs) ≡ true
    → shared_words ws vs ≡ length ws + length vs - shared_words ws vs
unfolding similarity
similarity-short ws vs short h = ground arith
