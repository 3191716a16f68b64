-- ===== src/Curation/Duplicates.antt =====
-- curation.go: FindDuplicate.
use aura_risk.Base.{
  if◌then◌else◌, ◌+◌, ◌-◌, ◌*◌, ◌≤◌, ◌↔◌, sym, Option, Text, length, ltb, ◌==◌, ℕ, ◌≡◌, refl, ◌⊎◌,
  inl, inr, ◌||◌, Bool, true, none, some, List, [], ◌∷◌, ◌++◌, arith, All, Bool-cases, Option-cases,
  ap, subst,
}
use aura_risk.Curation.{
  category_group, Group, water, blocked, drainage, group_eq, same_account, note_tokens,
  shared_words, similarity, reaches_threshold, Library, NewReport, DuplicateCandidate,
  same_reporter, copied_text, original, find_duplicate,
}

abbrev pub repeats : Library → NewReport → DuplicateCandidate → Bool
repeats lib r c = same_reporter lib r c || copied_text lib r c

-- One account, one group of categories, within 500 m and three hours.
pub record SameReporter (lib : Library) (r : NewReport) (c : DuplicateCandidate) : Type 0 where
  pub account : (a : ℕ) × (r.account_id ≡ some a) × (c.account_id ≡ some a)
  pub group : category_group r.category ≡ category_group c.category
  pub near : lib.distance_meters r.place c.place ≤ 500
  pub recent : (r.created_at ≤ c.created_at + 3 * 3600) × (c.created_at ≤ r.created_at + 3 * 3600)

-- Two sets of words of which the shared ones are four fifths of all; or all, where a set has fewer than
-- three. No set is empty.
pub record Alike (ws vs : List Text) : Type 0 where
  pub words : (1 ≤ length ws) × (1 ≤ length vs)
  pub shared :
      ((3 ≤ length ws)
        × (3 ≤ length vs)
        × (4 * (length ws + length vs - shared_words ws vs) ≤ 5 * shared_words ws vs))
      ⊎ (((length ws ≤ 2) ⊎ (length vs ≤ 2))
          × (shared_words ws vs ≡ length ws + length vs - shared_words ws vs))

-- Notes alike, within 250 m and a day.
pub record CopiedText (lib : Library) (r : NewReport) (c : DuplicateCandidate) : Type 0 where
  pub near : lib.distance_meters r.place c.place ≤ 250
  pub recent : (r.created_at ≤ c.created_at + 24 * 3600) × (c.created_at ≤ r.created_at + 24 * 3600)
  pub alike : Alike (note_tokens lib r.note) (note_tokens lib c.note)

abbrev pub Repeats : Library → NewReport → DuplicateCandidate → Type 0
Repeats lib r c = SameReporter lib r c ⊎ CopiedText lib r c

abbrev Shared : ℕ → ℕ → ℕ → Type 0
Shared n m s =
    ((3 ≤ n) × (3 ≤ m) × (4 * (n + m - s) ≤ 5 * s)) ⊎ (((n ≤ 2) ⊎ (m ≤ 2)) × (s ≡ n + m - s))

abbrev fraction : ℕ → ℕ → ℕ → ℕ × ℕ
fraction n m s =
    if ltb n 3 || ltb m 3 then (if s == n + m - s then (1, 1) else (0, 1)) else (s, n + m - s)

fraction-Shared : (n m s : ℕ) → (reaches_threshold (fraction n m s) ≡ true) ↔ Shared n m s
fraction-Shared n m s = elim (Bool-cases (ltb n 3 || ltb m 3)) [
  | inl short ↦ elim (Bool-cases (s == n + m - s)) [
    | inl all_shared ↦ rw (short, all_shared) ((λ e. inr (ground arith, ground arith)), (λ h. refl))
    | inr some_differ ↦ rw (short, some_differ) ((λ e. absurd (cc e)), (λ h. ground arith))
  ]
  | inr long ↦ rw long ((λ e. inl (ground arith)), (λ h. ground arith))
]

similarity-Alike : (ws vs : List Text) → (reaches_threshold (similarity ws vs) ≡ true) ↔ Alike ws vs
unfolding similarity
similarity-Alike [] vs =
    ((λ e. absurd (ground (arith, e))), (λ a. absurd (ground (arith, a.words))))
similarity-Alike (w ∷ ws) [] =
    ((λ e. absurd (ground (arith, e))), (λ a. absurd (ground (arith, a.words))))
similarity-Alike (w ∷ ws) (v ∷ vs) =
    let (to, from) =
      fraction-Shared (length (w ∷ ws)) (length (v ∷ vs)) (shared_words (w ∷ ws) (v ∷ vs)) in
    ((λ e. record { words = (omega arith, omega arith); shared = to e }), (λ a. from a.shared))

groups_same : (a b : Group) → group_eq a b ≡ true → a ≡ b
groups_same water water h = refl
groups_same water blocked h = absurd (cc h)
groups_same water drainage h = absurd (cc h)
groups_same blocked water h = absurd (cc h)
groups_same blocked blocked h = refl
groups_same blocked drainage h = absurd (cc h)
groups_same drainage water h = absurd (cc h)
groups_same drainage blocked h = absurd (cc h)
groups_same drainage drainage h = refl

group_eq_refl : (a : Group) → group_eq a a ≡ true
group_eq_refl water = refl
group_eq_refl blocked = refl
group_eq_refl drainage = refl

accounts_same : (a b : Option ℕ) → same_account a b ≡ true → (n : ℕ) × (a ≡ some n) × (b ≡ some n)
accounts_same none b h = absurd (cc h)
accounts_same (some a) none h = absurd (cc h)
accounts_same (some a) (some b) h = (a, refl, ap some (sym (ground (arith, h))))

same_reporter-SameReporter :
    (lib : Library) (r : NewReport) (c : DuplicateCandidate)
    → (same_reporter lib r c ≡ true) ↔ SameReporter lib r c
unfolding same_reporter
same_reporter-SameReporter lib r c = (
  (λ e. record {
    account = accounts_same r.account_id c.account_id (ground arith);
    group = groups_same (category_group r.category) (category_group c.category) (ground arith);
    near = ground arith;
    recent = (ground arith, ground arith);
  }),
  (λ h.
      let (a, e, g) = h.account in
      ground (arith, e, g, h.group, h.near, h.recent, group_eq_refl (category_group c.category))),
)

copied_text-CopiedText :
    (lib : Library) (r : NewReport) (c : DuplicateCandidate)
    → (copied_text lib r c ≡ true) ↔ CopiedText lib r c
unfolding copied_text
copied_text-CopiedText lib r c =
    let (to, from) = similarity-Alike (note_tokens lib r.note) (note_tokens lib c.note) in
    (
      (λ e. record {
        near = ground arith;
        recent = (ground arith, ground arith);
        alike = to (ground arith);
      }),
      (λ h. ground (arith, h.near, h.recent, from h.alike)),
    )

-- The report that a candidate stands for.
abbrev pub StandsFor : DuplicateCandidate → ℕ → Type 0
StandsFor c d = (c.duplicate_of ≡ some d) ⊎ ((c.duplicate_of ≡ none) × (c.id ≡ d))

original-StandsFor : (c : DuplicateCandidate) → StandsFor c (original c)
original-StandsFor c = elim (Option-cases c.duplicate_of) [
  | inl e ↦ inr (e, rw e refl)
  | inr (d, e) ↦ inl (rw e refl)
]

-- What holds of every candidate's original holds of the report that is found.
pub find_duplicate-original :
    (lib : Library) (P : ℕ → Type 0) (r : NewReport) (cs : List DuplicateCandidate) (d : ℕ)
    → All (λ c. P (original c)) cs
    → find_duplicate lib r cs ≡ some d
    → P d
unfolding find_duplicate
find_duplicate-original lib P r [] d h e = absurd (ground arith)
find_duplicate-original lib P r (c ∷ cs) d h e = elim (Bool-cases (repeats lib r c)) [
  | inl hit ↦ subst P (ground arith) h.0
  | inr miss ↦ find_duplicate-original lib P r cs d h.1 (ground arith)
]

repeats-Repeats :
    (lib : Library) (r : NewReport) (c : DuplicateCandidate)
    → (repeats lib r c ≡ true) ↔ Repeats lib r c
repeats-Repeats lib r c =
    let (of_one, of_one_back) = same_reporter-SameReporter lib r c in
    let (copied, copied_back) = copied_text-CopiedText lib r c in
    (
      (λ e. elim (Bool-cases (same_reporter lib r c)) [
        | inl hit ↦ inl (of_one hit)
        | inr miss ↦ inr (copied (rw miss at e))
      ]),
      (λ h. elim h [
        | inl one ↦ ground (arith, of_one_back one)
        | inr copy ↦ ground (arith, copied_back copy)
      ]),
    )

-- What FindDuplicate answers for the candidates in the order they are read.
pub data IsDuplicate (lib : Library) (r : NewReport)
    : List DuplicateCandidate → Option ℕ → Type 0 where
  nothing :
      {cs : List DuplicateCandidate} → All (λ c. ¬ Repeats lib r c) cs → IsDuplicate lib r cs none
  first :
      (before : List DuplicateCandidate) (c : DuplicateCandidate) (after : List DuplicateCandidate)
      (d : ℕ)
      → All (λ b. ¬ Repeats lib r b) before
      → Repeats lib r c
      → StandsFor c d
      → IsDuplicate lib r (before ++ c ∷ after) (some d)

later_than :
    (lib : Library) (r : NewReport) (b : DuplicateCandidate) (cs : List DuplicateCandidate)
    (found : Option ℕ)
    → ¬ Repeats lib r b
    → IsDuplicate lib r cs found
    → IsDuplicate lib r (b ∷ cs) found
later_than lib r b cs none other (nothing all) = nothing (other, all)
later_than lib r b cs (some e) other (first before c after d all hit of) =
    first (b ∷ before) c after d (other, all) hit of

-- A new report repeats an earlier one where both are of one account and one group of categories, at
-- most 500 m and three hours apart; or where they are at most 250 m and a day apart and their notes
-- share four fifths of their words, or all where one has fewer than three. FindDuplicate answers
-- the original of the first candidate that the report repeats, which is the candidate itself where
-- that is no duplicate, and none where it repeats no candidate.
pub find_duplicate-IsDuplicate :
    (lib : Library) (r : NewReport) (cs : List DuplicateCandidate)
    → IsDuplicate lib r cs (find_duplicate lib r cs)
unfolding find_duplicate
find_duplicate-IsDuplicate lib r [] = nothing tt
find_duplicate-IsDuplicate lib r (c ∷ cs) = elim (Bool-cases (repeats lib r c)) [
  | inl hit ↦
      rw hit
        (first [] c cs (original c) tt ((repeats-Repeats lib r c).0 hit) (original-StandsFor c))
  | inr miss ↦ rw miss (
      later_than lib r c cs (find_duplicate lib r cs) (λ h. cc ((repeats-Repeats lib r c).1 h))
        (find_duplicate-IsDuplicate lib r cs))
]
