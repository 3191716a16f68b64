-- ===== src/Curation.antt =====
-- aurarisk-backend/internal/services/curation.go: duplicate detection and the verification score.
-- Times are seconds. Places are micro-degrees, as the reports' columns hold them. A category is
-- one of the four that the handlers and the schema admit. Ids are numbers; "" is `none`.
pub mod Score
pub mod Duplicates
pub mod Similarity
mod Examples
use aura_risk.Base.{
  ℕ, ◌+◌, ◌-◌, ◌*◌, min, max, Bool, true, false, not, ◌&&◌, ◌||◌, Option, none, some, List, [], ◌∷◌,
  ltb, leb, ◌==◌, if◌then◌else◌, length, exists, count_rows, Text, text_eq, is_empty, map,
}
use aura_risk.Base.Int.{ℤ}

pub data ModerationStatus : Type 0 where
  pending verified rejected : ModerationStatus

-- moderated_by: `auto` is ModeratedByAuto, which the configuration reserves.
pub data Actor : Type 0 where
  auto : Actor
  human : ℕ → Actor

pub data Category : Type 0 where
  flooding water_rising road_blocked drainage_issue : Category

pub data Group : Type 0 where
  water blocked drainage : Group

-- CategoryGroup
abbrev pub category_group : Category → Group
category_group flooding = water
category_group water_rising = water
category_group road_blocked = blocked
category_group drainage_issue = drainage

abbrev pub group_eq : Group → Group → Bool
group_eq water water = true
group_eq blocked blocked = true
group_eq drainage drainage = true
group_eq _ _ = false

-- Whether a category is one of CategoriesForGroup of the other.
abbrev pub same_group : Category → Category → Bool
same_group a b = group_eq (category_group a) (category_group b)

pub record Place : Type 0 where
  pub lat : ℤ
  pub lon : ℤ

abbrev pub hour : ℕ
hour = 3600

abbrev pub same_reporter_radius : ℕ
same_reporter_radius = 500

abbrev pub same_reporter_window : ℕ
same_reporter_window = 3 * hour

abbrev pub similar_text_radius : ℕ
similar_text_radius = 250

abbrev pub similar_text_window : ℕ
similar_text_window = 24 * hour

abbrev pub corroboration_radius : ℕ
corroboration_radius = 1000

abbrev pub corroboration_window : ℕ
corroboration_window = 6 * hour

abbrev pub auto_verify_score : ℕ
auto_verify_score = 50

-- What the code asks of Go's unicode package and of math: the lower case of a code point, whether
-- it is a letter or a digit, and the great-circle distance in whole metres, rounded up.
pub record Library : Type 0 where
  pub to_lower : ℕ → ℕ
  pub is_word : ℕ → Bool
  pub distance_meters : Place → Place → ℕ

abbrev pub contains : Text → List Text → Bool
contains w = exists (text_eq w)

-- A word that ends goes into the set, unless it is empty or there.
abbrev pub add_word : Text → List Text → List Text
add_word word set = if is_empty word || contains word set then set else word ∷ set

-- The words of a note as a set; `word` is the one being read, its last code point first.
pub read_words : Library → Text → Text → List Text → List Text
read_words lib [] word set = add_word word set
read_words lib (c ∷ cs) word set =
    let low = lib.to_lower c in
    let more = read_words lib cs (low ∷ word) set in
    let next = read_words lib cs [] (add_word word set) in if lib.is_word low then more else next

-- noteTokens
pub note_tokens : Library → Text → List Text
note_tokens lib note = read_words lib note [] []

-- How many of the words are in the other set.
pub shared_words : List Text → List Text → ℕ
shared_words ws vs = count_rows (λ w. contains w vs) ws

-- NoteSimilarity of two word sets, as a fraction.
pub similarity : List Text → List Text → ℕ × ℕ
similarity ws vs =
    let shared = shared_words ws vs in
    let union = length ws + length vs - shared in
    if is_empty ws || is_empty vs
    then (0, 1)
    else if ltb (length ws) 3 || ltb (length vs) 3
    then (if shared == union then (1, 1) else (0, 1))
    else (shared, union)

-- A fraction is at least SimilarTextThreshold, 0.8.
abbrev pub reaches_threshold : ℕ × ℕ → Bool
reaches_threshold (n, d) = leb (4 * d) (5 * n)

pub record DuplicateCandidate : Type 0 where
  pub id : ℕ
  pub duplicate_of : Option ℕ
  pub account_id : Option ℕ
  pub category : Category
  pub note : Text
  pub place : Place
  pub created_at : ℕ

pub record NewReport : Type 0 where
  pub account_id : Option ℕ
  pub category : Category
  pub note : Text
  pub place : Place
  pub created_at : ℕ

-- r.AccountID != "" && r.AccountID == c.AccountID
abbrev pub same_account : Option ℕ → Option ℕ → Bool
same_account none b = false
same_account (some a) none = false
same_account (some a) (some b) = a == b

-- The distance of two times, either way round.
abbrev pub age : ℕ → ℕ → ℕ
age a b = if ltb a b then b - a else a - b

pub same_reporter : Library → NewReport → DuplicateCandidate → Bool
same_reporter lib r c =
    same_account r.account_id c.account_id
    && same_group r.category c.category
    && leb (lib.distance_meters r.place c.place) same_reporter_radius
    && leb (age r.created_at c.created_at) same_reporter_window

pub copied_text : Library → NewReport → DuplicateCandidate → Bool
copied_text lib r c =
    leb (lib.distance_meters r.place c.place) similar_text_radius
    && leb (age r.created_at c.created_at) similar_text_window
    && reaches_threshold (similarity (note_tokens lib r.note) (note_tokens lib c.note))

abbrev pub original : DuplicateCandidate → ℕ
original c = elim c.duplicate_of [ none ↦ c.id | some d ↦ d ]

-- FindDuplicate
pub find_duplicate : Library → NewReport → List DuplicateCandidate → Option ℕ
find_duplicate lib r [] = none
find_duplicate lib r (c ∷ cs) =
    if same_reporter lib r c || copied_text lib r c
    then some (original c)
    else find_duplicate lib r cs

pub record Evidence : Type 0 where
  pub independent_reporters : ℕ
  pub anonymous_corroborations : ℕ
  pub has_ready_photo : Bool
  pub signed_in : Bool
  pub reporter_verified : ℕ
  pub reporter_rejected : ℕ

-- VerificationScore. The intermediate sum may fall below 0 in the source; `-` stops at 0 here,
-- where the final max(0, …) puts it.
pub verification_score : Evidence → ℕ
verification_score e =
    let corroboration =
      25 * e.independent_reporters + (if ltb 0 e.anonymous_corroborations then 15 else 0) in
    let score =
      min corroboration 50
      + (if e.has_ready_photo then 20 else 0)
      + (if e.signed_in then 10 else 0)
      + min (10 * e.reporter_verified) 20 in
    min (score - 25 * e.reporter_rejected) 100
