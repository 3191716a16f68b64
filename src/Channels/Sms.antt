-- ===== src/Channels/Sms.antt =====
-- services/channels.go: SMSCommand and ParseSMS.
use aura_risk.Base.{
  ℕ, zero, suc, inl, inr, Bool, true, false, Option, none, some, List, [], ◌∷◌, ◌++◌, ◌==◌,
  if◌then◌else◌, Text, codes, text_eq, length, exists, Option-cases, min,
}
use aura_risk.Curation.{Category, flooding, water_rising, road_blocked, drainage_issue}
use aura_risk.Channels.{normalize_county, to_upper, trim_space, is_space}
use aura_risk.Channels.Menu.{Lang, en, sw}
use aura_risk.Channels.Counties.{IsOfficial, normalize_county-IsOfficial}

-- The kinds with what the code sets for each.
pub data SmsCommand : Type 0 where
  help : Lang → SmsCommand
  risk : Lang → Text → SmsCommand
  report : Lang → Category → Text → Text → Text → SmsCommand

pub data Keyword : Type 0 where
  helps : Lang → Keyword
  risks : Lang → Keyword
  reports : Category → Lang → Keyword

abbrev sms_keywords : List (Text × Keyword)
sms_keywords =
    (codes "RISK", risks en)
    ∷ (codes "HATARI", risks sw)
    ∷ (codes "FLOOD", reports flooding en)
    ∷ (codes "MAFURIKO", reports flooding sw)
    ∷ (codes "ROAD", reports road_blocked en)
    ∷ (codes "BARABARA", reports road_blocked sw)
    ∷ (codes "RISING", reports water_rising en)
    ∷ (codes "MAJI", reports water_rising sw)
    ∷ (codes "DRAIN", reports drainage_issue en)
    ∷ (codes "MTARO", reports drainage_issue sw)
    ∷ (codes "HELP", helps en)
    ∷ (codes "MSAADA", helps sw)
    ∷ []

-- strings.Cut(text, " "): before and after the first space
abbrev pub before : ℕ → Text → Text
before sep [] = []
before sep (c ∷ cs) = if c == sep then [] else c ∷ before sep cs

abbrev pub after : ℕ → Text → Text
after sep [] = []
after sep (c ∷ cs) = if c == sep then cs else after sep cs

-- strings.Fields
abbrev word_onto : ℕ → List Text → Bool → List Text
word_onto c ws true = (c ∷ []) ∷ ws
word_onto c [] false = (c ∷ []) ∷ []
word_onto c (w ∷ ws) false = (c ∷ w) ∷ ws

abbrev starts_space : Text → Bool
starts_space [] = true
starts_space (c ∷ cs) = is_space c

unfoldable pub fields : Text → List Text
fields [] = []
fields (c ∷ cs) = if is_space c then fields cs else word_onto c (fields cs) (starts_space cs)

abbrev pub take : ℕ → List Text → List Text
take zero ws = []
take (suc n) [] = []
take (suc n) (w ∷ ws) = w ∷ take n ws

abbrev pub drop : ℕ → List Text → List Text
drop zero ws = ws
drop (suc n) [] = []
drop (suc n) (w ∷ ws) = drop n ws

-- strings.Join(words, " ")
abbrev pub join_words : List Text → Text
join_words [] = []
join_words (w ∷ []) = w
join_words (w ∷ v ∷ ws) = w ++ 32 ∷ join_words (v ∷ ws)

-- The loop for the longest run of words that is a county: its text, and the words after it.
unfoldable pub longest_run : ℕ → List Text → Text × Text
longest_run zero words = ([], [])
longest_run (suc n) words = elim (normalize_county (join_words (take (suc n) words))) [
  | some c ↦ (join_words (take (suc n) words), join_words (drop (suc n) words))
  | none ↦ longest_run n words
]

-- The texts of the county, the ward and the note.
unfoldable pub sms_parts : Text → Text × Text × Text
sms_parts rest =
    if exists (λ c. c == 44) rest
    then (
      before 44 rest,
      trim_space (before 44 (after 44 rest)),
      trim_space (after 44 (after 44 rest)),
    )
    else let words = fields rest in
      let (county, note) = longest_run (min (length words) 3) words in (county, [], note)

-- The end, of a command for a county: an unknown one is reply_of with help.
unfoldable pub command_of : Keyword → Text → SmsCommand
command_of (helps lang) rest = help lang
command_of (risks lang) rest = elim (normalize_county (sms_parts rest).0) [
  | none ↦ help lang
  | some c ↦ risk lang c
]
command_of (reports category lang) rest = elim (normalize_county (sms_parts rest).0) [
  | none ↦ help lang
  | some c ↦ report lang category c (sms_parts rest).1 (sms_parts rest).2
]

unfoldable pub keyword_of : List (Text × Keyword) → Text → Option Keyword
keyword_of [] word = none
keyword_of ((k, v) ∷ ks) word = if text_eq k word then some v else keyword_of ks word

-- ParseSMS
unfoldable pub parse_sms : Text → SmsCommand
parse_sms text =
    let trimmed = trim_space text in
    elim (keyword_of sms_keywords (to_upper (before 32 trimmed))) [
      | none ↦ help en
      | some k ↦ command_of k (trim_space (after 32 trimmed))
    ]

-- A command about a county names an official one.
abbrev pub Official : SmsCommand → Type 0
Official (help lang) = Unit {0}
Official (risk lang c) = IsOfficial c
Official (report lang category c ward note) = IsOfficial c

command_of-Official : (k : Keyword) (rest : Text) → Official (command_of k rest)
unfolding command_of
command_of-Official (helps lang) rest = tt
command_of-Official (risks lang) rest = elim (Option-cases (normalize_county (sms_parts rest).0)) [
  | inl miss ↦ rw (Official, command_of, miss) tt
  | inr (c, hit) ↦
      rw (Official, command_of, hit) (normalize_county-IsOfficial (sms_parts rest).0 c hit)
]
command_of-Official (reports category lang) rest =
    elim (Option-cases (normalize_county (sms_parts rest).0)) [
      | inl miss ↦ rw (Official, command_of, miss) tt
      | inr (c, hit) ↦
          rw (Official, command_of, hit) (normalize_county-IsOfficial (sms_parts rest).0 c hit)
    ]

-- Whatever the message, a command for a risk or a report names one of the 47 counties.
pub parse_sms-Official : (text : Text) → Official (parse_sms text)
unfolding parse_sms
parse_sms-Official text =
    elim (Option-cases (keyword_of sms_keywords (to_upper (before 32 (trim_space text))))) [
      | inl miss ↦ rw (Official, parse_sms, miss) tt
      | inr (k, hit) ↦
          rw (parse_sms, hit) (command_of-Official k (trim_space (after 32 (trim_space text))))
    ]
