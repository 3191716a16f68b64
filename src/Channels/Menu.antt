-- ===== src/Channels/Menu.antt =====
-- handlers/channels.go: the screens of a USSD session, by the answers so far.
use aura_risk.Base.{
  Option, none, some, List, [], ◌∷◌, ltb, if◌then◌else◌, length, Text, codes, text_eq, is_empty,
}
use aura_risk.Curation.{Category, flooding, water_rising, road_blocked, drainage_issue}
use aura_risk.Channels.{normalize_county, max_ward_bytes, trim_space, split}

pub data Lang : Type 0 where
  en sw : Lang

-- The keys of channelMessages.
pub data Message : Type 0 where
  welcome menu ask_county ask_ward ask_category unknown_county ward_too_long invalid too_many :
      Message

-- `con` and `fin` are the texts that start with CON and END; a session ends too with a county's risk
-- and with a stored report.
pub data Screen : Type 0 where
  con : Lang → Message → Screen
  fin : Lang → Message → Screen
  risk : Lang → Text → Screen
  report : Lang → Text → Text → Category → Screen

unfoldable pub ussd_categories : Text → Option Category
ussd_categories t =
    if text_eq t (codes "1")
    then some flooding
    else if text_eq t (codes "2")
    then some road_blocked
    else if text_eq t (codes "3")
    then some water_rising
    else if text_eq t (codes "4")
    then some drainage_issue
    else none

-- ussdLang, by the first part
unfoldable pub ussd_lang : Text → Option Lang
ussd_lang first =
    if text_eq first (codes "1")
    then some en
    else if text_eq first (codes "2")
    then some sw
    else none

unfoldable pub ward_of : Text → Text
ward_of answer = let ward = trim_space answer in if text_eq ward (codes "0") then [] else ward

-- The parts after the language and the choice 1, and 2.
unfoldable pub risk_menu : Lang → List Text → Screen
risk_menu lang [] = con lang ask_county
risk_menu lang (c ∷ []) = elim (normalize_county c) [
  | none ↦ fin lang unknown_county
  | some county ↦ risk lang county
]
risk_menu lang (c ∷ more ∷ rest) = fin lang unknown_county

unfoldable pub category_menu : Lang → Text → Text → List Text → Screen
category_menu lang county ward [] = con lang ask_category
category_menu lang county ward (k ∷ []) = elim (ussd_categories k) [
  | none ↦ fin lang invalid
  | some category ↦ report lang county ward category
]
category_menu lang county ward (k ∷ more ∷ rest) = fin lang invalid

unfoldable pub ward_menu : Lang → Text → List Text → Screen
ward_menu lang county [] = con lang ask_ward
ward_menu lang county (w ∷ rest) =
    if ltb max_ward_bytes (length (ward_of w))
    then fin lang ward_too_long
    else category_menu lang county (ward_of w) rest

unfoldable pub report_menu : Lang → List Text → Screen
report_menu lang [] = con lang ask_county
report_menu lang (c ∷ rest) = elim (normalize_county c) [
  | none ↦ fin lang unknown_county
  | some county ↦ ward_menu lang county rest
]

unfoldable pub choice_menu : Lang → List Text → Screen
choice_menu lang [] = con lang menu
choice_menu lang (b ∷ rest) =
    if text_eq b (codes "1")
    then risk_menu lang rest
    else if text_eq b (codes "2")
    then report_menu lang rest
    else fin lang invalid

unfoldable pub ussd_parts : List Text → Screen
ussd_parts [] = fin en invalid
ussd_parts (a ∷ rest) = elim (ussd_lang a) [
  | none ↦ fin en invalid
  | some lang ↦ choice_menu lang rest
]

-- ussdReply
unfoldable pub ussd_reply : Text → Screen
ussd_reply text = if is_empty text then con en welcome else ussd_parts (split 42 text)
