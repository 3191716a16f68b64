-- ===== src/Channels/Examples.antt =====
-- The channels at concrete inputs.
use aura_risk.Base.{
  length, ◌++◌, ◌∷◌, ◌↔◌, ◌≡◌, ◌≤◌, ◌&&◌, max, leb, refl, false, some, [], Text, codes,
}
use aura_risk.Base.Int.{pos}
use aura_risk.Curation.{flooding, water_rising, Library, Place}
use aura_risk.Reports.{Within, ussd, store_report}
use mathlib.Core.List.{Memᴰ}
use aura_risk.Channels.{
  kenya_counties, normalize_county, counties_by_key, county_key, normalize_phone, international,
  split,
}
use aura_risk.Channels.Counties.{normalize_county-kenya_counties}
use aura_risk.Channels.Menu.{
  en, sw, report, ussd_reply, ussd_parts, ussd_lang, ussd_categories, ward_of, category_menu,
  ward_menu, report_menu, choice_menu,
}
use aura_risk.Channels.Dialogue.{IsDialogue, ussd_reply-IsDialogue}
use aura_risk.Channels.Sms.{
  SmsCommand, Official, fields, longest_run, sms_parts, command_of, keyword_of, parse_sms,
  parse_sms-Official,
}
use aura_risk.Channels.Filing.{
  ChannelTables, thanks, store_channel_report, reply_of, store_for, on_reports, channel_account,
  account_or_new, create_account, add_reporter, recent_reports,
}
use aura_risk.Channels.Quota.{store_channel_report-Limited}

joined_words : normalize_county (codes " taita taveta COUNTY ") ≡ some (codes "Taita-Taveta")
unfolding normalize_county counties_by_key county_key
joined_words = refl

city : normalize_county (codes "Nairobi City County") ≡ some (codes "Nairobi")
unfolding normalize_county counties_by_key county_key
city = refl

phones : normalize_phone (codes "0712 345-678") ≡ normalize_phone (codes "+254712345678")
unfolding normalize_phone international
phones = refl

abbrev session : Text
session = codes "2*2*kisumu county* Nyalenda A*3"

ends : ussd_reply session ≡ report sw (codes "Kisumu") (codes "Nyalenda A") water_rising
unfolding ussd_reply split ussd_parts ussd_lang choice_menu report_menu ward_menu category_menu
    ward_of ussd_categories normalize_county counties_by_key county_key
ends = refl

skipped_ward : ussd_reply (codes "1*2*Lamu*0*1") ≡ report en (codes "Lamu") [] flooding
unfolding ussd_reply split ussd_parts ussd_lang choice_menu report_menu ward_menu category_menu
    ward_of ussd_categories normalize_county counties_by_key county_key
skipped_ward = refl

message :
    parse_sms (codes "maji Homa Bay river is over its banks")
    ≡ SmsCommand.report sw water_rising (codes "Homa Bay") [] (codes "river is over its banks")
unfolding parse_sms keyword_of command_of sms_parts fields longest_run normalize_county
    counties_by_key county_key
message = refl

message_with_commas :
    parse_sms (codes " FLOOD Kisumu, Nyalenda A, water, over the road ")
    ≡ SmsCommand.report en flooding
        (codes "Kisumu")
        (codes "Nyalenda A")
        (codes "water, over the road")
unfolding parse_sms keyword_of command_of sms_parts fields longest_run normalize_county
    counties_by_key county_key
message_with_commas = refl

all_47 : length kenya_counties ≡ 47
all_47 = refl

-- A county's name with the apostrophe U+2019.
curly : normalize_county (codes "Murang" ++ (226 ∷ 128 ∷ 153 ∷ codes "a")) ≡ some (codes "Murang'a")
unfolding normalize_county counties_by_key county_key
curly = refl

county_example :
    (Memᴰ (codes "Tana River") kenya_counties ↔ (
      (normalize_county (codes "Tana River") ≡ some (codes "Tana River"))
      × (normalize_county (codes "Tana River" ++ codes " County") ≡ some (codes "Tana River"))))
    × (Memᴰ (codes "Tana River") kenya_counties
        ↔ ((s : Text) × (normalize_county s ≡ some (codes "Tana River"))))
county_example = normalize_county-kenya_counties (codes "Tana River")

dialogue_example :
    IsDialogue (split 42 session) sw (codes "Kisumu") (codes "Nyalenda A") water_rising
dialogue_example =
    ussd_reply-IsDialogue session sw (codes "Kisumu") (codes "Nyalenda A") water_rising ends

sms_example : Official (parse_sms (codes "RISK homabay"))
sms_example = parse_sms-Official (codes "RISK homabay")

abbrev ascii : Library
ascii = record {
  to_lower = λ c. c;
  is_word = λ c. leb 97 c && leb c 122;
  distance_meters = λ p q. 0;
}

abbrev nowhere : Within
nowhere p q meters = false

abbrev kisumu : Place
kisumu = record { lat = pos 0; lon = pos 34 }

abbrev nothing_stored : ChannelTables
nothing_stored = record {
  reports = record { reports = []; events = []; responses = [] };
  reporters = [];
}

-- The phone's first message makes its account, the next one is over a limit of one an hour.
abbrev after_first : ChannelTables
after_first =
    (store_channel_report ascii nowhere 5000 1 77 900 1 kisumu ussd (codes "Kisumu") [] flooding []
      nothing_stored []).1

first_reply :
    (store_channel_report ascii nowhere 5000 1 77 900 1 kisumu ussd
      (codes "Kisumu")
      []
      flooding
      []
      nothing_stored
      []).0
    ≡ thanks
unfolding store_channel_report reply_of store_for on_reports channel_account account_or_new
    create_account add_reporter recent_reports store_report
first_reply = refl

quota_example :
    recent_reports 5100 900
      (store_channel_report ascii nowhere 5100 1 77 901 2 kisumu ussd
        (codes "Kisumu")
        []
        flooding
        []
        after_first
        []).1.reports.reports
    ≤ max (recent_reports 5100 900 after_first.reports.reports) 1
quota_example =
    store_channel_report-Limited ascii nowhere 5100 1 2 900 77 901 kisumu ussd (codes "Kisumu") []
      flooding [] after_first []
