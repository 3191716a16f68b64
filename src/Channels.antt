-- ===== src/Channels.antt =====
-- The SMS and USSD channels: aurarisk-backend/internal/handlers/channels.go, its menus, and
-- internal/services/channels.go and internal/services/kenya.go. Texts are ASCII here, on which
-- unicode's letters, spaces and digits are those of ASCII; of other characters only the apostrophe
-- U+2019 is read, by its three bytes. A reply stands for its text: whether it
-- asks for more (CON), ends (END), is a county's risk, or is that of a stored report.
pub mod Counties
pub mod Menu
pub mod Dialogue
pub mod Sms
pub mod Filing
pub mod Quota
mod Examples
use aura_risk.Base.{
  ℕ, zero, suc, ◌+◌, ◌-◌, ◌≤◌, ◌≡◌, Bool, true, false, not, ◌&&◌, ◌||◌, Option, none, some, List,
  [], ◌∷◌, ◌++◌, ltb, leb, ◌==◌, if◌then◌else◌, length, Text, codes, text_eq, is_empty, find,
  exists, map, min,
}
use aura_risk.Curation.{Category, flooding, water_rising, road_blocked, drainage_issue}

abbrev pub kenya_counties : List Text
kenya_counties =
    codes "Mombasa"
    ∷ codes "Kwale"
    ∷ codes "Kilifi"
    ∷ codes "Tana River"
    ∷ codes "Lamu"
    ∷ codes "Taita-Taveta"
    ∷ codes "Garissa"
    ∷ codes "Wajir"
    ∷ codes "Mandera"
    ∷ codes "Marsabit"
    ∷ codes "Isiolo"
    ∷ codes "Meru"
    ∷ codes "Tharaka-Nithi"
    ∷ codes "Embu"
    ∷ codes "Kitui"
    ∷ codes "Machakos"
    ∷ codes "Makueni"
    ∷ codes "Nyandarua"
    ∷ codes "Nyeri"
    ∷ codes "Kirinyaga"
    ∷ codes "Murang'a"
    ∷ codes "Kiambu"
    ∷ codes "Turkana"
    ∷ codes "West Pokot"
    ∷ codes "Samburu"
    ∷ codes "Trans Nzoia"
    ∷ codes "Uasin Gishu"
    ∷ codes "Elgeyo-Marakwet"
    ∷ codes "Nandi"
    ∷ codes "Baringo"
    ∷ codes "Laikipia"
    ∷ codes "Nakuru"
    ∷ codes "Narok"
    ∷ codes "Kajiado"
    ∷ codes "Kericho"
    ∷ codes "Bomet"
    ∷ codes "Kakamega"
    ∷ codes "Vihiga"
    ∷ codes "Bungoma"
    ∷ codes "Busia"
    ∷ codes "Siaya"
    ∷ codes "Kisumu"
    ∷ codes "Homa Bay"
    ∷ codes "Migori"
    ∷ codes "Kisii"
    ∷ codes "Nyamira"
    ∷ codes "Nairobi"
    ∷ []

abbrev pub max_ward_bytes : ℕ
max_ward_bytes = 100

-- strings.ToLower
abbrev pub lower_byte : ℕ → ℕ
lower_byte c = if leb 65 c && leb c 90 then c + 32 else c

abbrev pub to_lower : Text → Text
to_lower [] = []
to_lower (c ∷ cs) = lower_byte c ∷ to_lower cs

-- strings.ToUpper
abbrev pub upper_byte : ℕ → ℕ
upper_byte c = if leb 97 c && leb c 122 then c - 32 else c

abbrev pub to_upper : Text → Text
to_upper [] = []
to_upper (c ∷ cs) = upper_byte c ∷ to_upper cs

abbrev pub is_space : ℕ → Bool
is_space c = c == 32 || leb 9 c && leb c 13

-- strings.TrimSpace
abbrev pub trim_left : Text → Text
trim_left [] = []
trim_left (c ∷ cs) = if is_space c then trim_left cs else c ∷ cs

abbrev pub drop_right : ℕ → Text → Text
drop_right c [] = if is_space c then [] else c ∷ []
drop_right c (d ∷ ds) = c ∷ d ∷ ds

abbrev pub trim_right : Text → Text
trim_right [] = []
trim_right (c ∷ cs) = drop_right c (trim_right cs)

abbrev pub trim_space : Text → Text
trim_space t = trim_right (trim_left t)

-- strings.TrimSuffix
abbrev pub trim_suffix : Text → Text → Text
trim_suffix suffix [] = []
trim_suffix suffix (c ∷ cs) =
    let rest = trim_suffix suffix cs in if text_eq (c ∷ cs) suffix then [] else c ∷ rest

abbrev pub joins_words : ℕ → Bool
joins_words c = c == 32 || c == 45 || c == 39

-- The bytes of the apostrophe U+2019.
abbrev pub is_apostrophe : Text → Bool
is_apostrophe (a ∷ b ∷ c ∷ cs) = a == 226 && b == 128 && c == 153
is_apostrophe _ = false

-- The text without the bytes that the Replacer removes; some bytes are left to skip.
abbrev pub unjoined_after : ℕ → Text → Text
unjoined_after skipped [] = []
unjoined_after (suc n) (c ∷ cs) = unjoined_after n cs
unjoined_after zero (c ∷ cs) =
    let rest = unjoined_after 0 cs in
    let after = unjoined_after 2 cs in
    if joins_words c then rest else if is_apostrophe (c ∷ cs) then after else c ∷ rest

abbrev pub unjoined : Text → Text
unjoined = unjoined_after 0

unfoldable pub county_key : Text → Text
county_key s =
    let short = trim_suffix (codes " county") (to_lower (trim_space s)) in
    unjoined (if text_eq short (codes "nairobi city") then codes "nairobi" else short)

-- countiesByKey, of which a later county of the same key would be the one; no two have one.
unfoldable pub counties_by_key : List Text → Text → Option Text
counties_by_key [] k = none
counties_by_key (c ∷ cs) k = elim (counties_by_key cs k) [
  | some d ↦ some d
  | none ↦ if text_eq (county_key c) k then some c else none
]

unfoldable pub normalize_county : Text → Option Text
normalize_county s = counties_by_key kenya_counties (county_key s)

-- NormalizePhone
abbrev pub digits_of : Text → Text
digits_of [] = []
digits_of (c ∷ cs) = if leb 48 c && leb c 57 then c ∷ digits_of cs else digits_of cs

unfoldable pub international : Text → Text
international [] = []
international (d ∷ ds) = if length ds == 9 && d == 48 then codes "254" ++ ds else d ∷ ds

unfoldable pub normalize_phone : Text → Text
normalize_phone phone = international (digits_of phone)

-- strings.Split
unfoldable pub split : ℕ → Text → List Text
split sep [] = [] ∷ []
split sep (c ∷ cs) = elim (split sep cs) [
  | [] ↦ []
  | p ∷ ps ↦ if c == sep then [] ∷ p ∷ ps else (c ∷ p) ∷ ps
]
