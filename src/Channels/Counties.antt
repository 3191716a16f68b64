-- ===== src/Channels/Counties.antt =====
-- kenya.go: the names of counties.
use mathlib.Core.List.{Memᴰ}
use mathlib.Core.List.Memᴰ.{head, tail}
use aura_risk.Base.{
  ◌≡◌, refl, ◌↔◌, sym, ap, ◌∙◌, inl, inr, Bool, true, false, ◌&&◌, Option, none, some, some_eq,
  List, [], ◌∷◌, ◌++◌, Text, codes, text_eq, equal_texts, arith, Bool-cases, Option-cases,
}
use aura_risk.Channels.{kenya_counties, county_key, counties_by_key, normalize_county}

abbrev is_name : Text → Option Text → Bool
is_name c none = false
is_name c (some d) = text_eq d c

named : (c : Text) (o : Option Text) → is_name c o ≡ true → o ≡ some c
named c none e = absurd (ground (arith, e))
named c (some d) e = ap some (equal_texts d c e)

-- Whether the name, and the name with "County", are each read as the county.
abbrev is_read : Text → Bool
is_read c = is_name c (normalize_county c) && is_name c (normalize_county (c ++ codes " County"))

abbrev each : (Text → Bool) → List Text → Bool
each p [] = true
each p (c ∷ cs) = p c && each p cs

all_read : each is_read kenya_counties ≡ true
unfolding normalize_county counties_by_key county_key
all_read = refl

each_one : (p : Text → Bool) (c : Text) (cs : List Text) → Memᴰ c cs → each p cs ≡ true → p c ≡ true
each_one p c [] m e = elim m [ ]
each_one p c (d ∷ ds) (head h) e = elim (Bool-cases (p d)) [
  | inl good ↦ ap p h ∙ good
  | inr bad ↦ absurd (cc (rw bad at e))
]
each_one p c (d ∷ ds) (tail m) e = elim (Bool-cases (p d)) [
  | inl good ↦ each_one p c ds m (rw good at e)
  | inr bad ↦ absurd (cc (rw bad at e))
]

counties_by_key-Mem : (cs : List Text) (k c : Text) → counties_by_key cs k ≡ some c → Memᴰ c cs
unfolding counties_by_key
counties_by_key-Mem [] k c e = absurd (ground (arith, e))
counties_by_key-Mem (d ∷ ds) k c e = elim (Option-cases (counties_by_key ds k)) [
  | inr (found, later) ↦
      tail (counties_by_key-Mem ds k c (later ∙ (rw (counties_by_key, later) at e)))
  | inl none_later ↦ elim (Bool-cases (text_eq (county_key d) k)) [
    | inl same ↦ head (sym (some_eq (rw (counties_by_key, none_later, same) at e)))
    | inr other ↦ absurd (ground (arith, rw (counties_by_key, none_later, other) at e))
  ]
]

-- One of the 47 names, which is read as itself, alone and with "County" after it.
abbrev pub IsOfficial : Text → Type 0
IsOfficial c =
    Memᴰ c kenya_counties
    × (normalize_county c ≡ some c)
    × (normalize_county (c ++ codes " County") ≡ some c)

official : (c : Text) → Memᴰ c kenya_counties → IsOfficial c
official c m =
    let read = each_one is_read c kenya_counties m all_read in
    let both =
      elim (Bool-cases (is_name c (normalize_county c)))
        as (λ _.
          (is_name c (normalize_county c) ≡ true)
          × (is_name c (normalize_county (c ++ codes " County")) ≡ true)) [
            | inl good ↦ (good, rw good at read)
            | inr bad ↦ absurd (cc (rw bad at read))
          ] in
    (
      m,
      named c (normalize_county c) both.0,
      named c (normalize_county (c ++ codes " County")) both.1,
    )

-- What a text is read as is one of the official names.
pub normalize_county-IsOfficial : (s c : Text) → normalize_county s ≡ some c → IsOfficial c
unfolding normalize_county
normalize_county-IsOfficial s c e =
    official c (counties_by_key-Mem kenya_counties (county_key s) c e)

-- The names in kenya_counties are exactly the texts that are read as themselves, alone and with "County"
-- after them; and they are exactly what some text is read as.
pub normalize_county-kenya_counties :
    (c : Text)
    → (Memᴰ c kenya_counties
        ↔ ((normalize_county c ≡ some c) × (normalize_county (c ++ codes " County") ≡ some c)))
      × (Memᴰ c kenya_counties ↔ ((s : Text) × (normalize_county s ≡ some c)))
normalize_county-kenya_counties c = (
  (
    (λ m. let (_, e, f) = official c m in (e, f)),
    (λ (e, f). (normalize_county-IsOfficial c c e).0),
  ),
  (
    (λ m. let (_, e, _) = official c m in (c, e)),
    (λ (s, e). (normalize_county-IsOfficial s c e).0),
  ),
)
