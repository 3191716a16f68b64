-- ===== src/Curation/Examples.antt =====
-- curation.go at concrete inputs.
use aura_risk.Base.{true, false, ◌&&◌, none, some, [], ◌∷◌, codes, leb, if◌then◌else◌, ◌+◌}
use aura_risk.Base.Int.{pos}
use aura_risk.Curation.{
  Library, Place, NewReport, DuplicateCandidate, Evidence, flooding, water_rising, find_duplicate,
}
use aura_risk.Curation.Duplicates.{IsDuplicate, find_duplicate-IsDuplicate}

-- ASCII letters, and every two places 100 m apart.
abbrev ascii : Library
ascii = record {
  to_lower = λ c. if leb 65 c && leb c 90 then c + 32 else c;
  is_word = λ c. leb 97 c && leb c 122;
  distance_meters = λ p q. 100;
}

abbrev here : Place
here = record { lat = pos 0; lon = pos 0 }

abbrev report : NewReport
report = record {
  account_id = some 1;
  category = flooding;
  note = codes "Water rising, fast!!";
  place = here;
  created_at = 5000;
}

abbrev earlier : DuplicateCandidate
earlier = record {
  id = 7;
  duplicate_of = none;
  account_id = none;
  category = water_rising;
  note = codes "water RISING fast";
  place = here;
  created_at = 1000;
}

found_example : IsDuplicate ascii report (earlier ∷ []) (find_duplicate ascii report (earlier ∷ []))
found_example = find_duplicate-IsDuplicate ascii report (earlier ∷ [])

abbrev seen_twice : Evidence
seen_twice = record {
  independent_reporters = 2;
  anonymous_corroborations = 0;
  has_ready_photo = false;
  signed_in = false;
  reporter_verified = 0;
  reporter_rejected = 0;
}

abbrev best : Evidence
best = record {
  independent_reporters = 2;
  anonymous_corroborations = 1;
  has_ready_photo = true;
  signed_in = true;
  reporter_verified = 2;
  reporter_rejected = 2;
}
