-- ===== src/Channels/Dialogue.antt =====
-- handlers/channels.go: the sessions that file a report.
use aura_risk.Base.{
  ◌≤◌, ◌≡◌, refl, sym, ap, subst, ◌∙◌, inl, inr, true, false, some, List, [], ◌∷◌, ltb, length,
  Text, codes, text_eq, arith, Bool-cases, Option-cases,
}
use aura_risk.Curation.{Category}
use aura_risk.Channels.{normalize_county, max_ward_bytes, split}
use aura_risk.Channels.Menu.{
  Lang, menu, ask_county, ask_ward, ask_category, con, report, ussd_categories, ussd_lang, ward_of,
  risk_menu, category_menu, ward_menu, report_menu, choice_menu, ussd_parts, ussd_reply,
}

-- Five answers, each of which was asked for, in a language, with an official county, a ward that
-- fits and a category.
pub record IsDialogue (answers : List Text) (lang : Lang) (county ward : Text) (category : Category)
    : Type 0 where
  pub first : Text
  pub second : Text
  pub third : Text
  pub fourth : Text
  pub fifth : Text
  pub five : answers ≡ first ∷ second ∷ third ∷ fourth ∷ fifth ∷ []
  pub asked_menu : ussd_parts (first ∷ []) ≡ con lang menu
  pub asked_county : ussd_parts (first ∷ second ∷ []) ≡ con lang ask_county
  pub asked_ward : ussd_parts (first ∷ second ∷ third ∷ []) ≡ con lang ask_ward
  pub asked_category : ussd_parts (first ∷ second ∷ third ∷ fourth ∷ []) ≡ con lang ask_category
  pub known : normalize_county third ≡ some county
  pub fits : length ward ≤ max_ward_bytes
  pub chosen : ussd_categories fifth ≡ some category

report_eq :
    {l l' : Lang} {c c' w w' : Text} {k k' : Category}
    → report l c w k ≡ report l' c' w' k'
    → (l ≡ l') × (c ≡ c') × (w ≡ w') × (k ≡ k')
report_eq e = (cc, cc, cc, cc)

category_menu-report :
    (l lang : Lang) (c county w ward : Text) (rest : List Text) (category : Category)
    → category_menu l c w rest ≡ report lang county ward category
    → (k : Text) × (rest ≡ k ∷ [])
      × (ussd_categories k ≡ some category)
      × (l ≡ lang)
      × (c ≡ county)
      × (w ≡ ward)
unfolding category_menu
category_menu-report l lang c county w ward [] category e = absurd (ground (arith, e))
category_menu-report l lang c county w ward (k ∷ more ∷ rest) category e =
    absurd (ground (arith, e))
category_menu-report l lang c county w ward (k ∷ []) category e =
    elim (Option-cases (ussd_categories k)) [
      | inl miss ↦ absurd (ground (arith, e, miss))
      | inr (found, hit) ↦
          let (p, q, r, z) = report_eq (rw (category_menu, hit) at e) in
          (k, refl, hit ∙ ap some z, p, q, r)
    ]

ward_menu-report :
    (l lang : Lang) (c county ward : Text) (rest : List Text) (category : Category)
    → ward_menu l c rest ≡ report lang county ward category
    → (w : Text) × (k : Text) × (rest ≡ w ∷ k ∷ [])
      × (ltb max_ward_bytes (length (ward_of w)) ≡ false)
      × (ussd_categories k ≡ some category)
      × (l ≡ lang)
      × (c ≡ county)
      × (ward_of w ≡ ward)
unfolding ward_menu
ward_menu-report l lang c county ward [] category e = absurd (ground (arith, e))
ward_menu-report l lang c county ward (w ∷ rest) category e =
    elim (Bool-cases (ltb max_ward_bytes (length (ward_of w)))) [
      | inl long ↦ absurd (ground (arith, e, long))
      | inr fits ↦
          let (k, one, z, p, q, r) =
            category_menu-report l lang c county (ward_of w) ward rest category (rw fits at e) in
          (w, k, ap (λ ps. w ∷ ps) one, fits, z, p, q, r)
    ]

report_menu-report :
    (l lang : Lang) (county ward : Text) (rest : List Text) (category : Category)
    → report_menu l rest ≡ report lang county ward category
    → (c : Text) × (w : Text) × (k : Text) × (rest ≡ c ∷ w ∷ k ∷ [])
      × (normalize_county c ≡ some county)
      × (ltb max_ward_bytes (length (ward_of w)) ≡ false)
      × (ussd_categories k ≡ some category)
      × (l ≡ lang)
      × (ward_of w ≡ ward)
unfolding report_menu
report_menu-report l lang county ward [] category e = absurd (ground (arith, e))
report_menu-report l lang county ward (c ∷ rest) category e =
    elim (Option-cases (normalize_county c)) [
      | inl miss ↦ absurd (ground (arith, e, miss))
      | inr (found, hit) ↦
          let (w, k, two, fits, z, p, q, r) =
            ward_menu-report l lang found county ward rest category (rw (report_menu, hit) at e) in
          (c, w, k, ap (λ ps. c ∷ ps) two, hit ∙ ap some q, fits, z, p, r)
    ]

risk_menu-report :
    (l lang : Lang) (county ward : Text) (rest : List Text) (category : Category)
    → risk_menu l rest ≡ report lang county ward category
    → ⊥
unfolding risk_menu
risk_menu-report l lang county ward [] category e = ground (arith, e)
risk_menu-report l lang county ward (c ∷ []) category e = ground (arith, e)
risk_menu-report l lang county ward (c ∷ d ∷ rest) category e = ground (arith, e)

-- The answers of a dialogue, where the second is the choice 2.
dialogue :
    (a b c w k : Text) (lang : Lang) (county ward : Text) (category : Category)
    → ussd_lang a ≡ some lang
    → text_eq b (codes "1") ≡ false
    → text_eq b (codes "2") ≡ true
    → normalize_county c ≡ some county
    → ltb max_ward_bytes (length (ward_of w)) ≡ false
    → ussd_categories k ≡ some category
    → ward_of w ≡ ward
    → IsDialogue (a ∷ b ∷ c ∷ w ∷ k ∷ []) lang county ward category
unfolding ussd_parts choice_menu report_menu ward_menu category_menu
dialogue a b c w k lang county ward category x not_one two known fits chosen named = record {
  first = a;
  second = b;
  third = c;
  fourth = w;
  fifth = k;
  five = refl;
  asked_menu = rw (ussd_parts, x) refl;
  asked_county = rw (ussd_parts, x, not_one, two) refl;
  asked_ward = rw (ussd_parts, x, not_one, two, report_menu, known) refl;
  asked_category = rw (ussd_parts, x, not_one, two, report_menu, known, fits) refl;
  known = known;
  fits = subst (λ t. length t ≤ max_ward_bytes) named (ground (arith, fits));
  chosen = chosen;
}

choice_menu-report :
    (a : Text) (l lang : Lang) (county ward : Text) (rest : List Text) (category : Category)
    → ussd_lang a ≡ some l
    → choice_menu l rest ≡ report lang county ward category
    → IsDialogue (a ∷ rest) lang county ward category
unfolding choice_menu
choice_menu-report a l lang county ward [] category x e = absurd (ground (arith, e))
choice_menu-report a l lang county ward (b ∷ rest) category x e =
    elim (Bool-cases (text_eq b (codes "1"))) [
      | inl one ↦ absurd (risk_menu-report l lang county ward rest category (rw one at e))
      | inr not_one ↦ elim (Bool-cases (text_eq b (codes "2"))) [
        | inr neither ↦ absurd (ground (arith, e, not_one, neither))
        | inl two ↦
            let (c, w, k, three, known, fits, chosen, p, named) =
              report_menu-report l lang county ward rest category (rw (not_one, two) at e) in
            subst (λ ps. IsDialogue (a ∷ b ∷ ps) lang county ward category) (sym three)
              (dialogue a b c w k lang county ward category (x ∙ ap some p) not_one two known fits
                chosen named)
      ]
    ]

-- A session files a report only at the end of a whole dialogue: five answers, before each of which
-- but the first the screen asked for it in the same language, with a county that is known, a ward of
-- at most 100 bytes and a category.
pub ussd_reply-IsDialogue :
    (text : Text) (lang : Lang) (county ward : Text) (category : Category)
    → ussd_reply text ≡ report lang county ward category
    → IsDialogue (split 42 text) lang county ward category
unfolding ussd_reply ussd_parts
ussd_reply-IsDialogue [] lang county ward category e = absurd (ground (arith, e))
ussd_reply-IsDialogue (i ∷ text) lang county ward category e = of_parts (split 42 (i ∷ text)) e
  where
    of_parts :
        (parts : List Text)
        → ussd_parts parts ≡ report lang county ward category
        → IsDialogue parts lang county ward category
    of_parts [] h = absurd (ground (arith, h))
    of_parts (a ∷ rest) h = elim (Option-cases (ussd_lang a)) [
      | inl none_chosen ↦ absurd (ground (arith, h, none_chosen))
      | inr (l, x) ↦
          choice_menu-report a l lang county ward rest category x (rw (ussd_parts, x) at h)
    ]
