-- ===== src/Migrations/Versions.antt =====
-- database.go: what one migration does to the versions that are recorded.
use aura_risk.Base.{
  ℕ, zero, suc, ◌+◌, ◌≤◌, ◌<◌, ◌≡◌, refl, sym, ap, subst, inl, inr, ◌⊎◌, Bool, true, false, Option,
  none, some, some_eq, List, [], ◌∷◌, ltb, ◌==◌, length, All, All-imp, Result, ok, err, chain-holds,
  arith, Bool-cases, Option-cases,
}
use aura_risk.Migrations.{
  Migration, File, Database, load_from, is_recorded, add_legacy, mark_legacy, insert_legacy,
  bootstrap, run_sql, record_version, apply_body, rolled_back, apply, apply_all,
}

-- The versions from n on, one after another.
abbrev pub Numbered : ℕ → List Migration → Type 0
Numbered n [] = Unit {0}
Numbered n (m ∷ ms) = (m.version ≡ n) × Numbered (suc n) ms

pub load_from-Numbered :
    (n : ℕ) (fs : List File) (ms : List Migration) → load_from n fs ≡ some ms → Numbered n ms
unfolding load_from
load_from-Numbered n [] ms e = subst (Numbered n) (some_eq e) tt
load_from-Numbered n (f ∷ fs) ms e = elim (Option-cases f.prefix) [
  | inl no_number ↦ absurd (ground (arith, rw (load_from, no_number) at e))
  | inr (v, number) ↦ elim (Bool-cases (v == n)) [
    | inr other ↦ absurd (ground (arith, rw (load_from, number, other) at e))
    | inl same ↦ elim (Option-cases (load_from (suc n) fs)) [
      | inl fails ↦ absurd (ground (arith, rw (load_from, number, same, fails) at e))
      | inr (rest, loads) ↦
          subst (Numbered n) (some_eq (rw (load_from, number, same, loads) at e))
            (ground (arith, same), load_from-Numbered (suc n) fs rest loads)
    ]
  ]
]

-- Every version before n is recorded.
abbrev pub Upto : ℕ → List ℕ → Type 0
Upto n vs = (w : ℕ) → 1 ≤ w → w < n → is_recorded w vs ≡ true

abbrev Descending : List ℕ → Type 0
Descending [] = Unit {0}
Descending (v ∷ vs) = All (λ w. w < v) vs × Descending vs

-- The log is of recorded versions, the later ones larger; and with a version all before it are
-- recorded.
pub record IsOrdered (d : Database) : Type 0 where
  pub closed : (v : ℕ) → is_recorded v d.recorded ≡ true → Upto v d.recorded
  pub logged : All (λ v. (is_recorded v d.recorded ≡ true) × (1 ≤ v)) d.executed
  pub once : Descending d.executed

recorded-add_legacy :
    (n : ℕ) (vs : List ℕ) (w : ℕ) → is_recorded w vs ≡ true → is_recorded w (add_legacy n vs) ≡ true
unfolding add_legacy
recorded-add_legacy zero vs w e = e
recorded-add_legacy (suc n) vs w e = ground (arith, recorded-add_legacy n vs w e)

Upto-add_legacy : (n : ℕ) (vs : List ℕ) → Upto (suc n) (add_legacy n vs)
unfolding add_legacy
Upto-add_legacy zero vs w h k = absurd (omega arith)
Upto-add_legacy (suc n) vs w h k = elim (Bool-cases (w == suc n)) [
  | inl last ↦ ground (arith, last)
  | inr before ↦ ground (arith, before, Upto-add_legacy n vs w h)
]

add_legacy_parts :
    (n : ℕ) (vs : List ℕ) (w : ℕ)
    → is_recorded w (add_legacy n vs) ≡ true
    → (w < suc n) ⊎ (is_recorded w vs ≡ true)
unfolding add_legacy
add_legacy_parts zero vs w e = inr e
add_legacy_parts (suc n) vs w e = elim (Bool-cases (is_recorded (suc n) (add_legacy n vs))) [
  | inl there ↦ wider (add_legacy_parts n vs w (rw there at e))
  | inr new ↦ elim (Bool-cases (suc n == w)) [
    | inl last ↦ inl (ground (arith, last))
    | inr before ↦ wider (add_legacy_parts n vs w (rw (new, before) at e))
  ]
]
  where
    wider : (w < suc n) ⊎ (is_recorded w vs ≡ true) → (w < suc (suc n)) ⊎ (is_recorded w vs ≡ true)
    wider (inl h) = inl (omega arith)
    wider (inr h) = inr h

pub mark_legacy-IsOrdered :
    (d : Database) (legacy : Option ℕ)
    → IsOrdered d
    → IsOrdered (record d { has_table = true; recorded = mark_legacy legacy d.recorded })
mark_legacy-IsOrdered d none o = record { closed = o.closed; logged = o.logged; once = o.once }
mark_legacy-IsOrdered d (some n) o = record {
  closed = λ v e w h k. elim (add_legacy_parts n d.recorded v e) [
    | inl small ↦ Upto-add_legacy n d.recorded w h (omega arith)
    | inr there ↦ recorded-add_legacy n d.recorded w (o.closed v there w h k)
  ];
  logged = All-imp d.executed (λ v (e, p). (recorded-add_legacy n d.recorded v e, p)) o.logged;
  once = o.once;
}

-- A transaction that applies a migration leaves the database as it was, and went well only where
-- the version was recorded before; or it ran the file and recorded it.
pub apply_cases :
    (m : Migration) (d : Database) (f : List Bool)
    → (((apply m d f).1 ≡ d)
        × ((b : Bool) → (apply m d f).0 ≡ ok b → is_recorded m.version d.recorded ≡ true))
      ⊎ ((is_recorded m.version d.recorded ≡ false)
          × ((apply m d f).1 ≡ record_version m.version (run_sql m.version d)))
unfolding apply apply_body rolled_back
apply_cases m d f = ground arith

-- What bootstrap leaves, and what it leaves if it went well.
pub bootstrap_cases :
    (d : Database) (f : List Bool)
    → (((bootstrap d f).1 ≡ d) × ((u : Unit {0}) → (bootstrap d f).0 ≡ ok u → ⊥))
      ⊎ ((bootstrap d f).1
          ≡ record d { has_table = true; recorded = mark_legacy d.legacy d.recorded })
unfolding bootstrap insert_legacy
bootstrap_cases d f = ground arith

-- A version that is not recorded is after every one that was executed.
executed_before :
    (d : Database) (v : ℕ) (ws : List ℕ)
    → IsOrdered d
    → 1 ≤ v
    → is_recorded v d.recorded ≡ false
    → All (λ w. (is_recorded w d.recorded ≡ true) × (1 ≤ w)) ws
    → All (λ w. w < v) ws
executed_before d v [] o p new all = tt
executed_before d v (w ∷ ws) o p new ((there, q), all) =
    (below (Bool-cases (ltb w v)), executed_before d v ws o p new all)
  where
    below : (ltb w v ≡ true) ⊎ (ltb w v ≡ false) → w < v
    below (inl h) = ground (arith, h)
    below (inr h) = elim (Bool-cases (v == w)) [
      | inl same ↦
          let e : v ≡ w = ground (arith, same) in
          absurd (cc (ap (λ u. is_recorded u d.recorded) e, there, new))
      | inr other ↦ absurd (cc (o.closed w there v p (ground (arith, h, other)), new))
    ]

recorded_too :
    (v : ℕ) (vs ws : List ℕ)
    → All (λ w. (is_recorded w vs ≡ true) × (1 ≤ w)) ws
    → All (λ w. (is_recorded w (v ∷ vs) ≡ true) × (1 ≤ w)) ws
recorded_too v vs [] all = tt
recorded_too v vs (w ∷ ws) ((e, p), all) = ((ground (arith, e), p), recorded_too v vs ws all)

run-IsOrdered :
    (d : Database) (v : ℕ)
    → IsOrdered d
    → 1 ≤ v
    → Upto v d.recorded
    → is_recorded v d.recorded ≡ false
    → IsOrdered (record_version v (run_sql v d))
run-IsOrdered d v o p before new = record {
  closed = λ u e w h k. elim (Bool-cases (v == u)) [
    | inl same ↦ ground (arith, same, before w h)
    | inr other ↦ ground (arith, o.closed u (rw other at e) w h k)
  ];
  logged = ((ground arith, p), recorded_too v d.recorded d.executed o.logged);
  once = (executed_before d v d.executed o p new o.logged, o.once);
}

-- The end of one migration: the invariant, and where it went well the next version's start.
abbrev pub Applies : {A : Type 0} → ℕ → Result A → Database → Type 0
Applies v (ok a) d = IsOrdered d × Upto v d.recorded
Applies v (err s m) d = IsOrdered d

applied_or_not :
    {A : Type 0} (v : ℕ) (r : Result A) (d : Database)
    → IsOrdered d
    → ((a : A) → r ≡ ok a → Upto v d.recorded)
    → Applies v r d
applied_or_not v (ok a) d o h = (o, h a refl)
applied_or_not v (err s m) d o h = o

next_start : (v : ℕ) (vs : List ℕ) → Upto v vs → is_recorded v vs ≡ true → Upto (suc v) vs
next_start v vs before there w h k = elim (Bool-cases (w == v)) [
  | inl same ↦ subst (λ u. is_recorded u vs ≡ true) (sym (ground (arith, same))) there
  | inr other ↦ before w h (ground (arith, other))
]

Upto-cons : (v : ℕ) (vs : List ℕ) → Upto v vs → Upto (suc v) (v ∷ vs)
Upto-cons v vs before w h k = ground (arith, before w h)

apply-Applies :
    (m : Migration) (v : ℕ) (d : Database) (f : List Bool)
    → m.version ≡ v
    → 1 ≤ v
    → IsOrdered d
    → Upto v d.recorded
    → Applies (suc v) (apply m d f).0 (apply m d f).1
apply-Applies m v d f e p o before = elim (apply_cases m d f) [
  | inl (same, went) ↦
      applied_or_not (suc v) (apply m d f).0 (apply m d f).1 (subst IsOrdered (sym same) o) (λ b h.
        subst (λ x. Upto (suc v) x.recorded) (sym same)
          (next_start v d.recorded before
            (subst (λ u. is_recorded u d.recorded ≡ true) e (went b h))))
  | inr (new, ran) ↦
      let fresh : is_recorded v d.recorded ≡ false =
        subst (λ u. is_recorded u d.recorded ≡ false) e new in
      let run : (apply m d f).1 ≡ record_version v (run_sql v d) =
        subst (λ u. (apply m d f).1 ≡ record_version u (run_sql u d)) e ran in
      applied_or_not (suc v) (apply m d f).0 (apply m d f).1
        (subst IsOrdered (sym run) (run-IsOrdered d v o p before fresh))
        (λ b h. subst (λ x. Upto (suc v) x.recorded) (sym run) (Upto-cons v d.recorded before))
]

pub apply_all-Applies :
    (ms : List Migration) (v : ℕ) (d : Database) (f : List Bool)
    → Numbered v ms
    → 1 ≤ v
    → IsOrdered d
    → Upto v d.recorded
    → Applies (v + length ms) (apply_all ms d f).0 (apply_all ms d f).1
unfolding apply_all
apply_all-Applies [] v d f n p o before = (o, λ w h k. before w h (omega arith))
apply_all-Applies (m ∷ ms) v d f (e, n) p o before =
    chain-holds (Applies (suc v)) (Applies (v + length (m ∷ ms))) (apply m d f)
      (λ applied. apply_all ms) (apply-Applies m v d f e p o before)
      (λ b u g (o', before').
        subst (λ k. Applies k (apply_all ms u g).0 (apply_all ms u g).1) (omega arith)
          (apply_all-Applies ms (suc v) u g n (omega arith) o' before'))
      (λ s t u q. q)
