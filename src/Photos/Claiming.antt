-- ===== src/Photos/Claiming.antt =====
-- workers/photos.go keeps a report's photos within the limit.
use aura_risk.Base.{
  Distinct, always, chain, return, ℕ, ◌≡◌, refl, inl, inr, subst, sym, Bool, true, false, ◌&&◌,
  Option, none, some, List, [], ◌∷◌, exists, update, All, All-imp, ok, err, Run, failing, later,
  arith, Bool-cases, Option-cases,
}
use aura_risk.Photos.{Photo, processing, Tables, counts}
use aura_risk.Photos.Worker.{
  Services, claimable, oldest, lease_row, lease_oldest, leased, claim, process_one, process_claimed,
  drain_once,
}
use aura_risk.Photos.Publishing.{process_one-IsProcessed}
use aura_risk.Photos.Counting.{has_id, IsLimited, update-IsLimited}

none_of :
    (Q : Photo → Type 0) (i : ℕ) (ps : List Photo)
    → exists (has_id i) ps ≡ false
    → All (λ x. has_id i x ≡ true → Q x) ps
none_of Q i [] e = tt
none_of Q i (x ∷ ps) e = elim (Bool-cases (has_id i x)) [
  | inl hit ↦ absurd (ground arith)
  | inr miss ↦ (λ h. absurd (ground arith), none_of Q i ps (ground arith))
]

exists_both :
    (i : ℕ) (test : Photo → Bool) (ps : List Photo)
    → exists (λ x. has_id i x && test x) ps ≡ true
    → exists (has_id i) ps ≡ true
exists_both i test [] e = e
exists_both i test (x ∷ ps) e = ground (arith, exists_both i test ps)

-- With distinct ids the rows of an id are one row.
same_row :
    (i : ℕ) (test : Photo → Bool) (ps : List Photo)
    → Distinct (λ p. p.id) ps
    → exists (λ x. has_id i x && test x) ps ≡ true
    → All (λ x. has_id i x ≡ true → test x ≡ true) ps
same_row i test [] d e = tt
same_row i test (x ∷ ps) d e = elim (Bool-cases (has_id i x)) [
  | inl hit ↦
      let gone : exists (has_id i) ps ≡ false =
        subst (λ j. exists (has_id j) ps ≡ false) (ground arith) d.0 in
      (λ h. ground (arith, exists_both i test ps), none_of (λ x. test x ≡ true) i ps gone)
  | inr miss ↦ (λ h. absurd (ground arith), same_row i test ps d.1 (ground arith))
]

oldest_there :
    (test : Photo → Bool) (ps : List Photo) (q : Photo)
    → oldest test ps ≡ some q
    → exists (λ x. has_id q.id x && test x) ps ≡ true
unfolding oldest
oldest_there test [] q e = cc
oldest_there test (p ∷ ps) q e = elim (Bool-cases (test p)) [
  | inr miss ↦ ground (arith, oldest_there test ps q (rw miss at e))
  | inl hit ↦ elim (Option-cases (oldest test ps)) [
    | inl alone ↦ ground arith
    | inr (r, more) ↦ ground (arith, oldest_there test ps r more)
  ]
]

abbrev InProcess : ℕ → Photo → Type 0
InProcess i x = has_id i x ≡ true → x.status ≡ processing

claimed_counted :
    (now report : ℕ) (g : Photo → Photo) (x : Photo)
    → (g x).report_id ≡ x.report_id
    → x.status ≡ processing
    → counts now report (g x) ≡ true
    → counts now report x ≡ true
claimed_counted now report g x same status e = ground arith

process_one-IsLimited :
    (s : Services) (now : ℕ) (photo : Photo) (t : Tables) (f : List Bool)
    → All (InProcess photo.id) t.photos
    → IsLimited now t
    → IsLimited now (process_one s now photo t f).1
process_one-IsLimited s now photo t f claimed l = elim (process_one-IsProcessed s now photo t f) [
  | inl same ↦ rw same l
  | inr p ↦ subst (IsLimited now) (sym p.result) (
      update-IsLimited (has_id photo.id) p.change now t p.same_id
        (λ report.
          All-imp t.photos
            (λ x c h e. claimed_counted now report p.change x (p.same_report x) (c h) e) claimed)
        l)
]

process_claimed-IsLimited :
    (s : Services) (now : ℕ) (photo : Photo) (t : Tables) (f : List Bool)
    → All (InProcess photo.id) t.photos
    → IsLimited now t
    → IsLimited now (process_claimed s now (some photo) t f).1
process_claimed-IsLimited s now photo t f claimed l =
    ended (process_one s now photo t f) (process_one-IsLimited s now photo t f claimed l)
  where
    ended :
        (r : Run Tables (Unit {0}))
        → IsLimited now r.1
        → IsLimited now (chain r (λ _. return true)).1
    ended (ok a, t', f') k = k
    ended (err c m, t', f') k = k

leased_InProcess :
    (now i : ℕ) (ps : List Photo)
    → All (λ x. has_id i x ≡ true → claimable now x ≡ true) ps
    → All (InProcess i) (update (has_id i) (lease_row now) ps)
unfolding lease_row claimable
leased_InProcess now i [] c = tt
leased_InProcess now i (x ∷ ps) c = (λ h. ground (arith, c.0), leased_InProcess now i ps c.1)

lease-IsLimited :
    (now i : ℕ) (t : Tables)
    → IsLimited now t
    → IsLimited now (record t { photos = update (has_id i) (lease_row now) t.photos })
unfolding lease_row
lease-IsLimited now i t l =
    update-IsLimited (has_id i) (lease_row now) now t (λ x. refl)
      (λ report. always _ t.photos λ x _ e. e) l

pub drain_once-IsLimited :
    (s : Services) (now : ℕ) (t : Tables) (f : List Bool)
    → IsLimited now t
    → IsLimited now (drain_once s now t f).1
unfolding drain_once claim
drain_once-IsLimited s now t f l = elim (Bool-cases (failing f)) [
  | inl bad ↦ rw bad l
  | inr good ↦ rw good (drained (oldest (claimable now) t.photos) refl)
]
  where
    drained :
        (o : Option Photo)
        → oldest (claimable now) t.photos ≡ o
        → IsLimited now
            (process_claimed s now
              (leased now o)
              (record t { photos = lease_oldest now o t.photos })
              (later f)).1
    drained none e = l
    drained (some q) e =
        process_claimed-IsLimited s now (lease_row now q)
          (record t { photos = update (has_id q.id) (lease_row now) t.photos }) (later f)
          (unfold lease_row in
            leased_InProcess now q.id t.photos (
              same_row q.id (claimable now) t.photos l.distinct
                (oldest_there (claimable now) t.photos q e)))
          (lease-IsLimited now q.id t l)
