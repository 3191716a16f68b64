-- ===== src/Webhooks/Settled.antt =====
-- webhooks.go: what is never posted again.
use aura_risk.Base.{
  order_by, All-limit, All-order_by, exists-append, All-append, ℕ, ◌≡◌, refl, ap, inl, inr, Bool,
  true, false, not, ◌&&◌, Option, none, some, List, [], ◌∷◌, leb, ◌==◌, exists, select, update,
  count_rows, All, ◌>>=◌, ◌>>◌, query, exec, Preserves, bind-Preserves, query-Preserves,
  exec-Preserves, chain-query, arith, Bool-cases,
}
use aura_risk.Webhooks.{
  Announced, Delivery, Outbox, webhook_batch, webhook_max_attempts, announces, queue_one, queue_all,
  queue_verified, is_due, due_deliveries, after_post, set_posted, send_webhook, deliver_all,
  run_once, run_all,
}

-- A delivery that has been made, or was attempted ten times.
abbrev pub closed : Delivery → Bool
closed d = elim d.delivered_at [ some at ↦ true | none ↦ leb webhook_max_attempts d.attempts ]

-- There is a delivery of report i, and it is closed.
abbrev pub Settled : ℕ → List Delivery → Type 0
Settled i ds =
    (exists (λ d. d.report_id == i) ds ≡ true)
    × All (λ d. (d.report_id == i) ≡ true → closed d ≡ true) ds

pub posts_of : ℕ → Outbox → ℕ
posts_of i t = count_rows (λ j. j == i) t.posted

abbrev OfOthers : ℕ → List Delivery → Type 0
OfOthers i ds = All (λ d. (d.report_id == i) ≡ false) ds

-- Nothing settled is due.
closed-is_due :
    (urls : List ℕ) (now : ℕ) (d : Delivery) → closed d ≡ true → is_due urls now d ≡ false
unfolding is_due
closed-is_due urls now d e = closed_cases d.delivered_at refl
  where
    closed_cases : (at : Option ℕ) → d.delivered_at ≡ at → is_due urls now d ≡ false
    closed_cases (some at) h = rw h refl
    closed_cases none h = ground (arith, h, e)

due_selected :
    (urls : List ℕ) (now i : ℕ) (ds : List Delivery)
    → All (λ d. (d.report_id == i) ≡ true → closed d ≡ true) ds
    → OfOthers i (select (is_due urls now) ds)
due_selected urls now i [] a = tt
due_selected urls now i (d ∷ ds) a = elim (Bool-cases (is_due urls now d)) [
  | inr e ↦ rw e (due_selected urls now i ds a.1)
  | inl e ↦ rw e (
    elim (Bool-cases (d.report_id == i)) [
      | inl same ↦ absurd (cc (closed-is_due urls now d (a.0 same), e))
      | inr other ↦ other
    ],
    due_selected urls now i ds a.1,
  )
]

due_deliveries-OfOthers :
    (urls : List ℕ) (now i : ℕ) (ds : List Delivery)
    → Settled i ds
    → OfOthers i (due_deliveries urls now ds)
unfolding due_deliveries
due_deliveries-OfOthers urls now i ds s =
    All-limit (λ d. (d.report_id == i) ≡ false) webhook_batch
      (order_by (λ d. d.next_attempt_at) (select (is_due urls now) ds))
      (All-order_by (λ d. (d.report_id == i) ≡ false) (λ d. d.next_attempt_at)
        (select (is_due urls now) ds) (due_selected urls now i ds s.1))

-- A queued report has no delivery yet.
queue_one-Settled :
    (urls : List ℕ) (now i : ℕ) (ds : List Delivery) (r : Announced)
    → Settled i ds
    → Settled i (queue_one urls now ds r)
unfolding queue_one
queue_one-Settled urls now i ds r s = of_county r.county refl
  where
    new_other : (exists (λ d. d.report_id == r.id) ds ≡ false) → (r.id == i) ≡ false
    new_other e = elim (Bool-cases (r.id == i)) [
      | inl f ↦
          let same : r.id ≡ i = ground (arith, f) in
          absurd (cc (ap (λ j. exists (λ d. d.report_id == j) ds) same, e, s.0))
      | inr f ↦ f
    ]

    of_county : (c : Option ℕ) → r.county ≡ c → Settled i (queue_one urls now ds r)
    of_county none h = rw h s
    of_county (some c) h =
        elim (Bool-cases (announces urls now r c && not (exists (λ d. d.report_id == r.id) ds))) [
          | inl e ↦
              rw (h, e)
                (
                  exists-append (λ d. d.report_id == i) ds _ s.0,
                  All-append (λ d. (d.report_id == i) ≡ true → closed d ≡ true) ds _ s.1
                      ((λ f. absurd (cc (new_other (ground (arith, e)), f))), tt),
                )
          | inr e ↦ rw (h, e) s
        ]

queue_all-Settled :
    (urls : List ℕ) (now i : ℕ) (ds : List Delivery) (rs : List Announced)
    → Settled i ds
    → Settled i (queue_all urls now ds rs)
unfolding queue_all
queue_all-Settled urls now i ds [] s = s
queue_all-Settled urls now i ds (r ∷ rs) s =
    queue_all-Settled urls now i (queue_one urls now ds r) rs (queue_one-Settled urls now i ds r s)

after_post-id :
    (now : ℕ) (sent : Bool) (n : ℕ) (d : Delivery)
    → (after_post now sent n d).report_id ≡ d.report_id
unfolding after_post
after_post-id now true n d = refl
after_post-id now false n d = refl

-- The update of another report's delivery.
update-Settled :
    (now : ℕ) (sent : Bool) (due : Delivery) (i : ℕ) (ds : List Delivery)
    → (due.report_id == i) ≡ false
    → Settled i ds
    → Settled i (update (λ d. d.report_id == due.report_id) (after_post now sent due.attempts) ds)
update-Settled now sent due i ds other s = (there ds s.0, closed_all ds s.1)
  where
    there :
        (xs : List Delivery)
        → exists (λ d. d.report_id == i) xs ≡ true
        → exists
            (λ d. d.report_id == i)
            (update (λ d. d.report_id == due.report_id) (after_post now sent due.attempts) xs)
          ≡ true
    there [] e = e
    there (x ∷ xs) e = elim (Bool-cases (x.report_id == due.report_id)) [
      | inl f ↦ rw (f, after_post-id now sent due.attempts x) (ground (arith, there xs, e))
      | inr f ↦ rw f (ground (arith, there xs, e))
    ]

    named :
        (x : Delivery)
        → (x.report_id == due.report_id) ≡ true
        → ((after_post now sent due.attempts x).report_id == i) ≡ true
        → ⊥
    named x f g =
        let h = rw (after_post-id now sent due.attempts x) at g in ground (arith, f, h, other)

    closed_all :
        (xs : List Delivery)
        → All (λ d. (d.report_id == i) ≡ true → closed d ≡ true) xs
        → All
            (λ d. (d.report_id == i) ≡ true → closed d ≡ true)
            (update (λ d. d.report_id == due.report_id) (after_post now sent due.attempts) xs)
    closed_all [] a = tt
    closed_all (x ∷ xs) a = elim (Bool-cases (x.report_id == due.report_id)) [
      | inl f ↦ rw f ((λ g. absurd (named x f g)), closed_all xs a.1)
      | inr f ↦ rw f (a.0, closed_all xs a.1)
    ]

module _ (i n : ℕ) where
  -- The report is settled, and was posted so often.
  abbrev Quiet : Outbox → Type 0
  Quiet t = Settled i t.deliveries × (posts_of i t ≡ n)

  send_webhook-Quiet : (j : ℕ) → (j == i) ≡ false → Preserves Quiet (send_webhook j)
  unfolding send_webhook posts_of
  send_webhook-Quiet j other t f (s, e) = (s, rw other e)

  deliver_all-Quiet :
      (now : ℕ) (ds : List Delivery) → OfOthers i ds → Preserves Quiet (deliver_all now ds)
  unfolding deliver_all set_posted posts_of
  deliver_all-Quiet now [] a = λ t f q. q
  deliver_all-Quiet now (d ∷ ds) a =
      bind-Preserves Quiet (query (λ t. tt) >> send_webhook d.report_id)
        (λ sent. exec (set_posted now sent d) >> deliver_all now ds)
        (bind-Preserves Quiet (query (λ t. tt)) (λ _. send_webhook d.report_id)
          (query-Preserves Quiet (λ t. tt)) (λ _. send_webhook-Quiet d.report_id a.0))
        (λ sent.
          bind-Preserves Quiet (exec (set_posted now sent d)) (λ _. deliver_all now ds)
            (exec-Preserves Quiet (set_posted now sent d)
              (λ t (s, e). (update-Settled now sent d i t.deliveries a.0 s, e)))
            (λ _. deliver_all-Quiet now ds a.1))

  due_then_deliver :
      (urls : List ℕ) (now : ℕ)
      → Preserves Quiet (query (λ t. due_deliveries urls now t.deliveries) >>= deliver_all now)
  due_then_deliver urls now t f q =
      chain-query (λ _. Quiet) (λ u. due_deliveries urls now u.deliveries) t f (deliver_all now)
        (λ g.
          deliver_all-Quiet now (due_deliveries urls now t.deliveries)
            (due_deliveries-OfOthers urls now i t.deliveries q.0) t g q)
        q

  run_once-Quiet : (urls : List ℕ) (now : ℕ) → Preserves Quiet (run_once urls now)
  unfolding run_once queue_verified posts_of
  run_once-Quiet [] now = λ t f q. q
  run_once-Quiet (u ∷ urls) now =
      bind-Preserves Quiet (exec (queue_verified (u ∷ urls) now))
        (λ _. query (λ t. due_deliveries (u ∷ urls) now t.deliveries) >>= deliver_all now)
        (exec-Preserves Quiet (queue_verified (u ∷ urls) now)
          (λ t (s, e). (queue_all-Settled (u ∷ urls) now i t.deliveries t.reports s, e)))
        (λ _. due_then_deliver (u ∷ urls) now)

  run_all-Quiet :
      (urls times : List ℕ) (t : Outbox) (f : List Bool) → Quiet t → Quiet (run_all urls times t f)
  unfolding run_all
  run_all-Quiet urls [] t f q = q
  run_all-Quiet urls (now ∷ times) t f q =
      run_all-Quiet urls times (run_once urls now t f).1 (run_once urls now t f).2
        (run_once-Quiet urls now t f q)

-- A report whose delivery is recorded as made, or has ten attempts recorded, is not posted again in any
-- runs, whatever fails in them.
pub run_all-posts_of :
    (i : ℕ) (urls times : List ℕ) (t : Outbox) (f : List Bool)
    → Settled i t.deliveries
    → posts_of i (run_all urls times t f) ≡ posts_of i t
run_all-posts_of i urls times t f s = (run_all-Quiet i (posts_of i t) urls times t f (s, refl)).1
